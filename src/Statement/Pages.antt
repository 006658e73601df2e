-- ===== src/Statement/Pages.antt =====
-- The pages of app/services/statement_service.py cover the statement.
use pstu_hack_final.Common.{
  ℕ, zero, suc, ◌+◌, ◌≤◌, ◌≡◌, sym, ap, subst, ◌∙◌, inl, inr, true, Option, none, some, List, [],
  ◌∷◌, arith, ltb, if◌then◌else◌, length, take, keep, All, Bool-cases, sort_by,
}
use pstu_hack_final.Db.Tables.{Tables}
use pstu_hack_final.Statement.Order.{
  Descending-keep, keep-sort_by, Apart-keep, Descending-sort_by, Apart, Descending,
}
use pstu_hack_final.Models.{LedgerEntry}
use pstu_hack_final.Statement.{
  follow, is_listed, newer, clamp, page, select_entries, statement, precedes, is_after,
  last_position, position_of, Position,
}
use pstu_hack_final.Statement.Cuts.{
  drop, take-drop, take-take, length-take, take-all, length-drop, append-nil, last_position-All,
  keep-after, keep-true, last_position-some, empty-of_length, keep-keep, keep-and,
}

-- What a page shows and where the next one starts, in terms of the entries that are left.
module _ (d : Tables) (w : ℕ) (distinct : Apart d.ledger_entries) where
  select_entries-eq :
      (p : Option Position) (n : ℕ)
      → select_entries d w p n ≡ take n (keep (is_after p) (statement d w))
  unfolding select_entries statement
  select_entries-eq p n = ap (take n) (
      ap (sort_by newer) (keep-and (is_listed d w) (is_after p) d.ledger_entries)
      ∙ sym (
          keep-sort_by (is_after p) (keep (is_listed d w) d.ledger_entries)
            (Apart-keep (is_listed d w) d.ledger_entries distinct)))

  statement-Descending : Descending (statement d w)
  unfolding statement
  statement-Descending =
      Descending-sort_by (keep (is_listed d w) d.ledger_entries)
        (Apart-keep (is_listed d w) d.ledger_entries distinct)

  left : Option Position → List LedgerEntry
  left p = keep (is_after p) (statement d w)

  page-eq :
      (limit : ℕ) (p : Option Position)
      → page d w limit p ≡ (
        take (clamp limit) (left p),
        if ltb (clamp limit) (length (left p))
            then last_position (take (clamp limit) (left p))
            else none,
      )
  unfolding page left
  page-eq limit p = ground (
    arith,
    select_entries-eq p (clamp limit + 1),
    take-take (clamp limit) (left p),
    length-take (clamp limit) (left p),
  )

  All-after :
      (p : Position) (es : List LedgerEntry)
      → All (λ (e : LedgerEntry). precedes (position_of e) p ≡ true) (keep (is_after (some p)) es)
  All-after p [] = tt
  All-after p (e ∷ es) = elim (Bool-cases (precedes (position_of e) p)) [
    | inl h ↦ rw h (h, All-after p es)
    | inr h ↦ rw h (All-after p es)
  ]

  -- The next page starts where this one ends.
  left-next :
      (n : ℕ) (p : Option Position) (q : Position)
      → last_position (take n (left p)) ≡ some q
      → left (some q) ≡ drop n (left p)
  unfolding left
  left-next n none q h =
      subst (λ es. keep (is_after (some q)) (statement d w) ≡ drop n es)
        (sym (keep-true (statement d w)))
        (keep-after n (statement d w) q statement-Descending
          (subst (λ es. last_position (take n es) ≡ some q) (keep-true (statement d w)) h))
  left-next n (some p) q h =
      let rest = keep (is_after (some p)) (statement d w) in
      let below =
        last_position-All (λ k. precedes k p ≡ true) n rest q (All-after p (statement d w)) h in
      sym (
        keep-keep (is_after (some p)) (is_after (some q)) (statement d w)
          (λ e k. ground (arith, below, k)))
      ∙ keep-after n rest q
          (Descending-keep (is_after (some p)) (statement d w) statement-Descending) h

  follow-left :
      (limit n : ℕ) (p : Option Position) → length (left p) ≤ n → follow d w limit n p ≡ left p
  unfolding follow
  follow-left limit zero p h = sym (empty-of_length (left p) h)
  follow-left limit (suc n) p h =
      let k = clamp limit in
      let e = page-eq limit p in
      elim (Bool-cases (ltb k (length (left p)))) [
        | inr short ↦ ground (arith, e, short, take-all k (left p) short, append-nil (left p))
        | inl more ↦
            let (q, last) = last_position-some k (left p) more (ground arith) in
            let next = left-next k p q last in
            let fits : length (left (some q)) ≤ n =
              rw next (ground (arith, h, more, length-drop k (left p))) in
            let rest = follow-left limit n (some q) fits in
            ground (arith, e, more, last, rest, next, take-drop k (left p))
      ]

-- The pages that a client gets by following the cursors from the first page, whatever the limit, are
-- together the wallet's whole statement, newest entry first: no entry is skipped and none is shown
-- twice, if the entries' ids differ and there are as many steps as entries.
pub pages_cover :
    (d : Tables) (w limit n : ℕ)
    → Apart d.ledger_entries
    → length (statement d w) ≤ n
    → follow d w limit n none ≡ statement d w
unfolding left
pages_cover d w limit n distinct enough =
    let whole = keep-true (statement d w) in
    follow-left d w distinct limit n none (subst (λ es. length es ≤ n) (sym whole) enough) ∙ whole
