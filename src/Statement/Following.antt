-- ===== src/Statement/Following.antt =====
-- A client of app/services/statement_service.py that follows the textual cursors.
use pstu_hack_final.Common.{
  ℕ, zero, suc, ◌+◌, ◌≤◌, ◌≡◌, refl, sym, ap, ◌∙◌, inl, inr, Bool, true, ◌&&◌, Option, none, some,
  List, [], ◌∷◌, ◌++◌, map, arith, ◌==◌, length, take, keep, All, Bool-cases, Option-cases, sort_by,
  insert_by,
}
use pstu_hack_final.Common.Text.{Text}
use pstu_hack_final.Statement.Pages.{pages_cover}
use mathlib.Core.Path.{ap₂}
use pstu_hack_final.Statement.Order.{Apart}
use pstu_hack_final.Common.Base64.{decode_from, pad, b64decode}
use pstu_hack_final.Statement.{
  statement, is_after, is_listed, newer, clamp, Position, select_entries, follow, page,
}
use pstu_hack_final.Statement.Cursor.{
  decode_cursor-encode_cursor, encode_cursor, rsplit_bar, decode_cursor, FormatLaws, Formats,
}
use pstu_hack_final.Statement.Rows.{
  add_pair, statement_entry, entry_rows, with_transactions, start_of, statement_page,
  StatementEntry,
}
use pstu_hack_final.Db.Tables.{find_transaction, has_transaction, Tables}
use pstu_hack_final.Models.{User, Transaction, LedgerEntry}

-- The rows of at most `n` pages, each asked for by the cursor of the one before.
unfoldable pub follow_cursors : Formats → Tables → ℕ → ℕ → ℕ → Option Text → List StatementEntry
follow_cursors lib d w limit zero c = []
follow_cursors lib d w limit (suc n) c =
    let shown = statement_page lib d w limit c in
    let rest = follow_cursors lib d w limit n shown.1 in
    shown.0 ++ elim (shown.1) [ none ↦ [] | some t ↦ rest ]

abbrev pub row_ids : List StatementEntry → List ℕ
row_ids = map (λ (r : StatementEntry). r.id)

abbrev pub entry_ids : List LedgerEntry → List ℕ
entry_ids = map (λ (e : LedgerEntry). e.id)

map-append : {A B : Type 0} (f : A → B) (xs ys : List A) → map f (xs ++ ys) ≡ map f xs ++ map f ys
map-append f [] ys = refl
map-append f (x ∷ xs) ys = ap (λ zs. f x ∷ zs) (map-append f xs ys)

abbrev HasTransaction : Tables → LedgerEntry → Type 0
HasTransaction d e = has_transaction e.transaction_id d.transactions ≡ true

All-keep_listed :
    (d : Tables) (p : LedgerEntry → Bool) (es : List LedgerEntry)
    → ((e : LedgerEntry) → p e ≡ true → HasTransaction d e)
    → All (HasTransaction d) (keep p es)
All-keep_listed d p [] f = tt
All-keep_listed d p (e ∷ es) f = elim (Bool-cases (p e)) [
  | inl h ↦ rw h (f e h, All-keep_listed d p es f)
  | inr h ↦ rw h (All-keep_listed d p es f)
]

All-take_part : {A : Type 0} (P : A → Type 0) (n : ℕ) (xs : List A) → All P xs → All P (take n xs)
All-take_part P zero xs a = tt
All-take_part P (suc n) [] a = tt
All-take_part P (suc n) (x ∷ xs) a = (a.0, All-take_part P n xs a.1)

All-insert_by :
    {A : Type 0} (P : A → Type 0) (b : A → A → Bool) (x : A) (xs : List A)
    → P x
    → All P xs
    → All P (insert_by b x xs)
All-insert_by P b x [] h a = (h, tt)
All-insert_by P b x (y ∷ ys) h a = elim (Bool-cases (b x y)) [
  | inl e ↦ rw e (h, a)
  | inr e ↦ rw e (a.0, All-insert_by P b x ys h a.1)
]

All-sort_by :
    {A : Type 0} (P : A → Type 0) (b : A → A → Bool) (xs : List A) → All P xs → All P (sort_by b xs)
All-sort_by P b [] a = tt
All-sort_by P b (x ∷ xs) a = All-insert_by P b x (sort_by b xs) a.0 (All-sort_by P b xs a.1)

-- Every entry of a page has its transaction.
page-HasTransaction :
    (d : Tables) (w limit : ℕ) (p : Option Position) → All (HasTransaction d) (page d w limit p).0
unfolding page select_entries
page-HasTransaction d w limit p = All-take_part _ (clamp limit) _ (
    All-take_part _ (clamp limit + 1) _ (
      All-sort_by _ newer _ (
        All-keep_listed d (λ e. is_listed d w e && is_after p e) d.ledger_entries
          (λ e h. ground arith))))

find-transaction :
    (i : ℕ) (ts : List Transaction)
    → has_transaction i ts ≡ true
    → (t : Transaction) × (find_transaction i ts ≡ some t)
find-transaction i [] h = cc
find-transaction i (t ∷ ts) h = elim (Bool-cases (t.id == i)) [
  | inl e ↦ (t, rw e refl)
  | inr e ↦ let (u, f) = find-transaction i ts (ground (arith, e)) in (u, rw e f)
]

with_transactions-some :
    (d : Tables) (e : LedgerEntry) (es : List LedgerEntry) (t : Transaction)
    → find_transaction e.transaction_id d.transactions ≡ some t
    → with_transactions d (e ∷ es) ≡ (e, t) ∷ with_transactions d es
unfolding with_transactions
with_transactions-some d e es t f = ap (λ o. add_pair e o (with_transactions d es)) f

row_ids-with_transactions :
    (d : Tables) (names : List (ℕ × User)) (es : List LedgerEntry)
    → All (HasTransaction d) es
    → row_ids (map (statement_entry names) (with_transactions d es)) ≡ entry_ids es
unfolding with_transactions
row_ids-with_transactions d names [] a = refl
row_ids-with_transactions d names (e ∷ es) a =
    let (t, f) = find-transaction e.transaction_id d.transactions a.0 in
    ap (λ ps. row_ids (map (statement_entry names) ps)) (with_transactions-some d e es t f)
    ∙ ap (λ xs. e.id ∷ xs) (row_ids-with_transactions d names es a.1)

row_ids-entry_rows :
    (d : Tables) (es : List LedgerEntry)
    → All (HasTransaction d) es
    → row_ids (entry_rows d es) ≡ entry_ids es
unfolding entry_rows
row_ids-entry_rows d es a = row_ids-with_transactions d _ es a

-- A cursor that was handed out is no empty text, so it is used.
start_of-decoded :
    (lib : Formats) (p : Position) (t : Text)
    → FormatLaws lib
    → decode_cursor lib t ≡ some p
    → start_of lib (some t) ≡ some p
unfolding start_of decode_cursor b64decode pad decode_from rsplit_bar
start_of-decoded lib p [] laws h = absurd (ground (arith, h, laws.ascii [] tt))
start_of-decoded lib p (c ∷ s) laws h = h

module _ (lib : Formats) (laws : FormatLaws lib) (d : Tables) (w limit : ℕ) where
  page_of-none :
      (c : Option Text) (p : Option Position)
      → start_of lib c ≡ p
      → (page d w limit p).1 ≡ none
      → statement_page lib d w limit c ≡ (entry_rows d (page d w limit p).0, none)
  unfolding statement_page
  page_of-none c p e h = rw (e, h) refl

  page_of-some :
      (c : Option Text) (p : Option Position) (q : Position)
      → start_of lib c ≡ p
      → (page d w limit p).1 ≡ some q
      → statement_page lib d w limit c
        ≡ (entry_rows d (page d w limit p).0, some (encode_cursor lib q))
  unfolding statement_page
  page_of-some c p q e h = rw (e, h) refl

  follow_cursors-follow :
      (n : ℕ) (c : Option Text) (p : Option Position)
      → start_of lib c ≡ p
      → row_ids (follow_cursors lib d w limit n c) ≡ entry_ids (follow d w limit n p)
  unfolding follow_cursors follow
  follow_cursors-follow zero c p e = refl
  follow_cursors-follow (suc n) c p e = elim (Option-cases ((page d w limit p).1)) [
    | inl h ↦
        ap rows (page_of-none c p e h)
        ∙ both (page d w limit p).0 [] [] (page-HasTransaction d w limit p) refl
        ∙ sym (ap entries (λ i. ((page d w limit p).0, h i)))
    | inr (q, h) ↦
        let next =
          start_of-decoded lib q (encode_cursor lib q) laws
            (decode_cursor-encode_cursor lib q laws) in
        let rest = follow_cursors-follow n (some (encode_cursor lib q)) (some q) next in
        ap rows (page_of-some c p q e h)
        ∙ both (page d w limit p).0 (follow_cursors lib d w limit n (some (encode_cursor lib q)))
            (follow d w limit n (some q)) (page-HasTransaction d w limit p) rest
        ∙ sym (ap entries (λ i. ((page d w limit p).0, h i)))
  ]
    where
      rows : List StatementEntry × Option Text → List ℕ
      rows s =
          row_ids (s.0 ++ elim (s.1) [ none ↦ [] | some t ↦ follow_cursors lib d w limit n s.1 ])

      entries : List LedgerEntry × Option Position → List ℕ
      entries s = entry_ids (s.0 ++ elim (s.1) [ none ↦ [] | some q ↦ follow d w limit n s.1 ])

      both :
          (es : List LedgerEntry) (rs : List StatementEntry) (fs : List LedgerEntry)
          → All (HasTransaction d) es
          → row_ids rs ≡ entry_ids fs
          → row_ids (entry_rows d es ++ rs) ≡ entry_ids (es ++ fs)
      both es rs fs a same =
          map-append (λ (r : StatementEntry). r.id) (entry_rows d es) rs
          ∙ ap₂ (λ xs ys. xs ++ ys) (row_ids-entry_rows d es a) same
          ∙ sym (map-append (λ (e : LedgerEntry). e.id) es fs)

-- Following the textual cursors from the first page shows every entry of the wallet's statement once, newest first, whatever the limit, if the entries' ids differ, the libraries behave as documented and there are as many steps as entries.
pub cursors_cover :
    (lib : Formats) (d : Tables) (w limit n : ℕ)
    → FormatLaws lib
    → Apart d.ledger_entries
    → length (statement d w) ≤ n
    → row_ids (follow_cursors lib d w limit n none) ≡ entry_ids (statement d w)
unfolding start_of
cursors_cover lib d w limit n laws apart h =
    follow_cursors-follow lib laws d w limit n none none refl
    ∙ ap entry_ids (pages_cover d w limit n apart h)
