-- ===== src/Statement/Cuts.antt =====
-- Cutting a list of entries into a page and what is left, for app/services/statement_service.py.
use pstu_hack_final.Common.{
  ℕ, zero, suc, ◌+◌, ◌-◌, ◌≤◌, ◌≡◌, refl, ap, subst, inl, inr, Bool, true, false, ◌&&◌, none, some,
  List, [], ◌∷◌, ◌++◌, arith, ltb, length, take, keep, All, Bool-cases,
}
use pstu_hack_final.Statement.Order.{Descending}
use pstu_hack_final.Models.{LedgerEntry}
use pstu_hack_final.Statement.{precedes, is_after, last_position, position_of, Position}

abbrev pub drop : ℕ → List LedgerEntry → List LedgerEntry
drop zero es = es
drop (suc n) [] = []
drop (suc n) (e ∷ es) = drop n es

pub take-drop : (n : ℕ) (es : List LedgerEntry) → take n es ++ drop n es ≡ es
take-drop zero es = refl
take-drop (suc n) [] = refl
take-drop (suc n) (e ∷ es) = ap (λ xs. e ∷ xs) (take-drop n es)

pub take-take : (n : ℕ) (es : List LedgerEntry) → take n (take (n + 1) es) ≡ take n es
take-take zero es = ground arith
take-take (suc n) [] = ground arith
take-take (suc n) (e ∷ es) = ground (arith, take-take n es)

pub length-take :
    (n : ℕ) (es : List LedgerEntry) → ltb n (length (take (n + 1) es)) ≡ ltb n (length es)
length-take zero [] = refl
length-take zero (e ∷ es) = ground arith
length-take (suc n) [] = ground arith
length-take (suc n) (e ∷ es) = ground (arith, length-take n es)

pub take-all : (n : ℕ) (es : List LedgerEntry) → ltb n (length es) ≡ false → take n es ≡ es
take-all zero [] h = refl
take-all zero (e ∷ es) h = absurd (ground arith)
take-all (suc n) [] h = refl
take-all (suc n) (e ∷ es) h = ap (λ xs. e ∷ xs) (take-all n es (ground arith))

pub length-drop : (n : ℕ) (es : List LedgerEntry) → length (drop n es) ≡ length es - n
length-drop zero es = ground arith
length-drop (suc n) [] = ground arith
length-drop (suc n) (e ∷ es) = ground (arith, length-drop n es)

pub append-nil : (es : List LedgerEntry) → es ++ [] ≡ es
append-nil [] = refl
append-nil (e ∷ es) = ap (λ xs. e ∷ xs) (append-nil es)

-- The last position of a page is that of one of its entries.
pub last_position-All :
    (P : Position → Type 0) (n : ℕ) (es : List LedgerEntry) (q : Position)
    → All (λ (e : LedgerEntry). P (position_of e)) es
    → last_position (take n es) ≡ some q
    → P q
last_position-All P zero es q a h = absurd (ground arith)
last_position-All P (suc n) [] q a h = absurd (ground arith)
last_position-All P (suc zero) (e ∷ es) q a h =
    subst P {x = position_of e} {y = q} (ground arith) a.0
last_position-All P (suc (suc n)) (e ∷ []) q a h =
    subst P {x = position_of e} {y = q} (ground arith) a.0
last_position-All P (suc (suc n)) (e ∷ f ∷ es) q a h = last_position-All P (suc n) (f ∷ es) q a.1 h

keep-All :
    (p : LedgerEntry → Bool) (es : List LedgerEntry)
    → All (λ (e : LedgerEntry). p e ≡ true) es
    → keep p es ≡ es
keep-All p [] a = refl
keep-All p (e ∷ es) a = rw (a.0) (ap (λ xs. e ∷ xs) (keep-All p es a.1))

-- In a descending list, the entries after the last position of a page are those that follow it.
pub keep-after :
    (n : ℕ) (es : List LedgerEntry) (q : Position)
    → Descending es
    → last_position (take n es) ≡ some q
    → keep (is_after (some q)) es ≡ drop n es
keep-after zero es q d h = absurd (ground arith)
keep-after (suc n) [] q d h = refl
keep-after (suc zero) (e ∷ es) q d h =
    let same : position_of e ≡ q = ground arith in
    let rest = keep-All (is_after (some (position_of e))) es d.0 in
    subst (λ k. keep (is_after (some k)) (e ∷ es) ≡ es) same (ground (arith, rest))
keep-after (suc (suc n)) (e ∷ []) q d h = ground arith
keep-after (suc (suc n)) (e ∷ f ∷ es) q d h =
    let below =
      last_position-All (λ p. precedes p (position_of e) ≡ true) (suc n) (f ∷ es) q d.0 h in
    ground (arith, below, keep-after (suc n) (f ∷ es) q d.1 h)

pub keep-true : (es : List LedgerEntry) → keep (is_after none) es ≡ es
keep-true [] = refl
keep-true (e ∷ es) = ap (λ xs. e ∷ xs) (keep-true es)

pub last_position-some :
    (n : ℕ) (es : List LedgerEntry)
    → ltb n (length es) ≡ true
    → 1 ≤ n
    → (q : Position) × (last_position (take n es) ≡ some q)
last_position-some zero es h k = absurd (ground arith)
last_position-some (suc n) [] h k = absurd (ground arith)
last_position-some (suc zero) (e ∷ es) h k = (position_of e, refl)
last_position-some (suc (suc n)) (e ∷ []) h k = (position_of e, refl)
last_position-some (suc (suc n)) (e ∷ f ∷ es) h k =
    last_position-some (suc n) (f ∷ es) (ground arith) (ground arith)

pub empty-of_length : (es : List LedgerEntry) → length es ≤ 0 → es ≡ []
empty-of_length [] h = refl
empty-of_length (e ∷ es) h = absurd (ground arith)

pub keep-keep :
    (p q : LedgerEntry → Bool) (es : List LedgerEntry)
    → ((e : LedgerEntry) → q e ≡ true → p e ≡ true)
    → keep q (keep p es) ≡ keep q es
keep-keep p q [] f = refl
keep-keep p q (e ∷ es) f = elim (Bool-cases (q e)) [
  | inl h ↦ ground (arith, h, f e h, keep-keep p q es f)
  | inr h ↦ elim (Bool-cases (p e)) [
    | inl k ↦ ground (arith, h, k, keep-keep p q es f)
    | inr k ↦ ground (arith, h, k, keep-keep p q es f)
  ]
]

pub keep-and :
    (p q : LedgerEntry → Bool) (es : List LedgerEntry)
    → keep (λ e. p e && q e) es ≡ keep q (keep p es)
keep-and p q [] = refl
keep-and p q (e ∷ es) = ground (arith, keep-and p q es)
