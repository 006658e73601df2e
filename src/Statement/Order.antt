-- ===== src/Statement/Order.antt =====
-- The order of a statement of app/services/statement_service.py.
use pstu_hack_final.Statement.{newer}
use pstu_hack_final.Models.{LedgerEntry}
use pstu_hack_final.Common.{
  insert_by, sort_by, ◌≡◌, refl, ◌≢◌, inl, inr, Bool, true, false, List, [], ◌∷◌, arith,
  if◌then◌else◌, keep, All, Bool-cases,
}

-- Each entry is older than those before it.
abbrev pub Descending : List LedgerEntry → Type 0
Descending [] = Unit
Descending (e ∷ es) = All (λ (f : LedgerEntry). newer e f ≡ true) es × Descending es

-- The ids are all different.
abbrev pub Apart : List LedgerEntry → Type 0
Apart [] = Unit
Apart (e ∷ es) = All (λ (f : LedgerEntry). e.id ≢ f.id) es × Apart es

pub newer_trans : (a b c : LedgerEntry) → newer a b ≡ true → newer b c ≡ true → newer a c ≡ true
newer_trans a b c h k = ground arith

newer_total : (a b : LedgerEntry) → a.id ≢ b.id → newer a b ≡ false → newer b a ≡ true
newer_total a b ne h = ground arith

module _ {ℓ} (P : LedgerEntry → Type ℓ) where
  All-insert_by :
      (x : LedgerEntry) (ys : List LedgerEntry) → P x → All P ys → All P (insert_by newer x ys)
  All-insert_by x [] p a = (p, tt)
  All-insert_by x (y ∷ ys) p a = elim (Bool-cases (newer x y)) [
    | inl e ↦ rw e (p, a)
    | inr e ↦ rw e (a.0, All-insert_by x ys p a.1)
  ]

  All-sort_by : (xs : List LedgerEntry) → All P xs → All P (sort_by newer xs)
  All-sort_by [] a = tt
  All-sort_by (x ∷ xs) a = All-insert_by x (sort_by newer xs) a.0 (All-sort_by xs a.1)

  pub All-keep : (q : LedgerEntry → Bool) (xs : List LedgerEntry) → All P xs → All P (keep q xs)
  All-keep q [] a = tt
  All-keep q (x ∷ xs) a = elim (Bool-cases (q x)) [
    | inl e ↦ rw e (a.0, All-keep q xs a.1)
    | inr e ↦ rw e (All-keep q xs a.1)
  ]

  All-imp :
      (Q : LedgerEntry → Type ℓ) (xs : List LedgerEntry)
      → ((x : LedgerEntry) → Q x → P x)
      → All Q xs
      → All P xs
  All-imp Q [] f a = tt
  All-imp Q (x ∷ xs) f a = (f x a.0, All-imp Q xs f a.1)

older :
    (x y : LedgerEntry) (ys : List LedgerEntry)
    → newer x y ≡ true
    → All (λ (f : LedgerEntry). newer y f ≡ true) ys
    → All (λ (f : LedgerEntry). newer x f ≡ true) ys
older x y ys h a =
    All-imp (λ f. newer x f ≡ true) (λ f. newer y f ≡ true) ys (λ f k. newer_trans x y f h k) a

Descending-insert_by :
    (x : LedgerEntry) (ys : List LedgerEntry)
    → All (λ (f : LedgerEntry). x.id ≢ f.id) ys
    → Descending ys
    → Descending (insert_by newer x ys)
Descending-insert_by x [] ne d = (tt, tt)
Descending-insert_by x (y ∷ ys) ne d = elim (Bool-cases (newer x y)) [
  | inl e ↦ rw e ((e, older x y ys e d.0), d)
  | inr e ↦ rw e (
    All-insert_by (λ f. newer y f ≡ true) x ys (newer_total x y ne.0 e) d.0,
    Descending-insert_by x ys ne.1 d.1,
  )
]

pub Descending-sort_by : (xs : List LedgerEntry) → Apart xs → Descending (sort_by newer xs)
Descending-sort_by [] a = tt
Descending-sort_by (x ∷ xs) a =
    Descending-insert_by x (sort_by newer xs) (All-sort_by (λ f. x.id ≢ f.id) xs a.0)
      (Descending-sort_by xs a.1)

pub Descending-keep :
    (q : LedgerEntry → Bool) (xs : List LedgerEntry) → Descending xs → Descending (keep q xs)
Descending-keep q [] d = tt
Descending-keep q (x ∷ xs) d = elim (Bool-cases (q x)) [
  | inl e ↦ rw e (All-keep (λ f. newer x f ≡ true) q xs d.0, Descending-keep q xs d.1)
  | inr e ↦ rw e (Descending-keep q xs d.1)
]

pub Apart-keep : (q : LedgerEntry → Bool) (xs : List LedgerEntry) → Apart xs → Apart (keep q xs)
Apart-keep q [] d = tt
Apart-keep q (x ∷ xs) d = elim (Bool-cases (q x)) [
  | inl e ↦ rw e (All-keep (λ f. x.id ≢ f.id) q xs d.0, Apart-keep q xs d.1)
  | inr e ↦ rw e (Apart-keep q xs d.1)
]

insert_by-first :
    (x : LedgerEntry) (ys : List LedgerEntry)
    → All (λ (f : LedgerEntry). newer x f ≡ true) ys
    → insert_by newer x ys ≡ x ∷ ys
insert_by-first x [] a = refl
insert_by-first x (y ∷ ys) a = rw (a.0) refl

keep-insert_by :
    (q : LedgerEntry → Bool) (x : LedgerEntry) (ys : List LedgerEntry)
    → Descending ys
    → keep q (insert_by newer x ys) ≡ (if q x then insert_by newer x (keep q ys) else keep q ys)
keep-insert_by q x [] d = ground arith
keep-insert_by q x (y ∷ ys) d = elim (Bool-cases (newer x y)) [
  | inl e ↦
      let first =
        insert_by-first x (keep q (y ∷ ys))
          (All-keep (λ f. newer x f ≡ true) q (y ∷ ys) (e, older x y ys e d.0)) in
      ground (arith, e, first)
  | inr e ↦ ground (arith, e, keep-insert_by q x ys d.1)
]

-- Selecting and sorting commute.
pub keep-sort_by :
    (q : LedgerEntry → Bool) (xs : List LedgerEntry)
    → Apart xs
    → keep q (sort_by newer xs) ≡ sort_by newer (keep q xs)
keep-sort_by q [] a = refl
keep-sort_by q (x ∷ xs) a = ground (
  arith,
  keep-insert_by q x (sort_by newer xs) (Descending-sort_by xs a.1),
  keep-sort_by q xs a.1,
)
