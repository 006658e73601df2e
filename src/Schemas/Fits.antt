-- ===== src/Schemas/Fits.antt =====
-- Accepted bodies against the column types of the database: the lengths of app/schemas are within
-- those of the migration.
use pstu_hack_final.Common.{
  ℕ, ◌≡◌, refl, ◌≢◌, inl, inr, Bool, true, false, ◌&&◌, ◌||◌, not, Option, none, some, List, [],
  ◌∷◌, arith, leb, length, All, Bool-cases, Option-cases,
}
use pstu_hack_final.Common.Int.{pos, leb_ℤ}
use pstu_hack_final.Common.Text.{Text}
use pstu_hack_final.Db.Checks.{
  transaction_integrity, first_of, overflows, transaction_violation, too_long,
}
use pstu_hack_final.Schemas.Amounts.{money_amount_bounds}
use pstu_hack_final.Db.Tables.{Tables}
use pstu_hack_final.Ledger.{pending_transaction, Posting}
use pstu_hack_final.Env.{Env}
use pstu_hack_final.Security.{length-make_reference, make_reference}
use pstu_hack_final.Schemas.Texts.{clean_free_text_lem}
use pstu_hack_final.Schemas.{
  full_name, no_extra, is_pin, money_amount, TransferFields, within, clean_free_text,
  TransferRequest, is_phone, check_transfer, clean_note,
}
use pstu_hack_final.Errors.{Constraint, Exn}

-- `DataError`: a value that its column's type cannot hold. It is no IntegrityError, so no handler
-- of the services catches it.
abbrev pub is_data_error : Option Exn → Bool
is_data_error (some Exn.out_of_range) = true
is_data_error (some Exn.value_too_long) = true
is_data_error e = false

pub length-phone : (s : Text) → is_phone s ≡ true → length s ≡ 11
unfolding is_phone
length-phone [] h = cc
length-phone (a ∷ []) h = cc
length-phone (a ∷ b ∷ []) h = cc
length-phone (a ∷ b ∷ c ∷ s) h = ground arith

note-fits : (v n : Option Text) → clean_note v ≡ some n → too_long 255 n ≡ false
unfolding clean_note clean_free_text
note-fits v none h = refl
note-fits none (some t) h = absurd cc
note-fits (some v) (some t) h = elim (Bool-cases (leb (length v) 255)) [
  | inl e ↦ let l = clean_free_text_lem v t (ground arith) in ground (arith, l.2)
  | inr e ↦ absurd (ground arith)
]

pub name-fits : (v t : Text) → full_name v ≡ some t → too_long 100 (some t) ≡ false
unfolding full_name
name-fits v t h = elim (Bool-cases (within 2 100 v)) [
  | inl e ↦ elim (Option-cases (clean_free_text (some v))) [
    | inl o ↦ absurd (ground arith)
    | inr (n, o) ↦ let l = clean_free_text_lem v t (ground arith) in ground (arith, l.2)
  ]
  | inr e ↦ absurd (ground arith)
]

check_transfer-parts :
    (r : TransferRequest) (f : TransferFields)
    → check_transfer r ≡ some f
    → (is_phone f.recipient_phone ≡ true)
      × (money_amount r.amount ≡ some f.amount)
      × (clean_note r.note ≡ some f.note)
      × (is_pin f.pin ≡ true)
unfolding check_transfer
check_transfer-parts r f h =
    elim (Bool-cases (no_extra r.extra && is_phone r.recipient_phone && is_pin r.pin)) [
      | inl e ↦ elim (Option-cases (money_amount r.amount)) [
        | inl o ↦ absurd (ground arith)
        | inr (a, o) ↦ elim (Option-cases (clean_note r.note)) [
          | inl p ↦ absurd (ground arith)
          | inr (n, p) ↦ ground arith
        ]
      ]
      | inr e ↦ absurd (ground arith)
    ]

-- An exception that neither names an overlong value nor the check of the amount.
abbrev is_later : Exn → Bool
is_later (Exn.integrity Constraint.amount_positive) = false
is_later e = not (is_data_error (some e))

first_of-later :
    (cs : List (Bool × Exn))
    → All (λ c. is_later c.1 ≡ true) cs
    → (is_data_error (first_of cs) ≡ false)
      × (first_of cs ≢ some (Exn.integrity Constraint.amount_positive))
first_of-later [] a = (refl, λ e. cc)
first_of-later ((true, x) ∷ cs) a = (ground (arith, a.0), λ e. absurd (ground (arith, a.0)))
first_of-later ((false, x) ∷ cs) a = first_of-later cs a.1

refused_later :
    (a b c : Bool) (cs : List (Bool × Exn))
    → a ≡ false
    → b ≡ false
    → c ≡ false
    → All (λ x. is_later x.1 ≡ true) cs
    → (is_data_error (
          first_of (
            (a, Exn.out_of_range)
            ∷ (b, Exn.value_too_long)
            ∷ (c, Exn.integrity Constraint.amount_positive)
            ∷ cs))
        ≡ false)
      × (first_of (
            (a, Exn.out_of_range)
            ∷ (b, Exn.value_too_long)
            ∷ (c, Exn.integrity Constraint.amount_positive)
            ∷ cs)
          ≢ some (Exn.integrity Constraint.amount_positive))
refused_later a b c cs x y z l = rw (x, y, z) (first_of-later cs l)

-- The transaction row of an accepted transfer body never meets a value that its column cannot hold, nor the check of a positive amount, given a header of at most 64 characters and a reference of 8 draws.
pub check_transfer-transaction_violation :
    (r : TransferRequest) (f : TransferFields) (env : Env) (id : ℕ) (p : Posting) (d : Tables)
    → check_transfer r ≡ some f
    → p.amount ≡ f.amount
    → p.note ≡ f.note
    → length env.draws ≡ 8
    → too_long 64 p.idempotency_key ≡ false
    → (is_data_error (transaction_violation (pending_transaction env id p) d) ≡ false)
      × (transaction_violation (pending_transaction env id p) d
          ≢ some (Exn.integrity Constraint.amount_positive))
unfolding transaction_violation
check_transfer-transaction_violation r f env id p d h a n k l =
    let parts = check_transfer-parts r f h in
    let bounds = money_amount_bounds r.amount f.amount parts.1 in
    let fits = note-fits r.note f.note parts.2 in
    let reference = length-make_reference env.draws in
    let row = pending_transaction env id p in
    refused_later (overflows p.amount)
      (too_long 20 (some (make_reference env.draws))
        || too_long 255 p.note
        || too_long 64 p.idempotency_key)
      (leb_ℤ p.amount (pos 0)) (transaction_integrity row d) (ground (arith, bounds))
      (ground (arith, fits, reference)) (ground (arith, bounds))
      (refl, (refl, (refl, (refl, (refl, (refl, tt))))))
