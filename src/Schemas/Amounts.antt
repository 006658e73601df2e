-- ===== src/Schemas/Amounts.antt =====
-- The amounts that app/schemas/transfer.py accepts.
use pstu_hack_final.Common.{
  ℕ, zero, suc, ◌+◌, ◌-◌, ◌*◌, ◌/◌, ◌%◌, ◌≤◌, ◌<◌, ◌≡◌, refl, subst, inl, inr, false, some, [], ◌∷◌,
  ◌++◌, arith, leb, length, All, Bool-cases, Option-cases,
}
use pstu_hack_final.Common.Int.{ℤ, pos, ◌≤ℤ◌}
use pstu_hack_final.Common.Text.{Text}
use pstu_hack_final.Db.Checks.{overflows}
use pstu_hack_final.Common.Decimal.{
  read_digits-digits, length-digits_pos, length-digits_le, is_digit, read_digits, digits-IsDigit,
  IsDigit, digits, power_of_ten,
}
use pstu_hack_final.Schemas.{
  integer_text, within, hundredths, read_fraction, AmountInput, span_digits, plain_decimal,
  read_amount, money_amount,
}
use pstu_hack_final.Common.White.{strip, strip-ink, IsInk, is_space}

-- The usual notation of an amount of hundredths.
unfoldable pub amount_text : ℕ → Text
amount_text n = digits (n / 100) ++ 46 ∷ (48 + n / 10 % 10) ∷ (48 + n % 10) ∷ []

digit-IsInk : (c : ℕ) → IsDigit c → IsInk c
unfolding is_space
digit-IsInk c h = ground arith

All-append : (P : ℕ → Type 0) (s t : Text) → All P s → All P t → All P (s ++ t)
All-append P [] t a b = b
All-append P (c ∷ s) t a b = (a.0, All-append P s t a.1 b)

All-imp_text : (P Q : ℕ → Type 0) (s : Text) → ((c : ℕ) → P c → Q c) → All P s → All Q s
All-imp_text P Q [] f a = tt
All-imp_text P Q (c ∷ s) f a = (f c a.0, All-imp_text P Q s f a.1)

amount_text-IsInk : (n : ℕ) → All IsInk (amount_text n)
unfolding amount_text is_space
amount_text-IsInk n =
    All-append IsInk (digits (n / 100)) _
      (All-imp_text IsDigit IsInk (digits (n / 100)) digit-IsInk (digits-IsDigit (n / 100)))
      (
        refl,
        (
          digit-IsInk (48 + n / 10 % 10) (ground arith),
          (digit-IsInk (48 + n % 10) (ground arith), tt),
        ),
      )

span_digits-append : (s t : Text) → All IsDigit s → span_digits (s ++ 46 ∷ t) ≡ (s, 46 ∷ t)
span_digits-append [] t a = refl
span_digits-append (c ∷ s) t a = ground (arith, span_digits-append s t a.1)

span_digits-IsDigit : (s : Text) → All IsDigit (span_digits s).0
span_digits-IsDigit [] = tt
span_digits-IsDigit (c ∷ s) = elim (Bool-cases (is_digit c)) [
  | inl e ↦ rw e (e, span_digits-IsDigit s)
  | inr e ↦ rw e tt
]

read_amount-amount_text : (n : ℕ) → n < power_of_ten 15 → read_amount (amount_text n) ≡ some n
unfolding read_amount amount_text
read_amount-amount_text n h =
    let whole = digits (n / 100) in
    let tail = (48 + n / 10 % 10) ∷ (48 + n % 10) ∷ [] in
    let split = span_digits-append whole tail (digits-IsDigit (n / 100)) in
    let longest = length-digits_le (n / 100) 12 (omega arith) in
    rw split (ground (arith, longest, length-digits_pos (n / 100), read_digits-digits (n / 100)))

-- An amount above zero that the columns can hold, in its usual notation, is accepted for what it is.
pub money_amount-amount_text :
    (n : ℕ)
    → 0 < n
    → n < power_of_ten 15
    → money_amount (AmountInput.text (amount_text n)) ≡ some (pos n)
unfolding money_amount plain_decimal
money_amount-amount_text n h k =
    ground (arith, strip-ink (amount_text n) (amount_text-IsInk n), read_amount-amount_text n k)

power_of_ten_mono : (a b : ℕ) → a ≤ b → power_of_ten a ≤ power_of_ten b
power_of_ten_mono zero zero h = omega arith
power_of_ten_mono zero (suc b) h = omega (arith, power_of_ten_mono zero b)
power_of_ten_mono (suc a) zero h = absurd (omega arith)
power_of_ten_mono (suc a) (suc b) h = omega (arith, power_of_ten_mono a b)

read_digits-lt :
    (s : Text) (n j : ℕ)
    → All IsDigit s
    → n < power_of_ten j
    → read_digits n s < power_of_ten (length s + j)
read_digits-lt [] n j a h = subst (λ k. n < power_of_ten k) {x = j} {y = 0 + j} (omega arith) h
read_digits-lt (c ∷ s) n j a h =
    let same : length s + suc j ≡ suc (length s) + j = omega arith in
    subst (λ k. read_digits (n * 10 + (c - 48)) s < power_of_ten k) same
      (read_digits-lt s (n * 10 + (c - 48)) (suc j) a.1 (ground arith))

read_digits-bound :
    (s : Text) (k : ℕ) → All IsDigit s → length s ≤ k → read_digits 0 s < power_of_ten k
read_digits-bound s k a h =
    let l = read_digits-lt s 0 0 a (omega arith) in
    let m = power_of_ten_mono (length s) k h in
    omega (
      arith,
      subst (λ i. read_digits 0 s < power_of_ten i) {x = length s + 0} {y = length s} (omega arith)
          l,
      m,
    )

hundredths-lt : (s : Text) → All IsDigit s → length s ≤ 2 → hundredths s < 100
hundredths-lt [] a h = omega arith
hundredths-lt (c ∷ []) a h = ground (arith, a.0)
hundredths-lt (c ∷ d ∷ []) a h = read_digits-bound (c ∷ d ∷ []) 2 a (omega arith)
hundredths-lt (c ∷ d ∷ e ∷ s) a h = absurd (omega arith)

read_fraction-lt :
    (w n : ℕ) (s : Text) → w < power_of_ten 13 → read_fraction w s ≡ some n → n < power_of_ten 15
read_fraction-lt w n [] h e = ground arith
read_fraction-lt w n (c ∷ s) h e =
    let digit = span_digits-IsDigit s in
    elim (Bool-cases (leb (length (span_digits s).0) 2)) [
      | inl l ↦
          let small = hundredths-lt (span_digits s).0 digit (ground arith) in ground (arith, small)
      | inr l ↦ ground arith
    ]

read_amount-lt : (s : Text) (n : ℕ) → read_amount s ≡ some n → n < power_of_ten 15
unfolding read_amount
read_amount-lt s n e = elim (Bool-cases (within 1 13 (span_digits s).0)) [
  | inl l ↦
      let whole = read_digits-bound (span_digits s).0 13 (span_digits-IsDigit s) (ground arith) in
      read_fraction-lt (read_digits 0 (span_digits s).0) n (span_digits s).1 whole (ground arith)
  | inr l ↦ ground arith
]

plain_decimal-lt : (v : AmountInput) (n : ℕ) → plain_decimal v ≡ some n → n < power_of_ten 15
unfolding plain_decimal
plain_decimal-lt (AmountInput.decimal s) n e = read_amount-lt (strip s) n e
plain_decimal-lt (AmountInput.text s) n e = read_amount-lt (strip s) n e
plain_decimal-lt (AmountInput.integer z) n e = read_amount-lt (strip (integer_text z)) n e
plain_decimal-lt (AmountInput.boolean b) n e = cc
plain_decimal-lt AmountInput.other n e = cc

-- Whatever a body gives as its amount, an accepted amount is at least one hundredth and fits NUMERIC(15,2).
pub money_amount_bounds :
    (v : AmountInput) (a : ℤ) → money_amount v ≡ some a → (pos 1 ≤ℤ a) × (overflows a ≡ false)
unfolding money_amount
money_amount_bounds v a e = elim (Option-cases (plain_decimal v)) [
  | inl o ↦ ground arith
  | inr (n, o) ↦ let l = plain_decimal-lt v n o in ground (arith, l)
]
