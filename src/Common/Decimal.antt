-- ===== src/Common/Decimal.antt =====
-- Decimal digits: the text of a number as Python's `str` writes it, and its reading.
use Prim.Native.Nat.{ℕ, zero, suc, ◌+◌, ◌-◌, ◌*◌, ◌/◌, ◌%◌, ◌≤◌, ◌<◌}
use mathlib.Core.Path.{◌≡◌, refl, ◌∙◌}
use mathlib.Core.Logic.{inl, inr}
use mathlib.Core.Bool.{Bool, true, ◌&&◌}
use mathlib.Core.List.{[], ◌∷◌, ◌++◌}
use native.Mathlib.Omega.{arith}
use pstu_hack_final.Common.Booleans.{ltb, leb, if◌then◌else◌, Bool-cases}
use pstu_hack_final.Common.Lists.{length, All}
use pstu_hack_final.Common.Text.{Text}

abbrev pub is_digit : ℕ → Bool
is_digit c = leb 48 c && leb c 57

-- The digits of a number, most significant first; the fuel bounds how many.
digits_upto : ℕ → ℕ → Text
digits_upto zero n = []
digits_upto (suc f) n =
    let more = digits_upto f (n / 10) ++ (48 + n % 10) ∷ [] in
    if ltb n 10 then (48 + n) ∷ [] else more

-- One more than the number is fuel enough.
unfoldable pub digits : ℕ → Text
unfolding digits_upto
digits n = digits_upto (suc n) n

-- The number that a text of digits stands for, after the digits already read.
abbrev pub read_digits : ℕ → Text → ℕ
read_digits n [] = n
read_digits n (c ∷ s) = read_digits (n * 10 + (c - 48)) s

-- Ten to the power `k`.
abbrev pub power_of_ten : ℕ → ℕ
power_of_ten zero = 1
power_of_ten (suc k) = 10 * power_of_ten k

read_digits-append :
    (n : ℕ) (s : Text) (c : ℕ) → read_digits n (s ++ c ∷ []) ≡ read_digits n s * 10 + (c - 48)
read_digits-append n [] c = refl
read_digits-append n (d ∷ s) c = read_digits-append (n * 10 + (d - 48)) s c

All-append_one : (P : ℕ → Type 0) (s : Text) (c : ℕ) → All P s → P c → All P (s ++ c ∷ [])
All-append_one P [] c a p = (p, tt)
All-append_one P (d ∷ s) c a p = (a.0, All-append_one P s c a.1 p)

length-append_one : (s : Text) (c : ℕ) → length (s ++ c ∷ []) ≡ length s + 1
length-append_one [] c = omega arith
length-append_one (d ∷ s) c = omega (arith, length-append_one s c)

abbrev pub IsDigit : ℕ → Type 0
IsDigit c = is_digit c ≡ true

read_digits-upto : (f n : ℕ) → n < f → read_digits 0 (digits_upto f n) ≡ n
unfolding digits_upto
read_digits-upto zero n h = absurd (omega arith)
read_digits-upto (suc f) n h = elim (Bool-cases (ltb n 10)) [
  | inl e ↦ rw e (omega arith)
  | inr e ↦ rw e (
      read_digits-append 0 (digits_upto f (n / 10)) (48 + n % 10)
      ∙ ground (arith, read_digits-upto f (n / 10)))
]

IsDigit-upto : (f n : ℕ) → All IsDigit (digits_upto f n)
unfolding digits_upto
IsDigit-upto zero n = tt
IsDigit-upto (suc f) n = elim (Bool-cases (ltb n 10)) [
  | inl e ↦ rw e (ground arith, tt)
  | inr e ↦ rw e (
      All-append_one IsDigit (digits_upto f (n / 10)) (48 + n % 10) (IsDigit-upto f (n / 10))
        (ground arith))
]

length-upto_pos : (f n : ℕ) → 1 ≤ length (digits_upto (suc f) n)
unfolding digits_upto
length-upto_pos f n = elim (Bool-cases (ltb n 10)) [
  | inl e ↦ rw e (omega arith)
  | inr e ↦ rw e (omega (arith, length-append_one (digits_upto f (n / 10)) (48 + n % 10)))
]

length-upto_le : (f n k : ℕ) → n < power_of_ten (suc k) → length (digits_upto f n) ≤ suc k
unfolding digits_upto
length-upto_le zero n k h = omega arith
length-upto_le (suc f) n zero h = ground arith
length-upto_le (suc f) n (suc k) h = elim (Bool-cases (ltb n 10)) [
  | inl e ↦ rw e (omega arith)
  | inr e ↦
      let shorter = length-upto_le f (n / 10) k (omega arith) in
      rw e (omega (arith, shorter, length-append_one (digits_upto f (n / 10)) (48 + n % 10)))
]

-- Reading a number's digits gives the number.
pub read_digits-digits : (n : ℕ) → read_digits 0 (digits n) ≡ n
unfolding digits
read_digits-digits n = read_digits-upto (suc n) n (omega arith)

pub digits-IsDigit : (n : ℕ) → All IsDigit (digits n)
unfolding digits
digits-IsDigit n = IsDigit-upto (suc n) n

pub length-digits_pos : (n : ℕ) → 1 ≤ length (digits n)
unfolding digits
length-digits_pos n = length-upto_pos n n

pub length-digits_le : (n k : ℕ) → n < power_of_ten (suc k) → length (digits n) ≤ suc k
unfolding digits
length-digits_le n k h = length-upto_le (suc n) n k h
