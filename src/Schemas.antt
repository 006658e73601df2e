-- ===== src/Schemas.antt =====
-- The request bodies of app/schemas (auth.py, transfer.py, money_request.py): the patterns and
-- validators that a body passes before its handler runs. `none` is a refusal, which FastAPI
-- answers with 422.
pub mod Amounts
pub mod Texts
pub mod Fits
pub mod Registration
pub mod Secrets
use pstu_hack_final.Auth.{NewUser}
use pstu_hack_final.Common.White.{words, strip, join_words}
use pstu_hack_final.Common.Decimal.{is_digit, read_digits, digits}
use pstu_hack_final.Common.{
  ℕ, zero, suc, ◌+◌, ◌-◌, ◌*◌, ◌/◌, ◌%◌, ◌≤◌, ◌<◌, ◌≡◌, refl, sym, ap, subst, ◌∙◌, ◌≢◌, ◌↔◌, ◌⊎◌,
  inl, inr, Bool, true, false, ◌&&◌, ◌||◌, not, Option, none, some, List, [], ◌∷◌, ◌++◌, map, arith,
  ltb, leb, ◌==◌, if◌then◌else◌, length, take, find, keep, any, All, is_eq, is_some, Bool-cases,
  Option-cases, ==_iff,
}
use pstu_hack_final.Common.Int.{
  negsuc, ℤ, pos, ◌+ℤ◌, ◌-ℤ◌, neg, ◌≤ℤ◌, ltb_ℤ, leb_ℤ, eqb_ℤ, int_laws,
}
use pstu_hack_final.Common.Text.{Text, codes, text_eq, is_text}
use pstu_hack_final.Db.Actions.{
  Action, ⊤, Result, ok, err, pure, throw, raise, raise_if, throw_if, query, or_raise, or_throw,
  attempt, when, commit, commit_if, rollback, savepoint, wait, acquire, serve, fresh, ◌>>=◌, ◌>>◌,
}

abbrev pub every : (ℕ → Bool) → Text → Bool
every p [] = true
every p (c ∷ s) = p c && every p s

-- `^01[3-9][0-9]{8}$`
unfoldable pub is_phone : Text → Bool
is_phone (a ∷ b ∷ c ∷ s) =
    (a == 48) && (b == 49) && (leb 51 c && leb c 57) && every is_digit s && (length s == 8)
is_phone s = false

-- `^[0-9]{4}$`
unfoldable pub is_pin : Text → Bool
is_pin s = every is_digit s && (length s == 4)

-- A JSON value of an amount, or a Decimal by its plain format.
pub data AmountInput : Type 0 where
  decimal text : Text → AmountInput
  integer : ℤ → AmountInput
  boolean : Bool → AmountInput
  other : AmountInput

-- The longest run of digits that a text begins with, and what follows it.
abbrev pub span_digits : Text → Text × Text
span_digits [] = ([], [])
span_digits (c ∷ s) = if is_digit c then (c ∷ (span_digits s).0, (span_digits s).1) else ([], c ∷ s)

-- `$` of Python's `re`: the end, or a line break before it.
abbrev pub at_end : Text → Bool
at_end [] = true
at_end (c ∷ []) = c == 10
at_end (c ∷ d ∷ s) = false

abbrev pub within : ℕ → ℕ → Text → Bool
within lo hi s = leb lo (length s) && leb (length s) hi

-- Hundredths of one or two decimal places.
abbrev pub hundredths : Text → ℕ
hundredths (c ∷ []) = read_digits 0 (c ∷ []) * 10
hundredths s = read_digits 0 s

-- After the digits before the point: `(\.[0-9]{1,2})?$`, and the value of the whole.
abbrev pub read_fraction : ℕ → Text → Option ℕ
read_fraction n [] = some (n * 100)
read_fraction n (c ∷ s) =
    if (c == 46) && within 1 2 (span_digits s).0 && at_end (span_digits s).1
    then some (n * 100 + hundredths (span_digits s).0)
    else if at_end (c ∷ s)
    then some (n * 100)
    else none

-- `_PLAIN_AMOUNT` and the Decimal of a text that matches it, in hundredths.
unfoldable pub read_amount : Text → Option ℕ
read_amount s =
    let (whole, rest) = span_digits s in
    if within 1 13 whole then read_fraction (read_digits 0 whole) rest else none

-- `str` of an integer.
abbrev pub integer_text : ℤ → Text
integer_text (pos n) = digits n
integer_text (negsuc n) = 45 ∷ digits (suc n)

unfoldable pub plain_decimal : AmountInput → Option ℕ
unfolding read_amount strip
plain_decimal (AmountInput.decimal s) = read_amount (strip s)
plain_decimal (AmountInput.text s) = read_amount (strip s)
plain_decimal (AmountInput.integer n) = read_amount (strip (integer_text n))
plain_decimal (AmountInput.boolean b) = none
plain_decimal AmountInput.other = none

-- `MoneyAmount`: greater than 0. The pattern leaves at most 15 digits, two of them after the point.
unfoldable pub money_amount : AmountInput → Option ℤ
money_amount v = elim (plain_decimal v) [
  | none ↦ none
  | some n ↦ if ltb 0 n then some (pos n) else none
]

-- `_CONTROL_CHARS`
abbrev pub is_control : ℕ → Bool
is_control c = leb c 8 || (c == 11) || (c == 12) || (leb 14 c && leb c 31) || (c == 127)

-- `text or None`
abbrev pub non_empty : Text → Option Text
non_empty [] = none
non_empty (c ∷ s) = some (c ∷ s)

unfoldable pub clean_free_text : Option Text → Option (Option Text)
clean_free_text none = some none
clean_free_text (some v) =
    if any is_control v then none else some (non_empty (join_words (words v)))

-- `note`: at most 255 characters, cleaned.
unfoldable pub clean_note : Option Text → Option (Option Text)
clean_note none = some none
clean_note (some v) = if leb (length v) 255 then clean_free_text (some v) else none

abbrev pub require : {A : Type 0} → Bool → Option A → Option A
require true o = o
require false o = none

abbrev pub and_then : {A B : Type 0} → Option A → (A → Option B) → Option B
and_then none f = none
and_then (some a) f = f a

-- A body with `extra="forbid"` is refused if it has a key of no field; `extra` are those keys.
pub record TransferRequest : Type 0 where
  pub recipient_phone : Text
  pub amount : AmountInput
  pub pin : Text
  pub note : Option Text
  pub extra : List Text

-- The fields of a body that has passed.
pub record TransferFields : Type 0 where
  pub recipient_phone : Text
  pub amount : ℤ
  pub pin : Text
  pub note : Option Text

abbrev pub no_extra : List Text → Bool
no_extra [] = true
no_extra (k ∷ ks) = false

unfoldable pub check_transfer : TransferRequest → Option TransferFields
check_transfer r = require (no_extra r.extra && is_phone r.recipient_phone && is_pin r.pin) (
    and_then (money_amount r.amount) (λ a. and_then (clean_note r.note) (λ n.
      some (record { recipient_phone = r.recipient_phone; amount = a; pin = r.pin; note = n }))))

pub record MoneyRequestCreate : Type 0 where
  pub payer_phone : Text
  pub amount : AmountInput
  pub note : Option Text
  pub extra : List Text

pub record MoneyRequestFields : Type 0 where
  pub payer_phone : Text
  pub amount : ℤ
  pub note : Option Text

unfoldable pub check_money_request : MoneyRequestCreate → Option MoneyRequestFields
check_money_request r = require (no_extra r.extra && is_phone r.payer_phone) (
    and_then (money_amount r.amount) (λ a.
      and_then (clean_note r.note)
        (λ n. some (record { payer_phone = r.payer_phone; amount = a; note = n }))))

pub record RespondToRequest : Type 0 where
  pub pin : Text
  pub extra : List Text

unfoldable pub check_response : RespondToRequest → Option Text
check_response r = require (no_extra r.extra && is_pin r.pin) (some r.pin)

-- `min_length=8, max_length=72`, which count characters, and more than white space.
unfoldable pub is_password : Text → Bool
unfolding strip
is_password s = within 8 72 s && leb 8 (length (strip s))

-- `_not_trivial_pin`
abbrev pub trivial_pins : List Text
trivial_pins =
    codes "0000"
    ∷ codes "1111"
    ∷ codes "2222"
    ∷ codes "3333"
    ∷ codes "4444"
    ∷ codes "5555"
    ∷ codes "6666"
    ∷ codes "7777"
    ∷ codes "8888"
    ∷ codes "9999"
    ∷ codes "1234"
    ∷ []

abbrev pub is_trivial_pin : Text → Bool
is_trivial_pin s = any (λ t. text_eq t s) trivial_pins

unfoldable pub full_name : Text → Option Text
full_name s = require (within 2 100 s) (and_then (clean_free_text (some s)) (λ n. n))

unfoldable pub check_registration : NewUser → Option NewUser
check_registration r =
    require
      (is_phone r.phone && is_password r.password && is_pin r.pin && not (is_trivial_pin r.pin))
      (and_then (full_name r.full_name) (λ n. some (record r { full_name = n })))

-- A login's body: phone and password, the latter with its length alone.
unfoldable pub check_login : Text → Text → Bool
check_login phone password = is_phone phone && within 8 72 password
