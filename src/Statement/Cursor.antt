-- ===== src/Statement/Cursor.antt =====
-- app/services/statement_service.py: the cursor of a page as an opaque text.
use pstu_hack_final.Common.{
  ℕ, ◌<◌, ◌≡◌, refl, Option, none, some, [], ◌∷◌, ◌++◌, arith, ◌==◌, if◌then◌else◌, All,
}
use pstu_hack_final.Common.Int.{negsuc, ℤ, pos}
use pstu_hack_final.Common.Text.{Text}
use pstu_hack_final.Common.Base64.{pad, b64decode, b64encode, rstrip_char}
use pstu_hack_final.Schemas.{and_then}
use pstu_hack_final.Statement.{Position}
use pstu_hack_final.Common.Base64.RoundTrip.{b64decode-b64encode, IsByte}
use pstu_hack_final.Common.Decimal.{digits-IsDigit, digits, IsDigit}

-- What the cursor uses of Python's datetime, int and UTF-8 decoding; times are in microseconds.
pub record Formats : Type 0 where
  pub isoformat : ℕ → Text
  pub fromisoformat : Text → Option ℕ
  pub read_int : Text → Option ℤ
  pub decode_utf8 : Text → Option Text

-- Their documented behaviour, as far as the cursor relies on it: ISO texts and decimal digits are
-- read back, ISO texts are ASCII, and ASCII bytes decode to themselves.
pub record FormatLaws (lib : Formats) : Type 0 where
  pub iso : (t : ℕ) → lib.fromisoformat (lib.isoformat t) ≡ some t
  pub iso_ascii : (t : ℕ) → All (λ c. c < 128) (lib.isoformat t)
  pub int : (n : ℕ) → lib.read_int (digits n) ≡ some (pos n)
  pub ascii : (s : Text) → All (λ c. c < 128) s → lib.decode_utf8 s ≡ some s

unfoldable pub encode_cursor : Formats → Position → Text
encode_cursor lib p = rstrip_char 61 (b64encode (lib.isoformat p.0 ++ 124 ∷ digits p.1))

-- `raw.rsplit("|", 1)` into two parts; unpacking one part is ValueError.
unfoldable pub rsplit_bar : Text → Option (Text × Text)
rsplit_bar [] = none
rsplit_bar (c ∷ s) = elim (rsplit_bar s) [
  | some p ↦ some (c ∷ p.0, p.1)
  | none ↦ if c == 124 then some ([], s) else none
]

-- Ids start at 1, so a negative id stands where 0 does.
abbrev id_of : ℤ → ℕ
id_of (pos n) = n
id_of (negsuc n) = 0

-- `none` where one of the steps raises ValueError.
unfoldable pub decode_cursor : Formats → Text → Option Position
decode_cursor lib cursor = and_then (b64decode (pad cursor)) (λ bytes.
    and_then (lib.decode_utf8 bytes) (λ raw. and_then (rsplit_bar raw) (λ p.
      and_then (lib.fromisoformat p.0)
        (λ t. and_then (lib.read_int p.1) (λ i. some (t, id_of i))))))

-- A digit is no bar.
rsplit_bar-none : (s : Text) → All IsDigit s → rsplit_bar s ≡ none
unfolding rsplit_bar
rsplit_bar-none [] a = refl
rsplit_bar-none (c ∷ s) a = ground (arith, rsplit_bar-none s a.1, a.0)

rsplit_bar-append : (s t : Text) → All IsDigit t → rsplit_bar (s ++ 124 ∷ t) ≡ some (s, t)
unfolding rsplit_bar
rsplit_bar-append [] t a = rw (rsplit_bar-none t a) refl
rsplit_bar-append (c ∷ s) t a = rw (rsplit_bar-append s t a) refl

pub All-digit_ascii : (s : Text) → All IsDigit s → All (λ c. c < 128) s
All-digit_ascii [] a = tt
All-digit_ascii (c ∷ s) a = (ground (arith, a.0), All-digit_ascii s a.1)

All-ascii_append :
    (s t : Text) → All (λ c. c < 128) s → All (λ c. c < 128) t → All (λ c. c < 128) (s ++ t)
All-ascii_append [] t a b = b
All-ascii_append (c ∷ s) t a b = (a.0, All-ascii_append s t a.1 b)

ascii-IsByte : (s : Text) → All (λ c. c < 128) s → All IsByte s
ascii-IsByte [] a = tt
ascii-IsByte (c ∷ s) a = (omega (arith, a.0), ascii-IsByte s a.1)

-- A cursor that the service hands out is read back as the position it stands for, where the libraries behave as documented.
pub decode_cursor-encode_cursor :
    (lib : Formats) (p : Position)
    → FormatLaws lib
    → decode_cursor lib (encode_cursor lib p) ≡ some p
unfolding decode_cursor encode_cursor
decode_cursor-encode_cursor lib p laws =
    let raw = lib.isoformat p.0 ++ 124 ∷ digits p.1 in
    let ascii =
      All-ascii_append (lib.isoformat p.0) (124 ∷ digits p.1) (laws.iso_ascii p.0)
        (omega arith, All-digit_ascii (digits p.1) (digits-IsDigit p.1)) in
    rw
      (
        b64decode-b64encode raw (ascii-IsByte raw ascii),
        laws.ascii raw ascii,
        rsplit_bar-append (lib.isoformat p.0) (digits p.1) (digits-IsDigit p.1),
        laws.iso p.0,
        laws.int p.1,
      )
      refl
