-- ===== src/Security.antt =====
-- app/core/security.py: secrets and references. bcrypt is a parameter.
use pstu_hack_final.Common.{
  ℕ, zero, suc, ◌+◌, ◌%◌, ◌≤◌, ◌≡◌, Bool, false, Option, none, some, List, [], ◌∷◌, ◌++◌, arith,
  ◌==◌, if◌then◌else◌, length,
}
use pstu_hack_final.Common.Text.{Text}
use pstu_hack_final.Models.{reference_alphabet, reference_prefix}
use pstu_hack_final.Common.Uuid.{uuid_text}

-- The bcrypt library. `hashpw` takes a salt and a text; `checkpw` takes a text and a stored hash,
-- and gives `none` where it raises ValueError. `dummy_hash` is the module's `_DUMMY_HASH`.
pub record Bcrypt : Type 0 where
  pub hashpw : ℕ → Text → Text
  pub checkpw : Text → Text → Option Bool
  pub dummy_hash : Text

unfoldable pub hash_secret : Bcrypt → ℕ → Text → Text
hash_secret lib salt raw = lib.hashpw salt raw

-- `hashed or _DUMMY_HASH`
abbrev or_dummy : Bcrypt → Option Text → Text
or_dummy lib none = lib.dummy_hash
or_dummy lib (some []) = lib.dummy_hash
or_dummy lib (some (c ∷ s)) = c ∷ s

unfoldable pub verify_secret : Bcrypt → Text → Option Text → Bool
verify_secret lib raw hashed = elim (lib.checkpw raw (or_dummy lib hashed)) [
  | some b ↦ b
  | none ↦ false
]

-- `secrets.choice(REFERENCE_ALPHABET)` picks a letter by a draw.
abbrev letter : List ℕ → ℕ → Text
letter [] n = []
letter (c ∷ cs) zero = c ∷ []
letter (c ∷ cs) (suc n) = letter cs n

choices : List ℕ → Text
choices [] = []
choices (n ∷ ns) = letter reference_alphabet (n % 32) ++ choices ns

unfoldable pub make_reference : List ℕ → Text
unfolding choices
make_reference draws = reference_prefix ++ choices draws

length-letter : (cs : List ℕ) (n : ℕ) → length (letter cs n) ≤ 1
length-letter [] n = omega arith
length-letter (c ∷ cs) zero = omega arith
length-letter (c ∷ cs) (suc n) = length-letter cs n

length-append : (s t : Text) → length (s ++ t) ≡ length s + length t
length-append [] t = omega arith
length-append (c ∷ s) t = omega (arith, length-append s t)

length-choices : (ns : List ℕ) → length (choices ns) ≤ length ns
unfolding choices
length-choices [] = omega arith
length-choices (n ∷ ns) =
    let first = length-letter reference_alphabet (n % 32) in
    omega (
      arith,
      first,
      length-choices ns,
      length-append (letter reference_alphabet (n % 32)) (choices ns),
    )

-- A reference is its prefix and at most one letter for each draw.
pub length-make_reference : (ns : List ℕ) → length (make_reference ns) ≤ 3 + length ns
unfolding make_reference
length-make_reference ns = omega (arith, length-choices ns)

-- What the code uses of hashlib, uuid and PyJWT: `sha256` is the hexadecimal digest, `parse_uuid`
-- is `UUID(text)` with `none` where it raises ValueError, `encode` signs claims.
pub record Claims : Type 0 where
  pub sub : ℕ
  pub sid : ℕ
  pub iat : ℕ
  pub exp : ℕ
  pub jti : ℕ
  pub typ : Text

pub record TokenLib : Type 0 where
  pub sha256 : Text → Text
  pub parse_uuid : Text → Option ℕ
  pub encode : Claims → Text

-- `raw.split(".", 1)`, up to the first dot, which is required.
unfoldable pub session_part : Text → Option Text
session_part [] = none
session_part (c ∷ s) =
    let rest = session_part s in
    if c == 46 then some [] else elim rest [ none ↦ none | some t ↦ some (c ∷ t) ]

unfoldable pub hash_refresh_token : TokenLib → Text → Text
hash_refresh_token lib raw = lib.sha256 raw

-- `<session_id>.<secret>`
unfoldable pub raw_refresh_token : ℕ → Text → Text
raw_refresh_token id secret = uuid_text id ++ (46 ∷ secret)

unfoldable pub split_refresh_token : TokenLib → Text → Option ℕ
unfolding session_part
split_refresh_token lib raw = elim (session_part raw) [ none ↦ none | some p ↦ lib.parse_uuid p ]
