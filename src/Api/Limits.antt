-- ===== src/Api/Limits.antt =====
-- app/core/limiter.py: the bucket that a request counts in. slowapi does the counting.
use pstu_hack_final.Common.{
  ℕ, ◌+◌, ◌≡◌, refl, ap, ◌≢◌, Bool, true, ◌&&◌, Option, none, some, [], ◌∷◌, ◌++◌, map, arith, leb,
  if◌then◌else◌, take,
}
use pstu_hack_final.Common.Text.{Text, codes, text_eq}
use pstu_hack_final.Api.{Decoded, Jwt}

abbrev lower : ℕ → ℕ
lower c = if leb 65 c && leb c 90 then c + 32 else c

-- `auth[:7].lower() == "bearer "`
unfoldable pub is_bearer : Text → Bool
is_bearer auth = text_eq (map lower (take 7 auth)) (codes "bearer ")

abbrev after_seven : Text → Text
after_seven (a ∷ b ∷ c ∷ d ∷ e ∷ f ∷ g ∷ s) = s
after_seven s = []

-- The claim `sub` of a readable access token.
abbrev subject_of : Decoded → Option Text
subject_of (Decoded.payload sub sid (some t)) =
    if text_eq t (codes "access") then some sub else none
subject_of x = none

abbrev bucket : Option Text → Text → Text
bucket (some sub) remote = codes "user:" ++ sub
bucket none remote = codes "ip:" ++ remote

-- A missing header is the empty text; `remote` is `get_remote_address(request)`.
unfoldable pub user_or_ip : Jwt → ℕ → Text → Text → Text
user_or_ip jwt now auth remote =
    bucket (if is_bearer auth then subject_of (jwt.decode now (after_seven auth)) else none) remote

-- The bucket of a user is no bucket of an address.
bucket-apart : (sub r : Text) → bucket (some sub) r ≢ bucket none r
bucket-apart sub r e = absurd (ground (arith, ap first e))
  where
    first : Text → ℕ
    first [] = 0
    first (c ∷ s) = c

-- With a readable token the address does not matter.
user_or_ip-address :
    (jwt : Jwt) (now : ℕ) (auth sub r r' : Text)
    → is_bearer auth ≡ true
    → subject_of (jwt.decode now (after_seven auth)) ≡ some sub
    → user_or_ip jwt now auth r ≡ user_or_ip jwt now auth r'
unfolding user_or_ip
user_or_ip-address jwt now auth sub r r' b s = rw (b, s) refl
