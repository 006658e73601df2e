-- ===== src/Api.antt =====
-- The HTTP side: the handlers of app/main.py, the bearer token of app/core/deps.py and
-- app/core/security.py, and the course of a request through an endpoint of app/routers. FastAPI
-- resolves the caller first, then refuses a malformed body, then asks the rate limiter, then runs
-- the endpoint; the limiter's answer is an argument.
pub mod Transfers
pub mod MoneyRequests
pub mod Accounts
pub mod Access
pub mod Admission
pub mod Reads
pub mod Privacy
pub mod Listing
pub mod Limits
pub mod Retry
use pstu_hack_final.Common.{
  ℕ, zero, suc, ◌+◌, ◌-◌, ◌*◌, ◌/◌, ◌%◌, ◌≤◌, ◌<◌, ◌≡◌, refl, sym, ap, subst, ◌∙◌, ◌≢◌, ◌↔◌, ◌⊎◌,
  inl, inr, Bool, true, false, ◌&&◌, ◌||◌, not, Option, none, some, List, [], ◌∷◌, ◌++◌, map, arith,
  ltb, leb, ◌==◌, if◌then◌else◌, length, take, find, keep, any, All, is_eq, is_some, Bool-cases,
  Option-cases, ==_iff,
}
use pstu_hack_final.Common.Int.{ℤ, pos, ◌+ℤ◌, ◌-ℤ◌, neg, ◌≤ℤ◌, ltb_ℤ, leb_ℤ, eqb_ℤ, int_laws}
use pstu_hack_final.Common.Text.{Text, codes, text_eq, is_text}
use pstu_hack_final.Db.Actions.{
  Action, ⊤, Result, ok, err, pure, throw, raise, raise_if, throw_if, query, or_raise, or_throw,
  attempt, when, commit, commit_if, rollback, savepoint, wait, acquire, serve, fresh, ◌>>=◌, ◌>>◌,
}
use pstu_hack_final.Sessions.{get_current_principal}
use pstu_hack_final.Env.{Env, Caller}
use pstu_hack_final.Errors.{error_code, TokenMessage, status_code, Exn, DomainError}
use pstu_hack_final.Models.{User}
use pstu_hack_final.Security.{TokenLib, Bcrypt}
use pstu_hack_final.Db.Tables.{wallet_of, Tables, Conn}

-- A status with a body, or a status with the `code` of an error's body; messages, details and headers
-- are left out. `fault` is the plain 500 of an exception that no handler knows.
pub data Response (A : Type 0) : Type 0 where
  success : ℕ → A → Response A
  failure : ℕ → Text → Response A
  fault : Response A

-- The body of the 422 that a malformed request gets.
abbrev pub unprocessable : {A : Type 0} → Response A
unprocessable = Response.failure 422 (codes "validation_error")

-- `domain_error_handler`
unfoldable pub domain_error_handler : {A : Type 0} → DomainError → Response A
domain_error_handler e = Response.failure (status_code e) (error_code e)

-- `rate_limit_handler`
unfoldable pub rate_limit_handler : {A : Type 0} → Response A
rate_limit_handler = Response.failure 429 (codes "rate_limited")

abbrev pub respond : {A : Type 0} → ℕ → Result A → Response A
respond status (ok a) = Response.success status a
respond status (err (Exn.domain e)) = domain_error_handler e
respond status (err e) = Response.fault

-- What `jwt.decode` makes of a token at a time: an expired signature, another error, or the claims
-- `sub`, `sid` and `typ`, of which it requires the first two.
pub data Decoded : Type 0 where
  expired invalid : Decoded
  payload : Text → Text → Option Text → Decoded

pub record Jwt : Type 0 where
  pub decode : ℕ → Text → Decoded

unfoldable pub checked_payload : Decoded → Action (Text × Text)
checked_payload Decoded.expired = raise (DomainError.invalid_token TokenMessage.session_expired)
checked_payload Decoded.invalid = raise (DomainError.invalid_token TokenMessage.no_longer_valid)
checked_payload (Decoded.payload sub sid typ) =
    if is_text typ (codes "access")
    then pure (sub, sid)
    else raise (DomainError.invalid_token TokenMessage.no_longer_valid)

unfoldable pub decode_access_token : Jwt → ℕ → Text → Action (Text × Text)
decode_access_token jwt now token = checked_payload (jwt.decode now token)

-- The credentials after "Bearer"; none or empty ones are no authentication.
unfoldable pub bearer_token : Option Text → Action Text
bearer_token none = raise (DomainError.invalid_token TokenMessage.authentication_required)
bearer_token (some []) = raise (DomainError.invalid_token TokenMessage.authentication_required)
bearer_token (some (c ∷ s)) = pure (c ∷ s)

-- The libraries that a request goes through.
pub record Libs : Type 0 where
  pub bcrypt : Bcrypt
  pub tokens : TokenLib
  pub jwt : Jwt

-- What a request brings besides its body: `limited` is the rate limiter's verdict on it.
pub record Http : Type 0 where
  pub credentials : Option Text
  pub caller : Caller
  pub limited : Bool

-- `Principal`
pub record Principal : Type 0 where
  pub user : User
  pub session_id : ℕ

unfoldable pub principal_of : Libs → Env → Http → Action Principal
principal_of libs env http = do
  token ← bearer_token http.credentials
  claims ← decode_access_token libs.jwt env.now token
  user_id ←
      or_raise (libs.tokens.parse_uuid claims.0)
        (DomainError.invalid_token TokenMessage.no_longer_valid)
  session_id ←
      or_raise (libs.tokens.parse_uuid claims.1)
        (DomainError.invalid_token TokenMessage.no_longer_valid)
  u ← get_current_principal user_id session_id
  pure (record { user = u; session_id = session_id })

-- The endpoint's own work after the caller `p` is known, on the checked body.
abbrev pub run_endpoint :
    {P F A : Type 0} → ℕ → Bool → Option F → (P → F → Action A) → P → Conn → Response A × Conn
run_endpoint status limited none work p c = (unprocessable, fresh c)
run_endpoint status true (some f) work p c = (rate_limit_handler, fresh c)
run_endpoint status false (some f) work p c =
    let (r, c') = work p f c in (respond status r, fresh c')

-- The outcome of the caller's check decides whether the endpoint runs.
abbrev pub admit :
    {P F A : Type 0}
    → ℕ
    → Bool
    → Option F
    → (P → F → Action A)
    → Result P × Conn
    → Response A × Conn
admit status limited body work (ok p, c) = run_endpoint status limited body work p c
admit status limited body work (err e, c) = (respond status (err e), fresh c)

-- A request: its own session, closed at the end whatever the outcome.
unfoldable pub endpoint :
    {P F A : Type 0}
    → ℕ
    → Action P
    → Bool
    → Option F
    → (P → F → Action A)
    → Conn
    → Response A × Conn
endpoint status who limited body work c = admit status limited body work (who (fresh c))

-- `.one_or_none()`
unfoldable pub one_or_none : {A : Type 0} → List A → Action (Option A)
one_or_none [] = pure none
one_or_none (a ∷ []) = pure (some a)
one_or_none (a ∷ b ∷ rest) = throw Exn.multiple_results

-- `user.wallet.id`
unfoldable pub own_wallet_id : User → Action ℕ
own_wallet_id user = do
  found ← query (λ d. wallet_of user.id d.wallets)
  wallet ← or_throw found Exn.attribute_error
  pure wallet.id

-- The surroundings after `k` identifiers have been drawn.
abbrev pub after_draws : ℕ → Env → Env
after_draws k env = record env { uuid = λ i. env.uuid (i + k) }

-- `PartyOut`
pub record Party : Type 0 where
  pub phone : Text
  pub full_name : Text

abbrev pub party : User → Party
party u = record { phone = u.phone; full_name = u.full_name }
