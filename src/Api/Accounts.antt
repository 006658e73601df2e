-- ===== src/Api/Accounts.antt =====
-- app/routers/auth.py and the activity list of app/routers/admin.py: accounts, tokens and profiles.
use pstu_hack_final.Common.{
  ℕ, Bool, false, ◌&&◌, ◌||◌, Option, some, List, map, ltb, leb, ◌==◌, length, take, keep, is_eq,
  sort_by,
}
use pstu_hack_final.Common.Int.{ℤ, pos, eqb_ℤ}
use pstu_hack_final.Common.Text.{Text}
use pstu_hack_final.Db.Actions.{Action, ⊤, pure, query, or_raise, or_throw, ◌>>=◌}
use pstu_hack_final.Statement.Rows.{show_statement, StatementPage}
use pstu_hack_final.Ledger.Reconcile.{ledger_sum}
use pstu_hack_final.Statement.Cursor.{Formats}
use pstu_hack_final.Schemas.{and_then, is_phone, check_login, require, check_registration}
use pstu_hack_final.Auth.{register, authenticate, NewUser}
use pstu_hack_final.Errors.{DomainError, Exn}
use pstu_hack_final.Transfer.{find_active}
use pstu_hack_final.Env.{Caller, Env}
use pstu_hack_final.Sessions.{logout, rotate_tokens, issue_tokens, TokenPair}
use pstu_hack_final.Db.Tables.{Conn, wallet_of, Tables}
use pstu_hack_final.Api.{
  after_draws, Principal, principal_of, endpoint, Response, party, Http, Party, Libs,
}
use pstu_hack_final.Models.{Meta, Entity, AuditAction, User, AuditLog, Wallet}

pub record WalletOut : Type 0 where
  pub balance : ℤ
  pub currency : Text

pub record UserOut : Type 0 where
  pub id : ℕ
  pub phone : Text
  pub full_name : Text
  pub created_at : ℕ

pub record MeOut : Type 0 where
  pub user : UserOut
  pub wallet : WalletOut

pub record RegisterResponse : Type 0 where
  pub user : UserOut
  pub wallet : WalletOut
  pub tokens : TokenPair
  pub grant_reference : Text

abbrev pub wallet_out : Wallet → WalletOut
wallet_out w = record { balance = w.balance; currency = w.currency }

abbrev pub user_out : User → UserOut
user_out u = record {
  id = u.id;
  phone = u.phone;
  full_name = u.full_name;
  created_at = u.created_at;
}

-- `user.wallet`, which the response model requires: without one the response is a fault.
unfoldable pub own_wallet : User → Action WalletOut
own_wallet user = do
  found ← query (λ d. wallet_of user.id d.wallets)
  w ← or_throw found Exn.attribute_error
  pure (wallet_out w)

-- No caller: the endpoints that come before a login.
abbrev pub anyone : Action ⊤
anyone = pure tt

-- The registration draws three identifiers before the session's.
unfoldable pub register_and_show : Libs → Env → Caller → NewUser → Action RegisterResponse
register_and_show libs env caller n = do
  made ← register libs.bcrypt env caller n
  tokens ← issue_tokens libs.tokens (after_draws 3 env) caller made.0
  w ← own_wallet made.0
  pure (record {
    user = user_out made.0;
    wallet = w;
    tokens = tokens;
    grant_reference = made.1.reference;
  })

unfoldable pub post_register : Libs → Env → Http → NewUser → Conn → Response RegisterResponse × Conn
post_register libs env http body =
    endpoint 201 anyone http.limited (check_registration body)
      (λ _ n. register_and_show libs env http.caller n)

-- `LoginRequest`
pub record LoginRequest : Type 0 where
  pub phone : Text
  pub password : Text

unfoldable pub login_and_show : Libs → Env → Caller → LoginRequest → Action TokenPair
login_and_show libs env caller r = do
  user ← authenticate libs.bcrypt env caller r.phone r.password
  issue_tokens libs.tokens env caller user

unfoldable pub post_login : Libs → Env → Http → LoginRequest → Conn → Response TokenPair × Conn
post_login libs env http body =
    endpoint 200 anyone http.limited (require (check_login body.phone body.password) (some body))
      (λ _ r. login_and_show libs env http.caller r)

unfoldable pub post_refresh : Libs → Env → Http → Text → Conn → Response TokenPair × Conn
post_refresh libs env http refresh_token =
    endpoint 200 anyone http.limited (some refresh_token)
      (λ _ raw. rotate_tokens libs.tokens env http.caller raw)

unfoldable pub post_logout : Libs → Env → Http → Conn → Response ⊤ × Conn
post_logout libs env http =
    endpoint 204 (principal_of libs env http) false (some tt)
      (λ (p : Principal) _. logout env http.caller p.session_id)

unfoldable pub show_me : User → Action MeOut
show_me user = do w ← own_wallet user; pure (record { user = user_out user; wallet = w })

unfoldable pub me : Libs → Env → Http → Conn → Response MeOut × Conn
me libs env http =
    endpoint 200 (principal_of libs env http) false (some tt) (λ (p : Principal) _. show_me p.user)

unfoldable pub find_recipient : Text → Action Party
find_recipient phone = do
  found ← query (λ d. find_active phone d.users)
  target ← or_raise found (DomainError.recipient_not_found phone)
  pure (party target)

unfoldable pub lookup : Libs → Env → Http → Text → Conn → Response Party × Conn
lookup libs env http phone =
    endpoint 200 (principal_of libs env http) http.limited (require (is_phone phone) (some phone))
      (λ _ p. find_recipient p)

-- `ORDER BY created_at DESC, id DESC`
abbrev pub later_event : AuditLog → AuditLog → Bool
later_event a b = ltb b.created_at a.created_at || ((a.created_at == b.created_at) && ltb b.id a.id)

-- One event of the list: `entity_type`, the kind of the entity alone.
pub data EntityType : Type 0 where
  user transaction money_request : EntityType

abbrev pub entity_type : Entity → EntityType
entity_type (Entity.user i) = EntityType.user
entity_type (Entity.transaction i) = EntityType.transaction
entity_type (Entity.money_request i) = EntityType.money_request

pub record ActivityEvent : Type 0 where
  pub action : AuditAction
  pub entity_type : Option EntityType
  pub ip_address : Option Text
  pub details : Meta
  pub at : ℕ

abbrev pub event : AuditLog → ActivityEvent
event a = record {
  action = a.action;
  entity_type = and_then a.entity (λ e. some (entity_type e));
  ip_address = a.ip_address;
  details = a.metadata;
  at = a.created_at;
}

unfoldable pub events_of : ℕ → ℕ → Tables → List ActivityEvent
events_of u limit d = map event (
    take limit (sort_by later_event (keep (λ (a : AuditLog). is_eq a.actor_user_id u) d.audit_log)))

unfoldable pub my_activity : Libs → Env → Http → ℕ → Conn → Response (List ActivityEvent) × Conn
my_activity libs env http limit =
    endpoint 200 (principal_of libs env http) false
      (require (leb 1 limit && leb limit 100) (some limit))
      (λ (p : Principal) n. query (events_of p.user.id n))

-- GET /wallet/statement of app/routers/wallet.py.
unfoldable pub get_statement :
    Libs → Formats → Env → Http → ℕ → Option Text → Conn → Response StatementPage × Conn
get_statement libs formats env http limit cursor =
    endpoint 200 (principal_of libs env http) false
      (require (leb 1 limit && leb limit 100) (some limit))
      (λ (p : Principal) n. show_statement formats p.user n cursor)

-- The fields of GET /ready in app/main.py that are not constant.
pub record Ready : Type 0 where
  pub ledger_entries : ℕ
  pub ledger_sum : ℤ
  pub balanced : Bool

unfoldable pub ready : Tables → Ready
ready d = record {
  ledger_entries = length d.ledger_entries;
  ledger_sum = ledger_sum d;
  balanced = eqb_ℤ (ledger_sum d) (pos 0);
}
