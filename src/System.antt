-- ===== src/System.antt =====
-- The running service: the database that the migrations leave, and any sequence of requests to the
-- endpoints of app/routers, one after the other; what else commits while one waits is in its
-- surroundings.
pub mod Rules
pub mod Keeping
pub mod Running
pub mod Decided
pub mod Additive
pub mod Growing
pub mod Appending
pub mod Startup
use pstu_hack_final.Api.MoneyRequests.{
  cancel_request, decline_request, approve_request, post_request,
}
use pstu_hack_final.Api.Transfers.{create_transfer}
use pstu_hack_final.Common.{
  ℕ, zero, suc, ◌+◌, ◌-◌, ◌*◌, ◌/◌, ◌%◌, ◌≤◌, ◌<◌, ◌≡◌, refl, sym, ap, subst, ◌∙◌, ◌≢◌, ◌↔◌, ◌⊎◌,
  inl, inr, Bool, true, false, ◌&&◌, ◌||◌, not, Option, none, some, List, [], ◌∷◌, ◌++◌, map, arith,
  ltb, leb, ◌==◌, if◌then◌else◌, length, take, find, keep, any, All, is_eq, is_some, Bool-cases,
  Option-cases, ==_iff,
}
use pstu_hack_final.Common.Int.{ℤ, pos, ◌+ℤ◌, ◌-ℤ◌, neg, ◌≤ℤ◌, ltb_ℤ, leb_ℤ, eqb_ℤ, int_laws}
use pstu_hack_final.Common.Text.{Text, codes, text_eq, is_text}
use pstu_hack_final.Db.Actions.{
  Action, ⊤, Result, ok, err, pure, throw, raise, raise_if, throw_if, query, or_raise, or_throw,
  attempt, when, commit, commit_if, rollback, savepoint, wait, acquire, serve, fresh, ◌>>=◌, ◌>>◌,
}
use pstu_hack_final.Schemas.{RespondToRequest, MoneyRequestCreate, TransferRequest}
use pstu_hack_final.Api.Accounts.{
  post_logout, post_refresh, post_login, post_register, LoginRequest,
}
use pstu_hack_final.Env.{Env}
use pstu_hack_final.Api.{Http, Libs}
use pstu_hack_final.Auth.{NewUser}
use pstu_hack_final.Db.Tables.{Tables, Conn}
use pstu_hack_final.Models.{system_mint_wallet_id, Wallet, WalletType}

-- The last statement of the first migration: an empty mint.
abbrev pub mint_row : ℕ → Wallet
mint_row now = record {
  id = system_mint_wallet_id;
  user_id = none;
  wallet_type = WalletType.system;
  currency = codes "BDT";
  balance = pos 0;
  updated_at = now;
}

unfoldable pub migrated : ℕ → Tables
migrated now = record {
  users = [];
  sessions = [];
  wallets = mint_row now ∷ [];
  transactions = [];
  ledger_entries = [];
  money_requests = [];
  audit_log = [];
}

-- The requests that may write, and one for those that only read.
pub data Call : Type 0 where
  register : NewUser → Call
  login : LoginRequest → Call
  refresh : Text → Call
  logout : Call
  transfer : TransferRequest → Option Text → Call
  request : MoneyRequestCreate → Call
  approve : Text → RespondToRequest → Call
  decline cancel : Text → Call

-- A request with its surroundings.
pub record Step : Type 0 where
  pub env : Env
  pub http : Http
  pub call : Call

-- The connection after a request; its response goes to the caller.
unfoldable pub perform : Libs → Step → Conn → Conn
perform libs s c = elim s.call [
  | register n ↦ (post_register libs s.env s.http n c).1
  | login r ↦ (post_login libs s.env s.http r c).1
  | refresh t ↦ (post_refresh libs s.env s.http t c).1
  | logout ↦ (post_logout libs s.env s.http c).1
  | transfer b k ↦ (create_transfer libs s.env s.http b k c).1
  | request b ↦ (post_request libs s.env s.http b c).1
  | approve i b ↦ (approve_request libs s.env s.http i b c).1
  | decline i ↦ (decline_request libs s.env s.http i c).1
  | cancel i ↦ (cancel_request libs s.env s.http i c).1
]

unfoldable pub run : Libs → List Step → Conn → Conn
run libs [] c = c
run libs (s ∷ ss) c = run libs ss (perform libs s c)
