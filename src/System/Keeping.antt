-- ===== src/System/Keeping.antt =====
-- Every endpoint of app/routers keeps the ledger's invariants.
use pstu_hack_final.Common.{
  ℕ, ap, subst, inl, inr, Option, none, some, [], ◌∷◌, is_some, Bool-cases,
}
use pstu_hack_final.Common.Text.{Text}
use pstu_hack_final.Db.Actions.{Result}
use pstu_hack_final.System.Rules.{
  to_out-Keeps, own_wallet-Keeps, own_wallet_id-Keeps, Works, show_request-Keeps,
}
use pstu_hack_final.Auth.Funding.{register-rows, at_insert}
use pstu_hack_final.Auth.Registration.{register_rows-Leaves, register-committed}
use pstu_hack_final.Sessions.Consistency.{
  logout-Keeps, rotate_tokens-Keeps, Free, issue_tokens-Keeps, authenticate-Keeps,
}
use pstu_hack_final.Requests.Consistency.{
  cancel-Keeps, approve-Keeps, decline-Keeps, create_request-Keeps,
}
use pstu_hack_final.Transfer.Consistency.{send_money-Keeps, Respects}
use pstu_hack_final.Auth.{register, NewUser}
use pstu_hack_final.Schemas.{MoneyRequestFields, TransferFields}
use pstu_hack_final.Security.{Bcrypt}
use pstu_hack_final.Db.Gives.{Keeps-Leaves, Leaves-bind, Leaves}
use pstu_hack_final.Ledger.Consistency.{Consistent}
use pstu_hack_final.Env.{Caller, Env}
use pstu_hack_final.Db.Rules.{Keeps-bind, keeps_rules, Keeps}
use pstu_hack_final.Api.Transfers.{request_key, send_and_show}
use pstu_hack_final.Api.Accounts.{LoginRequest, register_and_show, login_and_show}
use pstu_hack_final.Api.MoneyRequests.{
  decline_and_show, approve_and_show, cancel_and_show, create_and_show,
}
use pstu_hack_final.Api.{Libs}
use pstu_hack_final.Db.Tables.{find_phone, Conn}
use pstu_hack_final.Models.{User, Transaction}

Consistent-Free : Free Consistent
Consistent-Free = record { rows = λ d u s v. v; log = λ d a v. v }

register-Leaves :
    (lib : Bcrypt) (env : Env) (caller : Caller) (n : NewUser)
    → Respects env
    → Leaves Consistent (register lib env caller n)
register-Leaves lib env caller n r = record {
  committed = λ c v.
      rw (register-committed lib env caller n c)
        (elim (Bool-cases (is_some (find_phone n.phone c.work.users))) [
          | inl e ↦ rw e (v.0)
          | inr e ↦ rw e (
              (register_rows-Leaves lib env caller n r).committed (at_insert env c)
                (r.row c.committed v.0, r.row c.work v.1))
        ]);
  returned = λ c a v e.
      let c' = (register lib env caller n c).1 in
      let rows = register-rows lib env caller n c c' a.0 a.1 (λ i. (e i, c')) in
      let l =
        (register_rows-Leaves lib env caller n r).returned (at_insert env c) a
          (r.row c.committed v.0, r.row c.work v.1) (ap (λ x. x.0) rows.1) in
      subst (λ (x : Result (User × Transaction) × Conn). Consistent x.1.work) rows.1 l;
}

register_and_show-Leaves :
    (libs : Libs) (env : Env) (caller : Caller) (n : NewUser)
    → Respects env
    → Leaves Consistent (register_and_show libs env caller n)
unfolding register_and_show
register_and_show-Leaves libs env caller n r =
    Leaves-bind _ _ (register-Leaves libs.bcrypt env caller n r) λ made. Keeps-Leaves _ (
      let issue = issue_tokens-Keeps Consistent-Free in
      search (keeps_rules, issue, own_wallet-Keeps) depth 8)

login_and_show-Keeps :
    (libs : Libs) (env : Env) (caller : Caller) (q : LoginRequest)
    → Respects env
    → Keeps Consistent (login_and_show libs env caller q)
unfolding login_and_show
login_and_show-Keeps libs env caller q r =
    let login = λ (lib : Bcrypt) (phone password : Text).
      authenticate-Keeps Consistent-Free lib env caller phone password r.row in
    let issue = issue_tokens-Keeps Consistent-Free in search (keeps_rules, login, issue)

send_and_show-Keeps :
    (libs : Libs) (env : Env) (caller : Caller) (u : User) (f : TransferFields × Option Text)
    → Respects env
    → Keeps Consistent (send_and_show libs env caller u f)
unfolding send_and_show
send_and_show-Keeps libs env caller u f r =
    Keeps-bind _ _ (send_money-Keeps libs.bcrypt _ caller _ (shifted f.1))
      λ s. search (keeps_rules, own_wallet_id-Keeps, to_out-Keeps)
  where
    shifted : (k : Option Text) → Respects (request_key env k).1
    shifted none = record { row = r.row; wallets = r.wallets }
    shifted (some []) = record { row = r.row; wallets = r.wallets }
    shifted (some (x ∷ k)) = r

create_and_show-Keeps :
    (env : Env) (caller : Caller) (u : User) (f : MoneyRequestFields)
    → Keeps Consistent (create_and_show env caller u f)
unfolding create_and_show
create_and_show-Keeps env caller u f =
    search (keeps_rules, create_request-Keeps, show_request-Keeps)

module _ (env : Env) (caller : Caller) (u : User) (r : Respects env) where
  approve_and_show-Keeps :
      (libs : Libs) (i : ℕ) (pin : Text)
      → Keeps Consistent (approve_and_show libs env caller u i pin)
  unfolding approve_and_show
  approve_and_show-Keeps libs i pin =
      Keeps-bind _ _ (approve-Keeps libs.bcrypt env caller u i pin r) λ d. show_request-Keeps _ _ _

  decline_and_show-Keeps : (i : ℕ) → Keeps Consistent (decline_and_show env caller u i)
  unfolding decline_and_show
  decline_and_show-Keeps i =
      Keeps-bind _ _ (decline-Keeps env caller u i r) λ d. show_request-Keeps _ _ _

  cancel_and_show-Keeps : (i : ℕ) → Keeps Consistent (cancel_and_show env caller u i)
  unfolding cancel_and_show
  cancel_and_show-Keeps i =
      Keeps-bind _ _ (cancel-Keeps env caller u i r) λ d. show_request-Keeps _ _ _

pub Respects-Works : (libs : Libs) (env : Env) → Respects env → Works Consistent libs env
Respects-Works libs env r = record {
  register = λ caller n. register_and_show-Leaves libs env caller n r;
  login = λ caller q. login_and_show-Keeps libs env caller q r;
  refresh = λ caller t. rotate_tokens-Keeps Consistent-Free libs.tokens env caller t r.row;
  logout = logout-Keeps Consistent-Free env;
  transfer = λ caller u f. send_and_show-Keeps libs env caller u f r;
  request = create_and_show-Keeps env;
  approve = λ caller u. approve_and_show-Keeps env caller u r libs;
  decline = λ caller u. decline_and_show-Keeps env caller u r;
  cancel = λ caller u. cancel_and_show-Keeps env caller u r;
}
