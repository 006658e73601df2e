-- ===== src/Requests/Apart.antt =====
-- The money requests under the calls that are not about them: registration, login, sessions and
-- transfers.
use pstu_hack_final.Common.{◌≡◌, sym, subst, List, arith}
use pstu_hack_final.Common.Text.{Text}
use pstu_hack_final.Db.Actions.{⊤, Result, ok, err, wait, ◌>>=◌}
use pstu_hack_final.Errors.{Constraint, Exn}
use pstu_hack_final.Security.{Bcrypt}
use pstu_hack_final.Auth.Registration.{pay_grant-Uncommitted}
use pstu_hack_final.Transfer.{SendMoney, refuse_pin, resolve_recipient, send_money}
use pstu_hack_final.Transfer.Requests.{
  audit-OfRequests, execute_transfer-OfRequests, post_double_entry-requests, lock_wallets-requests,
  OfRequests,
}
use pstu_hack_final.Db.Tables.{Tables, Conn}
use pstu_hack_final.Db.Rules.{
  Keeps-raise_if, Keeps-query, Keeps-bind, Keeps-attempt, Keeps-wait, keeps_rules, Keeps-execute,
  Keeps,
}
use pstu_hack_final.Db.Statements.{insert_wallet, insert_user}
use pstu_hack_final.Sessions.Consistency.{Free}
use pstu_hack_final.Env.{Caller, Env}
use pstu_hack_final.Models.{Transaction, Wallet, User, MoneyRequest}
use pstu_hack_final.Auth.{NewUser, register_rows, register, end_registration, pay_grant}

pay_grant-requests :
    (env : Env) (c : Conn) → (pay_grant env c).1.work.money_requests ≡ c.work.money_requests
unfolding pay_grant ◌>>=◌
pay_grant-requests env c = grind (arith, lock_wallets-requests, post_double_entry-requests)

module _ (R : List MoneyRequest → Type 0) where
  pub requests-Free : Free (OfRequests R)
  requests-Free = record { rows = λ d u s v. v; log = λ d a v. v }

  insert_user-OfRequests : (u : User) → Keeps (OfRequests R) (insert_user u)
  unfolding insert_user
  insert_user-OfRequests u = Keeps-execute _ _ (λ d v. v)

  insert_wallet-OfRequests : (w : Wallet) → Keeps (OfRequests R) (insert_wallet w)
  unfolding insert_wallet
  insert_wallet-OfRequests w = Keeps-execute _ _ (λ d v. v)

  pay_grant-OfRequests : (env : Env) → Keeps (OfRequests R) (pay_grant env)
  pay_grant-OfRequests env = record {
    at = λ c h. (
      subst (OfRequests R) (sym (pay_grant-Uncommitted env c)) h.0,
      subst R (sym (pay_grant-requests env c)) h.1,
    );
  }

  end_registration-OfRequests :
      (p : Text) (r : Result (User × Transaction)) → Keeps (OfRequests R) (end_registration p r)
  unfolding end_registration
  end_registration-OfRequests p (ok r) = search keeps_rules
  end_registration-OfRequests p (err (Exn.integrity Constraint.users_phone_key)) =
      search keeps_rules
  end_registration-OfRequests p (err (Exn.integrity k)) = search keeps_rules
  end_registration-OfRequests p (err e) = search keeps_rules

  module _ (env : Env) (row : (d : Tables) → OfRequests R d → OfRequests R (env.while_row d))
      (wallets : (d : Tables) → OfRequests R d → OfRequests R (env.while_wallets d)) where
    register_rows-OfRequests :
        (lib : Bcrypt) (caller : Caller) (n : NewUser)
        → Keeps (OfRequests R) (register_rows lib env caller n)
    unfolding register_rows
    register_rows-OfRequests lib caller n =
        let log = audit-OfRequests R in
        let paid = λ (u : ⊤).
          Keeps-bind (pay_grant env) _ (pay_grant-OfRequests env) λ t. search (keeps_rules, log) in
        Keeps-bind _ _ (insert_user-OfRequests _) λ a.
          Keeps-bind _ _ (insert_wallet-OfRequests _)
            λ b. Keeps-bind (wait env.while_wallets) _ (Keeps-wait env.while_wallets wallets) paid

    pub register-OfRequests :
        (lib : Bcrypt) (caller : Caller) (n : NewUser)
        → Keeps (OfRequests R) (register lib env caller n)
    unfolding register
    register-OfRequests lib caller n =
        let rows = Keeps-attempt _ (register_rows-OfRequests lib caller n) in
        Keeps-bind _ _ (Keeps-query _) λ found. Keeps-bind _ _ (Keeps-raise_if _ _) λ a.
          Keeps-bind (wait env.while_row) _ (Keeps-wait env.while_row row)
            λ b. Keeps-bind _ _ rows (end_registration-OfRequests n.phone)

    pub send_money-OfRequests :
        (lib : Bcrypt) (caller : Caller) (s : SendMoney)
        → Keeps (OfRequests R) (send_money lib env caller s)
    unfolding send_money resolve_recipient refuse_pin
    send_money-OfRequests lib caller s =
        let pay = execute_transfer-OfRequests R env wallets in
        let log = audit-OfRequests R in search (keeps_rules, pay, log) depth 16
