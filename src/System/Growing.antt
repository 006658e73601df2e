-- ===== src/System/Growing.antt =====
-- The calls of app/services keep every property that Additive describes.
use pstu_hack_final.Errors.{DomainError, Constraint, Exn}
use pstu_hack_final.Transfer.Outcome.{move_money-Uncommitted}
use pstu_hack_final.Security.{Bcrypt}
use pstu_hack_final.Db.Rules.{
  Keeps-raise_if, Keeps-query, Keeps-wait, Keeps-attempt, keeps_rules, Keeps-bind, Keeps-savepoint,
  Keeps,
}
use pstu_hack_final.Models.{
  Meta, AuditAction, Entity, RequestStatus, MoneyRequest, User, Transaction,
}
use pstu_hack_final.Env.{Caller, Env}
use pstu_hack_final.Auth.{pay_grant, NewUser, register, register_rows, end_registration}
use pstu_hack_final.Transfer.{
  move_money, SendMoney, Order, resolve_recipient, send_money, execute_transfer, replay_or_new,
  execute_new, settle, refuse_pin, assert_same_request,
}
use pstu_hack_final.Requests.{
  effective_status, NewRequest, settle_request, cancel, decline, approve, answer, record_approval,
  assert_actionable, lock_request, create_request, refuse_status,
}
use pstu_hack_final.Db.Tables.{Conn, Tables}
use pstu_hack_final.Common.{ℕ, subst, Bool, Option, none, some}
use pstu_hack_final.Common.Int.{ℤ}
use pstu_hack_final.Common.Text.{Text}
use pstu_hack_final.Db.Actions.{⊤, Result, ok, err, attempt, savepoint, wait}
use pstu_hack_final.System.Additive.{
  Additive, audit-Keeps, move_money-Keeps, pay_grant-Keeps, insert_user-Keeps, insert_wallet-Keeps,
  insert_request-Keeps, update_request-Keeps,
}

-- What other transactions commit during a wait keeps the property.
pub record Waits (Q : Tables → Type 0) (env : Env) : Type 0 where
  pub row : (d : Tables) → Q d → Q (env.while_row d)
  pub wallets : (d : Tables) → Q d → Q (env.while_wallets d)

module _ {Q : Tables → Type 0} where
  assert_same_request-Keeps :
      (txn : Transaction) (a : ℤ) (w : ℕ) → Keeps Q (assert_same_request txn a w)
  unfolding assert_same_request
  assert_same_request-Keeps txn a w = search keeps_rules

  refuse_status-Keeps : (s : RequestStatus) → Keeps Q (refuse_status s)
  unfolding refuse_status
  refuse_status-Keeps RequestStatus.pending = search keeps_rules
  refuse_status-Keeps RequestStatus.expired = search keeps_rules
  refuse_status-Keeps s = search keeps_rules

  assert_actionable-Keeps : (now : ℕ) (r : MoneyRequest) → Keeps Q (assert_actionable now r)
  unfolding assert_actionable
  assert_actionable-Keeps now r = refuse_status-Keeps (effective_status now r)

  end_registration-Keeps :
      (p : Text) (r : Result (User × Transaction)) → Keeps Q (end_registration p r)
  unfolding end_registration
  end_registration-Keeps p (ok r) = search keeps_rules
  end_registration-Keeps p (err (Exn.integrity Constraint.users_phone_key)) = search keeps_rules
  end_registration-Keeps p (err (Exn.integrity k)) = search keeps_rules
  end_registration-Keeps p (err e) = search keeps_rules

  lock_request-Keeps : (env : Env) (i : ℕ) (u : User) → Waits Q env → Keeps Q (lock_request env i u)
  unfolding lock_request
  lock_request-Keeps env i u w =
      Keeps-bind (wait env.while_row) _ (Keeps-wait env.while_row w.row) λ t. search keeps_rules

module _ {Q : Tables → Type 0} (free : Additive Q) where
  refuse_pin-Keeps :
      (env : Env) (caller : Caller) (u : ℕ) (e : Option Entity) (m : Meta)
      → Keeps Q (refuse_pin env caller u e m)
  unfolding refuse_pin
  refuse_pin-Keeps env caller u e m = let log = audit-Keeps free in search (keeps_rules, log)

  settle-Keeps :
      (env : Env) (caller : Caller) (o : Order) (dst : ℕ) (b : Bool) (r : Result Transaction)
      → Keeps Q (settle env caller o dst b r)
  unfolding settle
  settle-Keeps env caller o dst b (ok txn) = search keeps_rules
  settle-Keeps env caller o dst b (err (Exn.domain (DomainError.insufficient_funds a))) =
      let log = audit-Keeps free in search (keeps_rules, log)
  settle-Keeps env caller o dst b (err (Exn.integrity Constraint.uq_idem)) =
      search (keeps_rules, assert_same_request-Keeps)
  settle-Keeps env caller o dst b (err e) = search keeps_rules

  answer-Keeps :
      (env : Env) (caller : Caller) (u : User) (req : MoneyRequest) (s : RequestStatus)
      (a : AuditAction)
      → Keeps Q (answer env caller u req s a)
  unfolding answer
  answer-Keeps env caller u req s a =
      let log = audit-Keeps free in
      let change = update_request-Keeps free in search (keeps_rules, log, change) depth 10

  record_approval-Keeps :
      (env : Env) (caller : Caller) (u : User) (req : MoneyRequest) (t : Transaction)
      → Keeps Q (record_approval env caller u req t)
  unfolding record_approval
  record_approval-Keeps env caller u req t =
      let log = audit-Keeps free in
      let change = update_request-Keeps free in search (keeps_rules, log, change) depth 10

  pub create_request-Keeps :
      (env : Env) (caller : Caller) (n : NewRequest) → Keeps Q (create_request env caller n)
  unfolding create_request
  create_request-Keeps env caller n =
      let log = audit-Keeps free in
      let insert = insert_request-Keeps free in search (keeps_rules, log, insert) depth 14

  module _ (env : Env) (w : Waits Q env) where
    execute_new-Keeps :
        (caller : Caller) (o : Order) (src dst : ℕ) (b : Bool)
        → Keeps Q (execute_new env caller o src dst b)
    unfolding execute_new
    execute_new-Keeps caller o src dst b =
        let move = move_money-Keeps free env caller o src dst in
        let block =
          Keeps-savepoint _ (move_money-Uncommitted env caller o src dst) (λ c c' t h e.
            subst (λ (x : Result Transaction × Conn). Q x.1.work) e (move.at c h).1) in
        Keeps-bind (wait env.while_wallets) _ (Keeps-wait env.while_wallets w.wallets) λ u.
          Keeps-bind (attempt (savepoint (move_money env caller o src dst)))
            (settle env caller o dst b) (Keeps-attempt _ block) (settle-Keeps env caller o dst b)

    replay_or_new-Keeps :
        (caller : Caller) (o : Order) (b : Bool) (src dst : ℕ) (found : Option Transaction)
        → Keeps Q (replay_or_new env caller o b src dst found)
    unfolding replay_or_new
    replay_or_new-Keeps caller o b src dst none = execute_new-Keeps caller o src dst b
    replay_or_new-Keeps caller o b src dst (some txn) =
        search (keeps_rules, assert_same_request-Keeps)

    execute_transfer-Keeps :
        (caller : Caller) (o : Order) (b : Bool) → Keeps Q (execute_transfer env caller o b)
    unfolding execute_transfer
    execute_transfer-Keeps caller o b = search (keeps_rules, replay_or_new-Keeps) depth 14

    pub send_money-Keeps :
        (lib : Bcrypt) (caller : Caller) (s : SendMoney) → Keeps Q (send_money lib env caller s)
    unfolding send_money resolve_recipient
    send_money-Keeps lib caller s =
        search (keeps_rules, execute_transfer-Keeps, refuse_pin-Keeps) depth 16

    register_rows-Keeps :
        (lib : Bcrypt) (caller : Caller) (n : NewUser) → Keeps Q (register_rows lib env caller n)
    unfolding register_rows
    register_rows-Keeps lib caller n =
        let log = audit-Keeps free in
        let paid = λ (u : ⊤).
          Keeps-bind (pay_grant env) _ (pay_grant-Keeps free env) λ t. search (keeps_rules, log) in
        Keeps-bind _ _ (insert_user-Keeps free _) λ a.
          Keeps-bind _ _ (insert_wallet-Keeps free _)
            λ b. Keeps-bind (wait env.while_wallets) _ (Keeps-wait env.while_wallets w.wallets) paid

    pub register-Keeps :
        (lib : Bcrypt) (caller : Caller) (n : NewUser) → Keeps Q (register lib env caller n)
    unfolding register
    register-Keeps lib caller n =
        let rows = Keeps-attempt _ (register_rows-Keeps lib caller n) in
        Keeps-bind _ _ (Keeps-query _) λ found. Keeps-bind _ _ (Keeps-raise_if _ _) λ a.
          Keeps-bind (wait env.while_row) _ (Keeps-wait env.while_row w.row)
            λ b. Keeps-bind _ _ rows (end_registration-Keeps n.phone)

    settle_request-Keeps :
        (caller : Caller) (u : User) (req : MoneyRequest)
        → Keeps Q (settle_request env caller u req)
    unfolding settle_request
    settle_request-Keeps caller u req =
        search (keeps_rules, record_approval-Keeps, execute_transfer-Keeps) depth 10

    pub approve-Keeps :
        (lib : Bcrypt) (caller : Caller) (u : User) (i : ℕ) (pin : Text)
        → Keeps Q (approve lib env caller u i pin)
    unfolding approve
    approve-Keeps lib caller u i pin =
        Keeps-bind (lock_request env i u) _ (lock_request-Keeps env i u w) λ q.
          search (keeps_rules, refuse_pin-Keeps, assert_actionable-Keeps, settle_request-Keeps)
            depth 12

    pub decline-Keeps : (caller : Caller) (u : User) (i : ℕ) → Keeps Q (decline env caller u i)
    unfolding decline
    decline-Keeps caller u i =
        Keeps-bind (lock_request env i u) _ (lock_request-Keeps env i u w)
          λ q. search (keeps_rules, assert_actionable-Keeps, answer-Keeps) depth 10

    pub cancel-Keeps : (caller : Caller) (u : User) (i : ℕ) → Keeps Q (cancel env caller u i)
    unfolding cancel
    cancel-Keeps caller u i =
        Keeps-bind (lock_request env i u) _ (lock_request-Keeps env i u w)
          λ q. search (keeps_rules, assert_actionable-Keeps, answer-Keeps) depth 10
