-- ===== src/Transfer/Requests.antt =====
-- The transfer path of app/services/transfer_service.py leaves the money requests alone.
use pstu_hack_final.Errors.{Constraint, DomainError, Exn}
use pstu_hack_final.Env.Rules.{Keeps-audit}
use pstu_hack_final.Transfer.Outcome.{move_money-Uncommitted}
use pstu_hack_final.Db.Rules.{
  Keeps-attempt, Keeps-wait, keeps_rules, Keeps-savepoint, Keeps-bind, Keeps,
}
use pstu_hack_final.Db.Statements.{
  complete_transaction, insert_entry, update_balance, insert_audit, insert_transaction,
}
use pstu_hack_final.Db.Tables.{Tables, Conn}
use pstu_hack_final.Transfer.{
  Order, replay_or_new, execute_new, execute_transfer, audit_transfer, settle, assert_same_request,
  move_money,
}
use pstu_hack_final.Models.{Meta, Entity, Transaction, AuditAction, MoneyRequest}
use pstu_hack_final.Ledger.{Posting, post_double_entry, lock_wallets}
use pstu_hack_final.Env.{Caller, Env, audit}
use pstu_hack_final.Common.{ℕ, ◌≡◌, sym, ap, subst, ◌∙◌, Bool, Option, none, some, List, arith}
use pstu_hack_final.Common.Int.{ℤ}
use pstu_hack_final.Db.Actions.{Result, ok, err, attempt, savepoint, wait, ◌>>=◌}

module _ (R : List MoneyRequest → Type 0) where
  -- A property of the money requests alone.
  abbrev pub OfRequests : Tables → Type 0
  OfRequests d = R d.money_requests

pub post_double_entry-requests :
    (env : Env) (id : ℕ) (p : Posting) (c : Conn)
    → (post_double_entry env id p c).1.work.money_requests ≡ c.work.money_requests
unfolding ◌>>=◌ post_double_entry insert_transaction update_balance insert_entry
    complete_transaction
post_double_entry-requests env id p c = ground arith

pub lock_wallets-requests :
    (ids : List ℕ) (c : Conn) → (lock_wallets ids c).1.work.money_requests ≡ c.work.money_requests
unfolding lock_wallets ◌>>=◌
lock_wallets-requests ids c = ground arith

audit-requests :
    (env : Env) (action : AuditAction) (actor : Option ℕ) (entity : Option Entity) (caller : Caller)
    (meta : Meta) (c : Conn)
    → (audit env action actor entity caller meta c).1.work.money_requests ≡ c.work.money_requests
unfolding audit insert_audit
audit-requests env action actor entity caller meta c = ground arith

move_money-requests :
    (env : Env) (caller : Caller) (o : Order) (src dst : ℕ) (c : Conn)
    → (move_money env caller o src dst c).1.work.money_requests ≡ c.work.money_requests
unfolding ◌>>=◌ move_money audit_transfer
move_money-requests env caller o src dst c =
    grind (arith, lock_wallets-requests, post_double_entry-requests, audit-requests)

module _ (R : List MoneyRequest → Type 0) where
  pub audit-OfRequests :
      (env : Env) (action : AuditAction) (actor : Option ℕ) (entity : Option Entity)
      (caller : Caller) (meta : Meta)
      → Keeps (OfRequests R) (audit env action actor entity caller meta)
  audit-OfRequests env action actor entity caller meta = Keeps-audit env _ _ _ caller _ (λ d l q. q)

  move_money-OfRequests :
      (env : Env) (caller : Caller) (o : Order) (src dst : ℕ)
      → Keeps (OfRequests R) (savepoint (move_money env caller o src dst))
  move_money-OfRequests env caller o src dst =
      Keeps-savepoint _ (move_money-Uncommitted env caller o src dst) (λ c c' t h e.
        subst R
          (sym (move_money-requests env caller o src dst c)
            ∙ ap (λ (q : Result Transaction × Conn). q.1.work.money_requests) e)
          h.1)

  assert_same_request-OfRequests :
      (txn : Transaction) (a : ℤ) (w : ℕ) → Keeps (OfRequests R) (assert_same_request txn a w)
  unfolding assert_same_request
  assert_same_request-OfRequests txn a w = search keeps_rules

  settle-OfRequests :
      (env : Env) (caller : Caller) (o : Order) (dst : ℕ) (b : Bool) (r : Result Transaction)
      → Keeps (OfRequests R) (settle env caller o dst b r)
  unfolding settle
  settle-OfRequests env caller o dst b (ok txn) = search keeps_rules
  settle-OfRequests env caller o dst b (err (Exn.domain (DomainError.insufficient_funds a))) =
      search (keeps_rules, audit-OfRequests)
  settle-OfRequests env caller o dst b (err (Exn.integrity Constraint.uq_idem)) =
      search (keeps_rules, assert_same_request-OfRequests)
  settle-OfRequests env caller o dst b (err e) = search keeps_rules

  module _ (env : Env)
      (w : (d : Tables) → OfRequests R d → OfRequests R (env.while_wallets d)) where
    execute_new-OfRequests :
        (caller : Caller) (o : Order) (src dst : ℕ) (b : Bool)
        → Keeps (OfRequests R) (execute_new env caller o src dst b)
    unfolding execute_new
    execute_new-OfRequests caller o src dst b =
        Keeps-bind (wait env.while_wallets) _ (Keeps-wait env.while_wallets w) λ u.
          Keeps-bind (attempt (savepoint (move_money env caller o src dst)))
            (settle env caller o dst b)
            (Keeps-attempt (savepoint (move_money env caller o src dst))
              (move_money-OfRequests env caller o src dst))
            (settle-OfRequests env caller o dst b)

    replay_or_new-OfRequests :
        (caller : Caller) (o : Order) (b : Bool) (src dst : ℕ) (found : Option Transaction)
        → Keeps (OfRequests R) (replay_or_new env caller o b src dst found)
    unfolding replay_or_new
    replay_or_new-OfRequests caller o b src dst none = execute_new-OfRequests caller o src dst b
    replay_or_new-OfRequests caller o b src dst (some txn) =
        search (keeps_rules, assert_same_request-OfRequests)

    pub execute_transfer-OfRequests :
        (caller : Caller) (o : Order) (b : Bool)
        → Keeps (OfRequests R) (execute_transfer env caller o b)
    unfolding execute_transfer
    execute_transfer-OfRequests caller o b = search (keeps_rules, replay_or_new-OfRequests) depth 14
