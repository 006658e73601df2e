-- ===== src/Transfer/Consistency.antt =====
-- Every outcome of the transfer path of app/services/transfer_service.py keeps the ledger's
-- invariants.
use pstu_hack_final.Common.{
  ℕ, ◌≡◌, sym, subst, Bool, true, Option, none, some, [], ◌∷◌, ◌++◌, ◌==◌, ==_iff, find-test,
}
use pstu_hack_final.Common.Int.{ℤ}
use pstu_hack_final.Common.Text.{Text}
use pstu_hack_final.Db.Actions.{Result, ok, err, attempt, savepoint, wait, serve}
use pstu_hack_final.Security.{Bcrypt}
use pstu_hack_final.Errors.{Constraint, Exn, DomainError}
use pstu_hack_final.Ledger.Locks.{wallet_locks}
use pstu_hack_final.Db.Tables.{Tables, find_wallet, Conn}
use pstu_hack_final.Ledger.{sorted_set}
use pstu_hack_final.Models.{User, Transaction, Meta, Entity, Wallet}
use pstu_hack_final.Env.{Caller, Env}
use pstu_hack_final.Db.Rules.{
  Keeps-serve, Keeps-attempt, Keeps-bind, Keeps-wait, keeps_rules, Keeps-savepoint, Both, Keeps,
}
use pstu_hack_final.Transfer.{
  SendMoney, resolve_recipient, execute_transfer, execute_new, replay_or_new, refuse_pin,
  send_money, settle, assert_same_request, posting_of, Order, move_money,
}
use pstu_hack_final.Ledger.Consistency.{post_double_entry-Consistent, Consistent}
use pstu_hack_final.Transfer.Outcome.{move_money-Uncommitted, move_money-Paid, audit-Keeps}

move_money-Consistent :
    (env : Env) (caller : Caller) (o : Order) (src dst : ℕ) (c c' : Conn) (txn : Transaction)
    → Both Consistent c
    → move_money env caller o src dst c ≡ (ok txn, c')
    → Consistent c'.work
move_money-Consistent env caller o src_id dst_id c c' txn v h =
    let m = move_money-Paid env caller o src_id dst_id c c' txn h in
    let locked = record c { locks = c.locks ++ wallet_locks (sorted_set (src_id ∷ dst_id ∷ [])) } in
    let same = λ (i : ℕ) (w : Wallet) (e : find_wallet i c.work.wallets ≡ some w).
      subst (λ k. find_wallet k c.work.wallets ≡ some w)
        (sym ((==_iff w.id i).0 (find-test (λ x. x.id == i) c.work.wallets w e))) e in
    rw (m.audited) (
      post_double_entry-Consistent env (env.uuid 0) (posting_of o m.src m.dst) locked m.paid txn v.1
        (same _ _ m.src_row) (same _ _ m.dst_row) m.posting)

-- What other transactions commit during a wait leaves the ledger consistent.
pub record Respects (env : Env) : Type 0 where
  pub row : (d : Tables) → Consistent d → Consistent (env.while_row d)
  pub wallets : (d : Tables) → Consistent d → Consistent (env.while_wallets d)

move_money-Keeps :
    (env : Env) (caller : Caller) (o : Order) (src dst : ℕ)
    → Keeps Consistent (savepoint (move_money env caller o src dst))
move_money-Keeps env caller o src dst =
    Keeps-savepoint _ (move_money-Uncommitted env caller o src dst)
      (λ c c' txn. move_money-Consistent env caller o src dst c c' txn)

assert_same_request-Keeps :
    (txn : Transaction) (a : ℤ) (w : ℕ) → Keeps Consistent (assert_same_request txn a w)
unfolding assert_same_request
assert_same_request-Keeps txn a w = search keeps_rules

ruleset transfer_rules = (keeps_rules, audit-Keeps, assert_same_request-Keeps, move_money-Keeps)

settle-Keeps :
    (env : Env) (caller : Caller) (o : Order) (dst : ℕ) (b : Bool) (r : Result Transaction)
    → Keeps Consistent (settle env caller o dst b r)
unfolding settle
settle-Keeps env caller o dst b (ok txn) = search transfer_rules
settle-Keeps env caller o dst b (err (Exn.domain (DomainError.insufficient_funds a))) =
    search transfer_rules
settle-Keeps env caller o dst b (err (Exn.integrity Constraint.uq_idem)) = search transfer_rules
settle-Keeps env caller o dst b (err e) = search transfer_rules

execute_new-Keeps :
    (env : Env) (caller : Caller) (o : Order) (src dst : ℕ) (b : Bool)
    → Respects env
    → Keeps Consistent (execute_new env caller o src dst b)
unfolding execute_new
execute_new-Keeps env caller o src dst b r =
    Keeps-bind (wait env.while_wallets) _ (Keeps-wait env.while_wallets r.wallets) λ u.
      Keeps-bind (attempt (savepoint (move_money env caller o src dst))) (settle env caller o dst b)
        (Keeps-attempt (savepoint (move_money env caller o src dst))
          (move_money-Keeps env caller o src dst))
        (settle-Keeps env caller o dst b)

replay_or_new-Keeps :
    (env : Env) (caller : Caller) (o : Order) (b : Bool) (src dst : ℕ) (found : Option Transaction)
    → Respects env
    → Keeps Consistent (replay_or_new env caller o b src dst found)
unfolding replay_or_new
replay_or_new-Keeps env caller o b src dst none r = execute_new-Keeps env caller o src dst b r
replay_or_new-Keeps env caller o b src dst (some txn) r = search transfer_rules

-- Whatever the outcome of `execute_transfer`, a replay, a refusal or a lost race included, the
-- committed tables and those that its transaction sees stay consistent, if the transactions that
-- commit while it waits keep them so.
pub execute_transfer-Keeps :
    (env : Env) (caller : Caller) (o : Order) (b : Bool)
    → Respects env
    → Keeps Consistent (execute_transfer env caller o b)
unfolding execute_transfer
execute_transfer-Keeps env caller o b r =
    search
      (
        keeps_rules,
        λ (src dst : ℕ) (t : Option Transaction). replay_or_new-Keeps env caller o b src dst t r,
      )
      depth 14

resolve_recipient-Keeps : (u : User) (p : Text) → Keeps Consistent (resolve_recipient u p)
unfolding resolve_recipient
resolve_recipient-Keeps u p = search keeps_rules depth 8

pub refuse_pin-Keeps :
    (env : Env) (caller : Caller) (u : ℕ) (e : Option Entity) (m : Meta)
    → Keeps Consistent (refuse_pin env caller u e m)
unfolding refuse_pin
refuse_pin-Keeps env caller u e m = search (keeps_rules, audit-Keeps)

pub send_money-Keeps :
    (lib : Bcrypt) (env : Env) (caller : Caller) (s : SendMoney)
    → Respects env
    → Keeps Consistent (send_money lib env caller s)
unfolding send_money
send_money-Keeps lib env caller s r = search (
  keeps_rules,
  refuse_pin-Keeps,
  resolve_recipient-Keeps,
  λ (o : Order). execute_transfer-Keeps env caller o true r,
)

-- A request that sends money leaves the committed tables consistent, whether it returns or raises, if the transactions that commit while it waits keep them so.
pub send_money-Consistent :
    (lib : Bcrypt) (env : Env) (caller : Caller) (s : SendMoney) (c : Conn)
    → Respects env
    → Consistent c.committed
    → Consistent (serve (send_money lib env caller s) c).1.committed
send_money-Consistent lib env caller s c r v =
    (Keeps-serve (send_money lib env caller s) (send_money-Keeps lib env caller s r) c v).0
