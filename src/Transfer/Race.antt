-- ===== src/Transfer/Race.antt =====
-- Two calls with one key at the same time (app/services/transfer_service.py): the second has
-- passed the replay check when the first commits, and waits for the first one's locks.
use pstu_hack_final.Ledger.Refusals.{post_taken, post_short}
use pstu_hack_final.Common.{ℕ, ◌≡◌, refl, ◌≢◌, Bool, true, false, none, some, [], ◌∷◌, ◌++◌, arith}
use pstu_hack_final.Common.Int.{pos, ◌≤ℤ◌}
use pstu_hack_final.Db.Actions.{ok, err, savepoint, ◌>>=◌}
use pstu_hack_final.Transfer.Payment.{waited}
use pstu_hack_final.Db.Checks.{audit_violation, transaction_violation}
use pstu_hack_final.Db.Statements.{insert_audit}
use pstu_hack_final.Errors.{DomainError, Constraint, Exn}
use pstu_hack_final.Ledger.Locks.{lock_wallets-two, wallet_locks}
use pstu_hack_final.Ledger.{pending_transaction, post_double_entry, sorted_set}
use pstu_hack_final.Models.{Transaction, Wallet}
use pstu_hack_final.Env.{audit, Caller, Env}
use pstu_hack_final.Db.Tables.{has_user, wallet_of, find_wallet, Conn}
use pstu_hack_final.Transfer.{
  assert_same_request, replay_or_new, settle, execute_transfer, execute_new, posting_of, Order,
  move_money, find_replay, is_other_request, audit_transfer,
}

-- The second call at the moment it gets its locks: the first call's transaction is on record in
-- what it now sees, and was not when it looked.
pub record Lost (env : Env) (o : Order) (c : Conn) (winner : Transaction) : Type 0 where
  pub src : Wallet
  pub dst : Wallet
  pub sender_wallet : wallet_of o.sender.id c.work.wallets ≡ some src
  pub recipient_wallet : wallet_of o.recipient.id c.work.wallets ≡ some dst
  pub distinct : o.recipient.id ≢ o.sender.id
  pub not_yet : find_replay o.sender.id o.idempotency_key c.work ≡ none
  pub src_now : Wallet
  pub dst_now : Wallet
  pub src_row : find_wallet src.id (env.while_wallets c.work).wallets ≡ some src_now
  pub dst_row : find_wallet dst.id (env.while_wallets c.work).wallets ≡ some dst_now
  pub positive : pos 1 ≤ℤ o.amount
  pub won : find_replay o.sender.id o.idempotency_key (env.while_wallets c.work) ≡ some winner
  pub same : is_other_request winner o.amount dst.id ≡ false

-- The wait is over: the block locks the rows, and posts from what they hold now.
move_money-locked :
    (env : Env) (caller : Caller) (o : Order) (i j : ℕ) (c : Conn) (v w : Wallet)
    → find_wallet i c.work.wallets ≡ some v
    → find_wallet j c.work.wallets ≡ some w
    → move_money env caller o i j c
      ≡ (post_double_entry env (env.uuid 0) (posting_of o v w) >>= audit_transfer env caller o)
          (record c { locks = c.locks ++ wallet_locks (sorted_set (i ∷ j ∷ [])) })
unfolding move_money ◌>>=◌
move_money-locked env caller o i j c v w fi fj =
    let (l, ri, rj) = lock_wallets-two i j c v w fi fj in ground (arith, l, ri, rj)

execute_transfer-new :
    (env : Env) (caller : Caller) (o : Order) (b : Bool) (c : Conn) (winner : Transaction)
    (l : Lost env o c winner)
    → execute_transfer env caller o b c ≡ execute_new env caller o l.src.id l.dst.id b c
unfolding execute_transfer replay_or_new ◌>>=◌
execute_transfer-new env caller o b c winner l =
    ground (arith, l.sender_wallet, l.recipient_wallet, l.distinct, l.not_yet)

move_money-stops :
    (env : Env) (caller : Caller) (o : Order) (i j : ℕ) (c : Conn) (v w : Wallet) (x : Exn)
    → find_wallet i c.work.wallets ≡ some v
    → find_wallet j c.work.wallets ≡ some w
    → let locked = record c { locks = c.locks ++ wallet_locks (sorted_set (i ∷ j ∷ [])) } in
      post_double_entry env (env.uuid 0) (posting_of o v w) locked ≡ (err x, locked)
      → savepoint (move_money env caller o i j) c ≡ (err x, c)
unfolding savepoint ◌>>=◌
move_money-stops env caller o i j c v w x fi fj h =
    ground (arith, move_money-locked env caller o i j c v w fi fj, h)

-- A call that lost the race, when the balance still covers its amount: it returns the winner's
-- transaction as a replay, and moves no money of its own.
pub race_returns_winner :
    (env : Env) (caller : Caller) (o : Order) (b : Bool) (c : Conn) (winner : Transaction)
    (l : Lost env o c winner)
    → o.amount ≤ℤ l.src_now.balance
    → transaction_violation
        (pending_transaction env (env.uuid 0) (posting_of o l.src_now l.dst_now))
        (env.while_wallets c.work)
      ≡ some (Exn.integrity Constraint.uq_idem)
    → execute_transfer env caller o b c ≡ (ok (winner, true), waited env c)
unfolding execute_new settle assert_same_request ◌>>=◌
race_returns_winner env caller o b c winner l covered v =
    let p = posting_of o l.src_now l.dst_now in
    let stops =
      move_money-stops env caller o l.src.id l.dst.id (waited env c) l.src_now l.dst_now _ l.src_row
        l.dst_row (post_taken env (env.uuid 0) p _ l.positive covered v) in
    ground (arith, execute_transfer-new env caller o b c winner l, stops, l.won, l.same)

-- A call that lost the race, when the winner's payment has left less than the amount: it is refused
-- for lack of funds although the transaction of its key is on record.
pub race_refuses_winner :
    (env : Env) (caller : Caller) (o : Order) (b : Bool) (c : Conn) (winner : Transaction)
    (l : Lost env o c winner)
    → ¬ (o.amount ≤ℤ l.src_now.balance)
    → has_user o.sender.id (env.while_wallets c.work).users ≡ true
    → (execute_transfer env caller o b c).0
      ≡ err (Exn.domain (DomainError.insufficient_funds (some l.src_now.balance)))
unfolding execute_new settle audit insert_audit audit_violation ◌>>=◌
race_refuses_winner env caller o b c winner l short known =
    let p = posting_of o l.src_now l.dst_now in
    let stops =
      move_money-stops env caller o l.src.id l.dst.id (waited env c) l.src_now l.dst_now _ l.src_row
        l.dst_row (post_short env (env.uuid 0) p _ l.positive refl short) in
    ground (arith, execute_transfer-new env caller o b c winner l, stops, known)
