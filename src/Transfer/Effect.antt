-- ===== src/Transfer/Effect.antt =====
-- The money that a transfer of app/services/transfer_service.py moves, and that a retry moves none.
use pstu_hack_final.Common.{
  ℕ, ◌≡◌, refl, sym, ap, subst, ◌∙◌, ◌≢◌, inl, inr, Bool, true, false, some, ◌∷◌, arith, ◌==◌,
  ==_iff, find-test,
}
use pstu_hack_final.Common.Int.{pos, ◌+ℤ◌, ◌-ℤ◌, ◌≤ℤ◌}
use pstu_hack_final.Db.Actions.{ok}
use pstu_hack_final.Ledger.{pending_transaction}
use pstu_hack_final.Db.Statements.{set_balance, set_completed}
use pstu_hack_final.Ledger.Effects.{
  transaction_violation-Admitted, completed_transaction, entries, Posted-Moves, balance_of,
  post_double_entry-Posted,
}
use pstu_hack_final.Transfer.Outcome.{move_money-Paid}
use pstu_hack_final.Models.{Wallet, Transaction}
use pstu_hack_final.Env.{Caller, Env}
use pstu_hack_final.Db.Tables.{find_wallet, Conn}
use pstu_hack_final.Transfer.{Order, execute_transfer, posting_of}
use pstu_hack_final.Transfer.Retry.{wallet_id_of, execute_transfer-Entered, Entered}
use pstu_hack_final.Transfer.Payment.{waited, closed, execute_new-Paying, paid, lost, Paying}

-- A payment: the sender's wallet loses the amount, the recipient's gains it, no other balance
-- changes, two entries are added, and the transaction is recorded as completed. The balances are
-- those after the wait for the locks.
pub record Transferred (env : Env) (o : Order) (b : Bool) (c : Conn) (txn : Transaction) (c' : Conn)
    : Type 0 where
  pub src : Wallet
  pub dst : Wallet
  pub sender_wallet : wallet_id_of o.sender.id c.work ≡ some src.id
  pub recipient_wallet : wallet_id_of o.recipient.id c.work ≡ some dst.id
  pub src_row : find_wallet src.id (env.while_wallets c.work).wallets ≡ some src
  pub dst_row : find_wallet dst.id (env.while_wallets c.work).wallets ≡ some dst
  pub distinct : src.id ≢ dst.id
  pub positive : pos 1 ≤ℤ o.amount
  pub covered : o.amount ≤ℤ src.balance
  pub debit : balance_of src.id c'.work ≡ some (src.balance -ℤ o.amount)
  pub credit : balance_of dst.id c'.work ≡ some (dst.balance +ℤ o.amount)
  pub others :
      (k : ℕ)
      → k ≢ src.id
      → k ≢ dst.id
      → balance_of k c'.work ≡ balance_of k (env.while_wallets c.work)
  pub entries_added :
      c'.work.ledger_entries
      ≡ entries env
          (env.uuid 0)
          (posting_of o src dst)
          c.entry_seq
          (env.while_wallets c.work).ledger_entries
  pub recorded : txn ≡ completed_transaction env (env.uuid 0) (posting_of o src dst)
  pub transactions :
      c'.work.transactions
      ≡ set_completed (env.uuid 0) env.now (
          pending_transaction env (env.uuid 0) (posting_of o src dst)
          ∷ (env.while_wallets c.work).transactions)
  pub wallets :
      c'.work.wallets
      ≡ set_balance dst.id
          (dst.balance +ℤ o.amount)
          env.now
          (set_balance src.id (src.balance -ℤ o.amount) env.now (env.while_wallets c.work).wallets)
  pub persisted : b ≡ true → c'.committed ≡ c'.work

closed-work : (b : Bool) (c : Conn) → (closed b c).work ≡ c.work
closed-work true c = refl
closed-work false c = refl

closed-persisted : (b : Bool) (c : Conn) → b ≡ true → (closed b c).committed ≡ (closed b c).work
closed-persisted true c h = refl
closed-persisted false c h = cc

-- A call that returns and is no replay has paid, once: in the tables after its wait for the locks,
-- the sender's wallet covers the amount, which is positive, and loses it, the recipient's gains it,
-- no other balance changes, the two signed entries are added, and the transaction is recorded as
-- completed. It is committed if the caller asks for that.
pub transfer_moves :
    (env : Env) (caller : Caller) (o : Order) (b : Bool) (c c' : Conn) (txn : Transaction)
    → execute_transfer env caller o b c ≡ (ok (txn, false), c')
    → Transferred env o b c txn c'
transfer_moves env caller o b c c' txn h =
    let e = execute_transfer-Entered env caller o b c c' txn false h in
    elim e.outcome [
      | inl (f, s, r, k) ↦ absurd (ground (arith, r))
      | inr (f, k) ↦ go e (execute_new-Paying env caller o e.src e.dst b c c' txn false k)
    ]
  where
    go :
        (e : Entered env caller o b c c' txn false)
        → Paying env caller o e.src e.dst b c txn false c'
        → Transferred env o b c txn c'
    go e (lost r f s w k) = absurd (ground (arith, r))
    go e (paid moved m r k) =
        let before = env.while_wallets c.work in
        let p = move_money-Paid env caller o e.src e.dst (waited env c) moved txn m in
        let q = posting_of o p.src p.dst in
        let f = post_double_entry-Posted env (env.uuid 0) q _ p.paid txn p.posting in
        let v = Posted-Moves env (env.uuid 0) q _ p.paid txn f in
        let id_of = λ (i : ℕ) (w : Wallet) (x : find_wallet i before.wallets ≡ some w).
          sym ((==_iff w.id i).0 (find-test (λ y. y.id == i) before.wallets w x)) in
        let es = id_of e.src p.src p.src_row in
        let ed = id_of e.dst p.dst p.dst_row in
        let work : c'.work ≡ record p.paid.work { audit_log = moved.work.audit_log } =
          ap (λ (x : Conn). x.work) k ∙ closed-work b moved ∙ p.audited in
        record {
          src = p.src;
          dst = p.dst;
          sender_wallet = e.sender_wallet ∙ ap some es;
          recipient_wallet = e.recipient_wallet ∙ ap some ed;
          src_row = subst (λ i. find_wallet i before.wallets ≡ some p.src) es p.src_row;
          dst_row = subst (λ i. find_wallet i before.wallets ≡ some p.dst) ed p.dst_row;
          distinct = (transaction_violation-Admitted env (env.uuid 0) q _ f.admitted).distinct;
          positive = f.positive;
          covered = ground (arith, f.covered);
          debit = rw work v.debit;
          credit = rw work v.credit;
          others = λ i ns nd. rw work (v.others i ns nd);
          entries_added = rw work (ap (λ (x : Conn). x.work.ledger_entries) f.after);
          recorded = f.result;
          transactions = rw work (ap (λ (x : Conn). x.work.transactions) f.after);
          wallets = rw work (ap (λ (x : Conn). x.work.wallets) f.after);
          persisted = λ t. rw k (closed-persisted b moved t);
        }
