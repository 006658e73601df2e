-- ===== src/Transfer/Outcome.antt =====
-- What a `move_money` of app/services/transfer_service.py that returns has done.
use pstu_hack_final.Common.{
  ℕ, ◌≡◌, sym, ap, subst, ◌∙◌, inl, inr, Option, some, [], ◌∷◌, ◌++◌, arith, Option-cases,
}
use pstu_hack_final.Db.Actions.{>>=-eq-ok, ok, ◌>>=◌}
use pstu_hack_final.Ledger.Effects.{post_double_entry-Posted}
use pstu_hack_final.Db.Statements.{insert_audit}
use pstu_hack_final.Ledger.Locks.{find-select_wallets, lock_wallets-ok, wallet_locks}
use pstu_hack_final.Ledger.Atomic.{post_double_entry-Uncommitted, lock_wallets-Uncommitted}
use pstu_hack_final.Db.Tables.{Tables, find_wallet, Conn}
use pstu_hack_final.Ledger.{post_double_entry, lock_wallets, sorted_set}
use pstu_hack_final.Models.{Transaction, Meta, Entity, AuditAction, Wallet}
use pstu_hack_final.Env.{Caller, Env, audit}
use pstu_hack_final.Db.Rules.{
  Result-cases, Uncommitted, Keeps, Keeps-insert_audit, Uncommitted-insert_audit,
}
use pstu_hack_final.Transfer.{audit_transfer, posting_of, Order, move_money}
use pstu_hack_final.Ledger.Consistency.{Consistent}

pub audit-Keeps :
    (env : Env) (action : AuditAction) (actor : Option ℕ) (entity : Option Entity) (caller : Caller)
    (meta : Meta)
    → Keeps Consistent (audit env action actor entity caller meta)
unfolding audit
audit-Keeps env action actor entity caller meta = Keeps-insert_audit _ (λ d l v. v)

pub audit-Uncommitted :
    (env : Env) (action : AuditAction) (actor : Option ℕ) (entity : Option Entity) (caller : Caller)
    (meta : Meta)
    → Uncommitted (audit env action actor entity caller meta)
unfolding audit
audit-Uncommitted env action actor entity caller meta = Uncommitted-insert_audit _

pub move_money-Uncommitted :
    (env : Env) (caller : Caller) (o : Order) (src dst : ℕ)
    → Uncommitted (move_money env caller o src dst)
unfolding ◌>>=◌ move_money audit_transfer
move_money-Uncommitted env caller o src dst c =
    grind (arith, lock_wallets-Uncommitted, post_double_entry-Uncommitted, audit-Uncommitted)

-- What a `move_money` that returns has done.
pub record Moved (env : Env) (caller : Caller) (o : Order) (src_id dst_id : ℕ) (c : Conn)
    (txn : Transaction) (c' : Conn) : Type 0 where
  pub src : Wallet
  pub dst : Wallet
  pub src_row : find_wallet src_id c.work.wallets ≡ some src
  pub dst_row : find_wallet dst_id c.work.wallets ≡ some dst
  pub run :
      (post_double_entry env (env.uuid 0) (posting_of o src dst) >>= audit_transfer env caller o)
        (record c { locks = c.locks ++ wallet_locks (sorted_set (src_id ∷ dst_id ∷ [])) })
      ≡ (ok txn, c')

pub move_money-Moved :
    (env : Env) (caller : Caller) (o : Order) (src dst : ℕ) (c c' : Conn) (txn : Transaction)
    → move_money env caller o src dst c ≡ (ok txn, c')
    → Moved env caller o src dst c txn c'
unfolding ◌>>=◌ move_money
move_money-Moved env caller o src_id dst_id c c' txn h =
    let ids = src_id ∷ dst_id ∷ [] in
    let ws = c.work.wallets in
    let c1 = (lock_wallets ids c).1 in
    elim (Result-cases (lock_wallets ids c).0) [
      | inr (x, e) ↦ absurd (ground (arith, e))
      | inl (rows, e) ↦
          let le = lock_wallets-ok ids c c1 rows (λ i. (e i, c1)) in
          elim (Option-cases (find_wallet src_id rows)) [
            | inl es ↦ absurd (ground (arith, e, es))
            | inr (src, es) ↦ elim (Option-cases (find_wallet dst_id rows)) [
              | inl ed ↦ absurd (ground (arith, e, es, ed))
              | inr (dst, ed) ↦ record {
                src = src;
                dst = dst;
                src_row = find-select_wallets src_id (sorted_set ids) ws src (rw (le.0) at es);
                dst_row = find-select_wallets dst_id (sorted_set ids) ws dst (rw (le.0) at ed);
                run = ground (arith, e, es, ed, le.1);
              }
            ]
          ]
    ]

-- Nothing but the audit log differs.
abbrev pub OnlyAudit : Tables → Tables → Type 0
OnlyAudit d d' = d' ≡ record d { audit_log = d'.audit_log }

pub audit-OnlyAudit :
    (env : Env) (action : AuditAction) (actor : Option ℕ) (entity : Option Entity) (caller : Caller)
    (meta : Meta) (c : Conn)
    → OnlyAudit c.work (audit env action actor entity caller meta c).1.work
unfolding audit insert_audit
audit-OnlyAudit env action actor entity caller meta c = ground arith

audit_transfer-ok :
    (env : Env) (caller : Caller) (o : Order) (t txn : Transaction) (c c' : Conn)
    → audit_transfer env caller o t c ≡ (ok txn, c')
    → (txn ≡ t) × OnlyAudit c.work c'.work × (c'.committed ≡ c.committed) × (c'.locks ≡ c.locks)
unfolding ◌>>=◌ audit_transfer audit insert_audit
audit_transfer-ok env caller o t txn c c' h = ground arith

-- A transfer that returns is a posting between the two rows, and an audit row.
pub record Paid (env : Env) (caller : Caller) (o : Order) (src_id dst_id : ℕ) (c : Conn)
    (txn : Transaction) (c' : Conn) : Type 0 where
  pub src : Wallet
  pub dst : Wallet
  pub src_row : find_wallet src_id c.work.wallets ≡ some src
  pub dst_row : find_wallet dst_id c.work.wallets ≡ some dst
  pub paid : Conn
  pub posting :
      post_double_entry env
        (env.uuid 0)
        (posting_of o src dst)
        (record c { locks = c.locks ++ wallet_locks (sorted_set (src_id ∷ dst_id ∷ [])) })
      ≡ (ok txn, paid)
  pub audited : OnlyAudit paid.work c'.work
  pub uncommitted : c'.committed ≡ c.committed
  pub locks : c'.locks ≡ c.locks ++ wallet_locks (sorted_set (src_id ∷ dst_id ∷ []))

pub move_money-Paid :
    (env : Env) (caller : Caller) (o : Order) (src dst : ℕ) (c c' : Conn) (txn : Transaction)
    → move_money env caller o src dst c ≡ (ok txn, c')
    → Paid env caller o src dst c txn c'
move_money-Paid env caller o src_id dst_id c c' txn h =
    let m = move_money-Moved env caller o src_id dst_id c c' txn h in
    let locked = record c { locks = c.locks ++ wallet_locks (sorted_set (src_id ∷ dst_id ∷ [])) } in
    let p = posting_of o m.src m.dst in
    let (t, paid, e, r) =
      >>=-eq-ok (post_double_entry env (env.uuid 0) p) (audit_transfer env caller o) locked m.run in
    let a = audit_transfer-ok env caller o t txn paid c' r in
    let f = post_double_entry-Posted env (env.uuid 0) p locked paid t e in
    record {
      src = m.src;
      dst = m.dst;
      src_row = m.src_row;
      dst_row = m.dst_row;
      paid = paid;
      posting = subst (λ x. post_double_entry env (env.uuid 0) p locked ≡ (ok x, paid)) (sym a.0) e;
      audited = a.1;
      uncommitted = a.2 ∙ ap (λ (x : Conn). x.committed) f.after;
      locks = a.3 ∙ ap (λ (x : Conn). x.locks) f.after;
    }
