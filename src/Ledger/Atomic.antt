-- ===== src/Ledger/Atomic.antt =====
-- Neither ledger primitive of app/services/ledger_service.py commits.
use pstu_hack_final.Common.{ℕ, List, arith}
use pstu_hack_final.Db.Actions.{◌>>=◌}
use pstu_hack_final.Env.{Env}
use pstu_hack_final.Db.Statements.{
  complete_transaction, insert_entry, update_balance, insert_transaction,
}
use pstu_hack_final.Db.Rules.{Uncommitted}
use pstu_hack_final.Ledger.{lock_wallets, post_double_entry, Posting}

pub lock_wallets-Uncommitted : (ids : List ℕ) → Uncommitted (lock_wallets ids)
unfolding lock_wallets ◌>>=◌
lock_wallets-Uncommitted ids c = ground arith

pub post_double_entry-Uncommitted :
    (env : Env) (id : ℕ) (p : Posting) → Uncommitted (post_double_entry env id p)
unfolding ◌>>=◌ post_double_entry insert_transaction update_balance insert_entry
    complete_transaction
post_double_entry-Uncommitted env id p c = ground arith
