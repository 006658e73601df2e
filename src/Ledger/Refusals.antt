-- ===== src/Ledger/Refusals.antt =====
-- Where `post_double_entry` (app/services/ledger_service.py) stops.
use pstu_hack_final.Errors.{DomainError, Constraint, Exn}
use pstu_hack_final.Db.Checks.{transaction_violation}
use pstu_hack_final.Db.Tables.{Conn}
use pstu_hack_final.Db.Statements.{insert_transaction}
use pstu_hack_final.Env.{Env}
use pstu_hack_final.Common.{ℕ, ◌≡◌, false, some, arith}
use pstu_hack_final.Common.Int.{pos, ◌≤ℤ◌}
use pstu_hack_final.Db.Actions.{err, ◌>>=◌}
use pstu_hack_final.Ledger.{post_double_entry, Posting, pending_transaction}

-- Posting stops at the balance before it reaches the unique index.
pub post_short :
    (env : Env) (id : ℕ) (p : Posting) (c : Conn)
    → pos 1 ≤ℤ p.amount
    → p.allow_overdraft ≡ false
    → ¬ (p.amount ≤ℤ p.debit_wallet.balance)
    → post_double_entry env id p c
      ≡ (err (Exn.domain (DomainError.insufficient_funds (some p.debit_wallet.balance))), c)
unfolding post_double_entry ◌>>=◌
post_short env id p c h a s = ground arith

-- Posting stops at the index.
pub post_taken :
    (env : Env) (id : ℕ) (p : Posting) (c : Conn)
    → pos 1 ≤ℤ p.amount
    → p.amount ≤ℤ p.debit_wallet.balance
    → transaction_violation (pending_transaction env id p) c.work
      ≡ some (Exn.integrity Constraint.uq_idem)
    → post_double_entry env id p c ≡ (err (Exn.integrity Constraint.uq_idem), c)
unfolding post_double_entry insert_transaction ◌>>=◌
post_taken env id p c h s v = ground arith
