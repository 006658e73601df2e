-- ===== src/System/Additive.antt =====
-- What the ledger, the transfers and the registrations of app/services keep, whatever rows they add and
-- whatever they change but entries and audit rows.
use pstu_hack_final.Common.{ℕ, ◌+◌, inl, inr, Bool, true, false, Option, List, ◌∷◌, Option-cases}
use pstu_hack_final.Common.Int.{ℤ}
use pstu_hack_final.Db.Actions.{throw_if}
use pstu_hack_final.Env.Rules.{Keeps-audit}
use pstu_hack_final.Db.Checks.{entry_violation}
use pstu_hack_final.Db.Rules.{Keeps-pure, Keeps-throw, Keeps-execute, keeps_rules, Keeps}
use pstu_hack_final.Transfer.{Order, audit_transfer, move_money}
use pstu_hack_final.Env.{audit, Caller, Env}
use pstu_hack_final.Auth.{pay_grant}
use pstu_hack_final.Errors.{Exn}
use pstu_hack_final.Models.{
  Meta, AuditLog, Entity, AuditAction, Transaction, LedgerEntry, Session, MoneyRequest, Wallet,
  User,
}
use pstu_hack_final.Ledger.{row_of, Posting, post_double_entry, lock_wallets}
use pstu_hack_final.Db.Statements.{
  insert_transaction, complete_transaction, update_balance, insert_request, insert_entry,
  insert_user, insert_wallet, update_request,
}
use pstu_hack_final.Db.Tables.{find_wallet, Tables}

-- The property asks nothing of the tables that the services update, and admits a new entry and a new
-- row of the audit log.
pub record Additive (Q : Tables → Type 0) : Type 0 where
  pub rows :
      (d : Tables) (u : List User) (s : List Session) (w : List Wallet) (t : List Transaction)
      (r : List MoneyRequest)
      → Q d
      → Q (record d { users = u; sessions = s; wallets = w; transactions = t; money_requests = r })
  pub entry :
      (d : Tables) (e : LedgerEntry) → Q d → Q (record d { ledger_entries = e ∷ d.ledger_entries })
  pub log : (d : Tables) (a : AuditLog) → Q d → Q (record d { audit_log = a ∷ d.audit_log })

pub Keeps-throw_if : {Q : Tables → Type 0} (b : Bool) (e : Exn) → Keeps Q (throw_if b e)
unfolding throw_if
Keeps-throw_if true e = record { at = λ c h. h }
Keeps-throw_if false e = record { at = λ c h. h }

pub Keeps-row_of : {Q : Tables → Type 0} (i : ℕ) (ws : List Wallet) → Keeps Q (row_of i ws)
Keeps-row_of i ws = elim (Option-cases (find_wallet i ws)) [
  | inl e ↦ rw (e, row_of) (Keeps-throw _)
  | inr (w, e) ↦ rw (e, row_of) (Keeps-pure w)
]

module _ {Q : Tables → Type 0} (free : Additive Q) where
  pub insert_user-Keeps : (u : User) → Keeps Q (insert_user u)
  unfolding insert_user
  insert_user-Keeps u = Keeps-execute _ _ (λ d v. free.rows _ _ _ _ _ _ v)

  pub insert_wallet-Keeps : (w : Wallet) → Keeps Q (insert_wallet w)
  unfolding insert_wallet
  insert_wallet-Keeps w = Keeps-execute _ _ (λ d v. free.rows _ _ _ _ _ _ v)

  insert_transaction-Keeps : (t : Transaction) → Keeps Q (insert_transaction t)
  unfolding insert_transaction
  insert_transaction-Keeps t = Keeps-execute _ _ (λ d v. free.rows _ _ _ _ _ _ v)

  update_balance-Keeps : (i : ℕ) (b : ℤ) (now : ℕ) → Keeps Q (update_balance i b now)
  unfolding update_balance
  update_balance-Keeps i b now = Keeps-execute _ _ (λ d v. free.rows _ _ _ _ _ _ v)

  complete_transaction-Keeps : (i now : ℕ) → Keeps Q (complete_transaction i now)
  unfolding complete_transaction
  complete_transaction-Keeps i now = record { at = λ c v. (v.0, free.rows _ _ _ _ _ _ v.1) }

  insert_entry-Keeps : (e : LedgerEntry) → Keeps Q (insert_entry e)
  unfolding insert_entry
  insert_entry-Keeps e = record {
    at = λ c h.
        let e' = record e { id = c.entry_seq } in
        (Keeps-execute (entry_violation e')
            (λ d. record d { ledger_entries = e' ∷ d.ledger_entries }) (λ d q. free.entry d _ q)).at
          (record c { entry_seq = c.entry_seq + 1 }) h;
  }

  pub insert_request-Keeps : (r : MoneyRequest) → Keeps Q (insert_request r)
  unfolding insert_request
  insert_request-Keeps r = Keeps-execute _ _ (λ d v. free.rows _ _ _ _ _ _ v)

  pub update_request-Keeps :
      (i : ℕ) (f : MoneyRequest → MoneyRequest) → Keeps Q (update_request i f)
  unfolding update_request
  update_request-Keeps i f = record { at = λ c v. (v.0, free.rows _ _ _ _ _ _ v.1) }

  pub audit-Keeps :
      (env : Env) (action : AuditAction) (actor : Option ℕ) (entity : Option Entity)
      (caller : Caller) (meta : Meta)
      → Keeps Q (audit env action actor entity caller meta)
  audit-Keeps env action actor entity caller meta =
      Keeps-audit env _ _ _ caller _ (λ d a v. free.log _ _ v)

  lock_wallets-Keeps : (ids : List ℕ) → Keeps Q (lock_wallets ids)
  unfolding lock_wallets
  lock_wallets-Keeps ids = search keeps_rules depth 10

  post_double_entry-Keeps :
      (env : Env) (id : ℕ) (p : Posting) → Keeps Q (post_double_entry env id p)
  unfolding post_double_entry
  post_double_entry-Keeps env id p =
      search
        (
          keeps_rules, Keeps-throw_if, insert_transaction-Keeps, update_balance-Keeps,
          insert_entry-Keeps, complete_transaction-Keeps,
        )
        depth 24

  pub pay_grant-Keeps : (env : Env) → Keeps Q (pay_grant env)
  unfolding pay_grant
  pay_grant-Keeps env =
      search (keeps_rules, Keeps-row_of, lock_wallets-Keeps, post_double_entry-Keeps) depth 12

  pub move_money-Keeps :
      (env : Env) (caller : Caller) (o : Order) (src dst : ℕ)
      → Keeps Q (move_money env caller o src dst)
  unfolding move_money audit_transfer
  move_money-Keeps env caller o src dst =
      search (keeps_rules, Keeps-row_of, lock_wallets-Keeps, post_double_entry-Keeps, audit-Keeps)
        depth 16
