-- ===== src/Db/Statements.antt =====
-- The statements that the services send: each checks the constraints, then writes.
use pstu_hack_final.Common.{ℕ, ◌+◌, ◌==◌, Bool, true, none, some, List, ◌∷◌, map, if◌then◌else◌}
use pstu_hack_final.Common.Int.{ℤ}
use pstu_hack_final.Models.{
  User, Session, Wallet, Transaction, TxnStatus, LedgerEntry, MoneyRequest, AuditLog,
}
use pstu_hack_final.Db.Actions.{Action, ⊤, execute}
use pstu_hack_final.Db.Checks.{
  user_violation, session_violation, wallet_violation, balance_violation, transaction_violation,
  entry_violation, request_violation, audit_violation,
}

unfoldable pub insert_user : User → Action ⊤
insert_user u = execute (user_violation u) (λ d. record d { users = u ∷ d.users })

unfoldable pub insert_session : Session → Action ⊤
insert_session s = execute (session_violation s) (λ d. record d { sessions = s ∷ d.sessions })

unfoldable pub insert_wallet : Wallet → Action ⊤
insert_wallet w = execute (wallet_violation w) (λ d. record d { wallets = w ∷ d.wallets })

unfoldable pub insert_transaction : Transaction → Action ⊤
insert_transaction t =
    execute (transaction_violation t) (λ d. record d { transactions = t ∷ d.transactions })

unfoldable pub insert_request : MoneyRequest → Action ⊤
insert_request r =
    execute (request_violation r) (λ d. record d { money_requests = r ∷ d.money_requests })

-- `UPDATE wallets SET balance = …, updated_at = now() WHERE id = …`
abbrev pub set_balance : ℕ → ℤ → ℕ → List Wallet → List Wallet
set_balance i b now = map (λ w. if w.id == i then record w { balance = b; updated_at = now } else w)

unfoldable pub update_balance : ℕ → ℤ → ℕ → Action ⊤
update_balance i b now =
    execute (balance_violation i b) (λ d. record d { wallets = set_balance i b now d.wallets })

-- `UPDATE transactions SET status = 'COMPLETED', completed_at = now() WHERE id = …`
abbrev pub set_completed : ℕ → ℕ → List Transaction → List Transaction
set_completed i now = map (λ t.
    if t.id == i then record t { status = TxnStatus.completed; completed_at = some now } else t)

unfoldable pub complete_transaction : ℕ → ℕ → Action ⊤
complete_transaction i now =
    execute (λ d. none) (λ d. record d { transactions = set_completed i now d.transactions })

-- The entry's id is the next value of its sequence.
unfoldable pub insert_entry : LedgerEntry → Action ⊤
insert_entry e c =
    let e' = record e { id = c.entry_seq } in
    execute (entry_violation e') (λ d. record d { ledger_entries = e' ∷ d.ledger_entries })
      (record c { entry_seq = c.entry_seq + 1 })

unfoldable pub insert_audit : AuditLog → Action ⊤
insert_audit a c =
    let a' = record a { id = c.audit_seq } in
    execute (audit_violation a') (λ d. record d { audit_log = a' ∷ d.audit_log })
      (record c { audit_seq = c.audit_seq + 1 })

-- `UPDATE … WHERE id = …` of the tables whose updates no constraint can refuse.
abbrev pub change_user : ℕ → (User → User) → List User → List User
change_user i f = map (λ u. if u.id == i then f u else u)

abbrev pub change_request :
    ℕ → (MoneyRequest → MoneyRequest) → List MoneyRequest → List MoneyRequest
change_request i f = map (λ r. if r.id == i then f r else r)

unfoldable pub update_user : ℕ → (User → User) → Action ⊤
update_user i f = execute (λ d. none) (λ d. record d { users = change_user i f d.users })

unfoldable pub update_request : ℕ → (MoneyRequest → MoneyRequest) → Action ⊤
update_request i f =
    execute (λ d. none) (λ d. record d { money_requests = change_request i f d.money_requests })

-- `UPDATE sessions SET is_blocked = TRUE WHERE …`
abbrev pub block_where : (Session → Bool) → List Session → List Session
block_where p = map (λ s. if p s then record s { is_blocked = true } else s)

unfoldable pub block_sessions : (Session → Bool) → Action ⊤
block_sessions p = execute (λ d. none) (λ d. record d { sessions = block_where p d.sessions })
