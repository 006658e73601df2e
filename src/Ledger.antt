-- ===== src/Ledger.antt =====
-- app/services/ledger_service.py: the row locks and the double-entry posting.
pub mod Sums
pub mod Locks
pub mod Effects
pub mod Consistency
pub mod Reconcile
pub mod Atomic
pub mod Refusals
pub mod Waiting
pub mod Progress
use pstu_hack_final.Common.{
  ℕ, Bool, ◌&&◌, not, Option, none, some, List, [], ◌∷◌, map, ltb, ◌==◌, if◌then◌else◌, any,
}
use pstu_hack_final.Common.Int.{ℤ, pos, ◌+ℤ◌, ◌-ℤ◌, neg, ltb_ℤ, leb_ℤ}
use pstu_hack_final.Common.Text.{Text}
use pstu_hack_final.Db.Actions.{
  ◌>>=◌, ◌>>◌, Action, pure, throw, raise_if, throw_if, query, acquire,
}
use pstu_hack_final.Models.{Wallet, Transaction, TxnType, TxnStatus, LedgerEntry}
use pstu_hack_final.Errors.{Exn, DomainError}
use pstu_hack_final.Db.Tables.{Lock, find_wallet, has_wallet}
use pstu_hack_final.Db.Statements.{
  insert_transaction, update_balance, insert_entry, complete_transaction,
}
use pstu_hack_final.Env.{Env}
use pstu_hack_final.Security.{make_reference}

-- `sorted(set(ids))`: insertion into an ascending list without repetition.
unfoldable pub insert_id : ℕ → List ℕ → List ℕ
insert_id i [] = i ∷ []
insert_id i (j ∷ js) = if ltb i j then i ∷ j ∷ js else if i == j then j ∷ js else j ∷ insert_id i js

unfoldable pub sorted_set : List ℕ → List ℕ
unfolding insert_id
sorted_set [] = []
sorted_set (i ∷ is) = insert_id i (sorted_set is)

-- `SELECT … WHERE id IN (…) ORDER BY id`, for ascending ids.
unfoldable pub select_wallets : List ℕ → List Wallet → List Wallet
select_wallets [] ws = []
select_wallets (i ∷ is) ws =
    let rest = select_wallets is ws in elim (find_wallet i ws) [ some w ↦ w ∷ rest | none ↦ rest ]

-- The locks are taken in the order of the rows. The wait for them is a step of the caller,
-- `wait env.while_wallets`, which stands before the caller's savepoint: between the SAVEPOINT and
-- this SELECT nothing happens.
unfoldable pub lock_wallets : List ℕ → Action (List Wallet)
lock_wallets ids = do
  let unique = sorted_set ids
  rows ← query (λ d. select_wallets unique d.wallets)
  acquire (map (λ (w : Wallet). Lock.wallet w.id) rows)
  raise_if (any (λ i. not (has_wallet i rows)) unique) DomainError.wallet_missing
  pure rows

-- `wallets[id]` of the dictionary that `lock_wallets` returns.
abbrev pub row_of : ℕ → List Wallet → Action Wallet
row_of i rows = elim (find_wallet i rows) [ some w ↦ pure w | none ↦ throw Exn.key_error ]

-- The keyword arguments of `post_double_entry`.
pub record Posting : Type 0 where
  pub txn_type : TxnType
  pub amount : ℤ
  pub debit_wallet : Wallet
  pub credit_wallet : Wallet
  pub initiated_by : Option ℕ
  pub note : Option Text
  pub idempotency_key : Option Text
  pub allow_overdraft : Bool

-- The row that `post_double_entry` adds.
abbrev pub pending_transaction : Env → ℕ → Posting → Transaction
pending_transaction env id p = record {
  id = id;
  reference = make_reference env.draws;
  txn_type = p.txn_type;
  status = TxnStatus.pending;
  amount = p.amount;
  sender_wallet_id = some p.debit_wallet.id;
  receiver_wallet_id = some p.credit_wallet.id;
  note = p.note;
  idempotency_key = p.idempotency_key;
  initiated_by = p.initiated_by;
  failure_reason = none;
  created_at = env.now;
  completed_at = none;
}

abbrev pub entry : Env → ℕ → ℕ → ℤ → ℤ → LedgerEntry
entry env txn wallet amount after = record {
  id = 0;
  transaction_id = txn;
  wallet_id = wallet;
  amount = amount;
  balance_after = after;
  created_at = env.now;
}

unfoldable pub post_double_entry : Env → ℕ → Posting → Action Transaction
post_double_entry env id p = do
  throw_if (leb_ℤ p.amount (pos 0)) Exn.value_error
  raise_if (not p.allow_overdraft && ltb_ℤ p.debit_wallet.balance p.amount)
      (DomainError.insufficient_funds (some p.debit_wallet.balance))
  let txn = pending_transaction env id p
  insert_transaction txn
  let debited = p.debit_wallet.balance -ℤ p.amount
  let credited = p.credit_wallet.balance +ℤ p.amount
  update_balance p.debit_wallet.id debited env.now
  update_balance p.credit_wallet.id credited env.now
  insert_entry (entry env id p.debit_wallet.id (neg p.amount) debited)
  insert_entry (entry env id p.credit_wallet.id p.amount credited)
  complete_transaction id env.now
  pure (record txn { status = TxnStatus.completed; completed_at = some env.now })
