-- ===== src/Tests/LedgerTests.antt =====
-- The ledger's theorems at concrete inputs.
use pstu_hack_final.Common.{
  ℕ, ◌≡◌, refl, ◌↔◌, ◌⊎◌, true, false, none, some, List, [], ◌∷◌, ◌++◌, map, All,
}
use pstu_hack_final.Common.Int.{pos, ◌+ℤ◌, ◌-ℤ◌, neg, ◌≤ℤ◌}
use pstu_hack_final.Common.Text.{codes, text_eq}
use pstu_hack_final.Db.Actions.{ok, ◌>>=◌}
use pstu_hack_final.Ledger.Sums.{txn_sum, sum_amounts}
use pstu_hack_final.Ledger.Locks.{lock_order, wallet_locks, elem, IsAscending}
use pstu_hack_final.Ledger.Reconcile.{
  reconcile_iff, FourInvariants, insolvent_wallets, unbalanced_transactions, ledger_sum,
  drifted_wallets, reconcile,
}
use pstu_hack_final.Security.{make_reference}
use pstu_hack_final.Db.Checks.{entry_violation, balance_violation, transaction_violation}
use pstu_hack_final.Models.{Wallet, TxnType}
use pstu_hack_final.Ledger.Effects.{
  post_double_entry-Moves, entries, Moves, completed_transaction, posted_conn,
}
use pstu_hack_final.Db.Statements.{
  complete_transaction, insert_entry, update_balance, insert_transaction,
}
use pstu_hack_final.Db.Tables.{find_wallet, Lock, Conn}
use pstu_hack_final.Ledger.{
  select_wallets, insert_id, sorted_set, lock_wallets, post_double_entry, Posting,
}
use pstu_hack_final.Ledger.Consistency.{
  IsSolvent, NoDrift, post_double_entry-Consistent, Consistent,
}
use pstu_hack_final.Tests.Samples.{sample, sample-Consistent, bob_wallet, alice_wallet, conn, calm}

abbrev posting : Posting
posting = record {
  txn_type = TxnType.transfer;
  amount = pos 5000;
  debit_wallet = alice_wallet;
  credit_wallet = bob_wallet;
  initiated_by = some 10;
  note = none;
  idempotency_key = some (codes "k2");
  allow_overdraft = false;
}

abbrev posted_sample : Conn
posted_sample = posted_conn calm 50 posting conn

posts :
    post_double_entry calm 50 posting conn
    ≡ (ok (completed_transaction calm 50 posting), posted_sample)
unfolding post_double_entry insert_transaction update_balance insert_entry complete_transaction
    transaction_violation balance_violation entry_violation text_eq ◌+ℤ◌ ◌-ℤ◌ neg make_reference
    ◌>>=◌
posts = refl

post_double_entry-Consistent_example : Consistent posted_sample.work
post_double_entry-Consistent_example =
    post_double_entry-Consistent calm 50 posting conn posted_sample
      (completed_transaction calm 50 posting) sample-Consistent refl refl posts

post_double_entry-Moves_example :
    (pos 1 ≤ℤ pos 5000)
    × ((false ≡ true) ⊎ (pos 5000 ≤ℤ pos 80000))
    × Moves calm 50 posting sample posted_sample.work
    × (posted_sample.work.ledger_entries ≡ entries calm 50 posting 7 sample.ledger_entries)
post_double_entry-Moves_example =
    post_double_entry-Moves calm 50 posting conn posted_sample
      (completed_transaction calm 50 posting) posts

-- The larger id first: the locks are taken the other way round.
locked : lock_wallets (21 ∷ 11 ∷ 21 ∷ []) conn ≡ (
  ok (alice_wallet ∷ bob_wallet ∷ []),
  record conn { locks = Lock.wallet 11 ∷ Lock.wallet 21 ∷ [] },
)
unfolding lock_wallets sorted_set insert_id select_wallets ◌>>=◌
locked = refl

lock_order_example :
    (us : List ℕ) × IsAscending us
    × ((k : ℕ) → elem k us ≡ elem k (21 ∷ 11 ∷ 21 ∷ []))
    × (Lock.wallet 11 ∷ Lock.wallet 21 ∷ [] ≡ [] ++ wallet_locks us)
    × (map (λ (w : Wallet). w.id) (alice_wallet ∷ bob_wallet ∷ []) ≡ us)
    × ((k : ℕ)
        → elem k (21 ∷ 11 ∷ 21 ∷ []) ≡ true
        → (w : Wallet) × (find_wallet k (alice_wallet ∷ bob_wallet ∷ []) ≡ some w)
          × (find_wallet k sample.wallets ≡ some w))
lock_order_example =
    lock_order (21 ∷ 11 ∷ 21 ∷ []) conn
      (record conn { locks = Lock.wallet 11 ∷ Lock.wallet 21 ∷ [] })
      (alice_wallet ∷ bob_wallet ∷ []) locked

reconciles : (reconcile sample).all_hold ≡ true
unfolding reconcile ledger_sum unbalanced_transactions drifted_wallets insolvent_wallets ◌+ℤ◌
reconciles = refl

-- A wallet that was credited without an entry is reported.
drift_is_reported :
    drifted_wallets
      (record sample { wallets = record bob_wallet { balance = pos 1 } ∷ alice_wallet ∷ [] })
    ≡ 21 ∷ []
unfolding drifted_wallets ◌+ℤ◌
drift_is_reported = refl

reconcile_iff_example :
    let r = reconcile sample in
    ((r.conservation ≡ true) ↔ (sum_amounts sample.ledger_entries ≡ pos 0))
    × ((r.balanced_events ≡ true) ↔ ((t : ℕ) → txn_sum t sample.ledger_entries ≡ pos 0))
    × ((r.no_drift ≡ true) ↔ All (NoDrift sample.ledger_entries) sample.wallets)
    × ((r.solvency ≡ true) ↔ All IsSolvent sample.wallets)
    × ((r.all_hold ≡ true) ↔ FourInvariants sample)
reconcile_iff_example = reconcile_iff sample
