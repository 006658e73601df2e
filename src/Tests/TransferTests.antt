-- ===== src/Tests/TransferTests.antt =====
-- The transfer path's theorems at concrete inputs.
use pstu_hack_final.Common.{◌≡◌, refl, true, false, none, some, [], ◌∷◌, arith}
use pstu_hack_final.Common.Int.{ℤ, pos, ◌+ℤ◌, ◌-ℤ◌, neg}
use pstu_hack_final.Common.Text.{codes, text_eq}
use pstu_hack_final.Db.Actions.{ok, err, savepoint, serve, ◌>>=◌}
use pstu_hack_final.Transfer.Race.{race_returns_winner, Lost, race_refuses_winner}
use pstu_hack_final.Transfer.Payment.{waited}
use pstu_hack_final.Db.Checks.{
  entry_violation, balance_violation, transaction_violation, audit_violation,
}
use pstu_hack_final.Ledger.{post_double_entry, select_wallets, insert_id, sorted_set, lock_wallets}
use pstu_hack_final.Db.Statements.{
  complete_transaction, insert_entry, update_balance, insert_transaction, insert_audit,
}
use pstu_hack_final.Env.{Env, audit}
use pstu_hack_final.Transfer.Consistency.{send_money-Consistent}
use pstu_hack_final.Transfer.Retry.{replay_decides}
use pstu_hack_final.Transfer.Pin.{wrong_pin_moves_nothing}
use pstu_hack_final.Errors.{DomainError, Exn}
use pstu_hack_final.Ledger.Effects.{completed_transaction}
use pstu_hack_final.Transfer.Effect.{transfer_moves, Transferred}
use pstu_hack_final.Transfer.Refusal.{refusal_moves_nothing, SameMoney, IsQuiet}
use pstu_hack_final.Security.{make_reference, verify_secret}
use pstu_hack_final.Transfer.Replay.{retry_returns_first, KeepsOwners}
use pstu_hack_final.Db.Tables.{Tables, Conn}
use pstu_hack_final.Db.Rules.{Both}
use pstu_hack_final.Ledger.Consistency.{Consistent}
use pstu_hack_final.Transfer.{
  assert_same_request, audit_transfer, move_money, settle, posting_of, execute_new, send_money,
  replay_or_new, Order, execute_transfer, find_replay, SendMoney,
}
use pstu_hack_final.Models.{TxnType, Transaction}
use pstu_hack_final.Tests.Samples.{
  mint, transaction_row, sample-Consistent, calm-Respects, bob_wallet, first_transfer, alice_wallet,
  plain, bob, caller, alice, sample, conn, calm,
}

abbrev pub order : Order
order = record {
  sender = alice;
  recipient = bob;
  amount = pos 5000;
  idempotency_key = some (codes "k2");
  note = some (codes "lunch");
  txn_type = TxnType.transfer;
}

abbrev payment : Transaction
payment = completed_transaction calm 50 (posting_of order alice_wallet bob_wallet)

abbrev after_payment : Conn
after_payment = (execute_transfer calm caller order true conn).1

pays : execute_transfer calm caller order true conn ≡ (ok (payment, false), after_payment)
unfolding execute_transfer replay_or_new execute_new settle move_money audit_transfer audit
    insert_audit savepoint find_replay assert_same_request lock_wallets sorted_set insert_id
    select_wallets post_double_entry insert_transaction update_balance insert_entry
    complete_transaction audit_violation transaction_violation balance_violation entry_violation
    text_eq ◌+ℤ◌ ◌-ℤ◌ neg make_reference ◌>>=◌
pays = λ i. (ok (payment, false), after_payment)

transfer_moves_example : Transferred calm order true conn payment after_payment
transfer_moves_example = transfer_moves calm caller order true conn after_payment payment pays

pub calm-KeepsOwners : KeepsOwners calm
calm-KeepsOwners = record { owners = λ d u i e. e }

pub calm-IsQuiet : IsQuiet calm
calm-IsQuiet = record {
  row = λ d. record { wallets = refl; transactions = refl; entries = refl };
  wallets = λ d. record { wallets = refl; transactions = refl; entries = refl };
}

retry_returns_first_example :
    execute_transfer calm caller order false after_payment ≡ (ok (payment, true), after_payment)
retry_returns_first_example =
    retry_returns_first calm calm caller caller order true false conn after_payment payment false
      b'k' (codes "2") calm-KeepsOwners refl pays

-- The key "k1" belongs to a transfer of 200.00.
replay_decides_test :
    execute_transfer calm caller (record order { idempotency_key = some (codes "k1") }) true conn
    ≡ (err (Exn.domain (DomainError.idempotency_key_conflict (codes "TXN00000033"))), conn)
unfolding find_replay text_eq
replay_decides_test =
    replay_decides calm caller (record order { idempotency_key = some (codes "k1") }) true conn 11
      21 first_transfer refl refl (omega arith) refl

abbrev sending : SendMoney
sending = record {
  sender = alice;
  recipient_phone = codes "01722222222";
  amount = pos 5000;
  pin = codes "0000";
  idempotency_key = some (codes "k3");
  note = none;
}

send_money-Consistent_example :
    Consistent (serve (send_money plain calm caller sending) conn).1.committed
send_money-Consistent_example =
    send_money-Consistent plain calm caller sending conn calm-Respects sample-Consistent

SameMoney-refl : (d : Tables) → SameMoney d d
SameMoney-refl d = record { wallets = refl; transactions = refl; entries = refl }

wrong_pin_moves_nothing_example :
    ((x : Exn) × ((send_money plain calm caller sending conn).0 ≡ err x))
    × Both (SameMoney sample) (send_money plain calm caller sending conn).1
unfolding verify_secret text_eq
wrong_pin_moves_nothing_example =
    wrong_pin_moves_nothing sample plain calm caller sending conn refl
      (SameMoney-refl sample, SameMoney-refl sample)

abbrev too_much : Order
too_much = record order { amount = pos 90000 }

abbrev after_refusal : Conn
after_refusal = (execute_transfer calm caller too_much true conn).1

refuses :
    execute_transfer calm caller too_much true conn
    ≡ (err (Exn.domain (DomainError.insufficient_funds (some (pos 80000)))), after_refusal)
unfolding execute_transfer replay_or_new execute_new settle move_money audit_transfer audit
    insert_audit savepoint find_replay lock_wallets sorted_set insert_id select_wallets
    post_double_entry audit_violation text_eq ◌>>=◌
refuses = λ i. (err (Exn.domain (DomainError.insufficient_funds (some (pos 80000)))), after_refusal)

refusal_moves_nothing_example : Both (SameMoney sample) after_refusal
refusal_moves_nothing_example =
    refusal_moves_nothing sample calm caller too_much true conn after_refusal
      (Exn.domain (DomainError.insufficient_funds (some (pos 80000)))) calm-IsQuiet
      (SameMoney-refl sample, SameMoney-refl sample) refuses

-- Alice's transfer "k9" of 500.00 commits while a second call with that key waits for her wallet.
abbrev order9 : Order
order9 = record order { amount = pos 50000; idempotency_key = some (codes "k9") }

abbrev transfer9 : Transaction
transfer9 =
    transaction_row 39 (codes "TXN00000039") TxnType.transfer (pos 50000) 11 21 (some (codes "k9"))
      10

-- What the winner leaves, but for its two entries.
abbrev won : ℤ → Tables → Tables
won left d = record d {
  transactions = transfer9 ∷ d.transactions;
  wallets = bob_wallet ∷ record alice_wallet { balance = left } ∷ mint ∷ [];
}

abbrev racing : ℤ → Env
racing left = record calm { while_wallets = won left }

abbrev lost_race : (left : ℤ) → Lost (racing left) order9 conn transfer9
unfolding find_replay text_eq
lost_race left = record {
  src = alice_wallet;
  dst = bob_wallet;
  sender_wallet = refl;
  recipient_wallet = refl;
  distinct = omega arith;
  not_yet = refl;
  src_now = record alice_wallet { balance = left };
  dst_now = bob_wallet;
  src_row = refl;
  dst_row = refl;
  positive = omega arith;
  won = refl;
  same = refl;
}

race_returns_winner_example :
    execute_transfer (racing (pos 60000)) caller order9 true conn
    ≡ (ok (transfer9, true), waited (racing (pos 60000)) conn)
unfolding find_replay text_eq transaction_violation make_reference
race_returns_winner_example =
    race_returns_winner (racing (pos 60000)) caller order9 true conn transfer9
      (lost_race (pos 60000)) (omega arith) refl

-- 800.00 less the winner's 500.00 does not cover the amount a second time.
race_refuses_winner_example :
    (execute_transfer (racing (pos 30000)) caller order9 true conn).0
    ≡ err (Exn.domain (DomainError.insufficient_funds (some (pos 30000))))
unfolding find_replay text_eq
race_refuses_winner_example =
    race_refuses_winner (racing (pos 30000)) caller order9 true conn transfer9
      (lost_race (pos 30000)) (omega arith) refl
