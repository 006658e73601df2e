-- ===== src/Tests/RequestTests.antt =====
-- The request service on the sample: Bob asks Alice for 50.00.
use pstu_hack_final.Common.{◌≡◌, refl, none, some, List, [], ◌∷◌}
use pstu_hack_final.Common.Int.{ℤ, pos, ◌+ℤ◌, ◌-ℤ◌, neg}
use pstu_hack_final.Common.Text.{codes, text_eq}
use pstu_hack_final.Db.Actions.{ok, err, savepoint, serve, ◌>>=◌}
use pstu_hack_final.Errors.{DomainError, Exn}
use pstu_hack_final.Db.Checks.{
  entry_violation, balance_violation, transaction_violation, audit_violation,
}
use pstu_hack_final.Ledger.{post_double_entry, select_wallets, insert_id, sorted_set, lock_wallets}
use pstu_hack_final.Env.{audit}
use pstu_hack_final.Common.Uuid.{uuid_text}
use pstu_hack_final.Db.Statements.{
  complete_transaction, insert_entry, update_balance, insert_transaction, insert_audit,
  update_request,
}
use pstu_hack_final.Security.{make_reference, verify_secret}
use pstu_hack_final.Requests.Consistency.{approve-Consistent}
use pstu_hack_final.Transfer.{
  assert_same_request, find_replay, audit_transfer, move_money, settle, execute_new, replay_or_new,
  execute_transfer, posting_of,
}
use pstu_hack_final.Ledger.Effects.{completed_transaction}
use pstu_hack_final.Tests.Samples.{
  sample-Consistent, bob_wallet, calm-Respects, alice_wallet, alice, caller, calm, sample, bob,
  conn_of, plain,
}
use pstu_hack_final.Requests.Approval.{approve_pays, Approved}
use pstu_hack_final.Requests.Trail.{refused_approval_leaves_no_trail}
use pstu_hack_final.Db.Tables.{Conn}
use pstu_hack_final.Models.{AuditAction, AuditLog, Transaction, MoneyRequest, RequestStatus}
use pstu_hack_final.Ledger.Consistency.{Consistent}
use pstu_hack_final.Requests.Decided.{decided_stays}
use pstu_hack_final.Requests.Rows.{Holds}
use pstu_hack_final.Requests.{
  create_request, record_approval, cancel, decline, settle_request, effective_status,
  settlement_order, refuse_status, assert_actionable, lock_request, approved, approve, NewRequest,
}

abbrev asked : RequestStatus → ℤ → MoneyRequest
asked s a = record {
  id = 40;
  requester_id = 20;
  payer_id = 10;
  amount = a;
  note = none;
  status = s;
  transaction_id = none;
  expires_at = 1000;
  created_at = 50;
  responded_at = none;
}

abbrev asking : RequestStatus → ℤ → Conn
asking s a = conn_of (record sample { money_requests = asked s a ∷ [] })

abbrev open_conn : Conn
open_conn = asking RequestStatus.pending (pos 5000)

abbrev settlement : Transaction
settlement = completed_transaction calm 50 (
    posting_of (settlement_order alice bob (asked RequestStatus.pending (pos 5000))) alice_wallet
      bob_wallet)

abbrev answered_row : MoneyRequest
answered_row = approved calm settlement (asked RequestStatus.pending (pos 5000))

abbrev after_approval : Conn
after_approval = (approve plain calm caller alice 40 (codes "pin-a") open_conn).1

approves :
    approve plain calm caller alice 40 (codes "pin-a") open_conn
    ≡ (ok (answered_row, settlement), after_approval)
unfolding approve lock_request assert_actionable refuse_status effective_status settle_request
    record_approval update_request verify_secret uuid_text execute_transfer replay_or_new
    execute_new settle move_money audit_transfer audit insert_audit savepoint find_replay
    assert_same_request lock_wallets sorted_set insert_id select_wallets post_double_entry
    insert_transaction update_balance insert_entry complete_transaction audit_violation
    transaction_violation balance_violation entry_violation text_eq ◌+ℤ◌ ◌-ℤ◌ neg make_reference
    ◌>>=◌
approves = λ i. (ok (answered_row, settlement), after_approval)

approve_pays_example :
    Approved plain calm caller alice 40
      (codes "pin-a")
      open_conn
      answered_row
      settlement
      after_approval
approve_pays_example =
    approve_pays plain calm caller alice 40 (codes "pin-a") open_conn after_approval answered_row
      settlement approves

approve-Consistent_example :
    Consistent (serve (approve plain calm caller alice 40 (codes "pin-a")) open_conn).1.committed
approve-Consistent_example =
    approve-Consistent plain calm caller alice 40 (codes "pin-a") open_conn calm-Respects
      sample-Consistent

-- Alice has 800.00, and is asked for 900.00.
abbrev dear_conn : Conn
dear_conn = asking RequestStatus.pending (pos 90000)

abbrev after_refusal : Conn
after_refusal = (approve plain calm caller alice 40 (codes "pin-a") dear_conn).1

lacks_funds :
    approve plain calm caller alice 40 (codes "pin-a") dear_conn
    ≡ (err (Exn.domain (DomainError.insufficient_funds (some (pos 80000)))), after_refusal)
unfolding approve lock_request assert_actionable refuse_status effective_status settle_request
    verify_secret execute_transfer replay_or_new execute_new settle move_money audit uuid_text
    insert_audit savepoint find_replay lock_wallets sorted_set insert_id text_eq select_wallets
    post_double_entry audit_violation ◌>>=◌
lacks_funds =
    λ i. (err (Exn.domain (DomainError.insufficient_funds (some (pos 80000)))), after_refusal)

refused_approval_leaves_no_trail_example :
    (after_refusal.committed ≡ dear_conn.committed)
    × ((b : ℤ)
        → some (pos 80000) ≡ some b
        → (r : AuditLog) × (rest : List AuditLog) × (after_refusal.work.audit_log ≡ r ∷ rest)
          × (r.action ≡ AuditAction.transfer_rejected)
          × (r.actor_user_id ≡ some alice.id))
refused_approval_leaves_no_trail_example =
    refused_approval_leaves_no_trail plain calm caller alice 40 (codes "pin-a") dear_conn
      after_refusal (some (pos 80000)) lacks_funds

-- A declined request.
abbrev pub declined_conn : Conn
declined_conn = asking RequestStatus.declined (pos 5000)

abbrev pub declined_row : MoneyRequest
declined_row = asked RequestStatus.declined (pos 5000)

abbrev another : NewRequest
another = record {
  requester = bob;
  payer_phone = codes "01711111111";
  amount = pos 100;
  note = none;
}

decided_stays_test :
    Holds declined_row
      (serve
        (approve plain calm caller alice 40 (codes "pin-a"))
        declined_conn).1.committed.money_requests
    × Holds declined_row
        (serve (decline calm caller alice 40) declined_conn).1.committed.money_requests
    × Holds declined_row
        (serve (cancel calm caller alice 40) declined_conn).1.committed.money_requests
    × Holds declined_row
        (serve (create_request calm caller another) declined_conn).1.committed.money_requests
decided_stays_test =
    decided_stays declined_row plain calm caller alice 40 (codes "pin-a") another declined_conn refl
      (record { row = λ d v. v; wallets = λ d v. v })
      (record { there = refl; only = (λ e. refl, tt) })
