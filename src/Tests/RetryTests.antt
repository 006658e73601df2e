-- ===== src/Tests/RetryTests.antt =====
-- A POST /transfers that is sent again, at a concrete input.
use pstu_hack_final.Ledger.{sorted_set, select_wallets, post_double_entry, lock_wallets, insert_id}
use pstu_hack_final.Db.Statements.{
  update_balance, insert_transaction, insert_entry, insert_audit, complete_transaction,
}
use pstu_hack_final.Db.Checks.{
  transaction_violation, entry_violation, balance_violation, audit_violation,
}
use pstu_hack_final.Common.Uuid.{uuid_text}
use pstu_hack_final.Common.{◌≡◌, refl, true, false, none, some, [], ◌∷◌}
use pstu_hack_final.Common.Int.{negsuc, pos, ◌+ℤ◌, ◌-ℤ◌, neg}
use pstu_hack_final.Common.Text.{codes, text_eq}
use pstu_hack_final.Db.Actions.{ok, savepoint, fresh, ◌>>=◌}
use pstu_hack_final.Env.{clip_agent, audit, Env}
use pstu_hack_final.Security.{make_reference, verify_secret}
use pstu_hack_final.Transfer.{
  settle, move_money, execute_new, audit_transfer, assert_same_request, find_replay, replay_or_new,
  execute_transfer, resolve_recipient, send_money,
}
use pstu_hack_final.Tests.TransferTests.{calm-KeepsOwners}
use pstu_hack_final.Api.Retry.{create_transfer_retried}
use pstu_hack_final.Common.White.{words, is_space, strip}
use pstu_hack_final.Sessions.{get_current_principal}
use pstu_hack_final.Tests.SchemaTests.{tea}
use pstu_hack_final.Tests.ApiTests.{libs, dora_session}
use pstu_hack_final.Tests.Samples.{
  entry_row, mint, alice_wallet, bob_wallet, calm, caller, alice, bob, conn_of, sample,
}
use pstu_hack_final.Api.Transfers.{
  party_of, to_out, check_create, send_and_show, TransferOut, create_transfer,
}
use pstu_hack_final.Schemas.{
  clean_free_text, clean_note, is_pin, is_phone, read_amount, AmountInput, plain_decimal,
  money_amount, TransferRequest, check_transfer,
}
use pstu_hack_final.Api.{
  one_or_none, own_wallet_id, Response, checked_payload, decode_access_token, endpoint, party,
  bearer_token, Http, Principal, principal_of,
}
use pstu_hack_final.Db.Tables.{Tables, Conn}
use pstu_hack_final.Models.{
  MetaValue, Entity, AuditAction, AuditLog, Transaction, User, Session, TxnStatus, TxnType,
}

-- Alice with a PIN of four digits and the session 2.
abbrev amy : User
amy = record alice { pin_hash = codes "8317" }

abbrev amy_session : Session
amy_session = record dora_session { user_id = 10 }

abbrev other_session : Session
other_session = record amy_session { id = 3; family_id = 3 }

abbrev amy_tables : Tables
amy_tables = record sample { users = bob ∷ amy ∷ []; sessions = amy_session ∷ other_session ∷ [] }

-- The digit of value ten names user 10.
abbrev amy_http : Http
amy_http = record { credentials = some (58 ∷ 50 ∷ []); caller = caller; limited = false }

-- The same user at another device, later and elsewhere.
abbrev other_http : Http
other_http = record {
  credentials = some (58 ∷ 51 ∷ []);
  caller = record { ip = none; user_agent = none };
  limited = false;
}

abbrev later : Env
later = record calm { now = 130 }

abbrev other_principal : Principal
other_principal = record { user = amy; session_id = 3 }

-- The transfer that the sample records under the key k1.
abbrev first_body : TransferRequest
first_body = record tea { amount = AmountInput.text (codes "200"); note = none }

abbrev amy_conn : Conn
amy_conn = conn_of amy_tables

abbrev amy_principal : Principal
amy_principal = record { user = amy; session_id = 2 }

abbrev first_out : TransferOut
first_out = record {
  reference = codes "TXN00000033";
  status = TxnStatus.completed;
  txn_type = TxnType.transfer;
  amount = pos 20000;
  note = none;
  created_at = 5;
  completed_at = some 5;
  sender = some (party amy);
  recipient = some (party bob);
  balance_after = some (pos 80000);
  idempotent_replay = true;
}

amy_known : principal_of libs calm amy_http (fresh amy_conn) ≡ (ok amy_principal, fresh amy_conn)
unfolding principal_of bearer_token decode_access_token checked_payload text_eq
    get_current_principal ◌>>=◌
amy_known = refl

first_fields :
    check_create first_body (some (codes "k1"))
    ≡ some (
      record {
        recipient_phone = codes "01722222222";
        amount = pos 20000;
        pin = codes "8317";
        note = none;
      },
      some (codes "k1"),
    )
unfolding check_transfer money_amount plain_decimal read_amount strip is_space is_phone is_pin
    clean_note clean_free_text
first_fields = refl

first_served :
    create_transfer libs calm amy_http first_body (some (codes "k1")) amy_conn
    ≡ (Response.success 201 first_out, amy_conn)
unfolding create_transfer endpoint principal_of bearer_token decode_access_token checked_payload
    text_eq get_current_principal send_and_show send_money resolve_recipient verify_secret
    execute_transfer replay_or_new find_replay assert_same_request own_wallet_id to_out one_or_none
    party_of ◌>>=◌ check_transfer money_amount plain_decimal read_amount strip is_space is_phone
    is_pin clean_note clean_free_text
first_served = refl

abbrev paid_txn : Transaction
paid_txn = record {
  id = 50;
  reference = codes "TXN23456789";
  txn_type = TxnType.transfer;
  status = TxnStatus.completed;
  amount = pos 20000;
  sender_wallet_id = some 11;
  receiver_wallet_id = some 21;
  note = none;
  idempotency_key = some (codes "k7");
  initiated_by = some 10;
  failure_reason = none;
  created_at = 100;
  completed_at = some 100;
}

abbrev paid_audit : AuditLog
paid_audit = record {
  id = 1;
  actor_user_id = some 10;
  action = AuditAction.transfer_completed;
  entity = some (Entity.transaction 50);
  ip_address = none;
  user_agent = none;
  metadata =
      (codes "amount", MetaValue.money (pos 20000))
      ∷ (codes "reference", MetaValue.text (codes "TXN23456789"))
      ∷ (codes "to", MetaValue.text (codes "01722222222"))
      ∷ [];
  created_at = 100;
}

-- What a first request with the key k7 leaves.
abbrev paid_tables : Tables
paid_tables = record amy_tables {
  wallets =
      record bob_wallet { balance = pos 140000; updated_at = 100 }
      ∷ record alice_wallet { balance = pos 60000; updated_at = 100 }
      ∷ mint
      ∷ [];
  transactions = paid_txn ∷ sample.transactions;
  ledger_entries =
      record (entry_row 8 50 21 (pos 20000) (pos 140000)) { created_at = 100 }
      ∷ record (entry_row 7 50 11 (negsuc 19999) (pos 60000)) { created_at = 100 }
      ∷ sample.ledger_entries;
  audit_log = paid_audit ∷ [];
}

abbrev paid_conn : Conn
paid_conn = record (conn_of paid_tables) { entry_seq = 9; audit_seq = 2 }

abbrev paid_out : TransferOut
paid_out = record first_out {
  reference = codes "TXN23456789";
  created_at = 100;
  completed_at = some 100;
  balance_after = some (pos 60000);
  idempotent_replay = false;
}

pays_first :
    create_transfer libs calm amy_http first_body (some (codes "k7")) amy_conn
    ≡ (Response.success 201 paid_out, paid_conn)
unfolding create_transfer endpoint principal_of ◌>>=◌ bearer_token decode_access_token
    checked_payload text_eq get_current_principal check_transfer is_phone is_pin money_amount
    plain_decimal is_space clean_note send_and_show send_money party_of to_out one_or_none
    own_wallet_id neg ◌+ℤ◌ ◌-ℤ◌ uuid_text strip words savepoint audit_violation balance_violation
    entry_violation transaction_violation complete_transaction insert_audit insert_entry
    insert_transaction update_balance audit clip_agent insert_id lock_wallets post_double_entry
    select_wallets sorted_set clean_free_text read_amount make_reference verify_secret
    assert_same_request audit_transfer execute_new execute_transfer find_replay move_money
    replay_or_new resolve_recipient settle
pays_first = refl

known_again :
    principal_of libs later other_http (fresh paid_conn) ≡ (ok other_principal, fresh paid_conn)
unfolding principal_of bearer_token decode_access_token checked_payload text_eq
    get_current_principal ◌>>=◌
known_again = refl

-- Sent again at another device, later and elsewhere.
create_transfer_retried_example :
    create_transfer libs later other_http first_body (some (codes "k7")) paid_conn
    ≡ (Response.success 201 (record paid_out { idempotent_replay = true }), paid_conn)
create_transfer_retried_example =
    create_transfer_retried libs calm later amy_http other_http first_body 107 (codes "7")
      amy_principal other_principal amy_conn paid_conn paid_out calm-KeepsOwners amy_known
      pays_first known_again refl refl (λ phone u e. e)
