-- ===== src/Api/Transfers.antt =====
-- app/routers/transfers.py: sending money and looking up a transaction.
use pstu_hack_final.Common.{
  ℕ, Bool, false, ◌&&◌, not, Option, none, some, [], ◌∷◌, ◌++◌, ◌==◌, keep,
}
use pstu_hack_final.Common.Int.{ℤ}
use pstu_hack_final.Common.Text.{Text, codes}
use pstu_hack_final.Db.Actions.{Action, pure, query, ◌>>=◌}
use pstu_hack_final.Db.Checks.{too_long}
use pstu_hack_final.Statement.Lookup.{get_transaction_for_user}
use pstu_hack_final.Transfer.{SendMoney, send_money}
use pstu_hack_final.Common.Uuid.{uuid_text}
use pstu_hack_final.Env.{Caller, Env}
use pstu_hack_final.Db.Tables.{find_user, find_wallet, Conn, Tables}
use pstu_hack_final.Schemas.{
  check_transfer, within, TransferFields, and_then, require, TransferRequest,
}
use pstu_hack_final.Api.{
  Principal, principal_of, party, endpoint, Response, after_draws, Http, own_wallet_id, Libs, Party,
  one_or_none,
}
use pstu_hack_final.Models.{User, Transaction, TxnStatus, TxnType}

pub record TransferOut : Type 0 where
  pub reference : Text
  pub status : TxnStatus
  pub txn_type : TxnType
  pub amount : ℤ
  pub note : Option Text
  pub created_at : ℕ
  pub completed_at : Option ℕ
  pub sender : Option Party
  pub recipient : Option Party
  pub balance_after : Option ℤ
  pub idempotent_replay : Bool

-- `_party`: the owner of a wallet, none for the mint. Both columns of the join are keys.
unfoldable pub party_of : Option ℕ → Tables → Option Party
party_of wallet_id d = and_then wallet_id (λ w.
    and_then (find_wallet w d.wallets)
      (λ x. and_then x.user_id (λ u. and_then (find_user u d.users) (λ owner. some (party owner)))))

-- `_to_out`: the viewer's own entry gives the balance.
unfoldable pub to_out : Transaction → ℕ → Bool → Action TransferOut
to_out txn viewer_wallet_id replay = do
  entries ← query (λ d.
      keep (λ e. (e.transaction_id == txn.id) && (e.wallet_id == viewer_wallet_id))
        d.ledger_entries)
  entry ← one_or_none entries
  sender ← query (party_of txn.sender_wallet_id)
  recipient ← query (party_of txn.receiver_wallet_id)
  pure (record {
    reference = txn.reference;
    status = txn.status;
    txn_type = txn.txn_type;
    amount = txn.amount;
    note = txn.note;
    created_at = txn.created_at;
    completed_at = txn.completed_at;
    sender = sender;
    recipient = recipient;
    balance_after = and_then entry (λ e. some e.balance_after);
    idempotent_replay = replay;
  })

-- The body with the header `Idempotency-Key`, of at most 64 characters.
abbrev pub check_create : TransferRequest → Option Text → Option (TransferFields × Option Text)
check_create body key =
    require (not (too_long 64 key)) (and_then (check_transfer body) (λ f. some (f, key)))

-- `idempotency_key or f"auto-{uuid4()}"`, with what is left to draw from.
abbrev pub request_key : Env → Option Text → Text × Env
request_key env none = (codes "auto-" ++ uuid_text (env.uuid 0), after_draws 1 env)
request_key env (some []) = (codes "auto-" ++ uuid_text (env.uuid 0), after_draws 1 env)
request_key env (some (c ∷ s)) = (c ∷ s, env)

abbrev pub send_of : Env → User → TransferFields × Option Text → SendMoney
send_of env sender f = record {
  sender = sender;
  recipient_phone = f.0.recipient_phone;
  amount = f.0.amount;
  pin = f.0.pin;
  idempotency_key = some (request_key env f.1).0;
  note = f.0.note;
}

unfoldable pub send_and_show :
    Libs → Env → Caller → User → TransferFields × Option Text → Action TransferOut
send_and_show libs env caller sender f = do
  sent ← send_money libs.bcrypt (request_key env f.1).1 caller (send_of env sender f)
  w ← own_wallet_id sender
  to_out sent.0 w sent.1

unfoldable pub create_transfer :
    Libs → Env → Http → TransferRequest → Option Text → Conn → Response TransferOut × Conn
create_transfer libs env http body key =
    endpoint 201 (principal_of libs env http) http.limited (check_create body key)
      (λ (p : Principal) f. send_and_show libs env http.caller p.user f)

-- The path parameter has 4 to 20 characters.
abbrev pub check_reference : Text → Option Text
check_reference r = require (within 4 20 r) (some r)

unfoldable pub find_and_show : User → Text → Action TransferOut
find_and_show user reference = do
  w ← own_wallet_id user
  txn ← get_transaction_for_user reference w
  to_out txn w false

-- This endpoint has no limit of its own.
unfoldable pub get_transfer : Libs → Env → Http → Text → Conn → Response TransferOut × Conn
get_transfer libs env http reference =
    endpoint 200 (principal_of libs env http) false (check_reference reference)
      (λ (p : Principal) r. find_and_show p.user r)
