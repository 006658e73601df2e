-- ===== src/Transfer.antt =====
-- app/services/transfer_service.py: the transfer path.
pub mod Outcome
pub mod Consistency
pub mod Retry
pub mod Payment
pub mod Effect
pub mod Replay
pub mod Refusal
pub mod Race
pub mod Pin
pub mod Refinement
pub mod Sending
pub mod Requests
use pstu_hack_final.Common.{
  ℕ, Bool, true, false, ◌&&◌, ◌||◌, not, Option, none, some, List, [], ◌∷◌, ◌==◌, find, is_eq,
}
use pstu_hack_final.Common.Int.{ℤ, eqb_ℤ}
use pstu_hack_final.Common.Text.{Text, codes, text_eq}
use pstu_hack_final.Db.Actions.{
  ◌>>=◌, ◌>>◌, Action, ⊤, Result, ok, err, pure, throw, raise, raise_if, query, or_raise, or_throw,
  attempt, when, commit, commit_if, savepoint, wait,
}
use pstu_hack_final.Db.Tables.{Tables, wallet_of, find_key}
use pstu_hack_final.Ledger.{Posting, lock_wallets, row_of, post_double_entry}
use pstu_hack_final.Security.{Bcrypt, verify_secret}
use pstu_hack_final.Env.{Env, Caller, audit}
use pstu_hack_final.Errors.{Exn, DomainError, Constraint}
use pstu_hack_final.Models.{
  Wallet, Transaction, TxnType, User, AuditAction, Entity, MetaValue, Meta,
}

-- `_find_replay`: no key, or an empty one, finds nothing. The unique index uq_idem leaves at most
-- one row to find.
unfoldable pub find_replay : ℕ → Option Text → Tables → Option Transaction
find_replay user none d = none
find_replay user (some []) d = none
find_replay user (some (c ∷ key)) d = find_key user (c ∷ key) d.transactions

-- The test of `_assert_same_request`.
abbrev pub is_other_request : Transaction → ℤ → ℕ → Bool
is_other_request txn amount recipient_wallet =
    not (eqb_ℤ txn.amount amount) || not (is_eq txn.receiver_wallet_id recipient_wallet)

unfoldable pub assert_same_request : Transaction → ℤ → ℕ → Action ⊤
assert_same_request txn amount recipient_wallet =
    raise_if (is_other_request txn amount recipient_wallet)
      (DomainError.idempotency_key_conflict txn.reference)

-- `SELECT … FROM users WHERE phone = … AND is_active`
abbrev pub find_active : Text → List User → Option User
find_active phone = find (λ u. text_eq u.phone phone && u.is_active)

unfoldable pub resolve_recipient : User → Text → Action User
resolve_recipient sender phone = do
  found ← query (λ d. find_active phone d.users)
  recipient ← or_raise found (DomainError.recipient_not_found phone)
  raise_if (recipient.id == sender.id) DomainError.self_transfer_not_allowed
  pure recipient

-- The keyword arguments that describe the transfer.
pub record Order : Type 0 where
  pub sender : User
  pub recipient : User
  pub amount : ℤ
  pub idempotency_key : Option Text
  pub note : Option Text
  pub txn_type : TxnType

abbrev pub posting_of : Order → Wallet → Wallet → Posting
posting_of o src dst = record {
  txn_type = o.txn_type;
  amount = o.amount;
  debit_wallet = src;
  credit_wallet = dst;
  initiated_by = some o.sender.id;
  note = o.note;
  idempotency_key = o.idempotency_key;
  allow_overdraft = false;
}

abbrev pub completed_meta : Order → Transaction → Meta
completed_meta o txn =
    (codes "amount", MetaValue.money o.amount)
    ∷ (codes "reference", MetaValue.text txn.reference)
    ∷ (codes "to", MetaValue.text o.recipient.phone)
    ∷ []

abbrev pub rejected_meta : Order → Meta
rejected_meta o =
    (codes "amount", MetaValue.money o.amount)
    ∷ (codes "reason", MetaValue.text (codes "insufficient_funds"))
    ∷ []

-- The audit row of a completed transfer.
unfoldable pub audit_transfer : Env → Caller → Order → Transaction → Action Transaction
audit_transfer env caller o txn = do
  audit env AuditAction.transfer_completed (some o.sender.id) (some (Entity.transaction txn.id))
      caller (completed_meta o txn)
  pure txn

-- The body of the `with db.begin_nested()` block.
unfoldable pub move_money : Env → Caller → Order → ℕ → ℕ → Action Transaction
move_money env caller o src_id dst_id = do
  wallets ← lock_wallets (src_id ∷ dst_id ∷ [])
  src ← row_of src_id wallets
  dst ← row_of dst_id wallets
  txn ← post_double_entry env (env.uuid 0) (posting_of o src dst)
  audit_transfer env caller o txn

-- The `except` clauses and what follows the `try`.
unfoldable pub settle :
    Env → Caller → Order → ℕ → Bool → Result Transaction → Action (Transaction × Bool)
settle env caller o dst_id commits (ok txn) = do commit_if commits; pure (txn, false)
settle env caller o dst_id commits (err (Exn.domain (DomainError.insufficient_funds a))) = do
  audit env AuditAction.transfer_rejected (some o.sender.id) none caller (rejected_meta o)
  commit_if commits
  raise (DomainError.insufficient_funds a)
settle env caller o dst_id commits (err (Exn.integrity Constraint.uq_idem)) = do
  found ← query (find_replay o.sender.id o.idempotency_key)
  winner ← or_throw found (Exn.integrity Constraint.uq_idem)
  assert_same_request winner o.amount dst_id
  pure (winner, true)
settle env caller o dst_id commits (err (Exn.integrity Constraint.no_overdraft)) =
    raise (DomainError.insufficient_funds none)
settle env caller o dst_id commits (err e) = throw e

-- The part after the replay check.
unfoldable pub execute_new : Env → Caller → Order → ℕ → ℕ → Bool → Action (Transaction × Bool)
execute_new env caller o src_id dst_id commits = do
  wait env.while_wallets
  outcome ← attempt (savepoint (move_money env caller o src_id dst_id))
  settle env caller o dst_id commits outcome

unfoldable pub replay_or_new :
    Env → Caller → Order → Bool → ℕ → ℕ → Option Transaction → Action (Transaction × Bool)
replay_or_new env caller o commits src_id dst_id none =
    execute_new env caller o src_id dst_id commits
replay_or_new env caller o commits src_id dst_id (some txn) = do
  assert_same_request txn o.amount dst_id
  pure (txn, true)

unfoldable pub execute_transfer : Env → Caller → Order → Bool → Action (Transaction × Bool)
execute_transfer env caller o commits = do
  sender_wallet ← query (λ d. wallet_of o.sender.id d.wallets)
  recipient_wallet ← query (λ d. wallet_of o.recipient.id d.wallets)
  src ← or_raise sender_wallet DomainError.wallet_missing
  dst ← or_raise recipient_wallet DomainError.wallet_missing
  raise_if (o.recipient.id == o.sender.id) DomainError.self_transfer_not_allowed
  replay ← query (find_replay o.sender.id o.idempotency_key)
  replay_or_new env caller o commits src.id dst.id replay

-- The arguments of `send_money`.
pub record SendMoney : Type 0 where
  pub sender : User
  pub recipient_phone : Text
  pub amount : ℤ
  pub pin : Text
  pub idempotency_key : Option Text
  pub note : Option Text

abbrev pub order_of : SendMoney → User → Order
order_of s recipient = record {
  sender = s.sender;
  recipient = recipient;
  amount = s.amount;
  idempotency_key = s.idempotency_key;
  note = s.note;
  txn_type = TxnType.transfer;
}

-- A wrong PIN is audited and committed before it raises.
unfoldable pub refuse_pin : Env → Caller → ℕ → Option Entity → Meta → Action ⊤
refuse_pin env caller actor entity meta = do
  audit env AuditAction.pin_failed (some actor) entity caller meta
  commit
  raise DomainError.invalid_pin

unfoldable pub send_money : Bcrypt → Env → Caller → SendMoney → Action (Transaction × Bool)
send_money lib env caller s = do
  recipient ← resolve_recipient s.sender s.recipient_phone
  when (not (verify_secret lib s.pin (some s.sender.pin_hash)))
      (refuse_pin env caller s.sender.id none ((codes "amount", MetaValue.money s.amount) ∷ []))
  execute_transfer env caller (order_of s recipient) true
