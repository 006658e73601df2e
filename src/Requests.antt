-- ===== src/Requests.antt =====
-- app/services/request_service.py: the requests for money. A request moves nothing; its payer's
-- approval settles it by the transfer path, in one transaction with the change of its status.
pub mod Consistency
pub mod Rows
pub mod Decided
pub mod Apart
pub mod Approval
pub mod Trail
use pstu_hack_final.Common.Uuid.{uuid_text}
use pstu_hack_final.Common.{
  ℕ, ◌+◌, ◌*◌, Bool, true, false, ◌&&◌, ◌||◌, not, Option, none, some, List, [], ◌∷◌, ◌++◌, ltb,
  leb, ◌==◌, if◌then◌else◌, length, take, find, keep, sort_by,
}
use pstu_hack_final.Common.Int.{ℤ}
use pstu_hack_final.Common.Text.{Text, codes}
use pstu_hack_final.Db.Actions.{
  ◌>>=◌, ◌>>◌, Action, ⊤, pure, raise, raise_if, query, or_raise, when, commit, wait, acquire,
}
use pstu_hack_final.Db.Statements.{insert_request, update_request}
use pstu_hack_final.Transfer.{execute_transfer, refuse_pin, find_active, Order}
use pstu_hack_final.Errors.{DomainError}
use pstu_hack_final.Env.{audit, Caller, Env}
use pstu_hack_final.Models.{
  MetaValue, Entity, AuditAction, TxnType, Transaction, User, MoneyRequest, RequestStatus,
}
use pstu_hack_final.Db.Tables.{Lock, find_user, Tables}
use pstu_hack_final.Security.{verify_secret, Bcrypt}

abbrev pub is_pending : RequestStatus → Bool
is_pending RequestStatus.pending = true
is_pending s = false

unfoldable pub effective_status : ℕ → MoneyRequest → RequestStatus
effective_status now r =
    if is_pending r.status && leb r.expires_at now then RequestStatus.expired else r.status

-- The user is the requester or the payer.
abbrev pub is_party : ℕ → MoneyRequest → Bool
is_party u r = (r.requester_id == u) || (r.payer_id == u)

abbrev pub find_party : ℕ → ℕ → List MoneyRequest → Option MoneyRequest
find_party i u = find (λ r. (r.id == i) && is_party u r)

-- The row is read after the wait for its lock.
unfoldable pub lock_request : Env → ℕ → User → Action MoneyRequest
lock_request env i viewer = do
  wait env.while_row
  found ← query (λ d. find_party i viewer.id d.money_requests)
  req ← or_raise found DomainError.request_not_found
  acquire (Lock.request req.id ∷ [])
  pure req

unfoldable pub refuse_status : RequestStatus → Action ⊤
refuse_status RequestStatus.expired = raise DomainError.request_expired
refuse_status RequestStatus.pending = pure tt
refuse_status s = raise (DomainError.request_not_pending s)

unfoldable pub assert_actionable : ℕ → MoneyRequest → Action ⊤
assert_actionable now r = refuse_status (effective_status now r)

-- The arguments of `create_request`.
pub record NewRequest : Type 0 where
  pub requester : User
  pub payer_phone : Text
  pub amount : ℤ
  pub note : Option Text

abbrev pub request_row : Env → NewRequest → User → MoneyRequest
request_row env n payer = record {
  id = env.uuid 0;
  requester_id = n.requester.id;
  payer_id = payer.id;
  amount = n.amount;
  note = n.note;
  status = RequestStatus.pending;
  transaction_id = none;
  expires_at = env.now + env.settings.request_expiry_hours * 3600;
  created_at = env.now;
  responded_at = none;
}

unfoldable pub create_request : Env → Caller → NewRequest → Action MoneyRequest
create_request env caller n = do
  found ← query (λ d. find_active n.payer_phone d.users)
  payer ← or_raise found (DomainError.recipient_not_found n.payer_phone)
  raise_if (payer.id == n.requester.id) DomainError.self_request_not_allowed
  insert_request (request_row env n payer)
  audit env AuditAction.request_created (some n.requester.id)
      (some (Entity.money_request (env.uuid 0))) caller
      ((codes "amount", MetaValue.money n.amount)
        ∷ (codes "payer", MetaValue.text payer.phone)
        ∷ [])
  commit
  pure (request_row env n payer)

-- The parameter `box`: requests to pay, or requests sent.
pub data Box : Type 0 where
  incoming outgoing : Box

abbrev pub in_box : Box → ℕ → MoneyRequest → Bool
in_box incoming u r = r.payer_id == u
in_box outgoing u r = r.requester_id == u

unfoldable pub list_requests : Tables → ℕ → Box → Bool → ℕ → List MoneyRequest
list_requests d u box include_settled limit = take limit (
    sort_by (λ a b. leb b.created_at a.created_at)
      (keep (λ r. in_box box u r && (include_settled || is_pending r.status)) d.money_requests))

abbrev pub is_open : ℕ → MoneyRequest → Bool
is_open now r = is_pending r.status && ltb now r.expires_at

unfoldable pub count_pending_incoming : ℕ → Tables → ℕ → ℕ
count_pending_incoming now d u =
    length (keep (λ r. (r.payer_id == u) && is_open now r) d.money_requests)

-- The key of a settlement, `request:<id>`.
abbrev pub settlement_key : ℕ → Text
settlement_key i = codes "request:" ++ uuid_text i

-- `req.note or f"Request from {requester.full_name}"`
abbrev pub settlement_note : Option Text → User → Text
settlement_note none u = codes "Request from " ++ u.full_name
settlement_note (some []) u = codes "Request from " ++ u.full_name
settlement_note (some (c ∷ s)) u = c ∷ s

abbrev pub settlement_order : User → User → MoneyRequest → Order
settlement_order payer requester r = record {
  sender = payer;
  recipient = requester;
  amount = r.amount;
  idempotency_key = some (settlement_key r.id);
  note = some (settlement_note r.note requester);
  txn_type = TxnType.request_settlement;
}

abbrev pub approved : Env → Transaction → MoneyRequest → MoneyRequest
approved env t r = record r {
  status = RequestStatus.approved;
  transaction_id = some t.id;
  responded_at = some env.now;
}

-- The status change, its audit row and the commit.
unfoldable pub record_approval :
    Env → Caller → User → MoneyRequest → Transaction → Action (MoneyRequest × Transaction)
record_approval env caller payer req t = do
  update_request req.id (approved env t)
  audit env AuditAction.request_approved (some payer.id) (some (Entity.money_request req.id)) caller
      ((codes "amount", MetaValue.money req.amount)
        ∷ (codes "reference", MetaValue.text t.reference)
        ∷ [])
  commit
  pure (approved env t req, t)

-- The payment of a locked request after the PIN check.
unfoldable pub settle_request :
    Env → Caller → User → MoneyRequest → Action (MoneyRequest × Transaction)
settle_request env caller payer req = do
  found ← query (λ d. find_user req.requester_id d.users)
  requester ← or_raise found (DomainError.recipient_not_found (codes "the requester"))
  raise_if (not requester.is_active) (DomainError.recipient_not_found (codes "the requester"))
  paid ← execute_transfer env caller (settlement_order payer requester req) false
  record_approval env caller payer req paid.0

unfoldable pub approve :
    Bcrypt → Env → Caller → User → ℕ → Text → Action (MoneyRequest × Transaction)
approve lib env caller payer i pin = do
  req ← lock_request env i payer
  raise_if (not (req.payer_id == payer.id)) DomainError.request_not_found
  assert_actionable env.now req
  when (not (verify_secret lib pin (some payer.pin_hash)))
      (refuse_pin env caller payer.id (some (Entity.money_request req.id)) [])
  settle_request env caller payer req

abbrev pub answered : Env → RequestStatus → MoneyRequest → MoneyRequest
answered env s r = record r { status = s; responded_at = some env.now }

-- What `decline` and `cancel` do once the request may be answered.
unfoldable pub answer :
    Env → Caller → User → MoneyRequest → RequestStatus → AuditAction → Action MoneyRequest
answer env caller user req s action = do
  update_request req.id (answered env s)
  audit env action (some user.id) (some (Entity.money_request req.id)) caller []
  commit
  pure (answered env s req)

unfoldable pub decline : Env → Caller → User → ℕ → Action MoneyRequest
decline env caller payer i = do
  req ← lock_request env i payer
  raise_if (not (req.payer_id == payer.id)) DomainError.request_not_found
  assert_actionable env.now req
  answer env caller payer req RequestStatus.declined AuditAction.request_declined

unfoldable pub cancel : Env → Caller → User → ℕ → Action MoneyRequest
cancel env caller requester i = do
  req ← lock_request env i requester
  raise_if (not (req.requester_id == requester.id)) DomainError.request_not_found
  assert_actionable env.now req
  answer env caller requester req RequestStatus.cancelled AuditAction.request_cancelled
