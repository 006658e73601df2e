-- ===== src/Api/MoneyRequests.antt =====
-- app/routers/requests.py: asking for money and answering a request.
use pstu_hack_final.Common.{
  ℕ, Bool, false, not, Option, none, some, List, [], ◌∷◌, ◌==◌, if◌then◌else◌,
}
use pstu_hack_final.Common.Int.{ℤ}
use pstu_hack_final.Common.Text.{Text, codes, text_eq}
use pstu_hack_final.Db.Actions.{Action, pure, query, or_throw, ◌>>=◌}
use pstu_hack_final.Db.Tables.{find_transaction, find_user, Conn, Tables}
use pstu_hack_final.Schemas.{
  check_response, check_money_request, MoneyRequestCreate, and_then, RespondToRequest,
  MoneyRequestFields,
}
use pstu_hack_final.Errors.{Exn}
use pstu_hack_final.Requests.{
  count_pending_incoming, list_requests, create_request, effective_status, approve, decline, cancel,
  NewRequest, Box,
}
use pstu_hack_final.Env.{Caller, Env}
use pstu_hack_final.Api.{Principal, principal_of, endpoint, party, Response, Http, Libs, Party}
use pstu_hack_final.Models.{User, MoneyRequest, RequestStatus}

pub data RequestDirection : Type 0 where
  incoming outgoing : RequestDirection

pub record MoneyRequestOut : Type 0 where
  pub id : ℕ
  pub direction : RequestDirection
  pub counterparty : Party
  pub amount : ℤ
  pub note : Option Text
  pub status : RequestStatus
  pub transaction_reference : Option Text
  pub expires_at : ℕ
  pub created_at : ℕ
  pub responded_at : Option ℕ

abbrev pub is_incoming : MoneyRequest → User → Bool
is_incoming req viewer = req.payer_id == viewer.id

-- `_to_out`: the other party and the settled transaction are read through their foreign keys.
unfoldable pub request_out : ℕ → MoneyRequest → User → Tables → Option MoneyRequestOut
request_out now req viewer d =
    let incoming = is_incoming req viewer in
    and_then (find_user (if incoming then req.requester_id else req.payer_id) d.users) (λ other.
      some (record {
        id = req.id;
        direction = if incoming then RequestDirection.incoming else RequestDirection.outgoing;
        counterparty = party other;
        amount = req.amount;
        note = req.note;
        status = effective_status now req;
        transaction_reference =
            and_then req.transaction_id
              (λ i. and_then (find_transaction i d.transactions) (λ t. some t.reference));
        expires_at = req.expires_at;
        created_at = req.created_at;
        responded_at = req.responded_at;
      }))

-- A missing party has no `phone`: AttributeError.
unfoldable pub show_request : ℕ → User → MoneyRequest → Action MoneyRequestOut
show_request now viewer req = do
  out ← query (request_out now req viewer)
  or_throw out Exn.attribute_error

abbrev pub new_request : User → MoneyRequestFields → NewRequest
new_request user f = record {
  requester = user;
  payer_phone = f.payer_phone;
  amount = f.amount;
  note = f.note;
}

unfoldable pub create_and_show : Env → Caller → User → MoneyRequestFields → Action MoneyRequestOut
create_and_show env caller user f = do
  req ← create_request env caller (new_request user f)
  show_request env.now user req

unfoldable pub post_request :
    Libs → Env → Http → MoneyRequestCreate → Conn → Response MoneyRequestOut × Conn
post_request libs env http body =
    endpoint 201 (principal_of libs env http) http.limited (check_money_request body)
      (λ (p : Principal) f. create_and_show env http.caller p.user f)

pub record MoneyRequestList : Type 0 where
  pub requests : List MoneyRequestOut
  pub pending_incoming : ℕ

unfoldable pub show_requests : ℕ → User → List MoneyRequest → Action (List MoneyRequestOut)
show_requests now user [] = pure []
show_requests now user (r ∷ rs) = do
  out ← show_request now user r
  outs ← show_requests now user rs
  pure (out ∷ outs)

-- `^(incoming|outgoing)$`
abbrev pub read_box : Text → Option Box
read_box s =
    if text_eq s (codes "incoming")
    then some Box.incoming
    else if text_eq s (codes "outgoing")
    then some Box.outgoing
    else none

unfoldable pub list_and_show : ℕ → User → Bool → Box → Action MoneyRequestList
list_and_show now user pending_only box = do
  rows ← query (λ d. list_requests d user.id box (not pending_only) 50)
  outs ← show_requests now user rows
  count ← query (λ d. count_pending_incoming now d user.id)
  pure (record { requests = outs; pending_incoming = count })

unfoldable pub get_requests :
    Libs → Env → Http → Text → Bool → Conn → Response MoneyRequestList × Conn
get_requests libs env http box pending_only =
    endpoint 200 (principal_of libs env http) false (read_box box)
      (λ (p : Principal) b. list_and_show env.now p.user pending_only b)

unfoldable pub approve_and_show : Libs → Env → Caller → User → ℕ → Text → Action MoneyRequestOut
approve_and_show libs env caller user i pin = do
  done ← approve libs.bcrypt env caller user i pin
  show_request env.now user done.0

-- `request_id` is a UUID of the path.
unfoldable pub approve_request :
    Libs → Env → Http → Text → RespondToRequest → Conn → Response MoneyRequestOut × Conn
approve_request libs env http request_id body =
    endpoint 200 (principal_of libs env http) http.limited
      (and_then (libs.tokens.parse_uuid request_id)
        (λ i. and_then (check_response body) (λ pin. some (i, pin))))
      (λ (p : Principal) (f : ℕ × Text). approve_and_show libs env http.caller p.user f.0 f.1)

unfoldable pub decline_and_show : Env → Caller → User → ℕ → Action MoneyRequestOut
decline_and_show env caller user i = do
  req ← decline env caller user i
  show_request env.now user req

unfoldable pub decline_request : Libs → Env → Http → Text → Conn → Response MoneyRequestOut × Conn
decline_request libs env http request_id =
    endpoint 200 (principal_of libs env http) false (libs.tokens.parse_uuid request_id)
      (λ (p : Principal) i. decline_and_show env http.caller p.user i)

unfoldable pub cancel_and_show : Env → Caller → User → ℕ → Action MoneyRequestOut
cancel_and_show env caller user i = do req ← cancel env caller user i; show_request env.now user req

unfoldable pub cancel_request : Libs → Env → Http → Text → Conn → Response MoneyRequestOut × Conn
cancel_request libs env http request_id =
    endpoint 200 (principal_of libs env http) false (libs.tokens.parse_uuid request_id)
      (λ (p : Principal) i. cancel_and_show env http.caller p.user i)
