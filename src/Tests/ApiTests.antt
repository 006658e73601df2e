-- ===== src/Tests/ApiTests.antt =====
-- Requests to the endpoints at concrete inputs.
use pstu_hack_final.Common.{◌≡◌, refl, ◌↔◌, ◌⊎◌, false, none, some, [], ◌∷◌}
use pstu_hack_final.Common.Int.{pos}
use pstu_hack_final.Common.Text.{codes, text_eq}
use pstu_hack_final.Db.Actions.{ok, query, fresh, ◌>>=◌}
use pstu_hack_final.Api.Listing.{request_out-assert_actionable}
use pstu_hack_final.Requests.{assert_actionable, effective_status}
use pstu_hack_final.Api.MoneyRequests.{RequestDirection, request_out, MoneyRequestOut}
use pstu_hack_final.Api.Privacy.{find_and_show-hide_foreign, hide_foreign}
use pstu_hack_final.Api.Transfers.{find_and_show}
use pstu_hack_final.Api.Reads.{own_id}
use pstu_hack_final.Errors.{status_code, DomainError}
use pstu_hack_final.Api.Admission.{endpoint-Entitled}
use pstu_hack_final.Api.Access.{Entitled}
use pstu_hack_final.Sessions.{get_current_principal}
use pstu_hack_final.Tests.AuthTests.{toy}
use pstu_hack_final.Tests.Samples.{bob, conn, caller, conn_of, calm, alice, plain, sample}
use pstu_hack_final.Api.Accounts.{own_wallet, show_me, events_of, me}
use pstu_hack_final.Api.{
  party, domain_error_handler, Response, run_endpoint, checked_payload, Principal,
  decode_access_token, bearer_token, Decoded, principal_of, endpoint, Http, Libs, Jwt,
}
use pstu_hack_final.Db.Tables.{Tables}
use pstu_hack_final.Models.{RequestStatus, MoneyRequest, User, Session}

-- A stand-in for PyJWT: a token is its claims `sub` and `sid`, one digit each.
abbrev pub toy_jwt : Jwt
toy_jwt = record {
  decode = λ now t. elim t [
    | a ∷ s ↦ elim s [
      | b ∷ r ↦ Decoded.payload (a ∷ []) (b ∷ []) (some (codes "access"))
      | [] ↦ Decoded.invalid
    ]
    | [] ↦ Decoded.invalid
  ];
}

abbrev pub libs : Libs
libs = record { bcrypt = plain; tokens = toy; jwt = toy_jwt }

abbrev pub http : Http
http = record { credentials = some (codes "12"); caller = caller; limited = false }

-- Dora is user 1 and has session 2.
abbrev pub dora : User
dora = record alice { id = 1; phone = codes "01755555555" }

abbrev pub dora_session : Session
dora_session = record {
  id = 2;
  family_id = 2;
  user_id = 1;
  refresh_hash = codes "h";
  user_agent = none;
  client_ip = none;
  is_blocked = false;
  expires_at = 1000;
  created_at = 1;
}

abbrev pub logged_in : Tables
logged_in = record sample { users = dora ∷ sample.users; sessions = dora_session ∷ [] }

-- The caller is let through, and her missing wallet is a fault.
me_test : (me libs calm http (conn_of logged_in)).0 ≡ Response.fault
unfolding me endpoint principal_of bearer_token decode_access_token checked_payload text_eq
    get_current_principal show_me own_wallet ◌>>=◌
me_test = refl

endpoint-Entitled_example :
    let sent =
      endpoint 200
        (principal_of libs calm http)
        false
        (some 5)
        (λ (p : Principal) n. query (events_of p.user.id n))
        (conn_of logged_in) in
    ((p : Principal) × Entitled libs calm http logged_in p
      × (sent
          ≡ run_endpoint 200 false
              (some 5)
              (λ (p : Principal) n. query (events_of p.user.id n))
              p
              (fresh (conn_of logged_in))))
    ⊎ ((e : DomainError) × ((status_code e ≡ 401) ⊎ (status_code e ≡ 403))
        × (sent ≡ (domain_error_handler e, fresh (conn_of logged_in))))
endpoint-Entitled_example =
    endpoint-Entitled libs calm http 200 false (some 5)
      (λ (p : Principal) n. query (events_of p.user.id n)) (conn_of logged_in)

-- Bob's grant is no transaction of Alice's.
find_and_show-hide_foreign_example :
    (find_and_show alice (codes "TXN00000032") (hide_foreign 11 conn)).0
    ≡ (find_and_show alice (codes "TXN00000032") conn).0
unfolding own_id
find_and_show-hide_foreign_example =
    find_and_show-hide_foreign alice (codes "TXN00000032") 11 conn refl

abbrev asked : MoneyRequest
asked = record {
  id = 40;
  requester_id = 20;
  payer_id = 10;
  amount = pos 5000;
  note = none;
  status = RequestStatus.pending;
  transaction_id = none;
  expires_at = 1000;
  created_at = 50;
  responded_at = none;
}

abbrev shown : MoneyRequestOut
shown = record {
  id = 40;
  direction = RequestDirection.incoming;
  counterparty = party bob;
  amount = pos 5000;
  note = none;
  status = RequestStatus.pending;
  transaction_reference = none;
  expires_at = 1000;
  created_at = 50;
  responded_at = none;
}

-- Alice sees a request of Bob's as pending before it expires.
request_out-assert_actionable_example :
    (shown.status ≡ RequestStatus.pending) ↔ (assert_actionable 100 asked conn ≡ (ok tt, conn))
unfolding request_out effective_status
request_out-assert_actionable_example =
    request_out-assert_actionable 100 asked alice sample shown conn refl
