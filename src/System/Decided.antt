-- ===== src/System/Decided.antt =====
-- A decided money request of app/services/request_service.py over any sequence of requests.
use pstu_hack_final.Security.{Bcrypt}
use pstu_hack_final.Common.{◌≡◌, false, Option, none, some, List, [], ◌∷◌, All}
use pstu_hack_final.Common.Text.{Text}
use pstu_hack_final.Transfer.{send_money}
use pstu_hack_final.Db.Gives.{Keeps-Leaves}
use pstu_hack_final.Sessions.Consistency.{
  logout-Keeps, rotate_tokens-Keeps, authenticate-Keeps, issue_tokens-Keeps,
}
use pstu_hack_final.Db.Rules.{Keeps-bind, keeps_rules, Keeps}
use pstu_hack_final.Schemas.{TransferFields}
use pstu_hack_final.Auth.{NewUser}
use pstu_hack_final.Transfer.Requests.{OfRequests}
use pstu_hack_final.Api.MoneyRequests.{
  cancel_and_show, decline_and_show, approve_and_show, create_and_show,
}
use pstu_hack_final.Api.Transfers.{send_of, request_key, send_and_show}
use pstu_hack_final.Requests.Rows.{Holds}
use pstu_hack_final.System.Rules.{
  show_request-Keeps, to_out-Keeps, own_wallet_id-Keeps, own_wallet-Keeps, run-committed, Works,
}
use pstu_hack_final.Api.Accounts.{LoginRequest, login_and_show, register_and_show}
use pstu_hack_final.Requests.{is_pending}
use pstu_hack_final.Db.Tables.{Tables, Conn}
use pstu_hack_final.Requests.Decided.{cancel-K, decline-K, approve-K, create_request-K, Spares}
use pstu_hack_final.System.{run, Step}
use pstu_hack_final.Env.{Caller, Env}
use pstu_hack_final.Api.{Libs}
use pstu_hack_final.Models.{User, MoneyRequest}
use pstu_hack_final.Requests.Apart.{requests-Free, register-OfRequests, send_money-OfRequests}

module _ (r : MoneyRequest) (libs : Libs) (env : Env) (s : Spares r env) where
  abbrev Q : Tables → Type 0
  Q = OfRequests (Holds r)

  register_and_show-Q :
      (caller : Caller) (n : NewUser) → Keeps Q (register_and_show libs env caller n)
  unfolding register_and_show
  register_and_show-Q caller n =
      let issue = issue_tokens-Keeps (requests-Free (Holds r)) in
      let register = register-OfRequests (Holds r) env s.row s.wallets libs.bcrypt caller n in
      Keeps-bind _ _ register λ made. search (keeps_rules, issue, own_wallet-Keeps) depth 8

  login_and_show-Q :
      (caller : Caller) (q : LoginRequest) → Keeps Q (login_and_show libs env caller q)
  unfolding login_and_show
  login_and_show-Q caller q =
      let login = λ (lib : Bcrypt) (phone password : Text).
        authenticate-Keeps (requests-Free (Holds r)) lib env caller phone password s.row in
      let issue = issue_tokens-Keeps (requests-Free (Holds r)) in search (keeps_rules, login, issue)

  send_and_show-Q :
      (caller : Caller) (u : User) (f : TransferFields × Option Text)
      → Keeps Q (send_and_show libs env caller u f)
  unfolding send_and_show
  send_and_show-Q caller u f =
      Keeps-bind _ _ (send f.1) λ sent. search (keeps_rules, own_wallet_id-Keeps, to_out-Keeps)
    where
      send :
          (k : Option Text)
          → Keeps Q (send_money libs.bcrypt (request_key env k).1 caller (send_of env u f))
      send none = send_money-OfRequests (Holds r) _ s.row s.wallets libs.bcrypt caller _
      send (some []) = send_money-OfRequests (Holds r) _ s.row s.wallets libs.bcrypt caller _
      send (some (x ∷ k)) = send_money-OfRequests (Holds r) _ s.row s.wallets libs.bcrypt caller _

  Spares-Works : is_pending r.status ≡ false → Works Q libs env
  unfolding create_and_show approve_and_show decline_and_show cancel_and_show
  Spares-Works decided = record {
    register = λ caller n. Keeps-Leaves _ (register_and_show-Q caller n);
    login = login_and_show-Q;
    refresh =
        λ caller t. rotate_tokens-Keeps (requests-Free (Holds r)) libs.tokens env caller t s.row;
    logout = logout-Keeps (requests-Free (Holds r)) env;
    transfer = send_and_show-Q;
    request = λ caller u f.
        Keeps-bind _ _ (create_request-K r env caller _) λ q. show_request-Keeps _ _ _;
    approve = λ caller u i pin.
        Keeps-bind _ _ (approve-K r decided env s.row s.wallets libs.bcrypt caller u i pin)
          λ d. show_request-Keeps _ _ _;
    decline = λ caller u i.
        Keeps-bind _ _ (decline-K r decided env s.row caller u i) λ q. show_request-Keeps _ _ _;
    cancel = λ caller u i.
        Keeps-bind _ _ (cancel-K r decided env s.row caller u i) λ q. show_request-Keeps _ _ _;
  }

All-Spares :
    (r : MoneyRequest) (libs : Libs) (steps : List Step)
    → is_pending r.status ≡ false
    → All (λ (s : Step). Spares r s.env) steps
    → All (λ (s : Step). Works (OfRequests (Holds r)) libs s.env) steps
All-Spares r libs [] d a = tt
All-Spares r libs (s ∷ ss) d a = (Spares-Works r libs s.env a.0 d, All-Spares r libs ss d a.1)

-- A money request that is no longer pending never changes again: after any sequence of requests to the endpoints, with whatever outcomes, the database has the same row under its id and no other, if what else commits during the waits leaves it alone.
pub run-decided :
    (r : MoneyRequest) (libs : Libs) (steps : List Step) (c : Conn)
    → is_pending r.status ≡ false
    → All (λ (s : Step). Spares r s.env) steps
    → Holds r c.committed.money_requests
    → Holds r (run libs steps c).committed.money_requests
run-decided r libs steps c d a v =
    run-committed (OfRequests (Holds r)) libs steps c (All-Spares r libs steps d a) v
