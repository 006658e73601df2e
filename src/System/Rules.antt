-- ===== src/System/Rules.antt =====
-- What the endpoints of app/routers keep of the tables: rules for one request and for any sequence of
-- them.
use pstu_hack_final.Common.{
  ℕ, sym, subst, inl, inr, Bool, true, false, Option, none, some, List, [], ◌∷◌, All,
}
use pstu_hack_final.Common.Text.{Text}
use pstu_hack_final.Db.Actions.{Action, Result, ok, err, fresh}
use pstu_hack_final.Schemas.{MoneyRequestFields, TransferFields}
use pstu_hack_final.Sessions.{logout, rotate_tokens}
use pstu_hack_final.Api.Access.{principal_of-cases}
use pstu_hack_final.Auth.{NewUser}
use pstu_hack_final.Db.Gives.{Keeps-Leaves, Leaves}
use pstu_hack_final.Env.{Caller, Env}
use pstu_hack_final.Db.Rules.{Keeps-pure, Both, keeps_rules, Keeps}
use pstu_hack_final.Models.{MoneyRequest, User, Transaction}
use pstu_hack_final.System.{Call, Step, perform, run}
use pstu_hack_final.Api.Transfers.{send_and_show, create_transfer, to_out}
use pstu_hack_final.Api.Accounts.{
  login_and_show, LoginRequest, post_logout, post_refresh, register_and_show, post_login,
  post_register, own_wallet,
}
use pstu_hack_final.Api.MoneyRequests.{
  cancel_and_show, decline_and_show, approve_and_show, create_and_show, cancel_request,
  decline_request, approve_request, post_request, show_request,
}
use pstu_hack_final.Api.{
  admit, run_endpoint, principal_of, Http, own_wallet_id, endpoint, one_or_none, Libs,
}
use pstu_hack_final.Db.Tables.{Conn, Tables}

module _ {Q : Tables → Type 0} where
  pub own_wallet_id-Keeps : (u : User) → Keeps Q (own_wallet_id u)
  unfolding own_wallet_id
  own_wallet_id-Keeps u = search keeps_rules

  one_or_none-Keeps : {A : Type 0} (xs : List A) → Keeps Q (one_or_none xs)
  unfolding one_or_none
  one_or_none-Keeps [] = search keeps_rules
  one_or_none-Keeps (a ∷ []) = search keeps_rules
  one_or_none-Keeps (a ∷ b ∷ rest) = search keeps_rules

  pub to_out-Keeps : (t : Transaction) (w : ℕ) (b : Bool) → Keeps Q (to_out t w b)
  unfolding to_out
  to_out-Keeps t w b = search (keeps_rules, one_or_none-Keeps) depth 10

  pub show_request-Keeps : (now : ℕ) (u : User) (r : MoneyRequest) → Keeps Q (show_request now u r)
  unfolding show_request
  show_request-Keeps now u r = search keeps_rules

  pub own_wallet-Keeps : (u : User) → Keeps Q (own_wallet u)
  unfolding own_wallet
  own_wallet-Keeps u = search keeps_rules

  -- The caller's check writes nothing.
  pub principal_of-Keeps :
      (libs : Libs) (env : Env) (http : Http) → Keeps Q (principal_of libs env http)
  principal_of-Keeps libs env http = record {
    at = λ c v. elim (principal_of-cases libs env http c) [
      | inl (p, e, entitled) ↦ subst (λ r. Both Q r.1) (sym e) v
      | inr (x, e, r) ↦ subst (λ r. Both Q r.1) (sym e) v
    ];
  }

  -- What commits on every outcome of an endpoint's work is what the request leaves.
  pub endpoint-committed :
      {P F A : Type 0} (status : ℕ) (who : Action P) (limited : Bool) (body : Option F)
      (work : P → F → Action A) (c : Conn)
      → Keeps Q who
      → ((p : P) (f : F) → Leaves Q (work p f))
      → Q c.committed
      → Q (endpoint status who limited body work c).1.committed
  unfolding endpoint
  endpoint-committed {P} {F} {A} status who limited body work c k l v =
      admitted (who (fresh c)) (k.at (fresh c) (v, v))
    where
      ran :
          (p : P) (d : Conn) (b : Bool) (o : Option F)
          → Both Q d
          → Q (run_endpoint status b o work p d).1.committed
      ran p d b none w = w.0
      ran p d true (some f) w = w.0
      ran p d false (some f) w = (l p f).committed d w

      admitted :
          (r : Result P × Conn) → Both Q r.1 → Q (admit status limited body work r).1.committed
      admitted (ok p, d) w = ran p d limited body w
      admitted (err e, d) w = w.0

-- What every endpoint's work keeps of the tables.
pub record Works (Q : Tables → Type 0) (libs : Libs) (env : Env) : Type 0 where
  pub register : (caller : Caller) (n : NewUser) → Leaves Q (register_and_show libs env caller n)
  pub login : (caller : Caller) (q : LoginRequest) → Keeps Q (login_and_show libs env caller q)
  pub refresh : (caller : Caller) (t : Text) → Keeps Q (rotate_tokens libs.tokens env caller t)
  pub logout : (caller : Caller) (i : ℕ) → Keeps Q (logout env caller i)
  pub transfer :
      (caller : Caller) (u : User) (f : TransferFields × Option Text)
      → Keeps Q (send_and_show libs env caller u f)
  pub request :
      (caller : Caller) (u : User) (f : MoneyRequestFields)
      → Keeps Q (create_and_show env caller u f)
  pub approve :
      (caller : Caller) (u : User) (i : ℕ) (pin : Text)
      → Keeps Q (approve_and_show libs env caller u i pin)
  pub decline : (caller : Caller) (u : User) (i : ℕ) → Keeps Q (decline_and_show env caller u i)
  pub cancel : (caller : Caller) (u : User) (i : ℕ) → Keeps Q (cancel_and_show env caller u i)

module _ (Q : Tables → Type 0) (libs : Libs) where
  perform-committed :
      (s : Step) (c : Conn) → Works Q libs s.env → Q c.committed → Q (perform libs s c).committed
  unfolding perform post_register post_login post_refresh post_logout create_transfer post_request
      approve_request decline_request cancel_request
  perform-committed s c w v = go s.call
    where
      who : Keeps Q (principal_of libs s.env s.http)
      who = principal_of-Keeps libs s.env s.http

      go :
          (k : Call)
          → Q (perform libs (record { env = s.env; http = s.http; call = k }) c).committed
      go (Call.register n) =
          endpoint-committed 201 _ _ _ _ c (Keeps-pure tt) (λ p f. w.register _ f) v
      go (Call.login q) =
          endpoint-committed 200 _ _ _ _ c (Keeps-pure tt) (λ p f. Keeps-Leaves _ (w.login _ f)) v
      go (Call.refresh t) =
          endpoint-committed 200 _ _ _ _ c (Keeps-pure tt) (λ p f. Keeps-Leaves _ (w.refresh _ f)) v
      go Call.logout = endpoint-committed 204 _ _ _ _ c who (λ p f. Keeps-Leaves _ (w.logout _ _)) v
      go (Call.transfer b k) =
          endpoint-committed 201 _ _ _ _ c who (λ p f. Keeps-Leaves _ (w.transfer _ _ f)) v
      go (Call.request b) =
          endpoint-committed 201 _ _ _ _ c who (λ p f. Keeps-Leaves _ (w.request _ _ f)) v
      go (Call.approve i b) =
          endpoint-committed 200 _ _ _ _ c who (λ p f. Keeps-Leaves _ (w.approve _ _ _ _)) v
      go (Call.decline i) =
          endpoint-committed 200 _ _ _ _ c who (λ p f. Keeps-Leaves _ (w.decline _ _ f)) v
      go (Call.cancel i) =
          endpoint-committed 200 _ _ _ _ c who (λ p f. Keeps-Leaves _ (w.cancel _ _ f)) v

  -- Any sequence of requests.
  pub run-committed :
      (steps : List Step) (c : Conn)
      → All (λ (s : Step). Works Q libs s.env) steps
      → Q c.committed
      → Q (run libs steps c).committed
  unfolding run
  run-committed [] c a v = v
  run-committed (s ∷ ss) c a v =
      run-committed ss (perform libs s c) a.1 (perform-committed s c a.0 v)
