-- ===== src/Requests/Decided.antt =====
-- A money request of app/services/request_service.py that is decided stays as it is.
use pstu_hack_final.Common.{
  ℕ, ◌≡◌, refl, subst, ◌≢◌, inl, inr, Bool, true, false, Option, some, [], arith, Option-cases,
  All-find,
}
use pstu_hack_final.Common.Text.{Text}
use pstu_hack_final.Db.Actions.{Action, raise_if, when, wait, serve, ◌>>=◌}
use pstu_hack_final.Security.{Bcrypt}
use pstu_hack_final.Errors.{DomainError}
use pstu_hack_final.Db.Gives.{Gives-bind, Gives}
use pstu_hack_final.Env.{Caller, Env}
use pstu_hack_final.Transfer.{Order, refuse_pin}
use pstu_hack_final.Requests.{
  NewRequest, settle_request, approve, cancel, decline, create_request, find_party, answered,
  approved, record_approval, effective_status, answer, assert_actionable, refuse_status, is_pending,
  lock_request,
}
use pstu_hack_final.Transfer.Requests.{execute_transfer-OfRequests, audit-OfRequests, OfRequests}
use pstu_hack_final.Db.Rules.{
  Keeps-serve, Keeps-when, Keeps-raise_if, Keeps-wait, Keeps-bind, keeps_rules, Keeps,
}
use pstu_hack_final.Db.Tables.{Conn, Tables}
use pstu_hack_final.Db.Statements.{update_request}
use pstu_hack_final.Models.{
  Meta, Transaction, AuditAction, Entity, User, RequestStatus, MoneyRequest,
}
use pstu_hack_final.Requests.Rows.{Holds, insert_request-Holds, Holds-change}

-- What a decided request asks of the rows that a call changes.
abbrev Other : MoneyRequest → MoneyRequest → Type 0
Other r q = q.id ≡ r.id → q ≡ r

module _ (r : MoneyRequest) where
  abbrev K : {A : Type 0} → Action A → Type 0
  K m = Keeps (OfRequests (Holds r)) m

  update_request-Holds :
      (i : ℕ) (f : MoneyRequest → MoneyRequest)
      → i ≢ r.id
      → ((x : MoneyRequest) → (f x).id ≡ x.id)
      → K (update_request i f)
  unfolding update_request
  update_request-Holds i f ne same = record {
    at = λ c v. (v.0, Holds-change r i f c.work.money_requests ne same v.1);
  }

  lock_request-K :
      (env : Env) (i : ℕ) (u : User)
      → ((d : Tables) → OfRequests (Holds r) d → OfRequests (Holds r) (env.while_row d))
      → K (lock_request env i u)
  unfolding lock_request
  lock_request-K env i u w =
      Keeps-bind (wait env.while_row) _ (Keeps-wait env.while_row w) λ t. search keeps_rules

  lock_request-Gives :
      (env : Env) (i : ℕ) (u : User)
      → ((d : Tables) → OfRequests (Holds r) d → OfRequests (Holds r) (env.while_row d))
      → Gives (OfRequests (Holds r)) (Other r) (lock_request env i u)
  unfolding lock_request ◌>>=◌
  lock_request-Gives env i u w = record {
    keeps = lock_request-K env i u w;
    value = λ c q v e.
        let rs = (env.while_row c.work).money_requests in
        elim (Option-cases (find_party i u.id rs)) [
          | inl f ↦ absurd (ground (arith, f))
          | inr (x, f) ↦
              let h =
                All-find (λ (y : MoneyRequest). y.id ≡ r.id → y ≡ r) _ rs x (w c.work v.1).only f in
              subst (Other r) {x = x} {y = q} (ground (arith, f)) h
        ];
  }

  refuse_status-K : (s : RequestStatus) → K (refuse_status s)
  unfolding refuse_status
  refuse_status-K RequestStatus.pending = search keeps_rules
  refuse_status-K RequestStatus.expired = search keeps_rules
  refuse_status-K s = search keeps_rules

  assert_actionable-Gives :
      (now : ℕ) (q : MoneyRequest)
      → Gives (OfRequests (Holds r)) (λ t. is_pending q.status ≡ true) (assert_actionable now q)
  unfolding assert_actionable refuse_status effective_status ◌>>=◌
  assert_actionable-Gives now q = record {
    keeps = refuse_status-K (effective_status now q);
    value = λ c t v e. ground arith;
  }

  refuse_pin-K :
      (env : Env) (caller : Caller) (u : ℕ) (e : Option Entity) (m : Meta)
      → K (refuse_pin env caller u e m)
  unfolding refuse_pin
  refuse_pin-K env caller u e m = search (keeps_rules, audit-OfRequests)

module _ (r : MoneyRequest) (decided : is_pending r.status ≡ false) where
  other : (q : MoneyRequest) → Other r q → is_pending q.status ≡ true → q.id ≢ r.id
  other q o p e = absurd (ground (arith, o e))

  record_approval-K :
      (env : Env) (caller : Caller) (u : User) (q : MoneyRequest) (t : Transaction)
      → q.id ≢ r.id
      → Keeps (OfRequests (Holds r)) (record_approval env caller u q t)
  unfolding record_approval
  record_approval-K env caller u q t ne =
      let change = update_request-Holds r q.id (approved env t) ne (λ x. refl) in
      Keeps-bind _ _ change λ x. search (keeps_rules, audit-OfRequests)

  answer-K :
      (env : Env) (caller : Caller) (u : User) (q : MoneyRequest) (s : RequestStatus)
      (a : AuditAction)
      → q.id ≢ r.id
      → Keeps (OfRequests (Holds r)) (answer env caller u q s a)
  unfolding answer
  answer-K env caller u q s a ne =
      let change = update_request-Holds r q.id (answered env s) ne (λ x. refl) in
      Keeps-bind _ _ change λ x. search (keeps_rules, audit-OfRequests)

  module _ (env : Env)
      (w : (d : Tables) → OfRequests (Holds r) d → OfRequests (Holds r) (env.while_row d)) where
    -- The guard on the party, the check of the status, and what follows them.
    guarded-K :
        {A : Type 0} (q : MoneyRequest) (b : Bool) (m : Action A)
        → Other r q
        → (q.id ≢ r.id → Keeps (OfRequests (Holds r)) m)
        → Keeps (OfRequests (Holds r)) (
            raise_if b DomainError.request_not_found >>= λ t.
            assert_actionable env.now q >>= λ x. m)
    guarded-K q b m o k =
        Keeps-bind (raise_if b DomainError.request_not_found) _ (Keeps-raise_if b _) λ t.
          Gives-bind (assert_actionable env.now q) _ (assert_actionable-Gives r env.now q)
            λ x p. k (other q o p)

    pub decline-K :
        (caller : Caller) (u : User) (i : ℕ) → Keeps (OfRequests (Holds r)) (decline env caller u i)
    unfolding decline
    decline-K caller u i =
        Gives-bind (lock_request env i u) _ (lock_request-Gives r env i u w)
          λ q o. guarded-K q _ _ o (answer-K env caller u q _ _)

    pub cancel-K :
        (caller : Caller) (u : User) (i : ℕ) → Keeps (OfRequests (Holds r)) (cancel env caller u i)
    unfolding cancel
    cancel-K caller u i =
        Gives-bind (lock_request env i u) _ (lock_request-Gives r env i u w)
          λ q o. guarded-K q _ _ o (answer-K env caller u q _ _)

    module _
        (w' : (d : Tables)
          → OfRequests (Holds r) d
          → OfRequests (Holds r) (env.while_wallets d)) where
      settle_request-K :
          (caller : Caller) (u : User) (q : MoneyRequest)
          → q.id ≢ r.id
          → Keeps (OfRequests (Holds r)) (settle_request env caller u q)
      unfolding settle_request
      settle_request-K caller u q ne =
          let pay = λ (o : Order). execute_transfer-OfRequests (Holds r) env w' caller o false in
          let end = λ (t : Transaction). record_approval-K env caller u q t ne in
          search (keeps_rules, pay, end) depth 10

      pub approve-K :
          (lib : Bcrypt) (caller : Caller) (u : User) (i : ℕ) (pin : Text)
          → Keeps (OfRequests (Holds r)) (approve lib env caller u i pin)
      unfolding approve
      approve-K lib caller u i pin =
          Gives-bind (lock_request env i u) _ (lock_request-Gives r env i u w) λ q o.
            guarded-K q _ _ o λ ne.
              let pay = settle_request-K caller u q ne in
              let refuse = refuse_pin-K r env caller u.id (some (Entity.money_request q.id)) [] in
              Keeps-bind (when _ _) _ (Keeps-when _ _ refuse) λ t. pay

pub create_request-K :
    (r : MoneyRequest) (env : Env) (caller : Caller) (n : NewRequest)
    → Keeps (OfRequests (Holds r)) (create_request env caller n)
unfolding create_request
create_request-K r env caller n =
    search (keeps_rules, insert_request-Holds, audit-OfRequests) depth 12

-- What other transactions commit during a wait leaves the row of a request as it is.
pub record Spares (r : MoneyRequest) (env : Env) : Type 0 where
  pub row : (d : Tables) → OfRequests (Holds r) d → OfRequests (Holds r) (env.while_row d)
  pub wallets : (d : Tables) → OfRequests (Holds r) d → OfRequests (Holds r) (env.while_wallets d)

-- A money request that is no longer pending never changes again: no approval, refusal, withdrawal
-- or new request, by whomever and with whatever outcome, changes its committed row or adds another
-- one with its id.
pub decided_stays :
    (r : MoneyRequest) (lib : Bcrypt) (env : Env) (caller : Caller) (u : User) (i : ℕ) (pin : Text)
    (n : NewRequest) (c : Conn)
    → is_pending r.status ≡ false
    → Spares r env
    → Holds r c.committed.money_requests
    → Holds r (serve (approve lib env caller u i pin) c).1.committed.money_requests
      × Holds r (serve (decline env caller u i) c).1.committed.money_requests
      × Holds r (serve (cancel env caller u i) c).1.committed.money_requests
      × Holds r (serve (create_request env caller n) c).1.committed.money_requests
decided_stays r lib env caller u i pin n c decided s v = (
  (Keeps-serve _ (approve-K r decided env s.row s.wallets lib caller u i pin) c v).0,
  (Keeps-serve _ (decline-K r decided env s.row caller u i) c v).0,
  (Keeps-serve _ (cancel-K r decided env s.row caller u i) c v).0,
  (Keeps-serve _ (create_request-K r env caller n) c v).0,
)
