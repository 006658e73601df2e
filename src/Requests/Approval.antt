-- ===== src/Requests/Approval.antt =====
-- What an approval of app/services/request_service.py that returns has done.
use pstu_hack_final.Common.{
  ℕ, ◌<◌, ◌≡◌, sym, ap, subst, ◌∙◌, inl, inr, Bool, true, false, some, [], ◌∷◌, ◌++◌, arith,
  Bool-cases, Option-cases,
}
use pstu_hack_final.Common.Text.{Text}
use pstu_hack_final.Db.Actions.{ok, ◌>>=◌}
use pstu_hack_final.Transfer.Pin.{refuse_pin-raises}
use pstu_hack_final.Transfer.Effect.{transfer_moves, Transferred}
use pstu_hack_final.Security.{verify_secret, Bcrypt}
use pstu_hack_final.Db.Rules.{Result-cases}
use pstu_hack_final.Transfer.Outcome.{OnlyAudit}
use pstu_hack_final.Transfer.{execute_transfer}
use pstu_hack_final.Db.Tables.{find_user, Lock, Conn}
use pstu_hack_final.Db.Statements.{change_request, insert_audit, update_request}
use pstu_hack_final.Models.{Entity, RequestStatus, Transaction, MoneyRequest, User}
use pstu_hack_final.Env.{audit, Caller, Env}
use pstu_hack_final.Requests.{
  approve, settlement_order, approved, find_party, effective_status, refuse_status, settle_request,
  record_approval, lock_request, assert_actionable,
}

-- The connection once the request's row is locked.
abbrev pub locked : Env → MoneyRequest → Conn → Conn
locked env q c = record c {
  committed = env.while_row c.committed;
  work = env.while_row c.work;
  locks = c.locks ++ (Lock.request q.id ∷ []);
}

pub lock_request-ok :
    (env : Env) (i : ℕ) (u : User) (c c' : Conn) (q : MoneyRequest)
    → lock_request env i u c ≡ (ok q, c')
    → (find_party i u.id (env.while_row c.work).money_requests ≡ some q) × (c' ≡ locked env q c)
unfolding lock_request ◌>>=◌
lock_request-ok env i u c c' q h =
    elim (Option-cases (find_party i u.id (env.while_row c.work).money_requests)) [
      | inl e ↦ absurd (ground (arith, e))
      | inr (x, e) ↦ (ground (arith, e), ground (arith, e))
    ]

pub assert_actionable-ok :
    (now : ℕ) (q : MoneyRequest) (c c' : Conn)
    → assert_actionable now q c ≡ (ok tt, c')
    → (q.status ≡ RequestStatus.pending) × (now < q.expires_at) × (c' ≡ c)
unfolding assert_actionable refuse_status effective_status ◌>>=◌
assert_actionable-ok now q c c' h = ground arith

record_approval-ok :
    (env : Env) (caller : Caller) (u : User) (q : MoneyRequest) (t : Transaction) (c c' : Conn)
    (x : MoneyRequest × Transaction)
    → record_approval env caller u q t c ≡ (ok x, c')
    → (x ≡ (approved env t q, t))
      × (c'.committed ≡ c'.work)
      × OnlyAudit
          (record c.work {
            money_requests = change_request q.id (approved env t) c.work.money_requests;
          })
          c'.work
unfolding record_approval update_request audit insert_audit ◌>>=◌
record_approval-ok env caller u q t c c' x h = ground arith

-- A settlement: the payment, then the change of the row, committed together.
pub record Settled (env : Env) (caller : Caller) (u : User) (q : MoneyRequest) (c : Conn)
    (t : Transaction) (c' : Conn) : Type 0 where
  pub requester : User
  pub replay : Bool
  pub paid : Conn
  pub known : find_user q.requester_id c.work.users ≡ some requester
  pub active : requester.is_active ≡ true
  pub payment :
      execute_transfer env caller (settlement_order u requester q) false c ≡ (ok (t, replay), paid)
  pub committed : c'.committed ≡ c'.work
  pub after :
      OnlyAudit
        (record paid.work {
          money_requests = change_request q.id (approved env t) paid.work.money_requests;
        })
        c'.work

pub settle_request-Settled :
    (env : Env) (caller : Caller) (u : User) (q : MoneyRequest) (c c' : Conn) (r : MoneyRequest)
    (t : Transaction)
    → settle_request env caller u q c ≡ (ok (r, t), c')
    → (r ≡ approved env t q) × Settled env caller u q c t c'
unfolding settle_request ◌>>=◌
settle_request-Settled env caller u q c c' r t h =
    elim (Option-cases (find_user q.requester_id c.work.users)) [
      | inl e ↦ absurd (ground (arith, e))
      | inr (v, e) ↦
          let pay = execute_transfer env caller (settlement_order u v q) false c in
          elim (Bool-cases v.is_active) [
            | inr off ↦ absurd (ground (arith, e, off))
            | inl on ↦ elim (Result-cases pay.0) [
              | inr (y, f) ↦ absurd (ground (arith, e, on, f))
              | inl (p, f) ↦
                  let k =
                    record_approval-ok env caller u q p.0 pay.1 c' (r, t)
                      (ground (arith, e, on, f)) in
                  let same : p.0 ≡ t = sym (ap (λ (y : MoneyRequest × Transaction). y.1) k.0) in
                  subst (λ y. (r ≡ approved env y q) × Settled env caller u q c y c') same
                    (
                      ap (λ (y : MoneyRequest × Transaction). y.0) k.0,
                      record {
                        requester = v;
                        replay = p.1;
                        paid = pay.1;
                        known = e;
                        active = on;
                        payment = λ i. (f i, pay.1);
                        committed = k.1;
                        after = k.2;
                      },
                    )
            ]
          ]
    ]

-- What an approval that returns has checked, before it settles.
record Checked (lib : Bcrypt) (env : Env) (caller : Caller) (u : User) (i : ℕ) (pin : Text)
    (c : Conn) (r : MoneyRequest) (t : Transaction) (c' : Conn) : Type 0 where
  request : MoneyRequest
  row : find_party i u.id (env.while_row c.work).money_requests ≡ some request
  payer : request.payer_id ≡ u.id
  pending : request.status ≡ RequestStatus.pending
  unexpired : env.now < request.expires_at
  authorised : verify_secret lib pin (some u.pin_hash) ≡ true
  run : settle_request env caller u request (locked env request c) ≡ (ok (r, t), c')

approve-Checked :
    (lib : Bcrypt) (env : Env) (caller : Caller) (u : User) (i : ℕ) (pin : Text) (c c' : Conn)
    (r : MoneyRequest) (t : Transaction)
    → approve lib env caller u i pin c ≡ (ok (r, t), c')
    → Checked lib env caller u i pin c r t c'
unfolding approve ◌>>=◌
approve-Checked lib env caller u i pin c c' r t h =
    let lock = lock_request env i u c in
    elim (Result-cases lock.0) [
      | inr (x, e) ↦ absurd (ground (arith, e))
      | inl (q, e) ↦
          let l = lock_request-ok env i u c lock.1 q (λ j. (e j, lock.1)) in
          let check = assert_actionable env.now q lock.1 in
          let (x, bad) =
            refuse_pin-raises env caller u.id (some (Entity.money_request q.id)) [] check.1 in
          elim (Result-cases check.0) [
            | inr (y, f) ↦ absurd (ground (arith, e, f))
            | inl (y, f) ↦
                let a = assert_actionable-ok env.now q lock.1 check.1 (λ j. (f j, check.1)) in
                elim (Bool-cases (verify_secret lib pin (some u.pin_hash))) [
                  | inr wrong ↦ absurd (ground (arith, e, f, wrong, bad))
                  | inl right ↦ record {
                    request = q;
                    row = l.0;
                    payer = ground (arith, e);
                    pending = a.0;
                    unexpired = a.1;
                    authorised = right;
                    run =
                        subst (λ k. settle_request env caller u q k ≡ (ok (r, t), c')) {x = check.1}
                          {y = locked env q c} (a.2 ∙ l.1) (ground (arith, e, f, right));
                  }
                ]
          ]
    ]

-- An approval that was carried out.
pub record Approved (lib : Bcrypt) (env : Env) (caller : Caller) (u : User) (i : ℕ) (pin : Text)
    (c : Conn) (r : MoneyRequest) (t : Transaction) (c' : Conn) : Type 0 where
  pub request : MoneyRequest
  pub row : find_party i u.id (env.while_row c.work).money_requests ≡ some request
  pub payer : request.payer_id ≡ u.id
  pub pending : request.status ≡ RequestStatus.pending
  pub unexpired : env.now < request.expires_at
  pub authorised : verify_secret lib pin (some u.pin_hash) ≡ true
  pub answer : r ≡ approved env t request
  pub settled : Settled env caller u request (locked env request c) t c'
  pub moved :
      settled.replay ≡ false
      → Transferred env
          (settlement_order u settled.requester request)
          false
          (locked env request c)
          t
          settled.paid

-- An approval that returns was made by the request's payer with the PIN, on a request that was
-- pending and not past its expiry when its row was locked. The amount of the request has moved
-- from the payer's wallet to the requester's, unless its settlement key had been used; the row is
-- marked approved with the transaction, and both are committed.
pub approve_pays :
    (lib : Bcrypt) (env : Env) (caller : Caller) (u : User) (i : ℕ) (pin : Text) (c c' : Conn)
    (r : MoneyRequest) (t : Transaction)
    → approve lib env caller u i pin c ≡ (ok (r, t), c')
    → Approved lib env caller u i pin c r t c'
approve_pays lib env caller u i pin c c' r t h =
    let k = approve-Checked lib env caller u i pin c c' r t h in
    let start = locked env k.request c in
    let (answer, s) = settle_request-Settled env caller u k.request start c' r t k.run in
    let o = settlement_order u s.requester k.request in
    record {
      request = k.request;
      row = k.row;
      payer = k.payer;
      pending = k.pending;
      unexpired = k.unexpired;
      authorised = k.authorised;
      answer = answer;
      settled = s;
      moved = λ fresh. transfer_moves env caller o false start s.paid t (
          subst (λ b. execute_transfer env caller o false start ≡ (ok (t, b), s.paid)) fresh
            s.payment);
    }
