-- ===== src/Api/Listing.antt =====
-- The status that app/routers/requests.py shows of a money request against what may be done with it.
use pstu_hack_final.Common.{
  ℕ, ◌≡◌, refl, subst, ◌↔◌, inl, inr, some, arith, if◌then◌else◌, Option-cases,
}
use pstu_hack_final.Db.Actions.{ok, pure, raise}
use pstu_hack_final.Db.Tables.{find_user, Tables, Conn}
use pstu_hack_final.Api.MoneyRequests.{is_incoming, MoneyRequestOut, request_out}
use pstu_hack_final.Requests.{effective_status, assert_actionable, refuse_status}
use pstu_hack_final.Models.{MoneyRequest, RequestStatus, User}

refuse_status-ok :
    (s : RequestStatus) (c : Conn) → (s ≡ RequestStatus.pending) ↔ (refuse_status s c ≡ (ok tt, c))
unfolding refuse_status pure raise
refuse_status-ok RequestStatus.pending c = (λ h. refl, λ h. refl)
refuse_status-ok s c = (λ h. cc, λ h. cc)

-- A request is shown as pending exactly when an answer to it at that time would not be refused for its status or its expiry.
pub request_out-assert_actionable :
    (now : ℕ) (r : MoneyRequest) (viewer : User) (d : Tables) (out : MoneyRequestOut) (c : Conn)
    → request_out now r viewer d ≡ some out
    → (out.status ≡ RequestStatus.pending) ↔ (assert_actionable now r c ≡ (ok tt, c))
unfolding request_out assert_actionable
request_out-assert_actionable now r viewer d out c h =
    let other = if is_incoming r viewer then r.requester_id else r.payer_id in
    let same : effective_status now r ≡ out.status = elim (Option-cases (find_user other d.users)) [
      | inl e ↦ absurd (ground (arith, e))
      | inr (u, e) ↦ ground (arith, e)
    ] in
    subst
      (λ s. (s ≡ RequestStatus.pending) ↔ (refuse_status (effective_status now r) c ≡ (ok tt, c)))
      same (refuse_status-ok (effective_status now r) c)
