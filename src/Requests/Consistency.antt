-- ===== src/Requests/Consistency.antt =====
-- The requests of app/services/request_service.py keep the ledger's invariants.
use pstu_hack_final.Common.{ℕ, false}
use pstu_hack_final.Common.Text.{Text}
use pstu_hack_final.Db.Actions.{wait, serve}
use pstu_hack_final.Transfer.{Order}
use pstu_hack_final.Ledger.Consistency.{Consistent}
use pstu_hack_final.Db.Tables.{Conn}
use pstu_hack_final.Transfer.Consistency.{execute_transfer-Keeps, Respects, refuse_pin-Keeps}
use pstu_hack_final.Env.{Caller, Env}
use pstu_hack_final.Transfer.Outcome.{audit-Keeps}
use pstu_hack_final.Models.{AuditAction, Transaction, User, MoneyRequest, RequestStatus}
use pstu_hack_final.Db.Rules.{
  Keeps-bind, Keeps-serve, Keeps-execute, Keeps-wait, Keeps, keeps_rules,
}
use pstu_hack_final.Security.{Bcrypt}
use pstu_hack_final.Requests.{
  NewRequest, decline, cancel, create_request, effective_status, assert_actionable, lock_request,
  settle_request, answer, record_approval, approve, refuse_status,
}
use pstu_hack_final.Db.Statements.{update_request, insert_request}

insert_request-Keeps : (r : MoneyRequest) → Keeps Consistent (insert_request r)
unfolding insert_request
insert_request-Keeps r = Keeps-execute _ _ (λ d v. v)

update_request-Keeps :
    (i : ℕ) (f : MoneyRequest → MoneyRequest) → Keeps Consistent (update_request i f)
unfolding update_request
update_request-Keeps i f = record { at = λ c v. v }

ruleset request_rules =
    (keeps_rules, audit-Keeps, insert_request-Keeps, update_request-Keeps, refuse_pin-Keeps)

pub lock_request-Keeps :
    (env : Env) (i : ℕ) (u : User) → Respects env → Keeps Consistent (lock_request env i u)
unfolding lock_request
lock_request-Keeps env i u r =
    Keeps-bind (wait env.while_row) _ (Keeps-wait env.while_row r.row) λ t. search keeps_rules

refuse_status-Keeps : (s : RequestStatus) → Keeps Consistent (refuse_status s)
unfolding refuse_status
refuse_status-Keeps RequestStatus.pending = search keeps_rules
refuse_status-Keeps RequestStatus.expired = search keeps_rules
refuse_status-Keeps s = search keeps_rules

pub assert_actionable-Keeps :
    (now : ℕ) (r : MoneyRequest) → Keeps Consistent (assert_actionable now r)
unfolding assert_actionable
assert_actionable-Keeps now r = refuse_status-Keeps (effective_status now r)

record_approval-Keeps :
    (env : Env) (caller : Caller) (u : User) (req : MoneyRequest) (t : Transaction)
    → Keeps Consistent (record_approval env caller u req t)
unfolding record_approval
record_approval-Keeps env caller u req t = search request_rules depth 10

settle_request-Keeps :
    (env : Env) (caller : Caller) (u : User) (req : MoneyRequest)
    → Respects env
    → Keeps Consistent (settle_request env caller u req)
unfolding settle_request
settle_request-Keeps env caller u req r =
    search
      (
        keeps_rules,
        record_approval-Keeps,
        λ (o : Order). execute_transfer-Keeps env caller o false r,
      )
      depth 10

pub answer-Keeps :
    (env : Env) (caller : Caller) (u : User) (req : MoneyRequest) (s : RequestStatus)
    (a : AuditAction)
    → Keeps Consistent (answer env caller u req s a)
unfolding answer
answer-Keeps env caller u req s a = search request_rules depth 10

pub approve-Keeps :
    (lib : Bcrypt) (env : Env) (caller : Caller) (u : User) (i : ℕ) (pin : Text)
    → Respects env
    → Keeps Consistent (approve lib env caller u i pin)
unfolding approve
approve-Keeps lib env caller u i pin r =
    let settles = λ (q : MoneyRequest). settle_request-Keeps env caller u q r in
    Keeps-bind (lock_request env i u) _ (lock_request-Keeps env i u r)
      λ q. search (keeps_rules, refuse_pin-Keeps, assert_actionable-Keeps, settles) depth 12

-- A request that approves a money request leaves the committed tables consistent, whatever its
-- outcome, if the transactions that commit while it waits keep them so.
pub approve-Consistent :
    (lib : Bcrypt) (env : Env) (caller : Caller) (u : User) (i : ℕ) (pin : Text) (c : Conn)
    → Respects env
    → Consistent c.committed
    → Consistent (serve (approve lib env caller u i pin) c).1.committed
approve-Consistent lib env caller u i pin c r v =
    (Keeps-serve (approve lib env caller u i pin) (approve-Keeps lib env caller u i pin r) c v).0

pub create_request-Keeps :
    (env : Env) (caller : Caller) (n : NewRequest) → Keeps Consistent (create_request env caller n)
unfolding create_request
create_request-Keeps env caller n = search request_rules depth 14

pub decline-Keeps :
    (env : Env) (caller : Caller) (u : User) (i : ℕ)
    → Respects env
    → Keeps Consistent (decline env caller u i)
unfolding decline
decline-Keeps env caller u i r =
    Keeps-bind (lock_request env i u) _ (lock_request-Keeps env i u r)
      λ q. search (keeps_rules, assert_actionable-Keeps, answer-Keeps) depth 10

pub cancel-Keeps :
    (env : Env) (caller : Caller) (u : User) (i : ℕ)
    → Respects env
    → Keeps Consistent (cancel env caller u i)
unfolding cancel
cancel-Keeps env caller u i r =
    Keeps-bind (lock_request env i u) _ (lock_request-Keeps env i u r)
      λ q. search (keeps_rules, assert_actionable-Keeps, answer-Keeps) depth 10
