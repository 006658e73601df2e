-- ===== src/Requests/Trail.antt =====
-- The audit trail of a refused approval of app/services/request_service.py.
use pstu_hack_final.Common.{
  ℕ, ◌≡◌, refl, ap, subst, ◌∙◌, inl, inr, false, Option, none, some, List, [], ◌∷◌, arith, ◌==◌,
  Bool-cases, Option-cases,
}
use pstu_hack_final.Common.Int.{ℤ}
use pstu_hack_final.Common.Text.{Text}
use pstu_hack_final.Db.Actions.{Result, ok, err, savepoint, fresh, ◌>>=◌}
use pstu_hack_final.Transfer.Pin.{refuse_pin-raises}
use pstu_hack_final.Requests.Approval.{locked, assert_actionable-ok, lock_request-ok}
use pstu_hack_final.Security.{verify_secret, Bcrypt}
use pstu_hack_final.Requests.{
  settlement_order, effective_status, find_party, refuse_status, assert_actionable, settle_request,
  lock_request, approve, record_approval,
}
use pstu_hack_final.Transfer.Outcome.{audit-Uncommitted, move_money-Uncommitted}
use pstu_hack_final.Transfer.Payment.{waited}
use pstu_hack_final.Db.Rules.{Result-cases, Uncommitted}
use pstu_hack_final.Errors.{Constraint, DomainError, Exn}
use pstu_hack_final.Db.Tables.{Tables, has_user, find_user, wallet_of, Conn}
use pstu_hack_final.Models.{AuditLog, MoneyRequest, User, Meta, Transaction, Entity, AuditAction}
use pstu_hack_final.Db.Checks.{audit_violation}
use pstu_hack_final.Db.Statements.{update_request, insert_audit}
use pstu_hack_final.Env.{clip_agent, Caller, Env, audit}
use pstu_hack_final.Transfer.{
  rejected_meta, refuse_pin, find_replay, move_money, Order, assert_same_request, replay_or_new,
  execute_new, settle, execute_transfer,
}

abbrev short : Option ℤ → Exn
short a = Exn.domain (DomainError.insufficient_funds a)

settle-Uncommitted :
    (env : Env) (caller : Caller) (o : Order) (dst : ℕ) (r : Result Transaction)
    → Uncommitted (settle env caller o dst false r)
unfolding settle assert_same_request ◌>>=◌
settle-Uncommitted env caller o dst (ok t) c = refl
settle-Uncommitted env caller o dst (err (Exn.domain (DomainError.insufficient_funds a))) c =
    grind (arith, audit-Uncommitted)
settle-Uncommitted env caller o dst (err (Exn.integrity Constraint.uq_idem)) c = ground arith
settle-Uncommitted env caller o dst (err e) c = ground arith

execute_new-committed :
    (env : Env) (caller : Caller) (o : Order) (src dst : ℕ) (c : Conn)
    → (execute_new env caller o src dst false c).1.committed ≡ env.while_wallets c.committed
unfolding execute_new savepoint ◌>>=◌
execute_new-committed env caller o src dst c =
    let m = move_money env caller o src dst (waited env c) in
    let u = move_money-Uncommitted env caller o src dst (waited env c) in
    let back = record m.1 { work = env.while_wallets c.work; locks = c.locks } in
    elim (Result-cases m.0) [
      | inl (t, e) ↦ ground (arith, e, u, settle-Uncommitted env caller o dst (ok t) m.1)
      | inr (x, e) ↦ ground (arith, e, u, settle-Uncommitted env caller o dst (err x) back)
    ]

-- The transaction has the audit row of a refused transfer of the user, if the refusal says what the
-- balance is.
abbrev pub IsLogged : ℕ → Option ℤ → Conn → Type 0
IsLogged u a c =
    (b : ℤ)
    → a ≡ some b
    → (r : AuditLog) × (rest : List AuditLog) × (c.work.audit_log ≡ r ∷ rest)
      × (r.action ≡ AuditAction.transfer_rejected)
      × (r.actor_user_id ≡ some u)

abbrev rejection : Env → Caller → Order → ℕ → AuditLog
rejection env caller o id = record {
  id = id;
  actor_user_id = some o.sender.id;
  action = AuditAction.transfer_rejected;
  entity = none;
  ip_address = caller.ip;
  user_agent = clip_agent caller.user_agent;
  metadata = rejected_meta o;
  created_at = env.now;
}

settle-IsLogged :
    (env : Env) (caller : Caller) (o : Order) (dst : ℕ) (r : Result Transaction) (c c' : Conn)
    (a : Option ℤ)
    → settle env caller o dst false r c ≡ (err (Exn.domain (DomainError.insufficient_funds a)), c')
    → IsLogged o.sender.id a c'
unfolding settle assert_same_request audit insert_audit audit_violation ◌>>=◌
settle-IsLogged env caller o dst (ok t) c c' a h b k = absurd (ground (arith, h))
settle-IsLogged env caller o dst (err (Exn.domain (DomainError.insufficient_funds x))) c c' a h b
      k =
    elim (Bool-cases (has_user o.sender.id c.work.users)) [
      | inl known ↦ (
        rejection env caller o c.audit_seq,
        c.work.audit_log,
        ground (arith, h, known),
        refl,
        refl,
      )
      | inr unknown ↦ absurd (ground (arith, h, unknown))
    ]
settle-IsLogged env caller o dst (err (Exn.integrity Constraint.uq_idem)) c c' a h b k =
    absurd (ground (arith, h, k))
settle-IsLogged env caller o dst (err (Exn.integrity Constraint.no_overdraft)) c c' a h b k =
    absurd (ground (arith, h, k))
settle-IsLogged env caller o dst (err e) c c' a h b k = absurd (ground (arith, h, k))

execute_new-IsLogged :
    (env : Env) (caller : Caller) (o : Order) (src dst : ℕ) (c c' : Conn) (a : Option ℤ)
    → execute_new env caller o src dst false c
      ≡ (err (Exn.domain (DomainError.insufficient_funds a)), c')
    → IsLogged o.sender.id a c'
unfolding execute_new savepoint ◌>>=◌
execute_new-IsLogged env caller o src dst c c' a h =
    let m = move_money env caller o src dst (waited env c) in
    let back = record m.1 { work = env.while_wallets c.work; locks = c.locks } in
    elim (Result-cases m.0) [
      | inl (t, e) ↦ settle-IsLogged env caller o dst (ok t) m.1 c' a (ground (arith, e, h))
      | inr (x, e) ↦ settle-IsLogged env caller o dst (err x) back c' a (ground (arith, e, h))
    ]

-- What is committed is what the others left, and the row of the refusal is in the transaction.
abbrev Lost : Tables → ℕ → Option ℤ → Conn → Type 0
Lost left u a c' = (c'.committed ≡ left) × IsLogged u a c'

-- A transfer within a larger transaction that lacks funds commits nothing of its own.
execute_transfer-short :
    (env : Env) (caller : Caller) (o : Order) (c c' : Conn) (a : Option ℤ)
    → execute_transfer env caller o false c
      ≡ (err (Exn.domain (DomainError.insufficient_funds a)), c')
    → Lost (env.while_wallets c.committed) o.sender.id a c'
unfolding execute_transfer replay_or_new assert_same_request ◌>>=◌
execute_transfer-short env caller o c c' a h =
    elim (Option-cases (wallet_of o.sender.id c.work.wallets)) [
      | inl e ↦ absurd (ground (arith, e))
      | inr (src, es) ↦ elim (Option-cases (wallet_of o.recipient.id c.work.wallets)) [
        | inl e ↦ absurd (ground (arith, es, e))
        | inr (dst, ed) ↦ elim (Option-cases (find_replay o.sender.id o.idempotency_key c.work)) [
          | inr (t, found) ↦ absurd (ground (arith, es, ed, found))
          | inl fresh ↦ elim (Bool-cases (o.recipient.id == o.sender.id)) [
            | inl self ↦ absurd (ground (arith, es, ed, fresh, self))
            | inr other ↦
                let run : execute_new env caller o src.id dst.id false c ≡ (err (short a), c') =
                  ground (arith, es, ed, fresh, other, h) in
                (
                  subst (λ (z : Conn). z.committed ≡ env.while_wallets c.committed)
                      (ap (λ z. z.1) run) (execute_new-committed env caller o src.id dst.id c),
                  execute_new-IsLogged env caller o src.id dst.id c c' a run,
                )
          ]
        ]
      ]
    ]

-- An audit insert can only fail on its foreign key.
audit-err :
    (env : Env) (action : AuditAction) (actor : Option ℕ) (entity : Option Entity) (caller : Caller)
    (meta : Meta) (c : Conn) (x : Exn)
    → (audit env action actor entity caller meta c).0 ≡ err x
    → x ≡ Exn.integrity Constraint.audit_log_actor_user_id_fkey
unfolding audit insert_audit audit_violation
audit-err env action actor entity caller meta c x h = ground arith

record_approval-short :
    (env : Env) (caller : Caller) (u : User) (q : MoneyRequest) (t : Transaction) (c c' : Conn)
    (a : Option ℤ)
    → ¬ (record_approval env caller u q t c ≡ (err (short a), c'))
unfolding record_approval update_request audit insert_audit audit_violation ◌>>=◌
record_approval-short env caller u q t c c' a h = ground arith

settle_request-short :
    (env : Env) (caller : Caller) (u : User) (q : MoneyRequest) (c c' : Conn) (a : Option ℤ)
    → settle_request env caller u q c ≡ (err (short a), c')
    → Lost (env.while_wallets c.committed) u.id a c'
unfolding settle_request ◌>>=◌
settle_request-short env caller u q c c' a h =
    elim (Option-cases (find_user q.requester_id c.work.users)) [
      | inl e ↦ absurd (ground (arith, e))
      | inr (v, e) ↦
          let o = settlement_order u v q in
          let pay = execute_transfer env caller o false c in
          elim (Bool-cases v.is_active) [
            | inr off ↦ absurd (ground (arith, e, off))
            | inl on ↦ elim (Result-cases pay.0) [
              | inr (y, f) ↦ execute_transfer-short env caller o c c' a (ground (arith, e, on, f))
              | inl (p, f) ↦
                  absurd
                    (record_approval-short env caller u q p.0 pay.1 c' a (ground (arith, e, on, f)))
            ]
          ]
    ]

refuse_pin-short :
    (env : Env) (caller : Caller) (u : ℕ) (e : Option Entity) (m : Meta) (c c' : Conn)
    (a : Option ℤ)
    → ¬ (refuse_pin env caller u e m c ≡ (err (short a), c'))
unfolding refuse_pin audit insert_audit audit_violation ◌>>=◌
refuse_pin-short env caller u e m c c' a h = ground arith

lock_request-short :
    (env : Env) (i : ℕ) (u : User) (c c' : Conn) (a : Option ℤ)
    → ¬ (lock_request env i u c ≡ (err (short a), c'))
unfolding lock_request ◌>>=◌
lock_request-short env i u c c' a h =
    elim (Option-cases (find_party i u.id (env.while_row c.work).money_requests)) [
      | inl e ↦ ground (arith, e)
      | inr (x, e) ↦ ground (arith, e)
    ]

assert_actionable-short :
    (now : ℕ) (q : MoneyRequest) (c c' : Conn) (a : Option ℤ)
    → ¬ (assert_actionable now q c ≡ (err (short a), c'))
unfolding assert_actionable refuse_status effective_status ◌>>=◌
assert_actionable-short now q c c' a h = ground arith

-- An approval that is refused for lack of funds commits nothing: what is committed is what other transactions left. Where the refusal says what the balance is, the audit row of the refused transfer is the newest one that the transaction has, and it is lost with the transaction.
pub refused_approval_leaves_no_trail :
    (lib : Bcrypt) (env : Env) (caller : Caller) (u : User) (i : ℕ) (pin : Text) (c c' : Conn)
    (a : Option ℤ)
    → approve lib env caller u i pin c ≡ (err (Exn.domain (DomainError.insufficient_funds a)), c')
    → (c'.committed ≡ env.while_wallets (env.while_row c.committed))
      × ((b : ℤ)
          → a ≡ some b
          → (r : AuditLog) × (rest : List AuditLog) × (c'.work.audit_log ≡ r ∷ rest)
            × (r.action ≡ AuditAction.transfer_rejected)
            × (r.actor_user_id ≡ some u.id))
unfolding approve ◌>>=◌
refused_approval_leaves_no_trail lib env caller u i pin c c' a h =
    let lock = lock_request env i u c in
    elim (Result-cases lock.0) [
      | inr (x, e) ↦ absurd (lock_request-short env i u c lock.1 a (ground (arith, e)))
      | inl (q, e) ↦
          let l = lock_request-ok env i u c lock.1 q (λ j. (e j, lock.1)) in
          let check = assert_actionable env.now q lock.1 in
          let refuse = refuse_pin env caller u.id (some (Entity.money_request q.id)) [] in
          let (x, bad) =
            refuse_pin-raises env caller u.id (some (Entity.money_request q.id)) [] check.1 in
          elim (Result-cases check.0) [
            | inr (y, f) ↦
                absurd (assert_actionable-short env.now q lock.1 check.1 a (ground (arith, e, f)))
            | inl (y, f) ↦
                let k = assert_actionable-ok env.now q lock.1 check.1 (λ j. (f j, check.1)) in
                elim (Bool-cases (verify_secret lib pin (some u.pin_hash))) [
                  | inr wrong ↦ absurd (
                      refuse_pin-short env caller u.id (some (Entity.money_request q.id)) [] check.1
                        (refuse check.1).1 a (ground (arith, e, f, wrong, bad)))
                  | inl right ↦ settle_request-short env caller u q (locked env q c) c' a (
                      subst (λ z. settle_request env caller u q z ≡ (err (short a), c'))
                        {x = check.1} {y = locked env q c} (k.2 ∙ l.1)
                        (ground (arith, e, f, right)))
                ]
          ]
    ]
