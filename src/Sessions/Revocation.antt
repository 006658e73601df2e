-- ===== src/Sessions/Revocation.antt =====
-- Logout in app/services/auth_service.py, as app/core/deps.py sees it.
use pstu_hack_final.Common.{ℕ, ◌≡◌, sym, subst, true, some, arith, ◌==◌, ==_iff, find-test}
use pstu_hack_final.Db.Actions.{ok, err, fresh, ◌>>=◌}
use pstu_hack_final.Sessions.Reuse.{find-block_where}
use pstu_hack_final.Errors.{TokenMessage, DomainError, Exn}
use pstu_hack_final.Db.Tables.{has_user, find_session, Conn}
use pstu_hack_final.Models.{Session}
use pstu_hack_final.Db.Checks.{audit_violation}
use pstu_hack_final.Env.{Caller, Env, audit}
use pstu_hack_final.Db.Statements.{block_where, insert_audit, block_sessions}
use pstu_hack_final.Sessions.{get_current_principal, end_session, logout}

-- After a logout, the access tokens of its session are refused at the next request, whichever user
-- they name, though they have not expired.
pub logout_ends_access :
    (env : Env) (caller : Caller) (i user : ℕ) (s : Session) (c : Conn)
    → find_session i c.work.sessions ≡ some s
    → has_user s.user_id c.work.users ≡ true
    → ((logout env caller i c).0 ≡ ok tt)
      × ((get_current_principal user i (fresh (logout env caller i c).1)).0
          ≡ err (Exn.domain (DomainError.invalid_token TokenMessage.session_ended)))
unfolding logout end_session block_sessions audit insert_audit audit_violation get_current_principal
    ◌>>=◌
logout_ends_access env caller i user s c row known =
    let id : s.id ≡ i = (==_iff s.id i).0 (find-test (λ x. x.id == i) _ s row) in
    let row' = subst (λ k. find_session k c.work.sessions ≡ some s) (sym id) row in
    let gone : find_session i (block_where (λ x. x.id == s.id) c.work.sessions)
        ≡ some (record s { is_blocked = true }) =
      subst
        (λ k.
          find_session k (block_where (λ x. x.id == s.id) c.work.sessions)
          ≡ some (record s { is_blocked = true }))
        id (find-block_where s c.work.sessions row') in
    (ground (arith, row, known), ground (arith, row, known, gone))
