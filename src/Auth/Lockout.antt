-- ===== src/Auth/Lockout.antt =====
-- The lockout of `authenticate` in app/services/auth_service.py.
use pstu_hack_final.Common.{ℕ, ◌+◌, ◌≡◌, none, arith, leb, if◌then◌else◌}
use pstu_hack_final.Common.Text.{Text}
use pstu_hack_final.Db.Actions.{err, ◌>>=◌}
use pstu_hack_final.Db.Checks.{audit_violation}
use pstu_hack_final.Db.Statements.{insert_audit}
use pstu_hack_final.Security.{Bcrypt}
use pstu_hack_final.Env.{Caller, Env, audit}
use pstu_hack_final.Db.Tables.{find_phone, Conn}
use pstu_hack_final.Errors.{Exn, DomainError}
use pstu_hack_final.Auth.{
  count_failure, lock_out, lockout_minutes, fail_unknown, max_failed_logins, authenticate,
}
use pstu_hack_final.Models.{User}

-- What a wrong password does to the user's row.
abbrev pub after_failure : ℕ → User → User → User
after_failure now u =
    if leb max_failed_logins (u.failed_login_count + 1)
    then lock_out now
    else count_failure u.failed_login_count

abbrev pub failure_error : User → DomainError
failure_error u =
    if leb max_failed_logins (u.failed_login_count + 1)
    then DomainError.account_locked lockout_minutes
    else DomainError.invalid_credentials

-- A login with a phone that nobody has registered is refused as a wrong password is, and never as
-- a locked account is.
pub unknown_phone_refused :
    (lib : Bcrypt) (env : Env) (caller : Caller) (phone password : Text) (c : Conn)
    → find_phone phone c.work.users ≡ none
    → ((authenticate lib env caller phone password c).0
        ≡ err (Exn.domain DomainError.invalid_credentials))
      × ((authenticate lib env caller phone password c).1.committed.users ≡ c.work.users)
unfolding authenticate fail_unknown audit insert_audit audit_violation ◌>>=◌
unknown_phone_refused lib env caller phone password c absent =
    (ground (arith, absent), ground (arith, absent))
