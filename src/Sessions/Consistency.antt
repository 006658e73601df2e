-- ===== src/Sessions/Consistency.antt =====
-- Logins and sessions of app/services/auth_service.py change users, sessions and the audit log alone.
use pstu_hack_final.Common.{ℕ, ◌+◌, inl, inr, Bool, Option, none, some, List, ◌∷◌, leb, Bool-cases}
use pstu_hack_final.Common.Text.{Text}
use pstu_hack_final.Db.Actions.{wait}
use pstu_hack_final.Env.Rules.{Keeps-audit}
use pstu_hack_final.Db.Tables.{Tables}
use pstu_hack_final.Env.{audit, Caller, Env}
use pstu_hack_final.Security.{Bcrypt, TokenLib}
use pstu_hack_final.Db.Rules.{Keeps-wait, Keeps-bind, Keeps-execute, Keeps, keeps_rules}
use pstu_hack_final.Db.Statements.{block_sessions, insert_session, update_user}
use pstu_hack_final.Sessions.{
  issue_tokens, lock_session, logout, rotate_tokens, revoke_family, end_session, refuse_reuse,
  replace_session,
}
use pstu_hack_final.Auth.{write_user, max_failed_logins, authenticate, fail_login, fail_unknown}
use pstu_hack_final.Models.{Meta, Entity, AuditAction, AuditLog, User, Session}

-- The property asks nothing of users and sessions, and admits a new row of the audit log.
pub record Free (Q : Tables → Type 0) : Type 0 where
  pub rows :
      (d : Tables) (u : List User) (s : List Session)
      → Q d
      → Q (record d { users = u; sessions = s })
  pub log : (d : Tables) (a : AuditLog) → Q d → Q (record d { audit_log = a ∷ d.audit_log })

module _ {Q : Tables → Type 0} (free : Free Q) where
  update_user-Keeps : (i : ℕ) (f : User → User) → Keeps Q (update_user i f)
  unfolding update_user
  update_user-Keeps i f = record { at = λ c v. (v.0, free.rows _ _ _ v.1) }

  insert_session-Keeps : (s : Session) → Keeps Q (insert_session s)
  unfolding insert_session
  insert_session-Keeps s = Keeps-execute _ _ (λ d v. free.rows _ _ _ v)

  block_sessions-Keeps : (p : Session → Bool) → Keeps Q (block_sessions p)
  unfolding block_sessions
  block_sessions-Keeps p = record { at = λ c v. (v.0, free.rows _ _ _ v.1) }

  audit-Keeps :
      (env : Env) (action : AuditAction) (actor : Option ℕ) (entity : Option Entity)
      (caller : Caller) (meta : Meta)
      → Keeps Q (audit env action actor entity caller meta)
  audit-Keeps env action actor entity caller meta =
      Keeps-audit env _ _ _ caller _ (λ d a v. free.log _ _ v)

  ruleset session_rules =
      (keeps_rules, audit-Keeps, update_user-Keeps, insert_session-Keeps, block_sessions-Keeps)

  write_user-Keeps :
      (env : Env) (i : ℕ) (f : User → User)
      → ((d : Tables) → Q d → Q (env.while_row d))
      → Keeps Q (write_user env i f)
  unfolding write_user
  write_user-Keeps env i f r =
      Keeps-bind (wait env.while_row) _ (Keeps-wait env.while_row r) λ t. update_user-Keeps i f

  fail_login-Keeps :
      (env : Env) (caller : Caller) (u : User)
      → ((d : Tables) → Q d → Q (env.while_row d))
      → Keeps Q (fail_login env caller u)
  unfolding fail_login
  fail_login-Keeps env caller u r =
      elim (Bool-cases (leb max_failed_logins (u.failed_login_count + 1))) [
        | inl e ↦
            rw e (Keeps-bind _ _ (write_user-Keeps env u.id _ r) λ t. search session_rules depth 10)
        | inr e ↦
            rw e (Keeps-bind _ _ (write_user-Keeps env u.id _ r) λ t. search session_rules depth 10)
      ]

  fail_unknown-Keeps :
      (env : Env) (caller : Caller) (p : Text) → Keeps Q (fail_unknown env caller p)
  unfolding fail_unknown
  fail_unknown-Keeps env caller p = search session_rules depth 10

  pub authenticate-Keeps :
      (lib : Bcrypt) (env : Env) (caller : Caller) (phone password : Text)
      → ((d : Tables) → Q d → Q (env.while_row d))
      → Keeps Q (authenticate lib env caller phone password)
  unfolding authenticate
  authenticate-Keeps lib env caller phone password r =
      let fails = λ (u : User). fail_login-Keeps env caller u r in
      let writes = λ (i : ℕ) (f : User → User). write_user-Keeps env i f r in
      search (session_rules, fails, writes, fail_unknown-Keeps) depth 20

  pub issue_tokens-Keeps :
      (lib : TokenLib) (env : Env) (caller : Caller) (u : User)
      → Keeps Q (issue_tokens lib env caller u)
  unfolding issue_tokens
  issue_tokens-Keeps lib env caller u = search session_rules depth 8

  revoke_family-Keeps : (f : ℕ) → Keeps Q (revoke_family f)
  unfolding revoke_family
  revoke_family-Keeps f = block_sessions-Keeps _

  refuse_reuse-Keeps :
      (env : Env) (caller : Caller) (s : Session) (t : Text) → Keeps Q (refuse_reuse env caller s t)
  unfolding refuse_reuse
  refuse_reuse-Keeps env caller s t = search (session_rules, revoke_family-Keeps) depth 10

  lock_session-Keeps :
      (env : Env) (i : ℕ)
      → ((d : Tables) → Q d → Q (env.while_row d))
      → Keeps Q (lock_session env i)
  unfolding lock_session
  lock_session-Keeps env i r =
      Keeps-bind (wait env.while_row) _ (Keeps-wait env.while_row r) λ t. search keeps_rules

  replace_session-Keeps :
      (lib : TokenLib) (env : Env) (caller : Caller) (s : Session) (u : User)
      → Keeps Q (replace_session lib env caller s u)
  unfolding replace_session
  replace_session-Keeps lib env caller s u = search session_rules depth 12

  pub rotate_tokens-Keeps :
      (lib : TokenLib) (env : Env) (caller : Caller) (raw : Text)
      → ((d : Tables) → Q d → Q (env.while_row d))
      → Keeps Q (rotate_tokens lib env caller raw)
  unfolding rotate_tokens
  rotate_tokens-Keeps lib env caller raw r =
      search
        (
          keeps_rules,
          refuse_reuse-Keeps,
          replace_session-Keeps,
          λ (i : ℕ). lock_session-Keeps env i r,
        )
        depth 20

  end_session-Keeps :
      (env : Env) (caller : Caller) (s : Option Session) → Keeps Q (end_session env caller s)
  unfolding end_session
  end_session-Keeps env caller none = search keeps_rules
  end_session-Keeps env caller (some s) = search session_rules depth 10

  pub logout-Keeps : (env : Env) (caller : Caller) (i : ℕ) → Keeps Q (logout env caller i)
  unfolding logout
  logout-Keeps env caller i = search (keeps_rules, end_session-Keeps)
