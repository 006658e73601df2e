-- ===== src/Sessions.antt =====
-- app/services/auth_service.py: the tokens of a login, their rotation and logout, and the check of
-- the caller in app/core/deps.py.
pub mod Rotation
pub mod Reuse
pub mod Revocation
pub mod Consistency
use pstu_hack_final.Common.{ℕ, ◌+◌, ◌*◌, false, not, Option, none, some, [], ◌∷◌, leb, ◌==◌}
use pstu_hack_final.Common.Text.{Text, codes, text_eq}
use pstu_hack_final.Db.Actions.{
  ◌>>=◌, ◌>>◌, Action, ⊤, pure, raise, raise_if, query, or_raise, when, commit, wait, acquire,
}
use pstu_hack_final.Errors.{TokenMessage, DomainError}
use pstu_hack_final.Db.Tables.{find_user, Lock, find_session}
use pstu_hack_final.Models.{MetaValue, AuditAction, Session, User}
use pstu_hack_final.Db.Statements.{insert_session, block_sessions}
use pstu_hack_final.Security.{split_refresh_token, hash_refresh_token, raw_refresh_token, TokenLib}
use pstu_hack_final.Env.{clip_agent, audit, Caller, Env}

-- The access token, the refresh token, and the seconds that the access token lasts.
pub record TokenPair : Type 0 where
  pub access_token : Text
  pub refresh_token : Text
  pub expires_in : ℕ

abbrev pub create_access_token : TokenLib → Env → ℕ → ℕ → Text × ℕ
create_access_token lib env user session = (
  lib.encode (record {
    sub = user;
    sid = session;
    iat = env.now;
    exp = env.now + env.settings.access_token_minutes * 60;
    jti = env.uuid 1;
    typ = codes "access";
  }),
  env.settings.access_token_minutes * 60,
)

abbrev pub session_row : TokenLib → Env → Caller → ℕ → ℕ → Session
session_row lib env caller user family = record {
  id = env.uuid 0;
  family_id = family;
  user_id = user;
  refresh_hash = hash_refresh_token lib (raw_refresh_token (env.uuid 0) env.secret);
  user_agent = clip_agent caller.user_agent;
  client_ip = caller.ip;
  is_blocked = false;
  expires_at = env.now + env.settings.refresh_token_days * 86400;
  created_at = env.now;
}

abbrev pub token_pair : TokenLib → Env → ℕ → TokenPair
token_pair lib env user =
    let (access, seconds) = create_access_token lib env user (env.uuid 0) in
    record {
      access_token = access;
      refresh_token = raw_refresh_token (env.uuid 0) env.secret;
      expires_in = seconds;
    }

unfoldable pub issue_tokens : TokenLib → Env → Caller → User → Action TokenPair
issue_tokens lib env caller user = do
  insert_session (session_row lib env caller user.id (env.uuid 0))
  commit
  pure (token_pair lib env user.id)

unfoldable pub revoke_family : ℕ → Action ⊤
revoke_family family = block_sessions (λ s. s.family_id == family)

-- A replayed or forged token ends its whole family. The caller's user agent is not recorded.
unfoldable pub refuse_reuse : Env → Caller → Session → Text → Action ⊤
refuse_reuse env caller s reason = do
  revoke_family s.family_id
  audit env AuditAction.token_reuse_detected (some s.user_id) none
      (record { ip = caller.ip; user_agent = none })
      ((codes "family", MetaValue.uuid s.family_id) ∷ (codes "reason", MetaValue.text reason) ∷ [])
  commit
  raise DomainError.token_reuse_detected

-- The session row is locked before it is read.
unfoldable pub lock_session : Env → ℕ → Action Session
lock_session env i = do
  wait env.while_row
  found ← query (λ d. find_session i d.sessions)
  s ← or_raise found (DomainError.invalid_token TokenMessage.no_longer_valid)
  acquire (Lock.session s.id ∷ [])
  pure s

-- The new session of the family takes the place of the presented one.
unfoldable pub replace_session : TokenLib → Env → Caller → Session → User → Action TokenPair
replace_session lib env caller s user = do
  block_sessions (λ x. x.id == s.id)
  insert_session (session_row lib env caller user.id s.family_id)
  audit env AuditAction.token_refreshed (some user.id) none caller []
  commit
  pure (token_pair lib env user.id)

unfoldable pub rotate_tokens : TokenLib → Env → Caller → Text → Action TokenPair
rotate_tokens lib env caller raw = do
  i ←
      or_raise (split_refresh_token lib raw)
        (DomainError.invalid_token TokenMessage.no_longer_valid)
  s ← lock_session env i
  when s.is_blocked (refuse_reuse env caller s (codes "blocked_session_replayed"))
  raise_if (leb s.expires_at env.now) (DomainError.invalid_token TokenMessage.session_expired)
  when (not (text_eq (hash_refresh_token lib raw) s.refresh_hash))
      (refuse_reuse env caller s (codes "secret_mismatch"))
  found ← query (λ d. find_user s.user_id d.users)
  user ← or_raise found (DomainError.invalid_token TokenMessage.no_longer_valid)
  raise_if (not user.is_active) (DomainError.invalid_token TokenMessage.no_longer_valid)
  replace_session lib env caller s user

-- The logout of a session that exists.
unfoldable pub end_session : Env → Caller → Option Session → Action ⊤
end_session env caller none = pure tt
end_session env caller (some s) = do
  block_sessions (λ x. x.id == s.id)
  audit env AuditAction.logout (some s.user_id) none (record { ip = caller.ip; user_agent = none })
      []
  commit

unfoldable pub logout : Env → Caller → ℕ → Action ⊤
logout env caller i = do
  found ← query (λ d. find_session i d.sessions)
  end_session env caller found

-- The caller that an access token's claims name: `get_current_principal` of app/core/deps.py, after
-- the token is decoded. A blocked session ends it at once.
unfoldable pub get_current_principal : ℕ → ℕ → Action User
get_current_principal user_id session_id = do
  session ← query (λ d. find_session session_id d.sessions)
  s ← or_raise session (DomainError.invalid_token TokenMessage.session_ended)
  raise_if s.is_blocked (DomainError.invalid_token TokenMessage.session_ended)
  found ← query (λ d. find_user user_id d.users)
  u ← or_raise found (DomainError.invalid_token TokenMessage.no_longer_valid)
  raise_if (not u.is_active) DomainError.account_inactive
  pure u
