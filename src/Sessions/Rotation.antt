-- ===== src/Sessions/Rotation.antt =====
-- What a rotation of app/services/auth_service.py that returns has done.
use pstu_hack_final.Common.{
  ℕ, ◌≡◌, sym, ap, subst, ◌∙◌, inl, inr, Bool, true, false, not, none, some, List, [], ◌∷◌, ◌++◌,
  arith, leb, ◌==◌, any, Bool-cases, Option-cases, ==_iff, find-test,
}
use pstu_hack_final.Common.Text.{Text, codes, text_eq}
use pstu_hack_final.Db.Actions.{
  Action, ok, err, raise_if, query, or_raise, when, fresh, ◌>>=◌, ◌>>◌,
}
use pstu_hack_final.Db.Inversion.{or_raise-ok, query-ok, raise_if-ok, when-ok}
use pstu_hack_final.Db.Rules.{Result-cases}
use pstu_hack_final.Db.Checks.{session_violation, audit_violation}
use pstu_hack_final.Errors.{TokenMessage, DomainError, Exn}
use pstu_hack_final.Env.{audit, Caller, Env}
use pstu_hack_final.Db.Tables.{find_user, Lock, Conn, find_session}
use pstu_hack_final.Db.Statements.{insert_session, insert_audit, block_sessions, block_where}
use pstu_hack_final.Security.{hash_refresh_token, split_refresh_token, TokenLib}
use pstu_hack_final.Models.{MetaValue, AuditAction, User, Session}
use pstu_hack_final.Sessions.{
  replace_session, TokenPair, session_row, revoke_family, lock_session, refuse_reuse, rotate_tokens,
}

-- What a rotation that returns has done.
pub record Rotated (lib : TokenLib) (env : Env) (caller : Caller) (raw : Text) (c c' : Conn)
    : Type 0 where
  pub session : Session
  pub user : User
  pub split : split_refresh_token lib raw ≡ some session.id
  pub row : find_session session.id (env.while_row c.work).sessions ≡ some session
  pub owner : find_user session.user_id (env.while_row c.work).users ≡ some user
  pub live : session.is_blocked ≡ false
  pub secret : text_eq (hash_refresh_token lib raw) session.refresh_hash ≡ true
  pub distinct : (env.uuid 0 == session.id) ≡ false
  pub sessions :
      c'.committed.sessions
      ≡ session_row lib env caller user.id session.family_id
        ∷ block_where (λ x. x.id == session.id) (env.while_row c.work).sessions
  pub users : c'.committed.users ≡ (env.while_row c.work).users

any-block_where :
    (p : Session → Bool) (k : ℕ) (s : Session) (ss : List Session)
    → (k == s.id) ≡ true
    → find_session s.id ss ≡ some s
    → any (λ x. x.id == k) (block_where p ss) ≡ true
any-block_where p k s [] e row = cc
any-block_where p k s (x ∷ xs) e row = ground (arith, any-block_where p k s xs)

refuse_reuse-raises :
    (env : Env) (caller : Caller) (s : Session) (reason : Text) (c : Conn)
    → (x : Exn) × ((refuse_reuse env caller s reason c).0 ≡ err x)
unfolding refuse_reuse revoke_family block_sessions ◌>>=◌
refuse_reuse-raises env caller s reason c =
    let blocked = record c.work {
      sessions = block_where (λ x. x.family_id == s.family_id) c.work.sessions;
    } in
    elim (Result-cases
      (audit env AuditAction.token_reuse_detected (some s.user_id) none
        (record { ip = caller.ip; user_agent = none })
        ((codes "family", MetaValue.uuid s.family_id)
          ∷ (codes "reason", MetaValue.text reason)
          ∷ [])
        (record c { work = blocked })).0) [
          | inl (t, f) ↦ (Exn.domain DomainError.token_reuse_detected, ground (arith, f))
          | inr (x, f) ↦ (x, ground (arith, f))
        ]

-- The connection once the session's row is locked.
abbrev session_locked : Env → Session → Conn → Conn
session_locked env s c = record c {
  committed = env.while_row c.committed;
  work = env.while_row c.work;
  locks = c.locks ++ (Lock.session s.id ∷ []);
}

replace_session-ok :
    (lib : TokenLib) (env : Env) (caller : Caller) (s : Session) (u : User) (c c' : Conn)
    (t : TokenPair)
    → find_session s.id c.work.sessions ≡ some s
    → replace_session lib env caller s u c ≡ (ok t, c')
    → ((env.uuid 0 == s.id) ≡ false)
      × (c'.committed.sessions
          ≡ session_row lib env caller u.id s.family_id
            ∷ block_where (λ x. x.id == s.id) c.work.sessions)
      × (c'.committed.users ≡ c.work.users)
unfolding replace_session block_sessions insert_session session_violation audit insert_audit
    audit_violation ◌>>=◌
replace_session-ok lib env caller s u c c' t row h = (
  elim (Bool-cases (env.uuid 0 == s.id)) [
    | inr e ↦ e
    | inl e ↦
        absurd
          (ground (arith, any-block_where (λ x. x.id == s.id) (env.uuid 0) s c.work.sessions e row))
  ],
  ground arith,
  ground arith,
)

-- The rotation after the session's row is locked.
abbrev after_lock : TokenLib → Env → Caller → Text → Session → Action TokenPair
after_lock lib env caller raw s = do
  when s.is_blocked (refuse_reuse env caller s (codes "blocked_session_replayed"))
  raise_if (leb s.expires_at env.now) (DomainError.invalid_token TokenMessage.session_expired)
  when (not (text_eq (hash_refresh_token lib raw) s.refresh_hash))
      (refuse_reuse env caller s (codes "secret_mismatch"))
  found ← query (λ d. find_user s.user_id d.users)
  user ← or_raise found (DomainError.invalid_token TokenMessage.no_longer_valid)
  raise_if (not user.is_active) (DomainError.invalid_token TokenMessage.no_longer_valid)
  replace_session lib env caller s user

after_lock-ok :
    (lib : TokenLib) (env : Env) (caller : Caller) (raw : Text) (s : Session) (c c' : Conn)
    (t : TokenPair)
    → after_lock lib env caller raw s c ≡ (ok t, c')
    → (s.is_blocked ≡ false)
      × (text_eq (hash_refresh_token lib raw) s.refresh_hash ≡ true)
      × (u : User) × (find_user s.user_id c.work.users ≡ some u)
      × (replace_session lib env caller s u c ≡ (ok t, c'))
after_lock-ok lib env caller raw s c c' t h =
    let (live, h1) =
      when-ok s.is_blocked _ _ c
        (refuse_reuse-raises env caller s (codes "blocked_session_replayed") c) h in
    let (fresh, h2) = raise_if-ok (leb s.expires_at env.now) _ _ c h1 in
    let (secret, h3) =
      when-ok (not (text_eq (hash_refresh_token lib raw) s.refresh_hash)) _ _ c
        (refuse_reuse-raises env caller s (codes "secret_mismatch") c) h2 in
    let h4 = query-ok (λ d. find_user s.user_id d.users) _ c h3 in
    let (u, owner, h5) = or_raise-ok (find_user s.user_id c.work.users) _ _ c h4 in
    let (active, h6) = raise_if-ok (not u.is_active) _ _ c h5 in
    (live, ground (arith, secret), u, owner, h6)

rotate_tokens-locked :
    (lib : TokenLib) (env : Env) (caller : Caller) (raw : Text) (c c' : Conn) (t : TokenPair)
    → rotate_tokens lib env caller raw c ≡ (ok t, c')
    → (s : Session) × (split_refresh_token lib raw ≡ some s.id)
      × (find_session s.id (env.while_row c.work).sessions ≡ some s)
      × (after_lock lib env caller raw s (session_locked env s c) ≡ (ok t, c'))
unfolding rotate_tokens lock_session ◌>>=◌
rotate_tokens-locked lib env caller raw c c' t h =
    elim (Option-cases (split_refresh_token lib raw)) [
      | inl e ↦ absurd (ground (arith, e))
      | inr (i, split) ↦ elim (Option-cases (find_session i (env.while_row c.work).sessions)) [
        | inl e ↦ absurd (ground (arith, split, e))
        | inr (s, row) ↦
            let id : i ≡ s.id = sym ((==_iff s.id i).0 (find-test (λ x. x.id == i) _ s row)) in
            (
              s,
              split ∙ ap some id,
              subst (λ k. find_session k (env.while_row c.work).sessions ≡ some s) id row,
              ground (arith, split, row),
            )
      ]
    ]

pub rotate_tokens-Rotated :
    (lib : TokenLib) (env : Env) (caller : Caller) (raw : Text) (c c' : Conn) (t : TokenPair)
    → rotate_tokens lib env caller raw c ≡ (ok t, c')
    → Rotated lib env caller raw c c'
rotate_tokens-Rotated lib env caller raw c c' t h =
    let (s, split, row, run) = rotate_tokens-locked lib env caller raw c c' t h in
    let start = session_locked env s c in
    let (live, secret, u, owner, last) = after_lock-ok lib env caller raw s start c' t run in
    let r = replace_session-ok lib env caller s u start c' t row last in
    record {
      session = s;
      user = u;
      split = split;
      row = row;
      owner = owner;
      live = live;
      secret = secret;
      distinct = r.0;
      sessions = r.1;
      users = r.2;
    }
