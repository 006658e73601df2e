-- ===== src/Api/Access.antt =====
-- Who gets through to an endpoint: the bearer check of app/core/deps.py before every protected
-- route.
use pstu_hack_final.Common.{
  ℕ, ◌≡◌, refl, ap, ◌∙◌, ◌⊎◌, inl, inr, Bool, true, false, none, some, [], ◌∷◌, arith, Bool-cases,
  Option-cases,
}
use pstu_hack_final.Common.Text.{Text, codes, text_eq, eq_of_text_eq}
use pstu_hack_final.Db.Actions.{Action, ok, err, pure, raise, ◌>>=◌}
use pstu_hack_final.Env.{Env}
use pstu_hack_final.Db.Tables.{Tables, find_session, find_user, Conn}
use pstu_hack_final.Api.{
  decode_access_token, bearer_token, checked_payload, principal_of, Decoded, Principal, Http, Libs,
}
use pstu_hack_final.Errors.{TokenMessage, DomainError, Exn}
use pstu_hack_final.Sessions.{get_current_principal}
use pstu_hack_final.Models.{Session, User}

-- The caller holds an access token of a session that is not blocked, and is an active user.
pub record Entitled (libs : Libs) (env : Env) (http : Http) (d : Tables) (p : Principal)
    : Type 0 where
  pub token : Text
  pub presented : http.credentials ≡ some token
  pub sub : Text
  pub sid : Text
  pub decoded : libs.jwt.decode env.now token ≡ Decoded.payload sub sid (some (codes "access"))
  pub names_session : libs.tokens.parse_uuid sid ≡ some p.session_id
  pub session : Session
  pub session_row : find_session p.session_id d.sessions ≡ some session
  pub open_session : session.is_blocked ≡ false
  pub user_id : ℕ
  pub names_user : libs.tokens.parse_uuid sub ≡ some user_id
  pub user_row : find_user user_id d.users ≡ some p.user
  pub active : p.user.is_active ≡ true

-- A refusal of the caller: 401 or, for an account that is not active, 403.
abbrev pub is_refusal : Exn → Bool
is_refusal (Exn.domain (DomainError.invalid_token m)) = true
is_refusal (Exn.domain DomainError.account_inactive) = true
is_refusal e = false

get_current_principal-cases :
    (u s : ℕ) (c : Conn)
    → ((a : User) × (get_current_principal u s c ≡ (ok a, c))
        × (find_user u c.work.users ≡ some a)
        × (a.is_active ≡ true)
        × (row : Session) × (find_session s c.work.sessions ≡ some row)
        × (row.is_blocked ≡ false))
      ⊎ ((e : Exn) × (get_current_principal u s c ≡ (err e, c)) × (is_refusal e ≡ true))
unfolding get_current_principal ◌>>=◌
get_current_principal-cases u s c = elim (Option-cases (find_session s c.work.sessions)) [
  | inl e ↦
      inr
        (Exn.domain (DomainError.invalid_token TokenMessage.session_ended), ground (arith, e), refl)
  | inr (row, e) ↦ elim (Bool-cases row.is_blocked) [
    | inl b ↦ inr (
      Exn.domain (DomainError.invalid_token TokenMessage.session_ended),
      ground (arith, e, b),
      refl,
    )
    | inr b ↦ elim (Option-cases (find_user u c.work.users)) [
      | inl f ↦ inr (
        Exn.domain (DomainError.invalid_token TokenMessage.no_longer_valid),
        ground (arith, e, b, f),
        refl,
      )
      | inr (a, f) ↦ elim (Bool-cases a.is_active) [
        | inl g ↦ inl (a, ground (arith, e, b, f, g), f, g, row, e, b)
        | inr g ↦ inr (Exn.domain DomainError.account_inactive, ground (arith, e, b, f, g), refl)
      ]
    ]
  ]
]

Refused : Libs → Env → Http → Conn → Type 0
Refused libs env http c =
    (e : Exn) × (principal_of libs env http c ≡ (err e, c)) × (is_refusal e ≡ true)

-- The rest of the check, of the ids that an access token names.
abbrev principal_of_ids : ℕ → ℕ → Action Principal
principal_of_ids user session = do
  u ← get_current_principal user session
  pure (record { user = u; session_id = session })

ids-cases :
    (u s : ℕ) (c : Conn)
    → ((a : User) × (principal_of_ids u s c ≡ (ok (record { user = a; session_id = s }), c))
        × (find_user u c.work.users ≡ some a)
        × (a.is_active ≡ true)
        × (row : Session) × (find_session s c.work.sessions ≡ some row)
        × (row.is_blocked ≡ false))
      ⊎ ((e : Exn) × (principal_of_ids u s c ≡ (err e, c)) × (is_refusal e ≡ true))
unfolding ◌>>=◌
ids-cases u s c = elim (get_current_principal-cases u s c) [
  | inl (a, e, f, g, row, k, b) ↦ inl (a, ground (arith, e), f, g, row, k, b)
  | inr (x, e, r) ↦ inr (x, ground (arith, e), r)
]

Text-cases : (t : Text) → (t ≡ []) ⊎ ((c : ℕ) × (s : Text) × (t ≡ c ∷ s))
Text-cases [] = inl refl
Text-cases (c ∷ s) = inr (c, s, refl)

-- The cases of a decoded token: claims of an access token, or a refusal.
checked_payload-cases :
    (x : Decoded) (c : Conn)
    → ((sub : Text) × (sid : Text) × (x ≡ Decoded.payload sub sid (some (codes "access")))
        × (checked_payload x c ≡ (ok (sub, sid), c)))
      ⊎ ((m : TokenMessage) × (checked_payload x c
            ≡ (err (Exn.domain (DomainError.invalid_token m)), c)))
unfolding checked_payload raise pure
checked_payload-cases Decoded.expired c = inr (TokenMessage.session_expired, refl)
checked_payload-cases Decoded.invalid c = inr (TokenMessage.no_longer_valid, refl)
checked_payload-cases (Decoded.payload sub sid none) c = inr (TokenMessage.no_longer_valid, refl)
checked_payload-cases (Decoded.payload sub sid (some t)) c =
    elim (Bool-cases (text_eq t (codes "access"))) [
      | inl e ↦ inl (
        sub,
        sid,
        ap (λ w. Decoded.payload sub sid (some w)) (eq_of_text_eq t (codes "access") e),
        rw e refl,
      )
      | inr e ↦ inr (TokenMessage.no_longer_valid, rw e refl)
    ]

-- The bearer check reads only: the caller is entitled, or refused.
pub principal_of-cases :
    (libs : Libs) (env : Env) (http : Http) (c : Conn)
    → ((p : Principal) × (principal_of libs env http c ≡ (ok p, c))
        × Entitled libs env http c.work p)
      ⊎ ((e : Exn) × (principal_of libs env http c ≡ (err e, c)) × (is_refusal e ≡ true))
unfolding principal_of bearer_token decode_access_token ◌>>=◌
principal_of-cases libs env http c = elim (Option-cases http.credentials) [
  | inl e ↦ inr (
    Exn.domain (DomainError.invalid_token TokenMessage.authentication_required),
    ground (arith, e),
    refl,
  )
  | inr (t, e) ↦ elim (Text-cases t) [
    | inl n ↦ inr (
      Exn.domain (DomainError.invalid_token TokenMessage.authentication_required),
      ground (arith, e, n),
      refl,
    )
    | inr (k, s, n) ↦ elim (checked_payload-cases (libs.jwt.decode env.now (k ∷ s)) c) [
      | inr (m, r) ↦ inr (Exn.domain (DomainError.invalid_token m), ground (arith, e, n, r), refl)
      | inl (sub, sid, d, r) ↦ elim (Option-cases (libs.tokens.parse_uuid sub)) [
        | inl f ↦ inr (
          Exn.domain (DomainError.invalid_token TokenMessage.no_longer_valid),
          ground (arith, e, n, r, f),
          refl,
        )
        | inr (u, f) ↦ elim (Option-cases (libs.tokens.parse_uuid sid)) [
          | inl g ↦ inr (
            Exn.domain (DomainError.invalid_token TokenMessage.no_longer_valid),
            ground (arith, e, n, r, f, g),
            refl,
          )
          | inr (i, g) ↦ elim (ids-cases u i c) [
            | inr (x, h, w) ↦ inr (x, ground (arith, e, n, r, f, g, h), w)
            | inl (a, h, row, active, session, found, open_session) ↦ inl (
              record { user = a; session_id = i },
              ground (arith, e, n, r, f, g, h),
              record {
                token = k ∷ s;
                presented = e ∙ ap some n;
                sub = sub;
                sid = sid;
                decoded = d;
                names_session = g;
                session = session;
                session_row = found;
                open_session = open_session;
                user_id = u;
                names_user = f;
                user_row = row;
                active = active;
              },
            )
          ]
        ]
      ]
    ]
  ]
]
