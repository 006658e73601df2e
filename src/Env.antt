-- ===== src/Env.antt =====
-- What a service call takes from its surroundings: settings (app/config.py), the clock, the random
-- draws, the other transactions that commit while it waits for a row lock, and who is calling.
pub mod Rules
use pstu_hack_final.Common.{ℕ, Option, none, some, List, [], ◌∷◌, take}
use pstu_hack_final.Common.Int.{ℤ}
use pstu_hack_final.Common.Text.{Text}
use pstu_hack_final.Db.Actions.{Action, ⊤}
use pstu_hack_final.Models.{AuditAction, Entity, Meta}
use pstu_hack_final.Db.Tables.{Tables}
use pstu_hack_final.Db.Statements.{insert_audit}

-- The product and security settings that the services read; durations in the source's units.
pub record Settings : Type 0 where
  pub signup_grant : ℤ
  pub currency : Text
  pub request_expiry_hours : ℕ
  pub access_token_minutes : ℕ
  pub refresh_token_days : ℕ

-- `uuid k` is the k-th identifier drawn in the call, `salt k` the k-th bcrypt salt, `draws` the
-- draws of `secrets.choice` for a reference, `secret` the draw of `secrets.token_urlsafe` for a
-- refresh token. `while_row` and `while_wallets` are the commits of other transactions during the
-- wait for a request's or session's row lock or for the unique index on phones, and during the wait
-- for the wallets' row locks.
pub record Env : Type 0 where
  pub settings : Settings
  pub now : ℕ
  pub uuid : ℕ → ℕ
  pub salt : ℕ → ℕ
  pub draws : List ℕ
  pub secret : Text
  pub while_row : Tables → Tables
  pub while_wallets : Tables → Tables

-- The parameters `ip` and `user_agent`.
pub record Caller : Type 0 where
  pub ip : Option Text
  pub user_agent : Option Text

-- `(user_agent or "")[:255] or None`
abbrev clip : Text → Option Text
clip [] = none
clip (c ∷ s) = some (take 255 (c ∷ s))

unfoldable pub clip_agent : Option Text → Option Text
clip_agent none = none
clip_agent (some t) = clip t

-- `auth_service.audit`.
unfoldable pub audit : Env → AuditAction → Option ℕ → Option Entity → Caller → Meta → Action ⊤
unfolding clip_agent
audit env action actor entity caller meta = insert_audit (record {
  id = 0;
  actor_user_id = actor;
  action = action;
  entity = entity;
  ip_address = caller.ip;
  user_agent = clip_agent caller.user_agent;
  metadata = meta;
  created_at = env.now;
})
