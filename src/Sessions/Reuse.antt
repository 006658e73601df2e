-- ===== src/Sessions/Reuse.antt =====
-- A spent refresh token of app/services/auth_service.py ends its family.
use pstu_hack_final.Common.{ℕ, ◌≡◌, true, some, List, [], ◌∷◌, arith, ◌==◌, All, any-find}
use pstu_hack_final.Common.Text.{Text}
use pstu_hack_final.Env.{Env}
use pstu_hack_final.Db.Tables.{find_user, has_user, find_session, Tables}
use pstu_hack_final.Db.Statements.{block_where}
use pstu_hack_final.Security.{split_refresh_token, TokenLib}
use pstu_hack_final.Models.{User, Session}

-- Every session of the family is blocked.
abbrev pub FamilyBlocked : ℕ → List Session → Type 0
FamilyBlocked f ss = All (λ (s : Session). s.family_id ≡ f → s.is_blocked ≡ true) ss

-- The token names a session, and is what was issued for it.
pub record Presents (lib : TokenLib) (raw : Text) (d : Tables) (s : Session) : Type 0 where
  pub split : split_refresh_token lib raw ≡ some s.id
  pub row : find_session s.id d.sessions ≡ some s
  pub owner : has_user s.user_id d.users ≡ true

pub find-block_where :
    (s : Session) (ss : List Session)
    → find_session s.id ss ≡ some s
    → find_session s.id (block_where (λ x. x.id == s.id) ss) ≡ some (record s { is_blocked = true })
find-block_where s [] row = cc
find-block_where s (x ∷ xs) row = ground (arith, find-block_where s xs)

pub has_user-find :
    (i : ℕ) (us : List User) (u : User) → find_user i us ≡ some u → has_user i us ≡ true
has_user-find i us u e = any-find (λ x. x.id == i) us u e
