-- ===== src/System/Startup.antt =====
-- The start of the process: `assert_bootable` of app/config.py and `lifespan` of app/main.py.
use pstu_hack_final.Common.{
  ℕ, ◌≤◌, ◌≡◌, refl, ◌||◌, Option, none, some, arith, ltb, ◌==◌, if◌then◌else◌, length, is_some,
}
use pstu_hack_final.Common.Int.{ℤ, pos, ◌≤ℤ◌, leb_ℤ}
use pstu_hack_final.Common.Text.{Text, codes, text_eq}
use pstu_hack_final.Common.White.{strip}
use pstu_hack_final.Models.{system_mint_wallet_id}
use pstu_hack_final.System.{migrated}
use pstu_hack_final.Db.Tables.{Tables, find_wallet}

-- The settings that the start tests.
pub record BootSettings : Type 0 where
  pub secret_key : Text
  pub signup_grant : ℤ

-- The RuntimeErrors.
pub data BootError : Type 0 where
  placeholder_secret short_secret grant_not_positive mint_missing : BootError

unfoldable pub assert_bootable : BootSettings → Option BootError
assert_bootable s =
    if text_eq s.secret_key (codes "CHANGE_ME") || (length (strip s.secret_key) == 0)
    then some BootError.placeholder_secret
    else if ltb (length s.secret_key) 32
    then some BootError.short_secret
    else if leb_ℤ s.signup_grant (pos 0)
    then some BootError.grant_not_positive
    else none

-- `none` where the process starts.
unfoldable pub lifespan : BootSettings → Tables → Option BootError
lifespan s d = elim (assert_bootable s) [
  | some e ↦ some e
  | none ↦
      if is_some (find_wallet system_mint_wallet_id d.wallets)
      then none
      else some BootError.mint_missing
]

-- A process that starts has a key of at least 32 characters, and its registrations post a positive grant.
lifespan-none :
    (s : BootSettings) (d : Tables)
    → lifespan s d ≡ none
    → (32 ≤ length s.secret_key) × (pos 1 ≤ℤ s.signup_grant)
unfolding lifespan assert_bootable
lifespan-none s d h = (ground arith, ground arith)

-- After the migrations only the settings decide whether the process starts.
lifespan-migrated : (s : BootSettings) (now : ℕ) → lifespan s (migrated now) ≡ assert_bootable s
unfolding lifespan migrated
lifespan-migrated s now = go (assert_bootable s)
  where
    go :
        (o : Option BootError)
        → elim o [
          | some e ↦ some e
          | none ↦
              if is_some (find_wallet system_mint_wallet_id (migrated now).wallets)
              then none
              else some BootError.mint_missing
        ]
          ≡ o
    go (some e) = refl
    go none = refl
