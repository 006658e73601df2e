-- ===== src/Schemas/Registration.antt =====
-- An accepted registration body (app/schemas/auth.py) against the table of users.
use pstu_hack_final.Common.{
  ℕ, ◌≡◌, inl, inr, true, false, ◌&&◌, not, none, some, arith, ◌==◌, if◌then◌else◌, length, any,
  is_some, Bool-cases, Option-cases, any-eq-is_some,
}
use pstu_hack_final.Common.Text.{Text, text_eq}
use pstu_hack_final.Errors.{Constraint, Exn}
use pstu_hack_final.Env.{Env}
use pstu_hack_final.Security.{hash_secret, Bcrypt}
use pstu_hack_final.Auth.{user_row, NewUser}
use pstu_hack_final.Db.Tables.{Tables, find_phone}
use pstu_hack_final.Schemas.{
  is_trivial_pin, is_pin, is_password, full_name, is_phone, check_registration,
}
use pstu_hack_final.Db.Checks.{user_violation}
use pstu_hack_final.Schemas.Fits.{length-phone, name-fits}

check_registration-parts :
    (r n : NewUser)
    → check_registration r ≡ some n
    → (is_phone n.phone ≡ true) × (full_name r.full_name ≡ some n.full_name)
unfolding check_registration
check_registration-parts r n h =
    elim (Bool-cases
      (is_phone r.phone && is_password r.password && is_pin r.pin && not (is_trivial_pin r.pin))) [
        | inl e ↦ elim (Option-cases (full_name r.full_name)) [
          | inl o ↦ absurd (ground arith)
          | inr (t, o) ↦ ground arith
        ]
        | inr e ↦ absurd (ground arith)
      ]

-- The row that an accepted registration inserts is refused exactly when its phone is registered, and then by the constraint that the service reads as such, if its id is new and bcrypt's hashes have 60 characters, as they do.
pub check_registration-user_violation :
    (r n : NewUser) (lib : Bcrypt) (env : Env) (d : Tables)
    → check_registration r ≡ some n
    → ((salt : ℕ) (raw : Text) → length (lib.hashpw salt raw) ≡ 60)
    → any (λ x. x.id == env.uuid 0) d.users ≡ false
    → user_violation (user_row lib env n) d ≡ (
        if is_some (find_phone n.phone d.users)
        then some (Exn.integrity Constraint.users_phone_key)
        else none)
unfolding user_violation hash_secret
check_registration-user_violation r n lib env d h sixty i =
    let parts = check_registration-parts r n h in
    let phone = length-phone n.phone parts.0 in
    let name = name-fits r.full_name n.full_name parts.1 in
    let same = any-eq-is_some (λ x. text_eq x.phone n.phone) d.users in
    let password = sixty (env.salt 0) n.password in
    let pin = sixty (env.salt 1) n.pin in ground (arith, phone, name, same, password, pin, i)
