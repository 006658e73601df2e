-- ===== src/Auth.antt =====
-- app/services/auth_service.py: registration and login.
pub mod Lockout
pub mod Registration
pub mod Funding
use pstu_hack_final.Common.{
  ℕ, zero, suc, ◌+◌, ◌-◌, ◌*◌, ◌/◌, ◌%◌, ◌≤◌, ◌<◌, ◌≡◌, refl, sym, ap, subst, ◌∙◌, ◌≢◌, ◌↔◌, ◌⊎◌,
  inl, inr, Bool, true, false, ◌&&◌, ◌||◌, not, Option, none, some, List, [], ◌∷◌, ◌++◌, map, arith,
  ltb, leb, ◌==◌, if◌then◌else◌, length, take, find, keep, any, All, is_eq, is_some, Bool-cases,
  Option-cases, ==_iff,
}
use pstu_hack_final.Common.Int.{ℤ, pos, ◌+ℤ◌, ◌-ℤ◌, neg, ◌≤ℤ◌, ltb_ℤ, leb_ℤ, eqb_ℤ, int_laws}
use pstu_hack_final.Common.Text.{Text, codes, text_eq, is_text}
use pstu_hack_final.Db.Actions.{
  Action, ⊤, Result, ok, err, pure, throw, raise, raise_if, throw_if, query, or_raise, or_throw,
  attempt, when, commit, commit_if, rollback, savepoint, wait, acquire, serve, fresh, ◌>>=◌, ◌>>◌,
}
use pstu_hack_final.Errors.{Constraint, DomainError, Exn}
use pstu_hack_final.Ledger.{post_double_entry, row_of, lock_wallets, Posting}
use pstu_hack_final.Db.Tables.{find_phone}
use pstu_hack_final.Models.{
  Entity, MetaValue, AuditAction, TxnType, system_mint_wallet_id, WalletType, Wallet, Transaction,
  User,
}
use pstu_hack_final.Db.Statements.{insert_wallet, insert_user, update_user}
use pstu_hack_final.Security.{verify_secret, hash_secret, Bcrypt}
use pstu_hack_final.Env.{audit, Caller, Env}

-- The arguments of `register`.
pub record NewUser : Type 0 where
  pub phone : Text
  pub full_name : Text
  pub password : Text
  pub pin : Text

abbrev pub user_row : Bcrypt → Env → NewUser → User
user_row lib env n = record {
  id = env.uuid 0;
  phone = n.phone;
  full_name = n.full_name;
  password_hash = hash_secret lib (env.salt 0) n.password;
  pin_hash = hash_secret lib (env.salt 1) n.pin;
  is_active = true;
  failed_login_count = 0;
  locked_until = none;
  created_at = env.now;
}

abbrev pub new_wallet : Env → Wallet
new_wallet env = record {
  id = env.uuid 1;
  user_id = some (env.uuid 0);
  wallet_type = WalletType.user;
  currency = env.settings.currency;
  balance = pos 0;
  updated_at = env.now;
}

-- The welcome grant, from the mint, which may be overdrawn.
abbrev pub grant_posting : Env → Wallet → Wallet → Posting
grant_posting env mint wallet = record {
  txn_type = TxnType.signup_grant;
  amount = env.settings.signup_grant;
  debit_wallet = mint;
  credit_wallet = wallet;
  initiated_by = some (env.uuid 0);
  note = some (codes "Welcome bonus");
  idempotency_key = none;
  allow_overdraft = true;
}

unfoldable pub pay_grant : Env → Action Transaction
pay_grant env = do
  locked ← lock_wallets (system_mint_wallet_id ∷ env.uuid 1 ∷ [])
  mint ← row_of system_mint_wallet_id locked
  wallet ← row_of (env.uuid 1) locked
  post_double_entry env (env.uuid 2) (grant_posting env mint wallet)

-- The body of the `try`.
unfoldable pub register_rows : Bcrypt → Env → Caller → NewUser → Action (User × Transaction)
register_rows lib env caller n = do
  insert_user (user_row lib env n)
  insert_wallet (new_wallet env)
  wait env.while_wallets
  grant ← pay_grant env
  audit env AuditAction.registered (some (env.uuid 0)) (some (Entity.user (env.uuid 0))) caller
      ((codes "grant", MetaValue.money env.settings.signup_grant) ∷ [])
  commit
  pure (user_row lib env n, grant)

-- The `except IntegrityError` clause.
unfoldable pub end_registration : Text → Result (User × Transaction) → Action (User × Transaction)
end_registration phone (ok r) = pure r
end_registration phone (err (Exn.integrity Constraint.users_phone_key)) = do
  rollback
  raise (DomainError.phone_already_registered phone)
end_registration phone (err (Exn.integrity k)) = do rollback; throw (Exn.integrity k)
end_registration phone (err e) = throw e

unfoldable pub register : Bcrypt → Env → Caller → NewUser → Action (User × Transaction)
register lib env caller n = do
  found ← query (λ d. find_phone n.phone d.users)
  raise_if (is_some found) (DomainError.phone_already_registered n.phone)
  wait env.while_row
  outcome ← attempt (register_rows lib env caller n)
  end_registration n.phone outcome

abbrev pub max_failed_logins : ℕ
max_failed_logins = 5

abbrev pub lockout_minutes : ℕ
lockout_minutes = 15

abbrev pub is_locked : ℕ → User → Bool
is_locked now u = elim u.locked_until [ none ↦ false | some t ↦ ltb now t ]

-- `max(1, int((locked_until - now).total_seconds() // 60) + 1)`
abbrev pub remaining_minutes : ℕ → User → ℕ
remaining_minutes now u = elim u.locked_until [
  | none ↦ 1
  | some t ↦ if ltb 1 ((t - now) / 60 + 1) then (t - now) / 60 + 1 else 1
]

abbrev pub lock_out : ℕ → User → User
lock_out now u = record u {
  locked_until = some (now + lockout_minutes * 60);
  failed_login_count = 0;
}

-- `n` is the count that was read before the password was verified, and not that of the row now.
abbrev pub count_failure : ℕ → User → User
count_failure n u = record u { failed_login_count = n + 1 }

-- Only what differs from the row that was read is written.
abbrev pub clear_failures : User → User → User
clear_failures read u = record u {
  failed_login_count = if read.failed_login_count == 0 then u.failed_login_count else 0;
  locked_until = if is_some read.locked_until then none else u.locked_until;
}

abbrev pub is_clear : User → Bool
is_clear u = (u.failed_login_count == 0) && not (is_some u.locked_until)

-- `UPDATE users SET …`, which waits for the row's lock.
unfoldable pub write_user : Env → ℕ → (User → User) → Action ⊤
write_user env i f = do wait env.while_row; update_user i f

-- The branches of a wrong password.
unfoldable pub fail_login : Env → Caller → User → Action ⊤
fail_login env caller u =
    if leb max_failed_logins (u.failed_login_count + 1)
    then (do
      write_user env u.id (lock_out env.now)
      audit env AuditAction.account_locked (some u.id) none caller
          ((codes "minutes", MetaValue.number lockout_minutes) ∷ [])
      commit
      raise (DomainError.account_locked lockout_minutes))
    else (do
      write_user env u.id (count_failure u.failed_login_count)
      audit env AuditAction.login_failed (some u.id) none caller
          ((codes "attempt", MetaValue.number (u.failed_login_count + 1)) ∷ [])
      commit
      raise DomainError.invalid_credentials)

-- The unknown phone; the dummy verification that takes a real one's time changes nothing.
unfoldable pub fail_unknown : Env → Caller → Text → Action ⊤
fail_unknown env caller phone = do
  audit env AuditAction.login_failed none none caller ((codes "phone", MetaValue.text phone) ∷ [])
  commit
  raise DomainError.invalid_credentials

unfoldable pub authenticate : Bcrypt → Env → Caller → Text → Text → Action User
authenticate lib env caller phone password = do
  found ← query (λ d. find_phone phone d.users)
  when (not (is_some found)) (fail_unknown env caller phone)
  u ← or_raise found DomainError.invalid_credentials
  raise_if (is_locked env.now u) (DomainError.account_locked (remaining_minutes env.now u))
  raise_if (not u.is_active) DomainError.account_inactive
  when (not (verify_secret lib password (some u.password_hash))) (fail_login env caller u)
  when (not (is_clear u)) (write_user env u.id (clear_failures u))
  audit env AuditAction.login_success (some u.id) none caller []
  commit
  pure (clear_failures u u)
