-- ===== src/Db/Checks.antt =====
-- The constraints of migrations/versions/0001_initial_schema.py: which one, if any, a new or
-- changed row violates. Column types come first, then CHECKs, unique indexes and foreign keys.
use pstu_hack_final.Common.{
  ℕ, Bool, false, not, ◌&&◌, ◌||◌, Option, none, some, List, [], ◌∷◌, length, any, is_eq, is_some,
  ltb, leb, ◌==◌, if◌then◌else◌,
}
use pstu_hack_final.Common.Int.{ℤ, pos, pos_part, neg_part, leb_ℤ, ltb_ℤ, eqb_ℤ}
use pstu_hack_final.Common.Text.{Text, text_eq, is_text}
use pstu_hack_final.Models.{
  User, Session, Wallet, Transaction, LedgerEntry, MoneyRequest, AuditLog, is_system,
}
use pstu_hack_final.Errors.{Exn, Constraint}
use pstu_hack_final.Db.Tables.{Tables, has_user, has_wallet, has_transaction}

-- The first test that holds names the exception.
abbrev pub first_of : List (Bool × Exn) → Option Exn
first_of [] = none
first_of ((b, e) ∷ rest) = if b then some e else first_of rest

-- NUMERIC(15,2) holds 13 digits before the point: less than 10 ^ 15 hundredths.
abbrev pub money_limit : ℕ
money_limit = 1000000000000000

abbrev pub overflows : ℤ → Bool
overflows a = leb money_limit (pos_part a) || leb money_limit (neg_part a)

-- VARCHAR(n), where NULL always fits.
abbrev pub too_long : ℕ → Option Text → Bool
too_long n none = false
too_long n (some t) = ltb n (length t)

-- A foreign key, where NULL refers to nothing.
abbrev pub dangling : (ℕ → Bool) → Option ℕ → Bool
dangling exists none = false
dangling exists (some i) = not (exists i)

-- A unique index over a nullable column.
abbrev pub taken : (ℕ → Bool) → Option ℕ → Bool
taken exists none = false
taken exists (some i) = exists i

-- CHECK no_self_transfer.
abbrev pub same_wallet : Option ℕ → Option ℕ → Bool
same_wallet none r = false
same_wallet (some s) r = is_eq r s

-- The partial unique index over (initiated_by, idempotency_key).
abbrev pub key_taken : Tables → Option ℕ → Option Text → Bool
key_taken d (some u) (some k) =
    any (λ t. is_eq t.initiated_by u && is_text t.idempotency_key k) d.transactions
key_taken d _ _ = false

unfoldable pub user_violation : User → Tables → Option Exn
user_violation u d = first_of (
    (
      too_long 20 (some u.phone)
          || too_long 100 (some u.full_name)
          || too_long 255 (some u.password_hash)
          || too_long 255 (some u.pin_hash),
      Exn.value_too_long,
    )
    ∷ (any (λ x. x.id == u.id) d.users, Exn.integrity Constraint.users_pkey)
    ∷ (any (λ x. text_eq x.phone u.phone) d.users, Exn.integrity Constraint.users_phone_key)
    ∷ [])

unfoldable pub session_violation : Session → Tables → Option Exn
session_violation s d = first_of (
    (too_long 255 (some s.refresh_hash) || too_long 255 s.user_agent, Exn.value_too_long)
    ∷ (any (λ x. x.id == s.id) d.sessions, Exn.integrity Constraint.sessions_pkey)
    ∷ (not (has_user s.user_id d.users), Exn.integrity Constraint.sessions_user_id_fkey)
    ∷ [])

unfoldable pub wallet_violation : Wallet → Tables → Option Exn
wallet_violation w d = first_of (
    (too_long 3 (some w.currency), Exn.value_too_long)
    ∷ (overflows w.balance, Exn.out_of_range)
    ∷ (
      not (is_system w.wallet_type) && ltb_ℤ w.balance (pos 0),
      Exn.integrity Constraint.no_overdraft,
    )
    ∷ (
      (is_system w.wallet_type && is_some w.user_id)
          || (not (is_system w.wallet_type) && not (is_some w.user_id)),
      Exn.integrity Constraint.wallet_owner,
    )
    ∷ (has_wallet w.id d.wallets, Exn.integrity Constraint.wallets_pkey)
    ∷ (
      taken (λ u. any (λ x. is_eq x.user_id u) d.wallets) w.user_id,
      Exn.integrity Constraint.wallets_user_id_key,
    )
    ∷ (dangling (λ u. has_user u d.users) w.user_id, Exn.integrity Constraint.wallets_user_id_fkey)
    ∷ [])

-- The row that `UPDATE wallets SET balance` would make of each wallet with this id.
unfoldable pub balance_violation : ℕ → ℤ → Tables → Option Exn
balance_violation i b d = first_of (
    (overflows b, Exn.out_of_range)
    ∷ (
      any (λ w. w.id == i && not (is_system w.wallet_type) && ltb_ℤ b (pos 0)) d.wallets,
      Exn.integrity Constraint.no_overdraft,
    )
    ∷ [])

-- The CHECK between two columns, the unique indexes and the foreign keys of `transactions`.
abbrev pub transaction_integrity : Transaction → Tables → List (Bool × Exn)
transaction_integrity t d =
    (same_wallet t.sender_wallet_id t.receiver_wallet_id, Exn.integrity Constraint.no_self_transfer)
    ∷ (has_transaction t.id d.transactions, Exn.integrity Constraint.transactions_pkey)
    ∷ (
      any (λ x. text_eq x.reference t.reference) d.transactions,
      Exn.integrity Constraint.transactions_reference_key,
    )
    ∷ (key_taken d t.initiated_by t.idempotency_key, Exn.integrity Constraint.uq_idem)
    ∷ (
      dangling (λ i. has_wallet i d.wallets) t.sender_wallet_id
          || dangling (λ i. has_wallet i d.wallets) t.receiver_wallet_id,
      Exn.integrity Constraint.transactions_wallet_fkey,
    )
    ∷ (
      dangling (λ u. has_user u d.users) t.initiated_by,
      Exn.integrity Constraint.transactions_initiated_by_fkey,
    )
    ∷ []

unfoldable pub transaction_violation : Transaction → Tables → Option Exn
transaction_violation t d = first_of (
    (overflows t.amount, Exn.out_of_range)
    ∷ (
      too_long 20 (some t.reference) || too_long 255 t.note || too_long 64 t.idempotency_key,
      Exn.value_too_long,
    )
    ∷ (leb_ℤ t.amount (pos 0), Exn.integrity Constraint.amount_positive)
    ∷ transaction_integrity t d)

unfoldable pub entry_violation : LedgerEntry → Tables → Option Exn
entry_violation e d = first_of (
    (overflows e.amount || overflows e.balance_after, Exn.out_of_range)
    ∷ (eqb_ℤ e.amount (pos 0), Exn.integrity Constraint.entry_nonzero)
    ∷ (
      not (has_transaction e.transaction_id d.transactions),
      Exn.integrity Constraint.ledger_entries_transaction_id_fkey,
    )
    ∷ (
      not (has_wallet e.wallet_id d.wallets),
      Exn.integrity Constraint.ledger_entries_wallet_id_fkey,
    )
    ∷ [])

unfoldable pub request_violation : MoneyRequest → Tables → Option Exn
request_violation r d = first_of (
    (overflows r.amount, Exn.out_of_range)
    ∷ (too_long 255 r.note, Exn.value_too_long)
    ∷ (r.requester_id == r.payer_id, Exn.integrity Constraint.no_self_request)
    ∷ (leb_ℤ r.amount (pos 0), Exn.integrity Constraint.request_amount_positive)
    ∷ (any (λ x. x.id == r.id) d.money_requests, Exn.integrity Constraint.money_requests_pkey)
    ∷ (
      not (has_user r.requester_id d.users) || not (has_user r.payer_id d.users),
      Exn.integrity Constraint.money_requests_user_fkey,
    )
    ∷ (
      dangling (λ i. has_transaction i d.transactions) r.transaction_id,
      Exn.integrity Constraint.money_requests_transaction_id_fkey,
    )
    ∷ [])

unfoldable pub audit_violation : AuditLog → Tables → Option Exn
audit_violation a d = first_of (
    (
      dangling (λ u. has_user u d.users) a.actor_user_id,
      Exn.integrity Constraint.audit_log_actor_user_id_fkey,
    )
    ∷ [])
