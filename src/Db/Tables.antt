-- ===== src/Db/Tables.antt =====
-- The tables of migrations/versions/0001_initial_schema.py and 0002_session_family.py, newest row
-- first, and a connection: what is committed, what its open transaction sees, and the row locks
-- that it holds, oldest first. Sequences are not rolled back, so they stand outside the tables.
use pstu_hack_final.Common.{ℕ, ◌==◌, Option, List, find, any, is_eq, Bool, ◌&&◌}
use pstu_hack_final.Common.Text.{Text, text_eq, is_text}
use pstu_hack_final.Models.{User, Session, Wallet, Transaction, LedgerEntry, MoneyRequest, AuditLog}

pub record Tables : Type 0 where
  pub users : List User
  pub sessions : List Session
  pub wallets : List Wallet
  pub transactions : List Transaction
  pub ledger_entries : List LedgerEntry
  pub money_requests : List MoneyRequest
  pub audit_log : List AuditLog

-- A row lock of `SELECT … FOR UPDATE`.
pub data Lock : Type 0 where
  session request wallet : ℕ → Lock

pub record Conn : Type 0 where
  pub committed : Tables
  pub work : Tables
  pub locks : List Lock
  pub entry_seq : ℕ
  pub audit_seq : ℕ

-- Queries by a primary or unique key.
abbrev pub find_user : ℕ → List User → Option User
find_user i = find (λ u. u.id == i)

abbrev pub find_phone : Text → List User → Option User
find_phone p = find (λ u. text_eq u.phone p)

abbrev pub find_session : ℕ → List Session → Option Session
find_session i = find (λ s. s.id == i)

abbrev pub find_wallet : ℕ → List Wallet → Option Wallet
find_wallet i = find (λ w. w.id == i)

-- The relationship `User.wallet`.
abbrev pub wallet_of : ℕ → List Wallet → Option Wallet
wallet_of u = find (λ w. is_eq w.user_id u)

abbrev pub find_transaction : ℕ → List Transaction → Option Transaction
find_transaction i = find (λ t. t.id == i)

abbrev pub find_key : ℕ → Text → List Transaction → Option Transaction
find_key u k = find (λ t. is_eq t.initiated_by u && is_text t.idempotency_key k)

abbrev pub find_request : ℕ → List MoneyRequest → Option MoneyRequest
find_request i = find (λ r. r.id == i)

abbrev pub has_user : ℕ → List User → Bool
has_user i = any (λ u. u.id == i)

abbrev pub has_wallet : ℕ → List Wallet → Bool
has_wallet i = any (λ w. w.id == i)

abbrev pub has_transaction : ℕ → List Transaction → Bool
has_transaction i = any (λ t. t.id == i)
