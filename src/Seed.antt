-- ===== src/Seed.antt =====
-- seed.py: the check of a database, as a verdict, and the demo users. What it prints is not modelled.
use pstu_hack_final.Ledger.Sums.{sum_amounts, wallet_sum, txn_sum}
use pstu_hack_final.Common.{
  ℕ, suc, ◌≤◌, ◌≡◌, refl, ◌↔◌, Bool, true, false, ◌&&◌, not, Option, none, some, List, [], ◌∷◌, map,
  arith, ◌==◌, if◌then◌else◌, length, find, keep, any, All, is_some,
}
use pstu_hack_final.Common.Int.{ℤ, pos, ltb_ℤ, eqb_ℤ}
use pstu_hack_final.Common.Text.{Text, codes, text_eq}
use pstu_hack_final.Db.Actions.{Action, Result, ok, err, pure, throw, attempt, ◌>>=◌}
use Prim.Native.String.{String}
use pstu_hack_final.Errors.{DomainError, Exn}
use pstu_hack_final.Env.{Env}
use pstu_hack_final.Security.{Bcrypt}
use pstu_hack_final.Auth.{register, NewUser}
use pstu_hack_final.Ledger.Reconcile.{
  nil-keep, reconcile_iff, distinct, keep-nil, FourInvariants, insolvent_wallets, drifted_wallets,
  unbalanced_transactions, ledger_sum, is_empty, reconcile,
}
use pstu_hack_final.Db.Tables.{Tables}
use pstu_hack_final.Models.{
  LedgerEntry, Transaction, User, is_system, system_mint_wallet_id, Wallet,
}

-- The catalogue of the database beside its rows: the tables of the schema `public`, and the names
-- of the triggers.
pub record Database : Type 0 where
  pub table_names : List Text
  pub trigger_names : List Text
  pub rows : Tables

abbrev pub expected_tables : List Text
expected_tables =
    codes "users"
    ∷ codes "sessions"
    ∷ codes "wallets"
    ∷ codes "transactions"
    ∷ codes "ledger_entries"
    ∷ codes "money_requests"
    ∷ codes "audit_log"
    ∷ []

abbrev pub among : List Text → Text → Bool
among names n = any (λ m. text_eq m n) names

-- `expected - tables`
unfoldable pub missing_tables : Database → List Text
missing_tables db = keep (λ t. not (among db.table_names t)) expected_tables

-- `SELECT balance FROM wallets WHERE id = … AND type = 'SYSTEM'`
abbrev pub find_mint : Tables → Option Wallet
find_mint d = find (λ w. (w.id == system_mint_wallet_id) && is_system w.wallet_type) d.wallets

-- The triggers that make the ledger and the audit log append-only.
unfoldable pub armed_triggers : Database → ℕ
armed_triggers db = length (
    keep (among (codes "trg_ledger_append_only" ∷ codes "trg_audit_append_only" ∷ []))
      db.trigger_names)

-- `SELECT COALESCE(SUM(amount), 0) FROM ledger_entries`
unfoldable pub total : Tables → ℤ
total d = sum_amounts d.ledger_entries

-- `SELECT COUNT(*)` of the groups by transaction whose amounts do not sum to 0.
unfoldable pub count_unbalanced : Tables → ℕ
count_unbalanced d = length (
    keep (λ t. not (eqb_ℤ (txn_sum t d.ledger_entries) (pos 0)))
      (distinct (map (λ (e : LedgerEntry). e.transaction_id) d.ledger_entries)))

-- `SELECT COUNT(*)` of the wallets whose balance is not the sum of their entries, 0 without any.
unfoldable pub count_drifted : Tables → ℕ
count_drifted d =
    length
      (keep (λ (w : Wallet). not (eqb_ℤ w.balance (wallet_sum w.id d.ledger_entries))) d.wallets)

-- `SELECT COUNT(*) FROM wallets WHERE type = 'USER' AND balance < 0`
unfoldable pub count_negative : Tables → ℕ
count_negative d =
    length
      (keep (λ (w : Wallet). not (is_system w.wallet_type) && ltb_ℤ w.balance (pos 0)) d.wallets)

-- The tests that do not stop the check where they fail.
unfoldable pub passed : Database → Bool
passed db =
    eqb_ℤ (total db.rows) (pos 0)
    && (count_unbalanced db.rows == 0)
    && (count_drifted db.rows == 0)
    && (count_negative db.rows == 0)
    && (armed_triggers db == 2)

abbrev pub is_nil : List Text → Bool
is_nil [] = true
is_nil (x ∷ xs) = false

unfoldable pub check : Database → Bool
check db = if is_nil (missing_tables db) && is_some (find_mint db.rows) then passed db else false

-- `raise SystemExit(0 if check() else 1)`
unfoldable pub exit_code : Database → ℕ
exit_code db = if check db then 0 else 1

length-is_empty : (xs : List ℕ) → (length xs == 0) ≡ is_empty xs
length-is_empty [] = refl
length-is_empty (x ∷ xs) = ground arith

length-is_empty-map : (f : Wallet → ℕ) (ws : List Wallet) → (length ws == 0) ≡ is_empty (map f ws)
length-is_empty-map f [] = refl
length-is_empty-map f (w ∷ ws) = ground arith

-- The four tests agree with those of the reconciliation report.
passed-reconcile :
    (db : Database) → passed db ≡ ((reconcile db.rows).all_hold && (armed_triggers db == 2))
unfolding passed reconcile total count_unbalanced count_drifted count_negative ledger_sum
    unbalanced_transactions drifted_wallets insolvent_wallets
passed-reconcile db =
    let d = db.rows in
    ground (
      arith,
      length-is_empty (
          keep (λ t. not (eqb_ℤ (txn_sum t d.ledger_entries) (pos 0)))
            (distinct (map (λ (e : LedgerEntry). e.transaction_id) d.ledger_entries))),
      length-is_empty-map (λ w. w.id)
          (keep (λ (w : Wallet). not (eqb_ℤ w.balance (wallet_sum w.id d.ledger_entries)))
            d.wallets),
      length-is_empty-map (λ w. w.id)
          (keep (λ (w : Wallet). not (is_system w.wallet_type) && ltb_ℤ w.balance (pos 0))
            d.wallets),
    )

not-false : (b : Bool) → not b ≡ false → b ≡ true
not-false true h = refl
not-false false h = cc

All-not :
    (p : Text → Bool) (ts : List Text) → All (λ t. not (p t) ≡ false) ts → All (λ t. p t ≡ true) ts
All-not p [] a = tt
All-not p (t ∷ ts) a = (not-false (p t) a.0, All-not p ts a.1)

All-unnot :
    (p : Text → Bool) (ts : List Text) → All (λ t. p t ≡ true) ts → All (λ t. not (p t) ≡ false) ts
All-unnot p [] a = tt
All-unnot p (t ∷ ts) a = (ground (arith, a.0), All-unnot p ts a.1)

-- The script ends with exit code 0 exactly where the schema has every expected table, the mint is there as a system wallet, the four invariants hold of the rows, and the catalogue counts two triggers by the names of the append-only ones; else with 1.
pub exit_code_iff :
    (db : Database)
    → ((exit_code db ≡ 0) ↔ (
        All (λ t. among db.table_names t ≡ true) expected_tables
        × (is_some (find_mint db.rows) ≡ true)
        × FourInvariants db.rows
        × (armed_triggers db ≡ 2)))
      × (exit_code db ≤ 1)
unfolding exit_code check missing_tables
exit_code_iff db = ((sound, complete), ground arith)
  where
    nil : (xs : List Text) → is_nil xs ≡ true → xs ≡ []
    nil [] h = refl
    nil (x ∷ xs) h = cc

    sound :
        exit_code db ≡ 0
        → All (λ t. among db.table_names t ≡ true) expected_tables
          × (is_some (find_mint db.rows) ≡ true)
          × FourInvariants db.rows
          × (armed_triggers db ≡ 2)
    sound h =
        let p = passed-reconcile db in
        let none_missing = nil (missing_tables db) (ground (arith, p, h)) in
        (
          All-not (among db.table_names) expected_tables
              (keep-nil (λ t. not (among db.table_names t)) expected_tables none_missing),
          ground (arith, p, h),
          (reconcile_iff db.rows).4.0 (ground (arith, p, h)),
          ground (arith, p, h),
        )

    complete :
        All (λ t. among db.table_names t ≡ true) expected_tables
          × (is_some (find_mint db.rows) ≡ true)
          × FourInvariants db.rows
          × (armed_triggers db ≡ 2)
        → exit_code db ≡ 0
    complete (m, s, v, t) =
        let holds = (reconcile_iff db.rows).4.1 v in
        let none_missing =
          nil-keep (λ t. not (among db.table_names t)) expected_tables
            (All-unnot (among db.table_names) expected_tables m) in
        ground (arith, passed-reconcile db, none_missing, s, holds, t)

-- `DEMO_USERS`
abbrev demo_user : String → String → String → String → NewUser
demo_user phone name password pin = record {
  phone = codes phone;
  full_name = codes name;
  password = codes password;
  pin = codes pin;
}

unfoldable pub demo_users : List NewUser
demo_users =
    demo_user "01711111111" "Alice Rahman" "alice-demo-pass" "8317"
    ∷ demo_user "01722222222" "Bob Karim" "bob-demo-pass" "4629"
    ∷ demo_user "01733333333" "Chowdhury Nabil" "nabil-demo-pass" "5182"
    ∷ []

-- A registered phone is passed over; any other exception ends the script.
unfoldable pub pass_over : Result (User × Transaction) → Action (Option Transaction)
pass_over (ok r) = pure (some r.1)
pass_over (err (Exn.domain (DomainError.phone_already_registered p))) = pure none
pass_over (err e) = throw e

-- The registrations share one session, and each has surroundings of its own.
unfoldable pub register_each :
    Bcrypt → (ℕ → Env) → ℕ → List NewUser → Action (List (Option Transaction))
register_each lib envs i [] = pure []
register_each lib envs i (n ∷ ns) = do
  outcome ← attempt (register lib (envs i) (record { ip = none; user_agent = none }) n)
  grant ← pass_over outcome
  grants ← register_each lib envs (suc i) ns
  pure (grant ∷ grants)

unfoldable pub demo : Bcrypt → (ℕ → Env) → Action (List (Option Transaction))
demo lib envs = register_each lib envs 0 demo_users
