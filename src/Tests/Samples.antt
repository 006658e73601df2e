-- ===== src/Tests/Samples.antt =====
-- Two users, each funded by the mint with 1000.00, after one transfer of 200.00 from Alice to Bob.
use pstu_hack_final.Common.{ℕ, ◌+◌, refl, true, Option, none, some, [], ◌∷◌, arith}
use pstu_hack_final.Common.Int.{negsuc, ℤ, pos, ◌+ℤ◌}
use pstu_hack_final.Common.Text.{Text, codes, text_eq}
use pstu_hack_final.Transfer.Consistency.{Respects}
use pstu_hack_final.Ledger.Consistency.{Consistent}
use pstu_hack_final.Security.{Bcrypt}
use pstu_hack_final.Models.{TxnStatus, User, TxnType, Transaction, LedgerEntry, WalletType, Wallet}
use pstu_hack_final.Db.Tables.{Conn, Tables}
use pstu_hack_final.Env.{Settings, Env, Caller}

abbrev pub alice : User
alice = record {
  id = 10;
  phone = codes "01711111111";
  full_name = codes "Alice";
  password_hash = codes "pw-a";
  pin_hash = codes "pin-a";
  is_active = true;
  failed_login_count = 0;
  locked_until = none;
  created_at = 1;
}

abbrev pub bob : User
bob = record {
  id = 20;
  phone = codes "01722222222";
  full_name = codes "Bob";
  password_hash = codes "pw-b";
  pin_hash = codes "pin-b";
  is_active = true;
  failed_login_count = 0;
  locked_until = none;
  created_at = 2;
}

abbrev pub wallet_row : ℕ → Option ℕ → WalletType → ℤ → Wallet
wallet_row i u t b = record {
  id = i;
  user_id = u;
  wallet_type = t;
  currency = codes "BDT";
  balance = b;
  updated_at = 5;
}

abbrev pub mint : Wallet
mint = wallet_row 1 none WalletType.system (negsuc 199999)

abbrev pub alice_wallet : Wallet
alice_wallet = wallet_row 11 (some 10) WalletType.user (pos 80000)

abbrev pub bob_wallet : Wallet
bob_wallet = wallet_row 21 (some 20) WalletType.user (pos 120000)

abbrev pub transaction_row : ℕ → Text → TxnType → ℤ → ℕ → ℕ → Option Text → ℕ → Transaction
transaction_row i r t a s d k u = record {
  id = i;
  reference = r;
  txn_type = t;
  status = TxnStatus.completed;
  amount = a;
  sender_wallet_id = some s;
  receiver_wallet_id = some d;
  note = none;
  idempotency_key = k;
  initiated_by = some u;
  failure_reason = none;
  created_at = 5;
  completed_at = some 5;
}

abbrev pub first_transfer : Transaction
first_transfer =
    transaction_row 33 (codes "TXN00000033") TxnType.transfer (pos 20000) 11 21 (some (codes "k1"))
      10

abbrev pub entry_row : ℕ → ℕ → ℕ → ℤ → ℤ → LedgerEntry
entry_row i t w a b = record {
  id = i;
  transaction_id = t;
  wallet_id = w;
  amount = a;
  balance_after = b;
  created_at = 5;
}

abbrev pub sample : Tables
sample = record {
  users = bob ∷ alice ∷ [];
  sessions = [];
  wallets = bob_wallet ∷ alice_wallet ∷ mint ∷ [];
  transactions =
      first_transfer
      ∷ transaction_row 32 (codes "TXN00000032") TxnType.signup_grant (pos 100000) 1 21 none 20
      ∷ transaction_row 31 (codes "TXN00000031") TxnType.signup_grant (pos 100000) 1 11 none 10
      ∷ [];
  ledger_entries =
      entry_row 6 33 21 (pos 20000) (pos 120000)
      ∷ entry_row 5 33 11 (negsuc 19999) (pos 80000)
      ∷ entry_row 4 32 21 (pos 100000) (pos 100000)
      ∷ entry_row 3 32 1 (negsuc 99999) (negsuc 199999)
      ∷ entry_row 2 31 11 (pos 100000) (pos 100000)
      ∷ entry_row 1 31 1 (negsuc 99999) (negsuc 99999)
      ∷ [];
  money_requests = [];
  audit_log = [];
}

abbrev pub conn_of : Tables → Conn
conn_of d = record { committed = d; work = d; locks = []; entry_seq = 7; audit_seq = 1 }

abbrev pub conn : Conn
conn = conn_of sample

abbrev pub settings : Settings
settings = record {
  signup_grant = pos 10000000;
  currency = codes "BDT";
  request_expiry_hours = 72;
  access_token_minutes = 15;
  refresh_token_days = 7;
}

-- Nobody else is at work.
abbrev pub calm : Env
calm = record {
  settings = settings;
  now = 100;
  uuid = λ k. 50 + k;
  salt = λ k. k;
  draws = 0 ∷ 1 ∷ 2 ∷ 3 ∷ 4 ∷ 5 ∷ 6 ∷ 7 ∷ [];
  secret = codes "s";
  while_row = λ d. d;
  while_wallets = λ d. d;
}

abbrev pub caller : Caller
caller = record { ip = none; user_agent = none }

-- A stand-in for bcrypt: a hash is the text itself.
abbrev pub plain : Bcrypt
plain = record {
  hashpw = λ salt raw. raw;
  checkpw = λ raw hash. some (text_eq raw hash);
  dummy_hash = codes "-";
}

pub sample-Consistent : Consistent sample
unfolding ◌+ℤ◌
sample-Consistent = record {
  conservation = refl;
  balanced = λ t. ground arith;
  no_drift = (refl, (refl, (refl, tt)));
  solvent = ground arith;
  known = (refl, (refl, (refl, (refl, (refl, (refl, tt))))));
}

pub calm-Respects : Respects calm
calm-Respects = record { row = λ d v. v; wallets = λ d v. v }
