-- ===== src/Models.antt =====
-- The enums and rows of app/models (enums.py, user.py, wallet.py, transaction.py,
-- money_request.py, audit.py) and the identifiers of app/constants.py.
-- A UUID is a number (the 128-bit value, which orders as PostgreSQL orders it), a timestamp is a
-- number of seconds, money is a whole number of hundredths, a text is a list of code points.
use pstu_hack_final.Common.{ℕ, Bool, true, false, Option, List, if◌then◌else◌}
use pstu_hack_final.Common.Int.{ℤ, pos, ltb_ℤ}
use pstu_hack_final.Common.Text.{Text, codes}

pub data WalletType : Type 0 where
  user system : WalletType

pub data TxnType : Type 0 where
  signup_grant transfer request_settlement reversal : TxnType

pub data TxnStatus : Type 0 where
  pending completed failed reversed : TxnStatus

pub data RequestStatus : Type 0 where
  pending approved declined cancelled expired : RequestStatus

-- The actions that the audit log names.
pub data AuditAction : Type 0 where
  registered login_success login_failed account_locked logout : AuditAction
  token_refreshed token_reuse_detected pin_failed : AuditAction
  transfer_completed transfer_rejected : AuditAction
  request_created request_approved request_declined request_cancelled : AuditAction
  rate_limited : AuditAction

pub record User : Type 0 where
  pub id : ℕ
  pub phone : Text
  pub full_name : Text
  pub password_hash : Text
  pub pin_hash : Text
  pub is_active : Bool
  pub failed_login_count : ℕ
  pub locked_until : Option ℕ
  pub created_at : ℕ

pub record Session : Type 0 where
  pub id : ℕ
  pub family_id : ℕ
  pub user_id : ℕ
  pub refresh_hash : Text
  pub user_agent : Option Text
  pub client_ip : Option Text
  pub is_blocked : Bool
  pub expires_at : ℕ
  pub created_at : ℕ

pub record Wallet : Type 0 where
  pub id : ℕ
  pub user_id : Option ℕ
  pub wallet_type : WalletType
  pub currency : Text
  pub balance : ℤ
  pub updated_at : ℕ

pub record Transaction : Type 0 where
  pub id : ℕ
  pub reference : Text
  pub txn_type : TxnType
  pub status : TxnStatus
  pub amount : ℤ
  pub sender_wallet_id : Option ℕ
  pub receiver_wallet_id : Option ℕ
  pub note : Option Text
  pub idempotency_key : Option Text
  pub initiated_by : Option ℕ
  pub failure_reason : Option Text
  pub created_at : ℕ
  pub completed_at : Option ℕ

pub record LedgerEntry : Type 0 where
  pub id : ℕ
  pub transaction_id : ℕ
  pub wallet_id : ℕ
  pub amount : ℤ
  pub balance_after : ℤ
  pub created_at : ℕ

pub data Direction : Type 0 where
  debit credit : Direction

-- The generated column `direction`.
unfoldable pub direction : LedgerEntry → Direction
direction e = if ltb_ℤ e.amount (pos 0) then debit else credit

pub record MoneyRequest : Type 0 where
  pub id : ℕ
  pub requester_id : ℕ
  pub payer_id : ℕ
  pub amount : ℤ
  pub note : Option Text
  pub status : RequestStatus
  pub transaction_id : Option ℕ
  pub expires_at : ℕ
  pub created_at : ℕ
  pub responded_at : Option ℕ

-- A value of the audit log's JSON metadata.
pub data MetaValue : Type 0 where
  text : Text → MetaValue
  number : ℕ → MetaValue
  money : ℤ → MetaValue
  uuid : ℕ → MetaValue

abbrev pub Meta : Type 0
Meta = List (Text × MetaValue)

-- The table and row that an audit row is about.
pub data Entity : Type 0 where
  transaction money_request user : ℕ → Entity

pub record AuditLog : Type 0 where
  pub id : ℕ
  pub actor_user_id : Option ℕ
  pub action : AuditAction
  pub entity : Option Entity
  pub ip_address : Option Text
  pub user_agent : Option Text
  pub metadata : Meta
  pub created_at : ℕ

abbrev pub is_system : WalletType → Bool
is_system WalletType.user = false
is_system WalletType.system = true

abbrev pub system_mint_wallet_id : ℕ
system_mint_wallet_id = 1

abbrev pub reference_alphabet : Text
reference_alphabet = codes "23456789ABCDEFGHJKLMNPQRSTUVWXYZ"

abbrev pub reference_prefix : Text
reference_prefix = codes "TXN"

abbrev pub reference_body_length : ℕ
reference_body_length = 8
