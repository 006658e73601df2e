-- ===== src/Errors.antt =====
-- The domain errors of app/core/errors.py with their HTTP status and code, and the other
-- exceptions that the services can meet: what PostgreSQL raises, and Python's ValueError.
use pstu_hack_final.Common.{ℕ, Option}
use pstu_hack_final.Common.Int.{ℤ}
use pstu_hack_final.Common.Text.{Text, codes}
use pstu_hack_final.Models.{RequestStatus}

-- The messages that the source gives `InvalidToken`.
pub data TokenMessage : Type 0 where
  no_longer_valid session_expired session_ended authentication_required : TokenMessage

pub data DomainError : Type 0 where
  phone_already_registered : Text → DomainError
  invalid_credentials : DomainError
  account_locked : ℕ → DomainError
  account_inactive : DomainError
  invalid_token : TokenMessage → DomainError
  token_reuse_detected : DomainError
  invalid_pin : DomainError
  recipient_not_found : Text → DomainError
  self_transfer_not_allowed : DomainError
  insufficient_funds : Option ℤ → DomainError
  idempotency_key_conflict : Text → DomainError
  transaction_not_found : Text → DomainError
  request_not_found : DomainError
  request_not_pending : RequestStatus → DomainError
  request_expired : DomainError
  self_request_not_allowed : DomainError
  wallet_missing : DomainError

unfoldable pub status_code : DomainError → ℕ
status_code (DomainError.phone_already_registered p) = 409
status_code DomainError.invalid_credentials = 401
status_code (DomainError.account_locked m) = 423
status_code DomainError.account_inactive = 403
status_code (DomainError.invalid_token m) = 401
status_code DomainError.token_reuse_detected = 401
status_code DomainError.invalid_pin = 403
status_code (DomainError.recipient_not_found p) = 404
status_code DomainError.self_transfer_not_allowed = 422
status_code (DomainError.insufficient_funds a) = 422
status_code (DomainError.idempotency_key_conflict r) = 409
status_code (DomainError.transaction_not_found r) = 404
status_code DomainError.request_not_found = 404
status_code (DomainError.request_not_pending s) = 409
status_code DomainError.request_expired = 410
status_code DomainError.self_request_not_allowed = 422
status_code DomainError.wallet_missing = 500

unfoldable pub error_code : DomainError → Text
error_code (DomainError.phone_already_registered p) = codes "phone_already_registered"
error_code DomainError.invalid_credentials = codes "invalid_credentials"
error_code (DomainError.account_locked m) = codes "account_locked"
error_code DomainError.account_inactive = codes "account_inactive"
error_code (DomainError.invalid_token m) = codes "invalid_token"
error_code DomainError.token_reuse_detected = codes "token_reuse_detected"
error_code DomainError.invalid_pin = codes "invalid_pin"
error_code (DomainError.recipient_not_found p) = codes "recipient_not_found"
error_code DomainError.self_transfer_not_allowed = codes "self_transfer_not_allowed"
error_code (DomainError.insufficient_funds a) = codes "insufficient_funds"
error_code (DomainError.idempotency_key_conflict r) = codes "idempotency_key_conflict"
error_code (DomainError.transaction_not_found r) = codes "transaction_not_found"
error_code DomainError.request_not_found = codes "request_not_found"
error_code (DomainError.request_not_pending s) = codes "request_not_pending"
error_code DomainError.request_expired = codes "request_expired"
error_code DomainError.self_request_not_allowed = codes "self_request_not_allowed"
error_code DomainError.wallet_missing = codes "wallet_missing"

-- The constraints that PostgreSQL names in an IntegrityError.
pub data Constraint : Type 0 where
  users_phone_key users_pkey : Constraint
  sessions_pkey sessions_user_id_fkey : Constraint
  wallets_pkey wallets_user_id_key wallets_user_id_fkey wallet_owner no_overdraft : Constraint
  transactions_pkey transactions_reference_key uq_idem : Constraint
  amount_positive no_self_transfer : Constraint
  transactions_wallet_fkey transactions_initiated_by_fkey : Constraint
  entry_nonzero ledger_entries_transaction_id_fkey ledger_entries_wallet_id_fkey : Constraint
  request_amount_positive no_self_request : Constraint
  money_requests_pkey money_requests_user_fkey money_requests_transaction_id_fkey : Constraint
  audit_log_actor_user_id_fkey : Constraint

-- `integrity` is SQLAlchemy's IntegrityError, `out_of_range` its DataError for a value that a
-- NUMERIC(15,2) column cannot hold, `value_too_long` its DataError for a VARCHAR(n) column.
pub data Exn : Type 0 where
  domain : DomainError → Exn
  integrity : Constraint → Exn
  out_of_range value_too_long value_error key_error attribute_error multiple_results : Exn
