-- ===== src/Statement/Lookup.antt =====
-- app/services/statement_service.py: one transaction by its reference.
use pstu_hack_final.Common.{ℕ, Bool, ◌&&◌, ◌||◌, find, is_eq}
use pstu_hack_final.Common.Text.{Text, text_eq}
use pstu_hack_final.Db.Actions.{Action, query, or_raise, ◌>>=◌}
use pstu_hack_final.Errors.{DomainError}
use pstu_hack_final.Models.{Transaction}

-- The wallet is on either side of the transaction.
abbrev pub is_on : ℕ → Transaction → Bool
is_on w t = is_eq t.sender_wallet_id w || is_eq t.receiver_wallet_id w

-- The reference is unique, so there is at most one row.
unfoldable pub get_transaction_for_user : Text → ℕ → Action Transaction
get_transaction_for_user reference w = do
  found ← query (λ d. find (λ t. text_eq t.reference reference && is_on w t) d.transactions)
  or_raise found (DomainError.transaction_not_found reference)
