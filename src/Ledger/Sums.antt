-- ===== src/Ledger/Sums.antt =====
-- `SUM(amount)` over ledger entries, as the reconciliation queries of
-- app/services/ledger_service.py group it.
use pstu_hack_final.Common.{ℕ, ◌==◌, Bool, List, [], ◌∷◌, if◌then◌else◌}
use pstu_hack_final.Common.Int.{ℤ, pos, ◌+ℤ◌}
use pstu_hack_final.Models.{LedgerEntry}

-- `COALESCE(SUM(amount), 0)` of the entries that pass a test.
abbrev pub sum_where : (LedgerEntry → Bool) → List LedgerEntry → ℤ
sum_where p [] = pos 0
sum_where p (e ∷ es) = if p e then e.amount +ℤ sum_where p es else sum_where p es

abbrev pub sum_amounts : List LedgerEntry → ℤ
sum_amounts [] = pos 0
sum_amounts (e ∷ es) = e.amount +ℤ sum_amounts es

abbrev pub txn_sum : ℕ → List LedgerEntry → ℤ
txn_sum t = sum_where (λ e. e.transaction_id == t)

abbrev pub wallet_sum : ℕ → List LedgerEntry → ℤ
wallet_sum w = sum_where (λ e. e.wallet_id == w)
