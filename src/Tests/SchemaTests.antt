-- ===== src/Tests/SchemaTests.antt =====
-- The request schemas at concrete inputs.
use pstu_hack_final.Common.{
  ◌≤◌, ◌<◌, ◌≡◌, refl, ◌≢◌, true, false, none, some, [], arith, length, All,
}
use pstu_hack_final.Common.Int.{pos, ◌≤ℤ◌}
use pstu_hack_final.Common.Text.{codes, text_eq, repeated}
use pstu_hack_final.Security.{Bcrypt}
use pstu_hack_final.Schemas.Registration.{check_registration-user_violation}
use pstu_hack_final.Auth.{user_row, NewUser}
use pstu_hack_final.Seed.{demo_users}
use pstu_hack_final.Errors.{Constraint, Exn}
use pstu_hack_final.Schemas.Fits.{check_transfer-transaction_violation, is_data_error}
use pstu_hack_final.Common.Decimal.{digits}
use pstu_hack_final.Db.Checks.{user_violation, transaction_violation, overflows}
use pstu_hack_final.Schemas.Secrets.{is_password-long, utf8_length}
use pstu_hack_final.Tests.Samples.{plain, sample, calm, bob_wallet, alice_wallet}
use pstu_hack_final.Schemas.Amounts.{money_amount_bounds, money_amount-amount_text, amount_text}
use pstu_hack_final.Schemas.Texts.{IsPrintable, clean_free_text_lem}
use pstu_hack_final.Models.{TxnType}
use pstu_hack_final.Schemas.{
  full_name, check_registration, clean_note, is_phone, is_pin, read_amount, is_password,
  plain_decimal, AmountInput, check_transfer, clean_free_text, TransferRequest, money_amount,
  TransferFields,
}
use pstu_hack_final.Ledger.{pending_transaction, Posting}
use pstu_hack_final.Common.White.{strip, words, is_space}

-- Accepted and refused amounts: a leading space is stripped, an exponent and a third decimal are not
-- in the notation, and nothing is not more than 0.
amounts_test :
    (money_amount (AmountInput.text (codes " 2500.5")) ≡ some (pos 250050))
    × (money_amount (AmountInput.integer (pos 7)) ≡ some (pos 700))
    × (money_amount (AmountInput.text (codes "1e3")) ≡ none)
    × (money_amount (AmountInput.text (codes "1.005")) ≡ none)
    × (money_amount (AmountInput.text (codes "0.00")) ≡ none)
    × (money_amount (AmountInput.boolean true) ≡ none)
unfolding money_amount plain_decimal read_amount strip is_space digits
amounts_test = (refl, refl, refl, refl, refl, refl)

money_amount-amount_text_example :
    money_amount (AmountInput.text (amount_text 250000)) ≡ some (pos 250000)
money_amount-amount_text_example = money_amount-amount_text 250000 (omega arith) (omega arith)

money_amount_bounds_example : (pos 1 ≤ℤ pos 250050) × (overflows (pos 250050) ≡ false)
unfolding money_amount plain_decimal read_amount strip is_space
money_amount_bounds_example =
    money_amount_bounds (AmountInput.text (codes "2500.5")) (pos 250050) refl

clean_free_text_lem_example :
    All IsPrintable (codes "for tea")
    × (codes "for tea" ≢ [])
    × (length (codes "for tea") ≤ length (codes " for  tea "))
    × (clean_free_text (some (codes "for tea")) ≡ some (some (codes "for tea")))
unfolding clean_free_text words is_space
clean_free_text_lem_example = clean_free_text_lem (codes " for  tea ") (codes "for tea") refl

abbrev pub tea : TransferRequest
tea = record {
  recipient_phone = codes "01722222222";
  amount = AmountInput.text (codes "50.00");
  pin = codes "8317";
  note = some (codes " for tea");
  extra = [];
}

abbrev tea_fields : TransferFields
tea_fields = record {
  recipient_phone = codes "01722222222";
  amount = pos 5000;
  pin = codes "8317";
  note = some (codes "for tea");
}

abbrev tea_posting : Posting
tea_posting = record {
  txn_type = TxnType.transfer;
  amount = pos 5000;
  debit_wallet = alice_wallet;
  credit_wallet = bob_wallet;
  initiated_by = some 10;
  note = some (codes "for tea");
  idempotency_key = some (codes "k2");
  allow_overdraft = false;
}

check_transfer-transaction_violation_example :
    (is_data_error (transaction_violation (pending_transaction calm 50 tea_posting) sample) ≡ false)
    × (transaction_violation (pending_transaction calm 50 tea_posting) sample
        ≢ some (Exn.integrity Constraint.amount_positive))
unfolding check_transfer money_amount plain_decimal read_amount strip is_space is_phone is_pin
    clean_note clean_free_text words
check_transfer-transaction_violation_example =
    check_transfer-transaction_violation tea tea_fields calm 50 tea_posting sample refl refl refl
      refl refl

is_password-long_example :
    (is_password (repeated 40 233) ≡ true) × (72 < utf8_length (repeated 40 233))
unfolding is_space
is_password-long_example =
    is_password-long 40 233 (omega arith) (omega arith) (omega arith) (omega arith) refl

-- The demo users of seed.py would pass the registration's schema.
demo_users_test : All (λ n. check_registration n ≡ some n) demo_users
unfolding demo_users check_registration is_phone is_password is_pin strip is_space full_name
    clean_free_text words text_eq
demo_users_test = (refl, (refl, (refl, tt)))

-- A body whose name has spaces around it, and the row of Alice's phone.
abbrev sent : NewUser
sent = record {
  phone = codes "01711111111";
  full_name = codes " Alice  Rahman ";
  password = codes "alice-demo-pass";
  pin = codes "8317";
}

abbrev cleaned : NewUser
cleaned = record sent { full_name = codes "Alice Rahman" }

-- A stand-in for bcrypt with hashes of its length.
abbrev sixty : Bcrypt
sixty = record plain { hashpw = λ salt raw. repeated 60 120 }

check_registration-user_violation_example :
    user_violation (user_row sixty calm cleaned) sample
    ≡ some (Exn.integrity Constraint.users_phone_key)
unfolding check_registration is_phone is_password is_pin strip is_space full_name clean_free_text
    words text_eq
check_registration-user_violation_example =
    check_registration-user_violation sent cleaned sixty calm sample refl (λ salt raw. refl) refl
