-- ===== src/Tests/AuthTests.antt =====
-- Registration, login and rotation on the sample.
use pstu_hack_final.Common.{ℕ, ◌-◌, ◌≡◌, refl, Bool, false, none, some, [], ◌∷◌}
use pstu_hack_final.Common.Int.{◌+ℤ◌, ◌-ℤ◌, neg}
use pstu_hack_final.Common.Text.{Text, codes, text_eq}
use pstu_hack_final.Db.Actions.{ok, err, fresh, ◌>>=◌}
use pstu_hack_final.Ledger.{post_double_entry, select_wallets, insert_id, sorted_set, lock_wallets}
use pstu_hack_final.Sessions.Revocation.{logout_ends_access}
use pstu_hack_final.Ledger.Effects.{completed_transaction}
use pstu_hack_final.Auth.Funding.{register_funds, Funded}
use pstu_hack_final.Env.{audit}
use pstu_hack_final.Db.Checks.{
  entry_violation, balance_violation, transaction_violation, wallet_violation, user_violation,
  audit_violation,
}
use pstu_hack_final.Db.Statements.{
  complete_transaction, insert_entry, update_balance, insert_transaction, insert_wallet,
  insert_user, insert_audit,
}
use pstu_hack_final.Auth.Lockout.{unknown_phone_refused}
use pstu_hack_final.Errors.{TokenMessage, DomainError, Exn}
use pstu_hack_final.Tests.Samples.{mint, bob, conn, sample, caller, calm, alice, conn_of, plain}
use pstu_hack_final.Security.{make_reference, hash_secret, TokenLib}
use pstu_hack_final.Auth.{
  pay_grant, new_wallet, user_row, grant_posting, end_registration, register_rows, register,
  NewUser, authenticate,
}
use pstu_hack_final.Sessions.{get_current_principal, logout, rotate_tokens}
use pstu_hack_final.Models.{Transaction, Session, User}
use pstu_hack_final.Db.Tables.{Conn}

abbrev pub carol : NewUser
carol = record {
  phone = codes "01733333333";
  full_name = codes "Carol";
  password = codes "secret12";
  pin = codes "1234";
}

abbrev failing : User
failing = record alice { failed_login_count = 4 }

abbrev failing_conn : Conn
failing_conn = conn_of (record sample { users = bob ∷ failing ∷ [] })

abbrev wrong_fifth : Conn
wrong_fifth = (authenticate plain calm caller (codes "01711111111") (codes "x") failing_conn).1

unknown_phone_refused_test :
    ((authenticate plain calm caller (codes "01799999999") (codes "x") conn).0
      ≡ err (Exn.domain DomainError.invalid_credentials))
    × ((authenticate plain calm caller (codes "01799999999") (codes "x") conn).1.committed.users
        ≡ sample.users)
unfolding text_eq
unknown_phone_refused_test =
    unknown_phone_refused plain calm caller (codes "01799999999") (codes "x") conn refl

-- A stand-in for the token libraries: a digest is the text itself, and an identifier is read by its
-- last digit.
abbrev pub last : ℕ → Text → ℕ
last n [] = n
last n (c ∷ s) = last c s

abbrev pub toy : TokenLib
toy = record { sha256 = λ raw. raw; parse_uuid = λ t. some (last 48 t - 48); encode = λ c. [] }

abbrev token : Text
token = codes "7.s"

abbrev login_session : Bool → Session
login_session b = record {
  id = 7;
  family_id = 7;
  user_id = 10;
  refresh_hash = token;
  user_agent = none;
  client_ip = none;
  is_blocked = b;
  expires_at = 1000;
  created_at = 5;
}

abbrev session_conn : Bool → Conn
session_conn b = conn_of (record sample { sessions = login_session b ∷ [] })

abbrev after_rotation : Conn
after_rotation = (rotate_tokens toy calm caller token (session_conn false)).1

logout_ends_access_example :
    ((logout calm caller 7 (session_conn false)).0 ≡ ok tt)
    × ((get_current_principal 10 7 (fresh (logout calm caller 7 (session_conn false)).1)).0
        ≡ err (Exn.domain (DomainError.invalid_token TokenMessage.session_ended)))
logout_ends_access_example =
    logout_ends_access calm caller 7 10 (login_session false) (session_conn false) refl refl

abbrev after_registration : Conn
after_registration = (register plain calm caller carol conn).1

abbrev carols_grant : Transaction
carols_grant = completed_transaction calm 52 (grant_posting calm mint (new_wallet calm))

registers :
    register plain calm caller carol conn
    ≡ (ok (user_row plain calm carol, carols_grant), after_registration)
unfolding register register_rows end_registration insert_user user_violation insert_wallet
    wallet_violation pay_grant hash_secret audit insert_audit audit_violation lock_wallets
    sorted_set insert_id select_wallets post_double_entry insert_transaction transaction_violation
    update_balance balance_violation insert_entry entry_violation complete_transaction text_eq
    make_reference ◌+ℤ◌ ◌-ℤ◌ neg ◌>>=◌
registers = λ i. (ok (user_row plain calm carol, carols_grant), after_registration)

register_funds_example : Funded plain calm carol conn after_registration
register_funds_example =
    register_funds plain calm caller carol conn after_registration (user_row plain calm carol)
      carols_grant (λ d. refl) registers
