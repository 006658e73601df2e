-- ===== src/Tests/SystemTests.antt =====
-- Runs of the whole service, its locks and its check at concrete inputs.
use pstu_hack_final.Common.{
  suc, ◌-◌, ◌*◌, ◌≤◌, ◌≡◌, refl, ◌↔◌, ◌⊎◌, true, none, some, List, [], ◌∷◌, All, is_some,
}
use pstu_hack_final.Common.Text.{codes, text_eq}
use pstu_hack_final.Db.Actions.{◌>>=◌}
use pstu_hack_final.Ledger.Waiting.{Takes, Reachable, work_left, process, Advanced, Process}
use pstu_hack_final.Ledger.{lock_wallets}
use pstu_hack_final.System.Growing.{Waits}
use pstu_hack_final.System.Appending.{run-append_only, HasGrown}
use pstu_hack_final.Requests.{
  effective_status, refuse_status, assert_actionable, lock_request, decline,
}
use pstu_hack_final.Sessions.{get_current_principal}
use pstu_hack_final.Errors.{DomainError}
use pstu_hack_final.Api.MoneyRequests.{decline_and_show, decline_request}
use pstu_hack_final.Db.Tables.{Lock, Conn}
use pstu_hack_final.Api.{
  checked_payload, decode_access_token, bearer_token, principal_of, endpoint, domain_error_handler,
  Libs,
}
use pstu_hack_final.Models.{RequestStatus, Session}
use pstu_hack_final.System.Decided.{run-decided}
use pstu_hack_final.Tests.RequestTests.{declined_row}
use pstu_hack_final.Requests.Rows.{Holds}
use pstu_hack_final.Api.Accounts.{ready}
use pstu_hack_final.System.{Call, migrated, run, Step}
use pstu_hack_final.Transfer.Refinement.{serve_all-Reaches, serve_all, accounts, Reaches, Attempt}
use pstu_hack_final.Auth.{NewUser}
use pstu_hack_final.Tests.TransferTests.{order, calm-IsQuiet}
use pstu_hack_final.Tests.SchemaTests.{tea}
use pstu_hack_final.System.Running.{run-reconcile}
use pstu_hack_final.Ledger.Progress.{no_deadlock}
use pstu_hack_final.Tests.AuthTests.{last, toy, carol}
use pstu_hack_final.Tests.ApiTests.{dora_session, http, libs}
use pstu_hack_final.Tests.Samples.{calm-Respects, conn, caller, sample, conn_of, calm}
use pstu_hack_final.Ledger.Reconcile.{FourInvariants, reconcile}
use pstu_hack_final.Seed.{
  among, exit_code_iff, armed_triggers, find_mint, expected_tables, Database, exit_code,
}

abbrev newcomer : NewUser
newcomer = record carol { pin = codes "8317" }

-- A new user, her login, and a transfer that nobody is logged in for.
abbrev steps : List Step
steps =
    record { env = calm; http = http; call = Call.register newcomer }
    ∷ record {
      env = calm;
      http = http;
      call = Call.login (record { phone = carol.phone; password = carol.password });
    }
    ∷ record { env = calm; http = http; call = Call.transfer tea none }
    ∷ []

run-reconcile_example :
    ((reconcile (run libs steps (conn_of (migrated 1))).committed).all_hold ≡ true)
    × ((ready (run libs steps (conn_of (migrated 1))).committed).balanced ≡ true)
run-reconcile_example =
    run-reconcile libs steps 1 (conn_of (migrated 1)) refl
      (calm-Respects, (calm-Respects, (calm-Respects, tt)))

-- Identifiers are tens: the token "12" is Alice's, user 10, with session 20.
abbrev tens : Libs
tens = record libs { tokens = record toy { parse_uuid = λ t. some ((last 48 t - 48) * 10) } }

abbrev alice_session : Session
alice_session = record dora_session { id = 20; family_id = 20; user_id = 10 }

abbrev refused : Conn
refused =
    conn_of (record sample { sessions = alice_session ∷ []; money_requests = declined_row ∷ [] })

-- Alice is asked who she is, and the request that she has refused is refused again.
abbrev again : Step
again = record { env = calm; http = http; call = Call.decline (codes "4") }

again_test :
    ((decline_request tens calm http (codes "4") refused).0
      ≡ domain_error_handler (DomainError.request_not_pending RequestStatus.declined))
unfolding decline_request domain_error_handler endpoint principal_of bearer_token
    decode_access_token checked_payload text_eq get_current_principal decline_and_show decline
    lock_request assert_actionable refuse_status effective_status ◌>>=◌
again_test = refl

abbrev second_thoughts : List Step
second_thoughts =
    again
    ∷ record {
      env = calm;
      http = http;
      call = Call.approve (codes "4") (record { pin = codes "8317"; extra = [] });
    }
    ∷ []

run-decided_example : Holds declined_row (run tens second_thoughts refused).committed.money_requests
run-decided_example =
    run-decided declined_row tens second_thoughts refused refl
      (
        record { row = λ d v. v; wallets = λ d v. v },
        (record { row = λ d v. v; wallets = λ d v. v }, tt),
      )
      (record { there = refl; only = (λ e. refl, tt) })

calm-Waits : Waits (HasGrown sample) calm
calm-Waits = record { row = λ d v. v; wallets = λ d v. v }

run-append_only_example : HasGrown sample (run libs steps conn).committed
run-append_only_example =
    run-append_only libs steps conn (calm-Waits, (calm-Waits, (calm-Waits, tt)))

abbrev attempts : List Attempt
attempts =
    record { env = calm; caller = caller; order = order }
    ∷ record { env = calm; caller = caller; order = order }
    ∷ []

serve_all-Reaches_example : Reaches (accounts sample) (accounts (serve_all attempts conn).committed)
serve_all-Reaches_example = serve_all-Reaches attempts conn (calm-IsQuiet, (calm-IsQuiet, tt))

-- Two transfers between the same two wallets, one in each direction.
abbrev there : List Lock
there = (lock_wallets (21 ∷ 11 ∷ []) conn).1.locks

abbrev back : List Lock
back = (lock_wallets (11 ∷ 21 ∷ []) conn).1.locks

abbrev both : List Process
both = process [] there ∷ process [] back ∷ []

no_deadlock_example :
    (both ≡ []) ⊎ ((qs : List Process) × Advanced both qs × (suc (work_left qs) ≡ work_left both))
no_deadlock_example = no_deadlock both (
    Reachable.begun there (process [] back ∷ []) (Takes.payment (21 ∷ 11 ∷ []) conn refl)
      (Reachable.begun back [] (Takes.payment (11 ∷ 21 ∷ []) conn refl) Reachable.idle))

abbrev database : Database
database = record {
  table_names = expected_tables;
  trigger_names = codes "trg_ledger_append_only" ∷ codes "trg_audit_append_only" ∷ [];
  rows = sample;
}

exit_code_iff_example :
    ((exit_code database ≡ 0) ↔ (
      All (λ t. among expected_tables t ≡ true) expected_tables
      × (is_some (find_mint sample) ≡ true)
      × FourInvariants sample
      × (armed_triggers database ≡ 2)))
    × (exit_code database ≤ 1)
exit_code_iff_example = exit_code_iff database
