-- ===== src/System/Appending.antt =====
-- The append-only tables of migrations/versions/0001_initial_schema.py over any sequence of requests.
use pstu_hack_final.Security.{Bcrypt}
use pstu_hack_final.Common.{Option, none, some, List, [], ◌∷◌, All}
use pstu_hack_final.Common.Text.{Text}
use pstu_hack_final.Db.Gives.{Keeps-Leaves}
use pstu_hack_final.Db.Rules.{keeps_rules, Keeps-bind, Keeps}
use pstu_hack_final.Schemas.{TransferFields}
use pstu_hack_final.Models.{User}
use pstu_hack_final.Auth.{NewUser}
use pstu_hack_final.Api.Transfers.{request_key, send_and_show}
use pstu_hack_final.Api.Accounts.{LoginRequest, login_and_show, register_and_show}
use pstu_hack_final.System.Rules.{
  show_request-Keeps, to_out-Keeps, own_wallet_id-Keeps, own_wallet-Keeps, run-committed, Works,
}
use pstu_hack_final.Api.MoneyRequests.{
  cancel_and_show, decline_and_show, approve_and_show, create_and_show,
}
use pstu_hack_final.Sessions.Consistency.{
  logout-Keeps, rotate_tokens-Keeps, issue_tokens-Keeps, authenticate-Keeps, Free,
}
use pstu_hack_final.Env.{Caller, Env}
use pstu_hack_final.System.{run, Step}
use pstu_hack_final.Db.Tables.{Conn, Tables}
use pstu_hack_final.Api.{Libs}
use pstu_hack_final.System.Additive.{Additive}
use pstu_hack_final.System.Growing.{
  Waits, send_money-Keeps, register-Keeps, approve-Keeps, decline-Keeps, cancel-Keeps,
  create_request-Keeps,
}

module _ {Q : Tables → Type 0} (free : Additive Q) where
  Additive-Free : Free Q
  Additive-Free = record {
    rows = λ d u s v. free.rows d u s d.wallets d.transactions d.money_requests v;
    log = free.log;
  }

  module _ (libs : Libs) (env : Env) (w : Waits Q env) where
    register_and_show-Keeps :
        (caller : Caller) (n : NewUser) → Keeps Q (register_and_show libs env caller n)
    unfolding register_and_show
    register_and_show-Keeps caller n =
        let issue = issue_tokens-Keeps Additive-Free in
        Keeps-bind _ _ (register-Keeps free env w libs.bcrypt caller n)
          λ made. search (keeps_rules, issue, own_wallet-Keeps) depth 8

    login_and_show-Keeps :
        (caller : Caller) (q : LoginRequest) → Keeps Q (login_and_show libs env caller q)
    unfolding login_and_show
    login_and_show-Keeps caller q =
        let login = λ (lib : Bcrypt) (phone password : Text).
          authenticate-Keeps Additive-Free lib env caller phone password w.row in
        let issue = issue_tokens-Keeps Additive-Free in search (keeps_rules, login, issue)

    send_and_show-Keeps :
        (caller : Caller) (u : User) (f : TransferFields × Option Text)
        → Keeps Q (send_and_show libs env caller u f)
    unfolding send_and_show
    send_and_show-Keeps caller u f =
        Keeps-bind _ _ (send_money-Keeps free _ (waits f.1) libs.bcrypt caller _)
          λ sent. search (keeps_rules, own_wallet_id-Keeps, to_out-Keeps)
      where
        waits : (k : Option Text) → Waits Q (request_key env k).1
        waits none = record { row = w.row; wallets = w.wallets }
        waits (some []) = record { row = w.row; wallets = w.wallets }
        waits (some (x ∷ k)) = w

    Additive-Works : Works Q libs env
    unfolding create_and_show approve_and_show decline_and_show cancel_and_show
    Additive-Works = record {
      register = λ caller n. Keeps-Leaves _ (register_and_show-Keeps caller n);
      login = login_and_show-Keeps;
      refresh = λ caller t. rotate_tokens-Keeps Additive-Free libs.tokens env caller t w.row;
      logout = logout-Keeps Additive-Free env;
      transfer = send_and_show-Keeps;
      request = λ caller u f.
          Keeps-bind _ _ (create_request-Keeps free env caller _) λ q. show_request-Keeps _ _ _;
      approve = λ caller u i pin.
          Keeps-bind _ _ (approve-Keeps free env w libs.bcrypt caller u i pin)
            λ d. show_request-Keeps _ _ _;
      decline = λ caller u i.
          Keeps-bind _ _ (decline-Keeps free env w caller u i) λ q. show_request-Keeps _ _ _;
      cancel = λ caller u i.
          Keeps-bind _ _ (cancel-Keeps free env w caller u i) λ q. show_request-Keeps _ _ _;
    }

-- Rows were added in front, and none was changed or taken away.
pub data Grown {ℓ} {A : Type ℓ} (old : List A) : List A → Type ℓ where
  same : Grown old old
  added : {xs : List A} (x : A) → Grown old xs → Grown old (x ∷ xs)

-- Both append-only tables have only grown.
pub record HasGrown (old d : Tables) : Type 0 where
  pub entries : Grown old.ledger_entries d.ledger_entries
  pub events : Grown old.audit_log d.audit_log

HasGrown-Additive : (old : Tables) → Additive (HasGrown old)
HasGrown-Additive old = record {
  rows = λ d u s w t r v. record { entries = v.entries; events = v.events };
  entry = λ d e v. record { entries = Grown.added e v.entries; events = v.events };
  log = λ d a v. record { entries = v.entries; events = Grown.added a v.events };
}

All-Waits :
    (old : Tables) (libs : Libs) (steps : List Step)
    → All (λ (s : Step). Waits (HasGrown old) s.env) steps
    → All (λ (s : Step). Works (HasGrown old) libs s.env) steps
All-Waits old libs [] a = tt
All-Waits old libs (s ∷ ss) a =
    (Additive-Works (HasGrown-Additive old) libs s.env a.0, All-Waits old libs ss a.1)

-- Whatever requests are served, with whatever outcomes, the committed ledger entries and the committed audit log have only got new rows: none is changed or deleted, if what else commits during the waits only adds to them.
pub run-append_only :
    (libs : Libs) (steps : List Step) (c : Conn)
    → All (λ (s : Step). Waits (HasGrown c.committed) s.env) steps
    → HasGrown c.committed (run libs steps c).committed
run-append_only libs steps c a =
    run-committed (HasGrown c.committed) libs steps c (All-Waits c.committed libs steps a)
      (record { entries = Grown.same; events = Grown.same })
