-- ===== src/Statement/Rows.antt =====
-- app/services/statement_service.py: the rows of a page with the other side's name, and the
-- statement endpoint of app/routers/wallet.py.
use pstu_hack_final.Common.{
  ℕ, Option, none, some, List, [], ◌∷◌, map, ◌==◌, if◌then◌else◌, keep, any, is_eq,
}
use pstu_hack_final.Common.Int.{ℤ}
use pstu_hack_final.Common.Text.{Text}
use pstu_hack_final.Db.Actions.{Action, pure, query, or_throw, ◌>>=◌}
use pstu_hack_final.Errors.{Exn}
use pstu_hack_final.Schemas.{and_then}
use pstu_hack_final.Statement.{Position, page}
use pstu_hack_final.Api.{party, Party}
use pstu_hack_final.Db.Tables.{find_user, find_transaction, wallet_of, Tables}
use pstu_hack_final.Statement.Cursor.{encode_cursor, decode_cursor, Formats}
use pstu_hack_final.Models.{Direction, direction, User, LedgerEntry, Transaction, Wallet, TxnType}

pub record StatementEntry : Type 0 where
  pub id : ℕ
  pub reference : Text
  pub txn_type : TxnType
  pub direction : Direction
  pub amount : ℤ
  pub balance_after : ℤ
  pub counterparty : Option Party
  pub note : Option Text
  pub created_at : ℕ

-- The wallet of the transaction that is not the entry's.
abbrev pub other_wallet : LedgerEntry → Transaction → Option ℕ
other_wallet e t =
    if is_eq t.sender_wallet_id e.wallet_id then t.receiver_wallet_id else t.sender_wallet_id

-- The SELECT gives each entry with its transaction.
abbrev pub Pair : Type 0
Pair = LedgerEntry × Transaction

abbrev pub add_pair : LedgerEntry → Option Transaction → List Pair → List Pair
add_pair e none ps = ps
add_pair e (some t) ps = (e, t) ∷ ps

unfoldable pub with_transactions : Tables → List LedgerEntry → List Pair
with_transactions d [] = []
with_transactions d (e ∷ es) =
    add_pair e (find_transaction e.transaction_id d.transactions) (with_transactions d es)

-- The set of the other sides' wallets.
other_wallet_ids : List Pair → List ℕ
other_wallet_ids [] = []
other_wallet_ids (p ∷ ps) =
    let rest = other_wallet_ids ps in
    elim (other_wallet p.0 p.1) [ some w ↦ w ∷ rest | none ↦ rest ]

-- The owners of wallets: the mint has none.
owners : Tables → List Wallet → List (ℕ × User)
owners d [] = []
owners d (w ∷ ws) =
    let rest = owners d ws in
    elim (and_then w.user_id (λ u. find_user u d.users)) [ some u ↦ (w.id, u) ∷ rest | none ↦ rest ]

-- `_counterparty_names`: one query for all.
unfoldable pub counterparty_names : Tables → List ℕ → List (ℕ × User)
unfolding owners
counterparty_names d [] = []
counterparty_names d (i ∷ is) = owners d (keep (λ w. any (λ j. j == w.id) (i ∷ is)) d.wallets)

-- `names.get(i)`
abbrev pub get_name : ℕ → List (ℕ × User) → Option User
get_name i [] = none
get_name i (p ∷ ps) = if p.0 == i then some p.1 else get_name i ps

abbrev pub statement_entry : List (ℕ × User) → Pair → StatementEntry
statement_entry names (e, t) = record {
  id = e.id;
  reference = t.reference;
  txn_type = t.txn_type;
  direction = direction e;
  amount = e.amount;
  balance_after = e.balance_after;
  counterparty =
      and_then (other_wallet e t) (λ w. and_then (get_name w names) (λ u. some (party u)));
  note = t.note;
  created_at = e.created_at;
}

unfoldable pub entry_rows : Tables → List LedgerEntry → List StatementEntry
unfolding other_wallet_ids with_transactions
entry_rows d es =
    let pairs = with_transactions d es in
    map (statement_entry (counterparty_names d (other_wallet_ids pairs))) pairs

-- No cursor, an empty one and a malformed one start at the first page.
unfoldable pub start_of : Formats → Option Text → Option Position
start_of lib none = none
start_of lib (some []) = none
start_of lib (some (c ∷ s)) = decode_cursor lib (c ∷ s)

unfoldable pub statement_page :
    Formats → Tables → ℕ → ℕ → Option Text → List StatementEntry × Option Text
statement_page lib d w limit cursor =
    let (shown, next) = page d w limit (start_of lib cursor) in
    (entry_rows d shown, and_then next (λ p. some (encode_cursor lib p)))

-- `StatementPage`
pub record StatementPage : Type 0 where
  pub entries : List StatementEntry
  pub next_cursor : Option Text
  pub balance : ℤ

unfoldable pub show_statement : Formats → User → ℕ → Option Text → Action StatementPage
show_statement lib user limit cursor = do
  found ← query (λ d. wallet_of user.id d.wallets)
  wallet ← or_throw found Exn.attribute_error
  shown ← query (λ d. statement_page lib d wallet.id limit cursor)
  pure (record { entries = shown.0; next_cursor = shown.1; balance = wallet.balance })
