-- ===== src/Statement.antt =====
-- app/services/statement_service.py: the pages of a wallet's statement, by a key.
pub mod Order
pub mod Cuts
pub mod Pages
pub mod Lookup
pub mod Cursor
pub mod Rows
pub mod Following
use pstu_hack_final.Db.Tables.{has_transaction, Tables}
use pstu_hack_final.Models.{LedgerEntry}
use pstu_hack_final.Common.{
  sort_by, ℕ, zero, suc, ◌+◌, Bool, true, ◌&&◌, ◌||◌, Option, none, some, List, [], ◌∷◌, ◌++◌, ltb,
  ◌==◌, if◌then◌else◌, length, take, keep,
}

-- The ordering pair of an entry.
abbrev pub Position : Type 0
Position = ℕ × ℕ

abbrev pub position_of : LedgerEntry → Position
position_of e = (e.created_at, e.id)

-- `(created_at, id) < position`
abbrev pub precedes : Position → Position → Bool
precedes p q = ltb p.0 q.0 || (p.0 == q.0 && ltb p.1 q.1)

-- `ORDER BY created_at DESC, id DESC`
abbrev pub newer : LedgerEntry → LedgerEntry → Bool
newer a b = precedes (position_of b) (position_of a)

-- The entries of the wallet that the join with the transactions keeps.
abbrev pub is_listed : Tables → ℕ → LedgerEntry → Bool
is_listed d w e = (e.wallet_id == w) && has_transaction e.transaction_id d.transactions

-- The whole statement, newest entry first.
unfoldable pub statement : Tables → ℕ → List LedgerEntry
statement d w = sort_by newer (keep (is_listed d w) d.ledger_entries)

-- The condition that a cursor adds.
abbrev pub is_after : Option Position → LedgerEntry → Bool
is_after none e = true
is_after (some p) e = precedes (position_of e) p

-- The SELECT of a page.
unfoldable pub select_entries : Tables → ℕ → Option Position → ℕ → List LedgerEntry
select_entries d w p n =
    take n (sort_by newer (keep (λ e. is_listed d w e && is_after p e) d.ledger_entries))

-- `max(1, min(limit, MAX_PAGE))`
abbrev pub clamp : ℕ → ℕ
clamp n = if ltb n 1 then 1 else if ltb 100 n then 100 else n

abbrev pub last_position : List LedgerEntry → Option Position
last_position [] = none
last_position (e ∷ []) = some (position_of e)
last_position (e ∷ f ∷ es) = last_position (f ∷ es)

-- The entries of a page and the position of the next one: one row more than the limit tells
-- whether there is one.
unfoldable pub page : Tables → ℕ → ℕ → Option Position → List LedgerEntry × Option Position
page d w limit p =
    let pairs = select_entries d w p (clamp limit + 1) in
    let shown = take (clamp limit) pairs in
    (shown, if ltb (clamp limit) (length pairs) then last_position shown else none)

-- The pages one after the other, as a client follows the cursors, at most `n` of them.
unfoldable pub follow : Tables → ℕ → ℕ → ℕ → Option Position → List LedgerEntry
follow d w limit zero p = []
follow d w limit (suc n) p =
    let shown = (page d w limit p).0 in
    let rest = follow d w limit n (page d w limit p).1 in
    shown ++ elim ((page d w limit p).1) [ none ↦ [] | some q ↦ rest ]
