-- ===== src/Ledger/Effects.antt =====
-- What `post_double_entry` (app/services/ledger_service.py) does when it returns.
use pstu_hack_final.Common.{
  ℕ, ◌+◌, ◌≡◌, refl, ap, ◌≢◌, ◌⊎◌, true, Option, none, some, List, [], ◌∷◌, arith, ◌==◌,
  if◌then◌else◌,
}
use pstu_hack_final.Common.Int.{ℤ, pos, ◌+ℤ◌, ◌-ℤ◌, neg, ◌≤ℤ◌}
use pstu_hack_final.Db.Actions.{ok, ◌>>=◌}
use pstu_hack_final.Ledger.{post_double_entry, pending_transaction, entry, Posting}
use pstu_hack_final.Db.Tables.{has_wallet, find_wallet, Conn, Tables}
use pstu_hack_final.Db.Statements.{
  insert_transaction, update_balance, insert_entry, complete_transaction, set_balance,
  set_completed,
}
use pstu_hack_final.Db.Checks.{transaction_violation, balance_violation}
use pstu_hack_final.Env.{Env}
use pstu_hack_final.Models.{Wallet, TxnStatus, Transaction, LedgerEntry}

module _ (env : Env) (id : ℕ) (p : Posting) where
  open p use {debit_wallet as src, credit_wallet as dst, amount}

  abbrev pub debited : ℤ
  debited = src.balance -ℤ amount

  abbrev pub credited : ℤ
  credited = dst.balance +ℤ amount

  abbrev pub completed_transaction : Transaction
  completed_transaction = record (pending_transaction env id p) {
    status = TxnStatus.completed;
    completed_at = some env.now;
  }

  -- The two entries, the credit first, since rows stand newest first.
  abbrev pub entries : ℕ → List LedgerEntry → List LedgerEntry
  entries seq es =
      record (entry env id dst.id amount credited) { id = seq + 1 }
      ∷ record (entry env id src.id (neg amount) debited) { id = seq }
      ∷ es

  abbrev pub posted : ℕ → Tables → Tables
  posted seq d = record d {
    wallets = set_balance dst.id credited env.now (set_balance src.id debited env.now d.wallets);
    transactions = set_completed id env.now (pending_transaction env id p ∷ d.transactions);
    ledger_entries = entries seq d.ledger_entries;
  }

  abbrev pub posted_conn : Conn → Conn
  posted_conn c = record c { work = posted c.entry_seq c.work; entry_seq = c.entry_seq + 1 + 1 }

  abbrev with_transaction : Tables → Tables
  with_transaction d = record d { transactions = pending_transaction env id p ∷ d.transactions }

  abbrev with_debit : Tables → Tables
  with_debit d = record (with_transaction d) {
    wallets = set_balance src.id debited env.now d.wallets;
  }

  -- What holds when a posting has returned.
  pub record Posted (c : Conn) (t : Transaction) (c' : Conn) : Type 0 where
    pub positive : pos 1 ≤ℤ amount
    pub covered : (p.allow_overdraft ≡ true) ⊎ (amount ≤ℤ src.balance)
    pub admitted : transaction_violation (pending_transaction env id p) c.work ≡ none
    pub debit_admitted : balance_violation src.id debited (with_transaction c.work) ≡ none
    pub credit_admitted : balance_violation dst.id credited (with_debit c.work) ≡ none
    pub result : t ≡ completed_transaction
    pub after : c' ≡ posted_conn c

  pub post_double_entry-Posted :
      (c c' : Conn) (t : Transaction) → post_double_entry env id p c ≡ (ok t, c') → Posted c t c'
  unfolding ◌>>=◌ post_double_entry insert_transaction update_balance insert_entry
      complete_transaction
  post_double_entry-Posted c c' t h = record {
    positive = ground arith;
    covered = ground arith;
    admitted = ground arith;
    debit_admitted = ground arith;
    credit_admitted = ground arith;
    result = ground arith;
    after = ground arith;
  }

-- What the constraints of a posted transaction say.
pub record Admitted (p : Posting) (d : Tables) : Type 0 where
  pub distinct : p.debit_wallet.id ≢ p.credit_wallet.id
  pub debit_known : has_wallet p.debit_wallet.id d.wallets ≡ true
  pub credit_known : has_wallet p.credit_wallet.id d.wallets ≡ true

pub transaction_violation-Admitted :
    (env : Env) (id : ℕ) (p : Posting) (d : Tables)
    → transaction_violation (pending_transaction env id p) d ≡ none
    → Admitted p d
unfolding transaction_violation
transaction_violation-Admitted env id p d h = record {
  distinct = ground arith;
  debit_known = ground arith;
  credit_known = ground arith;
}

-- The balance of a wallet, if there is one.
abbrev pub balance_of : ℕ → Tables → Option ℤ
balance_of i d = elim (find_wallet i d.wallets) [ none ↦ none | some w ↦ some w.balance ]

abbrev balance_in : ℕ → List Wallet → Option ℤ
balance_in i ws = elim (find_wallet i ws) [ none ↦ none | some w ↦ some w.balance ]

balance_in-set_balance :
    (k i : ℕ) (b : ℤ) (now : ℕ) (ws : List Wallet)
    → balance_in k (set_balance i b now ws)
      ≡ (if k == i then (if has_wallet i ws then some b else none) else balance_in k ws)
balance_in-set_balance k i b now [] = ground arith
balance_in-set_balance k i b now (w ∷ ws) = ground (arith, balance_in-set_balance k i b now ws)

pub has_wallet-set_balance :
    (k i : ℕ) (b : ℤ) (now : ℕ) (ws : List Wallet)
    → has_wallet k (set_balance i b now ws) ≡ has_wallet k ws
has_wallet-set_balance k i b now [] = refl
has_wallet-set_balance k i b now (w ∷ ws) = ground (arith, has_wallet-set_balance k i b now ws)

-- What a posting does to the balances: the debit wallet loses the amount, the credit wallet gains
-- it, and no other wallet changes.
pub record Moves (env : Env) (id : ℕ) (p : Posting) (d d' : Tables) : Type 0 where
  pub debit : balance_of p.debit_wallet.id d' ≡ some (debited env id p)
  pub credit : balance_of p.credit_wallet.id d' ≡ some (credited env id p)
  pub others :
      (k : ℕ) → k ≢ p.debit_wallet.id → k ≢ p.credit_wallet.id → balance_of k d' ≡ balance_of k d

pub Posted-Moves :
    (env : Env) (id : ℕ) (p : Posting) (c c' : Conn) (t : Transaction)
    → Posted env id p c t c'
    → Moves env id p c.work c'.work
Posted-Moves env id p c c' t h =
    let f = transaction_violation-Admitted env id p c.work h.admitted in
    let src = p.debit_wallet.id in
    let dst = p.credit_wallet.id in
    let ws = c.work.wallets in
    let ws' = set_balance src (debited env id p) env.now ws in
    let l1 = balance_in-set_balance src dst (credited env id p) env.now ws' in
    let l2 = balance_in-set_balance src src (debited env id p) env.now ws in
    let l3 = balance_in-set_balance dst dst (credited env id p) env.now ws' in
    let l4 = has_wallet-set_balance dst src (debited env id p) env.now ws in
    record {
      debit = rw h.after (ground (arith, f.distinct, f.debit_known, l1, l2));
      credit = rw h.after (ground (arith, f.credit_known, l3, l4));
      others = λ k ns nd. rw h.after (
          ground (
            arith,
            balance_in-set_balance k dst (credited env id p) env.now ws',
            balance_in-set_balance k src (debited env id p) env.now ws,
          ));
    }

-- A posting that returns moved a positive amount that the debit wallet covers unless an overdraft
-- is allowed: the debit wallet's balance falls by it, the credit wallet's rises by it, no other
-- balance changes, and the ledger gains the two signed entries with the new balances.
pub post_double_entry-Moves :
    (env : Env) (id : ℕ) (p : Posting) (c c' : Conn) (t : Transaction)
    → post_double_entry env id p c ≡ (ok t, c')
    → (pos 1 ≤ℤ p.amount)
      × ((p.allow_overdraft ≡ true) ⊎ (p.amount ≤ℤ p.debit_wallet.balance))
      × Moves env id p c.work c'.work
      × (c'.work.ledger_entries ≡ entries env id p c.entry_seq c.work.ledger_entries)
post_double_entry-Moves env id p c c' t h =
    let f = post_double_entry-Posted env id p c c' t h in
    (
      f.positive,
      f.covered,
      Posted-Moves env id p c c' t f,
      ap (λ (x : Conn). x.work.ledger_entries) f.after,
    )
