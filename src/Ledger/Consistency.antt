-- ===== src/Ledger/Consistency.antt =====
-- The four invariants of README.md and app/services/ledger_service.py as a predicate on tables,
-- and that a posting keeps them.
use pstu_hack_final.Common.{
  ℕ, ◌≡◌, ◌∙◌, ◌≢◌, ◌⊎◌, true, false, ◌&&◌, not, none, some, List, [], ◌∷◌, arith, ◌==◌, any, All,
  All-find,
}
use pstu_hack_final.Common.Int.{ℤ, pos, ◌≤ℤ◌, ltb_ℤ, int_laws}
use pstu_hack_final.Db.Actions.{ok}
use pstu_hack_final.Db.Statements.{set_balance}
use pstu_hack_final.Models.{Transaction, is_system}
use pstu_hack_final.Ledger.Sums.{txn_sum, sum_amounts, wallet_sum}
use pstu_hack_final.Db.Tables.{find_wallet, Conn, has_wallet, Tables}
use pstu_hack_final.Db.Checks.{balance_violation}
use pstu_hack_final.Ledger.{post_double_entry, LedgerEntry, Wallet, Env, Posting}
use pstu_hack_final.Ledger.Effects.{
  has_wallet-set_balance, transaction_violation-Admitted, post_double_entry-Posted, posted, debited,
  credited, entries,
}

-- Every wallet that an entry names exists.
abbrev pub Known : List Wallet → LedgerEntry → Type 0
Known ws e = has_wallet e.wallet_id ws ≡ true

-- The projection of a wallet agrees with the ledger.
abbrev pub NoDrift : List LedgerEntry → Wallet → Type 0
NoDrift es w = w.balance ≡ wallet_sum w.id es

abbrev pub IsSolvent : Wallet → Type 0
IsSolvent w = (is_system w.wallet_type ≡ true) ⊎ (pos 0 ≤ℤ w.balance)

pub record Books (es : List LedgerEntry) (ws : List Wallet) : Type 0 where
  pub conservation : sum_amounts es ≡ pos 0
  pub balanced : (t : ℕ) → txn_sum t es ≡ pos 0
  pub no_drift : All (NoDrift es) ws
  pub solvent : All IsSolvent ws
  pub known : All (Known ws) es

abbrev pub Consistent : Tables → Type 0
Consistent d = Books d.ledger_entries d.wallets

pub All-Known-mono :
    (ws ws' : List Wallet) (es : List LedgerEntry)
    → ((k : ℕ) → has_wallet k ws ≡ true → has_wallet k ws' ≡ true)
    → All (Known ws) es
    → All (Known ws') es
All-Known-mono ws ws' [] h a = tt
All-Known-mono ws ws' (e ∷ es) h a = (h e.wallet_id a.0, All-Known-mono ws ws' es h a.1)

-- An update that its constraint admits keeps every user's balance at zero or more.
set_balance-IsSolvent :
    (i : ℕ) (b : ℤ) (now : ℕ) (d : Tables) (ws : List Wallet)
    → any (λ w. w.id == i && not (is_system w.wallet_type) && ltb_ℤ b (pos 0)) ws ≡ false
    → All IsSolvent ws
    → All IsSolvent (set_balance i b now ws)
set_balance-IsSolvent i b now d [] h a = tt
set_balance-IsSolvent i b now d (w ∷ ws) h a = ground (arith, set_balance-IsSolvent i b now d ws)

admitted-IsSolvent :
    (i : ℕ) (b : ℤ) (now : ℕ) (d : Tables)
    → balance_violation i b d ≡ none
    → All IsSolvent d.wallets
    → All IsSolvent (set_balance i b now d.wallets)
unfolding balance_violation
admitted-IsSolvent i b now d h a = set_balance-IsSolvent i b now d d.wallets (ground arith) a

module _ (env : Env) (id : ℕ) (p : Posting) where
  open p use {debit_wallet as src, credit_wallet as dst, amount}

  -- Both entries of a posting cancel, in total and in each transaction.
  sum_amounts-entries :
      (seq : ℕ) (es : List LedgerEntry) → sum_amounts (entries env id p seq es) ≡ sum_amounts es
  sum_amounts-entries seq es = omega int_laws

  txn_sum-entries :
      (t seq : ℕ) (es : List LedgerEntry) → txn_sum t (entries env id p seq es) ≡ txn_sum t es
  txn_sum-entries t seq es = grind int_laws

  -- Each wallet moves by what its new balance says.
  NoDrift-entries :
      (seq : ℕ) (es : List LedgerEntry) (ws : List Wallet)
      → src.id ≢ dst.id
      → src.balance ≡ wallet_sum src.id es
      → dst.balance ≡ wallet_sum dst.id es
      → All (NoDrift es) ws
      → All (NoDrift (entries env id p seq es)) (
          set_balance dst.id
            (credited env id p)
            env.now
            (set_balance src.id (debited env id p) env.now ws))
  NoDrift-entries seq es [] ne hs hd a = tt
  NoDrift-entries seq es (w ∷ ws) ne hs hd a =
      (grind int_laws, NoDrift-entries seq es ws ne hs hd a.1)

has_wallet-posted :
    (env : Env) (id : ℕ) (p : Posting) (k seq : ℕ) (d : Tables)
    → has_wallet k d.wallets ≡ true
    → has_wallet k (posted env id p seq d).wallets ≡ true
has_wallet-posted env id p k seq d h = rw has_wallet-set_balance (rw has_wallet-set_balance h)

-- From consistent tables, a posting between two rows of the table that returns leaves the tables
-- that its transaction sees consistent.
pub post_double_entry-Consistent :
    (env : Env) (id : ℕ) (p : Posting) (c c' : Conn) (t : Transaction)
    → Consistent c.work
    → find_wallet p.debit_wallet.id c.work.wallets ≡ some p.debit_wallet
    → find_wallet p.credit_wallet.id c.work.wallets ≡ some p.credit_wallet
    → post_double_entry env id p c ≡ (ok t, c')
    → Consistent c'.work
post_double_entry-Consistent env id p c c' t v hs hd h =
    let f = post_double_entry-Posted env id p c c' t h in
    let a = transaction_violation-Admitted env id p c.work f.admitted in
    let d = c.work in
    let seq = c.entry_seq in
    let ws' = set_balance p.debit_wallet.id (debited env id p) env.now d.wallets in
    let mono = All-Known-mono d.wallets (posted env id p seq d).wallets in
    let grows =
      λ (k : ℕ) (q : has_wallet k d.wallets ≡ true). has_wallet-posted env id p k seq d q in
    let drift = λ (i : ℕ) (w : Wallet) (e : find_wallet i d.wallets ≡ some w).
      All-find (NoDrift d.ledger_entries) (λ x. x.id == i) d.wallets w v.no_drift e in
    rw f.after (record {
      conservation = sum_amounts-entries env id p seq d.ledger_entries ∙ v.conservation;
      balanced = λ k. txn_sum-entries env id p k seq d.ledger_entries ∙ v.balanced k;
      no_drift =
          NoDrift-entries env id p seq d.ledger_entries d.wallets a.distinct (drift _ _ hs)
            (drift _ _ hd) v.no_drift;
      solvent =
          admitted-IsSolvent p.credit_wallet.id (credited env id p) env.now _ f.credit_admitted (
            admitted-IsSolvent p.debit_wallet.id (debited env id p) env.now _ f.debit_admitted
              v.solvent);
      known =
          (grows _ a.credit_known, (grows _ a.debit_known, mono d.ledger_entries grows v.known));
    })
