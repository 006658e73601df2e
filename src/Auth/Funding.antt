-- ===== src/Auth/Funding.antt =====
-- The funds of a new user of app/services/auth_service.py.
use pstu_hack_final.Ledger.{post_double_entry, Posting}
use pstu_hack_final.Common.{
  find-test, ℕ, ◌≡◌, refl, sym, ap, subst, ◌∙◌, ◌≢◌, inl, inr, none, some, List, ◌∷◌, arith, ◌==◌,
  Option-cases, ==_iff,
}
use pstu_hack_final.Common.Int.{◌+ℤ◌, ◌-ℤ◌, int_laws}
use pstu_hack_final.Common.Text.{Text}
use pstu_hack_final.Db.Actions.{ok, err, ◌>>=◌}
use pstu_hack_final.Errors.{Constraint, Exn}
use pstu_hack_final.Ledger.Effects.{
  post_double_entry-Posted, transaction_violation-Admitted, balance_of, post_double_entry-Moves,
}
use pstu_hack_final.Auth.Registration.{pay_grant-Granted}
use pstu_hack_final.Db.Rules.{Result-cases}
use pstu_hack_final.Models.{system_mint_wallet_id, Wallet, Transaction, User}
use pstu_hack_final.Db.Tables.{find_phone, find_wallet, Tables, Conn}
use pstu_hack_final.Db.Statements.{insert_audit, insert_wallet, insert_user}
use pstu_hack_final.Env.{audit, Caller, Env}
use pstu_hack_final.Auth.{
  grant_posting, end_registration, register, pay_grant, new_wallet, user_row, NewUser,
  register_rows,
}
use pstu_hack_final.Security.{Bcrypt}

-- What a registration that returns has found and done.
record Rows (lib : Bcrypt) (env : Env) (caller : Caller) (n : NewUser) (c : Conn) (t : Transaction)
    (c' : Conn) : Type 0 where
  start : Conn
  paid : Conn
  wallets :
      start.work.wallets
      ≡ (env.while_wallets (record c.work {
        users = user_row lib env n ∷ c.work.users;
        wallets = new_wallet env ∷ c.work.wallets;
      })).wallets
  grant : pay_grant env start ≡ (ok t, paid)
  after : c'.committed.wallets ≡ paid.work.wallets

register_rows-Rows :
    (lib : Bcrypt) (env : Env) (caller : Caller) (n : NewUser) (c c' : Conn) (u : User)
    (t : Transaction)
    → register_rows lib env caller n c ≡ (ok (u, t), c')
    → Rows lib env caller n c t c'
unfolding register_rows insert_user insert_wallet audit insert_audit ◌>>=◌
register_rows-Rows lib env caller n c c' u t h =
    let start = record c {
      committed = env.while_wallets c.committed;
      work = env.while_wallets (record c.work {
        users = user_row lib env n ∷ c.work.users;
        wallets = new_wallet env ∷ c.work.wallets;
      });
    } in
    let p = pay_grant env start in
    elim (Result-cases p.0) [
      | inr (x, e) ↦ absurd (ground (arith, e))
      | inl (g, e) ↦
          let same : g ≡ t = ground (arith, e) in
          record {
            start = start;
            paid = p.1;
            wallets = refl;
            grant = λ i. ((e ∙ ap ok same) i, p.1);
            after = ground (arith, e);
          }
    ]

-- The connection at the start of the `try`.
abbrev pub at_insert : Env → Conn → Conn
at_insert env c = record c { committed = env.while_row c.committed; work = env.while_row c.work }

pub register-rows :
    (lib : Bcrypt) (env : Env) (caller : Caller) (n : NewUser) (c c' : Conn) (u : User)
    (t : Transaction)
    → register lib env caller n c ≡ (ok (u, t), c')
    → (find_phone n.phone c.work.users ≡ none)
      × (register_rows lib env caller n (at_insert env c) ≡ (ok (u, t), c'))
unfolding register end_registration ◌>>=◌
register-rows lib env caller n c c' u t h =
    let m = register_rows lib env caller n (at_insert env c) in
    elim (Option-cases (find_phone n.phone c.work.users)) [
      | inr (v, e) ↦ absurd (ground (arith, e))
      | inl e ↦ elim (Result-cases m.0) [
        | inr (x, f) ↦ absurd (ended n.phone x m.1 c' (u, t) (ground (arith, e, f)))
        | inl (r, f) ↦ (e, ground (arith, e, f))
      ]
    ]
  where
    ended :
        (p : Text) (x : Exn) (k k' : Conn) (r : User × Transaction)
        → ¬ (end_registration p (err x) k ≡ (ok r, k'))
    ended p (Exn.integrity Constraint.users_phone_key) k k' r h = ground arith
    ended p (Exn.integrity y) k k' r h = ground arith
    ended p x k k' r h = ground arith

-- A new user's wallet, funded by the mint.
pub record Funded (lib : Bcrypt) (env : Env) (n : NewUser) (c : Conn) (c' : Conn) : Type 0 where
  pub mint : Wallet
  pub mint_row : find_wallet system_mint_wallet_id (env.while_row c.work).wallets ≡ some mint
  pub unregistered : find_phone n.phone c.work.users ≡ none
  pub funded : balance_of (env.uuid 1) c'.committed ≡ some env.settings.signup_grant
  pub drawn :
      balance_of system_mint_wallet_id c'.committed
      ≡ some (mint.balance -ℤ env.settings.signup_grant)
  pub others :
      (k : ℕ)
      → k ≢ env.uuid 1
      → k ≢ system_mint_wallet_id
      → balance_of k c'.committed ≡ balance_of k (env.while_row c.work)

posting_distinct :
    (env : Env) (p : Posting) (c c' : Conn) (t : Transaction)
    → post_double_entry env (env.uuid 2) p c ≡ (ok t, c')
    → p.debit_wallet.id ≢ p.credit_wallet.id
posting_distinct env p c c' t h =
    (transaction_violation-Admitted env (env.uuid 2) p c.work
      (post_double_entry-Posted env (env.uuid 2) p c c' t h).admitted).distinct

-- A registration that returns, while nobody else commits during its wait for the mint's lock, has
-- committed a wallet that holds the signup grant, all of it drawn from the mint: no other balance
-- changes.
pub register_funds :
    (lib : Bcrypt) (env : Env) (caller : Caller) (n : NewUser) (c c' : Conn) (u : User)
    (t : Transaction)
    → ((d : Tables) → env.while_wallets d ≡ d)
    → register lib env caller n c ≡ (ok (u, t), c')
    → Funded lib env n c c'
register_funds lib env caller n c c' u t quiet h =
    let (absent, run) = register-rows lib env caller n c c' u t h in
    let r = register_rows-Rows lib env caller n (at_insert env c) c' u t run in
    let g = pay_grant-Granted env r.start r.paid t r.grant in
    let p = grant_posting env g.mint g.wallet in
    let (positive, covered, m, es) = post_double_entry-Moves env (env.uuid 2) p _ r.paid t g.run in
    let before = (env.while_row c.work).wallets in
    let rows : r.start.work.wallets ≡ new_wallet env ∷ before =
      r.wallets ∙ ap (λ (d : Tables). d.wallets) (quiet _) in
    let wallet_row = subst (λ ws. find_wallet (env.uuid 1) ws ≡ some g.wallet) rows g.wallet_row in
    let mint_row =
      subst (λ ws. find_wallet system_mint_wallet_id ws ≡ some g.mint) rows g.mint_row in
    let is_new : g.wallet ≡ new_wallet env = ground (arith, wallet_row) in
    let mint_id : g.mint.id ≡ system_mint_wallet_id = (==_iff g.mint.id system_mint_wallet_id).0 (
      find-test (λ (w : Wallet). w.id == system_mint_wallet_id) r.start.work.wallets g.mint
        g.mint_row) in
    let wallet_id : g.wallet.id ≡ env.uuid 1 = ap (λ (w : Wallet). w.id) is_new in
    let distinct : g.mint.id ≢ g.wallet.id = posting_distinct env p _ r.paid t g.run in
    let apart : env.uuid 1 ≢ system_mint_wallet_id = ground (arith, mint_id, wallet_id, distinct) in
    let committed = λ (k : ℕ).
      ap (λ (ws : List Wallet). elim (find_wallet k ws) [ none ↦ none | some w ↦ some w.balance ])
        r.after in
    let opening = λ (k : ℕ).
      ap (λ (ws : List Wallet). elim (find_wallet k ws) [ none ↦ none | some w ↦ some w.balance ])
        rows in
    record {
      mint = g.mint;
      mint_row = ground (arith, apart, mint_row);
      unregistered = absent;
      funded =
          committed (env.uuid 1)
          ∙ subst
              (λ k. balance_of k r.paid.work ≡ some (g.wallet.balance +ℤ env.settings.signup_grant))
              wallet_id m.credit
          ∙ ap some (
              subst
                (λ (w : Wallet). w.balance +ℤ env.settings.signup_grant ≡ env.settings.signup_grant)
                (sym is_new) (omega int_laws));
      drawn =
          committed system_mint_wallet_id
          ∙ subst
              (λ k. balance_of k r.paid.work ≡ some (g.mint.balance -ℤ env.settings.signup_grant))
              mint_id m.debit;
      others = λ k nw nm.
          committed k
          ∙ m.others k (λ e. nm (e ∙ mint_id)) (λ e. nw (e ∙ wallet_id))
          ∙ opening k
          ∙ ground (arith, nw);
    }
