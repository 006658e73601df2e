-- ===== src/Auth/Registration.antt =====
-- The registration of app/services/auth_service.py keeps the ledger's invariants.
use pstu_hack_final.Common.{
  ℕ, ◌≡◌, refl, sym, subst, ◌∙◌, inl, inr, true, false, none, some, List, [], ◌∷◌, ◌++◌, arith,
  ◌==◌, if◌then◌else◌, All, is_some, Bool-cases, Option-cases, ==_iff, find-test,
}
use pstu_hack_final.Common.Int.{pos}
use pstu_hack_final.Common.Text.{Text}
use pstu_hack_final.Db.Actions.{Result, ok, err, wait, ◌>>=◌}
use pstu_hack_final.Transfer.Outcome.{audit-Keeps}
use pstu_hack_final.Transfer.Consistency.{Respects}
use pstu_hack_final.Errors.{Constraint, Exn}
use pstu_hack_final.Ledger.Atomic.{post_double_entry-Uncommitted, lock_wallets-Uncommitted}
use pstu_hack_final.Security.{Bcrypt}
use pstu_hack_final.Ledger.Locks.{find-select_wallets, lock_wallets-ok, wallet_locks}
use pstu_hack_final.Ledger.{sorted_set, post_double_entry, lock_wallets}
use pstu_hack_final.Ledger.Sums.{wallet_sum}
use pstu_hack_final.Db.Gives.{Keeps-Leaves, Leaves-bind, Leaves, Keeps-execute_admitted}
use pstu_hack_final.Ledger.Consistency.{
  All-Known-mono, post_double_entry-Consistent, Known, Consistent,
}
use pstu_hack_final.Db.Rules.{
  keeps_rules, Keeps-wait, Keeps-execute, Uncommitted, Result-cases, Keeps,
}
use pstu_hack_final.Db.Tables.{find_phone, find_wallet, has_wallet, Tables, Conn}
use pstu_hack_final.Env.{Caller, Env}
use pstu_hack_final.Models.{User, system_mint_wallet_id, Transaction, LedgerEntry, Wallet}
use pstu_hack_final.Db.Statements.{insert_user, insert_wallet}
use pstu_hack_final.Db.Checks.{wallet_violation}
use pstu_hack_final.Auth.{
  new_wallet, user_row, NewUser, end_registration, register_rows, register, grant_posting,
  pay_grant,
}

wallet_sum-unknown :
    (i : ℕ) (ws : List Wallet) (es : List LedgerEntry)
    → has_wallet i ws ≡ false
    → All (Known ws) es
    → wallet_sum i es ≡ pos 0
wallet_sum-unknown i ws [] free k = refl
wallet_sum-unknown i ws (e ∷ es) free k =
    let rest = wallet_sum-unknown i ws es free k.1 in
    elim (Bool-cases (e.wallet_id == i)) [
      | inr ne ↦ ground (arith, ne, rest)
      | inl eq ↦ absurd (
          ground
            (arith, free, subst (λ x. has_wallet x ws ≡ true) ((==_iff e.wallet_id i).0 eq) k.0))
    ]

wallet_violation-free :
    (w : Wallet) (d : Tables) → wallet_violation w d ≡ none → has_wallet w.id d.wallets ≡ false
unfolding wallet_violation
wallet_violation-free w d h = ground arith

-- A wallet that its constraints admit, with nothing in it, keeps the tables consistent.
insert_wallet-Keeps : (w : Wallet) → w.balance ≡ pos 0 → Keeps Consistent (insert_wallet w)
unfolding insert_wallet
insert_wallet-Keeps w empty = Keeps-execute_admitted (wallet_violation w) _ λ d e v.
    let free = wallet_violation-free w d e in
    record {
      conservation = v.conservation;
      balanced = v.balanced;
      no_drift = (
        empty ∙ sym (wallet_sum-unknown w.id d.wallets d.ledger_entries free v.known),
        v.no_drift,
      );
      solvent = (inr (ground (arith, empty)), v.solvent);
      known =
          All-Known-mono d.wallets (w ∷ d.wallets) d.ledger_entries (λ k h. ground (arith, h))
            v.known;
    }

-- What a grant that returns has done.
pub record Granted (env : Env) (c : Conn) (t : Transaction) (c' : Conn) : Type 0 where
  pub mint : Wallet
  pub wallet : Wallet
  pub mint_row : find_wallet system_mint_wallet_id c.work.wallets ≡ some mint
  pub wallet_row : find_wallet (env.uuid 1) c.work.wallets ≡ some wallet
  pub run :
      post_double_entry env (env.uuid 2) (grant_posting env mint wallet) (record c {
        locks = c.locks ++ wallet_locks (sorted_set (system_mint_wallet_id ∷ env.uuid 1 ∷ []));
      })
      ≡ (ok t, c')

pub pay_grant-Granted :
    (env : Env) (c c' : Conn) (t : Transaction) → pay_grant env c ≡ (ok t, c') → Granted env c t c'
unfolding ◌>>=◌ pay_grant
pay_grant-Granted env c c' t h =
    let ids = system_mint_wallet_id ∷ env.uuid 1 ∷ [] in
    let ws = c.work.wallets in
    let c1 = (lock_wallets ids c).1 in
    elim (Result-cases (lock_wallets ids c).0) [
      | inr (x, e) ↦ absurd (ground (arith, e))
      | inl (rows, e) ↦
          let le = lock_wallets-ok ids c c1 rows (λ i. (e i, c1)) in
          elim (Option-cases (find_wallet system_mint_wallet_id rows)) [
            | inl es ↦ absurd (ground (arith, e, es))
            | inr (src, es) ↦ elim (Option-cases (find_wallet (env.uuid 1) rows)) [
              | inl ed ↦ absurd (ground (arith, e, es, ed))
              | inr (dst, ed) ↦ record {
                mint = src;
                wallet = dst;
                mint_row =
                    find-select_wallets system_mint_wallet_id (sorted_set ids) ws src
                      (rw (le.0) at es);
                wallet_row =
                    find-select_wallets (env.uuid 1) (sorted_set ids) ws dst (rw (le.0) at ed);
                run = ground (arith, e, es, ed, le.1);
              }
            ]
          ]
    ]

pub pay_grant-Uncommitted : (env : Env) → Uncommitted (pay_grant env)
unfolding ◌>>=◌ pay_grant
pay_grant-Uncommitted env c = grind (arith, lock_wallets-Uncommitted, post_double_entry-Uncommitted)

pay_grant-Leaves : (env : Env) → Leaves Consistent (pay_grant env)
pay_grant-Leaves env = record {
  committed = λ c v. rw (pay_grant-Uncommitted env c) v.0;
  returned = λ c t v e.
      let c' = (pay_grant env c).1 in
      let g = pay_grant-Granted env c c' t (λ i. (e i, c')) in
      let same = λ (i : ℕ) (w : Wallet) (f : find_wallet i c.work.wallets ≡ some w).
        subst (λ k. find_wallet k c.work.wallets ≡ some w)
          (sym ((==_iff w.id i).0 (find-test (λ x. x.id == i) c.work.wallets w f))) f in
      post_double_entry-Consistent env (env.uuid 2) (grant_posting env g.mint g.wallet) _ c' t v.1
        (same _ _ g.mint_row) (same _ _ g.wallet_row) g.run;
}

insert_user-Keeps : (u : User) → Keeps Consistent (insert_user u)
unfolding insert_user
insert_user-Keeps u = Keeps-execute _ _ (λ d v. v)

pub register_rows-Leaves :
    (lib : Bcrypt) (env : Env) (caller : Caller) (n : NewUser)
    → Respects env
    → Leaves Consistent (register_rows lib env caller n)
unfolding register_rows
register_rows-Leaves lib env caller n r =
    Leaves-bind _ _ (Keeps-Leaves _ (insert_user-Keeps (user_row lib env n))) λ a.
      Leaves-bind _ _ (Keeps-Leaves _ (insert_wallet-Keeps (new_wallet env) refl)) λ b.
        Leaves-bind _ _
          (Keeps-Leaves (wait env.while_wallets) (Keeps-wait env.while_wallets r.wallets))
          λ w.
            Leaves-bind _ _ (pay_grant-Leaves env)
              λ t. Keeps-Leaves _ (search (keeps_rules, audit-Keeps) depth 8)

end_registration-Uncommitted :
    (phone : Text) (r : Result (User × Transaction)) → Uncommitted (end_registration phone r)
unfolding end_registration ◌>>=◌
end_registration-Uncommitted phone (ok r) c = refl
end_registration-Uncommitted phone (err (Exn.integrity Constraint.users_phone_key)) c = refl
end_registration-Uncommitted phone (err (Exn.integrity k)) c = ground arith
end_registration-Uncommitted phone (err e) c = ground arith

pub register-committed :
    (lib : Bcrypt) (env : Env) (caller : Caller) (n : NewUser) (c : Conn)
    → let start = record c { committed = env.while_row c.committed; work = env.while_row c.work } in
      (register lib env caller n c).1.committed ≡ (
        if is_some (find_phone n.phone c.work.users)
        then c.committed
        else (register_rows lib env caller n start).1.committed)
unfolding register ◌>>=◌
register-committed lib env caller n c = grind (arith, end_registration-Uncommitted)
