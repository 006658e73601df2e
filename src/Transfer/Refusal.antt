-- ===== src/Transfer/Refusal.antt =====
-- Calls of app/services/transfer_service.py that raise move no money.
use pstu_hack_final.Transfer.Outcome.{move_money-Uncommitted}
use pstu_hack_final.Transfer.Payment.{waited}
use pstu_hack_final.Errors.{Constraint, DomainError, Exn}
use pstu_hack_final.Models.{Meta, Entity, Transaction, AuditAction}
use pstu_hack_final.Db.Tables.{wallet_of, Conn, Tables}
use pstu_hack_final.Env.{audit, Caller, Env}
use pstu_hack_final.Common.{
  ℕ, ◌≡◌, refl, sym, subst, ◌∙◌, inl, inr, Bool, true, false, Option, arith, ◌==◌, Bool-cases,
  Option-cases,
}
use pstu_hack_final.Common.Int.{ℤ}
use pstu_hack_final.Db.Actions.{ok, err, savepoint, ◌>>=◌}
use pstu_hack_final.Db.Rules.{Result-cases, Keeps, keeps_rules, Both}
use pstu_hack_final.Env.Rules.{Keeps-audit}
use pstu_hack_final.Transfer.{
  find_replay, move_money, Order, assert_same_request, replay_or_new, settle, execute_new,
  execute_transfer,
}

-- The same wallets, transactions and entries.
pub record SameMoney (d d' : Tables) : Type 0 where
  pub wallets : d'.wallets ≡ d.wallets
  pub transactions : d'.transactions ≡ d.transactions
  pub entries : d'.ledger_entries ≡ d.ledger_entries

-- Nobody moves money while the call waits for a lock.
pub record IsQuiet (env : Env) : Type 0 where
  pub row : (d : Tables) → SameMoney d (env.while_row d)
  pub wallets : (d : Tables) → SameMoney d (env.while_wallets d)

pub SameMoney-trans : {d d' d'' : Tables} → SameMoney d d' → SameMoney d' d'' → SameMoney d d''
SameMoney-trans p q = record {
  wallets = q.wallets ∙ p.wallets;
  transactions = q.transactions ∙ p.transactions;
  entries = q.entries ∙ p.entries;
}

-- A change of the other tables.
pub audit-SameMoney :
    (d0 : Tables) (env : Env) (action : AuditAction) (actor : Option ℕ) (entity : Option Entity)
    (caller : Caller) (meta : Meta)
    → Keeps (SameMoney d0) (audit env action actor entity caller meta)
audit-SameMoney d0 env action actor entity caller meta =
    Keeps-audit env _ _ _ caller _
      (λ d l q. record { wallets = q.wallets; transactions = q.transactions; entries = q.entries })

assert_same_request-SameMoney :
    (d0 : Tables) (t : Transaction) (a : ℤ) (w : ℕ)
    → Keeps (SameMoney d0) (assert_same_request t a w)
unfolding assert_same_request
assert_same_request-SameMoney d0 t a w = search keeps_rules

ruleset money_rules = (keeps_rules, audit-SameMoney, assert_same_request-SameMoney)

-- The handling of a failed block writes at most an audit row.
settle-SameMoney :
    (d0 : Tables) (env : Env) (caller : Caller) (o : Order) (dst : ℕ) (b : Bool) (x : Exn)
    → Keeps (SameMoney d0) (settle env caller o dst b (err x))
unfolding settle
settle-SameMoney d0 env caller o dst b (Exn.domain (DomainError.insufficient_funds a)) =
    search money_rules
settle-SameMoney d0 env caller o dst b (Exn.integrity Constraint.uq_idem) = search money_rules
settle-SameMoney d0 env caller o dst b x = search money_rules

settle-returns :
    (env : Env) (caller : Caller) (o : Order) (dst : ℕ) (b : Bool) (t : Transaction) (c : Conn)
    → (settle env caller o dst b (ok t) c).0 ≡ ok (t, false)
unfolding settle ◌>>=◌
settle-returns env caller o dst true t c = refl
settle-returns env caller o dst false t c = refl

execute_new-SameMoney :
    (d0 : Tables) (env : Env) (caller : Caller) (o : Order) (src dst : ℕ) (b : Bool) (c c' : Conn)
    (x : Exn)
    → IsQuiet env
    → Both (SameMoney d0) c
    → execute_new env caller o src dst b c ≡ (err x, c')
    → Both (SameMoney d0) c'
unfolding execute_new savepoint ◌>>=◌
execute_new-SameMoney d0 env caller o src dst b c c' x quiet h e =
    let m = move_money env caller o src dst (waited env c) in
    let work = SameMoney-trans h.1 (quiet.wallets c.work) in
    let committed = SameMoney-trans h.0 (quiet.wallets c.committed) in
    elim (Result-cases m.0) [
      | inl (t, f) ↦ absurd (ground (arith, f, settle-returns env caller o dst b t m.1))
      | inr (y, f) ↦
          let back = record m.1 { work = env.while_wallets c.work; locks = c.locks } in
          let r : settle env caller o dst b (err y) back ≡ (err x, c') = ground (arith, f) in
          subst (λ q. Both (SameMoney d0) q.1) r
            ((settle-SameMoney d0 env caller o dst b y).at back
              (rw (move_money-Uncommitted env caller o src dst (waited env c)) committed, work))
    ]

-- A call that raises leaves every wallet, transaction and ledger entry as it was, committed or not, if nobody else moves money while it waits.
pub refusal_moves_nothing :
    (d0 : Tables) (env : Env) (caller : Caller) (o : Order) (b : Bool) (c c' : Conn) (x : Exn)
    → IsQuiet env
    → Both (SameMoney d0) c
    → execute_transfer env caller o b c ≡ (err x, c')
    → Both (SameMoney d0) c'
unfolding execute_transfer replay_or_new assert_same_request ◌>>=◌
refusal_moves_nothing d0 env caller o b c c' x quiet h e =
    elim (Option-cases (wallet_of o.sender.id c.work.wallets)) [
      | inl es ↦ same (ground (arith, es))
      | inr (src, es) ↦ elim (Option-cases (wallet_of o.recipient.id c.work.wallets)) [
        | inl ed ↦ same (ground (arith, es, ed))
        | inr (dst, ed) ↦ elim (Option-cases (find_replay o.sender.id o.idempotency_key c.work)) [
          | inr (t, f) ↦ same (ground (arith, es, ed, f))
          | inl f ↦ elim (Bool-cases (o.recipient.id == o.sender.id)) [
            | inl self ↦ same (ground (arith, es, ed, self))
            | inr other ↦
                execute_new-SameMoney d0 env caller o src.id dst.id b c c' x quiet h
                  (ground (arith, es, ed, f, other))
          ]
        ]
      ]
    ]
  where
    same : c' ≡ c → Both (SameMoney d0) c'
    same k = subst (Both (SameMoney d0)) (sym k) h
