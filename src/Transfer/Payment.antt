-- ===== src/Transfer/Payment.antt =====
-- What a call of the transfer path of app/services/transfer_service.py that returns has done.
use pstu_hack_final.Transfer.Outcome.{move_money-Uncommitted}
use pstu_hack_final.Errors.{Constraint, Exn}
use pstu_hack_final.Db.Rules.{Result-cases}
use pstu_hack_final.Models.{Transaction}
use pstu_hack_final.Env.{Caller, Env}
use pstu_hack_final.Db.Tables.{Conn}
use pstu_hack_final.Common.{
  ℕ, ◌≡◌, refl, ap, ◌∙◌, ◌⊎◌, inl, inr, Bool, true, false, some, [], arith, Option-cases,
}
use pstu_hack_final.Db.Actions.{Result, ok, err, savepoint, ◌>>=◌}
use pstu_hack_final.Transfer.{
  Order, execute_new, find_replay, is_other_request, assert_same_request, settle, move_money,
}

-- The connection after the wait for the wallets' locks.
abbrev pub waited : Env → Conn → Conn
waited env c = record c {
  committed = env.while_wallets c.committed;
  work = env.while_wallets c.work;
}

abbrev pub closed : Bool → Conn → Conn
closed true c = record c { committed = c.work; locks = [] }
closed false c = c

-- `settle` returns after a payment, or with the winner of a lost race.
settle-ok :
    (env : Env) (caller : Caller) (o : Order) (dst : ℕ) (b : Bool) (x : Result Transaction)
    (c c' : Conn) (txn : Transaction) (r : Bool)
    → settle env caller o dst b x c ≡ (ok (txn, r), c')
    → ((x ≡ ok txn) × (r ≡ false) × (c' ≡ closed b c))
      ⊎ ((x ≡ err (Exn.integrity Constraint.uq_idem))
          × (r ≡ true)
          × (find_replay o.sender.id o.idempotency_key c.work ≡ some txn)
          × (is_other_request txn o.amount dst ≡ false)
          × (c' ≡ c))
unfolding settle assert_same_request ◌>>=◌
settle-ok env caller o dst true (ok t) c c' txn r h = inl (ground arith)
settle-ok env caller o dst false (ok t) c c' txn r h = inl (ground arith)
settle-ok env caller o dst b (err (Exn.integrity Constraint.uq_idem)) c c' txn r h =
    elim (Option-cases (find_replay o.sender.id o.idempotency_key c.work)) [
      | inl e ↦ absurd (ground (arith, e))
      | inr (t, e) ↦
          inr (refl, ground (arith, e), ground (arith, e), ground (arith, e), ground (arith, e))
    ]
settle-ok env caller o dst b (err e) c c' txn r h = absurd (ground arith)

-- A call past the replay check that returns has paid, or has lost a race to a call with its key.
pub data Paying (env : Env) (caller : Caller) (o : Order) (src dst : ℕ) (b : Bool) (c : Conn)
    (txn : Transaction) (r : Bool) (c' : Conn) : Type 0 where
  paid :
      (moved : Conn)
      → move_money env caller o src dst (waited env c) ≡ (ok txn, moved)
      → r ≡ false
      → c' ≡ closed b moved
      → Paying env caller o src dst b c txn r c'
  lost :
      r ≡ true
      → find_replay o.sender.id o.idempotency_key (env.while_wallets c.work) ≡ some txn
      → is_other_request txn o.amount dst ≡ false
      → c'.work ≡ env.while_wallets c.work
      → c'.committed ≡ env.while_wallets c.committed
      → Paying env caller o src dst b c txn r c'

pub execute_new-Paying :
    (env : Env) (caller : Caller) (o : Order) (src dst : ℕ) (b : Bool) (c c' : Conn)
    (txn : Transaction) (r : Bool)
    → execute_new env caller o src dst b c ≡ (ok (txn, r), c')
    → Paying env caller o src dst b c txn r c'
unfolding execute_new savepoint ◌>>=◌
execute_new-Paying env caller o src dst b c c' txn r h =
    let m = move_money env caller o src dst (waited env c) in
    elim (Result-cases m.0) [
      | inl (t, e) ↦ elim (settle-ok env caller o dst b (ok t) m.1 c' txn r (ground (arith, e))) [
        | inl (x, f, g) ↦ paid m.1 (λ i. ((e ∙ x) i, m.1)) f g
        | inr (x, f, g, s, k) ↦ absurd (ground (arith, x))
      ]
      | inr (x, e) ↦
          let back = record m.1 { work = env.while_wallets c.work; locks = c.locks } in
          elim (settle-ok env caller o dst b (err x) back c' txn r (ground (arith, e))) [
            | inl (y, f, g) ↦ absurd (ground (arith, y))
            | inr (y, f, g, s, k) ↦ lost f g s (ap (λ (q : Conn). q.work) k) (
                ap (λ (q : Conn). q.committed) k
                ∙ move_money-Uncommitted env caller o src dst (waited env c))
          ]
    ]
