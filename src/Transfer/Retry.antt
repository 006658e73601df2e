-- ===== src/Transfer/Retry.antt =====
-- Idempotency of the transfer path of app/services/transfer_service.py.
use pstu_hack_final.Errors.{DomainError, Exn}
use pstu_hack_final.Models.{Transaction}
use pstu_hack_final.Db.Tables.{Conn, wallet_of, Tables}
use pstu_hack_final.Env.{Caller, Env}
use pstu_hack_final.Common.{
  ℕ, ◌≡◌, ◌≢◌, ◌⊎◌, inl, inr, Bool, true, false, Option, none, some, arith, ◌==◌, if◌then◌else◌,
  Option-cases,
}
use pstu_hack_final.Db.Actions.{ok, err, ◌>>=◌}
use pstu_hack_final.Transfer.{
  Order, execute_transfer, execute_new, replay_or_new, find_replay, is_other_request,
  assert_same_request,
}

-- The id of a user's wallet.
abbrev pub wallet_id_of : ℕ → Tables → Option ℕ
wallet_id_of u d = elim (wallet_of u d.wallets) [ none ↦ none | some w ↦ some w.id ]

-- What a call that returns has found before it waits for a lock.
pub record Entered (env : Env) (caller : Caller) (o : Order) (b : Bool) (c c' : Conn)
    (txn : Transaction) (r : Bool) : Type 0 where
  pub src : ℕ
  pub dst : ℕ
  pub sender_wallet : wallet_id_of o.sender.id c.work ≡ some src
  pub recipient_wallet : wallet_id_of o.recipient.id c.work ≡ some dst
  pub distinct : (o.recipient.id == o.sender.id) ≡ false
  pub outcome :
      ((find_replay o.sender.id o.idempotency_key c.work ≡ some txn)
        × (is_other_request txn o.amount dst ≡ false)
        × (r ≡ true)
        × (c' ≡ c))
      ⊎ ((find_replay o.sender.id o.idempotency_key c.work ≡ none)
          × (execute_new env caller o src dst b c ≡ (ok (txn, r), c')))

pub execute_transfer-Entered :
    (env : Env) (caller : Caller) (o : Order) (b : Bool) (c c' : Conn) (txn : Transaction)
    (r : Bool)
    → execute_transfer env caller o b c ≡ (ok (txn, r), c')
    → Entered env caller o b c c' txn r
unfolding execute_transfer replay_or_new assert_same_request ◌>>=◌
execute_transfer-Entered env caller o b c c' txn r h =
    elim (Option-cases (wallet_of o.sender.id c.work.wallets)) [
      | inl e ↦ absurd (ground (arith, e))
      | inr (src, es) ↦ elim (Option-cases (wallet_of o.recipient.id c.work.wallets)) [
        | inl e ↦ absurd (ground (arith, es, e))
        | inr (dst, ed) ↦ elim (Option-cases (find_replay o.sender.id o.idempotency_key c.work)) [
          | inl none_found ↦ record {
            src = src.id;
            dst = dst.id;
            sender_wallet = ground (arith, es);
            recipient_wallet = ground (arith, ed);
            distinct = ground (arith, es, ed);
            outcome = inr (none_found, ground (arith, es, ed, none_found));
          }
          | inr (t, found) ↦ record {
            src = src.id;
            dst = dst.id;
            sender_wallet = ground (arith, es);
            recipient_wallet = ground (arith, ed);
            distinct = ground (arith, es, ed);
            outcome = inl (
              ground (arith, es, ed, found),
              ground (arith, es, ed, found),
              ground (arith, es, ed, found),
              ground (arith, es, ed, found),
            );
          }
        ]
      ]
    ]

-- A recorded key decides the call before anything is locked: the recorded transaction is returned
-- if the request is the same, and refused if it is not; nothing is written either way.
pub replay_decides :
    (env : Env) (caller : Caller) (o : Order) (b : Bool) (c : Conn) (src dst : ℕ)
    (txn : Transaction)
    → wallet_id_of o.sender.id c.work ≡ some src
    → wallet_id_of o.recipient.id c.work ≡ some dst
    → o.recipient.id ≢ o.sender.id
    → find_replay o.sender.id o.idempotency_key c.work ≡ some txn
    → execute_transfer env caller o b c ≡ (
        if is_other_request txn o.amount dst
        then (err (Exn.domain (DomainError.idempotency_key_conflict txn.reference)), c)
        else (ok (txn, true), c))
unfolding execute_transfer replay_or_new assert_same_request ◌>>=◌
replay_decides env caller o b c src dst txn hs hd ne found =
    elim (Option-cases (wallet_of o.sender.id c.work.wallets)) [
      | inl e ↦ absurd (ground (arith, e))
      | inr (s, es) ↦ elim (Option-cases (wallet_of o.recipient.id c.work.wallets)) [
        | inl e ↦ absurd (ground (arith, es, e))
        | inr (d, ed) ↦ ground (arith, es, ed, found)
      ]
    ]
