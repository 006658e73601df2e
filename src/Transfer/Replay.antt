-- ===== src/Transfer/Replay.antt =====
-- A retried transfer of app/services/transfer_service.py returns the first transaction and moves
-- no money.
use pstu_hack_final.Common.{
  ==_iff_ne, ℕ, ◌≡◌, refl, ap, subst, ◌∙◌, ◌≢◌, inl, inr, Bool, true, false, Option, none, some,
  List, [], ◌∷◌, arith,
}
use pstu_hack_final.Common.Int.{ℤ, eqb_ℤ, eqb_ℤ_iff}
use pstu_hack_final.Common.Text.{Text, text_eq_refl}
use pstu_hack_final.Db.Actions.{ok}
use pstu_hack_final.Transfer.Payment.{paid, execute_new-Paying, lost, Paying}
use pstu_hack_final.Ledger.Effects.{completed_transaction}
use pstu_hack_final.Ledger.{pending_transaction}
use pstu_hack_final.Transfer.Retry.{execute_transfer-Entered, Entered, replay_decides, wallet_id_of}
use pstu_hack_final.Db.Statements.{set_completed, set_balance}
use pstu_hack_final.Db.Tables.{Conn, Tables, wallet_of}
use pstu_hack_final.Env.{Caller, Env}
use pstu_hack_final.Models.{Transaction, Wallet}
use pstu_hack_final.Transfer.{posting_of, is_other_request, execute_transfer, find_replay, Order}
use pstu_hack_final.Transfer.Effect.{transfer_moves}

-- No wallet that has an owner loses it while the call waits for its locks.
pub record KeepsOwners (env : Env) : Type 0 where
  pub owners :
      (d : Tables) (u i : ℕ)
      → wallet_id_of u d ≡ some i
      → wallet_id_of u (env.while_wallets d) ≡ some i

abbrev id_in : ℕ → List Wallet → Option ℕ
id_in u ws = elim (wallet_of u ws) [ none ↦ none | some w ↦ some w.id ]

id_in-set_balance :
    (u i : ℕ) (b : ℤ) (now : ℕ) (ws : List Wallet) → id_in u (set_balance i b now ws) ≡ id_in u ws
id_in-set_balance u i b now [] = refl
id_in-set_balance u i b now (w ∷ ws) = ground (arith, id_in-set_balance u i b now ws)

eqb_ℤ_refl : (a : ℤ) → eqb_ℤ a a ≡ true
eqb_ℤ_refl a = (eqb_ℤ_iff a a).1 refl

-- The key of a payment is on record afterwards.
recorded_key :
    (env : Env) (o : Order) (src dst : Wallet) (x : ℕ) (key : Text) (ts : List Transaction)
    (d : Tables) (txn : Transaction)
    → o.idempotency_key ≡ some (x ∷ key)
    → d.transactions
      ≡ set_completed
          (env.uuid 0)
          env.now
          (pending_transaction env (env.uuid 0) (posting_of o src dst) ∷ ts)
    → txn ≡ completed_transaction env (env.uuid 0) (posting_of o src dst)
    → (find_replay o.sender.id o.idempotency_key d ≡ some txn)
      × (is_other_request txn o.amount dst.id ≡ false)
unfolding find_replay
recorded_key env o src dst x key ts d txn has e f =
    (ground (arith, text_eq_refl (x ∷ key)), rw f (ground (arith, eqb_ℤ_refl o.amount)))

-- What a retry needs to find.
pub record Found (o : Order) (d : Tables) (txn : Transaction) : Type 0 where
  pub src : ℕ
  pub dst : ℕ
  pub sender_wallet : wallet_id_of o.sender.id d ≡ some src
  pub recipient_wallet : wallet_id_of o.recipient.id d ≡ some dst
  pub distinct : o.recipient.id ≢ o.sender.id
  pub record_of_key : find_replay o.sender.id o.idempotency_key d ≡ some txn
  pub same : is_other_request txn o.amount dst ≡ false

pub Found-after :
    (env : Env) (caller : Caller) (o : Order) (b : Bool) (c c' : Conn) (txn : Transaction)
    (r : Bool) (x : ℕ) (key : Text)
    → KeepsOwners env
    → o.idempotency_key ≡ some (x ∷ key)
    → execute_transfer env caller o b c ≡ (ok (txn, r), c')
    → Found o c'.work txn
Found-after env caller o b c c' txn r x key keeps has h =
    let e = execute_transfer-Entered env caller o b c c' txn r h in
    elim e.outcome [
      | inl (f, s, t, k) ↦ rw k (record {
        src = e.src;
        dst = e.dst;
        sender_wallet = e.sender_wallet;
        recipient_wallet = e.recipient_wallet;
        distinct = (==_iff_ne _ _).0 e.distinct;
        record_of_key = f;
        same = s;
      })
      | inr (f, k) ↦ go e (execute_new-Paying env caller o e.src e.dst b c c' txn r k)
    ]
  where
    go :
        (e : Entered env caller o b c c' txn r)
        → Paying env caller o e.src e.dst b c txn r c'
        → Found o c'.work txn
    go e (lost t f s w k) = rw w (record {
      src = e.src;
      dst = e.dst;
      sender_wallet = keeps.owners c.work o.sender.id e.src e.sender_wallet;
      recipient_wallet = keeps.owners c.work o.recipient.id e.dst e.recipient_wallet;
      distinct = (==_iff_ne _ _).0 e.distinct;
      record_of_key = f;
      same = s;
    })
    go e (paid moved m t z) =
        let v =
          transfer_moves env caller o b c c' txn
            (subst (λ z. execute_transfer env caller o b c ≡ (ok (txn, z), c')) t h) in
        let ws = (env.while_wallets c.work).wallets in
        let owner : (u : ℕ) → wallet_id_of u c'.work ≡ wallet_id_of u (env.while_wallets c.work) =
          λ u.
            ap (λ l. id_in u l) v.wallets
            ∙ id_in-set_balance u v.dst.id _ env.now (set_balance v.src.id _ env.now ws)
            ∙ id_in-set_balance u v.src.id _ env.now ws in
        let k =
          recorded_key env o v.src v.dst x key (env.while_wallets c.work).transactions c'.work txn
            has v.transactions v.recorded in
        record {
          src = v.src.id;
          dst = v.dst.id;
          sender_wallet =
              owner o.sender.id ∙ keeps.owners c.work o.sender.id v.src.id v.sender_wallet;
          recipient_wallet =
              owner o.recipient.id ∙ keeps.owners c.work o.recipient.id v.dst.id v.recipient_wallet;
          distinct = (==_iff_ne _ _).0 e.distinct;
          record_of_key = k.0;
          same = k.1;
        }

-- After a call with a key has returned, by a payment, a replay or a lost race, the same request, made next, returns the same transaction, marked as a replay, and changes nothing, if no wallet that has an owner loses it during the first call's wait for its locks.
pub retry_returns_first :
    (env env' : Env) (caller caller' : Caller) (o : Order) (b b' : Bool) (c c' : Conn)
    (txn : Transaction) (r : Bool) (x : ℕ) (key : Text)
    → KeepsOwners env
    → o.idempotency_key ≡ some (x ∷ key)
    → execute_transfer env caller o b c ≡ (ok (txn, r), c')
    → execute_transfer env' caller' o b' c' ≡ (ok (txn, true), c')
retry_returns_first env env' caller caller' o b b' c c' txn r x key keeps has h =
    let f = Found-after env caller o b c c' txn r x key keeps has h in
    let d =
      replay_decides env' caller' o b' c' f.src f.dst txn f.sender_wallet f.recipient_wallet
        f.distinct f.record_of_key in
    ground (arith, d, f.same)
