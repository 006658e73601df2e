-- ===== src/Api/Retry.antt =====
-- A retried POST /transfers of app/routers/transfers.py.
use pstu_hack_final.Common.{
  ℕ, ◌≡◌, refl, sym, ap, subst, ◌∙◌, inl, inr, Bool, true, false, Option, some, ◌∷◌, arith,
  Bool-cases, Option-cases,
}
use pstu_hack_final.Common.Text.{Text}
use pstu_hack_final.Db.Actions.{>>=-eq-ok, Action, Result, ok, err, fresh, ◌>>=◌}
use pstu_hack_final.Transfer.Sending.{send_money-run, executed-committed, send_money-Sent}
use pstu_hack_final.Api.Reads.{
  endpoint-runs, endpoint-success, entries_of, shown_of, shown_of-replay, to_out-reads, own_id,
  own_wallet_id-reads,
}
use pstu_hack_final.Transfer.Replay.{Found-after, Found, KeepsOwners}
use pstu_hack_final.Db.Checks.{too_long}
use pstu_hack_final.Transfer.Retry.{replay_decides}
use pstu_hack_final.Api.Admission.{endpoint-ok}
use pstu_hack_final.Env.{Caller, Env}
use pstu_hack_final.Transfer.{Order, order_of, execute_transfer, find_active, send_money}
use pstu_hack_final.Schemas.{check_transfer, TransferFields, TransferRequest}
use pstu_hack_final.Api.{principal_of, Principal, Http, Libs, Response, own_wallet_id}
use pstu_hack_final.Api.Transfers.{
  create_transfer, send_of, check_create, request_key, send_and_show, TransferOut,
}
use pstu_hack_final.Db.Tables.{Tables, Conn}
use pstu_hack_final.Models.{User, Transaction}

pub bind-ok :
    {A B : Type 0} (m : Action A) (k : A → Action B) (c c' : Conn) (a : A)
    → m c ≡ (ok a, c')
    → (m >>= k) c ≡ k a c'
unfolding ◌>>=◌
bind-ok {A} m k c c' a e =
    ap (λ (q : Result A × Conn). elim (q.0) [ ok b ↦ k b q.1 | err x ↦ (err x, q.1) ]) e

check_create-fields :
    (body : TransferRequest) (key : Option Text) (f : TransferFields × Option Text)
    → check_create body key ≡ some f
    → (g : TransferFields) × (f ≡ (g, key))
check_create-fields body key f h = elim (Bool-cases (too_long 64 key)) [
  | inl e ↦ absurd (ground (arith, e))
  | inr e ↦ elim (Option-cases (check_transfer body)) [
    | inl n ↦ absurd (ground (arith, e, n))
    | inr (g, n) ↦ (g, ground (arith, e, n))
  ]
]

-- What a successful first request has found and done.
record First (libs : Libs) (env : Env) (caller : Caller) (u : User)
    (f : TransferFields × Option Text) (c c2 : Conn) (out : TransferOut) : Type 0 where
  txn : Transaction
  replay : Bool
  wallet : ℕ
  sent :
      send_money libs.bcrypt (request_key env f.1).1 caller (send_of env u f) c
      ≡ (ok (txn, replay), c2)
  own : own_id u c2.work ≡ ok wallet
  shown : shown_of txn c2.work replay (entries_of txn wallet c2.work) ≡ ok out

send_and_show-First :
    (libs : Libs) (env : Env) (caller : Caller) (u : User) (f : TransferFields × Option Text)
    (c c2 : Conn) (out : TransferOut)
    → send_and_show libs env caller u f c ≡ (ok out, c2)
    → First libs env caller u f c c2 out
unfolding send_and_show
send_and_show-First libs env caller u f c c2 out h =
    let (sent, c1, h1, h2) =
      >>=-eq-ok (send_money libs.bcrypt (request_key env f.1).1 caller (send_of env u f)) _ c h in
    let (w, c1', h3, h4) = >>=-eq-ok (own_wallet_id u) _ c1 h2 in
    let own = sym (own_wallet_id-reads u c1) ∙ h3 in
    let shown = sym (to_out-reads sent.0 w sent.1 c1') ∙ h4 in
    let same : c1 ≡ c1' = ap (λ q. q.1) own in
    let after : c1' ≡ c2 = ap (λ q. q.1) shown in
    record {
      txn = sent.0;
      replay = sent.1;
      wallet = w;
      sent = h1 ∙ ap (λ (k : Conn). (ok sent, k)) (same ∙ after);
      own = subst (λ (k : Conn). own_id u k.work ≡ ok w) (same ∙ after) (ap (λ q. q.0) own);
      shown =
          subst (λ (k : Conn). shown_of sent.0 k.work sent.1 (entries_of sent.0 w k.work) ≡ ok out)
            after (ap (λ q. q.0) shown);
    }

-- Every active account of the first tables is found by its phone, as it was, in the second ones.
abbrev KeepsAccounts : Tables → Tables → Type 0
KeepsAccounts d d' =
    (phone : Text) (u : User)
    → find_active phone d.users ≡ some u
    → find_active phone d'.users ≡ some u

-- The same transfer asked for again, on what the first request has left committed.
execute_again :
    (env' : Env) (caller' : Caller) (o : Order) (c1 : Conn) (t : Transaction)
    → c1.committed ≡ c1.work
    → Found o c1.work t
    → execute_transfer env' caller' o true (fresh c1) ≡ (ok (t, true), fresh c1)
execute_again env' caller' o c1 t e found =
    let f = subst (λ d. Found o d t) (sym e) found in
    let d =
      replay_decides env' caller' o true (fresh c1) f.src f.dst t f.sender_wallet f.recipient_wallet
        f.distinct f.record_of_key in
    ground (arith, d, f.same)

send_again :
    (libs : Libs) (env env' : Env) (caller caller' : Caller) (u : User) (g : TransferFields) (x : ℕ)
    (k : Text) (c c1 : Conn) (t : Transaction) (r : Bool)
    → KeepsOwners env
    → c.committed ≡ c.work
    → KeepsAccounts c.work c1.committed
    → send_money libs.bcrypt env caller (send_of env u (g, some (x ∷ k))) c ≡ (ok (t, r), c1)
    → send_money libs.bcrypt env' caller' (send_of env' u (g, some (x ∷ k))) (fresh c1)
      ≡ (ok (t, true), fresh c1)
send_again libs env env' caller caller' u g x k c c1 t r keeps start users h =
    let s = send_of env u (g, some (x ∷ k)) in
    let v = send_money-Sent libs.bcrypt env caller s c c1 t r h in
    let o = order_of s v.recipient in
    let found = Found-after env caller o true c c1 t r x k keeps refl v.run in
    let resolved = users g.recipient_phone v.recipient v.resolved in
    send_money-run libs.bcrypt env' caller' (send_of env' u (g, some (x ∷ k))) (fresh c1)
      v.recipient resolved v.other v.pin
    ∙ execute_again env' caller' o c1 t (executed-committed env caller o c c1 t r start v.run) found

show_again :
    (libs : Libs) (env env' : Env) (caller caller' : Caller) (u : User) (g : TransferFields) (x : ℕ)
    (k : Text) (c c1 : Conn) (out : TransferOut)
    → KeepsOwners env
    → c.committed ≡ c.work
    → KeepsAccounts c.work c1.committed
    → c1.committed ≡ c1.work
    → First libs env caller u (g, some (x ∷ k)) c c1 out
    → send_and_show libs env' caller' u (g, some (x ∷ k)) (fresh c1)
      ≡ (ok (record out { idempotent_replay = true }), fresh c1)
unfolding send_and_show
show_again libs env env' caller caller' u g x k c c1 out keeps start users closed first =
    let sent =
      send_again libs env env' caller caller' u g x k c c1 first.txn first.replay keeps start users
        first.sent in
    let own =
      own_wallet_id-reads u (fresh c1)
      ∙ ap (λ q. (q, fresh c1))
          (subst (λ d. own_id u d ≡ ok first.wallet) (sym closed) first.own) in
    let shown =
      shown_of-replay first.txn c1.committed first.replay
        (entries_of first.txn first.wallet c1.committed) out
        (subst
          (λ d. shown_of first.txn d first.replay (entries_of first.txn first.wallet d) ≡ ok out)
          (sym closed) first.shown) in
    bind-ok (send_money libs.bcrypt env' caller' (send_of env' u (g, some (x ∷ k)))) _ (fresh c1)
      (fresh c1) (first.txn, true) sent
    ∙ bind-ok (own_wallet_id u) _ (fresh c1) (fresh c1) first.wallet own
    ∙ to_out-reads first.txn first.wallet true (fresh c1)
    ∙ ap (λ q. (q, fresh c1)) shown

-- After a POST /transfers with an idempotency key has succeeded, the same user's same request, served next, from whatever session, address and time, succeeds with the same body but for `idempotent_replay`, which is true, and changes nothing, if the limiter lets it pass, the caller's row and every active account that was there at the first request's start are still as they were, and no wallet that has an owner loses it during the first one's wait for its locks. Registrations and payments of others may come in that wait.
pub create_transfer_retried :
    (libs : Libs) (env env' : Env) (http http' : Http) (body : TransferRequest) (x : ℕ) (k : Text)
    (p p' : Principal) (c c' : Conn) (out : TransferOut)
    → KeepsOwners env
    → principal_of libs env http (fresh c) ≡ (ok p, fresh c)
    → create_transfer libs env http body (some (x ∷ k)) c ≡ (Response.success 201 out, c')
    → principal_of libs env' http' (fresh c') ≡ (ok p', fresh c')
    → p'.user ≡ p.user
    → http'.limited ≡ false
    → KeepsAccounts c.committed c'.committed
    → create_transfer libs env' http' body (some (x ∷ k)) c'
      ≡ (Response.success 201 (record out { idempotent_replay = true }), c')
unfolding create_transfer
create_transfer_retried libs env env' http http' body x k p p' c c' out keeps known h known'
      same_user passes users =
    let work = λ (e : Env) (q : Http) (a : Principal) (f : TransferFields × Option Text).
      send_and_show libs e q.caller a.user f in
    let (f, c1, checked, ran, after) =
      endpoint-success 201 (principal_of libs env http) http.limited
        (check_create body (some (x ∷ k))) (work env http) c c' p out known h in
    let (g, is_g) = check_create-fields body (some (x ∷ k)) f checked in
    let first =
      send_and_show-First libs env http.caller p.user (g, some (x ∷ k)) (fresh c) c1 out
        (subst (λ y. send_and_show libs env http.caller p.user y (fresh c) ≡ (ok out, c1)) is_g
          ran) in
    let same_users : KeepsAccounts c.committed c1.committed =
      subst (λ (y : Conn). KeepsAccounts c.committed y.committed) after users in
    let v =
      send_money-Sent libs.bcrypt env http.caller (send_of env p.user (g, some (x ∷ k))) (fresh c)
        c1 first.txn first.replay first.sent in
    let closed =
      executed-committed env http.caller
        (order_of (send_of env p.user (g, some (x ∷ k))) v.recipient) (fresh c) c1 first.txn
        first.replay refl v.run in
    let again =
      show_again libs env env' http.caller http'.caller p.user g x k (fresh c) c1 out keeps refl
        same_users closed first in
    endpoint-ok 201 (principal_of libs env' http') http'.limited (check_create body (some (x ∷ k)))
      (work env' http') c' p' (fresh c') known'
    ∙ endpoint-runs 201 http'.limited (check_create body (some (x ∷ k))) (work env' http') p' f
        (fresh c') (fresh c1) (record out { idempotent_replay = true }) passes checked
        (ap (λ y. send_and_show libs env' http'.caller y f (fresh c')) same_user
          ∙ ap (λ y. send_and_show libs env' http'.caller p.user y (fresh c')) is_g
          ∙ ap (λ y. send_and_show libs env' http'.caller p.user (g, some (x ∷ k)) (fresh y)) after
          ∙ again)
    ∙ ap (λ y. (Response.success 201 (record out { idempotent_replay = true }), y)) (sym after)
