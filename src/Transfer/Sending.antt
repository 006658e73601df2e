-- ===== src/Transfer/Sending.antt =====
-- A `send_money` of app/services/transfer_service.py that returns.
use pstu_hack_final.Common.{
  ◌≡◌, refl, sym, ap, subst, ◌∙◌, inl, inr, Bool, true, false, none, some, [], ◌∷◌, arith, ◌==◌,
  Bool-cases, Option-cases,
}
use pstu_hack_final.Common.Text.{codes}
use pstu_hack_final.Db.Actions.{ok, ◌>>=◌}
use pstu_hack_final.Transfer.Effect.{transfer_moves}
use pstu_hack_final.Transfer.Payment.{paid, lost, execute_new-Paying}
use pstu_hack_final.Transfer.Retry.{execute_transfer-Entered}
use pstu_hack_final.Transfer.Pin.{refuse_pin-raises}
use pstu_hack_final.Env.{Caller, Env}
use pstu_hack_final.Transfer.{
  Order, order_of, execute_transfer, find_active, SendMoney, resolve_recipient, send_money,
}
use pstu_hack_final.Security.{verify_secret, Bcrypt}
use pstu_hack_final.Db.Tables.{Conn}
use pstu_hack_final.Models.{MetaValue, User, Transaction}

-- What a `send_money` that returns has found.
pub record Sent (lib : Bcrypt) (env : Env) (caller : Caller) (s : SendMoney) (c : Conn)
    (t : Transaction) (r : Bool) (c' : Conn) : Type 0 where
  pub recipient : User
  pub resolved : find_active s.recipient_phone c.work.users ≡ some recipient
  pub other : (recipient.id == s.sender.id) ≡ false
  pub pin : verify_secret lib s.pin (some s.sender.pin_hash) ≡ true
  pub run : execute_transfer env caller (order_of s recipient) true c ≡ (ok (t, r), c')

pub send_money-Sent :
    (lib : Bcrypt) (env : Env) (caller : Caller) (s : SendMoney) (c c' : Conn) (t : Transaction)
    (r : Bool)
    → send_money lib env caller s c ≡ (ok (t, r), c')
    → Sent lib env caller s c t r c'
unfolding send_money resolve_recipient ◌>>=◌
send_money-Sent lib env caller s c c' t r h =
    elim (Option-cases (find_active s.recipient_phone c.work.users)) [
      | inl e ↦ absurd (ground (arith, e))
      | inr (u, e) ↦ elim (Bool-cases (u.id == s.sender.id)) [
        | inl f ↦ absurd (ground (arith, e, f))
        | inr f ↦ elim (Bool-cases (verify_secret lib s.pin (some s.sender.pin_hash))) [
          | inl g ↦ record {
            recipient = u;
            resolved = e;
            other = f;
            pin = g;
            run = ground (arith, e, f, g);
          }
          | inr g ↦
              let (x, raised) =
                refuse_pin-raises env caller s.sender.id none
                  ((codes "amount", MetaValue.money s.amount) ∷ []) c in
              absurd (ground (arith, e, f, g, raised))
        ]
      ]
    ]

pub send_money-run :
    (lib : Bcrypt) (env : Env) (caller : Caller) (s : SendMoney) (c : Conn) (u : User)
    → find_active s.recipient_phone c.work.users ≡ some u
    → (u.id == s.sender.id) ≡ false
    → verify_secret lib s.pin (some s.sender.pin_hash) ≡ true
    → send_money lib env caller s c ≡ execute_transfer env caller (order_of s u) true c
unfolding send_money resolve_recipient ◌>>=◌
send_money-run lib env caller s c u e f g = ground (arith, e, f, g)

-- A transfer that returns, with a commit, has left nothing uncommitted.
pub executed-committed :
    (env : Env) (caller : Caller) (o : Order) (c c' : Conn) (t : Transaction) (r : Bool)
    → c.committed ≡ c.work
    → execute_transfer env caller o true c ≡ (ok (t, r), c')
    → c'.committed ≡ c'.work
executed-committed env caller o c c' t r start h =
    let e = execute_transfer-Entered env caller o true c c' t r h in
    elim e.outcome [
      | inl (f, s, k, same) ↦ subst (λ (x : Conn). x.committed ≡ x.work) (sym same) start
      | inr (f, k) ↦ elim (execute_new-Paying env caller o e.src e.dst true c c' t r k) [
        | lost i j l w z ↦ z ∙ ap env.while_wallets start ∙ sym w
        | paid moved m i j ↦
            (transfer_moves env caller o true c c' t
                (subst (λ z. execute_transfer env caller o true c ≡ (ok (t, z), c')) i h)).persisted
              refl
      ]
    ]
