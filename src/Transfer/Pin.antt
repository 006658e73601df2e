-- ===== src/Transfer/Pin.antt =====
-- The PIN authorises each transfer of app/services/transfer_service.py.
use pstu_hack_final.Common.{ℕ, ◌≡◌, subst, inl, inr, false, Option, none, some, [], ◌∷◌, arith}
use pstu_hack_final.Common.Text.{Text, codes}
use pstu_hack_final.Db.Actions.{err, ◌>>=◌}
use pstu_hack_final.Errors.{DomainError, Exn}
use pstu_hack_final.Security.{verify_secret, Bcrypt}
use pstu_hack_final.Models.{AuditAction, MetaValue, Meta, Entity, User}
use pstu_hack_final.Env.{audit, Caller, Env}
use pstu_hack_final.Db.Tables.{Conn, Tables}
use pstu_hack_final.Transfer.{SendMoney, send_money, resolve_recipient, refuse_pin}
use pstu_hack_final.Transfer.Refusal.{SameMoney, audit-SameMoney}
use pstu_hack_final.Db.Rules.{Result-cases, Keeps, keeps_rules, Both}

pub refuse_pin-raises :
    (env : Env) (caller : Caller) (u : ℕ) (e : Option Entity) (m : Meta) (c : Conn)
    → (x : Exn) × ((refuse_pin env caller u e m c).0 ≡ err x)
unfolding refuse_pin ◌>>=◌
refuse_pin-raises env caller u e m c =
    elim (Result-cases (audit env AuditAction.pin_failed (some u) e caller m c).0) [
      | inl (t, f) ↦ (Exn.domain DomainError.invalid_pin, ground (arith, f))
      | inr (x, f) ↦ (x, ground (arith, f))
    ]

pub refuse_pin-SameMoney :
    (d0 : Tables) (env : Env) (caller : Caller) (u : ℕ) (e : Option Entity) (m : Meta)
    → Keeps (SameMoney d0) (refuse_pin env caller u e m)
unfolding refuse_pin
refuse_pin-SameMoney d0 env caller u e m = search (keeps_rules, audit-SameMoney)

resolve_recipient-ends : (u : User) (p : Text) (c : Conn) → (resolve_recipient u p c).1 ≡ c
unfolding resolve_recipient ◌>>=◌
resolve_recipient-ends u p c = ground arith

-- With a PIN that does not match the sender's, `send_money` raises, and moves no money, whatever
-- other transactions do.
pub wrong_pin_moves_nothing :
    (d0 : Tables) (lib : Bcrypt) (env : Env) (caller : Caller) (s : SendMoney) (c : Conn)
    → verify_secret lib s.pin (some s.sender.pin_hash) ≡ false
    → Both (SameMoney d0) c
    → ((x : Exn) × ((send_money lib env caller s c).0 ≡ err x))
      × Both (SameMoney d0) (send_money lib env caller s c).1
unfolding send_money ◌>>=◌
wrong_pin_moves_nothing d0 lib env caller s c wrong h =
    let m : Meta = (codes "amount", MetaValue.money s.amount) ∷ [] in
    let f = resolve_recipient-ends s.sender s.recipient_phone c in
    let refuse = refuse_pin env caller s.sender.id none m in
    elim (Result-cases (resolve_recipient s.sender s.recipient_phone c).0) [
      | inr (x, e) ↦ (
        (x, ground (arith, e)),
        subst (Both (SameMoney d0)) {x = c} {y = (send_money lib env caller s c).1}
            (ground (arith, e, f)) h,
      )
      | inl (u, e) ↦
          let (x, g) = refuse_pin-raises env caller s.sender.id none m c in
          (
            (x, ground (arith, wrong, e, f, g)),
            subst (Both (SameMoney d0)) {x = (refuse c).1} {y = (send_money lib env caller s c).1}
                (ground (arith, wrong, e, f, g))
                ((refuse_pin-SameMoney d0 env caller s.sender.id none m).at c h),
          )
    ]
