-- ===== src/Db/Inversion.antt =====
-- What the steps of a service call that returns have found, one construct at a time.
use pstu_hack_final.Common.{◌≡◌, refl, Bool, true, false, Option, none, some, arith}
use pstu_hack_final.Errors.{Exn, DomainError}
use pstu_hack_final.Db.Tables.{Tables, Conn}
use pstu_hack_final.Db.Actions.{Action, ⊤, ok, err, raise_if, when, or_raise, query, ◌>>=◌}

module _ {B : Type 0} {b : B} {c' : Conn} where
  pub raise_if-ok :
      (t : Bool) (e : DomainError) (k : ⊤ → Action B) (c : Conn)
      → (raise_if t e >>= k) c ≡ (ok b, c')
      → (t ≡ false) × (k tt c ≡ (ok b, c'))
  unfolding ◌>>=◌
  raise_if-ok true e k c h = absurd (ground arith)
  raise_if-ok false e k c h = (refl, h)

  pub when-ok :
      (t : Bool) (m : Action ⊤) (k : ⊤ → Action B) (c : Conn)
      → (x : Exn) × ((m c).0 ≡ err x)
      → (when t m >>= k) c ≡ (ok b, c')
      → (t ≡ false) × (k tt c ≡ (ok b, c'))
  unfolding ◌>>=◌
  when-ok true m k c (x, e) h = absurd (ground (arith, e))
  when-ok false m k c r h = (refl, h)

  pub or_raise-ok :
      {A : Type 0} (o : Option A) (e : DomainError) (k : A → Action B) (c : Conn)
      → (or_raise o e >>= k) c ≡ (ok b, c')
      → (a : A) × (o ≡ some a) × (k a c ≡ (ok b, c'))
  unfolding ◌>>=◌
  or_raise-ok none e k c h = absurd (ground arith)
  or_raise-ok (some a) e k c h = (a, refl, h)

  pub query-ok :
      {A : Type 0} (f : Tables → A) (k : A → Action B) (c : Conn)
      → (query f >>= k) c ≡ (ok b, c')
      → k (f c.work) c ≡ (ok b, c')
  unfolding ◌>>=◌
  query-ok f k c h = h
