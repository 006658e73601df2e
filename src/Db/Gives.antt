-- ===== src/Db/Gives.antt =====
-- A proof rule for service calls whose value the rest of the call depends on.
use pstu_hack_final.Common.{◌≡◌, inl, inr, Option, none, Option-cases, arith}
use pstu_hack_final.Errors.{Exn}
use pstu_hack_final.Db.Tables.{Tables, Conn}
use pstu_hack_final.Db.Actions.{Action, ok, execute, ◌>>=◌}
use pstu_hack_final.Db.Rules.{Keeps, Both, Result-cases}

-- Every outcome keeps a property of tables, and a value that is returned has another.
pub record Gives (Q : Tables → Type 0) {A : Type 0} (P : A → Type 0) (m : Action A) : Type 0 where
  pub keeps : Keeps Q m
  pub value : (c : Conn) (a : A) → Both Q c → (m c).0 ≡ ok a → P a

pub Gives-bind :
    {Q : Tables → Type 0} {A B : Type 0} {P : A → Type 0} (m : Action A) (f : A → Action B)
    → Gives Q P m
    → ((a : A) → P a → Keeps Q (f a))
    → Keeps Q (m >>= f)
unfolding ◌>>=◌
Gives-bind m f g k = record {
  at = λ c h. elim (Result-cases (m c).0) [
    | inl (a, e) ↦ rw (e, ◌>>=◌) ((k a (g.value c a h e)).at (m c).1 (g.keeps.at c h))
    | inr (x, e) ↦ rw (e, ◌>>=◌) (g.keeps.at c h)
  ];
}

-- One statement, which writes only what its constraints admit.
pub Keeps-execute_admitted :
    {Q : Tables → Type 0} (check : Tables → Option Exn) (write : Tables → Tables)
    → ((d : Tables) → check d ≡ none → Q d → Q (write d))
    → Keeps Q (execute check write)
Keeps-execute_admitted check write k = record {
  at = λ c h. elim (Option-cases (check c.work)) [
    | inl e ↦ rw (e, execute) (h.0, k c.work e h.1)
    | inr (x, e) ↦ rw (e, execute) h
  ];
}

-- What is committed has the property on every outcome; what the transaction sees has it where the
-- call returns.
pub record Leaves (Q : Tables → Type 0) {A : Type 0} (m : Action A) : Type 0 where
  pub committed : (c : Conn) → Both Q c → Q (m c).1.committed
  pub returned : (c : Conn) (a : A) → Both Q c → (m c).0 ≡ ok a → Q (m c).1.work

pub Keeps-Leaves : {Q : Tables → Type 0} {A : Type 0} (m : Action A) → Keeps Q m → Leaves Q m
Keeps-Leaves m k = record { committed = λ c h. (k.at c h).0; returned = λ c a h e. (k.at c h).1 }

pub Leaves-bind :
    {Q : Tables → Type 0} {A B : Type 0} (m : Action A) (f : A → Action B)
    → Leaves Q m
    → ((a : A) → Leaves Q (f a))
    → Leaves Q (m >>= f)
unfolding ◌>>=◌
Leaves-bind m f l k = record {
  committed = λ c h. elim (Result-cases (m c).0) [
    | inl (a, e) ↦ rw (e, ◌>>=◌) ((k a).committed (m c).1 (l.committed c h, l.returned c a h e))
    | inr (x, e) ↦ rw (e, ◌>>=◌) (l.committed c h)
  ];
  returned = λ c b h e. elim (Result-cases (m c).0) [
    | inl (a, g) ↦
        rw (g, ◌>>=◌)
          ((k a).returned (m c).1 b (l.committed c h, l.returned c a h g) (ground (arith, e, g)))
    | inr (x, g) ↦ absurd (ground (arith, e, g))
  ];
}
