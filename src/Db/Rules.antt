-- ===== src/Db/Rules.antt =====
-- Proof rules for service calls: what every outcome of a call keeps, exceptions included.
use pstu_hack_final.Db.Checks.{audit_violation}
use pstu_hack_final.Models.{AuditLog}
use pstu_hack_final.Db.Statements.{insert_audit}
use pstu_hack_final.Common.{
  ◌+◌, ◌∷◌, List, arith, Option-cases, [], ◌≡◌, refl, Bool, true, false, Option, none, some, ◌⊎◌,
  inl, inr,
}
use pstu_hack_final.Errors.{Exn, DomainError}
use pstu_hack_final.Db.Tables.{Lock, Tables, Conn}
use pstu_hack_final.Db.Actions.{
  pure, wait, raise, throw, acquire, query, rollback, attempt, execute, Action, ⊤, Result, ok, err,
  ◌>>=◌, raise_if, or_raise, or_throw, when, savepoint, commit, commit_if, serve,
}

pub Result-cases {ℓ} :
    {A : Type ℓ} (r : Result A) → ((a : A) × (r ≡ ok a)) ⊎ ((e : Exn) × (r ≡ err e))
Result-cases (ok a) = inl (a, refl)
Result-cases (err e) = inr (e, refl)

-- The call commits nothing.
abbrev pub Uncommitted : {A : Type 0} → Action A → Type 0
Uncommitted m = (c : Conn) → (m c).1.committed ≡ c.committed

-- A property of tables holds of what is committed and of what the transaction sees.
abbrev pub Both : (Tables → Type 0) → Conn → Type 0
Both Q c = Q c.committed × Q c.work

-- Every outcome of the call keeps the property.
pub record Keeps (Q : Tables → Type 0) {A : Type 0} (m : Action A) : Type 0 where
  pub at : (c : Conn) → Both Q c → Both Q (m c).1

module _ {Q : Tables → Type 0} {A B : Type 0} where
  pub Keeps-bind :
      (m : Action A) (f : A → Action B) → Keeps Q m → ((a : A) → Keeps Q (f a)) → Keeps Q (m >>= f)
  unfolding ◌>>=◌
  Keeps-bind m f km kf = record {
    at = λ c h. elim (Result-cases (m c).0) [
      | inl (a, e) ↦ rw (e, ◌>>=◌) ((kf a).at (m c).1 (km.at c h))
      | inr (x, e) ↦ rw (e, ◌>>=◌) (km.at c h)
    ];
  }

module _ {Q : Tables → Type 0} {A : Type 0} where
  pub Keeps-pure : (a : A) → Keeps Q (pure a)
  unfolding pure
  Keeps-pure a = record { at = λ c h. h }

  pub Keeps-throw : (e : Exn) → Keeps Q (throw {A = A} e)
  unfolding throw
  Keeps-throw e = record { at = λ c h. h }

  pub Keeps-raise : (e : DomainError) → Keeps Q (raise {A = A} e)
  unfolding raise
  Keeps-raise e = record { at = λ c h. h }

  pub Keeps-query : (f : Tables → A) → Keeps Q (query f)
  unfolding query
  Keeps-query f = record { at = λ c h. h }

  pub Keeps-or_raise : (o : Option A) (e : DomainError) → Keeps Q (or_raise o e)
  unfolding or_raise
  Keeps-or_raise none e = record { at = λ c h. h }
  Keeps-or_raise (some a) e = record { at = λ c h. h }

  pub Keeps-or_throw : (o : Option A) (e : Exn) → Keeps Q (or_throw o e)
  unfolding or_throw
  Keeps-or_throw none e = record { at = λ c h. h }
  Keeps-or_throw (some a) e = record { at = λ c h. h }

  pub Keeps-attempt : (m : Action A) → Keeps Q m → Keeps Q (attempt m)
  unfolding attempt
  Keeps-attempt m k = record { at = λ c h. k.at c h }

  -- A block in a savepoint need keep the property only where it returns.
  pub Keeps-savepoint :
      (m : Action A)
      → Uncommitted m
      → ((c c' : Conn) (a : A) → Both Q c → m c ≡ (ok a, c') → Q c'.work)
      → Keeps Q (savepoint m)
  unfolding savepoint
  Keeps-savepoint m u k = record {
    at = λ c h. elim (Result-cases (m c).0) [
      | inl (a, e) ↦ rw (e, savepoint) (rw (u c) h.0, k c (m c).1 a h (λ i. (e i, (m c).1)))
      | inr (x, e) ↦ rw (e, savepoint) (rw (u c) h.0, h.1)
    ];
  }

  -- A request keeps it from the committed tables on, whatever it leaves uncommitted.
  pub Keeps-serve : (m : Action A) → Keeps Q m → (c : Conn) → Q c.committed → Both Q (serve m c).1
  unfolding serve
  Keeps-serve m k c h =
      let r = (k.at (record c { work = c.committed; locks = [] }) (h, h)).0 in (r, r)

module _ {Q : Tables → Type 0} where
  pub Keeps-raise_if : (b : Bool) (e : DomainError) → Keeps Q (raise_if b e)
  unfolding raise_if
  Keeps-raise_if true e = record { at = λ c h. h }
  Keeps-raise_if false e = record { at = λ c h. h }

  pub Keeps-when : (b : Bool) (m : Action ⊤) → Keeps Q m → Keeps Q (when b m)
  unfolding when
  Keeps-when true m k = record { at = λ c h. k.at c h }
  Keeps-when false m k = record { at = λ c h. h }

  pub Keeps-commit : Keeps Q commit
  unfolding commit
  Keeps-commit = record { at = λ c h. (h.1, h.1) }

  pub Keeps-commit_if : (b : Bool) → Keeps Q (commit_if b)
  unfolding commit_if
  Keeps-commit_if true = record { at = λ c h. (h.1, h.1) }
  Keeps-commit_if false = record { at = λ c h. h }

  pub Keeps-rollback : Keeps Q rollback
  unfolding rollback
  Keeps-rollback = record { at = λ c h. (h.0, h.0) }

  pub Keeps-wait : (f : Tables → Tables) → ((d : Tables) → Q d → Q (f d)) → Keeps Q (wait f)
  unfolding wait
  Keeps-wait f k = record { at = λ c h. (k c.committed h.0, k c.work h.1) }

  pub Keeps-acquire : (ls : List Lock) → Keeps Q (acquire ls)
  unfolding acquire
  Keeps-acquire ls = record { at = λ c h. h }

  -- One statement.
  pub Keeps-execute :
      (check : Tables → Option Exn) (write : Tables → Tables)
      → ((d : Tables) → Q d → Q (write d))
      → Keeps Q (execute check write)
  Keeps-execute check write k = record {
    at = λ c h. elim (Option-cases (check c.work)) [
      | inl e ↦ rw (e, execute) (h.0, k c.work h.1)
      | inr (x, e) ↦ rw (e, execute) h
    ];
  }

  pub Keeps-insert_audit :
      (a : AuditLog)
      → ((d : Tables) (b : AuditLog) → Q d → Q (record d { audit_log = b ∷ d.audit_log }))
      → Keeps Q (insert_audit a)
  unfolding insert_audit
  Keeps-insert_audit a k = record {
    at = λ c h.
        let a' = record a { id = c.audit_seq } in
        (Keeps-execute (audit_violation a') (λ d. record d { audit_log = a' ∷ d.audit_log })
            (λ d q. k d _ q)).at
          (record c { audit_seq = c.audit_seq + 1 }) h;
  }

pub ruleset keeps_rules = (
  Keeps-bind, Keeps-pure, Keeps-throw, Keeps-raise, Keeps-query, Keeps-or_raise, Keeps-or_throw,
  Keeps-attempt, Keeps-raise_if, Keeps-when, Keeps-commit, Keeps-commit_if, Keeps-rollback,
  Keeps-acquire,
)

pub Uncommitted-execute :
    (check : Tables → Option Exn) (write : Tables → Tables) → Uncommitted (execute check write)
Uncommitted-execute check write c = ground arith

pub Uncommitted-insert_audit : (a : AuditLog) → Uncommitted (insert_audit a)
unfolding insert_audit
Uncommitted-insert_audit a c = ground arith
