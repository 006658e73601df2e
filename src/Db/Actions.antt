-- ===== src/Db/Actions.antt =====
-- A service call: it acts on a connection, and returns a value or raises. What it wrote before
-- it raised is still there; a savepoint, a rollback or the end of the request takes it away.
use pstu_hack_final.Common.{◌≡◌, refl, Bool, Option, none, some, true, false, List, [], ◌++◌}
use pstu_hack_final.Errors.{Exn, DomainError}
use pstu_hack_final.Db.Tables.{Tables, Conn, Lock}

pub data Result {ℓ} (A : Type ℓ) : Type ℓ where
  ok : A → Result A
  err : Exn → Result A

abbrev pub Action : Type 0 → Type 0
Action A = Conn → Result A × Conn

abbrev pub ⊤ : Type 0
⊤ = Unit

module _ {A : Type 0} where
  unfoldable pub pure : A → Action A
  pure a c = (ok a, c)

  unfoldable pub throw : Exn → Action A
  throw e c = (err e, c)

  unfoldable pub raise : DomainError → Action A
  raise e c = (err (Exn.domain e), c)

  -- A query: it reads what the transaction sees.
  unfoldable pub query : (Tables → A) → Action A
  query f c = (ok (f c.work), c)

  unfoldable pub or_raise : Option A → DomainError → Action A
  or_raise none e c = (err (Exn.domain e), c)
  or_raise (some a) e c = (ok a, c)

  unfoldable pub or_throw : Option A → Exn → Action A
  or_throw none e c = (err e, c)
  or_throw (some a) e c = (ok a, c)

  -- `try`: the outcome as a value.
  unfoldable pub attempt : Action A → Action (Result A)
  attempt m c = let (r, c') = m c in (ok r, c')

unfoldable pub raise_if : Bool → DomainError → Action ⊤
raise_if true e c = (err (Exn.domain e), c)
raise_if false e c = (ok tt, c)

unfoldable pub throw_if : Bool → Exn → Action ⊤
throw_if true e c = (err e, c)
throw_if false e c = (ok tt, c)

-- `if b: …`
unfoldable pub when : Bool → Action ⊤ → Action ⊤
when true m c = m c
when false m c = (ok tt, c)

unfoldable pub commit : Action ⊤
commit c = (ok tt, record c { committed = c.work; locks = [] })

unfoldable pub rollback : Action ⊤
rollback c = (ok tt, record c { work = c.committed; locks = [] })

-- `if commit: db.commit()`
unfoldable pub commit_if : Bool → Action ⊤
unfolding commit
commit_if true c = commit c
commit_if false c = (ok tt, c)

-- A wait for a row lock: other transactions commit meanwhile, and the next statement sees it.
unfoldable pub wait : (Tables → Tables) → Action ⊤
wait others c = (ok tt, record c { committed = others c.committed; work = others c.work })

unfoldable pub acquire : List Lock → Action ⊤
acquire ls c = (ok tt, record c { locks = c.locks ++ ls })

infixl 5 ◌>>=◌ ◌>>◌
-- Opening this opens the actions above too.
unfoldable pub ◌>>=◌ : {A B : Type 0} → Action A → (A → Action B) → Action B
unfolding pure throw raise query or_raise or_throw attempt raise_if throw_if when commit rollback
    commit_if wait acquire
◌>>=◌ m f c = let (r, c') = m c in elim r [ ok a ↦ f a c' | err e ↦ (err e, c') ]

abbrev pub ◌>>◌ : {A B : Type 0} → Action A → Action B → Action B
m >> k = m >>= λ _. k

-- `with db.begin_nested()`: an exception takes back what was written and locked inside.
unfoldable pub savepoint : {A : Type 0} → Action A → Action A
savepoint m c =
    let (r, c') = m c in
    elim r [ ok a ↦ (ok a, c') | err e ↦ (err e, record c' { work = c.work; locks = c.locks }) ]

-- One statement: it raises and writes nothing, or it writes.
abbrev pub execute : (Tables → Option Exn) → (Tables → Tables) → Action ⊤
execute check write c = elim (check c.work) [
  | some e ↦ (err e, c)
  | none ↦ (ok tt, record c { work = write c.work })
]

-- A request of its own: a new transaction at the start; closing the session at the end drops
-- what was not committed.
abbrev pub fresh : Conn → Conn
fresh c = record c { work = c.committed; locks = [] }

unfoldable pub serve : {A : Type 0} → Action A → Action A
serve m c = let (r, c') = m (fresh c) in (r, fresh c')

pub >>=-eq-ok :
    {A B : Type 0} (m : Action A) (f : A → Action B) (c : Conn) {b : B} {c'' : Conn}
    → (m >>= f) c ≡ (ok b, c'')
    → (a : A) × (c' : Conn) × (m c ≡ (ok a, c')) × (f a c' ≡ (ok b, c''))
unfolding ◌>>=◌
>>=-eq-ok {A} {B} m f c {b} {c''} = go (m c) refl
  where
    go :
        (r : Result A × Conn)
        → m c ≡ r
        → (let (r', c') = r in elim r' [ ok a ↦ f a c' | err e ↦ (err e, c') ]) ≡ (ok b, c'')
        → (a : A) × (c' : Conn) × (m c ≡ (ok a, c')) × (f a c' ≡ (ok b, c''))
    go (ok a, c') e h = (a, c', e, h)
    go (err x, c') e h = cc
