-- ===== src/Transfer/Refinement.antt =====
-- The transfer path of app/services/transfer_service.py against an abstract machine that knows
-- nothing but balances.
use pstu_hack_final.Transfer.Payment.{paid, lost, execute_new-Paying}
use pstu_hack_final.Transfer.Retry.{execute_transfer-Entered}
use pstu_hack_final.Db.Rules.{Result-cases}
use pstu_hack_final.Common.{
  ==_iff_ne, ℕ, ◌≡◌, refl, sym, ap, subst, ◌∙◌, ◌≢◌, inl, inr, Bool, true, Option, none, some, List,
  [], ◌∷◌, ◌==◌, if◌then◌else◌, All, Bool-cases, ==_iff,
}
use pstu_hack_final.Common.Int.{ℤ, pos, ◌+ℤ◌, ◌-ℤ◌, ◌≤ℤ◌}
use pstu_hack_final.Db.Actions.{ok, serve, fresh}
use mathlib.Core.Path.{fun_ext}
use pstu_hack_final.Transfer.Effect.{transfer_moves, Transferred}
use pstu_hack_final.Transfer.{Order, execute_transfer}
use pstu_hack_final.Env.{Caller, Env}
use pstu_hack_final.Ledger.Effects.{balance_of}
use pstu_hack_final.Transfer.Refusal.{refusal_moves_nothing, IsQuiet, SameMoney}
use pstu_hack_final.Db.Tables.{find_wallet, Tables, Conn}
use pstu_hack_final.Models.{Wallet, Transaction}

-- What the machine sees: the balance of each wallet that exists.
abbrev pub Accounts : Type 0
Accounts = ℕ → Option ℤ

abbrev pub accounts : Tables → Accounts
accounts d k = balance_of k d

abbrev pub set_account : ℕ → ℤ → Accounts → Accounts
set_account i a m k = if k == i then some a else m k

-- The machine's moves: nothing happens, or a positive amount that its holder has goes from one account to another.
pub data Moved (m : Accounts) : Accounts → Type 0 where
  stays : Moved m m
  pays :
      (src dst : ℕ) (a b amount : ℤ)
      → m src ≡ some a
      → m dst ≡ some b
      → src ≢ dst
      → pos 1 ≤ℤ amount
      → amount ≤ℤ a
      → Moved m (set_account dst (b +ℤ amount) (set_account src (a -ℤ amount) m))

-- Served one after the other, each in a request of its own.
pub record Attempt : Type 0 where
  pub env : Env
  pub caller : Caller
  pub order : Order

unfoldable pub serve_all : List Attempt → Conn → Conn
serve_all [] c = c
serve_all (t ∷ ts) c = serve_all ts (serve (execute_transfer t.env t.caller t.order true) c).1

-- Any number of moves.
pub data Reaches : Accounts → Accounts → Type 0 where
  here : (m : Accounts) → Reaches m m
  then : (m n o : Accounts) → Moved m n → Reaches n o → Reaches m o

find-balance :
    (i : ℕ) (w : Wallet) (d : Tables)
    → find_wallet i d.wallets ≡ some w
    → accounts d i ≡ some w.balance
find-balance i w d e =
    ap (λ (x : Option Wallet). elim x [ none ↦ none | some v ↦ some v.balance ]) e

same-accounts : {d d' : Tables} → SameMoney d d' → accounts d' ≡ accounts d
same-accounts {d} {d'} s =
    ap (λ ws k. elim (find_wallet k ws) [ none ↦ none | some w ↦ some w.balance ]) s.wallets

-- A payment is a move of the machine.
Transferred-accounts :
    (env : Env) (o : Order) (c c' : Conn) (t : Transaction)
    → IsQuiet env
    → (v : Transferred env o true c t c')
    → accounts c'.work
      ≡ set_account v.dst.id
          (v.dst.balance +ℤ o.amount)
          (set_account v.src.id (v.src.balance -ℤ o.amount) (accounts c.work))
Transferred-accounts env o c c' t quiet v = fun_ext at
  where
    before : accounts (env.while_wallets c.work) ≡ accounts c.work
    before = same-accounts (quiet.wallets c.work)

    at :
        (k : ℕ)
        → accounts c'.work k
          ≡ set_account v.dst.id
              (v.dst.balance +ℤ o.amount)
              (set_account v.src.id (v.src.balance -ℤ o.amount) (accounts c.work))
              k
    at k = elim (Bool-cases (k == v.dst.id)) [
      | inl e ↦ rw e (
          subst (λ j. accounts c'.work j ≡ some (v.dst.balance +ℤ o.amount))
            (sym ((==_iff k v.dst.id).0 e)) v.credit)
      | inr e ↦ elim (Bool-cases (k == v.src.id)) [
        | inl f ↦
            rw (e, f)
              (subst (λ j. accounts c'.work j ≡ some (v.src.balance -ℤ o.amount))
                (sym ((==_iff k v.src.id).0 f)) v.debit)
        | inr f ↦
            rw (e, f)
              (v.others k ((==_iff_ne _ _).0 f) ((==_iff_ne _ _).0 e) ∙ ap (λ m. m k) before)
      ]
    ]

Transferred-Moved :
    (env : Env) (o : Order) (c c' : Conn) (t : Transaction)
    → IsQuiet env
    → Transferred env o true c t c'
    → Moved (accounts c.work) (accounts c'.work)
Transferred-Moved env o c c' t quiet v =
    let before = same-accounts (quiet.wallets c.work) in
    let row =
      λ (i : ℕ) (w : Wallet) (f : find_wallet i (env.while_wallets c.work).wallets ≡ some w).
        ap (λ m. m i) (sym before) ∙ find-balance i w (env.while_wallets c.work) f in
    subst (Moved (accounts c.work)) (sym (Transferred-accounts env o c c' t quiet v)) (
      Moved.pays v.src.id v.dst.id v.src.balance v.dst.balance o.amount
        (row v.src.id v.src v.src_row) (row v.dst.id v.dst v.dst_row) v.distinct v.positive
        v.covered)

-- Nothing has happened to the machine where no money has moved.
unmoved : {d d' : Tables} → SameMoney d d' → Moved (accounts d) (accounts d')
unmoved {d} s = subst (Moved (accounts d)) (sym (same-accounts s)) Moved.stays

returned-Moved :
    (env : Env) (caller : Caller) (o : Order) (c c' : Conn) (t : Transaction) (r : Bool)
    → IsQuiet env
    → c.committed ≡ c.work
    → execute_transfer env caller o true c ≡ (ok (t, r), c')
    → Moved (accounts c.committed) (accounts c'.committed)
returned-Moved env caller o c c' t r quiet start h =
    let e = execute_transfer-Entered env caller o true c c' t r h in
    elim e.outcome [
      | inl (f, s, k, same) ↦
          subst (λ (x : Conn). Moved (accounts c.committed) (accounts x.committed)) (sym same)
            Moved.stays
      | inr (f, k) ↦ elim (execute_new-Paying env caller o e.src e.dst true c c' t r k) [
        | lost i j l w z ↦
            subst (λ d. Moved (accounts c.committed) (accounts d)) (sym z)
              (unmoved (quiet.wallets c.committed))
        | paid moved m i j ↦
            let v =
              transfer_moves env caller o true c c' t
                (subst (λ z. execute_transfer env caller o true c ≡ (ok (t, z), c')) i h) in
            subst (λ d. Moved (accounts c.committed) (accounts d)) (sym (v.persisted refl))
              (subst (λ d. Moved (accounts d) (accounts c'.work)) (sym start)
                (Transferred-Moved env o c c' t quiet v))
      ]
    ]

serve-Moved :
    (t : Attempt) (c : Conn)
    → IsQuiet t.env
    → Moved
        (accounts c.committed)
        (accounts (serve (execute_transfer t.env t.caller t.order true) c).1.committed)
unfolding serve
serve-Moved t c quiet =
    let sent = execute_transfer t.env t.caller t.order true (fresh c) in
    elim (Result-cases sent.0) [
      | inl ((txn, r), e) ↦
          returned-Moved t.env t.caller t.order (fresh c) sent.1 txn r quiet refl
            (λ i. (e i, sent.1))
      | inr (x, e) ↦
          let same =
            (refusal_moves_nothing c.committed t.env t.caller t.order true (fresh c) sent.1 x quiet
              (SameMoney-refl c.committed, SameMoney-refl c.committed) (λ i. (e i, sent.1))).0 in
          unmoved same
    ]
  where
    SameMoney-refl : (d : Tables) → SameMoney d d
    SameMoney-refl d = record { wallets = refl; transactions = refl; entries = refl }

-- Whatever transfers are served one after the other, with whatever outcomes, the committed balances go through moves of the abstract machine alone, if nobody else moves money meanwhile.
pub serve_all-Reaches :
    (ts : List Attempt) (c : Conn)
    → All (λ (t : Attempt). IsQuiet t.env) ts
    → Reaches (accounts c.committed) (accounts (serve_all ts c).committed)
unfolding serve_all
serve_all-Reaches [] c a = Reaches.here _
serve_all-Reaches (t ∷ ts) c a =
    let after = (serve (execute_transfer t.env t.caller t.order true) c).1 in
    Reaches.then (accounts c.committed) (accounts after.committed) _ (serve-Moved t c a.0)
      (serve_all-Reaches ts after a.1)
