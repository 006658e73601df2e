-- ===== src/Ledger/Waiting.antt =====
-- Transactions that wait for each other's row locks, as a step relation. A lock is held to the end of
-- its transaction.
use pstu_hack_final.Common.{
  ℕ, suc, ◌+◌, ◌<◌, ◌≡◌, refl, sym, ap, subst, ◌∙◌, ◌⊎◌, inl, inr, Bool, true, false, ◌&&◌, ◌||◌,
  none, some, List, [], ◌∷◌, ◌++◌, map, arith, ltb, ◌==◌, length, any, All, Option-cases, ==_iff,
  find-test,
}
use pstu_hack_final.Db.Actions.{◌>>=◌}
use pstu_hack_final.Env.{Env}
use pstu_hack_final.Requests.{find_party, lock_request}
use pstu_hack_final.Models.{User, Wallet}
use pstu_hack_final.Ledger.{select_wallets, lock_wallets, sorted_set}
use pstu_hack_final.Ledger.Locks.{sorted_set-IsAscending, IsAscending, Above}
use pstu_hack_final.Db.Tables.{find_wallet, Conn, Lock}

-- An order for the proof: a request's or a session's row before the wallets, and rows by their ids.
abbrev pub rank : Lock → ℕ
rank (Lock.session i) = 0
rank (Lock.request i) = 0
rank (Lock.wallet i) = 1

abbrev pub row_id : Lock → ℕ
row_id (Lock.session i) = i
row_id (Lock.request i) = i
row_id (Lock.wallet i) = i

abbrev pub before : Lock → Lock → Bool
before a b = ltb (rank a) (rank b) || ((rank a == rank b) && ltb (row_id a) (row_id b))

abbrev pub same_lock : Lock → Lock → Bool
same_lock (Lock.session i) (Lock.session j) = i == j
same_lock (Lock.request i) (Lock.request j) = i == j
same_lock (Lock.wallet i) (Lock.wallet j) = i == j
same_lock a b = false

-- The locks that a transaction takes in order, by `lock_wallets` for a transfer or a registration, by
-- `lock_request` for an answer to a request, and by both for an approval, whatever their outcomes.
-- What happens between the two leaves the locks as they are.
pub data Takes : List Lock → Type 0 where
  payment : (ids : List ℕ) (c : Conn) → c.locks ≡ [] → Takes (lock_wallets ids c).1.locks
  answer :
      (env : Env) (i : ℕ) (u : User) (c : Conn)
      → c.locks ≡ []
      → Takes (lock_request env i u c).1.locks
  settlement :
      (env : Env) (i : ℕ) (u : User) (c d : Conn) (ids : List ℕ)
      → c.locks ≡ []
      → d.locks ≡ (lock_request env i u c).1.locks
      → Takes (lock_wallets ids d).1.locks

pub record Process : Type 0 where
  pub held : List Lock
  pub wanted : List Lock

abbrev pub process : List Lock → List Lock → Process
process held wanted = record { held = held; wanted = wanted }

abbrev pub is_held : Lock → List Process → Bool
is_held l = any (λ (p : Process). any (λ h. same_lock h l) p.held)

-- A process takes the next lock that it wants if nobody holds it, and ends when it has them all.
pub data Advanced (ps : List Process) : List Process → Type 0 where
  grabs :
      (xs ys : List Process) (held : List Lock) (l : Lock) (rest : List Lock)
      → ps ≡ xs ++ process held (l ∷ rest) ∷ ys
      → is_held l ps ≡ false
      → Advanced ps (xs ++ process (l ∷ held) rest ∷ ys)
  ends :
      (xs ys : List Process) (held : List Lock)
      → ps ≡ xs ++ process held [] ∷ ys
      → Advanced ps (xs ++ ys)

-- The states that processes come to, each begun at any time.
pub data Reachable : List Process → Type 0 where
  idle : Reachable []
  begun :
      (locks : List Lock) (ps : List Process)
      → Takes locks
      → Reachable ps
      → Reachable (process [] locks ∷ ps)
  advanced : (ps qs : List Process) → Reachable ps → Advanced ps qs → Reachable qs

-- The steps that are left.
abbrev pub work_left : List Process → ℕ
work_left [] = 0
work_left (p ∷ ps) = suc (length p.wanted) + work_left ps

abbrev pub Chain : List Lock → Type 0
Chain [] = Unit
Chain (l ∷ ls) = All (λ m. before l m ≡ true) ls × Chain ls

-- What a process holds comes before what it wants, which is in order.
abbrev pub Ordered : Process → Type 0
Ordered p = Chain p.wanted × All (λ h. All (λ w. before h w ≡ true) p.wanted) p.held

abbrev locks_of : List Wallet → List Lock
locks_of = map (λ (w : Wallet). Lock.wallet w.id)

Above-lower : (b i : ℕ) (is : List ℕ) → b < i → Above i is → Above b is
Above-lower b i [] h a = tt
Above-lower b i (j ∷ js) h a = (omega (arith, h, a.0), a.1)

selected-missing :
    (i : ℕ) (is : List ℕ) (ws : List Wallet)
    → find_wallet i ws ≡ none
    → select_wallets is ws ≡ select_wallets (i ∷ is) ws
unfolding select_wallets
selected-missing i is ws e = ground (arith, e)

selected-found :
    (i : ℕ) (is : List ℕ) (ws : List Wallet) (w : Wallet)
    → find_wallet i ws ≡ some w
    → w ∷ select_wallets is ws ≡ select_wallets (i ∷ is) ws
unfolding select_wallets
selected-found i is ws w e = ground (arith, e)

module _ (ws : List Wallet) where
  -- The rows that are there, in the order of the given ids.
  abbrev locks_at : List ℕ → List Lock
  locks_at is = locks_of (select_wallets is ws)

  -- What holds of the locks of the rows that are there holds of those of the given ids.
  by_row :
      (P : List Lock → Type 0) (i : ℕ) (is : List ℕ)
      → P (locks_at is)
      → ((w : Wallet) → w.id ≡ i → P (Lock.wallet w.id ∷ locks_at is))
      → P (locks_at (i ∷ is))
  by_row P i is missing found = elim (Option-cases (find_wallet i ws)) [
    | inl e ↦ subst (λ rs. P (locks_of rs)) (selected-missing i is ws e) missing
    | inr (w, e) ↦
        subst (λ rs. P (locks_of rs)) (selected-found i is ws w e)
          (found w ((==_iff w.id i).0 (find-test (λ x. x.id == i) ws w e)))
  ]

  Above-before :
      (b : ℕ) (is : List ℕ) → Above b is → All (λ m. before (Lock.wallet b) m ≡ true) (locks_at is)
  unfolding select_wallets
  Above-before b [] a = tt
  Above-before b (i ∷ is) a =
      let rest = Above-before b is (Above-lower b i is a.0 a.1) in
      by_row (All (λ m. before (Lock.wallet b) m ≡ true)) i is rest
        (λ w same. (ground (arith, same, a.0), rest))

  Above-Chain : (b : ℕ) (is : List ℕ) → Above b is → Chain (locks_at is)
  unfolding select_wallets
  Above-Chain b [] a = tt
  Above-Chain b (i ∷ is) a =
      let rest = Above-Chain i is a.1 in
      by_row Chain i is rest
        (λ w same. (Above-before w.id is (subst (λ k. Above k is) (sym same) a.1), rest))

  IsAscending-Chain : (is : List ℕ) → IsAscending is → Chain (locks_at is)
  unfolding select_wallets
  IsAscending-Chain [] a = tt
  IsAscending-Chain (i ∷ is) a =
      let rest = Above-Chain i is a in
      by_row Chain i is rest
        (λ w same. (Above-before w.id is (subst (λ k. Above k is) (sym same) a), rest))

lock_wallets-locks :
    (ids : List ℕ) (c : Conn)
    → (lock_wallets ids c).1.locks
      ≡ c.locks ++ locks_of (select_wallets (sorted_set ids) c.work.wallets)
unfolding lock_wallets ◌>>=◌
lock_wallets-locks ids c = ground arith

-- One row's lock, or none where the request is not found.
lock_request-locks :
    (env : Env) (i : ℕ) (u : User) (c : Conn)
    → c.locks ≡ []
    → ((lock_request env i u c).1.locks ≡ [])
      ⊎ ((j : ℕ) × ((lock_request env i u c).1.locks ≡ Lock.request j ∷ []))
unfolding lock_request ◌>>=◌
lock_request-locks env i u c none_yet =
    elim (Option-cases (find_party i u.id (env.while_row c.work).money_requests)) [
      | inl e ↦ inl (ground (arith, e, none_yet))
      | inr (q, e) ↦ inr (q.id, ground (arith, e, none_yet))
    ]

request-before :
    (i : ℕ) (ws : List Wallet) → All (λ m. before (Lock.request i) m ≡ true) (locks_of ws)
request-before i [] = tt
request-before i (w ∷ ws) = (refl, request-before i ws)

pub Takes-Chain : (ls : List Lock) → Takes ls → Chain ls
Takes-Chain ls (Takes.payment ids c e) =
    let us = sorted_set ids in
    subst Chain
      (sym
        (lock_wallets-locks ids c ∙ ap (λ l. l ++ locks_of (select_wallets us c.work.wallets)) e))
      (IsAscending-Chain c.work.wallets us (sorted_set-IsAscending ids))
Takes-Chain ls (Takes.answer env i u c e) = elim (lock_request-locks env i u c e) [
  | inl f ↦ subst Chain (sym f) tt
  | inr (j, f) ↦ subst Chain (sym f) (tt, tt)
]
Takes-Chain ls (Takes.settlement env i u c d ids e g) =
    let ws = select_wallets (sorted_set ids) d.work.wallets in
    let chain = IsAscending-Chain d.work.wallets (sorted_set ids) (sorted_set-IsAscending ids) in
    elim (lock_request-locks env i u c e) [
      | inl f ↦
          subst Chain (sym (lock_wallets-locks ids d ∙ ap (λ l. l ++ locks_of ws) (g ∙ f))) chain
      | inr (j, f) ↦
          subst Chain (sym (lock_wallets-locks ids d ∙ ap (λ l. l ++ locks_of ws) (g ∙ f)))
            (request-before j ws, chain)
    ]
