-- ===== src/Ledger/Locks.antt =====
-- The order and the result of `lock_wallets` (app/services/ledger_service.py).
use pstu_hack_final.Common.{
  ℕ, ◌<◌, ◌≡◌, refl, sym, ap, subst, ◌∙◌, inl, inr, Bool, true, false, ◌||◌, not, some, List, [],
  ◌∷◌, ◌++◌, map, arith, ◌==◌, any, All, is_some, Bool-cases, Option-cases, ==_iff, any-find,
  find-test, any-eq-is_some,
}
use pstu_hack_final.Db.Actions.{ok, ◌>>=◌}
use pstu_hack_final.Models.{Wallet}
use pstu_hack_final.Db.Tables.{Conn, has_wallet, Lock, find_wallet}
use pstu_hack_final.Ledger.{lock_wallets, insert_id, sorted_set, select_wallets}

-- Strictly ascending, above a bound.
abbrev pub Above : ℕ → List ℕ → Type 0
Above b [] = Unit
Above b (i ∷ is) = (b < i) × Above i is

abbrev pub IsAscending : List ℕ → Type 0
IsAscending [] = Unit
IsAscending (i ∷ is) = Above i is

abbrev pub elem : ℕ → List ℕ → Bool
elem i = any (λ j. j == i)

insert_id-Above : (b i : ℕ) (is : List ℕ) → b < i → Above b is → Above b (insert_id i is)
unfolding insert_id
insert_id-Above b i [] h a = (h, tt)
insert_id-Above b i (j ∷ js) h a = ground (arith, insert_id-Above j i js)

insert_id-IsAscending : (i : ℕ) (is : List ℕ) → IsAscending is → IsAscending (insert_id i is)
unfolding insert_id
insert_id-IsAscending i [] a = tt
insert_id-IsAscending i (j ∷ js) a = ground (arith, insert_id-Above j i js)

elem-insert_id : (i k : ℕ) (is : List ℕ) → elem k (insert_id i is) ≡ (i == k || elem k is)
unfolding insert_id
elem-insert_id i k [] = ground arith
elem-insert_id i k (j ∷ js) = ground (arith, elem-insert_id i k js)

pub sorted_set-IsAscending : (is : List ℕ) → IsAscending (sorted_set is)
unfolding sorted_set
sorted_set-IsAscending [] = tt
sorted_set-IsAscending (i ∷ is) =
    insert_id-IsAscending i (sorted_set is) (sorted_set-IsAscending is)

pub elem-sorted_set : (k : ℕ) (is : List ℕ) → elem k (sorted_set is) ≡ elem k is
unfolding sorted_set
elem-sorted_set k [] = refl
elem-sorted_set k (i ∷ is) =
    ground (arith, elem-insert_id i k (sorted_set is), elem-sorted_set k is)

-- A selected row is the row of the table.
pub find-select_wallets :
    (i : ℕ) (is : List ℕ) (ws : List Wallet) (w : Wallet)
    → find_wallet i (select_wallets is ws) ≡ some w
    → find_wallet i ws ≡ some w
unfolding select_wallets
find-select_wallets i [] ws w e = cc
find-select_wallets i (j ∷ js) ws w e = elim (Option-cases (find_wallet j ws)) [
  | inl missing ↦ ground (arith, missing, find-select_wallets i js ws w)
  | inr (v, hit) ↦ elim (Bool-cases (v.id == i)) [
    | inl same ↦
        let i_eq_j : i ≡ j =
          omega (arith, (==_iff v.id i).0 same, (==_iff v.id j).0 (find-test _ ws v hit)) in
        ground (arith, hit, same, subst (λ k. find_wallet k ws ≡ some v) (sym i_eq_j) hit)
    | inr other ↦ ground (arith, hit, other, find-select_wallets i js ws w)
  ]
]

found_of_selected :
    (is js : List ℕ) (ws : List Wallet)
    → any (λ i. not (has_wallet i (select_wallets js ws))) is ≡ false
    → All (λ i. is_some (find_wallet i ws) ≡ true) is
found_of_selected [] js ws h = tt
found_of_selected (i ∷ is) js ws h = elim (Option-cases (find_wallet i (select_wallets js ws))) [
  | inl missing ↦ absurd (ground (arith, any-eq-is_some (λ w. w.id == i) (select_wallets js ws)))
  | inr (w, hit) ↦
      (ground (arith, find-select_wallets i js ws w hit), found_of_selected is js ws (ground arith))
]

abbrev pub wallet_locks : List ℕ → List Lock
wallet_locks = map (λ i. Lock.wallet i)

locks_of_found :
    (is : List ℕ) (ws : List Wallet)
    → All (λ i. is_some (find_wallet i ws) ≡ true) is
    → map (λ (w : Wallet). Lock.wallet w.id) (select_wallets is ws) ≡ wallet_locks is
unfolding select_wallets
locks_of_found [] ws h = refl
locks_of_found (i ∷ is) ws h = elim (Option-cases (find_wallet i ws)) [
  | inl missing ↦ ground arith
  | inr (w, hit) ↦
      ground
        (arith, locks_of_found is ws h.1, (==_iff w.id i).0 (find-test (λ x. x.id == i) ws w hit))
]

-- What a successful `lock_wallets` returns and does.
pub lock_wallets-ok :
    (ids : List ℕ) (c c' : Conn) (rows : List Wallet)
    → lock_wallets ids c ≡ (ok rows, c')
    → (rows ≡ select_wallets (sorted_set ids) c.work.wallets)
      × (c' ≡ record c { locks = c.locks ++ wallet_locks (sorted_set ids) })
unfolding lock_wallets ◌>>=◌
lock_wallets-ok ids c c' rows h =
    let u = sorted_set ids in
    ground (
      arith,
      λ (q : any (λ i. not (has_wallet i (select_wallets u c.work.wallets))) u ≡ false).
          locks_of_found u c.work.wallets (found_of_selected u u c.work.wallets q),
    )

-- A wallet of the table whose id is selected is found among the selected rows.
select_wallets-find :
    (i : ℕ) (is : List ℕ) (ws : List Wallet) (w : Wallet)
    → elem i is ≡ true
    → find_wallet i ws ≡ some w
    → find_wallet i (select_wallets is ws) ≡ some w
unfolding select_wallets
select_wallets-find i [] ws w m f = cc
select_wallets-find i (j ∷ js) ws w m f = elim (Bool-cases (j == i)) [
  | inl same ↦
      let g = subst (λ k. find_wallet k ws ≡ some w) (sym ((==_iff j i).0 same)) f in
      ground (arith, g, find-test (λ x. x.id == i) ws w f)
  | inr other ↦ elim (Option-cases (find_wallet j ws)) [
    | inl missing ↦ ground (arith, other, missing, select_wallets-find i js ws w)
    | inr (v, hit) ↦
        ground
          (arith, other, hit, find-test (λ x. x.id == j) ws v hit, select_wallets-find i js ws w)
  ]
]

none_missing :
    (is us : List ℕ) (ws : List Wallet)
    → ((k : ℕ) → elem k is ≡ true → (elem k us ≡ true) × (is_some (find_wallet k ws) ≡ true))
    → any (λ i. not (has_wallet i (select_wallets us ws))) is ≡ false
none_missing [] us ws h = refl
none_missing (i ∷ is) us ws h =
    let (m, s) = h i (ground arith) in
    elim (Option-cases (find_wallet i ws)) [
      | inl e ↦ absurd (ground (arith, e, s))
      | inr (w, e) ↦ ground (
        arith,
        any-find (λ x. x.id == i) (select_wallets us ws) w (select_wallets-find i us ws w m e),
        none_missing is us ws (λ k q. h k (ground (arith, q))),
      )
    ]

-- Two wallets of the table are locked and returned as they are.
pub lock_wallets-two :
    (i j : ℕ) (c : Conn) (v w : Wallet)
    → find_wallet i c.work.wallets ≡ some v
    → find_wallet j c.work.wallets ≡ some w
    → let us = sorted_set (i ∷ j ∷ []) in
      let rows = select_wallets us c.work.wallets in
      (lock_wallets (i ∷ j ∷ []) c ≡ (ok rows, record c { locks = c.locks ++ wallet_locks us }))
      × (find_wallet i rows ≡ some v)
      × (find_wallet j rows ≡ some w)
unfolding lock_wallets ◌>>=◌
lock_wallets-two i j c v w fi fj =
    let ids : List ℕ = i ∷ j ∷ [] in
    let us = sorted_set ids in
    let ws = c.work.wallets in
    let found : (k : ℕ) → elem k us ≡ true → is_some (find_wallet k ws) ≡ true =
      λ k m. two k (sym (elem-sorted_set k ids) ∙ m) in
    let present = none_missing us us ws (λ k m. (m, found k m)) in
    (
      ground (arith, present, locks_of_found us ws (found_of_selected us us ws present)),
      select_wallets-find i us ws v (elem-sorted_set i ids ∙ ground arith) fi,
      select_wallets-find j us ws w (elem-sorted_set j ids ∙ ground arith) fj,
    )
  where
    two : (k : ℕ) → elem k (i ∷ j ∷ []) ≡ true → is_some (find_wallet k c.work.wallets) ≡ true
    two k m = elim (Bool-cases (i == k)) [
      | inl e ↦ rw (← (==_iff i k).0 e, fi)
      | inr n ↦ rw (← (==_iff j k).0 (ground (arith, n)), fj)
    ]

found_at :
    (is : List ℕ) (ws : List Wallet)
    → All (λ i. is_some (find_wallet i ws) ≡ true) is
    → (k : ℕ) → elem k is ≡ true
    → (w : Wallet) × (find_wallet k ws ≡ some w)
found_at [] ws a k m = cc
found_at (i ∷ is) ws a k m = elim (Bool-cases (i == k)) [
  | inl same ↦ subst (λ j. (w : Wallet) × (find_wallet j ws ≡ some w)) ((==_iff i k).0 same) here
  | inr other ↦ found_at is ws a.1 k (ground (arith, other, m))
]
  where
    here : (w : Wallet) × (find_wallet i ws ≡ some w)
    here = elim (Option-cases (find_wallet i ws)) [
      | inl e ↦ absurd (ground (arith, e, a.0))
      | inr (w, e) ↦ (w, e)
    ]

ids_of_found :
    (is : List ℕ) (ws : List Wallet)
    → All (λ i. is_some (find_wallet i ws) ≡ true) is
    → map (λ (w : Wallet). w.id) (select_wallets is ws) ≡ is
unfolding select_wallets
ids_of_found [] ws h = refl
ids_of_found (i ∷ is) ws h = elim (Option-cases (find_wallet i ws)) [
  | inl missing ↦ ground arith
  | inr (w, hit) ↦
      ground
        (arith, ids_of_found is ws h.1, (==_iff w.id i).0 (find-test (λ x. x.id == i) ws w hit))
]

lock_wallets-found :
    (ids : List ℕ) (c c' : Conn) (rows : List Wallet)
    → lock_wallets ids c ≡ (ok rows, c')
    → All (λ i. is_some (find_wallet i c.work.wallets) ≡ true) (sorted_set ids)
unfolding lock_wallets ◌>>=◌
lock_wallets-found ids c c' rows h =
    let us = sorted_set ids in
    let ws = c.work.wallets in
    elim (Bool-cases (any (λ i. not (has_wallet i (select_wallets us ws))) us)) [
      | inl missing ↦ absurd (ground (arith, missing, h))
      | inr none_is ↦ found_of_selected us us ws none_is
    ]

-- `lock_wallets` that returns has locked the given wallets in ascending order of their ids, each once and no other, and returns exactly their rows, in that order, each as the table holds it now.
pub lock_order :
    (ids : List ℕ) (c c' : Conn) (rows : List Wallet)
    → lock_wallets ids c ≡ (ok rows, c')
    → (us : List ℕ) × IsAscending us
      × ((k : ℕ) → elem k us ≡ elem k ids)
      × (c'.locks ≡ c.locks ++ wallet_locks us)
      × (map (λ (w : Wallet). w.id) rows ≡ us)
      × ((k : ℕ)
          → elem k ids ≡ true
          → (w : Wallet) × (find_wallet k rows ≡ some w) × (find_wallet k c.work.wallets ≡ some w))
lock_order ids c c' rows h =
    let (r, k) = lock_wallets-ok ids c c' rows h in
    let us = sorted_set ids in
    let ws = c.work.wallets in
    let present = lock_wallets-found ids c c' rows h in
    (
      us,
      sorted_set-IsAscending ids,
      λ j. elem-sorted_set j ids,
      ap (λ (x : Conn). x.locks) k,
      ap (map (λ (w : Wallet). w.id)) r ∙ ids_of_found us ws present,
      λ j m.
          let listed = elem-sorted_set j ids ∙ m in
          let (w, e) = found_at us ws present j listed in
          (
            w,
            subst (λ rs. find_wallet j rs ≡ some w) (sym r)
                (select_wallets-find j us ws w listed e),
            e,
          ),
    )
