-- ===== src/Ledger/Reconcile.antt =====
-- The reconciliation queries of app/services/ledger_service.py and the report of
-- app/routers/admin.py.
use pstu_hack_final.Common.{
  ℕ, ◌≡◌, refl, subst, ◌∙◌, ◌↔◌, inl, inr, Bool, true, false, ◌&&◌, not, List, [], ◌∷◌, map, arith,
  ◌==◌, if◌then◌else◌, length, keep, any, All, Bool-cases, ==_iff,
}
use pstu_hack_final.Common.Int.{ℤ, pos, ltb_ℤ, eqb_ℤ, eqb_ℤ_iff}
use pstu_hack_final.Models.{is_system, Wallet, LedgerEntry}
use pstu_hack_final.Db.Tables.{Tables}
use pstu_hack_final.Ledger.Sums.{sum_amounts, txn_sum, wallet_sum}
use pstu_hack_final.Ledger.Consistency.{NoDrift, IsSolvent}

unfoldable pub ledger_sum : Tables → ℤ
ledger_sum d = sum_amounts d.ledger_entries

-- `GROUP BY`: the keys of the rows, each once.
abbrev pub distinct : List ℕ → List ℕ
distinct [] = []
distinct (k ∷ ks) = if any (λ j. j == k) ks then distinct ks else k ∷ distinct ks

unfoldable pub unbalanced_transactions : Tables → List ℕ
unbalanced_transactions d =
    keep (λ t. not (eqb_ℤ (txn_sum t d.ledger_entries) (pos 0)))
      (distinct (map (λ (e : LedgerEntry). e.transaction_id) d.ledger_entries))

-- The LEFT JOIN with COALESCE gives a wallet with no entries the sum 0.
unfoldable pub drifted_wallets : Tables → List ℕ
drifted_wallets d =
    map (λ (w : Wallet). w.id)
      (keep (λ (w : Wallet). not (eqb_ℤ w.balance (wallet_sum w.id d.ledger_entries))) d.wallets)

unfoldable pub insolvent_wallets : Tables → List ℕ
insolvent_wallets d =
    map (λ (w : Wallet). w.id)
      (keep (λ (w : Wallet). not (is_system w.wallet_type) && ltb_ℤ w.balance (pos 0)) d.wallets)

-- The fields of `offending` are the three lists.
pub record ReconcileReport : Type 0 where
  pub conservation : Bool
  pub balanced_events : Bool
  pub no_drift : Bool
  pub solvency : Bool
  pub all_hold : Bool
  pub ledger_sum : ℤ
  pub wallet_count : ℕ
  pub transaction_count : ℕ
  pub entry_count : ℕ
  pub unbalanced_transactions : List ℕ
  pub drifted_wallets : List ℕ
  pub insolvent_wallets : List ℕ

-- `not xs`
abbrev pub is_empty : List ℕ → Bool
is_empty [] = true
is_empty (x ∷ xs) = false

unfoldable pub reconcile : Tables → ReconcileReport
reconcile d =
    let total = ledger_sum d in
    let unbalanced = unbalanced_transactions d in
    let drifted = drifted_wallets d in
    let insolvent = insolvent_wallets d in
    let conservation = eqb_ℤ total (pos 0) in
    record {
      conservation = conservation;
      balanced_events = is_empty unbalanced;
      no_drift = is_empty drifted;
      solvency = is_empty insolvent;
      all_hold = conservation && is_empty unbalanced && is_empty drifted && is_empty insolvent;
      ledger_sum = total;
      wallet_count = length d.wallets;
      transaction_count = length d.transactions;
      entry_count = length d.ledger_entries;
      unbalanced_transactions = unbalanced;
      drifted_wallets = drifted;
      insolvent_wallets = insolvent;
    }

-- What the report claims, said of the rows.
pub record FourInvariants (d : Tables) : Type 0 where
  pub conservation : sum_amounts d.ledger_entries ≡ pos 0
  pub balanced : (t : ℕ) → txn_sum t d.ledger_entries ≡ pos 0
  pub no_drift : All (NoDrift d.ledger_entries) d.wallets
  pub solvent : All IsSolvent d.wallets

-- `keep` finds nothing exactly where every row fails the test.
pub keep-nil {ℓ} :
    {A : Type ℓ} (p : A → Bool) (xs : List A) → keep p xs ≡ [] → All (λ x. p x ≡ false) xs
keep-nil p [] h = tt
keep-nil p (x ∷ xs) h = ground (arith, keep-nil p xs)

pub nil-keep {ℓ} :
    {A : Type ℓ} (p : A → Bool) (xs : List A) → All (λ x. p x ≡ false) xs → keep p xs ≡ []
nil-keep p [] h = refl
nil-keep p (x ∷ xs) h = ground (arith, nil-keep p xs h.1)

is_empty-map : {A : Type 0} (f : A → ℕ) (xs : List A) → is_empty (map f xs) ≡ true → xs ≡ []
is_empty-map f [] h = refl
is_empty-map f (x ∷ xs) h = cc

is_empty-nil : (xs : List ℕ) → is_empty xs ≡ true → xs ≡ []
is_empty-nil [] h = refl
is_empty-nil (x ∷ xs) h = cc

All-mono {ℓ κ μ} :
    {A : Type ℓ} (P : A → Type κ) (Q : A → Type μ) (xs : List A)
    → ((x : A) → P x → Q x)
    → All P xs
    → All Q xs
All-mono P Q [] f h = tt
All-mono P Q (x ∷ xs) f h = (f x h.0, All-mono P Q xs f h.1)

-- A transaction with no entries has the sum 0; one with entries is among the groups.
any-distinct : (k : ℕ) (ks : List ℕ) → any (λ j. j == k) (distinct ks) ≡ any (λ j. j == k) ks
any-distinct k [] = refl
any-distinct k (j ∷ ks) = elim (Bool-cases (any (λ i. i == j) ks)) [
  | inl seen ↦ elim (Bool-cases (j == k)) [
    | inl e ↦
        let seen' = subst (λ m. any (λ i. i == m) ks ≡ true) ((==_iff j k).0 e) seen in
        ground (arith, seen, seen', any-distinct k ks)
    | inr n ↦ ground (arith, seen, any-distinct k ks)
  ]
  | inr first ↦ ground (arith, first, any-distinct k ks)
]

txn_sum-absent :
    (t : ℕ) (es : List LedgerEntry)
    → any (λ j. j == t) (map (λ (e : LedgerEntry). e.transaction_id) es) ≡ false
    → txn_sum t es ≡ pos 0
txn_sum-absent t [] h = refl
txn_sum-absent t (e ∷ es) h = ground (arith, txn_sum-absent t es)

All-any : (P : ℕ → Type 0) (k : ℕ) (ks : List ℕ) → All P ks → any (λ j. j == k) ks ≡ true → P k
All-any P k [] a h = cc
All-any P k (j ∷ ks) a h = elim (Bool-cases (j == k)) [
  | inl e ↦ subst P ((==_iff j k).0 e) a.0
  | inr n ↦ All-any P k ks a.1 (ground (arith, n))
]

-- No group is unbalanced exactly where the sum of every transaction is 0.
unbalanced-nil :
    (d : Tables) → unbalanced_transactions d ≡ [] → (t : ℕ) → txn_sum t d.ledger_entries ≡ pos 0
unfolding unbalanced_transactions
unbalanced-nil d h t =
    let es = d.ledger_entries in
    let ts = map (λ (e : LedgerEntry). e.transaction_id) es in
    elim (Bool-cases (any (λ j. j == t) ts)) [
      | inl present ↦
          let e =
            All-any (λ k. not (eqb_ℤ (txn_sum k es) (pos 0)) ≡ false) t (distinct ts)
              (keep-nil _ (distinct ts) h) (any-distinct t ts ∙ present) in
          (eqb_ℤ_iff (txn_sum t es) (pos 0)).0 (ground (arith, e))
      | inr absent ↦ txn_sum-absent t es absent
    ]

nil-unbalanced :
    (d : Tables) → ((t : ℕ) → txn_sum t d.ledger_entries ≡ pos 0) → unbalanced_transactions d ≡ []
unfolding unbalanced_transactions
nil-unbalanced d h =
    nil-keep _ (distinct (map (λ (e : LedgerEntry). e.transaction_id) d.ledger_entries)) (all _)
  where
    all : (ks : List ℕ) → All (λ k. not (eqb_ℤ (txn_sum k d.ledger_entries) (pos 0)) ≡ false) ks
    all [] = tt
    all (k ∷ ks) = (ground (arith, h k), all ks)

drifted_iff :
    (d : Tables) → (is_empty (drifted_wallets d) ≡ true) ↔ All (NoDrift d.ledger_entries) d.wallets
unfolding drifted_wallets
drifted_iff d = (sound, complete)
  where
    test : Wallet → Bool
    test w = not (eqb_ℤ w.balance (wallet_sum w.id d.ledger_entries))

    agree : (w : Wallet) → test w ≡ false → NoDrift d.ledger_entries w
    agree w h = (eqb_ℤ_iff w.balance (wallet_sum w.id d.ledger_entries)).0 (ground arith)

    agrees : (w : Wallet) → NoDrift d.ledger_entries w → test w ≡ false
    agrees w h = rw ((eqb_ℤ_iff w.balance (wallet_sum w.id d.ledger_entries)).1 h)

    sound : is_empty (drifted_wallets d) ≡ true → All (NoDrift d.ledger_entries) d.wallets
    sound h = All-mono _ _ d.wallets agree (keep-nil test d.wallets (is_empty-map _ _ h))

    complete : All (NoDrift d.ledger_entries) d.wallets → is_empty (drifted_wallets d) ≡ true
    complete a = rw (nil-keep test d.wallets (All-mono _ _ d.wallets agrees a))

insolvent_iff : (d : Tables) → (is_empty (insolvent_wallets d) ≡ true) ↔ All IsSolvent d.wallets
unfolding insolvent_wallets
insolvent_iff d = (sound, complete)
  where
    test : Wallet → Bool
    test w = not (is_system w.wallet_type) && ltb_ℤ w.balance (pos 0)

    agree : (w : Wallet) → test w ≡ false → IsSolvent w
    agree w h = ground arith

    agrees : (w : Wallet) → IsSolvent w → test w ≡ false
    agrees w h = ground arith

    sound : is_empty (insolvent_wallets d) ≡ true → All IsSolvent d.wallets
    sound h = All-mono _ _ d.wallets agree (keep-nil test d.wallets (is_empty-map _ _ h))

    complete : All IsSolvent d.wallets → is_empty (insolvent_wallets d) ≡ true
    complete a = rw (nil-keep test d.wallets (All-mono _ _ d.wallets agrees a))

unbalanced_iff :
    (d : Tables)
    → (is_empty (unbalanced_transactions d) ≡ true) ↔ ((t : ℕ) → txn_sum t d.ledger_entries ≡ pos 0)
unbalanced_iff d = (λ h. unbalanced-nil d (is_empty-nil _ h), λ h. rw (nil-unbalanced d h))

-- Each flag of the report is true exactly when its invariant holds of the rows, and `all_hold`
-- exactly when all four do.
pub reconcile_iff :
    (d : Tables)
    → let r = reconcile d in
      ((r.conservation ≡ true) ↔ (sum_amounts d.ledger_entries ≡ pos 0))
      × ((r.balanced_events ≡ true) ↔ ((t : ℕ) → txn_sum t d.ledger_entries ≡ pos 0))
      × ((r.no_drift ≡ true) ↔ All (NoDrift d.ledger_entries) d.wallets)
      × ((r.solvency ≡ true) ↔ All IsSolvent d.wallets)
      × ((r.all_hold ≡ true) ↔ FourInvariants d)
unfolding reconcile ledger_sum
reconcile_iff d = (sums, unbalanced_iff d, drifted_iff d, insolvent_iff d, (sound, complete))
  where
    sums :
        (eqb_ℤ (sum_amounts d.ledger_entries) (pos 0) ≡ true)
        ↔ (sum_amounts d.ledger_entries ≡ pos 0)
    sums = eqb_ℤ_iff (sum_amounts d.ledger_entries) (pos 0)

    sound : (reconcile d).all_hold ≡ true → FourInvariants d
    sound h = record {
      conservation = sums.0 (ground arith);
      balanced = (unbalanced_iff d).0 (ground arith);
      no_drift = (drifted_iff d).0 (ground arith);
      solvent = (insolvent_iff d).0 (ground arith);
    }

    complete : FourInvariants d → (reconcile d).all_hold ≡ true
    complete v = ground (
      arith,
      sums.1 v.conservation,
      (unbalanced_iff d).1 v.balanced,
      (drifted_iff d).1 v.no_drift,
      (insolvent_iff d).1 v.solvent,
    )
