-- ===== src/Ledger/Progress.antt =====
-- The row locks of payments and money requests, which are taken in one order.
use pstu_hack_final.Common.{
  ℕ, suc, ◌+◌, ◌≡◌, refl, sym, ap, subst, ◌∙◌, ◌≢◌, ◌⊎◌, inl, inr, Bool, true, false, ◌&&◌, ◌||◌,
  List, [], ◌∷◌, ◌++◌, arith, ltb, ◌==◌, if◌then◌else◌, any, All, Bool-cases, ==_iff,
}
use pstu_hack_final.Ledger.Waiting.{
  is_held, work_left, Advanced, row_id, Takes-Chain, Ordered, process, Reachable, rank, before,
  same_lock, Process,
}
use pstu_hack_final.Db.Tables.{Lock}

All-split :
    (P : Process → Type 0) (xs : List Process) (p : Process) (ys : List Process)
    → All P (xs ++ p ∷ ys)
    → All P xs × P p × All P ys
All-split P [] p ys a = (tt, a.0, a.1)
All-split P (x ∷ xs) p ys a = let (l, m, r) = All-split P xs p ys a.1 in ((a.0, l), m, r)

All-join : (P : Process → Type 0) (xs ys : List Process) → All P xs → All P ys → All P (xs ++ ys)
All-join P [] ys a b = b
All-join P (x ∷ xs) ys a b = (a.0, All-join P xs ys a.1 b)

All-tail_of :
    (l : Lock) (ls hs : List Lock)
    → All (λ h. All (λ w. before h w ≡ true) (l ∷ ls)) hs
    → All (λ h. All (λ w. before h w ≡ true) ls) hs
All-tail_of l ls [] a = tt
All-tail_of l ls (h ∷ hs) a = (a.0.1, All-tail_of l ls hs a.1)

Advanced-Ordered : (ps qs : List Process) → All Ordered ps → Advanced ps qs → All Ordered qs
Advanced-Ordered ps qs a (Advanced.grabs xs ys held l rest e free) =
    let (before_it, it, after) =
      All-split Ordered xs (process held (l ∷ rest)) ys (subst (All Ordered) e a) in
    All-join Ordered xs _ before_it ((it.0.1, (it.0.0, All-tail_of l rest held it.1)), after)
Advanced-Ordered ps qs a (Advanced.ends xs ys held e) =
    let (before_it, it, after) =
      All-split Ordered xs (process held []) ys (subst (All Ordered) e a) in
    All-join Ordered xs ys before_it after

Reachable-Ordered : (ps : List Process) → Reachable ps → All Ordered ps
Reachable-Ordered ps Reachable.idle = tt
Reachable-Ordered ps (Reachable.begun ls qs t r) = ((Takes-Chain ls t, tt), Reachable-Ordered qs r)
Reachable-Ordered ps (Reachable.advanced qs rs r s) =
    Advanced-Ordered qs rs (Reachable-Ordered qs r) s

same_lock-eq : (a b : Lock) → same_lock a b ≡ true → a ≡ b
same_lock-eq (Lock.session i) (Lock.session j) h = ap (λ k. Lock.session k) ((==_iff i j).0 h)
same_lock-eq (Lock.request i) (Lock.request j) h = ap (λ k. Lock.request k) ((==_iff i j).0 h)
same_lock-eq (Lock.wallet i) (Lock.wallet j) h = ap (λ k. Lock.wallet k) ((==_iff i j).0 h)
same_lock-eq (Lock.session i) (Lock.request j) h = cc
same_lock-eq (Lock.session i) (Lock.wallet j) h = cc
same_lock-eq (Lock.request i) (Lock.session j) h = cc
same_lock-eq (Lock.request i) (Lock.wallet j) h = cc
same_lock-eq (Lock.wallet i) (Lock.session j) h = cc
same_lock-eq (Lock.wallet i) (Lock.request j) h = cc

before_trans : (a b c : Lock) → before a b ≡ true → before b c ≡ true → before a c ≡ true
before_trans a b c h k = order (rank a) (row_id a) (rank b) (row_id b) (rank c) (row_id c) h k
  where
    order :
        (a i b j c k : ℕ)
        → (ltb a b || ((a == b) && ltb i j)) ≡ true
        → (ltb b c || ((b == c) && ltb j k)) ≡ true
        → (ltb a c || ((a == c) && ltb i k)) ≡ true
    order a i b j c k h g = ground arith

clash : (b : Bool) → b ≡ true → b ≡ false → ⊥
clash b e f = cc

-- No process waits for a lock that comes after `l`.
abbrev Below : Lock → List Lock → Type 0
Below l [] = Unit
Below l (w ∷ ws) = before l w ≡ false

abbrev NotPast : Lock → Process → Type 0
NotPast l p = Below l p.wanted

-- A process that wants nothing more, or one that wants a lock past which nobody waits.
data Front (ps : List Process) : Type 0 where
  over : (xs ys : List Process) (held : List Lock) → ps ≡ xs ++ process held [] ∷ ys → Front ps
  last :
      (xs ys : List Process) (held : List Lock) (l : Lock) (rest : List Lock)
      → ps ≡ xs ++ process held (l ∷ rest) ∷ ys
      → All (NotPast l) ps
      → All (λ (p : Process). p.wanted ≢ []) ps
      → Front ps

before_irreflexive : (l : Lock) → before l l ≡ false
before_irreflexive l = order (rank l) (row_id l)
  where
    order : (a i : ℕ) → (ltb a a || ((a == a) && ltb i i)) ≡ false
    order a i = ground arith

-- Nobody waits past a lock that comes after one past which nobody waits.
NotPast-after :
    (m l : Lock) (ps : List Process) → before m l ≡ true → All (NotPast m) ps → All (NotPast l) ps
NotPast-after m l [] h a = tt
NotPast-after m l (p ∷ ps) h a = (one p.wanted a.0, NotPast-after m l ps h a.1)
  where
    one : (ws : List Lock) → Below m ws → Below l ws
    one [] n = tt
    one (w ∷ vs) n = elim (Bool-cases (before l w)) [
      | inl e ↦ absurd (clash (before m w) (before_trans m l w h e) n)
      | inr e ↦ e
    ]

front_alone : (held wanted : List Lock) → Front (process held wanted ∷ [])
front_alone held [] = Front.over [] [] held refl
front_alone held (l ∷ rest) =
    Front.last [] [] held l rest refl (before_irreflexive l, tt) ((λ e. cc), tt)

front_more :
    (held wanted : List Lock) (ps : List Process) → Front ps → Front (process held wanted ∷ ps)
front_more held [] ps f = Front.over [] ps held refl
front_more held (l ∷ rest) ps (Front.over xs ys h e) =
    Front.over (process held (l ∷ rest) ∷ xs) ys h (ap (λ qs. process held (l ∷ rest) ∷ qs) e)
front_more held (l ∷ rest) ps (Front.last xs ys h m others e a n) = elim (Bool-cases (before m l)) [
  | inl later ↦
      Front.last [] ps held l rest refl (before_irreflexive l, NotPast-after m l ps later a)
        ((λ e. cc), n)
  | inr earlier ↦
      Front.last (process held (l ∷ rest) ∷ xs) ys h m others
        (ap (λ qs. process held (l ∷ rest) ∷ qs) e) (earlier, a) ((λ e. cc), n)
]

front : (p : Process) (ps : List Process) → Front (p ∷ ps)
front p [] = front_alone p.held p.wanted
front p (q ∷ ps) = front_more p.held p.wanted (q ∷ ps) (front q ps)

-- A lock past which nobody waits is free, where everybody waits.
free :
    (l : Lock) (ps : List Process)
    → All Ordered ps
    → All (NotPast l) ps
    → All (λ (p : Process). p.wanted ≢ []) ps
    → is_held l ps ≡ false
free l [] a b c = refl
free l (p ∷ ps) a b c =
    both (any (λ h. same_lock h l) p.held) (is_held l ps) (own p.held p.wanted a.0.1 b.0 c.0)
      (free l ps a.1 b.1 c.1)
  where
    both : (x y : Bool) → x ≡ false → y ≡ false → (if x then true else y) ≡ false
    both x y e f = ground arith

    own :
        (hs ws : List Lock)
        → All (λ h. All (λ w. before h w ≡ true) ws) hs
        → Below l ws
        → ws ≢ []
        → any (λ h. same_lock h l) hs ≡ false
    own [] ws o n m = refl
    own (h ∷ hs) [] o n m = absurd (m refl)
    own (h ∷ hs) (w ∷ vs) o n m = elim (Bool-cases (same_lock h l)) [
      | inl e ↦
          absurd (clash (before l w) (subst (λ k. before k w ≡ true) (same_lock-eq h l e) o.0.0) n)
      | inr e ↦ rw e (own hs (w ∷ vs) o.1 n m)
    ]

work_left-append : (xs ys : List Process) → work_left (xs ++ ys) ≡ work_left xs + work_left ys
work_left-append [] ys = omega arith
work_left-append (x ∷ xs) ys = omega (arith, work_left-append xs ys)

-- Each step of a process leaves one step less.
work_left-Advanced : (ps qs : List Process) → Advanced ps qs → suc (work_left qs) ≡ work_left ps
work_left-Advanced ps qs (Advanced.grabs xs ys held l rest e f) = sym (
    ap work_left e
    ∙ omega (
      arith,
      work_left-append xs (process held (l ∷ rest) ∷ ys),
      work_left-append xs (process (l ∷ held) rest ∷ ys),
    ))
work_left-Advanced ps qs (Advanced.ends xs ys held e) = sym (
    ap work_left e
    ∙ omega (arith, work_left-append xs (process held [] ∷ ys), work_left-append xs ys))

step_of : (ps : List Process) → All Ordered ps → Front ps → (qs : List Process) × Advanced ps qs
step_of ps o (Front.over xs ys held e) = (xs ++ ys, Advanced.ends xs ys held e)
step_of ps o (Front.last xs ys held l rest e a n) =
    (xs ++ process (l ∷ held) rest ∷ ys, Advanced.grabs xs ys held l rest e (free l ps o a n))

-- Transfers, registrations, answers to money requests and approvals, each with the row locks that `lock_wallets` and `lock_request` take for it, never block each other for good by them: in every state that they come to, unless all have ended, some process can take its next lock or end, and each such step leaves one step less to the end of them all.
pub no_deadlock :
    (ps : List Process)
    → Reachable ps
    → (ps ≡ []) ⊎ ((qs : List Process) × Advanced ps qs × (suc (work_left qs) ≡ work_left ps))
no_deadlock [] r = inl refl
no_deadlock (p ∷ ps) r =
    let (qs, s) = step_of (p ∷ ps) (Reachable-Ordered (p ∷ ps) r) (front p ps) in
    inr (qs, s, work_left-Advanced (p ∷ ps) qs s)
