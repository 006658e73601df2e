-- ===== src/Api/Reads.antt =====
-- What the endpoints of app/routers/transfers.py read after their work, and what a success of any
-- endpoint tells.
use pstu_hack_final.Common.{
  ℕ, ◌≡◌, refl, sym, ap, ◌∙◌, inl, inr, Bool, true, false, ◌&&◌, Option, none, some, List, [], ◌∷◌,
  arith, ◌==◌, keep, Option-cases,
}
use pstu_hack_final.Db.Actions.{Action, Result, ok, err, fresh, ◌>>=◌}
use pstu_hack_final.Api.Admission.{endpoint-ok}
use pstu_hack_final.Schemas.{and_then}
use pstu_hack_final.Errors.{Exn}
use pstu_hack_final.Api.{
  unprocessable, rate_limit_handler, domain_error_handler, run_endpoint, respond, Response,
  endpoint, one_or_none, own_wallet_id,
}
use pstu_hack_final.Api.Transfers.{party_of, TransferOut, to_out}
use pstu_hack_final.Db.Tables.{wallet_of, Tables, Conn}
use pstu_hack_final.Models.{User, LedgerEntry, Transaction}

-- The reads after the transfer, as functions of the tables.
unfoldable pub own_id : User → Tables → Result ℕ
own_id u d = elim (wallet_of u.id d.wallets) [ some w ↦ ok w.id | none ↦ err Exn.attribute_error ]

pub own_wallet_id-reads : (u : User) (c : Conn) → own_wallet_id u c ≡ (own_id u c.work, c)
unfolding own_wallet_id own_id ◌>>=◌
own_wallet_id-reads u c = elim (Option-cases (wallet_of u.id c.work.wallets)) [
  | inl e ↦ ground (arith, e)
  | inr (w, e) ↦ ground (arith, e)
]

abbrev pub entries_of : Transaction → ℕ → Tables → List LedgerEntry
entries_of t w d = keep (λ e. (e.transaction_id == t.id) && (e.wallet_id == w)) d.ledger_entries

abbrev pub out_of : Transaction → Tables → Bool → Option LedgerEntry → TransferOut
out_of t d b e = record {
  reference = t.reference;
  status = t.status;
  txn_type = t.txn_type;
  amount = t.amount;
  note = t.note;
  created_at = t.created_at;
  completed_at = t.completed_at;
  sender = party_of t.sender_wallet_id d;
  recipient = party_of t.receiver_wallet_id d;
  balance_after = and_then e (λ x. some x.balance_after);
  idempotent_replay = b;
}

unfoldable pub shown_of : Transaction → Tables → Bool → List LedgerEntry → Result TransferOut
shown_of t d b [] = ok (out_of t d b none)
shown_of t d b (e ∷ []) = ok (out_of t d b (some e))
shown_of t d b (e ∷ f ∷ es) = err Exn.multiple_results

pub to_out-reads :
    (t : Transaction) (w : ℕ) (b : Bool) (c : Conn)
    → to_out t w b c ≡ (shown_of t c.work b (entries_of t w c.work), c)
unfolding to_out shown_of one_or_none ◌>>=◌
to_out-reads t w b c = go (entries_of t w c.work) refl
  where
    go :
        (es : List LedgerEntry)
        → entries_of t w c.work ≡ es
        → to_out t w b c ≡ (shown_of t c.work b es, c)
    go [] e = rw e refl
    go (x ∷ []) e = rw e refl
    go (x ∷ y ∷ es) e = rw e refl

pub shown_of-replay :
    (t : Transaction) (d : Tables) (b : Bool) (es : List LedgerEntry) (out : TransferOut)
    → shown_of t d b es ≡ ok out
    → shown_of t d true es ≡ ok (record out { idempotent_replay = true })
unfolding shown_of
shown_of-replay t d b [] out h = cc
shown_of-replay t d b (e ∷ []) out h = cc
shown_of-replay t d b (e ∷ f ∷ es) out h = cc

is_success : {A : Type 0} → Response A → Bool
is_success (Response.success s a) = true
is_success r = false

not_success :
    {A : Type 0} (r : Response A) {status : ℕ} {a : A}
    → is_success r ≡ false
    → ¬ (r ≡ Response.success status a)
unfolding is_success
not_success r f h = clash (sym f ∙ ap is_success h)
  where
    clash : ¬ (false ≡ true)
    clash e = cc

respond-success :
    {A : Type 0} (status : ℕ) (r : Result A) (a : A)
    → respond status r ≡ Response.success status a
    → r ≡ ok a
unfolding is_success domain_error_handler
respond-success status (ok b) a h = cc
respond-success status (err (Exn.domain x)) a h = absurd (not_success _ refl h)
respond-success status (err x) a h = absurd (not_success _ refl h)

-- A request that succeeds has been let through, and its work has returned.
pub endpoint-success :
    {P F A : Type 0} (status : ℕ) (who : Action P) (limited : Bool) (body : Option F)
    (work : P → F → Action A) (c c' : Conn) (p : P) (a : A)
    → who (fresh c) ≡ (ok p, fresh c)
    → endpoint status who limited body work c ≡ (Response.success status a, c')
    → (f : F) × (c1 : Conn) × (body ≡ some f) × (work p f (fresh c) ≡ (ok a, c1)) × (c' ≡ fresh c1)
unfolding is_success rate_limit_handler
endpoint-success {P} {F} {A} status who limited body work c c' p a e h =
    go limited body (sym (endpoint-ok status who limited body work c p (fresh c) e) ∙ h)
  where
    go :
        (b : Bool) (o : Option F)
        → run_endpoint status b o work p (fresh c) ≡ (Response.success status a, c')
        → (f : F) × (c1 : Conn) × (o ≡ some f) × (work p f (fresh c) ≡ (ok a, c1)) × (c' ≡ fresh c1)
    go b none k = absurd (not_success unprocessable refl (ap (λ q. q.0) k))
    go true (some f) k = absurd (not_success rate_limit_handler refl (ap (λ q. q.0) k))
    go false (some f) k =
        let r = work p f (fresh c) in
        let same = respond-success status r.0 a (ap (λ q. q.0) k) in
        (f, r.1, refl, (λ i. (same i, r.1)), sym (ap (λ q. q.1) k))

-- An endpoint that is let through answers with what its work returns.
pub endpoint-runs :
    {P F A : Type 0} (status : ℕ) (limited : Bool) (body : Option F) (work : P → F → Action A)
    (p : P) (f : F) (c c1 : Conn) (a : A)
    → limited ≡ false
    → body ≡ some f
    → work p f c ≡ (ok a, c1)
    → run_endpoint status limited body work p c ≡ (Response.success status a, fresh c1)
endpoint-runs {P} {F} {A} status limited body work p f c c1 a l b w =
    ap (λ x. run_endpoint status x body work p c) l
    ∙ ap (λ o. run_endpoint status false o work p c) b
    ∙ ap (λ (q : Result A × Conn). (respond status q.0, fresh q.1)) w
