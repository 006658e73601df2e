-- ===== src/Api/Privacy.antt =====
-- What GET /transfers/{reference} of app/routers/transfers.py tells about transactions of others.
use pstu_hack_final.Errors.{DomainError, Exn}
use pstu_hack_final.Api.{own_wallet_id}
use pstu_hack_final.Api.Retry.{bind-ok}
use pstu_hack_final.Common.{
  ℕ, ◌≡◌, refl, sym, ap, ◌∙◌, inl, inr, false, ◌&&◌, Option, none, some, List, [], ◌∷◌, arith, find,
  keep, Bool-cases, Option-cases,
}
use pstu_hack_final.Common.Text.{Text, text_eq}
use pstu_hack_final.Db.Actions.{Result, ok, err, ◌>>=◌}
use pstu_hack_final.Api.Reads.{entries_of, own_wallet_id-reads, to_out-reads, shown_of, own_id}
use pstu_hack_final.Api.Transfers.{to_out, TransferOut, party_of, find_and_show}
use pstu_hack_final.Statement.Lookup.{get_transaction_for_user, is_on}
use pstu_hack_final.Db.Tables.{Tables, Conn}
use pstu_hack_final.Models.{LedgerEntry, User, Transaction}

-- The connection without the transactions that the wallet is on neither side of.
abbrev pub hide_foreign : ℕ → Conn → Conn
hide_foreign w c = record c {
  work = record c.work { transactions = keep (is_on w) c.work.transactions };
}

find-keep :
    (r : Text) (w : ℕ) (ts : List Transaction)
    → find (λ (t : Transaction). text_eq t.reference r && is_on w t) (keep (is_on w) ts)
      ≡ find (λ (t : Transaction). text_eq t.reference r && is_on w t) ts
find-keep r w [] = refl
find-keep r w (t ∷ ts) = elim (Bool-cases (is_on w t)) [
  | inl e ↦ ground (arith, e, find-keep r w ts)
  | inr e ↦ ground (arith, e, find-keep r w ts)
]

abbrev found_of : Text → ℕ → Tables → Option Transaction
found_of r w d = find (λ (t : Transaction). text_eq t.reference r && is_on w t) d.transactions

abbrev answer_of : Text → ℕ → Tables → Option Transaction → Result TransferOut
answer_of r w d none = err (Exn.domain (DomainError.transaction_not_found r))
answer_of r w d (some t) = shown_of t d false (entries_of t w d)

found-reads :
    (r : Text) (w : ℕ) (c : Conn)
    → (get_transaction_for_user r w >>= λ t. to_out t w false) c
      ≡ (answer_of r w c.work (found_of r w c.work), c)
unfolding get_transaction_for_user ◌>>=◌
found-reads r w c = elim (Option-cases (found_of r w c.work)) [
  | inl e ↦ ground (arith, e)
  | inr (t, e) ↦ ground (arith, e, to_out-reads t w false c)
]

find_and_show-reads :
    (u : User) (r : Text) (w : ℕ) (c : Conn)
    → own_id u c.work ≡ ok w
    → find_and_show u r c ≡ (answer_of r w c.work (found_of r w c.work), c)
unfolding find_and_show
find_and_show-reads u r w c own =
    bind-ok (own_wallet_id u) _ c c w (own_wallet_id-reads u c ∙ ap (λ q. (q, c)) own)
    ∙ found-reads r w c

same_answer :
    (r : Text) (w : ℕ) (c : Conn) (o : Option Transaction)
    → answer_of r w (hide_foreign w c).work o ≡ answer_of r w c.work o
unfolding shown_of party_of
same_answer r w c none = refl
same_answer r w c (some t) = go (entries_of t w c.work)
  where
    go :
        (es : List LedgerEntry)
        → shown_of t (hide_foreign w c).work false es ≡ shown_of t c.work false es
    go [] = refl
    go (e ∷ []) = refl
    go (e ∷ f ∷ es) = refl

-- The answer to a reference is the same with all transactions of others taken out of the database: a reference of theirs and one that does not exist cannot be told apart.
pub find_and_show-hide_foreign :
    (u : User) (r : Text) (w : ℕ) (c : Conn)
    → own_id u c.work ≡ ok w
    → (find_and_show u r (hide_foreign w c)).0 ≡ (find_and_show u r c).0
unfolding own_id
find_and_show-hide_foreign u r w c own =
    ap (λ q. q.0) (find_and_show-reads u r w (hide_foreign w c) own)
    ∙ ap (answer_of r w (hide_foreign w c).work) (find-keep r w c.work.transactions)
    ∙ same_answer r w c (found_of r w c.work)
    ∙ sym (ap (λ q. q.0) (find_and_show-reads u r w c own))
