-- ===== src/Requests/Rows.antt =====
-- The rows of money requests in app/services/request_service.py, under an insert or an update.
use pstu_hack_final.Common.{
  ℕ, ◌≡◌, refl, ◌∙◌, ◌≢◌, inl, inr, true, false, none, List, [], ◌∷◌, arith, ◌==◌, any, All,
  Bool-cases,
}
use pstu_hack_final.Db.Gives.{Keeps-execute_admitted}
use pstu_hack_final.Transfer.Requests.{OfRequests}
use pstu_hack_final.Db.Rules.{Keeps}
use pstu_hack_final.Db.Tables.{Tables}
use pstu_hack_final.Db.Statements.{insert_request, change_request}
use pstu_hack_final.Db.Checks.{request_violation}
use pstu_hack_final.Models.{MoneyRequest}

-- The table has the request `r` under its id, and no other row.
pub record Holds (r : MoneyRequest) (rs : List MoneyRequest) : Type 0 where
  pub there : any (λ x. x.id == r.id) rs ≡ true
  pub only : All (λ (x : MoneyRequest). x.id ≡ r.id → x ≡ r) rs

Holds-insert :
    (r x : MoneyRequest) (d : Tables)
    → request_violation x d ≡ none
    → Holds r d.money_requests
    → Holds r (x ∷ d.money_requests)
unfolding request_violation
Holds-insert r x d h v =
    let free : any (λ y. y.id == x.id) d.money_requests ≡ false = ground arith in
    record {
      there = ground (arith, v.there);
      only = (λ e. absurd (ground (arith, free, v.there, e)), v.only);
    }

pub insert_request-Holds : (r x : MoneyRequest) → Keeps (OfRequests (Holds r)) (insert_request x)
unfolding insert_request
insert_request-Holds r x = Keeps-execute_admitted _ _ (λ d e v. Holds-insert r x d e v)

All-Holds-change :
    (r : MoneyRequest) (i : ℕ) (f : MoneyRequest → MoneyRequest) (rs : List MoneyRequest)
    → i ≢ r.id
    → ((x : MoneyRequest) → (f x).id ≡ x.id)
    → All (λ (x : MoneyRequest). x.id ≡ r.id → x ≡ r) rs
    → All (λ (x : MoneyRequest). x.id ≡ r.id → x ≡ r) (change_request i f rs)
All-Holds-change r i f [] ne same a = tt
All-Holds-change r i f (x ∷ xs) ne same a = (
  elim (Bool-cases (x.id == i)) [
    | inl e ↦ rw e (λ k. absurd (ground (arith, same x, k)))
    | inr e ↦ rw e a.0
  ],
  All-Holds-change r i f xs ne same a.1,
)

any-change_request :
    (k i : ℕ) (f : MoneyRequest → MoneyRequest) (rs : List MoneyRequest)
    → ((x : MoneyRequest) → (f x).id ≡ x.id)
    → any (λ x. x.id == k) (change_request i f rs) ≡ any (λ x. x.id == k) rs
any-change_request k i f [] same = refl
any-change_request k i f (x ∷ xs) same = ground (arith, same x, any-change_request k i f xs same)

pub Holds-change :
    (r : MoneyRequest) (i : ℕ) (f : MoneyRequest → MoneyRequest) (rs : List MoneyRequest)
    → i ≢ r.id
    → ((x : MoneyRequest) → (f x).id ≡ x.id)
    → Holds r rs
    → Holds r (change_request i f rs)
Holds-change r i f rs ne same v = record {
  there = any-change_request r.id i f rs same ∙ v.there;
  only = All-Holds-change r i f rs ne same v.only;
}
