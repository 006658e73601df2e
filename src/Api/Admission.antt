-- ===== src/Api/Admission.antt =====
-- How a request to a protected endpoint of app/routers begins: its caller is let through or refused.
use pstu_hack_final.Common.{ℕ, ◌≡◌, refl, ap, ◌∙◌, ◌⊎◌, inl, inr, Bool, true, Option, arith}
use pstu_hack_final.Db.Actions.{Action, ok, err, fresh}
use pstu_hack_final.Api.Access.{principal_of-cases, Entitled, is_refusal}
use pstu_hack_final.Env.{Env}
use pstu_hack_final.Db.Tables.{Conn}
use pstu_hack_final.Api.{
  admit, domain_error_handler, run_endpoint, endpoint, principal_of, Principal, Http, Libs,
}
use pstu_hack_final.Errors.{status_code, DomainError, Exn}

refusal-status :
    (x : Exn)
    → is_refusal x ≡ true
    → (e : DomainError) × (x ≡ Exn.domain e) × ((status_code e ≡ 401) ⊎ (status_code e ≡ 403))
unfolding status_code
refusal-status (Exn.domain (DomainError.invalid_token m)) h =
    (DomainError.invalid_token m, refl, inl refl)
refusal-status (Exn.domain DomainError.account_inactive) h =
    (DomainError.account_inactive, refl, inr refl)
refusal-status x h = absurd (ground arith)

module _ {P F A : Type 0} (status : ℕ) (who : Action P) (limited : Bool) (body : Option F)
    (work : P → F → Action A) (c : Conn) where
  pub endpoint-ok :
      (p : P) (c' : Conn)
      → who (fresh c) ≡ (ok p, c')
      → endpoint status who limited body work c ≡ run_endpoint status limited body work p c'
  unfolding endpoint
  endpoint-ok p c' e = ap (admit status limited body work) e

  pub endpoint-err :
      (d : DomainError) (c' : Conn)
      → who (fresh c) ≡ (err (Exn.domain d), c')
      → endpoint status who limited body work c ≡ (domain_error_handler d, fresh c')
  unfolding endpoint
  endpoint-err d c' e = ap (admit status limited body work) e

-- A request to a protected endpoint comes from an entitled caller, or is answered with 401 or 403 and leaves the database as it was.
pub endpoint-Entitled :
    {F A : Type 0} (libs : Libs) (env : Env) (http : Http) (status : ℕ) (limited : Bool)
    (body : Option F) (work : Principal → F → Action A) (c : Conn)
    → let sent = endpoint status (principal_of libs env http) limited body work c in
      ((p : Principal) × Entitled libs env http c.committed p
        × (sent ≡ run_endpoint status limited body work p (fresh c)))
      ⊎ ((e : DomainError) × ((status_code e ≡ 401) ⊎ (status_code e ≡ 403))
          × (sent ≡ (domain_error_handler e, fresh c)))
endpoint-Entitled libs env http status limited body work c =
    elim (principal_of-cases libs env http (fresh c)) [
      | inl (p, e, entitled) ↦
          inl (p, entitled, endpoint-ok status _ limited body work c p (fresh c) e)
      | inr (x, e, r) ↦
          let (d, same, code) = refusal-status x r in
          inr (
            d,
            code,
            endpoint-err status _ limited body work c d (fresh c)
                (e ∙ ap (λ y. (err y, fresh c)) same),
          )
    ]
