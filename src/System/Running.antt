-- ===== src/System/Running.antt =====
-- The reconciliation report of app/routers/admin.py on any database that the service can reach.
use pstu_hack_final.System.Keeping.{Respects-Works}
use pstu_hack_final.Common.{ℕ, ◌≡◌, refl, sym, subst, inl, true, List, [], ◌∷◌, All}
use pstu_hack_final.Common.Int.{pos, eqb_ℤ_iff}
use pstu_hack_final.System.Rules.{run-committed, Works}
use pstu_hack_final.Ledger.Sums.{sum_amounts}
use pstu_hack_final.Ledger.Reconcile.{FourInvariants, ledger_sum, reconcile_iff, reconcile}
use pstu_hack_final.Transfer.Consistency.{Respects}
use pstu_hack_final.Ledger.Consistency.{Consistent}
use pstu_hack_final.Api.Accounts.{ready}
use pstu_hack_final.System.{Step, migrated, run}
use pstu_hack_final.Api.{Libs}
use pstu_hack_final.Db.Tables.{Conn}

All-Respects :
    (libs : Libs) (steps : List Step)
    → All (λ (s : Step). Respects s.env) steps
    → All (λ (s : Step). Works Consistent libs s.env) steps
All-Respects libs [] a = tt
All-Respects libs (s ∷ ss) a = (Respects-Works libs s.env a.0, All-Respects libs ss a.1)

migrated-Consistent : (now : ℕ) → Consistent (migrated now)
unfolding migrated
migrated-Consistent now = record {
  conservation = refl;
  balanced = λ t. refl;
  no_drift = (refl, tt);
  solvent = (inl refl, tt);
  known = tt;
}

-- From the migrated database on, after any sequence of requests to the endpoints, each with any body, caller, clock and outcome, the reconciliation reports that all four invariants hold and the readiness check that the ledger balances, if what else commits during the waits keeps the ledger consistent.
pub run-reconcile :
    (libs : Libs) (steps : List Step) (now : ℕ) (c : Conn)
    → c.committed ≡ migrated now
    → All (λ (s : Step). Respects s.env) steps
    → ((reconcile (run libs steps c).committed).all_hold ≡ true)
      × ((ready (run libs steps c).committed).balanced ≡ true)
unfolding ready ledger_sum
run-reconcile libs steps now c e a =
    let v =
      run-committed Consistent libs steps c (All-Respects libs steps a)
        (subst Consistent (sym e) (migrated-Consistent now)) in
    let invariants : FourInvariants (run libs steps c).committed = record {
      conservation = v.conservation;
      balanced = v.balanced;
      no_drift = v.no_drift;
      solvent = v.solvent;
    } in
    (
      (reconcile_iff (run libs steps c).committed).4.1 invariants,
      (eqb_ℤ_iff (sum_amounts (run libs steps c).committed.ledger_entries) (pos 0)).1
          v.conservation,
    )
