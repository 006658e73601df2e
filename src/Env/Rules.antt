-- ===== src/Env/Rules.antt =====
-- `auth_service.audit` adds a row to the audit log, and changes nothing else.
use pstu_hack_final.Common.{ℕ, Option, ◌∷◌}
use pstu_hack_final.Models.{AuditLog, Meta, Entity, AuditAction}
use pstu_hack_final.Db.Tables.{Tables}
use pstu_hack_final.Env.{Caller, Env, audit}
use pstu_hack_final.Db.Rules.{Keeps, Keeps-insert_audit}

pub Keeps-audit :
    {Q : Tables → Type 0} (env : Env) (action : AuditAction) (actor : Option ℕ)
    (entity : Option Entity) (caller : Caller) (meta : Meta)
    → ((d : Tables) (b : AuditLog) → Q d → Q (record d { audit_log = b ∷ d.audit_log }))
    → Keeps Q (audit env action actor entity caller meta)
unfolding audit
Keeps-audit env action actor entity caller meta k = Keeps-insert_audit _ k
