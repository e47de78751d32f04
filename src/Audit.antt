-- ===== src/Audit.antt =====
-- src/modules/audit/audit.repository.ts. The `detail` and `reason` columns are left out: no code
-- of the repository reads them.
use brokerplatform.Prelude.{ℕ, Option}
use brokerplatform.Db.Context.{ActorType}
use brokerplatform.Db.Schema.{AuditAction, AuditSubject, AuditEntry}
use brokerplatform.Db.Policies.Logs.{audit_log}
use brokerplatform.Db.Transaction.{Tx, ◌>>=◌, now, insert}

pub record AuditEvent : Type 0 where
  pub actor_type : ActorType
  pub actor_id : Option ℕ
  pub action : AuditAction
  pub subject_type : AuditSubject
  pub subject_id : ℕ
  pub client_organisation_id : Option ℕ

-- The row that an event becomes at a time.
abbrev pub entry_of : AuditEvent → ℕ → AuditEntry
entry_of e t = record {
  occurred_at = t;
  actor_type = e.actor_type;
  actor_id = e.actor_id;
  action = e.action;
  subject_type = e.subject_type;
  subject_id = e.subject_id;
  client_organisation_id = e.client_organisation_id;
}

unfoldable pub record_audit_event : AuditEvent → Tx (Unit {0})
record_audit_event e = do t ← now; insert audit_log (entry_of e t)
