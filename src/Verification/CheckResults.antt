-- ===== src/Verification/CheckResults.antt =====
-- `recordCheckResult` (check-result.repository.ts).
use brokerplatform.Prelude.{
  ℕ, Bool, Option, none, some, List, [], ◌∷◌, String, ◌&&◌, ◌==◌, str_eq, not, is_some,
}
use brokerplatform.Db.Context.{as_system, ActorType}
use brokerplatform.Db.Schema.{SubjectType, CheckResult, JobStatus, AuditAction, AuditSubject}
use brokerplatform.Db.Policies.Logs.{check_results}
use brokerplatform.Db.Transaction.{
  Tx, ◌>>=◌, ◌>>◌, pure, now, random_uuid, select, insert, update, Call, with_authorization_context,
}
use brokerplatform.Audit.{record_audit_event}
use brokerplatform.Rulesets.Evaluator.{same_subject_type}

-- The `input` of `recordCheckResult`.
pub record CheckInput : Type 0 where
  pub subject_type : SubjectType
  pub subject_id : ℕ
  pub check_type : String
  pub provider : String
  pub outcome : String
  pub evidence_id : Option ℕ
  pub job_status : Option JobStatus

-- A result of the same check on the same subject, current or past.
abbrev pub is_same_check : CheckInput → CheckResult → Bool
is_same_check i c =
    same_subject_type c.subject_type i.subject_type
    && c.subject_id == i.subject_id
    && str_eq c.check_type i.check_type

abbrev pub is_current_check : CheckInput → CheckResult → Bool
is_current_check i c = is_same_check i c && not (is_some c.valid_to)

abbrev or_completed : Option JobStatus → JobStatus
or_completed none = JobStatus.completed
or_completed (some s) = s

abbrev pub recorded_row : CheckInput → ℕ → ℕ → CheckResult
recorded_row i id t = record {
  id = id;
  subject_type = i.subject_type;
  subject_id = i.subject_id;
  check_type = i.check_type;
  provider = i.provider;
  valid_from = t;
  valid_to = none;
  outcome = i.outcome;
  evidence_id = i.evidence_id;
  superseded_by = none;
  job_status = or_completed i.job_status;
}

abbrev pub to_superseded : ℕ → ℕ → CheckResult → CheckResult
to_superseded id t c = record c { valid_to = some t; superseded_by = some id }

-- `if (current.length > 0)`: the first row that was found is closed.
unfoldable pub close_first : List CheckResult → ℕ → ℕ → Tx (Unit {0})
close_first [] id t = pure tt
close_first (c ∷ rest) id t = do
  update check_results (λ r. r.id == c.id) (to_superseded id t)
  pure tt

abbrev pub audit_subject_of : SubjectType → AuditSubject
audit_subject_of SubjectType.broker_profile = AuditSubject.broker_profile
audit_subject_of SubjectType.broker_business = AuditSubject.broker_business

unfoldable pub record_check_result_work : CheckInput → Tx ℕ
unfolding close_first record_audit_event
record_check_result_work i = do
  current ← select check_results (is_current_check i)
  t ← now
  id ← random_uuid
  insert check_results (recorded_row i id t)
  close_first current id t
  record_audit_event (record {
    actor_type = ActorType.system;
    actor_id = none;
    action = AuditAction.check_result_recorded;
    subject_type = audit_subject_of i.subject_type;
    subject_id = i.subject_id;
    client_organisation_id = none;
  })
  pure id

-- `recordCheckResult`
unfoldable pub record_check_result : CheckInput → Call ℕ
unfolding with_authorization_context record_check_result_work
record_check_result i = with_authorization_context as_system (record_check_result_work i)
