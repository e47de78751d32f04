-- ===== src/Accreditation/Decisions.antt =====
-- The lender's actions on an accreditation (accreditation.repository.ts): each reads the row,
-- checks its status, changes it, and writes the decision, the audit entry and the message.
use brokerplatform.Prelude.{ℕ, Option, none, some, List, String, ◌+◌, ◌*◌, ◌==◌, not, first}
use brokerplatform.Json.{Json, member}
use brokerplatform.Db.Context.{AuthorizationContext, actor_type_of, actor_id_of}
use brokerplatform.Db.Schema.{
  Accreditation, AccreditationStatus, DecisionStep, DecisionType, RulesetVersion, AuditAction,
  AuditSubject, RecipientType, NotificationCategory,
}
use brokerplatform.Db.Errors.{AccreditationError, of_accreditation}
use brokerplatform.Db.Policies.Lifecycle.{accreditations, accreditation_decisions, ruleset_versions}
use brokerplatform.Db.Transaction.{
  Tx, ◌>>=◌, ◌>>◌, pure, throw_if, now, select, insert, update, Call, with_authorization_context,
}
use brokerplatform.Audit.{record_audit_event}
use brokerplatform.Notifications.Templates.{
  NotificationContent, accreditation_information_required_template, accreditation_approved_template,
  accreditation_declined_template,
}
use brokerplatform.Notifications.Repository.{NotificationRequest, Dispatch, create_notification}
use brokerplatform.Accreditation.Guards.{
  get_accreditation_or_throw, assert_not_terminal, assert_client_user_or_system, assert_can_decide,
  awaits_decision,
}

-- `insertDecision`
unfoldable pub insert_decision :
    AuthorizationContext → ℕ → DecisionType → Option String → Option (List String) → Tx (Unit {0})
insert_decision ctx id type rationale reasons = do
  t ← now
  insert accreditation_decisions (record {
    accreditation_id = id;
    actor_type = actor_type_of ctx;
    actor_id = actor_id_of ctx;
    decision_type = type;
    rationale = rationale;
    itemised_reasons = reasons;
    created_at = t;
  })

-- The audit entry of an action by `ctx` on an accreditation.
unfoldable pub audit : AuthorizationContext → AuditAction → ℕ → Option ℕ → Tx (Unit {0})
unfolding record_audit_event
audit ctx action id lender = record_audit_event (record {
  actor_type = actor_type_of ctx;
  actor_id = actor_id_of ctx;
  action = action;
  subject_type = AuditSubject.accreditation;
  subject_id = id;
  client_organisation_id = lender;
})

-- The message to the broker of an accreditation.
abbrev pub to_broker :
    Accreditation → NotificationCategory → NotificationContent → NotificationRequest
to_broker a category content = record {
  recipient_type = RecipientType.broker;
  recipient_id = a.broker_profile_id;
  category = category;
  subject = content.subject;
  body = content.body;
  related_record_type = some "accreditation";
  related_record_id = some a.id;
}

-- `UPDATE accreditations SET … , updated_at = now() WHERE id = $1`
unfoldable pub set_accreditation : ℕ → (ℕ → Accreditation → Accreditation) → Tx (List Accreditation)
set_accreditation id f = do
  t ← now
  update accreditations (λ a. a.id == id) (λ a. record (f t a) { updated_at = t })

-- `requestMoreInformation`
unfoldable pub request_more_information_work : AuthorizationContext → ℕ → List String → Tx Dispatch
request_more_information_work ctx id reasons = do
  assert_client_user_or_system ctx
  a ← get_accreditation_or_throw id
  assert_not_terminal a "request information on"
  set_accreditation id (λ t a. record a { status = AccreditationStatus.information_required })
  insert_decision ctx id DecisionType.information_requested none (some reasons)
  audit ctx AuditAction.accreditation_information_requested id
      (some a.lender_client_organisation_id)
  create_notification ctx (
      to_broker a NotificationCategory.accreditation_information_required
        (accreditation_information_required_template reasons))

unfoldable pub request_more_information : AuthorizationContext → ℕ → List String → Call Dispatch
unfolding with_authorization_context request_more_information_work
request_more_information ctx id reasons =
    with_authorization_context ctx (request_more_information_work ctx id reasons)

-- `escalate`
unfoldable pub escalate_work : AuthorizationContext → ℕ → Option String → Tx (Unit {0})
escalate_work ctx id rationale = do
  assert_client_user_or_system ctx
  a ← get_accreditation_or_throw id
  assert_not_terminal a "escalate"
  set_accreditation id λ t a. record a {
    status = AccreditationStatus.exception_escalated;
    current_decision_step = DecisionStep.senior_approver;
  }
  insert_decision ctx id DecisionType.escalated rationale none
  audit ctx AuditAction.accreditation_escalated id (some a.lender_client_organisation_id)

unfoldable pub escalate : AuthorizationContext → ℕ → Option String → Call (Unit {0})
unfolding with_authorization_context escalate_work
escalate ctx id rationale = with_authorization_context ctx (escalate_work ctx id rationale)

abbrev pub default_training_deadline_days : ℕ
default_training_deadline_days = 60

-- `typeof training.deadlineDays === 'number'`, else the default.
abbrev deadline_of : Option Json → ℕ
deadline_of (some (Json.number n)) = n
deadline_of other = default_training_deadline_days

abbrev training_deadline : Option Json → ℕ
training_deadline (some (Json.object ms)) = deadline_of (member "deadlineDays" ms)
training_deadline other = default_training_deadline_days

-- `rulesetRows[0]?.definition?.training` and what it says of the deadline.
unfoldable pub deadline_days_of : Option RulesetVersion → ℕ
unfolding member
deadline_days_of none = default_training_deadline_days
deadline_days_of (some v) = elim v.definition [
  | Json.object ms ↦ training_deadline (member "training" ms)
  | other ↦ default_training_deadline_days
]

-- The deadline in days, read from the ruleset that the accreditation was requested under.
unfoldable pub read_deadline_days : Option ℕ → Tx ℕ
unfolding deadline_days_of
read_deadline_days none = pure default_training_deadline_days
read_deadline_days (some version) = do
  rows ← select ruleset_versions (λ v. v.id == version)
  pure (deadline_days_of (first rows))

abbrev pub seconds_per_day : ℕ
seconds_per_day = 86400

-- `approve`
unfoldable pub approve_work : AuthorizationContext → ℕ → Option String → Tx Dispatch
approve_work ctx id rationale = do
  assert_client_user_or_system ctx
  a ← get_accreditation_or_throw id
  throw_if (not (awaits_decision a.status))
      (of_accreditation (AccreditationError.invalid_transition a.status "approve"))
  assert_can_decide ctx a
  days ← read_deadline_days a.ruleset_version_id
  set_accreditation id λ t a. record a {
    status = AccreditationStatus.pending;
    decided_at = some t;
    training_deadline_at = some (t + days * seconds_per_day);
  }
  insert_decision ctx id DecisionType.approved rationale none
  audit ctx AuditAction.accreditation_approved id (some a.lender_client_organisation_id)
  create_notification ctx
      (to_broker a NotificationCategory.accreditation_approved accreditation_approved_template)

unfoldable pub approve : AuthorizationContext → ℕ → Option String → Call Dispatch
unfolding with_authorization_context approve_work
approve ctx id rationale = with_authorization_context ctx (approve_work ctx id rationale)

-- `decline`
unfoldable pub decline_work : AuthorizationContext → ℕ → String → Tx Dispatch
decline_work ctx id rationale = do
  assert_client_user_or_system ctx
  a ← get_accreditation_or_throw id
  throw_if (not (awaits_decision a.status))
      (of_accreditation (AccreditationError.invalid_transition a.status "decline"))
  assert_can_decide ctx a
  set_accreditation id
      λ t a. record a { status = AccreditationStatus.declined; decided_at = some t }
  insert_decision ctx id DecisionType.declined (some rationale) none
  audit ctx AuditAction.accreditation_declined id (some a.lender_client_organisation_id)
  create_notification ctx (
      to_broker a NotificationCategory.accreditation_declined
        (accreditation_declined_template rationale))

unfoldable pub decline : AuthorizationContext → ℕ → String → Call Dispatch
unfolding with_authorization_context decline_work
decline ctx id rationale = with_authorization_context ctx (decline_work ctx id rationale)

abbrev or_else : Option String → String → String
or_else none d = d
or_else (some s) d = s

-- `recordInterviewOutcome`
unfoldable pub record_interview_outcome_work :
    AuthorizationContext → ℕ → String → Option String → Tx (Unit {0})
record_interview_outcome_work ctx id recommendation notes = do
  assert_client_user_or_system ctx
  a ← get_accreditation_or_throw id
  assert_not_terminal a "record an interview outcome for"
  set_accreditation id (λ t a. record a { interview_recommendation = some recommendation })
  insert_decision ctx id DecisionType.interview_recorded (some (or_else notes recommendation)) none
  audit ctx AuditAction.accreditation_interview_recorded id (some a.lender_client_organisation_id)

unfoldable pub record_interview_outcome :
    AuthorizationContext → ℕ → String → Option String → Call (Unit {0})
unfolding with_authorization_context record_interview_outcome_work
record_interview_outcome ctx id recommendation notes =
    with_authorization_context ctx (record_interview_outcome_work ctx id recommendation notes)
