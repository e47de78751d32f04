-- ===== src/Accreditation/Training.antt =====
-- training.repository.ts: the training that follows an approval, and the activation.
use brokerplatform.Prelude.{
  ℕ, Bool, true, false, Option, none, some, List, String, ◌&&◌, ◌==◌, not, first, map, ltb,
}
use brokerplatform.Db.Context.{AuthorizationContext, ActorType, actor_type_of, actor_id_of}
use brokerplatform.Db.Schema.{
  Accreditation, AccreditationStatus, TrainingKind, TrainingConfirmation, ClientOrganisation,
  AuditAction, NotificationCategory,
}
use brokerplatform.Db.Errors.{AccreditationError, of_accreditation}
use brokerplatform.Db.Policies.Lifecycle.{accreditations, training_confirmations}
use brokerplatform.Db.Policies.People.{broker_profiles, client_organisations}
use brokerplatform.Db.Ordering.{order_ascending}
use brokerplatform.Db.Transaction.{
  Tx, ◌>>=◌, ◌>>◌, pure, throw_if, now, random_uuid, set_actor_type, select, update,
  insert_or_ignore, Call, with_authorization_context,
}
use brokerplatform.Notifications.Templates.{accreditation_activated_template}
use brokerplatform.Notifications.Repository.{Dispatch, create_notification}
use brokerplatform.Accreditation.Guards.{get_accreditation_or_throw, assert_client_user_or_system}
use brokerplatform.Accreditation.Decisions.{audit, set_accreditation, to_broker}
use brokerplatform.Accreditation.Parties.{audit_each}

-- `confirmTraining`
unfoldable pub confirm_training_work :
    AuthorizationContext → ℕ → TrainingKind → Option String → Tx (Unit {0})
confirm_training_work ctx id kind notes = do
  assert_client_user_or_system ctx
  a ← get_accreditation_or_throw id
  t ← now
  insert_or_ignore training_confirmations (record {
    accreditation_id = id;
    kind = kind;
    confirmed_at = t;
    confirmed_by_client_user_id = actor_id_of ctx;
    notes = notes;
  })
  audit ctx AuditAction.accreditation_training_confirmed id (some a.lender_client_organisation_id)

unfoldable pub confirm_training :
    AuthorizationContext → ℕ → TrainingKind → Option String → Call (Unit {0})
unfolding with_authorization_context confirm_training_work
confirm_training ctx id kind notes =
    with_authorization_context ctx (confirm_training_work ctx id kind notes)

abbrev pub is_pending : AccreditationStatus → Bool
is_pending AccreditationStatus.pending = true
is_pending other = false

-- `COALESCE(platform_broker_id, gen_random_uuid())`
abbrev pub coalesce : Option ℕ → ℕ → Option ℕ
coalesce none n = some n
coalesce (some m) n = some m

-- The platform id of the broker, given once. `gen_random_uuid()` is drawn once for the row.
unfoldable pub issue_platform_broker_id : AuthorizationContext → ℕ → Tx (Unit {0})
issue_platform_broker_id ctx broker = do
  set_actor_type ActorType.system
  fresh ← random_uuid
  update broker_profiles (λ b. b.id == broker)
      (λ b. record b { platform_broker_id = coalesce b.platform_broker_id fresh })
  set_actor_type (actor_type_of ctx)

-- `orgRows[0]?.name ?? 'your lender'`
abbrev name_of : Option ClientOrganisation → String
name_of none = "your lender"
name_of (some o) = o.name

-- `activateAccreditation`
unfoldable pub activate_accreditation_work : AuthorizationContext → ℕ → Tx Dispatch
activate_accreditation_work ctx id = do
  assert_client_user_or_system ctx
  a ← get_accreditation_or_throw id
  throw_if (not (is_pending a.status))
      (of_accreditation (AccreditationError.invalid_transition a.status "activate"))
  set_accreditation id
      λ t a. record a { status = AccreditationStatus.active; activated_at = some t }
  audit ctx AuditAction.accreditation_activated id (some a.lender_client_organisation_id)
  issue_platform_broker_id ctx a.broker_profile_id
  organisations ← select client_organisations (λ o. o.id == a.lender_client_organisation_id)
  create_notification ctx (
      to_broker a NotificationCategory.accreditation_activated
        (accreditation_activated_template (name_of (first organisations)) a.lender_issued_id))

unfoldable pub activate_accreditation : AuthorizationContext → ℕ → Call Dispatch
unfolding with_authorization_context activate_accreditation_work
activate_accreditation ctx id = with_authorization_context ctx (activate_accreditation_work ctx id)

-- `listConfirmations`
unfoldable pub list_confirmations : AuthorizationContext → ℕ → Call (List TrainingConfirmation)
unfolding order_ascending
list_confirmations ctx id = with_authorization_context ctx do
  get_accreditation_or_throw id
  rows ← select training_confirmations (λ c. c.accreditation_id == id)
  pure (order_ascending (λ c. c.confirmed_at) rows)

-- `training_deadline_at IS NOT NULL AND training_deadline_at < now()`
abbrev pub is_before : Option ℕ → ℕ → Bool
is_before none t = false
is_before (some d) t = ltb d t

abbrev pub is_overdue : ℕ → ℕ → Accreditation → Bool
is_overdue lender t a =
    a.lender_client_organisation_id == lender
    && is_pending a.status
    && is_before a.training_deadline_at t

abbrev pub to_lapsed : ℕ → Accreditation → Accreditation
to_lapsed t a = record a { status = AccreditationStatus.lapsed; updated_at = t }

-- `checkTrainingDeadlines`
unfoldable pub check_training_deadlines_work : AuthorizationContext → ℕ → Tx (List ℕ)
check_training_deadlines_work ctx lender = do
  assert_client_user_or_system ctx
  t ← now
  rows ← update accreditations (is_overdue lender t) (to_lapsed t)
  audit_each ctx AuditAction.accreditation_lapsed (some lender) rows
  pure (map (λ a. a.id) rows)

unfoldable pub check_training_deadlines : AuthorizationContext → ℕ → Call (List ℕ)
unfolding with_authorization_context check_training_deadlines_work
check_training_deadlines ctx lender =
    with_authorization_context ctx (check_training_deadlines_work ctx lender)
