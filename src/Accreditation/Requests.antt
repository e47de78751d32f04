-- ===== src/Accreditation/Requests.antt =====
-- `requestAccreditation`, by which a broker asks a lender for accreditation
-- (accreditation.repository.ts).
use brokerplatform.Prelude.{
  ℕ, Bool, false, Option, none, some, List, [], ◌∷◌, String, ◌<>◌, ◌&&◌, ◌==◌, first, is_empty,
}
use brokerplatform.Db.Context.{AuthorizationContext, as_system, ActorType, actor_type_of}
use brokerplatform.Db.Schema.{
  Accreditation, AccreditationClassification, AccreditationStatus, DecisionStep, LicenceHolderType,
  RulesetKey, RulesetVersion, ClientUser, BrokerProfile, AuditAction, AuditSubject, RecipientType,
  NotificationCategory, Db,
}
use brokerplatform.Db.Errors.{AccreditationError, of_accreditation}
use brokerplatform.Db.Policies.{is_current}
use brokerplatform.Db.Policies.Lifecycle.{accreditations, relationships}
use brokerplatform.Db.Policies.People.{
  client_users, broker_profiles, business_affiliations, is_active_affiliation,
}
use brokerplatform.Db.Transaction.{
  Tx, ◌>>=◌, ◌>>◌, pure, throw_if, or_throw, now, random_uuid, set_actor_type, select, insert, Call,
  Result, ok, err, with_authorization_context,
}
use brokerplatform.Audit.{record_audit_event}
use brokerplatform.Notifications.Templates.{NotificationContent, accreditation_queue_entry_template}
use brokerplatform.Notifications.Repository.{NotificationRequest, Dispatch, create_notification}
use brokerplatform.Rulesets.Repository.{resolve}

-- The `input` of `requestAccreditation`.
pub record AccreditationInput : Type 0 where
  pub broker_profile_id : ℕ
  pub lender_client_organisation_id : ℕ
  pub broker_business_id : ℕ
  pub classification : AccreditationClassification
  pub brand : String
  pub role : String
  pub product_scope : String
  pub licence_holder_type : LicenceHolderType
  pub licence_holder_client_organisation_id : Option ℕ
  pub licence_holder_broker_business_id : Option ℕ
  pub licence_holder_name : Option String
  pub is_corporate_credit_representative : Option Bool

-- `input.classification === 'transfer' ? 'transfer' : 'new'`
unfoldable pub pathway_of : AccreditationClassification → String
pathway_of AccreditationClassification.transfer = "transfer"
pathway_of other = "new"

-- The key that the ruleset is resolved by.
unfoldable pub key_of : AccreditationInput → RulesetKey
unfolding pathway_of
key_of i = record {
  client_organisation_id = i.lender_client_organisation_id;
  brand = i.brand;
  role = i.role;
  product_scope = i.product_scope;
  pathway = pathway_of i.classification;
}

abbrev or_false : Option Bool → Bool
or_false none = false
or_false (some b) = b

abbrev version_id : Option RulesetVersion → Option ℕ
version_id none = none
version_id (some v) = some v.id

-- The row that is inserted. The columns that the statement leaves out have the defaults of
-- migration 0023.
unfoldable pub requested_row :
    AccreditationInput → Option RulesetVersion → ℕ → ℕ → ℕ → Accreditation
unfolding pathway_of
requested_row i resolved relationship id t = record {
  id = id;
  lender_client_organisation_id = i.lender_client_organisation_id;
  broker_profile_id = i.broker_profile_id;
  broker_business_id = i.broker_business_id;
  relationship_id = some relationship;
  classification = i.classification;
  brand = i.brand;
  role = i.role;
  product_scope = i.product_scope;
  pathway = pathway_of i.classification;
  ruleset_version_id = version_id resolved;
  licence_holder_type = i.licence_holder_type;
  licence_holder_client_organisation_id = i.licence_holder_client_organisation_id;
  licence_holder_broker_business_id = i.licence_holder_broker_business_id;
  licence_holder_name = i.licence_holder_name;
  is_corporate_credit_representative = or_false i.is_corporate_credit_representative;
  lender_issued_id = none;
  status = AccreditationStatus.requested;
  current_decision_step = DecisionStep.reviewer;
  interview_recommendation = none;
  party_changed_at = none;
  training_deadline_at = none;
  activated_at = none;
  requested_at = t;
  decided_at = none;
  updated_at = t;
}

-- `profileRows[0] ? … : 'A broker'`
abbrev broker_name : Option BrokerProfile → String
broker_name none = "A broker"
broker_name (some b) = b.first_name <> " " <> b.last_name

abbrev pub queue_request : NotificationContent → ℕ → ClientUser → NotificationRequest
queue_request content id u = record {
  recipient_type = RecipientType.client_user;
  recipient_id = u.id;
  category = NotificationCategory.accreditation_queue_entry;
  subject = content.subject;
  body = content.body;
  related_record_type = some "accreditation";
  related_record_id = some id;
}

-- The loop that notifies the client users of the lender.
unfoldable pub notify_each :
    AuthorizationContext → NotificationContent → ℕ → List ClientUser → Tx (List Dispatch)
notify_each ctx content id [] = pure []
notify_each ctx content id (u ∷ us) = do
  dispatch ← create_notification ctx (queue_request content id u)
  dispatches ← notify_each ctx content id us
  pure (dispatch ∷ dispatches)

-- The audit entry of the request, which names the broker as its actor whoever acts.
unfoldable pub audit_requested : AccreditationInput → ℕ → Tx (Unit {0})
unfolding record_audit_event
audit_requested i id = record_audit_event (record {
  actor_type = ActorType.broker;
  actor_id = some i.broker_profile_id;
  action = AuditAction.accreditation_requested;
  subject_type = AuditSubject.accreditation;
  subject_id = id;
  client_organisation_id = some i.lender_client_organisation_id;
})

-- The part of `requestAccreditation` that runs in the transaction of `ctx`.
unfoldable pub request_accreditation_work :
    AuthorizationContext → AccreditationInput → Option RulesetVersion → Tx (ℕ × List Dispatch)
request_accreditation_work ctx i resolved = do
  affiliations ← select business_affiliations (λ a.
      a.broker_profile_id == i.broker_profile_id
      && a.broker_business_id == i.broker_business_id
      && is_active_affiliation a.status)
  throw_if (is_empty affiliations)
      (of_accreditation (AccreditationError.no_business_affiliation i.broker_business_id))
  current ← select relationships (λ r.
      r.broker_profile_id == i.broker_profile_id
      && r.client_organisation_id == i.lender_client_organisation_id
      && is_current r)
  relationship ←
      or_throw (first current) (
        of_accreditation
          (AccreditationError.no_active_relationship i.lender_client_organisation_id))
  id ← random_uuid
  t ← now
  insert accreditations (requested_row i resolved relationship.id id t)
  audit_requested i id
  profiles ← select broker_profiles (λ b. b.id == i.broker_profile_id)
  let content = accreditation_queue_entry_template (broker_name (first profiles)) i.classification
  set_actor_type ActorType.system
  users ←
      select client_users
        (λ u. u.client_organisation_id == i.lender_client_organisation_id && u.is_active)
  set_actor_type (actor_type_of ctx)
  dispatches ← notify_each ctx content id users
  pure (id, dispatches)

-- What follows the transaction in which the ruleset was resolved.
abbrev pub with_resolved :
    {A : Type 0}
    → Result (Option RulesetVersion) × Db
    → (Option RulesetVersion → Db → Result A × Db)
    → Result A × Db
with_resolved (ok v, db) k = k v db
with_resolved (err e, db) k = (err e, db)

-- `requestAccreditation`: the ruleset is resolved as system in a transaction of its own.
unfoldable pub request_accreditation :
    AuthorizationContext → AccreditationInput → Call (ℕ × List Dispatch)
unfolding resolve with_authorization_context request_accreditation_work key_of
request_accreditation ctx i ambient db =
    with_resolved (resolve as_system (key_of i) ambient db) (λ resolved.
      with_authorization_context ctx (request_accreditation_work ctx i resolved) ambient)
