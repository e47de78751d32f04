-- ===== src/Relationships/Repository.antt =====
-- relationships.repository.ts: how a broker and an organisation come to share data, and how they
-- stop.
use brokerplatform.Prelude.{
  ℕ, Bool, true, false, Option, none, some, String, ◌&&◌, ◌==◌, str_eq, not, first, is_empty,
}
use brokerplatform.Db.Context.{
  AuthorizationContext, as_system, ActorType, actor_type_of, actor_id_of,
}
use brokerplatform.Db.Schema.{
  Relationship, RelationshipType, RelationshipStatus, SharedDataScope, BrokerProfile, AuditAction,
  AuditSubject, MeteringEventType,
}
use brokerplatform.Db.Errors.{RelationshipError, of_relationship}
use brokerplatform.Db.Policies.{is_active, is_current, shares_profile}
use brokerplatform.Db.Policies.Lifecycle.{relationships}
use brokerplatform.Db.Policies.People.{broker_profiles}
use brokerplatform.Db.Transaction.{
  Tx, ◌>>=◌, ◌>>◌, pure, or_throw, throw_if, now, random_uuid, select, insert, update, Call, Result,
  ok, err, with_authorization_context,
}
use brokerplatform.Audit.{record_audit_event}
use brokerplatform.Metering.{record_metering_event}

-- `SHARED_DATA_SCOPE`
unfoldable pub shared_data_scope_of : RelationshipType → SharedDataScope
shared_data_scope_of RelationshipType.lender_panel = SharedDataScope.lender_full
shared_data_scope_of RelationshipType.aggregator_membership = SharedDataScope.aggregator_full
shared_data_scope_of RelationshipType.association_membership =
    SharedDataScope.association_membership_only

abbrev pub audit_relationship : ActorType → Option ℕ → AuditAction → ℕ → ℕ → Tx (Unit {0})
audit_relationship type actor action id organisation = record_audit_event (record {
  actor_type = type;
  actor_id = actor;
  action = action;
  subject_type = AuditSubject.relationship;
  subject_id = id;
  client_organisation_id = some organisation;
})

-- The row that `requestRelationship` inserts.
abbrev pub consented_row : ℕ → ℕ → ℕ → RelationshipType → String → ℕ → Relationship
consented_row id broker organisation type version t = record {
  id = id;
  broker_profile_id = broker;
  client_organisation_id = organisation;
  type = type;
  status = RelationshipStatus.active;
  shared_data_scope = shared_data_scope_of type;
  consented_at = some t;
  consent_version = some version;
  effective_from = some t;
  effective_to = none;
  end_reason = none;
  created_at = t;
}

-- `requestRelationship`
unfoldable pub request_relationship_work : ℕ → ℕ → RelationshipType → String → Tx ℕ
request_relationship_work broker organisation type version = do
  t ← now
  id ← random_uuid
  insert relationships (consented_row id broker organisation type version t)
  audit_relationship ActorType.broker (some broker) AuditAction.relationship_consented id
      organisation
  record_metering_event organisation broker MeteringEventType.broker_linked
  pure id

unfoldable pub request_relationship :
    AuthorizationContext → ℕ → ℕ → RelationshipType → String → Call ℕ
unfolding with_authorization_context request_relationship_work
request_relationship ctx broker organisation type version =
    with_authorization_context ctx (request_relationship_work broker organisation type version)

abbrev pub invited_row : ℕ → ℕ → ℕ → RelationshipType → ℕ → Relationship
invited_row id broker organisation type t = record {
  id = id;
  broker_profile_id = broker;
  client_organisation_id = organisation;
  type = type;
  status = RelationshipStatus.pending_acceptance;
  shared_data_scope = shared_data_scope_of type;
  consented_at = none;
  consent_version = none;
  effective_from = none;
  effective_to = none;
  end_reason = none;
  created_at = t;
}

-- The transaction of `inviteBroker` that runs as the caller.
unfoldable pub invite_broker_work : AuthorizationContext → ℕ → ℕ → RelationshipType → Tx ℕ
invite_broker_work ctx broker organisation type = do
  t ← now
  id ← random_uuid
  insert relationships (invited_row id broker organisation type t)
  audit_relationship (actor_type_of ctx) (actor_id_of ctx) AuditAction.relationship_invited id
      organisation
  pure id

abbrev pub profile_id : Option BrokerProfile → Option ℕ
profile_id none = none
profile_id (some b) = some b.id

-- The lookup of `inviteBroker`, as system.
unfoldable pub find_broker_work : String → Tx (Option ℕ)
find_broker_work email = do
  rows ← select broker_profiles (λ b. str_eq b.email email)
  pure (profile_id (first rows))

abbrev pub invite_found : AuthorizationContext → String → ℕ → RelationshipType → Option ℕ → Tx ℕ
invite_found ctx email organisation type none w =
    err (of_relationship (RelationshipError.broker_not_found email))
invite_found ctx email organisation type (some broker) w =
    invite_broker_work ctx broker organisation type w

abbrev pub invite_next :
    AuthorizationContext → String → ℕ → RelationshipType → Result (Option ℕ) → Tx ℕ
invite_next ctx email organisation type (ok found) = invite_found ctx email organisation type found
invite_next ctx email organisation type (err e) = λ w. err e

-- `inviteBroker`, where `to_lower` is `toLowerCase` of JavaScript's strings. An error before the
-- second transaction leaves the database as it is, as an error inside it does.
unfoldable pub invite_broker :
    (String → String) → AuthorizationContext → ℕ → String → RelationshipType → Call ℕ
unfolding with_authorization_context find_broker_work invite_broker_work
invite_broker to_lower ctx organisation email type ambient db =
    let (found, after) =
      with_authorization_context as_system (find_broker_work (to_lower email)) ambient db in
    with_authorization_context ctx (invite_next ctx email organisation type found) ambient after

abbrev pub is_pending_acceptance : RelationshipStatus → Bool
is_pending_acceptance RelationshipStatus.pending_acceptance = true
is_pending_acceptance other = false

-- `SELECT … WHERE id = $1 AND broker_profile_id = $2`, and the two checks that follow it.
unfoldable pub get_own_relationship : ℕ → ℕ → (RelationshipStatus → Bool) → String → Tx Relationship
get_own_relationship broker id allowed attempted = do
  rows ← select relationships (λ r. r.id == id && r.broker_profile_id == broker)
  r ← or_throw (first rows) (of_relationship (RelationshipError.not_found id))
  throw_if (not (allowed r.status))
      (of_relationship (RelationshipError.invalid_transition r.status attempted))
  pure r

abbrev pub to_consented : String → ℕ → Relationship → Relationship
to_consented version t r = record r {
  status = RelationshipStatus.active;
  consented_at = some t;
  consent_version = some version;
  effective_from = some t;
}

-- `acceptInvitation`
unfoldable pub accept_invitation_work : ℕ → ℕ → String → Tx (Unit {0})
accept_invitation_work broker id version = do
  r ← get_own_relationship broker id is_pending_acceptance "accept"
  t ← now
  update relationships (λ r. r.id == id) (to_consented version t)
  audit_relationship ActorType.broker (some broker) AuditAction.relationship_consented id
      r.client_organisation_id
  record_metering_event r.client_organisation_id broker MeteringEventType.broker_linked

unfoldable pub accept_invitation : AuthorizationContext → ℕ → ℕ → String → Call (Unit {0})
unfolding with_authorization_context accept_invitation_work
accept_invitation ctx broker id version =
    with_authorization_context ctx (accept_invitation_work broker id version)

abbrev pub to_refused : Relationship → Relationship
to_refused r = record r { status = RelationshipStatus.declined }

-- `declineInvitation`
unfoldable pub decline_invitation_work : ℕ → ℕ → Tx (Unit {0})
decline_invitation_work broker id = do
  r ← get_own_relationship broker id is_pending_acceptance "decline"
  update relationships (λ r. r.id == id) to_refused
  audit_relationship ActorType.broker (some broker) AuditAction.relationship_declined id
      r.client_organisation_id

unfoldable pub decline_invitation : AuthorizationContext → ℕ → ℕ → Call (Unit {0})
unfolding with_authorization_context decline_invitation_work
decline_invitation ctx broker id =
    with_authorization_context ctx (decline_invitation_work broker id)

-- A relationship that stops: with its last status, the time and the reason.
abbrev pub to_stopped : RelationshipStatus → ℕ → Option String → Relationship → Relationship
to_stopped s t reason r = record r { status = s; effective_to = some t; end_reason = reason }

-- `revokeRelationship`
unfoldable pub revoke_relationship_work : ℕ → ℕ → Option String → Tx (Unit {0})
revoke_relationship_work broker id reason = do
  r ← get_own_relationship broker id is_active "revoke"
  t ← now
  update relationships (λ r. r.id == id) (to_stopped RelationshipStatus.revoked t reason)
  audit_relationship ActorType.broker (some broker) AuditAction.relationship_revoked id
      r.client_organisation_id

unfoldable pub revoke_relationship : AuthorizationContext → ℕ → ℕ → Option String → Call (Unit {0})
unfolding with_authorization_context revoke_relationship_work
revoke_relationship ctx broker id reason =
    with_authorization_context ctx (revoke_relationship_work broker id reason)

-- `endRelationship`
unfoldable pub end_relationship_work : ℕ → ℕ → ℕ → String → Tx (Unit {0})
end_relationship_work user organisation id reason = do
  rows ← select relationships (λ r. r.id == id && r.client_organisation_id == organisation)
  r ← or_throw (first rows) (of_relationship (RelationshipError.not_found id))
  throw_if (not (is_active r.status))
      (of_relationship (RelationshipError.invalid_transition r.status "end"))
  t ← now
  update relationships (λ r. r.id == id) (to_stopped RelationshipStatus.ended t (some reason))
  audit_relationship ActorType.client_user (some user) AuditAction.relationship_ended id
      organisation

unfoldable pub end_relationship : AuthorizationContext → ℕ → ℕ → ℕ → String → Call (Unit {0})
unfolding with_authorization_context end_relationship_work
end_relationship ctx user organisation id reason =
    with_authorization_context ctx (end_relationship_work user organisation id reason)

-- `hasActiveRelationshipWithBroker`
unfoldable pub has_active_relationship_with_broker_work : ℕ → Tx Bool
has_active_relationship_with_broker_work broker = do
  rows ←
      select relationships
        (λ r. r.broker_profile_id == broker && is_current r && shares_profile r.type)
  pure (not (is_empty rows))

unfoldable pub has_active_relationship_with_broker : AuthorizationContext → ℕ → Call Bool
unfolding with_authorization_context has_active_relationship_with_broker_work
has_active_relationship_with_broker ctx broker =
    with_authorization_context ctx (has_active_relationship_with_broker_work broker)
