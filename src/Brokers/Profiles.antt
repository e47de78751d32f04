-- ===== src/Brokers/Profiles.antt =====
-- brokers.repository.ts: reading, changing and submitting a profile, and its association
-- memberships.
use brokerplatform.Db.Transaction.{
  ◌>>=◌, ◌>>◌, Tx, Call, now, select, with_authorization_context, update, throw_if, pure, or_throw,
  ok, refuse_null,
}
use brokerplatform.Prelude.{
  ℕ, Bool, true, false, some, [], ◌∷◌, List, String, Option, filter_by, if◌then◌else◌, ◌==◌, not,
  is_empty, first, length, any, none,
}
use brokerplatform.Db.Context.{AuthorizationContext}
use brokerplatform.Db.Schema.{
  BrokerProfile, Address, ProfileStatus, AuditAction, AuditSubject, RecipientType,
  NotificationCategory,
}
use brokerplatform.Notifications.Repository.{create_notification, Dispatch}
use brokerplatform.Db.Errors.{OutstandingItem, of_broker, BrokerError}
use brokerplatform.Brokers.Completeness.{compute_outstanding_items, assert_editable_profile}
use brokerplatform.Notifications.Templates.{profile_submitted_template}
use brokerplatform.Db.Policies.People.{broker_profiles, association_memberships}
use brokerplatform.Businesses.Repository.{audit_broker}

-- `getBrokerProfile`
unfoldable pub get_broker_profile : AuthorizationContext → ℕ → Call (Option BrokerProfile)
get_broker_profile ctx broker =
    with_authorization_context ctx
      do rows ← select broker_profiles (λ b. b.id == broker); pure (first rows)

-- A member of the patch of `updateBrokerProfile`, of the type that its DTO admits; a null passes it.
-- A key that `PROFILE_UPDATABLE_FIELDS` lacks is `unknown`; `in` also finds the members of
-- `Object.prototype`, which no DTO has. The years are a natural number.
pub data ProfileChange : Type 0 where
  first_name last_name other_names date_of_birth gender phone_number : Option String → ProfileChange
  mobile_number right_to_work_status licence_type_held : Option String → ProfileChange
  credit_licence_number credit_representative_number : Option String → ProfileChange
  licensing_entity_name licensing_entity_number : Option String → ProfileChange
  address postal_address : Option Address → ProfileChange
  experience_years : Option ℕ → ProfileChange
  unknown : String → ProfileChange

-- A null for a column that is NOT NULL.
abbrev pub is_null_profile : ProfileChange → Bool
is_null_profile (ProfileChange.first_name none) = true
is_null_profile (ProfileChange.last_name none) = true
is_null_profile other = false

-- `key in PROFILE_UPDATABLE_FIELDS`
abbrev pub is_updatable_profile : ProfileChange → Bool
is_updatable_profile (ProfileChange.unknown key) = false
is_updatable_profile other = true

-- One assignment of the SET clause. A null name does not get here.
unfoldable pub assign_profile : ProfileChange → BrokerProfile → BrokerProfile
assign_profile (ProfileChange.first_name none) b = b
assign_profile (ProfileChange.first_name (some s)) b = record b { first_name = s }
assign_profile (ProfileChange.last_name none) b = b
assign_profile (ProfileChange.last_name (some s)) b = record b { last_name = s }
assign_profile (ProfileChange.other_names s) b = record b { other_names = s }
assign_profile (ProfileChange.date_of_birth s) b = record b { date_of_birth = s }
assign_profile (ProfileChange.gender s) b = record b { gender = s }
assign_profile (ProfileChange.phone_number s) b = record b { phone_number = s }
assign_profile (ProfileChange.mobile_number s) b = record b { mobile_number = s }
assign_profile (ProfileChange.right_to_work_status s) b = record b { right_to_work_status = s }
assign_profile (ProfileChange.licence_type_held s) b = record b { licence_type_held = s }
assign_profile (ProfileChange.credit_licence_number s) b = record b { credit_licence_number = s }
assign_profile (ProfileChange.credit_representative_number s) b = record b {
  credit_representative_number = s;
}
assign_profile (ProfileChange.licensing_entity_name s) b = record b { licensing_entity_name = s }
assign_profile (ProfileChange.licensing_entity_number s) b = record b {
  licensing_entity_number = s;
}
assign_profile (ProfileChange.unknown s) b = b
assign_profile (ProfileChange.address a) b = record b { address = a }
assign_profile (ProfileChange.postal_address a) b = record b { postal_address = a }
assign_profile (ProfileChange.experience_years n) b = record b { experience_years = n }

unfoldable pub assign_profile_all : List ProfileChange → BrokerProfile → BrokerProfile
unfolding assign_profile
assign_profile_all [] b = b
assign_profile_all (c ∷ changes) b = assign_profile_all changes (assign_profile c b)

-- The status of a profile that may be edited, or the error that the code throws.
unfoldable pub get_editable_profile : ℕ → Tx ProfileStatus
get_editable_profile broker = do
  rows ← select broker_profiles (λ b. b.id == broker)
  b ← or_throw (first rows) (of_broker (BrokerError.not_found broker))
  assert_editable_profile b.status
  pure b.status

unfoldable pub update_broker_profile_work : ℕ → List ProfileChange → Tx (Unit {0})
unfolding get_editable_profile assign_profile_all
update_broker_profile_work broker changes = do
  get_editable_profile broker
  refuse_null broker_profiles (λ b. b.id == broker) (any is_null_profile changes)
  t ← now
  update broker_profiles (λ b. b.id == broker)
      (λ b. record (assign_profile_all changes b) { updated_at = t })
  audit_broker broker AuditAction.broker_profile_updated AuditSubject.broker_profile broker

-- `updateBrokerProfile`: a patch of unknown keys only changes nothing.
unfoldable pub update_broker_profile :
    AuthorizationContext → ℕ → List ProfileChange → Call (Unit {0})
unfolding update_broker_profile_work
update_broker_profile ctx broker patch ambient db =
    let changes = filter_by is_updatable_profile patch in
    if is_empty changes
    then (ok tt, db)
    else with_authorization_context ctx (update_broker_profile_work broker changes) ambient db

-- `updateMyPhoto`, in any status.
unfoldable pub update_my_photo : AuthorizationContext → ℕ → String → Call (Unit {0})
update_my_photo ctx broker url = with_authorization_context ctx do
  t ← now
  rows ←
      update broker_profiles (λ b. b.id == broker)
        (λ b. record b { photo_url = some url; updated_at = t })
  throw_if (is_empty rows) (of_broker (BrokerError.not_found broker))

-- `attestTerms`
unfoldable pub attest_terms : AuthorizationContext → ℕ → Call (Unit {0})
attest_terms ctx broker = with_authorization_context ctx do
  t ← now
  update broker_profiles (λ b. b.id == broker)
      (λ b. record b { attested_terms_at = some t; updated_at = t })
  audit_broker broker AuditAction.broker_profile_terms_attested AuditSubject.broker_profile broker

pub record ProfileInputs : Type 0 where
  pub profile : BrokerProfile
  pub membership_count : ℕ

-- `fetchCompletenessInputs`
unfoldable pub fetch_completeness_inputs : ℕ → Tx ProfileInputs
fetch_completeness_inputs broker = do
  rows ← select broker_profiles (λ b. b.id == broker)
  b ← or_throw (first rows) (of_broker (BrokerError.not_found broker))
  memberships ← select association_memberships (λ m. m.broker_profile_id == broker)
  pure (record { profile = b; membership_count = length memberships })

abbrev pub profile_items : ProfileInputs → List OutstandingItem
profile_items i = compute_outstanding_items i.profile i.membership_count

-- `getOutstandingItems`
unfoldable pub get_profile_items : AuthorizationContext → ℕ → Call (List OutstandingItem)
unfolding fetch_completeness_inputs
get_profile_items ctx broker =
    with_authorization_context ctx
      do inputs ← fetch_completeness_inputs broker; pure (profile_items inputs)

-- `submitProfile`
unfoldable pub submit_profile_work : AuthorizationContext → ℕ → Tx Dispatch
unfolding get_editable_profile fetch_completeness_inputs create_notification
    profile_submitted_template
submit_profile_work ctx broker = do
  get_editable_profile broker
  inputs ← fetch_completeness_inputs broker
  throw_if (not (is_empty (profile_items inputs)))
      (of_broker (BrokerError.incomplete (profile_items inputs)))
  t ← now
  update broker_profiles (λ b. b.id == broker)
      (λ b. record b { status = ProfileStatus.submitted; updated_at = t })
  audit_broker broker AuditAction.broker_profile_submitted AuditSubject.broker_profile broker
  create_notification ctx (record {
    recipient_type = RecipientType.broker;
    recipient_id = broker;
    category = NotificationCategory.profile_submitted;
    subject = profile_submitted_template.subject;
    body = profile_submitted_template.body;
    related_record_type = some "broker_profile";
    related_record_id = some broker;
  })

unfoldable pub submit_profile : AuthorizationContext → ℕ → Call Dispatch
unfolding submit_profile_work
submit_profile ctx broker = with_authorization_context ctx (submit_profile_work ctx broker)
