-- ===== src/Tests/Parts.antt =====
-- The theorems on the other parts, at concrete inputs.
use brokerplatform.Metering.{record_metering_event}
use brokerplatform.Prelude.{
  ◌≡◌, ◌↔◌, refl, true, false, none, some, inr, [], ◌∷◌, All, any, str_eq, conflict_free, first,
  filter_by, ◌==◌, if◌then◌else◌,
}
use brokerplatform.Db.Context.{as_client_user, as_broker, as_platform_admin, session_of}
use brokerplatform.Db.Schema.{
  Db, NotificationCategory, RecipientType, SubjectType, CheckResult, RulesetKey, RulesetVersion,
  RulesetVersionStatus, RelationshipType,
}
use brokerplatform.Db.Transaction.{World, ok, begin, ◌>>=◌, insert, update}
use brokerplatform.Rulesets.Types.{Fact, Condition, SatisfyingOption, RequirementGroup}
use brokerplatform.Rulesets.Evaluator.{
  compute_outstanding_requirements, evaluate_condition, is_satisfied, same_subject_type,
}
use brokerplatform.Rulesets.Outstanding.{Sublist, outstanding-shrinks, none-outstanding}
use brokerplatform.Relationships.Operations.{RelationshipOperation, run_relationship}
use brokerplatform.Relationships.Billing.{
  IsBilled, run_relationship-IsBilled, consents_of, links_of,
}
use brokerplatform.Notifications.Repository.{
  NotificationRequest, Dispatch, create_notification, set_preference, recipient_email,
}
use brokerplatform.Notifications.Mandatory.{
  AllMandatory, set_preference-mandatory, create_notification-mandatory,
}
use brokerplatform.Verification.CheckResults.{
  CheckInput, record_check_result, recorded_row, record_check_result_work, close_first,
}
use brokerplatform.Verification.Current.{current_of, record_check_result-current}
use brokerplatform.Tests.Sample.{at_time, requested_db}
use brokerplatform.Notifications.Templates.{is_mandatory}
use brokerplatform.Notifications.Effects.{notified}
use brokerplatform.Evidence.Catalogue.{
  catalog_for_subject_type, CurrentDocument, compute_document_outstanding_items,
}
use brokerplatform.Evidence.Coverage.{
  compute_document_outstanding_items-IsCovered, asks_none_of, IsCovered,
}
use brokerplatform.Db.Policies.{has_active_relationship, shares_profile}
use brokerplatform.Relationships.Repository.{revoke_relationship, get_own_relationship}
use brokerplatform.Db.Policies.Lifecycle.{relationships_conflict, ruleset_versions_conflict}
use brokerplatform.Relationships.Sharing.{others_than, revoke-sharing}
use brokerplatform.Audit.{record_audit_event}
use brokerplatform.Rulesets.Repository.{publish, publish_work, is_draft, audit_ruleset, resolve}
use brokerplatform.Json.{Json, Members, Items}
use brokerplatform.Rulesets.Validation.{validate_ruleset_definition}
use brokerplatform.Rulesets.Publication.{may_read, to_published, publish-resolve}

-- A broker with two years of experience and no documents, and the same broker with a police check.
abbrev empty_handed : Fact
empty_handed = record {
  experience_years = some 2;
  has_document = λ d. false;
  has_active_association_membership = false;
}

abbrev checked : Fact
checked = record empty_handed { has_document = λ d. str_eq d "police_check" }

abbrev police_check : RequirementGroup
police_check = record {
  id = "police";
  label = "Police check";
  subject_type = SubjectType.broker_profile;
  applies_when = Condition.always;
  satisfied_by = SatisfyingOption.document "police_check" ∷ [];
}

abbrev mentor : RequirementGroup
mentor = record {
  id = "mentor";
  label = "Mentor agreement";
  subject_type = SubjectType.broker_profile;
  applies_when = Condition.lt 3;
  satisfied_by = SatisfyingOption.document "mentor_agreement" ∷ [];
}

outstanding-shrinks_example :
    Sublist
      (compute_outstanding_requirements
        (police_check ∷ mentor ∷ [])
        SubjectType.broker_profile
        checked)
      (compute_outstanding_requirements
        (police_check ∷ mentor ∷ [])
        SubjectType.broker_profile
        empty_handed)
outstanding-shrinks_example =
    outstanding-shrinks empty_handed checked (police_check ∷ mentor ∷ []) SubjectType.broker_profile
      refl (λ d h. cc) (λ h. cc)

none-outstanding_example :
    (compute_outstanding_requirements (police_check ∷ []) SubjectType.broker_profile checked ≡ [])
    ↔ All
        (λ g.
          same_subject_type g.subject_type SubjectType.broker_profile ≡ true
          → evaluate_condition checked g.applies_when ≡ true
          → any (is_satisfied checked) g.satisfied_by ≡ true)
        (police_check ∷ [])
none-outstanding_example = none-outstanding checked (police_check ∷ []) SubjectType.broker_profile

sample-IsBilled : IsBilled requested_db
unfolding consents_of links_of
sample-IsBilled = refl

-- The sample broker consents to a second relationship with the organisation.
abbrev linking : RelationshipOperation
linking = RelationshipOperation.consent 1 10 RelationshipType.aggregator_membership "v1"

linked :
    consents_of
      (run_relationship (λ s. s) linking (as_broker 1) (at_time 200) requested_db).audit_log
    ≡ (some 10, some 1) ∷ []
unfolding consents_of run_relationship ◌>>=◌ insert relationships_conflict record_audit_event
    record_metering_event
linked = refl

run_relationship-IsBilled_example :
    IsBilled (run_relationship (λ s. s) linking (as_broker 1) (at_time 200) requested_db)
run_relationship-IsBilled_example =
    run_relationship-IsBilled (λ s. s) linking (as_broker 1) (at_time 200) requested_db
      sample-IsBilled

set_preference-mandatory_example :
    AllMandatory
      (set_preference
        (as_broker 1)
        RecipientType.broker
        1
        NotificationCategory.accreditation_approved
        false
        (at_time 200)
        requested_db).1
set_preference-mandatory_example =
    set_preference-mandatory (as_broker 1) RecipientType.broker 1
      NotificationCategory.accreditation_approved false (at_time 200) requested_db refl

abbrev notice : NotificationRequest
notice = record {
  recipient_type = RecipientType.broker;
  recipient_id = 1;
  category = NotificationCategory.accreditation_approved;
  subject = "s";
  body = "b";
  related_record_type = none;
  related_record_id = none;
}

abbrev sent : Dispatch
sent = record { id = 1000; recipient_email = "broker@example.com"; should_send = true }

abbrev client_world : World
client_world = begin (as_client_user 2 10) (at_time 200) requested_db

creates :
    create_notification (as_client_user 2 10) notice client_world
    ≡ ok (sent, notified (as_client_user 2 10) notice client_world)
unfolding create_notification recipient_email ◌>>=◌ insert
creates = refl

is_mandatory_notice : is_mandatory NotificationCategory.accreditation_approved ≡ true
unfolding is_mandatory
is_mandatory_notice = refl

create_notification-mandatory_example : sent.should_send ≡ true
create_notification-mandatory_example =
    create_notification-mandatory (as_client_user 2 10) notice client_world refl is_mandatory_notice
      creates

abbrev identity_check : CheckInput
identity_check = record {
  subject_type = SubjectType.broker_profile;
  subject_id = 1;
  check_type = "identity";
  provider = "sumsub";
  outcome = "pass";
  evidence_id = none;
  job_status = none;
}

-- A database in which an earlier result of the check is in force.
abbrev earlier : CheckResult
earlier = recorded_row identity_check 70 50

abbrev with_check : Db
with_check = record requested_db { check_results = earlier ∷ [] }

abbrev rechecked : Db
rechecked = (record_check_result identity_check (at_time 200) with_check).1

records : record_check_result identity_check (at_time 200) with_check ≡ (ok 1000, rechecked)
unfolding record_check_result record_check_result_work ◌>>=◌ insert close_first update
records = refl

earlier-in_force : current_of identity_check with_check.check_results ≡ earlier ∷ []
unfolding current_of
earlier-in_force = refl

record_check_result-current_example :
    current_of identity_check rechecked.check_results ≡ recorded_row identity_check 1000 200 ∷ []
record_check_result-current_example =
    record_check_result-current identity_check (at_time 200) with_check
      (inr (earlier, earlier-in_force)) records

abbrev renewed : CurrentDocument
renewed = record { document_type = "police_check"; expiry_date = some 900 }

abbrev lapsed : CurrentDocument
lapsed = record { document_type = "police_check"; expiry_date = some 100 }

-- An old police check that has lapsed, and a newer one.
compute_document_outstanding_items-IsCovered_example :
    (asks_none_of "police_check" (
        compute_document_outstanding_items 200 SubjectType.broker_profile
          (lapsed ∷ renewed ∷ [])
          (some 1))
      ≡ true)
    ↔ All
        (λ e.
          str_eq e.document_type "police_check" ≡ true
          → e.is_required (some 1) ≡ true
          → IsCovered 200 e.document_type (lapsed ∷ renewed ∷ []))
        (catalog_for_subject_type SubjectType.broker_profile)
compute_document_outstanding_items-IsCovered_example =
    compute_document_outstanding_items-IsCovered 200 "police_check" SubjectType.broker_profile
      (lapsed ∷ renewed ∷ []) (some 1)

abbrev revoked_db : Db
revoked_db = (revoke_relationship (as_broker 1) 1 30 none (at_time 200) requested_db).1

revokes :
    revoke_relationship (as_broker 1) 1 30 none (at_time 200) requested_db ≡ (ok tt, revoked_db)
unfolding revoke_relationship get_own_relationship ◌>>=◌ update record_audit_event insert
revokes = refl

sample_relationships_free : conflict_free relationships_conflict requested_db.relationships ≡ true
unfolding relationships_conflict
sample_relationships_free = refl

revoke-sharing_example :
    has_active_relationship shares_profile revoked_db.relationships 1 (some 10)
    ≡ has_active_relationship shares_profile (others_than 30 requested_db.relationships) 1 (some 10)
revoke-sharing_example =
    revoke-sharing 1 30 none (at_time 200) requested_db shares_profile (some 10)
      sample_relationships_free revokes

abbrev home_key : RulesetKey
home_key = record {
  client_organisation_id = 10;
  brand = "Main";
  role = "broker";
  product_scope = "home";
  pathway = "new";
}

-- The empty definition, which is valid.
abbrev empty_definition : Json
empty_definition = Json.object (
    Members.field "requirementGroups" (Json.array Items.nil) (
      Members.field "thresholds" (Json.object Members.end)
        (Members.field "declarations" (Json.array Items.nil) Members.end)))

abbrev draft_version : RulesetVersion
draft_version = record {
  id = 50;
  key = home_key;
  version_number = 1;
  label = "first";
  status = RulesetVersionStatus.draft;
  definition = empty_definition;
  superseded_by = none;
  published_at = none;
  created_at = 90;
}

abbrev drafted : Db
drafted = record requested_db { ruleset_versions = draft_version ∷ [] }

abbrev published_db : Db
published_db = (publish (as_platform_admin 9) 50 (at_time 200) drafted).1

publishes : publish (as_platform_admin 9) 50 (at_time 200) drafted ≡ (ok tt, published_db)
unfolding publish publish_work ◌>>=◌ update validate_ruleset_definition ruleset_versions_conflict
    audit_ruleset insert
publishes = refl

publish-resolve_example :
    (v : RulesetVersion) × (first (filter_by (λ x. x.id == 50) drafted.ruleset_versions) ≡ some v)
    × (is_draft v.status ≡ true)
    × (validate_ruleset_definition v.definition ≡ none)
    × ((resolve (as_client_user 2 10) v.key (at_time 300) published_db).0
        ≡ ok (
            if may_read (session_of (as_client_user 2 10)) v.key.client_organisation_id
            then some (to_published 200 v)
            else none))
publish-resolve_example =
    publish-resolve 9 50 (as_client_user 2 10) (at_time 200) (at_time 300) drafted publishes
