-- ===== src/Tests/Profiles.antt =====
-- Broker profiles on the sample database.
use brokerplatform.Prelude.{
  ◌≡◌, refl, true, false, none, some, [], ◌∷◌, is_empty, ◌↔◌, first, ◌==◌, length, update_where,
}
use brokerplatform.Audit.{record_audit_event}
use brokerplatform.Db.Schema.{ProfileStatus, BrokerProfile, Db, Address, AssociationMembership}
use brokerplatform.Db.Context.{as_broker, session_of}
use brokerplatform.Db.Transaction.{
  seen, ok, reached, with_authorization_context, update, ◌>>=◌, insert,
}
use brokerplatform.Db.Policies.People.{broker_profiles, association_memberships}
use brokerplatform.Brokers.Profiles.{submit_profile}
use brokerplatform.Brokers.Completeness.{compute_outstanding_items, is_editable_profile}
use brokerplatform.Brokers.Submission.{
  ProfileEdit, run_profile_edit, run_profile_edit-frozen, submit_profile_complete,
}
use brokerplatform.Brokers.Requirements.{IsReady, compute_outstanding_items-IsReady}
use brokerplatform.Tests.Sample.{requested_db, at_time, broker}

abbrev home : Address
home = record {
  line1 = some "1 High Street";
  line2 = none;
  city = some "Sydney";
  postcode = some "2000";
  state = some "NSW";
}

-- The sample broker with every field that a submission asks for, by the status.
abbrev ready : ProfileStatus → BrokerProfile
ready s = record broker {
  phone_number = some "0290000000";
  mobile_number = some "0400000000";
  address = some home;
  licence_type_held = some "none";
  status = s;
  attested_terms_at = some 90;
}

abbrev member : AssociationMembership
member = record {
  id = 80;
  broker_profile_id = 1;
  association_name = "Association";
  membership_number = "M1";
  status = "unconfirmed";
  confirmed_by_association = false;
  created_at = 70;
}

abbrev profile_db : ProfileStatus → Db
profile_db s = record requested_db {
  broker_profiles = ready s ∷ [];
  association_memberships = member ∷ [];
}

run_profile_edit-frozen_example :
    run_profile_edit
      (ProfileEdit.withdraw 80)
      (as_broker 1)
      1
      (at_time 200)
      (profile_db ProfileStatus.submitted)
    ≡ profile_db ProfileStatus.submitted
run_profile_edit-frozen_example =
    run_profile_edit-frozen (ProfileEdit.withdraw 80) (as_broker 1) 1 (at_time 200)
      (profile_db ProfileStatus.submitted) ((λ _. refl), tt)

abbrev entered_db : Db
entered_db = (submit_profile (as_broker 1) 1 (at_time 200) (profile_db ProfileStatus.draft)).1

enters : submit_profile (as_broker 1) 1 (at_time 200) (profile_db ProfileStatus.draft) ≡ (
  ok (record { id = 1000; recipient_email = "broker@example.com"; should_send = true }),
  entered_db,
)
unfolding submit_profile with_authorization_context ◌>>=◌ compute_outstanding_items update
    record_audit_event insert
enters = refl

submit_profile_complete_example :
    ((b : BrokerProfile) × (first (
          seen broker_profiles
            (session_of (as_broker 1))
            (profile_db ProfileStatus.draft)
            (λ a. a.id == 1))
        ≡ some b)
      × (is_editable_profile b.status ≡ true)
      × (is_empty (
            compute_outstanding_items b (
              length (
                seen association_memberships
                  (session_of (as_broker 1))
                  (profile_db ProfileStatus.draft)
                  (λ m. m.broker_profile_id == 1))))
          ≡ true))
    × (entered_db.broker_profiles
        ≡ update_where
            (reached broker_profiles
              (session_of (as_broker 1))
              (profile_db ProfileStatus.draft)
              (λ a. a.id == 1))
            (λ a. record a { status = ProfileStatus.submitted; updated_at = 200 })
            (profile_db ProfileStatus.draft).broker_profiles)
submit_profile_complete_example =
    submit_profile_complete (as_broker 1) 1 (at_time 200) (profile_db ProfileStatus.draft) enters

compute_outstanding_items-IsReady_example :
    (is_empty (compute_outstanding_items (ready ProfileStatus.draft) 1) ≡ true)
    ↔ IsReady (ready ProfileStatus.draft) 1
compute_outstanding_items-IsReady_example =
    compute_outstanding_items-IsReady (ready ProfileStatus.draft) 1
