-- ===== src/Tests/Businesses.antt =====
-- Businesses and affiliations on the sample database.
use brokerplatform.Audit.{record_audit_event}
use brokerplatform.Prelude.{
  ◌≡◌, refl, true, false, none, some, List, [], ◌∷◌, is_empty, first, ◌↔◌, ◌==◌, ◌&&◌, length, not,
  is_some, update_where,
}
use brokerplatform.Db.Schema.{
  BusinessStatus, BusinessPrincipal, BrokerBusiness, Db, Address, BusinessEntityType,
  AffiliationStatus, BusinessAffiliation,
}
use brokerplatform.Businesses.Repository.{submit_business, affiliation_row}
use brokerplatform.Businesses.Editing.{run_edit, BusinessEdit, run_edit-frozen}
use brokerplatform.Businesses.Affiliations.{confirm_affiliation, is_pending_affiliation}
use brokerplatform.Businesses.Membership.{
  MembershipStep, run_memberships, MembershipOperation, confirm_affiliation-authorised,
}
use brokerplatform.Businesses.Endings.{IsEnded, run_memberships-IsEnded}
use brokerplatform.Db.Transaction.{
  seen, ok, reached, with_authorization_context, update, ◌>>=◌, insert,
}
use brokerplatform.Accreditation.Parties.{end_affiliation, flag_party_changed, audit_each}
use brokerplatform.Businesses.Completeness.{compute_business_outstanding_items, is_editable}
use brokerplatform.Db.Policies.People.{
  business_affiliations, broker_businesses, is_active_affiliation, business_principals,
  has_active_business_affiliation,
}
use brokerplatform.Db.Context.{as_broker, session_of}
use brokerplatform.Tests.Sample.{requested_db, at_time}
use brokerplatform.Businesses.Submission.{
  IsComplete, compute_business_outstanding_items-IsComplete, submit_business-IsComplete,
}

abbrev office : Address
office = record {
  line1 = some "1 High Street";
  line2 = none;
  city = some "Sydney";
  postcode = some "2000";
  state = some "NSW";
}

-- A business of the sample broker, by its status.
abbrev firm : BusinessStatus → BrokerBusiness
firm s = record {
  id = 20;
  entity_type = BusinessEntityType.company;
  legal_name = "Firm Pty Ltd";
  trading_name = none;
  abn = some "51824753556";
  acn = none;
  gst_registered = some true;
  trustee_name = none;
  website = none;
  business_email = some "office@firm.example";
  address = some office;
  mailing_address = none;
  status = s;
  created_at = 50;
  updated_at = 50;
}

abbrev director : BusinessPrincipal
director = record {
  id = 70;
  broker_business_id = 20;
  role = "director";
  first_name = "Ada";
  last_name = "Byron";
  date_of_birth = none;
  broker_profile_id = some 1;
  email = none;
  removed_at = none;
  created_at = 60;
}

abbrev firm_db : BusinessStatus → Db
firm_db s = record requested_db {
  broker_businesses = firm s ∷ [];
  business_principals = director ∷ [];
}

run_edit-frozen_example :
    run_edit
      (BusinessEdit.remove 70)
      (as_broker 1)
      1
      20
      (at_time 200)
      (firm_db BusinessStatus.submitted)
    ≡ firm_db BusinessStatus.submitted
run_edit-frozen_example =
    run_edit-frozen (BusinessEdit.remove 70) (as_broker 1) 1 20 (at_time 200)
      (firm_db BusinessStatus.submitted) ((λ _. refl), tt)

abbrev draft_db : Db
draft_db = firm_db BusinessStatus.draft

abbrev submitted_db : Db
submitted_db = (submit_business (as_broker 1) 1 20 (at_time 200) draft_db).1

submits : submit_business (as_broker 1) 1 20 (at_time 200) draft_db ≡ (
  ok (record { id = 1000; recipient_email = "broker@example.com"; should_send = true }),
  submitted_db,
)
unfolding submit_business with_authorization_context ◌>>=◌ compute_business_outstanding_items update
    record_audit_event insert
submits = refl

submit_business-IsComplete_example :
    ((b : BrokerBusiness) × (first
          (seen broker_businesses (session_of (as_broker 1)) draft_db (λ b. b.id == 20))
        ≡ some b)
      × (is_editable b.status ≡ true)
      × IsComplete b (
          length (
            seen business_principals
              (session_of (as_broker 1))
              draft_db
              (λ p. p.broker_business_id == 20 && not (is_some p.removed_at)))))
    × (submitted_db.broker_businesses
        ≡ update_where
            (reached broker_businesses (session_of (as_broker 1)) draft_db (λ b. b.id == 20))
            (λ b. record b { status = BusinessStatus.submitted; updated_at = 200 })
            draft_db.broker_businesses)
submit_business-IsComplete_example =
    submit_business-IsComplete (as_broker 1) 1 20 (at_time 200) draft_db submits

compute_business_outstanding_items-IsComplete_example :
    (is_empty (compute_business_outstanding_items (firm BusinessStatus.draft) 1) ≡ true)
    ↔ IsComplete (firm BusinessStatus.draft) 1
compute_business_outstanding_items-IsComplete_example =
    compute_business_outstanding_items-IsComplete (firm BusinessStatus.draft) 1

-- Another broker has asked to join, and the sample broker confirms it.
abbrev asking_db : Db
asking_db = record (firm_db BusinessStatus.verified) {
  business_affiliations =
      affiliation_row 26 4 20 AffiliationStatus.pending_confirmation 150
      ∷ (firm_db BusinessStatus.verified).business_affiliations;
}

abbrev joined_db : Db
joined_db = (confirm_affiliation (as_broker 1) 1 20 26 (at_time 200) asking_db).1

confirms : confirm_affiliation (as_broker 1) 1 20 26 (at_time 200) asking_db ≡ (ok tt, joined_db)
unfolding confirm_affiliation with_authorization_context ◌>>=◌ has_active_business_affiliation
    update record_audit_event insert
confirms = refl

confirm_affiliation-authorised_example :
    (is_empty (
        seen business_affiliations (session_of (as_broker 1)) asking_db (λ a.
          a.broker_business_id == 20 && a.broker_profile_id == 1 && is_active_affiliation a.status))
      ≡ false)
    × ((target : BusinessAffiliation) × (first (
            seen business_affiliations
              (session_of (as_broker 1))
              asking_db
              (λ a. a.id == 26 && a.broker_business_id == 20))
          ≡ some target)
        × ((target.broker_profile_id == 1) ≡ false)
        × (is_pending_affiliation target.status ≡ true))
    × (joined_db.business_affiliations
        ≡ update_where
            (reached business_affiliations (session_of (as_broker 1)) asking_db (λ a. a.id == 26))
            (λ a. record a { status = AffiliationStatus.active })
            asking_db.business_affiliations)
confirm_affiliation-authorised_example =
    confirm_affiliation-authorised (as_broker 1) 1 20 26 (at_time 200) asking_db confirms

-- The other broker has left, asks again and is confirmed.
abbrev left_db : Db
left_db = (end_affiliation (as_broker 4) 4 26 none (at_time 300) joined_db).1

abbrev coming_back : List MembershipStep
coming_back =
    record {
      operation = MembershipOperation.ask 20 (at_time 400);
      ctx = as_broker 4;
      broker = 4;
      time = at_time 400;
    }
    ∷ record {
      operation = MembershipOperation.confirm 20 26;
      ctx = as_broker 1;
      broker = 1;
      time = at_time 500;
    }
    ∷ []

run_memberships-IsEnded_example : IsEnded 26 (run_memberships coming_back left_db)
unfolding end_affiliation ◌>>=◌ update confirm_affiliation has_active_business_affiliation insert
    flag_party_changed audit_each
run_memberships-IsEnded_example =
    run_memberships-IsEnded 26 coming_back left_db (record { ended = refl; unique = refl })
