-- ===== src/Tests/Requests.antt =====
-- A request for accreditation on the sample database, in which the broker has none yet.
use brokerplatform.Prelude.{◌≡◌, refl, some, none, [], ◌∷◌, Option, List, true}
use brokerplatform.Db.Context.{as_broker, as_system}
use brokerplatform.Db.Schema.{Db, RulesetVersion, AccreditationClassification, LicenceHolderType}
use brokerplatform.Db.Transaction.{World, ok, begin, ◌>>=◌, insert}
use brokerplatform.Notifications.Repository.{Dispatch, create_notification}
use brokerplatform.Rulesets.Repository.{resolve}
use brokerplatform.Accreditation.Requests.{
  AccreditationInput, request_accreditation, key_of, requested_row, audit_requested, notify_each,
}
use brokerplatform.Accreditation.Arrivals.{Arrived}
use brokerplatform.Accreditation.Admission.{request_accreditation-Arrived}
use brokerplatform.Tests.Sample.{at_time, requested_db}

abbrev home_loans : AccreditationInput
home_loans = record {
  broker_profile_id = 1;
  lender_client_organisation_id = 10;
  broker_business_id = 20;
  classification = AccreditationClassification.new_broker_introducer;
  brand = "Main";
  role = "broker";
  product_scope = "home";
  licence_holder_type = LicenceHolderType.broking_business;
  licence_holder_client_organisation_id = none;
  licence_holder_broker_business_id = some 20;
  licence_holder_name = none;
  is_corporate_credit_representative = none;
}

abbrev blank_db : Db
blank_db = record requested_db { accreditations = []; audit_log = [] }

abbrev asked_db : Db
asked_db = (request_accreditation (as_broker 1) home_loans (at_time 200) blank_db).1

-- The reviewer is told.
abbrev told : List Dispatch
told = record { id = 1001; recipient_email = "reviewer@lender.example"; should_send = true } ∷ []

requests :
    request_accreditation (as_broker 1) home_loans (at_time 200) blank_db
    ≡ (ok (1000, told), asked_db)
unfolding request_accreditation ◌>>=◌ insert create_notification requested_row audit_requested
    notify_each
requests = refl

request_accreditation-Arrived_example :
    (resolved : Option RulesetVersion) × (w : World) × (asked_db ≡ w.db)
    × ((resolve as_system (key_of home_loans) (at_time 200) blank_db).0 ≡ ok resolved)
    × Arrived home_loans resolved 1000 (begin (as_broker 1) (at_time 200) blank_db) w
request_accreditation-Arrived_example =
    request_accreditation-Arrived (as_broker 1) home_loans (at_time 200) blank_db requests
