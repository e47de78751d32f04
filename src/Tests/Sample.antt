-- ===== src/Tests/Sample.antt =====
-- A small database: one broker, who works for one business and shares data with one lender, asks
-- it for accreditation.
use brokerplatform.Prelude.{ℕ, true, false, none, some, [], ◌∷◌, ◌+◌}
use brokerplatform.Db.Context.{ActorType}
use brokerplatform.Db.Schema.{
  Accreditation, AccreditationClassification, AccreditationStatus, LicenceHolderType, DecisionStep,
  ClientUser, ClientUserRole, ClientOrganisation, ClientOrganisationType, BrokerProfile,
  ProfileStatus, BusinessAffiliation, AffiliationStatus, Relationship, RelationshipType,
  RelationshipStatus, SharedDataScope, AuditEntry, AuditAction, AuditSubject, Db,
}
use brokerplatform.Json.{Members}
use brokerplatform.Db.Transaction.{Ambient}

abbrev pub at_time : ℕ → Ambient
at_time t = record {
  now = t;
  date_now = t;
  billing_period = "2026-01";
  uuid = λ n. 1000 + n;
  random_bytes = λ size n. size ∷ n ∷ t ∷ [];
}

abbrev pub reviewer : ClientUser
reviewer = record {
  id = 2;
  client_organisation_id = 10;
  email = "reviewer@lender.example";
  password_hash = "aa:bb";
  mfa_enrolled = true;
  created_at = 1;
  role = ClientUserRole.reviewer;
  is_active = true;
}

abbrev pub lender : ClientOrganisation
lender = record {
  id = 10;
  type = ClientOrganisationType.lender;
  name = "Lender";
  is_active = true;
  settings = Members.end;
  verified_at = some 1;
}

abbrev pub broker : BrokerProfile
broker = record {
  id = 1;
  email = "broker@example.com";
  password_hash = "aa:bb";
  first_name = "Ada";
  last_name = "Byron";
  other_names = none;
  date_of_birth = some "1980-12-10";
  gender = none;
  phone_number = none;
  mobile_number = none;
  address = none;
  postal_address = none;
  right_to_work_status = none;
  experience_years = some 4;
  licence_type_held = none;
  credit_licence_number = none;
  credit_representative_number = none;
  licensing_entity_name = none;
  licensing_entity_number = none;
  photo_url = none;
  status = ProfileStatus.draft;
  attested_terms_at = none;
  platform_broker_id = none;
  updated_at = 1;
}

abbrev pub affiliation : BusinessAffiliation
affiliation = record {
  id = 25;
  broker_profile_id = 1;
  broker_business_id = 20;
  role = "principal";
  status = AffiliationStatus.active;
  started_at = 1;
  ended_at = none;
  end_reason = none;
}

abbrev pub panel : Relationship
panel = record {
  id = 30;
  broker_profile_id = 1;
  client_organisation_id = 10;
  type = RelationshipType.lender_panel;
  status = RelationshipStatus.active;
  shared_data_scope = SharedDataScope.lender_full;
  consented_at = some 5;
  consent_version = some "v1";
  effective_from = some 5;
  effective_to = none;
  end_reason = none;
  created_at = 5;
}

abbrev pub application : AccreditationStatus → Accreditation
application s = record {
  id = 40;
  lender_client_organisation_id = 10;
  broker_profile_id = 1;
  broker_business_id = 20;
  relationship_id = some 30;
  classification = AccreditationClassification.new_broker_introducer;
  brand = "Main";
  role = "broker";
  product_scope = "home";
  pathway = "new";
  ruleset_version_id = none;
  licence_holder_type = LicenceHolderType.broking_business;
  licence_holder_client_organisation_id = none;
  licence_holder_broker_business_id = some 20;
  licence_holder_name = none;
  is_corporate_credit_representative = false;
  lender_issued_id = none;
  status = s;
  current_decision_step = DecisionStep.reviewer;
  interview_recommendation = none;
  party_changed_at = none;
  training_deadline_at = none;
  activated_at = none;
  requested_at = 100;
  decided_at = none;
  updated_at = 100;
}

-- The entry of an action on the application.
abbrev pub entry : AuditAction → AuditEntry
entry action = record {
  occurred_at = 100;
  actor_type = ActorType.broker;
  actor_id = some 1;
  action = action;
  subject_type = AuditSubject.accreditation;
  subject_id = 40;
  client_organisation_id = some 10;
}

-- The database in which the application has a status, by an action.
abbrev pub sample : AccreditationStatus → AuditAction → Db
sample s action = record {
  client_users = reviewer ∷ [];
  client_organisations = lender ∷ [];
  broker_profiles = broker ∷ [];
  broker_businesses = [];
  business_principals = [];
  business_affiliations = affiliation ∷ [];
  relationships = panel ∷ [];
  ruleset_versions = [];
  accreditations = application s ∷ [];
  accreditation_decisions = [];
  training_confirmations = [];
  evidence = [];
  check_results = [];
  association_memberships = [];
  notifications = [];
  notification_preferences = [];
  audit_log = entry action ∷ [];
  metering_events = [];
  platform_administrators = [];
  refresh_tokens = [];
  password_reset_tokens = [];
  client_user_mfa_secrets = [];
}

abbrev pub requested_db : Db
requested_db = sample AccreditationStatus.requested AuditAction.accreditation_requested

abbrev pub declined_db : Db
declined_db = sample AccreditationStatus.declined AuditAction.accreditation_declined
