-- ===== src/Db/Schema.antt =====
-- The rows of the tables (db/migrations), with the columns that the repositories read or write.
use brokerplatform.Prelude.{ℕ, Bool, Option, List, String}
use brokerplatform.Db.Context.{ActorType}
use brokerplatform.Json.{Json, Members}

pub data AccreditationClassification : Type 0 where
  new_broker_introducer new_referrer_introducer transfer add_on : AccreditationClassification

pub data AccreditationStatus : Type 0 where
  requested information_required exception_escalated declined pending party_changed_pending :
      AccreditationStatus
  active lapsed : AccreditationStatus

pub data LicenceHolderType : Type 0 where
  aggregator_organisation broking_business third_party : LicenceHolderType

pub data DecisionStep : Type 0 where
  reviewer senior_approver : DecisionStep

pub record Accreditation : Type 0 where
  pub id : ℕ
  pub lender_client_organisation_id : ℕ
  pub broker_profile_id : ℕ
  pub broker_business_id : ℕ
  pub relationship_id : Option ℕ
  pub classification : AccreditationClassification
  pub brand : String
  pub role : String
  pub product_scope : String
  pub pathway : String
  pub ruleset_version_id : Option ℕ
  pub licence_holder_type : LicenceHolderType
  pub licence_holder_client_organisation_id : Option ℕ
  pub licence_holder_broker_business_id : Option ℕ
  pub licence_holder_name : Option String
  pub is_corporate_credit_representative : Bool
  pub lender_issued_id : Option String
  pub status : AccreditationStatus
  pub current_decision_step : DecisionStep
  pub interview_recommendation : Option String
  pub party_changed_at : Option ℕ
  pub training_deadline_at : Option ℕ
  pub activated_at : Option ℕ
  pub requested_at : ℕ
  pub decided_at : Option ℕ
  pub updated_at : ℕ

pub data DecisionType : Type 0 where
  information_requested escalated approved declined interview_recorded : DecisionType

pub record AccreditationDecision : Type 0 where
  pub accreditation_id : ℕ
  pub actor_type : ActorType
  pub actor_id : Option ℕ
  pub decision_type : DecisionType
  pub rationale : Option String
  pub itemised_reasons : Option (List String)
  pub created_at : ℕ

pub data TrainingKind : Type 0 where
  platform product : TrainingKind

pub record TrainingConfirmation : Type 0 where
  pub accreditation_id : ℕ
  pub kind : TrainingKind
  pub confirmed_at : ℕ
  pub confirmed_by_client_user_id : Option ℕ
  pub notes : Option String

pub data RelationshipType : Type 0 where
  lender_panel aggregator_membership association_membership : RelationshipType

pub data RelationshipStatus : Type 0 where
  requested pending_acceptance active declined revoked ended : RelationshipStatus

pub data SharedDataScope : Type 0 where
  lender_full aggregator_full association_membership_only : SharedDataScope

pub record Relationship : Type 0 where
  pub id : ℕ
  pub broker_profile_id : ℕ
  pub client_organisation_id : ℕ
  pub type : RelationshipType
  pub status : RelationshipStatus
  pub shared_data_scope : SharedDataScope
  pub consented_at : Option ℕ
  pub consent_version : Option String
  pub effective_from : Option ℕ
  pub effective_to : Option ℕ
  pub end_reason : Option String
  pub created_at : ℕ

pub data RulesetVersionStatus : Type 0 where
  draft published superseded : RulesetVersionStatus

pub record RulesetKey : Type 0 where
  pub client_organisation_id : ℕ
  pub brand : String
  pub role : String
  pub product_scope : String
  pub pathway : String

pub record RulesetVersion : Type 0 where
  pub id : ℕ
  pub key : RulesetKey
  pub version_number : ℕ
  pub label : String
  pub status : RulesetVersionStatus
  pub definition : Json
  pub superseded_by : Option ℕ
  pub published_at : Option ℕ
  pub created_at : ℕ

pub data ClientUserRole : Type 0 where
  reviewer relationship_manager senior_approver compliance_officer client_admin : ClientUserRole

pub record ClientUser : Type 0 where
  pub id : ℕ
  pub client_organisation_id : ℕ
  pub email : String
  pub password_hash : String
  pub role : ClientUserRole
  pub mfa_enrolled : Bool
  pub is_active : Bool
  pub created_at : ℕ

pub data ClientOrganisationType : Type 0 where
  lender aggregator association : ClientOrganisationType

pub record ClientOrganisation : Type 0 where
  pub id : ℕ
  pub type : ClientOrganisationType
  pub name : String
  pub is_active : Bool
  pub settings : Members
  pub verified_at : Option ℕ

pub data ProfileStatus : Type 0 where
  draft submitted in_verification verified active incomplete : ProfileStatus
  attention_required blacklisted suspended deactivated : ProfileStatus

-- An address as JSON: any part may be missing.
pub record Address : Type 0 where
  pub line1 : Option String
  pub line2 : Option String
  pub city : Option String
  pub postcode : Option String
  pub state : Option String

pub record BrokerProfile : Type 0 where
  pub id : ℕ
  pub email : String
  pub password_hash : String
  pub first_name : String
  pub last_name : String
  pub other_names : Option String
  pub date_of_birth : Option String
  pub gender : Option String
  pub phone_number : Option String
  pub mobile_number : Option String
  pub address : Option Address
  pub postal_address : Option Address
  pub right_to_work_status : Option String
  pub experience_years : Option ℕ
  pub licence_type_held : Option String
  pub credit_licence_number : Option String
  pub credit_representative_number : Option String
  pub licensing_entity_name : Option String
  pub licensing_entity_number : Option String
  pub photo_url : Option String
  pub status : ProfileStatus
  pub attested_terms_at : Option ℕ
  pub platform_broker_id : Option ℕ
  pub updated_at : ℕ

pub data AffiliationStatus : Type 0 where
  pending_confirmation active ended : AffiliationStatus

pub record BusinessAffiliation : Type 0 where
  pub id : ℕ
  pub broker_profile_id : ℕ
  pub broker_business_id : ℕ
  pub role : String
  pub status : AffiliationStatus
  pub started_at : ℕ
  pub ended_at : Option ℕ
  pub end_reason : Option String

pub data BusinessEntityType : Type 0 where
  company sole_trader partnership trust : BusinessEntityType

pub data BusinessStatus : Type 0 where
  draft submitted in_verification verified active incomplete : BusinessStatus
  attention_required breach suspended ceased : BusinessStatus

pub record BrokerBusiness : Type 0 where
  pub id : ℕ
  pub entity_type : BusinessEntityType
  pub legal_name : String
  pub trading_name : Option String
  pub abn : Option String
  pub acn : Option String
  pub gst_registered : Option Bool
  pub trustee_name : Option String
  pub website : Option String
  pub business_email : Option String
  pub address : Option Address
  pub mailing_address : Option Address
  pub status : BusinessStatus
  pub created_at : ℕ
  pub updated_at : ℕ

pub record BusinessPrincipal : Type 0 where
  pub id : ℕ
  pub broker_business_id : ℕ
  pub role : String
  pub first_name : String
  pub last_name : String
  pub date_of_birth : Option String
  pub broker_profile_id : Option ℕ
  pub email : Option String
  pub removed_at : Option ℕ
  pub created_at : ℕ

pub data SubjectType : Type 0 where
  broker_profile broker_business : SubjectType

pub record Evidence : Type 0 where
  pub id : ℕ
  pub subject_type : SubjectType
  pub subject_id : ℕ
  pub document_type : Option String
  pub captured_at : ℕ
  pub valid_to : Option ℕ

pub data JobStatus : Type 0 where
  requested in_flight completed failed timed_out : JobStatus

pub record CheckResult : Type 0 where
  pub id : ℕ
  pub subject_type : SubjectType
  pub subject_id : ℕ
  pub check_type : String
  pub provider : String
  pub valid_from : ℕ
  pub valid_to : Option ℕ
  pub outcome : String
  pub evidence_id : Option ℕ
  pub superseded_by : Option ℕ
  pub job_status : JobStatus

pub record AssociationMembership : Type 0 where
  pub id : ℕ
  pub broker_profile_id : ℕ
  pub association_name : String
  pub membership_number : String
  pub status : String
  pub confirmed_by_association : Bool
  pub created_at : ℕ

pub data RecipientType : Type 0 where
  broker client_user : RecipientType

pub data NotificationCategory : Type 0 where
  profile_submitted business_submitted accreditation_queue_entry : NotificationCategory
  accreditation_information_required accreditation_approved : NotificationCategory
  accreditation_declined accreditation_activated : NotificationCategory
  identity_verification_submitted identity_verification_complete : NotificationCategory
  identity_verification_queue_entry : NotificationCategory

pub record Notification : Type 0 where
  pub id : ℕ
  pub recipient_type : RecipientType
  pub recipient_id : ℕ
  pub category : NotificationCategory
  pub subject : String
  pub body : String
  pub related_record_type : Option String
  pub related_record_id : Option ℕ
  pub suppressed : Bool
  pub sent_at : Option ℕ
  pub created_at : ℕ

pub record NotificationPreference : Type 0 where
  pub actor_type : RecipientType
  pub actor_id : ℕ
  pub category : NotificationCategory
  pub enabled : Bool
  pub updated_at : ℕ

-- Who signs in with a password; 'system' never does.
pub data PasswordActorType : Type 0 where
  broker client_user platform_admin : PasswordActorType

pub record PlatformAdministrator : Type 0 where
  pub id : ℕ
  pub email : String
  pub password_hash : String
  pub is_active : Bool

pub record RefreshToken : Type 0 where
  pub id : ℕ
  pub actor_type : PasswordActorType
  pub actor_id : ℕ
  pub token_hash : String
  pub issued_at : ℕ
  pub expires_at : ℕ
  pub revoked_at : Option ℕ
  pub replaced_by : Option ℕ
  pub user_agent : Option String
  pub ip_address : Option String

pub record PasswordResetToken : Type 0 where
  pub id : ℕ
  pub actor_type : PasswordActorType
  pub actor_id : ℕ
  pub token_hash : String
  pub expires_at : ℕ
  pub used_at : Option ℕ

pub record MfaSecret : Type 0 where
  pub client_user_id : ℕ
  pub secret_encrypted : String
  pub backup_codes_hash : List String
  pub enrolled_at : Option ℕ

-- The texts of `audit_log.action`: `accreditation_requested` is 'accreditation.requested'.
pub data AuditAction : Type 0 where
  accreditation_requested accreditation_information_requested : AuditAction
  accreditation_escalated accreditation_approved accreditation_declined : AuditAction
  accreditation_activated accreditation_lapsed accreditation_party_changed : AuditAction
  accreditation_interview_recorded accreditation_training_confirmed : AuditAction
  relationship_consented relationship_invited relationship_declined : AuditAction
  relationship_revoked relationship_ended : AuditAction
  ruleset_created ruleset_published check_result_recorded : AuditAction
  business_affiliation_requested business_affiliation_confirmed : AuditAction
  business_affiliation_ended evidence_viewed : AuditAction
  client_organisation_created client_organisation_verified : AuditAction
  client_organisation_product_scopes_updated client_organisation_branding_updated : AuditAction
  client_user_provisioned client_user_role_changed client_user_reactivated : AuditAction
  client_user_deactivated client_user_mfa_enrolled client_user_mfa_verified : AuditAction
  client_user_mfa_verification_failed broker_profile_registered : AuditAction
  session_refresh_token_reuse_detected broker_business_created : AuditAction
  broker_profile_updated broker_profile_terms_attested broker_profile_submitted : AuditAction
  association_membership_added association_membership_updated : AuditAction
  association_membership_removed : AuditAction
  broker_business_updated broker_business_submitted business_principal_added : AuditAction
  business_principal_updated business_principal_removed : AuditAction
  login_succeeded login_failed : PasswordActorType → AuditAction
  password_changed password_reset_requested : PasswordActorType → AuditAction
  password_reset_completed : PasswordActorType → AuditAction

pub data AuditSubject : Type 0 where
  accreditation relationship ruleset_version broker_profile : AuditSubject
  broker_business business_affiliation evidence client_organisation : AuditSubject
  broker client_user platform_admin platform_administrator : AuditSubject
  business_principal association_membership : AuditSubject

pub record AuditEntry : Type 0 where
  pub occurred_at : ℕ
  pub actor_type : ActorType
  pub actor_id : Option ℕ
  pub action : AuditAction
  pub subject_type : AuditSubject
  pub subject_id : ℕ
  pub client_organisation_id : Option ℕ

pub data MeteringEventType : Type 0 where
  broker_linked broker_accredited broker_actively_monitored : MeteringEventType
  check_performed check_reused : MeteringEventType

pub record MeteringEvent : Type 0 where
  pub occurred_at : ℕ
  pub client_organisation_id : ℕ
  pub broker_profile_id : ℕ
  pub event_type : MeteringEventType
  pub billing_period : String

-- The tables. A new row stands at the head.
pub record Db : Type 0 where
  pub client_users : List ClientUser
  pub client_organisations : List ClientOrganisation
  pub broker_profiles : List BrokerProfile
  pub broker_businesses : List BrokerBusiness
  pub business_principals : List BusinessPrincipal
  pub business_affiliations : List BusinessAffiliation
  pub relationships : List Relationship
  pub ruleset_versions : List RulesetVersion
  pub accreditations : List Accreditation
  pub accreditation_decisions : List AccreditationDecision
  pub training_confirmations : List TrainingConfirmation
  pub evidence : List Evidence
  pub check_results : List CheckResult
  pub association_memberships : List AssociationMembership
  pub notifications : List Notification
  pub notification_preferences : List NotificationPreference
  pub audit_log : List AuditEntry
  pub metering_events : List MeteringEvent
  pub platform_administrators : List PlatformAdministrator
  pub refresh_tokens : List RefreshToken
  pub password_reset_tokens : List PasswordResetToken
  pub client_user_mfa_secrets : List MfaSecret
