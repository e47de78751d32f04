-- ===== src/Db/Errors.antt =====
-- What a repository function throws: its own error classes, and the two refusals of the database.
use brokerplatform.Prelude.{ℕ, List, String}
use brokerplatform.Db.Schema.{
  AccreditationStatus, RelationshipStatus, BusinessStatus, ProfileStatus, AffiliationStatus,
  RulesetVersionStatus, NotificationCategory, RecipientType,
}

pub data AccreditationError : Type 0 where
  not_found : ℕ → AccreditationError
  no_business_affiliation : ℕ → AccreditationError
  no_active_relationship : ℕ → AccreditationError
  invalid_transition : AccreditationStatus → String → AccreditationError
  insufficient_role : String → AccreditationError

pub data RelationshipError : Type 0 where
  not_found : ℕ → RelationshipError
  invalid_transition : RelationshipStatus → String → RelationshipError
  broker_not_found : String → RelationshipError

-- The reasons of `InvalidRulesetDefinitionError`.
pub data DefinitionFault : Type 0 where
  definition_not_object groups_not_array group_not_object group_id group_label : DefinitionFault
  group_subject_type condition_not_object condition_op condition_value : DefinitionFault
  conditions_not_array satisfied_by_not_array option_not_object option_kind : DefinitionFault
  option_document_type thresholds_not_object declarations_not_array : DefinitionFault
  declaration_not_object declaration_id declaration_label : DefinitionFault

pub data RulesetError : Type 0 where
  not_found : ℕ → RulesetError
  invalid_transition : RulesetVersionStatus → RulesetError
  invalid_definition : DefinitionFault → RulesetError

pub data NotificationError : Type 0 where
  mandatory_category : NotificationCategory → NotificationError
  recipient_not_found : RecipientType → ℕ → NotificationError

-- What is missing before a profile or a business can be submitted.
pub record OutstandingItem : Type 0 where
  pub field : String
  pub reason : String

pub data BusinessError : Type 0 where
  not_found : ℕ → BusinessError
  not_editable : BusinessStatus → BusinessError
  incomplete : List OutstandingItem → BusinessError
  not_affiliatable : BusinessStatus → BusinessError
  already_affiliated : ℕ → BusinessError
  affiliation_not_found : ℕ → BusinessError
  affiliation_not_pending : AffiliationStatus → BusinessError
  cannot_confirm_own_affiliation : BusinessError
  not_affiliated : ℕ → BusinessError
  principal_not_found : ℕ → BusinessError

pub data BrokerError : Type 0 where
  not_found : ℕ → BrokerError
  not_editable : ProfileStatus → BrokerError
  incomplete : List OutstandingItem → BrokerError
  membership_not_found : ℕ → BrokerError

pub data IdentityError : Type 0 where
  client_user_email_taken : String → IdentityError
  client_user_not_found : ℕ → IdentityError
  invalid_current_password invalid_reset_token refresh_token_reuse_detected : IdentityError

pub data Error : Type 0 where
  of_accreditation : AccreditationError → Error
  of_relationship : RelationshipError → Error
  of_ruleset : RulesetError → Error
  of_notification : NotificationError → Error
  of_business : BusinessError → Error
  of_identity : IdentityError → Error
  of_broker : BrokerError → Error
  unique_violation : Error
  not_null_violation : Error
  row_level_security : Error
  -- A `TypeError` of JavaScript: a value does not have the shape that a cast claims.
  type_error : Error
