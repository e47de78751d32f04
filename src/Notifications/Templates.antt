-- ===== src/Notifications/Templates.antt =====
-- src/modules/notifications/notification-templates.ts: which categories are mandatory, and the
-- subject and body of each message.
use brokerplatform.Prelude.{
  Bool, true, false, Option, none, some, List, [], ◌∷◌, String, ◌<>◌, str_eq, if◌then◌else◌,
}
use brokerplatform.Db.Schema.{AccreditationClassification, NotificationCategory}

-- `MANDATORY_NOTIFICATION_CATEGORIES.has(category)`
unfoldable pub is_mandatory : NotificationCategory → Bool
is_mandatory NotificationCategory.accreditation_information_required = true
is_mandatory NotificationCategory.accreditation_approved = true
is_mandatory NotificationCategory.accreditation_declined = true
is_mandatory NotificationCategory.identity_verification_complete = true
is_mandatory other = false

pub record NotificationContent : Type 0 where
  pub subject : String
  pub body : String

unfoldable pub profile_submitted_template : NotificationContent
profile_submitted_template = record {
  subject = "Your profile has been submitted";
  body =
      "Your profile has been submitted for review. We'll let you know if anything else is needed.";
}

unfoldable pub business_submitted_template : NotificationContent
business_submitted_template = record {
  subject = "Your business has been submitted";
  body =
      "Your business has been submitted for verification. We'll let you know if anything else is needed.";
}

-- The classification with each `_` replaced by a space.
abbrev pub classification_words : AccreditationClassification → String
classification_words AccreditationClassification.new_broker_introducer = "new broker introducer"
classification_words AccreditationClassification.new_referrer_introducer = "new referrer introducer"
classification_words AccreditationClassification.transfer = "transfer"
classification_words AccreditationClassification.add_on = "add on"

unfoldable pub accreditation_queue_entry_template :
    String → AccreditationClassification → NotificationContent
accreditation_queue_entry_template broker_name c = record {
  subject = "A new accreditation request is in your queue";
  body =
      broker_name
      <> " has requested accreditation ("
      <> classification_words c
      <> "). It's now in your review queue.";
}

-- `reasons.join('\n')`
unfoldable pub join_lines : List String → String
join_lines [] = ""
join_lines (x ∷ []) = x
join_lines (x ∷ y ∷ ys) = x <> "\n" <> join_lines (y ∷ ys)

unfoldable pub accreditation_information_required_template : List String → NotificationContent
accreditation_information_required_template reasons = record {
  subject = "More information needed for your accreditation";
  body = join_lines reasons;
}

unfoldable pub accreditation_approved_template : NotificationContent
accreditation_approved_template = record {
  subject = "Your accreditation has been approved";
  body = "Training details will follow shortly.";
}

unfoldable pub accreditation_declined_template : String → NotificationContent
accreditation_declined_template rationale = record {
  subject = "Your accreditation was not approved";
  body = rationale;
}

-- The sentence about the lender's identifier, which is left out where that is absent or empty.
abbrev pub identifier_sentence : Option String → String
identifier_sentence none = ""
identifier_sentence (some i) = if str_eq i "" then "" else "Your accreditation ID: " <> i <> ". "

unfoldable pub accreditation_activated_template : String → Option String → NotificationContent
accreditation_activated_template organisation lender_issued_id = record {
  subject = "Your accreditation is now active";
  body =
      "Your accreditation with "
      <> organisation
      <> " is now active. "
      <> identifier_sentence lender_issued_id
      <> "Full onboarding details (code of conduct, commission schedule, access details) will follow from your relationship manager.";
}

unfoldable pub identity_verification_submitted_template : NotificationContent
identity_verification_submitted_template = record {
  subject = "Your identity verification has been submitted";
  body = "We'll let you know once it's been reviewed.";
}

unfoldable pub identity_verification_complete_template : Bool → NotificationContent
identity_verification_complete_template true = record {
  subject = "Your identity verification is complete";
  body = "Your identity has been verified.";
}
identity_verification_complete_template false = record {
  subject = "Your identity verification needs attention";
  body =
      "Your identity verification could not be confirmed as submitted. Please check your profile for details.";
}

pub data VerificationKind : Type 0 where
  individual business : VerificationKind

abbrev kind_word : VerificationKind → String
kind_word VerificationKind.individual = "identity"
kind_word VerificationKind.business = "business"

unfoldable pub identity_verification_queue_entry_template :
    String → VerificationKind → NotificationContent
identity_verification_queue_entry_template name kind = record {
  subject = "An identity verification result is ready for review";
  body = name <> "'s " <> kind_word kind <> " verification result is ready for your review.";
}
