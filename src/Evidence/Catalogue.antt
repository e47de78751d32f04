-- ===== src/Evidence/Catalogue.antt =====
-- document-catalog.ts, and the pure part of evidence.repository.ts. An entry without `isRequired`
-- is required always.
use brokerplatform.Prelude.{
  ◌++◌, ℕ, Bool, true, false, Option, none, some, List, [], ◌∷◌, String, ◌<>◌, str_eq, ltb,
  filter_by, if◌then◌else◌,
}
use brokerplatform.Db.Schema.{SubjectType}
use brokerplatform.Rulesets.Evaluator.{compare_years, same_subject_type}

pub record DocumentCatalogEntry : Type 0 where
  pub document_type : String
  pub label : String
  pub subject_type : SubjectType
  pub default_validity_days : Option ℕ
  pub is_required : Option ℕ → Bool

abbrev pub always_required : Option ℕ → Bool
always_required years = true

abbrev pub never_required : Option ℕ → Bool
never_required years = false

-- `DOCUMENT_CATALOG`
unfoldable pub document_catalog : List DocumentCatalogEntry
document_catalog =
    record {
      document_type = "certificate_iv";
      label = "Certificate IV in Finance and Mortgage Broking (or equivalent)";
      subject_type = SubjectType.broker_profile;
      default_validity_days = none;
      is_required = always_required;
    }
    ∷ record {
      document_type = "police_check";
      label = "Police / criminal history certificate";
      subject_type = SubjectType.broker_profile;
      default_validity_days = some 180;
      is_required = always_required;
    }
    ∷ record {
      document_type = "mentoring_letter";
      label = "Mentoring confirmation letter";
      subject_type = SubjectType.broker_profile;
      default_validity_days = none;
      is_required = (λ years. compare_years (λ y. ltb y 2) years);
    }
    ∷ record {
      document_type = "pi_certificate";
      label = "Professional indemnity certificate of currency";
      subject_type = SubjectType.broker_business;
      default_validity_days = some 365;
      is_required = always_required;
    }
    ∷ record {
      document_type = "diploma";
      label = "Diploma or higher qualification";
      subject_type = SubjectType.broker_profile;
      default_validity_days = none;
      is_required = never_required;
    }
    ∷ record {
      document_type = "credit_licence_certificate";
      label = "Credit licence or credit representative certificate";
      subject_type = SubjectType.broker_profile;
      default_validity_days = none;
      is_required = always_required;
    }
    ∷ record {
      document_type = "credit_licence_certificate";
      label = "Credit licence or credit representative certificate";
      subject_type = SubjectType.broker_business;
      default_validity_days = none;
      is_required = always_required;
    }
    ∷ record {
      document_type = "financial_services_licence";
      label = "Financial services licence / authorised representative certificate";
      subject_type = SubjectType.broker_business;
      default_validity_days = none;
      is_required = never_required;
    }
    ∷ record {
      document_type = "resume";
      label = "Resume / work history";
      subject_type = SubjectType.broker_profile;
      default_validity_days = none;
      is_required = always_required;
    }
    ∷ record {
      document_type = "right_to_work";
      label = "Right-to-work / visa documentation";
      subject_type = SubjectType.broker_profile;
      default_validity_days = none;
      is_required = never_required;
    }
    ∷ record {
      document_type = "signed_declaration";
      label = "Signed application or declaration";
      subject_type = SubjectType.broker_profile;
      default_validity_days = none;
      is_required = always_required;
    }
    ∷ []

-- `catalogForSubjectType`
unfoldable pub catalog_for_subject_type : SubjectType → List DocumentCatalogEntry
unfolding document_catalog
catalog_for_subject_type subject =
    filter_by (λ e. same_subject_type e.subject_type subject) document_catalog

-- A current document, as the rows give it: its type and when it expires.
pub record CurrentDocument : Type 0 where
  pub document_type : String
  pub expiry_date : Option ℕ

pub record DocumentOutstandingItem : Type 0 where
  pub field : String
  pub reason : String

abbrev or_later : Option CurrentDocument → CurrentDocument → Bool → Option CurrentDocument
or_later (some later) d same = some later
or_later none d true = some d
or_later none d false = none

-- `byType.get(type)`: of several documents of a type, the map holds the last.
unfoldable pub document_of_type : String → List CurrentDocument → Option CurrentDocument
document_of_type type [] = none
document_of_type type (d ∷ ds) = or_later (document_of_type type ds) d (str_eq d.document_type type)

-- `doc.expiry_date && new Date(doc.expiry_date) < new Date()`
abbrev pub is_expired : ℕ → Option ℕ → Bool
is_expired now none = false
is_expired now (some date) = ltb date now

-- What one entry of the catalogue asks for, given the document that is there.
unfoldable pub outstanding_of :
    ℕ → DocumentCatalogEntry → Option CurrentDocument → List DocumentOutstandingItem
outstanding_of now e none =
    record { field = e.document_type; reason = e.label <> " has not been uploaded." } ∷ []
outstanding_of now e (some d) =
    if is_expired now d.expiry_date
    then record {
      field = e.document_type;
      reason = e.label <> " has expired and needs to be renewed.";
    }
      ∷ []
    else []

-- The loop of `computeDocumentOutstandingItems`.
unfoldable pub outstanding_each :
    ℕ → List DocumentCatalogEntry → List CurrentDocument → Option ℕ → List DocumentOutstandingItem
unfolding outstanding_of document_of_type
outstanding_each now [] docs years = []
outstanding_each now (e ∷ es) docs years =
    let rest = outstanding_each now es docs years in
    if e.is_required years
    then outstanding_of now e (document_of_type e.document_type docs) ++ rest
    else rest

-- `computeDocumentOutstandingItems` at a time.
unfoldable pub compute_document_outstanding_items :
    ℕ → SubjectType → List CurrentDocument → Option ℕ → List DocumentOutstandingItem
unfolding catalog_for_subject_type outstanding_each
compute_document_outstanding_items now subject docs years =
    outstanding_each now (catalog_for_subject_type subject) docs years
