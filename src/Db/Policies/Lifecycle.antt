-- ===== src/Db/Policies/Lifecycle.antt =====
-- Accreditations, relationships and ruleset versions (migrations 0004, 0021, 0023, 0024, 0025,
-- 0030).
use brokerplatform.Prelude.{Bool, true, false, ◌&&◌, ◌||◌, ◌==◌, not, str_eq}
use brokerplatform.Db.Context.{Session, is_system, is_administrative}
use brokerplatform.Db.Schema.{
  Accreditation, AccreditationDecision, TrainingConfirmation, TrainingKind, Relationship,
  RelationshipType, RulesetKey, RulesetVersion, RulesetVersionStatus,
}
use brokerplatform.Db.Policies.{
  Table, acts_as_broker, acts_for, is_declined, is_active, is_aggregator_membership, linked_to,
  party_to, lender_of, both_eq,
}

-- `accreditations_one_live_per_scope` and the primary key.
abbrev pub same_scope : Accreditation → Accreditation → Bool
same_scope a b =
    a.broker_profile_id == b.broker_profile_id
    && a.lender_client_organisation_id == b.lender_client_organisation_id
    && str_eq a.brand b.brand
    && str_eq a.role b.role
    && str_eq a.product_scope b.product_scope

unfoldable pub accreditations_conflict : Accreditation → Accreditation → Bool
accreditations_conflict a b =
    a.id == b.id || not (is_declined a.status) && not (is_declined b.status) && same_scope a b

abbrev pub accreditations : Table Accreditation
accreditations = record {
  rows = λ db. db.accreditations;
  put = λ rs db. record db { accreditations = rs };
  visible = λ s db a.
      is_administrative s.actor_type
      || acts_for s a.lender_client_organisation_id
      || acts_as_broker s a.broker_profile_id;
  insertable = λ s db a. is_system s.actor_type || acts_as_broker s a.broker_profile_id;
  updatable = λ s db a. is_system s.actor_type || acts_for s a.lender_client_organisation_id;
  conflicts = accreditations_conflict;
}

abbrev pub accreditation_decisions : Table AccreditationDecision
accreditation_decisions = record {
  rows = λ db. db.accreditation_decisions;
  put = λ rs db. record db { accreditation_decisions = rs };
  visible = λ s db d. is_administrative s.actor_type || party_to s db d.accreditation_id;
  insertable = λ s db d. is_system s.actor_type || lender_of s db d.accreditation_id;
  updatable = λ s db d. false;
  conflicts = λ a b. false;
}

abbrev pub same_kind : TrainingKind → TrainingKind → Bool
same_kind TrainingKind.platform TrainingKind.platform = true
same_kind TrainingKind.product TrainingKind.product = true
same_kind other another = false

abbrev pub training_confirmations : Table TrainingConfirmation
training_confirmations = record {
  rows = λ db. db.training_confirmations;
  put = λ rs db. record db { training_confirmations = rs };
  visible = λ s db c. is_administrative s.actor_type || party_to s db c.accreditation_id;
  insertable = λ s db c. is_system s.actor_type || lender_of s db c.accreditation_id;
  updatable = λ s db c. false;
  conflicts = λ a b. a.accreditation_id == b.accreditation_id && same_kind a.kind b.kind;
}

abbrev pub owns_relationship : Session → Relationship → Bool
owns_relationship s r =
    is_administrative s.actor_type
    || acts_as_broker s r.broker_profile_id
    || acts_for s r.client_organisation_id

abbrev pub same_type : RelationshipType → RelationshipType → Bool
same_type RelationshipType.lender_panel RelationshipType.lender_panel = true
same_type RelationshipType.aggregator_membership RelationshipType.aggregator_membership = true
same_type RelationshipType.association_membership RelationshipType.association_membership = true
same_type other another = false

unfoldable pub relationships_conflict : Relationship → Relationship → Bool
relationships_conflict a b =
    a.id == b.id
    || a.broker_profile_id == b.broker_profile_id
      && a.client_organisation_id == b.client_organisation_id
      && same_type a.type b.type
      && both_eq a.effective_from b.effective_from

abbrev pub relationships : Table Relationship
relationships = record {
  rows = λ db. db.relationships;
  put = λ rs db. record db { relationships = rs };
  visible = λ s db r.
      owns_relationship s r
      || is_aggregator_membership r.type
        && is_active r.status
        && linked_to s db r.broker_profile_id;
  insertable = λ s db r. owns_relationship s r;
  updatable = λ s db r. owns_relationship s r;
  conflicts = relationships_conflict;
}

unfoldable pub same_key : RulesetKey → RulesetKey → Bool
same_key a b =
    a.client_organisation_id == b.client_organisation_id
    && str_eq a.brand b.brand
    && str_eq a.role b.role
    && str_eq a.product_scope b.product_scope
    && str_eq a.pathway b.pathway

abbrev pub is_published : RulesetVersionStatus → Bool
is_published RulesetVersionStatus.published = true
is_published other = false

unfoldable pub ruleset_versions_conflict : RulesetVersion → RulesetVersion → Bool
ruleset_versions_conflict a b =
    a.id == b.id
    || same_key a.key b.key
      && (a.version_number == b.version_number || is_published a.status && is_published b.status)

abbrev pub ruleset_versions : Table RulesetVersion
ruleset_versions = record {
  rows = λ db. db.ruleset_versions;
  put = λ rs db. record db { ruleset_versions = rs };
  visible = λ s db v. is_administrative s.actor_type || acts_for s v.key.client_organisation_id;
  insertable = λ s db v. is_administrative s.actor_type;
  updatable = λ s db v. is_administrative s.actor_type;
  conflicts = ruleset_versions_conflict;
}
