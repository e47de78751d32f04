-- ===== src/Rulesets/Evaluator.antt =====
-- src/modules/rulesets/ruleset-evaluator.ts.
use brokerplatform.Prelude.{
  none, any, ℕ, [], ◌∷◌, List, Bool, true, false, Option, some, String, ltb, map, leb,
  if◌then◌else◌, ◌&&◌, ◌<>◌, filter_by, not, ◌||◌, any,
}
use brokerplatform.Rulesets.Types.{
  Condition, Conditions, Fact, RequirementGroup, OutstandingRequirement, SatisfyingOption,
}
use brokerplatform.Db.Schema.{SubjectType}

-- `fact.experienceYears !== null && …`
abbrev pub compare_years : (ℕ → Bool) → Option ℕ → Bool
compare_years test (some years) = test years
compare_years test none = false

unfoldable mutual
  pub evaluate_condition : Fact → Condition → Bool
  evaluate_condition fact Condition.always = true
  evaluate_condition fact (Condition.lt v) =
      compare_years (λ years. ltb years v) fact.experience_years
  evaluate_condition fact (Condition.gte v) =
      compare_years (λ years. leb v years) fact.experience_years
  evaluate_condition fact (Condition.all_of cs) = evaluate_every fact cs
  evaluate_condition fact (Condition.any_of cs) = evaluate_some fact cs

  pub evaluate_every : Fact → Conditions → Bool
  evaluate_every fact Conditions.nil = true
  evaluate_every fact (Conditions.cons c cs) = evaluate_condition fact c && evaluate_every fact cs

  pub evaluate_some : Fact → Conditions → Bool
  evaluate_some fact Conditions.nil = false
  evaluate_some fact (Conditions.cons c cs) = evaluate_condition fact c || evaluate_some fact cs

unfoldable pub is_satisfied : Fact → SatisfyingOption → Bool
is_satisfied fact (SatisfyingOption.document d) = fact.has_document d
is_satisfied fact SatisfyingOption.association_membership = fact.has_active_association_membership

abbrev pub same_subject_type : SubjectType → SubjectType → Bool
same_subject_type SubjectType.broker_profile SubjectType.broker_profile = true
same_subject_type SubjectType.broker_business SubjectType.broker_business = true
same_subject_type other another = false

abbrev is_single {ℓ} : {A : Type ℓ} → List A → Bool
is_single (x ∷ []) = true
is_single other = false

-- `describeUnmet`
unfoldable pub describe_unmet : RequirementGroup → String
describe_unmet g =
    if is_single g.satisfied_by
    then g.label <> " has not been satisfied."
    else g.label <> " has not been satisfied — any one of its accepted alternatives will do."

abbrev pub outstanding_item : RequirementGroup → OutstandingRequirement
outstanding_item g = record { group_id = g.id; label = g.label; reason = describe_unmet g }

-- `computeOutstandingRequirements`, over the `requirementGroups` of the definition.
unfoldable pub compute_outstanding_requirements :
    List RequirementGroup → SubjectType → Fact → List OutstandingRequirement
compute_outstanding_requirements groups subject fact = map outstanding_item (
    filter_by (λ g. not (any (is_satisfied fact) g.satisfied_by))
      (filter_by (λ g. evaluate_condition fact g.applies_when)
        (filter_by (λ g. same_subject_type g.subject_type subject) groups)))
