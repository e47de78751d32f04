-- ===== src/Rulesets/Types.antt =====
-- src/modules/rulesets/ruleset.types.ts.
use brokerplatform.Prelude.{ℕ, Bool, Option, List, String}
use brokerplatform.Db.Schema.{SubjectType}

-- What the engine knows of a broker. Years are natural numbers: of a number the engine only asks
-- how it compares with a threshold.
pub record Fact : Type 0 where
  pub experience_years : Option ℕ
  pub has_document : String → Bool
  pub has_active_association_membership : Bool

mutual
  pub data Condition : Type 0 where
    always : Condition
    lt gte : ℕ → Condition
    all_of any_of : Conditions → Condition

  pub data Conditions : Type 0 where
    nil : Conditions
    cons : Condition → Conditions → Conditions

pub data SatisfyingOption : Type 0 where
  document : String → SatisfyingOption
  association_membership : SatisfyingOption

pub record RequirementGroup : Type 0 where
  pub id : String
  pub label : String
  pub subject_type : SubjectType
  pub applies_when : Condition
  pub satisfied_by : List SatisfyingOption

pub record OutstandingRequirement : Type 0 where
  pub group_id : String
  pub label : String
  pub reason : String
