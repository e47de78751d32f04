-- ===== src/Rulesets/Validation.antt =====
-- src/modules/rulesets/ruleset-validation.ts. A check answers the first fault that it finds; the
-- path that the message begins with is left out. To `typeof`, an array is an object too: one that
-- has none of the members that are asked for.
use brokerplatform.Prelude.{
  Bool, Option, ◌||◌, String, some, not, none, str_eq, if◌then◌else◌, true, false,
}
use brokerplatform.Json.{Json, Items, Members, member}
use brokerplatform.Db.Errors.{DefinitionFault}

-- `typeof x === 'object' && x !== null`, with the members that the checks can see.
abbrev pub members_of : Json → Option Members
members_of (Json.object ms) = some ms
members_of (Json.array xs) = some Members.end
members_of other = none

abbrev pub text_of : Option Json → Option String
text_of (some (Json.text s)) = some s
text_of other = none

-- `typeof x === 'string' && x`
abbrev pub is_nonempty_text : Option Json → Bool
is_nonempty_text (some (Json.text s)) = not (str_eq s "")
is_nonempty_text other = false

abbrev pub is_number : Option Json → Bool
is_number (some (Json.number n)) = true
is_number other = false

abbrev pub text_is : Option Json → String → Bool
text_is (some (Json.text s)) t = str_eq s t
text_is other t = false

-- The first fault of two checks in a row.
abbrev pub then_check : Option DefinitionFault → Option DefinitionFault → Option DefinitionFault
then_check none next = next
then_check (some fault) next = some fault

-- `if (!b) fail(…)`
abbrev pub require : Bool → DefinitionFault → Option DefinitionFault
require true fault = none
require false fault = some fault

abbrev pub is_comparison : Option Json → Bool
is_comparison op = text_is op "lt" || text_is op "gte"

abbrev pub is_combination : Option Json → Bool
is_combination op = text_is op "all_of" || text_is op "any_of"

-- `CONDITION_OPS.has(c.op)`
abbrev pub is_condition_op : Option Json → Bool
is_condition_op op = text_is op "always" || is_comparison op || is_combination op

unfoldable mutual
  unfolding member

  -- `validateCondition`
  pub check_condition : Json → Option DefinitionFault
  check_condition (Json.object ms) =
      then_check (require (is_condition_op (member "op" ms)) DefinitionFault.condition_op) (
        then_check
          (require (not (is_comparison (member "op" ms)) || is_number (member "value" ms))
            DefinitionFault.condition_value)
          (let nested = check_conditions_member ms in
            if is_combination (member "op" ms) then nested else none))
  check_condition (Json.array xs) = some DefinitionFault.condition_op
  check_condition other = some DefinitionFault.condition_not_object

  -- The checks on `c.conditions`.
  pub check_conditions_member : Members → Option DefinitionFault
  check_conditions_member Members.end = some DefinitionFault.conditions_not_array
  check_conditions_member (Members.field k v ms) =
      if str_eq k "conditions" then check_condition_array v else check_conditions_member ms

  pub check_condition_array : Json → Option DefinitionFault
  check_condition_array (Json.array (Items.cons x xs)) =
      then_check (check_condition x) (check_condition_items xs)
  check_condition_array other = some DefinitionFault.conditions_not_array

  pub check_condition_items : Items → Option DefinitionFault
  check_condition_items Items.nil = none
  check_condition_items (Items.cons x xs) =
      then_check (check_condition x) (check_condition_items xs)

-- `validateCondition(g.appliesWhen, …)`, where the member may be undefined.
abbrev pub check_optional_condition : Option Json → Option DefinitionFault
check_optional_condition none = some DefinitionFault.condition_not_object
check_optional_condition (some c) = check_condition c

abbrev pub check_option_members : Members → Option DefinitionFault
check_option_members ms =
    then_check
      (require
        (text_is (member "kind" ms) "document"
          || text_is (member "kind" ms) "association_membership")
        DefinitionFault.option_kind)
      (require
        (not (text_is (member "kind" ms) "document") || is_nonempty_text (member "documentType" ms))
        DefinitionFault.option_document_type)

-- The checks on one entry of `satisfiedBy`.
unfoldable pub check_option : Option Members → Option DefinitionFault
unfolding member
check_option none = some DefinitionFault.option_not_object
check_option (some ms) = check_option_members ms

unfoldable pub check_options : Items → Option DefinitionFault
unfolding check_option
check_options Items.nil = none
check_options (Items.cons x xs) = then_check (check_option (members_of x)) (check_options xs)

-- `Array.isArray(x) && x.length > 0`, then each entry.
unfoldable pub check_satisfied_by : Option Json → Option DefinitionFault
unfolding check_options
check_satisfied_by (some (Json.array (Items.cons x xs))) = check_options (Items.cons x xs)
check_satisfied_by other = some DefinitionFault.satisfied_by_not_array

abbrev pub is_subject_type : Option Json → Bool
is_subject_type t = text_is t "broker_profile" || text_is t "broker_business"

-- The checks on one entry of `requirementGroups`.
unfoldable pub check_group : Option Members → Option DefinitionFault
unfolding member check_condition check_satisfied_by
check_group none = some DefinitionFault.group_not_object
check_group (some ms) =
    then_check (require (is_nonempty_text (member "id" ms)) DefinitionFault.group_id) (
      then_check (require (is_nonempty_text (member "label" ms)) DefinitionFault.group_label) (
        then_check
          (require (is_subject_type (member "subjectType" ms)) DefinitionFault.group_subject_type)
          (then_check (check_optional_condition (member "appliesWhen" ms))
            (check_satisfied_by (member "satisfiedBy" ms)))))

unfoldable pub check_groups : Items → Option DefinitionFault
unfolding check_group
check_groups Items.nil = none
check_groups (Items.cons x xs) = then_check (check_group (members_of x)) (check_groups xs)

unfoldable pub check_requirement_groups : Option Json → Option DefinitionFault
unfolding check_groups
check_requirement_groups (some (Json.array xs)) = check_groups xs
check_requirement_groups other = some DefinitionFault.groups_not_array

-- `typeof d.thresholds === 'object' && d.thresholds !== null && !Array.isArray(d.thresholds)`
abbrev pub is_plain_object : Option Json → Bool
is_plain_object (some (Json.object ms)) = true
is_plain_object other = false

-- The checks on one entry of `declarations`.
unfoldable pub check_declaration : Option Members → Option DefinitionFault
unfolding member
check_declaration none = some DefinitionFault.declaration_not_object
check_declaration (some ms) =
    then_check (require (is_nonempty_text (member "id" ms)) DefinitionFault.declaration_id)
      (require (is_nonempty_text (member "label" ms)) DefinitionFault.declaration_label)

unfoldable pub check_declaration_items : Items → Option DefinitionFault
unfolding check_declaration
check_declaration_items Items.nil = none
check_declaration_items (Items.cons x xs) =
    then_check (check_declaration (members_of x)) (check_declaration_items xs)

unfoldable pub check_declarations : Option Json → Option DefinitionFault
unfolding check_declaration_items
check_declarations (some (Json.array xs)) = check_declaration_items xs
check_declarations other = some DefinitionFault.declarations_not_array

abbrev check_members : Members → Option DefinitionFault
check_members ms = then_check (check_requirement_groups (member "requirementGroups" ms)) (
    then_check
      (require (is_plain_object (member "thresholds" ms)) DefinitionFault.thresholds_not_object)
      (check_declarations (member "declarations" ms)))

abbrev check_definition : Option Members → Option DefinitionFault
check_definition none = some DefinitionFault.definition_not_object
check_definition (some ms) = check_members ms

-- `validateRulesetDefinition`: `none` where it returns, and the fault where it throws.
unfoldable pub validate_ruleset_definition : Json → Option DefinitionFault
unfolding member check_requirement_groups check_declarations
validate_ruleset_definition d = check_definition (members_of d)
