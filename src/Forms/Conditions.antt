-- ===== src/Forms/Conditions.antt =====
-- Conditions of the fields of request forms: apps/api/app/catalog/rules.py, and `_condition_applies` and
-- `_predicate_matches` of apps/api/app/tickets/validation.py.
use package.text.Mathlib.Text.{◌==◌ as text_eq}
use helpdesk_agent.Prelude.{
  ℕ, suc, String, Bool, true, false, not, ◌&&◌, Option, none, some, List, [], ◌∷◌, leb, ◌==◌, any,
  all, if◌then◌else◌,
}
use helpdesk_agent.Rules.Value.{Value, null, str, arr, obj, Items, nil, cons, end, equal, member}
use helpdesk_agent.Rules.Evaluate.{Values, get_value}

pub data ConditionOperator : Type 0 where
  equals not_equals one_of none_of is_empty is_not_empty : ConditionOperator

pub record ConditionPredicate : Type 0 where
  pub predicate_field : String
  pub operator : ConditionOperator
  pub expected : Value

-- The groups `all` and `any` of a rule.
pub record ConditionalRule : Type 0 where
  pub all_of : Option (List ConditionPredicate)
  pub any_of : Option (List ConditionPredicate)

abbrev pub count_items : Items → ℕ
count_items nil = 0
count_items (cons _ rest) = suc (count_items rest)

abbrev is_set : Value → Bool
is_set (arr items) = not (count_items items == 0) && leb (count_items items) 100
is_set _ = false

abbrev is_none : Value → Bool
is_none null = true
is_none _ = false

abbrev is_list : Value → Bool
is_list (arr _) = true
is_list _ = false

-- `ConditionPredicate.validate_operator_value`: whether it raises nothing
abbrev pub validate_operator_value : ConditionPredicate → Bool
validate_operator_value p = elim p.operator [
  | one_of ↦ is_set p.expected
  | none_of ↦ is_set p.expected
  | is_empty ↦ is_none p.expected
  | is_not_empty ↦ is_none p.expected
  | equals ↦ not (is_list p.expected)
  | not_equals ↦ not (is_list p.expected)
]

abbrev is_populated : List ConditionPredicate → Bool
is_populated [] = false
is_populated (_ ∷ _) = true

abbrev is_single : Option (List ConditionPredicate) → Option (List ConditionPredicate) → Bool
is_single (some group) none = is_populated group
is_single none (some group) = is_populated group
is_single _ _ = false

-- `ConditionalRule.validate_single_group`: whether it raises nothing
abbrev pub validate_single_group : ConditionalRule → Bool
validate_single_group rule = is_single rule.all_of rule.any_of

abbrev all_valid : Option (List ConditionPredicate) → Bool
all_valid none = true
all_valid (some group) = all validate_operator_value group

-- What `parse_conditional_rule` ends with: no rule, a rule, or pydantic's error, which is not caught.
pub data ParsedRule : Type 0 where
  no_rule malformed : ParsedRule
  parsed_rule : ConditionalRule → ParsedRule

abbrev model_validated : Option ConditionalRule → ParsedRule
model_validated none = malformed
model_validated (some rule) =
    if all_valid rule.all_of && (all_valid rule.any_of && validate_single_group rule)
    then parsed_rule rule
    else malformed

-- `parse_conditional_rule`; the parameter is what pydantic makes of a value by the annotations of the
-- models, before their own validators, nothing being its error.
abbrev pub parse_conditional_rule : (Value → Option ConditionalRule) → Value → ParsedRule
parse_conditional_rule accept null = no_rule
parse_conditional_rule accept (obj end) = no_rule
parse_conditional_rule accept value = model_validated (accept value)

-- `value in (None, "", [])`
abbrev pub is_blank : Value → Bool
is_blank null = true
is_blank (str s) = text_eq s ""
is_blank (arr nil) = true
is_blank _ = false

abbrev pub or_null : Option Value → Value
or_null none = null
or_null (some v) = v

abbrev pub in_values : Value → Value → Bool
in_values v (arr items) = member v items
in_values v _ = false

-- `_predicate_matches`
abbrev pub predicate_matches : ConditionOperator → Value → Value → Bool
predicate_matches is_empty expected actual = is_blank actual
predicate_matches is_not_empty expected actual = not (is_blank actual)
predicate_matches equals expected actual = equal actual expected
predicate_matches not_equals expected actual = not (equal actual expected)
predicate_matches one_of expected actual = in_values actual expected
predicate_matches none_of expected actual = not (in_values actual expected)

abbrev pub matches : Values → ConditionPredicate → Bool
matches raw p = predicate_matches p.operator p.expected (or_null (get_value p.predicate_field raw))

-- Nothing is the failed assertion that there are predicates.
abbrev pub rule_applies : ConditionalRule → Values → Option Bool
rule_applies rule raw = elim rule.all_of [
  | some predicates ↦ some (all (matches raw) predicates)
  | none ↦ elim rule.any_of [ some predicates ↦ some (any (matches raw) predicates) | none ↦ none ]
]

abbrev pub applies : ParsedRule → Values → Option Bool
applies no_rule raw = some true
applies malformed raw = none
applies (parsed_rule rule) raw = rule_applies rule raw

-- `_condition_applies`; nothing is an uncaught error
unfoldable pub condition_applies : (Value → Option ConditionalRule) → Value → Values → Option Bool
condition_applies accept condition raw = applies (parse_conditional_rule accept condition) raw
