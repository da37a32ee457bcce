-- ===== src/Routing/Select.antt =====
-- The choice of a route: `_select_rule`, `_specificity`, `_rule_order` and `_routing_values` of
-- apps/api/app/routing/service.py.
use Prim.Native.String.{◌++◌ as append_text}
use package.text.Mathlib.Text.{◌==◌ as text_eq}
use helpdesk_agent.Prelude.{
  ℕ, ◌+◌, String, Bool, true, false, ◌&&◌, ◌||◌, Option, none, some, List, [], ◌∷◌, ltb, leb, ◌==◌,
  if◌then◌else◌, Result, ok, err, ◌>>=◌, any, map_result,
}
use helpdesk_agent.Rules.Value.{
  Value, null, str, arr, obj, Items, nil, cons, Fields, end, field, get_field,
}
use helpdesk_agent.Rules.Evaluate.{RuleError, invalid_rule, type_error, Values, evaluate}
use helpdesk_agent.Sla.Models.{text_or_null}
use helpdesk_agent.Routing.Models.{RoutingTicket, RoutingRuleVersion}

pub data RoutingError : Type 0 where
  routing_configuration uncaught_type_error : RoutingError

-- `rule in ({}, [], None)`
abbrev pub is_unconditional : Value → Bool
is_unconditional null = true
is_unconditional (arr nil) = true
is_unconditional (obj end) = true
is_unconditional _ = false

abbrev pub has_field : Option Value → Bool
has_field none = false
has_field (some _) = true

-- What is left of `_specificity` once `all` and `any` are excluded.
abbrev pub leaf_specificity : Fields → Result RoutingError ℕ
leaf_specificity fs =
    if has_field (get_field "field" fs) && has_field (get_field "operator" fs)
    then ok 1
    else err routing_configuration

abbrev pub is_group : String → Bool
is_group k = text_eq k "all" || text_eq k "any"

abbrev pub add_results : Result RoutingError ℕ → Result RoutingError ℕ → Result RoutingError ℕ
add_results first rest = first >>= λ n. rest >>= λ m. ok (n + m)

-- `_specificity`
unfoldable mutual
  pub specificity : Value → Result RoutingError ℕ
  specificity null = ok 0
  specificity (arr items) = sum_specificity items
  specificity (obj fs) = object_specificity fs
  specificity _ = err routing_configuration

  pub sum_specificity : Items → Result RoutingError ℕ
  sum_specificity nil = ok 0
  sum_specificity (cons v rest) = add_results (specificity v) (sum_specificity rest)

  pub object_specificity : Fields → Result RoutingError ℕ
  object_specificity end = ok 0
  object_specificity (field k (arr items) end) =
      let inner = sum_specificity items in
      if is_group k then inner else leaf_specificity (field k (arr items) end)
  object_specificity fs = leaf_specificity fs

-- A rule with the specificity that its sort key has.
pub record Ranked : Type 0 where
  pub rank : ℕ
  pub rule : RoutingRuleVersion

abbrev pub timestamp : Option ℕ → ℕ
timestamp none = 0
timestamp (some t) = t

-- Whether the key of `_rule_order` is at most the other: a lower priority number, then a higher
-- specificity, then a later start, then a lower version identity.
abbrev pub rule_le : Ranked → Ranked → Bool
rule_le a b =
    ltb a.rule.rule_priority b.rule.rule_priority
    || (a.rule.rule_priority == b.rule.rule_priority
        && (ltb b.rank a.rank
            || (b.rank == a.rank
                && (ltb (timestamp b.rule.effective_from) (timestamp a.rule.effective_from)
                    || (timestamp b.rule.effective_from == timestamp a.rule.effective_from
                        && leb a.rule.routing_rule_version_id b.rule.routing_rule_version_id)))))

abbrev pub insert_rule : Ranked → List Ranked → List Ranked
insert_rule r [] = r ∷ []
insert_rule r (s ∷ rest) = if rule_le r s then r ∷ s ∷ rest else s ∷ insert_rule r rest

abbrev pub sort_rules : List Ranked → List Ranked
sort_rules [] = []
sort_rules (r ∷ rest) = insert_rule r (sort_rules rest)

-- The key of a rule raises if its condition has no specificity.
abbrev pub ranked : RoutingRuleVersion → Result RoutingError Ranked
ranked rule = specificity rule.condition >>= λ n. ok (record { rank = n; rule = rule })

abbrev pub default_rules : List RoutingRuleVersion → List RoutingRuleVersion
default_rules [] = []
default_rules (r ∷ rest) =
    let others = default_rules rest in if is_unconditional r.condition then r ∷ others else others

-- The rules that are not in the defaults: rules that are equal have equal conditions.
abbrev pub conditional_rules : List RoutingRuleVersion → List RoutingRuleVersion
conditional_rules [] = []
conditional_rules (r ∷ rest) =
    let others = conditional_rules rest in
    if is_unconditional r.condition then others else r ∷ others

abbrev pub has_two_versions : List RoutingRuleVersion → Bool
has_two_versions [] = false
has_two_versions (r ∷ rest) =
    any (λ s. r.routing_rule_id == s.routing_rule_id) rest || has_two_versions rest

-- An entry of `evaluated_rules`.
pub record Evaluated : Type 0 where
  pub evaluated_version_id : ℕ
  pub matched : Bool
  pub is_default : Bool

-- A rule, whether it is the default, and the rules that were asked.
pub record Route : Type 0 where
  pub chosen : RoutingRuleVersion
  pub fallback : Bool
  pub evaluated_rules : List Evaluated

abbrev pub entry : RoutingRuleVersion → Bool → Bool → Evaluated
entry r matched is_default = record {
  evaluated_version_id = r.routing_rule_version_id;
  matched = matched;
  is_default = is_default;
}

-- `InvalidRule` is caught, `TypeError` is not.
abbrev pub decided : Result RuleError Bool → Result RoutingError Bool
decided (ok b) = ok b
decided (err invalid_rule) = err routing_configuration
decided (err type_error) = err uncaught_type_error

abbrev pub after_no_match : Evaluated → Route → Route
after_no_match e route = record route { evaluated_rules = e ∷ route.evaluated_rules }

-- The loop over the candidates, and the default after it.
abbrev pub first_match : RoutingRuleVersion → Values → List Ranked → Result RoutingError Route
first_match default values [] =
    ok
      (record { chosen = default; fallback = true; evaluated_rules = entry default true true ∷ [] })
first_match default values (r ∷ rest) =
    let others = first_match default values rest in
    decided (evaluate r.rule.condition values) >>= λ matched.
    if matched
    then ok (record {
      chosen = r.rule;
      fallback = false;
      evaluated_rules = entry r.rule true false ∷ [];
    })
    else others >>= λ route. ok (after_no_match (entry r.rule false false) route)

-- `values[key] = value` and `values.setdefault(key, value)`
abbrev pub set_value : String → Value → Values → Values
set_value key value [] = (key, value) ∷ []
set_value key value ((k, v) ∷ rest) =
    if text_eq k key then (k, value) ∷ rest else (k, v) ∷ set_value key value rest

abbrev pub default_value : String → Value → Values → Values
default_value key value [] = (key, value) ∷ []
default_value key value ((k, v) ∷ rest) =
    if text_eq k key then (k, v) ∷ rest else (k, v) ∷ default_value key value rest

abbrev pub add_custom : Values → Values → Values
add_custom values [] = values
add_custom values ((code, v) ∷ rest) =
    add_custom (default_value code v (set_value (append_text "field." code) v values)) rest

-- `_routing_values`
unfoldable pub routing_values : RoutingTicket → Values
routing_values t =
    add_custom
      (("project_id", str t.project_id)
        ∷ ("project_code", str t.project_code)
        ∷ ("service_node_id", text_or_null t.service_node_id)
        ∷ ("service_node_code", text_or_null t.service_node_code)
        ∷ ("service_code", text_or_null t.service_code)
        ∷ ("module_code", text_or_null t.module_code)
        ∷ ("environment_code", text_or_null t.environment_code)
        ∷ ("work_type_code", str t.work_type_code)
        ∷ ("priority_code", str t.priority_code)
        ∷ ("status_code", str t.status_code)
        ∷ ("summary", str t.summary)
        ∷ ("description", text_or_null t.description)
        ∷ [])
      t.custom_fields

abbrev pub with_default :
    List RoutingRuleVersion → Values → List RoutingRuleVersion → Result RoutingError Route
with_default versions values (default ∷ []) =
    map_result ranked (conditional_rules versions) >>= λ candidates.
    first_match default values (sort_rules candidates)
with_default versions values _ = err routing_configuration

-- `_select_rule`
unfoldable pub select_rule : List RoutingRuleVersion → RoutingTicket → Result RoutingError Route
unfolding routing_values
select_rule versions ticket =
    if has_two_versions versions
    then err routing_configuration
    else with_default versions (routing_values ticket) (default_rules versions)
