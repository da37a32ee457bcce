-- ===== src/Rules/Evaluate.antt =====
-- `evaluate` of core/rules.py.
use Prim.Native.Nat.{Ordering}
use text.Mathlib.Text.{◌==◌ as text_eq, starts_with, find?}
use helpdesk_agent.Prelude.{
  String, Bool, true, false, not, ◌&&◌, ◌||◌, Option, none, some, List, [], ◌∷◌, if◌then◌else◌,
  Result, ok, err,
}
use helpdesk_agent.Rules.Value.{
  Value, null, str, arr, obj, Items, nil, cons, Fields, end, field, get_field, equal, order, member,
}

pub data RuleError : Type 0 where
  invalid_rule type_error : RuleError

pub data Operator : Type 0 where
  equals not_equals in_list not_in is_null is_not_null contains has_prefix : Operator
  greater_than greater_than_or_equal less_than less_than_or_equal : Operator

-- `_OPERATORS`
abbrev pub operator_name : Operator → String
operator_name equals = "equals"
operator_name not_equals = "not_equals"
operator_name in_list = "in"
operator_name not_in = "not_in"
operator_name is_null = "is_null"
operator_name is_not_null = "is_not_null"
operator_name contains = "contains"
operator_name has_prefix = "starts_with"
operator_name greater_than = "greater_than"
operator_name greater_than_or_equal = "greater_than_or_equal"
operator_name less_than = "less_than"
operator_name less_than_or_equal = "less_than_or_equal"

abbrev pub operators : List Operator
operators =
    equals ∷ not_equals ∷ in_list ∷ not_in ∷ is_null ∷ is_not_null ∷ contains ∷ has_prefix
    ∷ greater_than ∷ greater_than_or_equal ∷ less_than ∷ less_than_or_equal ∷ []

abbrev find_operator : String → List Operator → Option Operator
find_operator name [] = none
find_operator name (o ∷ rest) =
    if text_eq (operator_name o) name then some o else find_operator name rest

abbrev pub operator_of : String → Option Operator
operator_of name = find_operator name operators

-- The mapping of field names to values.
abbrev pub Values : Type 0
Values = List (String × Value)

abbrev pub get_value : String → Values → Option Value
get_value key [] = none
get_value key ((k, v) ∷ rest) = if text_eq k key then some v else get_value key rest

abbrev is_found : {A : Type 0} → Option A → Bool
is_found none = false
is_found (some _) = true

-- `expected in actual`: of a text, only a text can be asked.
unfoldable pub contains_value : Value → Value → Result RuleError Bool
contains_value (str s) (str t) = ok (is_found (find? s t))
contains_value (str s) _ = err type_error
contains_value (arr xs) v = ok (member v xs)
contains_value _ v = ok false

unfoldable pub in_value : Value → Value → Bool
in_value actual (arr xs) = member actual xs
in_value actual _ = false

unfoldable pub not_in_value : Value → Value → Bool
not_in_value actual (arr xs) = not (member actual xs)
not_in_value actual _ = false

unfoldable pub has_prefix_value : Value → Value → Bool
has_prefix_value (str s) (str t) = starts_with s t
has_prefix_value _ _ = false

unfoldable pub is_null_value : Value → Bool
is_null_value null = true
is_null_value _ = false

-- A comparison that raises `TypeError` is false.
abbrev pub compared : Operator → Option Ordering → Bool
compared _ none = false
compared greater_than (some Ordering.gt) = true
compared greater_than_or_equal (some Ordering.gt) = true
compared greater_than_or_equal (some Ordering.eq) = true
compared less_than (some Ordering.lt) = true
compared less_than_or_equal (some Ordering.lt) = true
compared less_than_or_equal (some Ordering.eq) = true
compared _ (some _) = false

unfoldable pub apply : Operator → Value → Value → Result RuleError Bool
unfolding contains_value in_value not_in_value has_prefix_value is_null_value
apply is_null actual expected = ok (is_null_value actual)
apply is_not_null actual expected = ok (not (is_null_value actual))
apply equals actual expected = ok (equal actual expected)
apply not_equals actual expected = ok (not (equal actual expected))
apply in_list actual expected = ok (in_value actual expected)
apply not_in actual expected = ok (not_in_value actual expected)
apply contains actual expected = contains_value actual expected
apply has_prefix actual expected = ok (has_prefix_value actual expected)
apply greater_than actual expected = ok (compared greater_than (order actual expected))
apply greater_than_or_equal actual expected =
    ok (compared greater_than_or_equal (order actual expected))
apply less_than actual expected = ok (compared less_than (order actual expected))
apply less_than_or_equal actual expected = ok (compared less_than_or_equal (order actual expected))

-- `rule.get("value")`
abbrev or_null : Option Value → Value
or_null none = null
or_null (some v) = v

abbrev pub leaf_key : String → Bool
leaf_key k = text_eq k "field" || (text_eq k "operator" || text_eq k "value")

abbrev pub leaf_keys : Fields → Bool
leaf_keys end = true
leaf_keys (field k v rest) = leaf_key k && leaf_keys rest

abbrev apply_found : Option Operator → Option Value → Value → Result RuleError Bool
apply_found none actual expected = err invalid_rule
apply_found (some o) none expected = err invalid_rule
apply_found (some o) (some actual) expected = apply o actual expected

-- The tests on `field` and `operator`: an operator that cannot be hashed raises `TypeError`.
unfoldable pub evaluate_leaf : Option Value → Option Value → Value → Values → Result RuleError Bool
unfolding apply
evaluate_leaf (some (str name)) (some (str op)) expected values =
    apply_found (operator_of op) (get_value name values) expected
evaluate_leaf (some (str name)) (some (arr _)) expected values = err type_error
evaluate_leaf (some (str name)) (some (obj _)) expected values = err type_error
evaluate_leaf _ _ expected values = err invalid_rule

abbrev pub leaf : Fields → Values → Result RuleError Bool
leaf fs values =
    if leaf_keys fs
    then evaluate_leaf (get_field "field" fs) (get_field "operator" fs)
        (or_null (get_field "value" fs)) values
    else err invalid_rule

-- `all` and `any` stop at the first item that decides; what raises before it is raised.
abbrev pub and_then : Result RuleError Bool → Result RuleError Bool → Result RuleError Bool
and_then (ok true) rest = rest
and_then (ok false) rest = ok false
and_then (err e) rest = err e

abbrev pub or_else : Result RuleError Bool → Result RuleError Bool → Result RuleError Bool
or_else (ok true) rest = ok true
or_else (ok false) rest = rest
or_else (err e) rest = err e

unfoldable mutual
  unfolding evaluate_leaf

  pub evaluate : Value → Values → Result RuleError Bool
  evaluate null values = ok true
  evaluate (arr items) values = evaluate_all items values
  evaluate (obj fs) values = evaluate_object fs values
  evaluate _ values = err invalid_rule

  pub evaluate_all : Items → Values → Result RuleError Bool
  evaluate_all nil values = ok true
  evaluate_all (cons rule rest) values = and_then (evaluate rule values) (evaluate_all rest values)

  pub evaluate_any : Items → Values → Result RuleError Bool
  evaluate_any nil values = ok false
  evaluate_any (cons rule rest) values = or_else (evaluate rule values) (evaluate_any rest values)

  pub evaluate_object : Fields → Values → Result RuleError Bool
  evaluate_object end values = ok true
  evaluate_object (field k (arr items) end) values =
      let every = evaluate_all items values in
      let some_of = evaluate_any items values in
      if text_eq k "all"
      then every
      else if text_eq k "any"
      then some_of
      else leaf (field k (arr items) end) values
  evaluate_object fs values = leaf fs values
