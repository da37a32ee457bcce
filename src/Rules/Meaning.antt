-- ===== src/Rules/Meaning.antt =====
-- The rule language, apart from its JSON form: what the evaluator promises for it.
use Prim.Native.Nat.{Ordering}
use package.text.Mathlib.Text.{starts_with, find?}
use helpdesk_agent.Prelude.{
  String, Bool, true, false, not, ◌&&◌, ◌||◌, Option, none, some, ◌≡◌, refl, arith, ok, ap,
}
use helpdesk_agent.Rules.Value.{
  Value, null, str, arr, obj, Items, nil, cons, end, field, equal, order, member,
}
use helpdesk_agent.Rules.Evaluate.{
  Operator, equals, not_equals, in_list, not_in, is_null, is_not_null, contains, has_prefix,
  greater_than, greater_than_or_equal, less_than, less_than_or_equal, operator_name, operator_of,
  Values, get_value, apply, and_then, or_else, evaluate, evaluate_all, evaluate_any, evaluate_leaf,
  contains_value, in_value, not_in_value, is_null_value, has_prefix_value, compared,
}

mutual
  pub data Rule : Type 0 where
    always : Rule
    every : Rules → Rule
    some_of : Rules → Rule
    test : String → Operator → Value → Rule

  pub data Rules : Type 0 where
    done : Rules
    also : Rule → Rules → Rules

-- The JSON form in which rules are stored.
unfoldable mutual
  pub encode : Rule → Value
  encode always = obj end
  encode (every rs) = obj (field "all" (arr (encode_items rs)) end)
  encode (some_of rs) = obj (field "any" (arr (encode_items rs)) end)
  encode (test name op v) =
      obj
        (field "field" (str name) (field "operator" (str (operator_name op)) (field "value" v end)))

  pub encode_items : Rules → Items
  encode_items done = nil
  encode_items (also r rs) = cons (encode r) (encode_items rs)

-- The truth of a comparison, for values that Python can order.
abbrev pub ordered : Operator → Ordering → Bool
ordered greater_than Ordering.gt = true
ordered greater_than_or_equal Ordering.lt = false
ordered greater_than_or_equal _ = true
ordered less_than Ordering.lt = true
ordered less_than_or_equal Ordering.gt = false
ordered less_than_or_equal _ = true
ordered _ _ = false

abbrev pub comparable : Operator → Option Ordering → Bool
comparable op none = false
comparable op (some o) = ordered op o

abbrev pub mentions : Value → Value → Bool
mentions (arr xs) v = member v xs
mentions (str s) (str t) = elim (find? s t) [ none ↦ false | some _ ↦ true ]
mentions _ _ = false

abbrev pub listed : Value → Option Items
listed (arr xs) = some xs
listed _ = none

abbrev pub nothing : Value → Bool
nothing null = true
nothing _ = false

abbrev pub begins : Value → Value → Bool
begins (str s) (str t) = starts_with s t
begins _ _ = false

-- What a test says of the field's value.
abbrev pub says : Operator → Value → Value → Bool
says equals a v = equal a v
says not_equals a v = not (equal a v)
says in_list a v = elim (listed v) [ none ↦ false | some xs ↦ member a xs ]
says not_in a v = elim (listed v) [ none ↦ false | some xs ↦ not (member a xs) ]
says is_null a v = nothing a
says is_not_null a v = not (nothing a)
says contains a v = mentions a v
says has_prefix a v = begins a v
says op a v = comparable op (order a v)

abbrev pub says_found : Operator → Value → Option Value → Bool
says_found op v none = false
says_found op v (some a) = says op a v

-- A rule is true or false, whatever the order in which its parts are looked at.
unfoldable mutual
  pub meaning : Rule → Values → Bool
  meaning always values = true
  meaning (every rs) values = every_one rs values
  meaning (some_of rs) values = some_one rs values
  meaning (test name op v) values = says_found op v (get_value name values)

  pub every_one : Rules → Values → Bool
  every_one done values = true
  every_one (also r rs) values = every_one rs values && meaning r values

  pub some_one : Rules → Values → Bool
  some_one done values = false
  some_one (also r rs) values = some_one rs values || meaning r values

abbrev pub IsText : Value → Type 0
IsText (str s) = Unit
IsText _ = ⊥

-- `contains` asks of a text only a text.
abbrev pub Askable : Operator → Value → Value → Type 0
Askable contains (str s) v = IsText v
Askable _ _ _ = Unit

-- Every field that the rule names has a value, of which the rule's operator may ask.
unfoldable mutual
  pub Fits : Rule → Values → Type 0
  Fits always values = Unit
  Fits (every rs) values = Fit rs values
  Fits (some_of rs) values = Fit rs values
  Fits (test name op v) values = (a : Value) × (get_value name values ≡ some a) × Askable op a v

  pub Fit : Rules → Values → Type 0
  Fit done values = Unit
  Fit (also r rs) values = Fits r values × Fit rs values

pub operator_of-operator_name : (op : Operator) → operator_of (operator_name op) ≡ some op
operator_of-operator_name equals = refl
operator_of-operator_name _ = refl

contains_says : (a v : Value) → Askable contains a v → contains_value a v ≡ ok (mentions a v)
unfolding contains_value
contains_says (str s) (str t) h = ground arith
contains_says (str s) null h = absurd h
contains_says (str s) _ h = absurd h
contains_says null v h = refl
contains_says _ v h = refl

in_says : (a v : Value) → in_value a v ≡ says in_list a v
unfolding in_value
in_says a (arr xs) = refl
in_says a _ = refl

not_in_says : (a v : Value) → not_in_value a v ≡ says not_in a v
unfolding not_in_value
not_in_says a (arr xs) = refl
not_in_says a _ = refl

null_says : (a : Value) → is_null_value a ≡ nothing a
unfolding is_null_value
null_says null = refl
null_says _ = refl

prefix_says : (a v : Value) → has_prefix_value a v ≡ begins a v
unfolding has_prefix_value
prefix_says (str s) (str t) = refl
prefix_says (str s) _ = refl
prefix_says _ v = refl

compared_says : (op : Operator) (o : Option Ordering) → compared op o ≡ comparable op o
compared_says equals o = ground arith
compared_says _ o = ground arith

pub apply-says : (op : Operator) (a v : Value) → Askable op a v → apply op a v ≡ ok (says op a v)
unfolding apply
apply-says equals a v h = refl
apply-says not_equals a v h = refl
apply-says in_list a v h = ap ok (in_says a v)
apply-says not_in a v h = ap ok (not_in_says a v)
apply-says is_null a v h = ap ok (null_says a)
apply-says is_not_null a v h = ap (λ b. ok (not b)) (null_says a)
apply-says contains a v h = contains_says a v h
apply-says has_prefix a v h = ap ok (prefix_says a v)
apply-says op a v h = ap ok (compared_says op (order a v))

and_commutes : (b c : Bool) → and_then (ok b) (ok c) ≡ ok (c && b)
and_commutes b c = ground arith

or_commutes : (b c : Bool) → or_else (ok b) (ok c) ≡ ok (c || b)
or_commutes b c = ground arith

test_says :
    (name : String) (op : Operator) (v : Value) (values : Values)
    → Fits (test name op v) values
    → evaluate (encode (test name op v)) values ≡ ok (meaning (test name op v) values)
unfolding evaluate encode meaning Fits evaluate_leaf
test_says name op v values (a, e, h) = rw (operator_of-operator_name op, e) (apply-says op a v h)

mutual
  unfolding evaluate encode meaning Fits evaluate_leaf

  evaluate_rule :
      (r : Rule) (values : Values)
      → Fits r values
      → evaluate (encode r) values ≡ ok (meaning r values)
  evaluate_rule always values h = refl
  evaluate_rule (every rs) values h = evaluate_every rs values h
  evaluate_rule (some_of rs) values h = evaluate_some rs values h
  evaluate_rule (test name op v) values h = test_says name op v values h

  evaluate_every :
      (rs : Rules) (values : Values)
      → Fit rs values
      → evaluate_all (encode_items rs) values ≡ ok (every_one rs values)
  evaluate_every done values h = refl
  evaluate_every (also r rs) values h =
      rw (evaluate_rule r values h.0, evaluate_every rs values h.1)
        (and_commutes (meaning r values) (every_one rs values))

  evaluate_some :
      (rs : Rules) (values : Values)
      → Fit rs values
      → evaluate_any (encode_items rs) values ≡ ok (some_one rs values)
  evaluate_some done values h = refl
  evaluate_some (also r rs) values h =
      rw (evaluate_rule r values h.0, evaluate_some rs values h.1)
        (or_commutes (meaning r values) (some_one rs values))

-- The evaluator, on the JSON form of any rule whose fields all have values (and whose `contains`
-- asks of a text only a text), raises nothing and returns the rule's meaning.
pub evaluate-encode :
    (r : Rule) (values : Values)
    → Fits r values
    → evaluate (encode r) values ≡ ok (meaning r values)
evaluate-encode r values h = evaluate_rule r values h
