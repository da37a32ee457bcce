-- ===== src/Rules/Faults.antt =====
-- What `evaluate` raises on the JSON form of a rule, and when.
use helpdesk_agent.Prelude.{
  String, Bool, true, false, Option, none, some, ◌≡◌, ◌↔◌, ◌⊎◌, inl, inr, refl, Result, ok, err,
  Option-cases,
}
use helpdesk_agent.Rules.Value.{Value, str, arr}
use helpdesk_agent.Rules.Evaluate.{
  RuleError, invalid_rule, type_error, Operator, equals, contains, Values, get_value, apply,
  and_then, or_else, evaluate, evaluate_all, evaluate_any, evaluate_leaf, contains_value,
}
use helpdesk_agent.Rules.Meaning.{
  Rule, always, every, some_of, test, Rules, done, also, encode, encode_items,
  operator_of-operator_name, IsText,
}

-- A test is at fault when its field has no value, which is an invalid rule, or when it asks whether a
-- text contains what is no text, which Python does not take.
abbrev pub IsAtFault : RuleError → Operator → Value → Option Value → Type 0
IsAtFault e op v none = e ≡ invalid_rule
IsAtFault e op v (some a) = (e ≡ type_error) × (op ≡ contains) × IsText a × (IsText v → ⊥)

-- The test at fault is one that is reached: all parts before it hold in a conjunction, and none does in
-- a disjunction.
unfoldable mutual
  pub Fails : RuleError → Rule → Values → Type 0
  Fails e always values = ⊥
  Fails e (every rs) values = FailsEvery e rs values
  Fails e (some_of rs) values = FailsSome e rs values
  Fails e (test name op v) values = IsAtFault e op v (get_value name values)

  pub FailsEvery : RuleError → Rules → Values → Type 0
  FailsEvery e done values = ⊥
  FailsEvery e (also r rs) values =
      Fails e r values ⊎ ((evaluate (encode r) values ≡ ok true) × FailsEvery e rs values)

  pub FailsSome : RuleError → Rules → Values → Type 0
  FailsSome e done values = ⊥
  FailsSome e (also r rs) values =
      Fails e r values ⊎ ((evaluate (encode r) values ≡ ok false) × FailsSome e rs values)

abbrev Raises : Result RuleError Bool → RuleError → Type 0
Raises r e = r ≡ err e

no_text :
    (e : RuleError) (v : Value) (s : String)
    → (IsText v → ⊥)
    → ◌≡◌ {A = Result RuleError Bool} (err type_error) (err e)
      ↔ IsAtFault e contains v (some (str s))
no_text e v s not_text = ((λ h. (cc, refl, tt, not_text)), (λ f. cc))

contains-Raises :
    (e : RuleError) (a v : Value) → Raises (contains_value a v) e ↔ IsAtFault e contains v (some a)
unfolding contains_value
contains-Raises e (str s) (str t) = ((λ h. cc), (λ f. absurd (f.3 tt)))
contains-Raises e (str s) v = no_text e v s (λ t. t)
contains-Raises e (arr xs) v = ((λ h. cc), (λ f. absurd f.2))
contains-Raises e _ v = ((λ h. cc), (λ f. absurd f.2))

apply-Raises :
    (e : RuleError) (op : Operator) (a v : Value)
    → Raises (apply op a v) e ↔ IsAtFault e op v (some a)
unfolding apply
apply-Raises e contains a v = contains-Raises e a v
apply-Raises e equals a v = ((λ h. cc), (λ f. cc))
apply-Raises e _ a v = ((λ h. cc), (λ f. cc))

and_then-Raises :
    (e : RuleError) (r rest : Result RuleError Bool)
    → Raises (and_then r rest) e ↔ (Raises r e ⊎ ((r ≡ ok true) × Raises rest e))
and_then-Raises e (ok true) rest =
    ((λ h. inr (refl, h)), (λ f. elim f [ inl p ↦ cc | inr p ↦ p.1 ]))
and_then-Raises e (ok false) rest = ((λ h. cc), (λ f. elim f [ inl p ↦ cc | inr p ↦ cc ]))
and_then-Raises e (err x) rest = ((λ h. inl h), (λ f. elim f [ inl p ↦ p | inr p ↦ cc ]))

or_else-Raises :
    (e : RuleError) (r rest : Result RuleError Bool)
    → Raises (or_else r rest) e ↔ (Raises r e ⊎ ((r ≡ ok false) × Raises rest e))
or_else-Raises e (ok true) rest = ((λ h. cc), (λ f. elim f [ inl p ↦ cc | inr p ↦ cc ]))
or_else-Raises e (ok false) rest =
    ((λ h. inr (refl, h)), (λ f. elim f [ inl p ↦ cc | inr p ↦ p.1 ]))
or_else-Raises e (err x) rest = ((λ h. inl h), (λ f. elim f [ inl p ↦ p | inr p ↦ cc ]))

test-Raises :
    (e : RuleError) (name : String) (op : Operator) (v : Value) (values : Values)
    → Raises (evaluate (encode (test name op v)) values) e ↔ Fails e (test name op v) values
unfolding evaluate encode Fails evaluate_leaf
test-Raises e name op v values = elim (Option-cases (get_value name values)) [
  | inl missing ↦ rw (operator_of-operator_name op, missing) ((λ h. cc), (λ f. cc))
  | inr (a, found) ↦ rw (operator_of-operator_name op, found) (apply-Raises e op a v)
]

-- One of two parts of a rule fails, in other words.
parts : {P P' Q Q' R : Type 0} → P ↔ P' → Q ↔ Q' → (P ⊎ (R × Q)) ↔ (P' ⊎ (R × Q'))
parts f g = (
  λ h. elim h [ inl p ↦ inl (f.0 p) | inr (r, q) ↦ inr (r, g.0 q) ],
  λ h. elim h [ inl p ↦ inl (f.1 p) | inr (r, q) ↦ inr (r, g.1 q) ],
)

both_ways : {P Q R : Type 0} → P ↔ Q → Q ↔ R → P ↔ R
both_ways f g = (λ p. g.0 (f.0 p), λ r. f.1 (g.1 r))

mutual
  unfolding evaluate encode Fails

  rule-Raises :
      (e : RuleError) (r : Rule) (values : Values)
      → Raises (evaluate (encode r) values) e ↔ Fails e r values
  rule-Raises e always values = ((λ h. cc), (λ f. absurd f))
  rule-Raises e (every rs) values = every-Raises e rs values
  rule-Raises e (some_of rs) values = some-Raises e rs values
  rule-Raises e (test name op v) values = test-Raises e name op v values

  every-Raises :
      (e : RuleError) (rs : Rules) (values : Values)
      → Raises (evaluate_all (encode_items rs) values) e ↔ FailsEvery e rs values
  every-Raises e done values = ((λ h. cc), (λ f. absurd f))
  every-Raises e (also r rs) values =
      both_ways
        (and_then-Raises e (evaluate (encode r) values) (evaluate_all (encode_items rs) values))
        (parts (rule-Raises e r values) (every-Raises e rs values))

  some-Raises :
      (e : RuleError) (rs : Rules) (values : Values)
      → Raises (evaluate_any (encode_items rs) values) e ↔ FailsSome e rs values
  some-Raises e done values = ((λ h. cc), (λ f. absurd f))
  some-Raises e (also r rs) values =
      both_ways
        (or_else-Raises e (evaluate (encode r) values) (evaluate_any (encode_items rs) values))
        (parts (rule-Raises e r values) (some-Raises e rs values))

-- On the JSON form of any rule the evaluator raises an error exactly when a test that is reached is at
-- fault: `InvalidRule` for a field without a value, and `TypeError` where it is asked whether a text
-- contains what is no text.
pub evaluate-Fails :
    (e : RuleError) (r : Rule) (values : Values)
    → (evaluate (encode r) values ≡ err e) ↔ Fails e r values
evaluate-Fails e r values = rule-Raises e r values
