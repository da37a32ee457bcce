-- ===== src/Rules/Tests.antt =====
-- Rules at concrete inputs.
use helpdesk_agent.Prelude.{◌≡◌, ◌↔◌, inl, inr, refl, true, [], ◌∷◌, ok, err}
use helpdesk_agent.Prelude.Int.{pos}
use helpdesk_agent.Rules.Value.{null, boolean, number, str, arr, nil, cons, equal}
use helpdesk_agent.Rules.Evaluate.{
  Values, equals, in_list, contains, greater_than, type_error, invalid_rule, evaluate,
}
use helpdesk_agent.Rules.Meaning.{
  Rule, every, some_of, test, done, also, encode, meaning, Fits, evaluate-encode,
}
use helpdesk_agent.Rules.Faults.{Fails, evaluate-Fails}

abbrev ticket_values : Values
ticket_values =
    ("priority_code", str "P1") ∷ ("summary", str "payroll outage") ∷ ("count", number (pos 3)) ∷ []

-- P1, and about payroll or more than five.
abbrev urgent : Rule
urgent = every (
    also (test "priority_code" in_list (arr (cons (str "P1") (cons (str "P2") nil)))) (
      also
        (some_of (
          also (test "summary" contains (str "payroll"))
            (also (test "count" greater_than (number (pos 5))) done)))
        done))

urgent_holds : evaluate (encode urgent) ticket_values ≡ ok true
unfolding evaluate encode equal
urgent_holds = refl

urgent-Fits : Fits urgent ticket_values
unfolding Fits
urgent-Fits = (
  (str "P1", refl, tt),
  (((str "payroll outage", refl, tt), ((number (pos 3), refl, tt), tt)), tt),
)

evaluate-encode_example : evaluate (encode urgent) ticket_values ≡ ok (meaning urgent ticket_values)
evaluate-encode_example = evaluate-encode urgent ticket_values urgent-Fits

-- The summary is asked whether it contains a number, once the priority has been found to be P1.
abbrev number_in_text : Rule
number_in_text = every (
    also (test "priority_code" equals (str "P1"))
      (also (test "summary" contains (number (pos 5))) done))

evaluate-Fails_example :
    (evaluate (encode number_in_text) ticket_values ≡ err type_error)
    ↔ Fails type_error number_in_text ticket_values
evaluate-Fails_example = evaluate-Fails type_error number_in_text ticket_values

number_in_text-raises : evaluate (encode number_in_text) ticket_values ≡ err type_error
unfolding Fails evaluate encode equal
number_in_text-raises = evaluate-Fails_example.1 (inr (refl, inl (refl, refl, tt, λ t. t)))

unknown_field : evaluate (encode (test "missing" equals null)) ticket_values ≡ err invalid_rule
unfolding evaluate encode
unknown_field = refl

true_is_one : equal (boolean true) (number (pos 1)) ≡ true
unfolding equal
true_is_one = refl
