-- ===== src/Sla/Goals.antt =====
-- The goal of a ticket and the pausing statuses of a definition: `_select_goal`, `_goal_matches`,
-- `_rule_fields` and `_pause_statuses` of apps/api/app/sla/service.py.
pub mod Choice
use package.text.Mathlib.Text.{◌==◌ as text_eq}
use helpdesk_agent.Prelude.{
  ℕ, String, Bool, true, false, ◌&&◌, ◌||◌, Option, none, some, List, [], ◌∷◌, ◌++◌, ltb, leb, ◌==◌,
  if◌then◌else◌, Result, ok, err, ◌>>=◌, any, all,
}
use helpdesk_agent.Rules.Value.{
  Value, null, boolean, number, str, foreign, arr, obj, Items, nil, cons, Fields, end, field,
  get_field,
}
use helpdesk_agent.Rules.Evaluate.{RuleError, invalid_rule, type_error, Values, evaluate}
use helpdesk_agent.Sla.Models.{SlaDefinitionVersion, SlaGoalVersion, TicketFacts, rule_values}
use helpdesk_agent.Sla.Calendar.Zones.{CalendarError}

pub data SlaError : Type 0 where
  configuration_error unsupported_event concurrent_update rule_type_error : SlaError
  calendar_error : CalendarError → SlaError

abbrev goal_fields : List String
goal_fields = "priority_code" ∷ "service_node_id" ∷ "work_type_code" ∷ []

abbrev is_goal_field : String → Bool
is_goal_field name = any (λ f. text_eq f name) goal_fields

abbrev pub only_goal_fields : Fields → Bool
only_goal_fields end = true
only_goal_fields (field k v rest) = is_goal_field k && only_goal_fields rest

-- `str` of Python for a value that is no text is the parameter.
abbrev pub text_of : (Value → String) → Value → String
text_of python_str (str s) = s
text_of python_str v = python_str v

-- `values[field] == expected`, for a field that is there
abbrev value_is : Option Value → String → Bool
value_is (some (str s)) expected = text_eq s expected
value_is _ expected = false

abbrev find_value : String → Values → Option Value
find_value key [] = none
find_value key ((k, v) ∷ rest) = if text_eq k key then some v else find_value key rest

abbrev pub fields_match : (Value → String) → Values → Fields → Bool
fields_match python_str values end = true
fields_match python_str values (field k v rest) =
    value_is (find_value k values) (text_of python_str v) && fields_match python_str values rest

abbrev own_field : (Value → String) → Option Value → List String
own_field python_str none = []
own_field python_str (some v) = text_of python_str v ∷ []

-- `_rule_fields`, as a list that stands for the set
unfoldable mutual
  pub rule_fields : (Value → String) → Value → List String
  rule_fields python_str (obj fs) =
      own_field python_str (get_field "field" fs) ++ rule_fields_of_fields python_str fs
  rule_fields python_str (arr xs) = rule_fields_of_items python_str xs
  rule_fields python_str _ = []

  pub rule_fields_of_items : (Value → String) → Items → List String
  rule_fields_of_items python_str nil = []
  rule_fields_of_items python_str (cons v rest) =
      rule_fields python_str v ++ rule_fields_of_items python_str rest

  pub rule_fields_of_fields : (Value → String) → Fields → List String
  rule_fields_of_fields python_str end = []
  rule_fields_of_fields python_str (field k v rest) =
      rule_fields python_str v ++ rule_fields_of_fields python_str rest

abbrev pub lift_rule : Result RuleError Bool → Result SlaError Bool
lift_rule (ok b) = ok b
lift_rule (err invalid_rule) = err configuration_error
lift_rule (err type_error) = err rule_type_error

unfoldable pub goal_matches : (Value → String) → Value → Values → Result SlaError Bool
goal_matches python_str null values = ok true
goal_matches python_str (obj end) values = ok true
goal_matches python_str (obj (field k v fs)) values =
    if only_goal_fields (field k v fs)
    then ok (fields_match python_str values (field k v fs))
    else if all is_goal_field (rule_fields python_str (obj (field k v fs)))
    then lift_rule (evaluate (obj (field k v fs)) values)
    else err configuration_error
goal_matches python_str _ values = err configuration_error

-- The comprehension over the goals; the first exception ends it.
pub matching_goals :
    (Value → String) → Values → List SlaGoalVersion → Result SlaError (List SlaGoalVersion)
matching_goals python_str values [] = ok []
matching_goals python_str values (goal ∷ rest) =
    goal_matches python_str goal.match_conditions values >>= λ matched.
    matching_goals python_str values rest >>= λ others.
    ok (if matched then goal ∷ others else others)

-- The sort key `(priority_order, str(sla_goal_id))`
abbrev pub goal_le : SlaGoalVersion → SlaGoalVersion → Bool
goal_le g h =
    ltb g.priority_order h.priority_order
    || (g.priority_order == h.priority_order && leb g.sla_goal_id h.sla_goal_id)

abbrev pub insert_goal : SlaGoalVersion → List SlaGoalVersion → List SlaGoalVersion
insert_goal g [] = g ∷ []
insert_goal g (h ∷ rest) = if goal_le g h then g ∷ h ∷ rest else h ∷ insert_goal g rest

abbrev pub sort_goals : List SlaGoalVersion → List SlaGoalVersion
sort_goals [] = []
sort_goals (g ∷ rest) = insert_goal g (sort_goals rest)

-- The first of the sorted candidates, unless the second has its priority.
abbrev pub first_goal : List SlaGoalVersion → Result SlaError SlaGoalVersion
first_goal [] = err configuration_error
first_goal (g ∷ []) = ok g
first_goal (g ∷ h ∷ _) =
    if g.priority_order == h.priority_order then err configuration_error else ok g

unfoldable pub select_goal :
    (Value → String) → List SlaGoalVersion → TicketFacts → Result SlaError SlaGoalVersion
unfolding matching_goals
select_goal python_str goals ticket =
    matching_goals python_str (rule_values ticket) goals >>= λ candidates.
    first_goal (sort_goals candidates)

-- One pause condition: an object with a non-empty `status_code` and nothing else.
abbrev pub pause_status : Value → Result SlaError String
pause_status (obj (field k (str status) end)) =
    if text_eq k "status_code"
    then (if text_eq status "" then err configuration_error else ok status)
    else err configuration_error
pause_status _ = err configuration_error

abbrev pub pause_statuses_of : Items → Result SlaError (List String)
pause_statuses_of nil = ok []
pause_statuses_of (cons condition rest) =
    pause_status condition >>= λ status. pause_statuses_of rest >>= λ others. ok (status ∷ others)

unfoldable pub pause_statuses : Value → Result SlaError (List String)
pause_statuses null = ok []
pause_statuses (obj end) = ok []
pause_statuses (arr conditions) = pause_statuses_of conditions
pause_statuses _ = err configuration_error
