-- ===== src/Workflows/Guard.antt =====
-- The checks of `WorkflowService` of apps/api/app/workflows/service.py: what a transition asks for and
-- what it sets.
use package.text.Mathlib.Text.{◌==◌ as text_eq}
use helpdesk_agent.Prelude.{
  ℕ, String, Bool, true, false, Option, none, some, List, [], ◌∷◌, ◌++◌, ◌==◌, any, if◌then◌else◌,
  Result, ok, err, ◌>>=◌,
}
use helpdesk_agent.Prelude.Int.{pos}
use helpdesk_agent.Rules.Value.{
  Value, null, number, str, foreign, arr, obj, Items, nil, cons, get_field, count_fields,
}
use helpdesk_agent.Rules.Evaluate.{Values, get_value, RuleError, invalid_rule, type_error}
use helpdesk_agent.Desk.{DeskError, configuration_conflict, validation_failed, uncaught}
use helpdesk_agent.Workflows.Models.{WorkflowTicket}

abbrev pub editable_fields : List String
editable_fields = "resolution_code" ∷ "resolution_summary" ∷ []

abbrev pub timestamp_fields : List String
timestamp_fields = "first_response_at" ∷ "resolved_at" ∷ "closed_at" ∷ []

abbrev pub clearable_fields : List String
clearable_fields = editable_fields ++ timestamp_fields

abbrev pub one_of : List String → String → Bool
one_of names name = any (λ n. text_eq n name) names

abbrev text_or_null : Option String → Value
text_or_null none = null
text_or_null (some s) = str s

abbrev id_or_null : Option ℕ → Value
id_or_null none = null
id_or_null (some n) = foreign n

abbrev pub ticket_values : WorkflowTicket → Values
ticket_values t =
    ("ticket_id", foreign t.ticket_id)
    ∷ ("tenant_id", foreign t.tenant_id)
    ∷ ("ticket_key", str t.ticket_key)
    ∷ ("project_id", foreign t.project_id)
    ∷ ("work_type_code", str t.work_type_code)
    ∷ ("workflow_version_id", foreign t.workflow_version_id)
    ∷ ("workflow_version_status", str t.workflow_version_status)
    ∷ ("status_id", foreign t.status_id)
    ∷ ("status_code", str t.status_code)
    ∷ ("row_version", number (pos t.row_version))
    ∷ ("summary", str t.summary)
    ∷ ("description", text_or_null t.description)
    ∷ ("resolution_code", t.resolution_code)
    ∷ ("resolution_summary", t.resolution_summary)
    ∷ ("assignment_group_id", id_or_null t.assignment_group_id)
    ∷ ("assignee_user_id", id_or_null t.assignee_user_id)
    ∷ ("first_response_at", t.first_response_at)
    ∷ ("resolved_at", t.resolved_at)
    ∷ ("closed_at", t.closed_at)
    ∷ []

-- `_values`: the first value of a name counts, so that an update stands over the ticket's value.
abbrev pub values_of : WorkflowTicket → Values → Values
values_of t updates = updates ++ ticket_values t

-- `updates[key] = value`
abbrev pub set_value : String → Value → Values → Values
set_value key v [] = (key, v) ∷ []
set_value key v ((k, w) ∷ rest) =
    if text_eq k key then (k, v) ∷ rest else (k, w) ∷ set_value key v rest

-- `v in (None, "", [])`
abbrev pub is_blank : Value → Bool
is_blank null = true
is_blank (str s) = text_eq s ""
is_blank (arr nil) = true
is_blank _ = false

abbrev pub or_null : Option Value → Value
or_null none = null
or_null (some v) = v

-- The field of a validator that is a `required_field`; `str` of what is no text is never that word.
abbrev pub required_field :
    (String → String) → Option Value → Option Value → Result RuleError String
required_field lower (some (str type)) (some (str name)) =
    if text_eq (lower type) "required_field" then ok name else err invalid_rule
required_field lower _ _ = err invalid_rule

abbrev pub validator_field : (String → String) → Value → Result RuleError String
validator_field lower (obj fs) =
    if count_fields fs == 2
    then required_field lower (get_field "type" fs) (get_field "field" fs)
    else err invalid_rule
validator_field lower _ = err invalid_rule

-- The required fields that are blank; a validator that is no such object ends the loop.
unfoldable pub missing_fields : (String → String) → Items → Values → Result RuleError (List String)
missing_fields lower nil values = ok []
missing_fields lower (cons v rest) values = validator_field lower v >>= λ name.
    missing_fields lower rest values >>= λ missing.
    if is_blank (or_null (get_value name values)) then ok (name ∷ missing) else ok missing

-- An `InvalidRule` is reported as a configuration error; a `TypeError` is not caught.
abbrev pub rule_failure : RuleError → DeskError
rule_failure invalid_rule = configuration_conflict
rule_failure type_error = uncaught

abbrev pub caught {ℓ} : {A : Type ℓ} → Result RuleError A → Result DeskError A
caught (ok a) = ok a
caught (err e) = err (rule_failure e)

abbrev pub none_missing : List String → Result DeskError (Unit {0})
none_missing [] = ok tt
none_missing (_ ∷ _) = err validation_failed

-- `_validate_required`
unfoldable pub validate_required : (String → String) → Value → Values → Result DeskError (Unit {0})
validate_required lower (arr validators) values =
    caught (missing_fields lower validators values) >>= none_missing
validate_required lower null values = ok tt
validate_required lower (obj fs) values =
    if count_fields fs == 0 then ok tt else err configuration_conflict
validate_required lower _ values = err configuration_conflict
