-- ===== src/Workflows/Effects.antt =====
-- The actions of a transition: `_apply_actions`, `_validate_update_values`, `_validated_updates`,
-- `_approval_requests` and `_is_approval_continuation` of apps/api/app/workflows/service.py.
use Prim.Native.String.{count}
use package.text.Mathlib.Text.{◌==◌ as text_eq}
use helpdesk_agent.Prelude.{
  ℕ, String, Bool, true, false, ◌&&◌, ◌||◌, Option, none, some, List, [], ◌∷◌, ◌==◌, leb, all,
  if◌then◌else◌, Result, ok, err, ◌>>=◌, ◌>>◌,
}
use helpdesk_agent.Rules.Value.{
  Value, null, str, foreign, arr, obj, Items, nil, cons, Fields, get_field, count_fields,
}
use helpdesk_agent.Rules.Evaluate.{Values, get_value, evaluate, RuleError, invalid_rule, type_error}
use helpdesk_agent.Desk.{
  DeskError, configuration_conflict, invalid_transition, validation_failed, uncaught,
}
use helpdesk_agent.Workflows.Models.{WorkflowTicket, WorkflowTransition, Catalogue}
use helpdesk_agent.Workflows.Guard.{
  editable_fields, timestamp_fields, clearable_fields, one_of, values_of, set_value, caught,
  validate_required,
}

-- `field in names` of a set: a list or an object cannot be hashed, which raises `TypeError`.
abbrev pub in_names : List String → Option Value → Result RuleError Bool
in_names names (some (str name)) = ok (one_of names name)
in_names names (some (arr _)) = err type_error
in_names names (some (obj _)) = err type_error
in_names names _ = ok false

abbrev pub name_of : Option Value → String
name_of (some (str name)) = name
name_of _ = ""

-- `updates[field] = value`, if the field is one of the names.
abbrev pub set_allowed : List String → Option Value → Value → Values → Result RuleError Values
set_allowed names field v updates = in_names names field >>= λ allowed.
    if allowed then ok (set_value (name_of field) v updates) else err invalid_rule

-- A `SET_FIELD` without a value is refused, after its field has been looked up.
abbrev pub set_given : List String → Option Value → Option Value → Values → Result RuleError Values
set_given names field (some v) updates = set_allowed names field v updates
set_given names field none updates = in_names names field >>= λ _. err invalid_rule

abbrev pub is_text : Option Value → Bool
is_text (some (str _)) = true
is_text _ = false

-- An action by its type.
abbrev pub apply_typed : ℕ → String → Fields → Values → Result RuleError Values
apply_typed now type fs updates =
    let field = get_field "field" fs in
    if text_eq type "SET_TIMESTAMP"
    then set_allowed timestamp_fields field (foreign now) updates
    else if text_eq type "CLEAR_FIELD"
    then set_allowed clearable_fields field null updates
    else if text_eq type "SET_FIELD"
    then set_given editable_fields field (get_field "value" fs) updates
    else if (text_eq type "CREATE_APPROVAL"
          && (count_fields fs == 2 && is_text (get_field "approval_code" fs)))
        || (text_eq type "APPROVAL_CONTINUATION" && count_fields fs == 1)
    then ok updates
    else err invalid_rule

abbrev pub apply_found :
    (String → String) → ℕ → Fields → Option Value → Values → Result RuleError Values
apply_found upper now fs (some (str type)) updates = apply_typed now (upper type) fs updates
apply_found upper now fs _ updates = err invalid_rule

abbrev pub apply_action : (String → String) → ℕ → Value → Values → Result RuleError Values
apply_action upper now (obj fs) updates = apply_found upper now fs (get_field "type" fs) updates
apply_action upper now _ updates = err invalid_rule

unfoldable pub apply_items : (String → String) → ℕ → Items → Values → Result RuleError Values
apply_items upper now nil updates = ok updates
apply_items upper now (cons action rest) updates =
    apply_action upper now action updates >>= apply_items upper now rest

-- `_apply_actions`
unfoldable pub apply_actions : (String → String) → ℕ → Value → Values → Result DeskError Values
apply_actions upper now (arr actions) updates = caught (apply_items upper now actions updates)
apply_actions upper now null updates = ok updates
apply_actions upper now (obj fs) updates =
    if count_fields fs == 0 then ok updates else err configuration_conflict
apply_actions upper now _ updates = err configuration_conflict

-- What `resolution_code` and `resolution_summary` may hold.
abbrev pub valid_code : (String → Bool) → Option Value → Bool
valid_code exists none = true
valid_code exists (some null) = true
valid_code exists (some (str code)) = exists code
valid_code exists (some _) = false

abbrev pub valid_summary : Option Value → Bool
valid_summary none = true
valid_summary (some null) = true
valid_summary (some (str text)) = leb (count text) 20_000
valid_summary (some _) = false

-- `_validate_update_values`
unfoldable pub validate_update_values : (String → Bool) → Values → Result DeskError (Unit {0})
validate_update_values exists updates =
    if valid_code exists (get_value "resolution_code" updates)
      && valid_summary (get_value "resolution_summary" updates)
    then ok tt
    else err validation_failed

abbrev pub guarded_by : Result RuleError Bool → Result DeskError (Unit {0})
guarded_by (ok true) = ok tt
guarded_by (ok false) = err invalid_transition
guarded_by (err e) = caught (err e)

-- `_validated_updates`
unfoldable pub validated_updates :
    Catalogue → ℕ → WorkflowTicket → WorkflowTransition → Values → Result DeskError Values
validated_updates cat now t transition requested =
    if all (λ update. one_of editable_fields update.0) requested
    then validate_update_values cat.resolution_code_exists requested
      >> (guarded_by (evaluate transition.condition (values_of t requested))
          >> (validate_required cat.lower transition.validators (values_of t requested)
              >> (apply_actions cat.upper now transition.actions requested >>= λ updates.
                  validate_update_values cat.resolution_code_exists updates >> ok updates)))
    else err validation_failed

-- `action.get("type", "").upper()`: what is no text has no `upper`, which raises `AttributeError`.
abbrev pub has_type : (String → String) → String → Option Value → Result DeskError Bool
has_type upper name none = ok (text_eq (upper "") name)
has_type upper name (some (str type)) = ok (text_eq (upper type) name)
has_type upper name (some _) = err uncaught

abbrev pub is_typed : (String → String) → String → Value → Result DeskError Bool
is_typed upper name (obj fs) = has_type upper name (get_field "type" fs)
is_typed upper name _ = ok false

abbrev pub any_typed : (String → String) → String → Items → Result DeskError Bool
any_typed upper name nil = ok false
any_typed upper name (cons action rest) = is_typed upper name action >>= λ found.
    let later = any_typed upper name rest in if found then ok true else later

-- `_is_approval_continuation`
unfoldable pub is_approval_continuation : (String → String) → Value → Result DeskError Bool
is_approval_continuation upper (arr actions) = any_typed upper "APPROVAL_CONTINUATION" actions
is_approval_continuation upper _ = ok false

-- The code that an action with the type asks for.
abbrev pub code_of : Value → Option String
code_of (obj fs) = elim (get_field "approval_code" fs) [ some (str code) ↦ some code | _ ↦ none ]
code_of _ = none

abbrev pub with_code : Bool → Option String → List String → List String
with_code true (some code) codes = code ∷ codes
with_code _ _ codes = codes

abbrev pub requested_codes : (String → String) → Items → Result DeskError (List String)
requested_codes upper nil = ok []
requested_codes upper (cons action rest) = is_typed upper "CREATE_APPROVAL" action >>= λ found.
    requested_codes upper rest >>= λ codes. ok (with_code found (code_of action) codes)

-- `_approval_requests`
unfoldable pub approval_requests : (String → String) → Value → Result DeskError (List String)
approval_requests upper (arr actions) = requested_codes upper actions
approval_requests upper _ = ok []
