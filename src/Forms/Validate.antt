-- ===== src/Forms/Validate.antt =====
-- `validate_and_normalize` of apps/api/app/tickets/validation.py. Errors are counted by the codes of
-- their fields; their texts are left out.
use package.text.Mathlib.Text.{◌==◌ as text_eq}
use helpdesk_agent.Prelude.{
  String, Bool, true, not, ◌&&◌, Option, none, some, List, [], ◌∷◌, any, if◌then◌else◌, Result, ok,
  err, ◌>>=◌,
}
use helpdesk_agent.Rules.Value.{Value, null}
use helpdesk_agent.Rules.Evaluate.{Values, get_value}
use helpdesk_agent.Forms.Conditions.{is_blank, or_null, condition_applies}
use helpdesk_agent.Forms.Fields.{FormFieldRecord, Library, normalize, within_bounds}

pub data FormError : Type 0 where
  validation_error uncaught : FormError

abbrev pub has_code : String → FormFieldRecord → Bool
has_code code r = text_eq r.field_code code

abbrev pub supplies : String → String × Value → Bool
supplies code item = text_eq item.0 code

-- No two supplied fields have one code.
abbrev pub all_once : Values → Bool
all_once [] = true
all_once (item ∷ rest) = not (any (supplies item.0) rest) && all_once rest

abbrev pub all_known : List FormFieldRecord → Values → Bool
all_known records [] = true
all_known records (item ∷ rest) = any (has_code item.0) records && all_known records rest

-- The active options of a field.
abbrev pub options_of : String → List FormFieldRecord → List String
options_of code [] = []
options_of code (r ∷ rest) =
    let others = options_of code rest in
    if text_eq r.field_code code
    then elim r.option_code [ none ↦ others | some o ↦ o ∷ others ]
    else others

-- The first record of each code, in order; `seen` are the codes before.
abbrev pub first_records : List String → List FormFieldRecord → List FormFieldRecord
first_records seen [] = []
first_records seen (r ∷ rest) =
    let new = first_records (r.field_code ∷ seen) rest in
    let old = first_records seen rest in
    if any (λ code. text_eq code r.field_code) seen then old else r ∷ new

-- What one field comes to: nothing, a value, or an error.
pub data FieldOutcome : Type 0 where
  skipped failed : FieldOutcome
  entered : Value → FieldOutcome

abbrev pub checked_value : Library → FormFieldRecord → Option Value → FieldOutcome
checked_value lib field none = failed
checked_value lib field (some v) =
    if within_bounds lib field.data_type field.validation v then entered v else failed

-- One round of the loop over the fields.
abbrev pub field_outcome :
    Library → Bool → List String → FormFieldRecord → Value → Bool → FieldOutcome
field_outcome lib complete options field v active =
    if not active
    then (if is_blank v then skipped else failed)
    else if is_blank v
    then (if field.required && complete then failed else entered null)
    else checked_value lib field (normalize lib field.data_type options v)

abbrev pub or_uncaught : Option Bool → Result FormError Bool
or_uncaught none = err uncaught
or_uncaught (some b) = ok b

-- The values, or nothing once a field has failed.
abbrev pub with_outcome : String → FieldOutcome → Option Values → Option Values
with_outcome code skipped later = later
with_outcome code failed later = none
with_outcome code (entered v) none = none
with_outcome code (entered v) (some values) = some ((code, v) ∷ values)

unfoldable pub normalize_fields :
    Library
    → Bool
    → List FormFieldRecord
    → Values
    → List FormFieldRecord
    → Result FormError (Option Values)
normalize_fields lib complete records raw [] = ok (some [])
normalize_fields lib complete records raw (field ∷ rest) =
    or_uncaught (condition_applies lib.accept_rule field.condition raw) >>= λ active.
    normalize_fields lib complete records raw rest >>= λ later. ok (
      with_outcome field.field_code
        (field_outcome lib complete (options_of field.field_code records) field
          (or_null (get_value field.field_code raw)) active)
        later)

abbrev pub unless_errors : Bool → Option Values → Result FormError Values
unless_errors true (some values) = ok values
unless_errors _ _ = err validation_error

unfoldable pub validate_and_normalize :
    Library → Bool → List FormFieldRecord → Values → Result FormError Values
validate_and_normalize lib complete records supplied =
    normalize_fields lib complete records supplied (first_records [] records) >>= λ values.
    unless_errors (all_once supplied && all_known records supplied) values
