-- ===== src/Forms/Fields.antt =====
-- Types and bounds of the fields of request forms: `_normalize` and `_validate_bounds` of
-- apps/api/app/tickets/validation.py.
use Prim.Native.String.{count}
use package.text.Mathlib.Text.{◌==◌ as text_eq}
use helpdesk_agent.Prelude.{
  ℕ, String, Bool, true, false, not, ◌&&◌, ◌||◌, Option, none, some, List, [], ◌∷◌, ltb, any,
  if◌then◌else◌,
}
use helpdesk_agent.Prelude.Int.{ℤ, pos, negsuc}
use helpdesk_agent.Rules.Value.{
  Value, null, boolean, number, str, arr, obj, Items, nil, cons, get_field, member,
}
use helpdesk_agent.Forms.Conditions.{ConditionalRule, count_items}

pub record FormFieldRecord : Type 0 where
  pub field_code : String
  pub data_type : String
  pub required : Bool
  pub validation : Value
  pub condition : Value
  pub option_code : Option String

-- pydantic's part of the validation of a rule; `" ".join(value.split())`, `str.strip` and `str.lower`; the texts
-- that `Decimal`, `date`, `datetime` and `UUID` give for the text of a value, if they accept it and it is
-- finite or has a time zone; the length of a JSON text; the sorted list of texts; and whether a
-- number's text is below or above a bound.
pub record Library : Type 0 where
  pub accept_rule : Value → Option ConditionalRule
  pub collapse : String → String
  pub strip : String → String
  pub lower : String → String
  pub decimal_text : Value → Option String
  pub date_text : Value → Option String
  pub timestamp_text : Value → Option String
  pub uuid_text : Value → Option String
  pub json_length : Value → ℕ
  pub sorted : Items → Items
  pub is_below : String → Value → Bool
  pub is_above : String → Value → Bool

abbrev pub text_of : Option String → Option Value
text_of none = none
text_of (some s) = some (str s)

abbrev pub is_reference : String → Bool
is_reference type =
    any (λ t. text_eq t type) ("USER" ∷ "GROUP" ∷ "SERVICE" ∷ "MODULE" ∷ "ASSET" ∷ [])

abbrev pub normalize_text : (String → String) → Value → Option Value
normalize_text f (str s) = some (str (f s))
normalize_text f _ = none

abbrev pub normalize_number : Library → Value → Option Value
normalize_number lib (boolean _) = none
normalize_number lib v = text_of (lib.decimal_text v)

abbrev pub normalize_boolean : Library → Value → Option Value
normalize_boolean lib (boolean b) = some (boolean b)
normalize_boolean lib (str s) =
    if text_eq (lib.lower s) "true"
    then some (boolean true)
    else if text_eq (lib.lower s) "false"
    then some (boolean false)
    else none
normalize_boolean lib _ = none

abbrev pub is_option : List String → String → Bool
is_option options s = any (λ o. text_eq o s) options

abbrev pub normalize_choice : List String → Value → Option Value
normalize_choice options (str s) = if is_option options s then some (str s) else none
normalize_choice options _ = none

abbrev pub all_options : List String → Items → Bool
all_options options nil = true
all_options options (cons (str s) rest) = is_option options s && all_options options rest
all_options options (cons _ rest) = false

abbrev pub has_repeats : Items → Bool
has_repeats nil = false
has_repeats (cons v rest) = member v rest || has_repeats rest

-- A list of texts, no two of them equal and all of them options, is sorted.
abbrev pub normalize_choices : Library → List String → Value → Option Value
normalize_choices lib options (arr items) =
    if all_options options items && not (has_repeats items)
    then some (arr (lib.sorted items))
    else none
normalize_choices lib options _ = none

abbrev pub normalize_object : Library → Value → Option Value
normalize_object lib (obj fs) =
    if ltb 20_000 (lib.json_length (obj fs)) then none else some (obj fs)
normalize_object lib _ = none

-- `_normalize`; nothing is the `ValueError`
unfoldable pub normalize : Library → String → List String → Value → Option Value
normalize lib type options v =
    if text_eq type "TEXT"
    then normalize_text lib.collapse v
    else if text_eq type "LONG_TEXT"
    then normalize_text lib.strip v
    else if text_eq type "NUMBER"
    then normalize_number lib v
    else if text_eq type "BOOLEAN"
    then normalize_boolean lib v
    else if text_eq type "DATE"
    then text_of (lib.date_text v)
    else if text_eq type "TIMESTAMP"
    then text_of (lib.timestamp_text v)
    else if is_reference type
    then text_of (lib.uuid_text v)
    else if text_eq type "SINGLE_SELECT"
    then normalize_choice options v
    else if text_eq type "MULTI_SELECT"
    then normalize_choices lib options v
    else if text_eq type "JSON_OBJECT"
    then normalize_object lib v
    else none

-- `len(value)` of a text or a list, and of a list
abbrev pub length_of : Value → Option ℕ
length_of (str s) = some (count s)
length_of (arr items) = some (count_items items)
length_of _ = none

abbrev pub items_of : Value → Option ℕ
items_of (arr items) = some (count_items items)
items_of _ = none

-- A bound that is an integer; `True` and `False` are 1 and 0
abbrev pub int_bound : Option Value → Option ℤ
int_bound (some (number z)) = some z
int_bound (some (boolean true)) = some (pos 1)
int_bound (some (boolean false)) = some (pos 0)
int_bound _ = none

abbrev pub below_int : ℕ → ℤ → Bool
below_int n (pos m) = ltb n m
below_int n (negsuc m) = false

abbrev pub above_int : ℕ → ℤ → Bool
above_int n (pos m) = ltb m n
above_int n (negsuc m) = true

abbrev pub breaks : (ℕ → ℤ → Bool) → Option ℕ → Option ℤ → Bool
breaks test (some n) (some bound) = test n bound
breaks test _ _ = false

abbrev pub bound : String → Value → Option Value
bound name (obj fs) = get_field name fs
bound name _ = none

abbrev pub breaks_number : (String → Value → Bool) → Value → Option Value → Bool
breaks_number test (str s) (some null) = false
breaks_number test (str s) (some limit) = test s limit
breaks_number test _ _ = false

-- `_validate_bounds`: whether it adds no error
unfoldable pub within_bounds : Library → String → Value → Value → Bool
within_bounds lib type validation v =
    not (breaks below_int (length_of v) (int_bound (bound "minimum_length" validation)))
    && (not (breaks above_int (length_of v) (int_bound (bound "maximum_length" validation)))
        && (not (breaks below_int (items_of v) (int_bound (bound "minimum_items" validation)))
            && (not (breaks above_int (items_of v) (int_bound (bound "maximum_items" validation)))
                && (not (text_eq type "NUMBER")
                    || (not (breaks_number lib.is_below v (bound "minimum" validation))
                        && not (breaks_number lib.is_above v (bound "maximum" validation)))))))
