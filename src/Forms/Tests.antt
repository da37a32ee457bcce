-- ===== src/Forms/Tests.antt =====
-- A form with a required choice and a text that is asked for one of its options only.
use helpdesk_agent.Prelude.{◌≡◌, refl, String, true, false, Option, none, some, List, [], ◌∷◌, ok}
use helpdesk_agent.Prelude.Int.{pos}
use helpdesk_agent.Rules.Value.{Value, null, number, str, obj, field, end, equal}
use helpdesk_agent.Rules.Evaluate.{Values}
use helpdesk_agent.Forms.Conditions.{ConditionalRule, equals, condition_applies}
use helpdesk_agent.Forms.Fields.{FormFieldRecord, Library, normalize, within_bounds}
use helpdesk_agent.Forms.Validate.{normalize_fields, validate_and_normalize}

abbrev accept : Value → Option ConditionalRule
accept (str device) = some (record {
  all_of =
      some (record { predicate_field = "device"; operator = equals; expected = str device } ∷ []);
  any_of = none;
})
accept _ = none

abbrev library : Library
library = record {
  accept_rule = accept;
  collapse = λ s. s;
  strip = λ s. s;
  lower = λ s. s;
  decimal_text = λ _. none;
  date_text = λ _. none;
  timestamp_text = λ _. none;
  uuid_text = λ _. none;
  json_length = λ _. 2;
  sorted = λ items. items;
  is_below = λ _ _. false;
  is_above = λ _ _. false;
}

abbrev device_option : String → FormFieldRecord
device_option option = record {
  field_code = "device";
  data_type = "SINGLE_SELECT";
  required = true;
  validation = null;
  condition = null;
  option_code = some option;
}

abbrev tray : FormFieldRecord
tray = record {
  field_code = "tray";
  data_type = "TEXT";
  required = true;
  validation = obj (field "maximum_length" (number (pos 10)) end);
  condition = str "printer";
  option_code = none;
}

abbrev form : List FormFieldRecord
form = device_option "printer" ∷ device_option "phone" ∷ tray ∷ []

abbrev printer_values : Values
printer_values = ("device", str "printer") ∷ ("tray", str "upper") ∷ []

abbrev phone_values : Values
phone_values = ("device", str "phone") ∷ []

phone_valid : validate_and_normalize library true form phone_values ≡ ok phone_values
unfolding validate_and_normalize normalize_fields condition_applies normalize within_bounds equal
phone_valid = refl
