-- ===== src/Forms/Settled.antt =====
-- What a form's values are when `validate_and_normalize` returns them.
use helpdesk_agent.Prelude.{◌≡◌, ◌⊎◌, All, Exists, Bool, true, false, ◌&&◌, some, List, [], ◌∷◌}
use helpdesk_agent.Rules.Value.{Value, null, str, arr, nil}
use helpdesk_agent.Rules.Evaluate.{Values, get_value}
use helpdesk_agent.Forms.Conditions.{or_null, condition_applies}
use helpdesk_agent.Forms.Fields.{FormFieldRecord, Library}
use helpdesk_agent.Forms.Firsts.{AreFields, IsOption}
use helpdesk_agent.Forms.Typed.{IsNormal}
use helpdesk_agent.Forms.Supplied.{OnceEach}
use helpdesk_agent.Forms.Within.{IsWithin}

-- `None`, the empty text or the empty list.
abbrev pub IsBlank : Value → Type 0
IsBlank v = (v ≡ null) ⊎ (v ≡ str "") ⊎ (v ≡ arr nil)

module _ (lib : Library) (complete : Bool) (records : List FormFieldRecord) (raw : Values) where
  abbrev pub given : FormFieldRecord → Value
  given field = or_null (get_value field.field_code raw)

  -- The values of the fields, each in one of the three ways in which a field is settled.
  pub data Settled : List FormFieldRecord → Values → Type 0 where
    no_fields : Settled [] []
    not_applicable :
        (field : FormFieldRecord) {rest : List FormFieldRecord} {values : Values}
        → condition_applies lib.accept_rule field.condition raw ≡ some false
        → IsBlank (given field)
        → Settled rest values
        → Settled (field ∷ rest) values
    left_blank :
        (field : FormFieldRecord) {rest : List FormFieldRecord} {values : Values}
        → condition_applies lib.accept_rule field.condition raw ≡ some true
        → IsBlank (given field)
        → field.required && complete ≡ false
        → Settled rest values
        → Settled (field ∷ rest) ((field.field_code, null) ∷ values)
    normalized :
        (field : FormFieldRecord) (v : Value) {rest : List FormFieldRecord} {values : Values}
        → condition_applies lib.accept_rule field.condition raw ≡ some true
        → IsNormal lib (IsOption records field.field_code) field.data_type (given field) v
        → IsWithin lib field.data_type field.validation v
        → Settled rest values
        → Settled (field ∷ rest) ((field.field_code, v) ∷ values)

-- What is known of a form whose values are returned.
pub record IsForm (lib : Library) (complete : Bool) (records : List FormFieldRecord)
    (supplied values : Values) : Type 0 where
  pub supplied_once : OnceEach supplied
  pub supplied_known : All (λ item. Exists (λ r. r.field_code ≡ item.0) records) supplied
  pub fields : List FormFieldRecord
  pub are_fields : AreFields records fields
  pub all_settled : Settled lib complete records supplied fields values
