-- ===== src/Forms/Typed.antt =====
-- What a normalized value of a field is, apart from how it is computed.
use helpdesk_agent.Prelude.{◌≤◌, ◌≡◌, String, Bool, true, false, some, List, [], ◌∷◌, Exists}
use helpdesk_agent.Rules.Value.{Value, boolean, str, arr, obj, Items, nil, cons, Fields, member}
use helpdesk_agent.Forms.Fields.{Library}

-- All items are texts of a kind.
abbrev pub AreTexts : (String → Type 0) → Items → Type 0
AreTexts P nil = Unit
AreTexts P (cons v rest) = (s : String) × (v ≡ str s) × P s × AreTexts P rest

-- No item is equal to a later one.
abbrev pub NoRepeats : Items → Type 0
NoRepeats nil = Unit
NoRepeats (cons v rest) = (member v rest ≡ false) × NoRepeats rest

abbrev pub references : List String
references = "USER" ∷ "GROUP" ∷ "SERVICE" ∷ "MODULE" ∷ "ASSET" ∷ []

-- A value given for a field of a type, whose options satisfy a predicate, and what it is stored as.
pub data IsNormal (lib : Library) (IsChoice : String → Type 0) (type : String)
    : Value → Value → Type 0 where
  text : {s : String} → type ≡ "TEXT" → IsNormal lib IsChoice type (str s) (str (lib.collapse s))
  long_text :
      {s : String} → type ≡ "LONG_TEXT" → IsNormal lib IsChoice type (str s) (str (lib.strip s))
  decimal :
      {v : Value} {s : String}
      → type ≡ "NUMBER"
      → ((b : Bool) → v ≡ boolean b → ⊥)
      → lib.decimal_text v ≡ some s
      → IsNormal lib IsChoice type v (str s)
  truth : {b : Bool} → type ≡ "BOOLEAN" → IsNormal lib IsChoice type (boolean b) (boolean b)
  true_text :
      {s : String}
      → type ≡ "BOOLEAN"
      → lib.lower s ≡ "true"
      → IsNormal lib IsChoice type (str s) (boolean true)
  false_text :
      {s : String}
      → type ≡ "BOOLEAN"
      → lib.lower s ≡ "false"
      → IsNormal lib IsChoice type (str s) (boolean false)
  date :
      {v : Value} {s : String}
      → type ≡ "DATE"
      → lib.date_text v ≡ some s
      → IsNormal lib IsChoice type v (str s)
  instant :
      {v : Value} {s : String}
      → type ≡ "TIMESTAMP"
      → lib.timestamp_text v ≡ some s
      → IsNormal lib IsChoice type v (str s)
  reference :
      {v : Value} {s : String}
      → Exists (λ t. t ≡ type) references
      → lib.uuid_text v ≡ some s
      → IsNormal lib IsChoice type v (str s)
  choice :
      {s : String}
      → type ≡ "SINGLE_SELECT"
      → IsChoice s
      → IsNormal lib IsChoice type (str s) (str s)
  choices :
      {items : Items}
      → type ≡ "MULTI_SELECT"
      → AreTexts IsChoice items
      → NoRepeats items
      → IsNormal lib IsChoice type (arr items) (arr (lib.sorted items))
  object :
      {fs : Fields}
      → type ≡ "JSON_OBJECT"
      → lib.json_length (obj fs) ≤ 20_000
      → IsNormal lib IsChoice type (obj fs) (obj fs)
