-- ===== src/Workflows/Updates.antt =====
-- The updates that a transition is executed with.
use package.text.Mathlib.TextEquality.{eq_iff}
use package.text.Mathlib.Text.{◌==◌ as text_eq}
use helpdesk_agent.Prelude.{
  ℕ, ◌≡◌, refl, sym, ap, ◌∙◌, String, Bool, true, false, ◌&&◌, ◌||◌, Option, none, some, List, [],
  ◌∷◌, ◌==◌, all, if◌then◌else◌, Result, ok, err, ok_inj, >>=-eq-ok, arith, Bool-cases, inl, inr,
}
use helpdesk_agent.Rules.Value.{
  Value, null, foreign, arr, obj, str, boolean, number, Items, nil, cons, Fields, get_field,
  count_fields,
}
use helpdesk_agent.Rules.Evaluate.{Values, RuleError, invalid_rule}
use helpdesk_agent.Workflows.Guard.{
  editable_fields, timestamp_fields, clearable_fields, one_of, set_value, caught,
}
use helpdesk_agent.Workflows.Effects.{
  in_names, set_allowed, set_given, apply_typed, apply_found, apply_action, apply_items,
  apply_actions,
}

-- An instant of now, or nothing.
abbrev pub is_stamp : ℕ → Value → Bool
is_stamp now null = true
is_stamp now (foreign n) = n == now
is_stamp now _ = false

-- A resolution field with any value, or a timestamp field that is cleared or set to now.
abbrev pub is_settable : ℕ → String × Value → Bool
is_settable now (name, v) =
    one_of editable_fields name || (one_of timestamp_fields name && is_stamp now v)

all-set_value :
    (p : String × Value → Bool) (key : String) (v : Value) (updates : Values)
    → p (key, v) ≡ true
    → all p updates ≡ true
    → all p (set_value key v updates) ≡ true
all-set_value p key v [] h k = rw h refl
all-set_value p key v ((name, w) ∷ rest) h k = elim (Bool-cases (text_eq name key)) [
  | inl same ↦
      let e : key ≡ name = sym (ground (arith, eq_iff name key)) in
      let renamed : p (name, v) ≡ true = ap (λ n. p (n, v)) (sym e) ∙ h in
      rw (same, renamed) (ground arith)
  | inr other ↦
      let later = all-set_value p key v rest h (ground arith) in rw (other, later) (ground arith)
]

module _ (now : ℕ) where
  settable_stamp :
      (name : String)
      → one_of timestamp_fields name ≡ true
      → is_settable now (name, foreign now) ≡ true
  settable_stamp name h = ground arith

  settable_clear :
      (name : String) → one_of clearable_fields name ≡ true → is_settable now (name, null) ≡ true
  settable_clear name h = ground arith

  pub settable_value :
      (name : String) (v : Value)
      → one_of editable_fields name ≡ true
      → is_settable now (name, v) ≡ true
  settable_value name v h = ground arith

  abbrev pub AllSettable : Values → Type 0
  AllSettable updates = all (is_settable now) updates ≡ true

  set_allowed-AllSettable :
      (names : List String) (field : Option Value) (v : Value) (updates after : Values)
      → ((name : String) → one_of names name ≡ true → is_settable now (name, v) ≡ true)
      → AllSettable updates
      → set_allowed names field v updates ≡ ok after
      → AllSettable after
  set_allowed-AllSettable names (some (str name)) v updates after allowed h q =
      elim (Bool-cases (one_of names name)) [
        | inl yes_one ↦
            rw (sym (ok_inj (rw yes_one at q)))
              (all-set_value (is_settable now) name v updates (allowed name yes_one) h)
        | inr no_one ↦ let lost = rw no_one at q in cc
      ]
  set_allowed-AllSettable names none v updates after allowed h q = cc
  set_allowed-AllSettable names (some null) v updates after allowed h q = cc
  set_allowed-AllSettable names (some (boolean _)) v updates after allowed h q = cc
  set_allowed-AllSettable names (some (number _)) v updates after allowed h q = cc
  set_allowed-AllSettable names (some (foreign _)) v updates after allowed h q = cc
  set_allowed-AllSettable names (some (arr _)) v updates after allowed h q = cc
  set_allowed-AllSettable names (some (obj _)) v updates after allowed h q = cc

  set_given-AllSettable :
      (field value : Option Value) (updates after : Values)
      → AllSettable updates
      → set_given editable_fields field value updates ≡ ok after
      → AllSettable after
  set_given-AllSettable field (some v) updates after h q =
      set_allowed-AllSettable editable_fields field v updates after (λ name. settable_value name v)
        h q
  set_given-AllSettable field none updates after h q =
      let (b, _, lost) = >>=-eq-ok (in_names editable_fields field) _ q in cc

  kept-AllSettable :
      (updates after : Values)
      → AllSettable updates
      → (c : Bool)
      → ◌≡◌ {A = Result RuleError Values} (if c then ok updates else err invalid_rule) (ok after)
      → AllSettable after
  kept-AllSettable updates after h true q = rw (sym (ok_inj q)) h
  kept-AllSettable updates after h false q = cc

  apply_typed-AllSettable :
      (type : String) (fs : Fields) (updates after : Values)
      → AllSettable updates
      → apply_typed now type fs updates ≡ ok after
      → AllSettable after
  apply_typed-AllSettable type fs updates after h q =
      elim (Bool-cases (text_eq type "SET_TIMESTAMP")) [
        | inl stamped ↦
            set_allowed-AllSettable timestamp_fields (get_field "field" fs) (foreign now) updates
              after settable_stamp h (rw stamped at q)
        | inr no_stamp ↦ elim (Bool-cases (text_eq type "CLEAR_FIELD")) [
          | inl cleared ↦
              set_allowed-AllSettable clearable_fields (get_field "field" fs) null updates after
                settable_clear h (rw (no_stamp, cleared) at q)
          | inr no_clear ↦ elim (Bool-cases (text_eq type "SET_FIELD")) [
            | inl set ↦
                set_given-AllSettable (get_field "field" fs) (get_field "value" fs) updates after h
                  (rw (no_stamp, no_clear, set) at q)
            | inr no_set ↦ kept-AllSettable updates after h _ (rw (no_stamp, no_clear, no_set) at q)
          ]
        ]
      ]

  apply_found-AllSettable :
      (upper : String → String) (fs : Fields) (type : Option Value) (updates after : Values)
      → AllSettable updates
      → apply_found upper now fs type updates ≡ ok after
      → AllSettable after
  apply_found-AllSettable upper fs (some (str type)) updates after h q =
      apply_typed-AllSettable (upper type) fs updates after h q
  apply_found-AllSettable upper fs none updates after h q = cc
  apply_found-AllSettable upper fs (some null) updates after h q = cc
  apply_found-AllSettable upper fs (some (boolean _)) updates after h q = cc
  apply_found-AllSettable upper fs (some (number _)) updates after h q = cc
  apply_found-AllSettable upper fs (some (foreign _)) updates after h q = cc
  apply_found-AllSettable upper fs (some (arr _)) updates after h q = cc
  apply_found-AllSettable upper fs (some (obj _)) updates after h q = cc

  apply_action-AllSettable :
      (upper : String → String) (action : Value) (updates after : Values)
      → AllSettable updates
      → apply_action upper now action updates ≡ ok after
      → AllSettable after
  apply_action-AllSettable upper (obj fs) updates after h q =
      apply_found-AllSettable upper fs (get_field "type" fs) updates after h q
  apply_action-AllSettable upper null updates after h q = cc
  apply_action-AllSettable upper (boolean _) updates after h q = cc
  apply_action-AllSettable upper (number _) updates after h q = cc
  apply_action-AllSettable upper (foreign _) updates after h q = cc
  apply_action-AllSettable upper (arr _) updates after h q = cc
  apply_action-AllSettable upper (str _) updates after h q = cc

  apply_items-AllSettable :
      (upper : String → String) (actions : Items) (updates after : Values)
      → AllSettable updates
      → apply_items upper now actions updates ≡ ok after
      → AllSettable after
  unfolding apply_items
  apply_items-AllSettable upper nil updates after h q = rw (sym (ok_inj q)) h
  apply_items-AllSettable upper (cons action rest) updates after h q =
      let (between, first, later) = >>=-eq-ok (apply_action upper now action updates) _ q in
      apply_items-AllSettable upper rest between after
        (apply_action-AllSettable upper action updates between h first) later

  pub caught-ok : {A : Type 0} (r : Result RuleError A) (a : A) → caught r ≡ ok a → r ≡ ok a
  caught-ok (ok b) a q = rw (ok_inj q) refl
  caught-ok (err e) a q = cc

  pub apply_actions-AllSettable :
      (upper : String → String) (actions : Value) (updates after : Values)
      → AllSettable updates
      → apply_actions upper now actions updates ≡ ok after
      → AllSettable after
  unfolding apply_actions
  apply_actions-AllSettable upper (arr items) updates after h q =
      apply_items-AllSettable upper items updates after h (caught-ok _ after q)
  apply_actions-AllSettable upper null updates after h q = rw (sym (ok_inj q)) h
  apply_actions-AllSettable upper (obj fs) updates after h q =
      elim (Bool-cases (count_fields fs == 0)) [
        | inl empty ↦ rw (sym (ok_inj (rw empty at q))) h
        | inr more ↦ let lost = rw more at q in cc
      ]
  apply_actions-AllSettable upper (boolean _) updates after h q = cc
  apply_actions-AllSettable upper (number _) updates after h q = cc
  apply_actions-AllSettable upper (foreign _) updates after h q = cc
  apply_actions-AllSettable upper (str _) updates after h q = cc
