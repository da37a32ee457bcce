-- ===== src/Workflows/Validated.antt =====
-- What `_validated_updates` has checked when it returns.
use mathlib.Core.Path.{subst}
use helpdesk_agent.Prelude.{
  ℕ, ◌≡◌, refl, ap, ◌∙◌, String, Bool, true, false, ◌&&◌, List, [], ◌∷◌, all, if◌then◌else◌, Result,
  ok, err, ok_inj, >>=-eq-ok, arith, Bool-cases, inl, inr,
}
use helpdesk_agent.Rules.Value.{
  Value, null, foreign, arr, obj, str, boolean, number, Items, nil, cons,
}
use helpdesk_agent.Rules.Evaluate.{Values, get_value, evaluate, RuleError}
use helpdesk_agent.Desk.{DeskError, validation_failed}
use helpdesk_agent.Workflows.Models.{WorkflowTicket, WorkflowTransition, Catalogue}
use helpdesk_agent.Workflows.Guard.{
  editable_fields, one_of, values_of, caught, is_blank, or_null, validator_field, missing_fields,
  none_missing, validate_required,
}
use helpdesk_agent.Workflows.Effects.{
  apply_actions, valid_code, valid_summary, validate_update_values, guarded_by, validated_updates,
}
use helpdesk_agent.Workflows.Updates.{
  is_settable, settable_value, apply_actions-AllSettable, caught-ok,
}

-- Each validator names a field that is given.
abbrev pub AllGiven : (String → String) → Items → Values → Type 0
AllGiven lower nil values = Unit
AllGiven lower (cons v rest) values =
    ((name : String) × (validator_field lower v ≡ ok name)
      × (is_blank (or_null (get_value name values)) ≡ false))
    × AllGiven lower rest values

abbrev pub IsGiven : (String → String) → Value → Values → Type 0
IsGiven lower (arr validators) values = AllGiven lower validators values
IsGiven lower _ values = Unit

pub record IsValidated (cat : Catalogue) (now : ℕ) (t : WorkflowTicket)
    (transition : WorkflowTransition) (requested updates : Values) : Type 0 where
  pub only_editable : all (λ update. one_of editable_fields update.0) requested ≡ true
  pub guard_holds : evaluate transition.condition (values_of t requested) ≡ ok true
  pub required_given : IsGiven cat.lower transition.validators (values_of t requested)
  pub actions_applied : apply_actions cat.upper now transition.actions requested ≡ ok updates
  pub all_settable : all (is_settable now) updates ≡ true
  pub code_valid :
      valid_code cat.resolution_code_exists (get_value "resolution_code" updates) ≡ true
  pub summary_valid : valid_summary (get_value "resolution_summary" updates) ≡ true

-- A validator whose field is blank is among the missing ones.
missing_head :
    (given : Bool) (name : String) (missing : List String)
    → ◌≡◌ {A = Result RuleError (List String)}
        (if given then ok (name ∷ missing) else ok missing)
        (ok [])
    → (given ≡ false) × (missing ≡ [])
missing_head true name missing h = absurd (lost (ok_inj h))
  where
    lost : name ∷ missing ≡ [] → ⊥
    lost e = cc
missing_head false name missing h = (refl, ok_inj h)

missing_fields-AllGiven :
    (lower : String → String) (validators : Items) (values : Values)
    → missing_fields lower validators values ≡ ok []
    → AllGiven lower validators values
unfolding missing_fields
missing_fields-AllGiven lower nil values h = tt
missing_fields-AllGiven lower (cons v rest) values h =
    let (name, first, h₁) = >>=-eq-ok (validator_field lower v) _ h in
    let (missing, later, h₂) = >>=-eq-ok (missing_fields lower rest values) _ h₁ in
    let (given, none_later) = missing_head _ name missing h₂ in
    ((name, first, given), missing_fields-AllGiven lower rest values (later ∙ ap ok none_later))

none_missing-ok : (names : List String) → none_missing names ≡ ok tt → names ≡ []
none_missing-ok [] h = refl
none_missing-ok (name ∷ names) h = cc

validate_required-IsGiven :
    (lower : String → String) (validators : Value) (values : Values)
    → validate_required lower validators values ≡ ok tt
    → IsGiven lower validators values
unfolding validate_required
validate_required-IsGiven lower (arr items) values h =
    let (names, found, empty) = >>=-eq-ok (caught (missing_fields lower items values)) _ h in
    missing_fields-AllGiven lower items values
      (caught-ok 0 _ names found ∙ ap ok (none_missing-ok names empty))
validate_required-IsGiven lower null values h = tt
validate_required-IsGiven lower (boolean _) values h = tt
validate_required-IsGiven lower (number _) values h = tt
validate_required-IsGiven lower (str _) values h = tt
validate_required-IsGiven lower (foreign _) values h = tt
validate_required-IsGiven lower (obj _) values h = tt

guarded_by-ok : (r : Result RuleError Bool) → guarded_by r ≡ ok tt → r ≡ ok true
guarded_by-ok (ok true) h = refl
guarded_by-ok (ok false) h = cc
guarded_by-ok (err e) h = cc

both_valid :
    (b c : Bool)
    → ◌≡◌ {A = Result DeskError (Unit {0})}
        (if b && c then ok tt else err validation_failed)
        (ok tt)
    → (b ≡ true) × (c ≡ true)
both_valid true true h = (refl, refl)
both_valid true false h = cc
both_valid false true h = cc
both_valid false false h = cc

validate_update_values-ok :
    (exists : String → Bool) (updates : Values)
    → validate_update_values exists updates ≡ ok tt
    → (valid_code exists (get_value "resolution_code" updates) ≡ true)
      × (valid_summary (get_value "resolution_summary" updates) ≡ true)
unfolding validate_update_values
validate_update_values-ok exists updates h =
    both_valid (valid_code exists (get_value "resolution_code" updates))
      (valid_summary (get_value "resolution_summary" updates)) h

editable-settable :
    (now : ℕ) (requested : Values)
    → all (λ update. one_of editable_fields update.0) requested ≡ true
    → all (is_settable now) requested ≡ true
editable-settable now [] h = refl
editable-settable now ((name, v) ∷ rest) h =
    rw (settable_value now name v (ground arith), editable-settable now rest (ground arith)) refl

-- When `_validated_updates` returns the updates that a transition is executed with, only the two
-- resolution fields were requested, the transition's condition holds for the ticket with them, every
-- validator names a field that is given, and the updates are those of the transition's actions: they
-- set resolution fields, to nothing, a known code and at most 20000 characters, or clear timestamps or
-- set them to now.
pub validated_updates-IsValidated :
    (cat : Catalogue) (now : ℕ) (t : WorkflowTicket) (transition : WorkflowTransition)
    (requested updates : Values)
    → validated_updates cat now t transition requested ≡ ok updates
    → IsValidated cat now t transition requested updates
unfolding validated_updates
validated_updates-IsValidated cat now t transition requested updates h =
    elim (Bool-cases (all (λ update. one_of editable_fields update.0) requested)) [
      | inl editable ↦
          let (_, values, h₁) =
            >>=-eq-ok (validate_update_values cat.resolution_code_exists requested) _
              (rw editable at h) in
          let (_, guard, h₂) =
            >>=-eq-ok (guarded_by (evaluate transition.condition (values_of t requested))) _ h₁ in
          let (_, required, h₃) =
            >>=-eq-ok (validate_required cat.lower transition.validators (values_of t requested)) _
              h₂ in
          let (after, applied, h₄) =
            >>=-eq-ok (apply_actions cat.upper now transition.actions requested) _ h₃ in
          let (_, valid, last) =
            >>=-eq-ok (validate_update_values cat.resolution_code_exists after) _ h₄ in
          let (code, summary) = validate_update_values-ok cat.resolution_code_exists after valid in
          subst (IsValidated cat now t transition requested) (ok_inj last) (record {
            only_editable = editable;
            guard_holds = guarded_by-ok _ guard;
            required_given = validate_required-IsGiven cat.lower transition.validators _ required;
            actions_applied = applied;
            all_settable =
                apply_actions-AllSettable now cat.upper transition.actions requested after
                  (editable-settable now requested editable) applied;
            code_valid = code;
            summary_valid = summary;
          })
      | inr other ↦ let lost : err validation_failed ≡ ok updates = rw other at h in cc
    ]
