-- ===== src/Workflows/Recorded.antt =====
-- What a transition that is answered has met and written.
use mathlib.Core.Path.{subst}
use helpdesk_agent.Prelude.{
  ℕ, ◌≡◌, refl, sym, ap, ◌∙◌, String, Bool, true, false, Option, none, some, ◌==◌, Result, ok, err,
  ok_inj, >>=-eq-ok, Bool-cases, inl, inr,
}
use helpdesk_agent.Rules.Evaluate.{Values}
use helpdesk_agent.Approvals.Service.{Directory}
use helpdesk_agent.Desk.{
  Desk, DeskError, concurrency_error, configuration_conflict, Payload, need, lifted, >>=-ok,
  need-ok, lifted-ok, Context,
}
use helpdesk_agent.Workflows.Models.{
  WorkflowTicket, WorkflowTransition, TransitionCommand, Catalogue,
}
use helpdesk_agent.Workflows.Effects.{validated_updates, is_approval_continuation}
use helpdesk_agent.Workflows.Reads.{ticket_of, transition_of, executable}
use helpdesk_agent.Workflows.Execute.{check_found, with_updates, checked, work}
use helpdesk_agent.Workflows.Validated.{IsValidated, validated_updates-IsValidated}
use helpdesk_agent.Workflows.Performed.{IsPerformed, perform-IsPerformed}

-- The checks on a ticket that have been passed, and the transition and updates they give.
pub record IsChecked (cat : Catalogue) (now : ℕ) (t : WorkflowTicket) (command : TransitionCommand)
    (transition : WorkflowTransition) (updates : Values) : Type 0 where
  pub current_version : t.row_version == command.row_version ≡ true
  pub version_executable : executable t ≡ true
  pub transition_found :
      transition_of cat t.workflow_version_id t.status_id command.transition_code ≡ some transition
  pub no_continuation : is_approval_continuation cat.upper transition.actions ≡ ok false
  pub validated : IsValidated cat now t transition command.field_updates updates

with_updates-ok :
    (tr transition : WorkflowTransition) (continues : Bool) (r : Result DeskError Values)
    (updates : Values)
    → with_updates tr continues r ≡ ok (transition, updates)
    → (continues ≡ false) × (tr ≡ transition) × (r ≡ ok updates)
with_updates-ok tr transition true r updates h = cc
with_updates-ok tr transition false (err e) updates h = cc
with_updates-ok tr transition false (ok us) updates h =
    (refl, ap (λ x. x.0) (ok_inj h), ap (λ x. ok x.1) (ok_inj h))

module _ (cat : Catalogue) (now : ℕ) (t : WorkflowTicket) (transition : WorkflowTransition)
    (updates : Values) where
  check_found-ok :
      (requested : Values) (found : Option WorkflowTransition)
      → check_found cat now t requested found ≡ ok (transition, updates)
      → (found ≡ some transition)
        × (is_approval_continuation cat.upper transition.actions ≡ ok false)
        × IsValidated cat now t transition requested updates
  check_found-ok requested none h = cc
  check_found-ok requested (some tr) h =
      let (continues, first, later) =
        >>=-eq-ok (is_approval_continuation cat.upper tr.actions) _ h in
      let (own, same, valid) = with_updates-ok tr transition continues _ updates later in
      (
        ap some same,
        ap (λ x. is_approval_continuation cat.upper x.actions) (sym same) ∙ (first ∙ ap ok own),
        validated_updates-IsValidated cat now t transition requested updates
            (ap (λ x. validated_updates cat now t x requested) (sym same) ∙ valid),
      )

  pub checked-IsChecked :
      (command : TransitionCommand)
      → checked cat now t command ≡ ok (transition, updates)
      → IsChecked cat now t command transition updates
  unfolding checked
  checked-IsChecked command h = elim (Bool-cases (t.row_version == command.row_version)) [
    | inl current ↦ elim (Bool-cases (executable t)) [
      | inl active ↦
          let (found, own, valid) =
            check_found-ok command.field_updates _ (rw (current, active) at h) in
          record {
            current_version = current;
            version_executable = active;
            transition_found = found;
            no_continuation = own;
            validated = valid;
          }
      | inr inactive ↦
          let lost : err configuration_conflict ≡ ok (transition, updates) =
            rw (current, inactive) at h in
          cc
    ]
    | inr stale ↦ let lost : err concurrency_error ≡ ok (transition, updates) = rw stale at h in cc
  ]

-- What `work` has read, checked and done.
pub record IsWork (cat : Catalogue) (now : ℕ) (context : Context) (tenant_id user_id : ℕ)
    (key : String) (command : TransitionCommand) (s : Desk) (payload : Payload) (s' : Desk)
    : Type 0 where
  pub ticket : WorkflowTicket
  pub transition : WorkflowTransition
  pub updates : Values
  pub ticket_found : ticket_of cat context tenant_id key s ≡ some ticket
  pub is_checked : IsChecked cat now ticket command transition updates
  pub is_performed : IsPerformed ticket transition user_id updates command.comment s payload s'

pub work-IsWork :
    (cat : Catalogue) (dir : Directory) (now : ℕ) (context : Context) (tenant_id user_id : ℕ)
    (key : String) (command : TransitionCommand) (s : Desk) (payload : Payload) (s' : Desk)
    → work cat dir now context tenant_id user_id key command s ≡ ok (payload, s')
    → IsWork cat now context tenant_id user_id key command s payload s'
unfolding work
work-IsWork cat dir now context tenant_id user_id key command s payload s' h =
    let (t, s₁, needed, h₁) =
      >>=-ok (need concurrency_error (ticket_of cat context tenant_id key s) s) _ h in
    let ((transition, updates), s₂, lift, h₂) =
      >>=-ok (lifted (checked cat now t command) s₁) _ h₁ in
    let (found, e₁) = need-ok concurrency_error _ s needed in
    let (plan, e₂) = lifted-ok (checked cat now t command) s₁ lift in
    record {
      ticket = t;
      transition = transition;
      updates = updates;
      ticket_found = found;
      is_checked = checked-IsChecked cat now t transition updates command plan;
      is_performed =
          subst (λ d. IsPerformed t transition user_id updates command.comment d payload s')
            (e₂ ∙ e₁)
            (perform-IsPerformed cat dir now tenant_id user_id t transition updates command.comment
              s₂ payload s' h₂);
    }
