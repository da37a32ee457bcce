-- ===== src/Workflows/Offers.antt =====
-- `available` against `execute`.
use package.text.Mathlib.Text.{◌==◌ as text_eq}
use helpdesk_agent.Prelude.{
  ℕ, ◌≡◌, refl, sym, ap, ◌∙◌, String, Bool, true, false, some, List, [], ◌∷◌, any, if◌then◌else◌,
  Result, ok, err, ok_inj, arith, Bool-cases, inl, inr,
}
use helpdesk_agent.Rules.Evaluate.{Values, evaluate}
use helpdesk_agent.Approvals.Service.{Directory}
use helpdesk_agent.Desk.{
  Desk, DeskError, Payload, Context, authorization_denied, not_found, pure, raise, need, need-some,
  >>=-from, lifted-ok,
}
use helpdesk_agent.Workflows.Models.{
  WorkflowTicket, WorkflowTransition, TransitionCommand, Catalogue,
}
use helpdesk_agent.Workflows.Guard.{values_of}
use helpdesk_agent.Workflows.Effects.{is_approval_continuation}
use helpdesk_agent.Workflows.Reads.{
  ticket_of, with_code_of, offered, offer, offers, available_for, available,
}
use helpdesk_agent.Workflows.Execute.{execute}
use helpdesk_agent.Workflows.Executed.{execute-recorded}

abbrev pub has_code : String → WorkflowTransition → Bool
has_code code t = text_eq t.transition_code code

module _ (code : String) where
  -- One round of the loop: what is offered later is offered still, and so is this transition.
  offer-later :
      (t : WorkflowTransition) (now_offered : Result DeskError Bool)
      (later : Result DeskError (List WorkflowTransition)) (listed : List WorkflowTransition)
      → offer t now_offered later ≡ ok listed
      → ((ls : List WorkflowTransition) → later ≡ ok ls → any (has_code code) ls ≡ true)
      → any (has_code code) listed ≡ true
  offer-later t (err e) later listed h k = cc
  offer-later t (ok true) (ok ls) listed h k =
      sym (ap (any (has_code code)) (ok_inj h)) ∙ rw (k ls refl) (ground arith)
  offer-later t (ok true) (err e) listed h k = cc
  offer-later t (ok false) later listed h k = k listed h

  offer-now :
      (t : WorkflowTransition) (later : Result DeskError (List WorkflowTransition))
      (listed : List WorkflowTransition)
      → has_code code t ≡ true
      → offer t (ok true) later ≡ ok listed
      → any (has_code code) listed ≡ true
  offer-now t (ok ls) listed hit h = sym (ap (any (has_code code)) (ok_inj h)) ∙ rw hit refl
  offer-now t (err e) listed hit h = cc

  offers-has_code :
      (cat : Catalogue) (values : Values) (ts listed : List WorkflowTransition)
      (transition : WorkflowTransition)
      → with_code_of code ts ≡ some transition
      → offered cat values transition ≡ ok true
      → offers cat values ts ≡ ok listed
      → any (has_code code) listed ≡ true
  offers-has_code cat values [] listed transition found allowed h = cc
  offers-has_code cat values (t ∷ ts) listed transition found allowed h =
      elim (Bool-cases (has_code code t)) [
        | inl hit ↦
            let same : some t ≡ some transition = rw hit at found in
            let own : offered cat values t ≡ ok true =
              ap (offered cat values) (some_inj same) ∙ allowed in
            offer-now t (offers cat values ts) listed hit
              (ap (λ r. offer t r (offers cat values ts)) (sym own) ∙ h)
        | inr miss ↦
            offer-later t (offered cat values t) (offers cat values ts) listed h
              (λ ls q. offers-has_code cat values ts ls transition (rw miss at found) allowed q)
      ]
    where
      some_inj : some t ≡ some transition → t ≡ transition
      some_inj e = cc

available-ok :
    (cat : Catalogue) (context : Context) (key : String) (s : Desk)
    (listed : List WorkflowTransition) (s' : Desk) (tenant_id user_id : ℕ) (t : WorkflowTicket)
    → context.may_act ≡ true
    → context.identity ≡ some (tenant_id, user_id)
    → ticket_of cat context tenant_id key s ≡ some t
    → available cat context key s ≡ ok (listed, s')
    → available_for cat t ≡ ok listed
unfolding available
available-ok cat context key s listed s' tenant_id user_id t may who found h =
    let runs =
      >>=-from ((if context.may_act then pure tt else raise authorization_denied) s) _
        (ap (λ b. (if b then pure tt else raise authorization_denied) s) may)
        (>>=-from (need not_found context.identity s) _ (need-some not_found context.identity s who)
          (>>=-from (need not_found (ticket_of cat context tenant_id key s) s) _
            (need-some not_found _ s found) refl)) in
    (lifted-ok (available_for cat t) s (sym runs ∙ h)).0

offered-ok :
    (cat : Catalogue) (values : Values) (t : WorkflowTransition)
    → is_approval_continuation cat.upper t.actions ≡ ok false
    → evaluate t.condition values ≡ ok true
    → offered cat values t ≡ ok true
offered-ok cat values t own guard = rw (own, guard) refl

-- A transition that a user has executed without field updates was among those that `available` listed
-- for the user before, if that call returned a list.
pub execute-available :
    (cat : Catalogue) (dir : Directory) (now : ℕ) (context : Context) (key : String)
    (command : TransitionCommand) (idempotency_key : String) (s : Desk) (payload : Payload)
    (s' : Desk) (listed : List WorkflowTransition) (s'' : Desk)
    → command.field_updates ≡ []
    → execute cat dir now context key command idempotency_key s ≡ ok ((payload, false), s')
    → available cat context key s ≡ ok (listed, s'')
    → any (has_code command.transition_code) listed ≡ true
execute-available cat dir now context key command idempotency_key s payload s' listed s'' plain h
      l =
    let e = execute-recorded cat dir now context key command idempotency_key s payload s' h in
    let c = e.is_checked in
    let listing =
      available-ok cat context key s listed s'' e.tenant_id e.user_id e.ticket e.permitted
        e.identified e.ticket_found l in
    let guard : evaluate e.transition.condition (values_of e.ticket []) ≡ ok true =
      ap (λ u. evaluate e.transition.condition (values_of e.ticket u)) (sym plain)
      ∙ c.validated.guard_holds in
    offers-has_code command.transition_code cat (values_of e.ticket []) _ listed e.transition
      c.transition_found
      (offered-ok cat (values_of e.ticket []) e.transition c.no_continuation guard)
      (rw c.version_executable at listing)
