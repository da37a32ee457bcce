-- ===== src/Workflows/Performed.antt =====
-- What the writes of `execute` leave: the ticket, its events and the approvals.
use mathlib.Core.Path.{subst}
use helpdesk_agent.Prelude.{
  ℕ, ◌+◌, ◌≡◌, refl, sym, ap, ◌∙◌, String, Bool, true, false, Option, none, some, List, [], ◌∷◌,
  ◌++◌, all, if◌then◌else◌, Result, ok, err, ok_inj, arith, Bool-cases, inl, inr,
}
use package.text.Mathlib.Text.{◌==◌ as text_eq}
use helpdesk_agent.Rules.Evaluate.{Values}
use helpdesk_agent.Approvals.Service.{Directory}
use helpdesk_agent.Approvals.Service.{request as request_approval}
use helpdesk_agent.Approvals.Tables.{Step, done, raised, committed}
use helpdesk_agent.Desk.{
  TicketRow, Desk, DeskError, concurrency_error, uncaught, Payload, transitioned,
  transition_executed, public_comment_added, TicketEvent, pure, need, lifted, >>=-ok, need-ok,
  lifted-ok, with_event, find_row, update_rows, returned_version, update_ticket, ask_approval,
  approval_end, approval_tables, add_public_comment,
}
use helpdesk_agent.Desk.Rows.{next_version}
use helpdesk_agent.Workflows.Models.{WorkflowTicket, WorkflowTransition, Catalogue}
use helpdesk_agent.Workflows.Guard.{clearable_fields, one_of}
use helpdesk_agent.Workflows.Effects.{approval_requests}
use helpdesk_agent.Workflows.Execute.{
  is_unchanged, moved, apply_transition, record_transition, comment_on, ask_approvals, perform,
}

-- Only approvals have changed.
abbrev pub OnlyApprovals : Desk → Desk → Type 0
OnlyApprovals s s' = s' ≡ record s { approvals = s'.approvals }

ask_approval-OnlyApprovals :
    (dir : Directory) (now tenant_id ticket_id : ℕ) (code : String) (s : Desk) (id : ℕ) (s' : Desk)
    → ask_approval dir now tenant_id ticket_id code s ≡ ok (id, s')
    → OnlyApprovals s s'
unfolding ask_approval
ask_approval-OnlyApprovals dir now tenant_id ticket_id code s id s' h =
    go (request_approval dir now tenant_id ticket_id code (approval_tables s)) h
  where
    go : (step : Step ℕ) → approval_end s step ≡ ok (id, s') → OnlyApprovals s s'
    go (done n tables) q = subst (λ d. OnlyApprovals s d) (ap (λ x. x.1) (ok_inj q)) refl
    go (raised e) q = cc
    go (committed e tables) q = cc

ask_approvals-OnlyApprovals :
    (dir : Directory) (now tenant_id ticket_id : ℕ) (codes : List String) (s s' : Desk)
    → ask_approvals dir now tenant_id ticket_id codes s ≡ ok (tt, s')
    → OnlyApprovals s s'
ask_approvals-OnlyApprovals dir now tenant_id ticket_id [] s s' h =
    subst (λ d. OnlyApprovals s d) (ap (λ x. x.1) (ok_inj h)) refl
ask_approvals-OnlyApprovals dir now tenant_id ticket_id (code ∷ rest) s s' h =
    let (id, between, first, later) =
      >>=-ok (ask_approval dir now tenant_id ticket_id code s) _ h in
    ask_approvals-OnlyApprovals dir now tenant_id ticket_id rest between s' later
    ∙ ap {A = Desk} (λ d. record d { approvals = s'.approvals })
        (ask_approval-OnlyApprovals dir now tenant_id ticket_id code s id between first)

-- The events of a comment.
abbrev pub comment_events : ℕ → Option String → List TicketEvent
comment_events ticket_id none = []
comment_events ticket_id (some text) =
    if text_eq text "" then [] else public_comment_added ticket_id ∷ []

-- Nothing but comments has changed, and these events were added.
record Commented (added : List TicketEvent) (s s' : Desk) : Type 0 where
  same_tickets : s'.tickets ≡ s.tickets
  same_history : s'.history ≡ s.history
  same_keys : s'.idempotency ≡ s.idempotency
  new_events : s'.events ≡ s.events ++ added

append_none : (events : List TicketEvent) → events ≡ events ++ []
append_none [] = refl
append_none (e ∷ events) = ap (λ es. e ∷ es) (append_none events)

unchanged-Commented : (s : Desk) → Commented [] s s
unchanged-Commented s = record {
  same_tickets = refl;
  same_history = refl;
  same_keys = refl;
  new_events = append_none s.events;
}

written-Commented :
    (ticket_id user_id : ℕ) (text : String) (empty : Bool) (s s' : Desk)
    → ◌≡◌ {A = Result DeskError (Unit {0} × Desk)}
        ((if empty then pure tt else add_public_comment ticket_id user_id text) s)
        (ok (tt, s'))
    → Commented (if empty then [] else public_comment_added ticket_id ∷ []) s s'
unfolding add_public_comment
written-Commented ticket_id user_id text true s s' h =
    subst (λ x. Commented [] s x.1) (ok_inj h) (unchanged-Commented s)
written-Commented ticket_id user_id text false s s' h =
    subst (λ x. Commented (public_comment_added ticket_id ∷ []) s x.1) (ok_inj h)
      (record { same_tickets = refl; same_history = refl; same_keys = refl; new_events = refl })

comment_on-Commented :
    (ticket_id user_id : ℕ) (comment : Option String) (s s' : Desk)
    → comment_on ticket_id user_id comment s ≡ ok (tt, s')
    → Commented (comment_events ticket_id comment) s s'
comment_on-Commented ticket_id user_id none s s' h =
    subst (λ x. Commented [] s x.1) (ok_inj h) (unchanged-Commented s)
comment_on-Commented ticket_id user_id (some text) s s' h =
    written-Commented ticket_id user_id text (text_eq text "") s s' h

unchanged_version :
    (t : WorkflowTicket) (r : TicketRow) → is_unchanged t r ≡ true → r.row_version ≡ t.row_version
unchanged_version t r h = ground arith

-- What is left when a transition has been performed.
pub record IsPerformed (t : WorkflowTicket) (transition : WorkflowTransition) (user_id : ℕ)
    (updates : Values) (comment : Option String) (s : Desk) (payload : Payload) (s' : Desk)
    : Type 0 where
  pub only_settable : all (λ update. one_of clearable_fields update.0) updates ≡ true
  pub answered : payload ≡ transitioned transition.transition_code (t.row_version + 1)
  pub new_tickets :
      s'.tickets ≡ update_rows (is_unchanged t) (moved transition user_id updates) s.tickets
  pub new_events :
      s'.events
      ≡ (s.events ++ comment_events t.ticket_id comment)
        ++ transition_executed t.ticket_id transition.transition_id t.row_version
            (t.row_version + 1)
          ∷ []
  pub same_history : s'.history ≡ s.history
  pub same_keys : s'.idempotency ≡ s.idempotency

-- What `apply_transition` has done when it returns.
apply_transition-ok :
    (t : WorkflowTicket) (transition : WorkflowTransition) (user_id : ℕ) (updates : Values)
    (s : Desk) (new : Option ℕ) (s' : Desk)
    → apply_transition t transition user_id updates s ≡ ok (new, s')
    → (all (λ update. one_of clearable_fields update.0) updates ≡ true)
      × (returned_version (find_row (is_unchanged t) s.tickets) ≡ new)
      × (s' ≡ record s {
        tickets = update_rows (is_unchanged t) (moved transition user_id updates) s.tickets;
      })
unfolding apply_transition update_ticket
apply_transition-ok t transition user_id updates s new s' h =
    elim (Bool-cases (all (λ update. one_of clearable_fields update.0) updates)) [
      | inl known ↦
          let done = ok_inj (rw known at h) in (known, ap (λ x. x.0) done, sym (ap (λ x. x.1) done))
      | inr unknown ↦ let lost : err uncaught ≡ ok (new, s') = rw unknown at h in cc
    ]

pub perform-IsPerformed :
    (cat : Catalogue) (dir : Directory) (now tenant_id user_id : ℕ) (t : WorkflowTicket)
    (transition : WorkflowTransition) (updates : Values) (comment : Option String) (s : Desk)
    (payload : Payload) (s' : Desk)
    → perform cat dir now tenant_id user_id t transition updates comment s ≡ ok (payload, s')
    → IsPerformed t transition user_id updates comment s payload s'
unfolding perform record_transition
perform-IsPerformed cat dir now tenant_id user_id t transition updates comment s payload s' h =
    let (_, s₁, comments, h₁) = >>=-ok (comment_on t.ticket_id user_id comment s) _ h in
    let (new, s₂, applied, h₂) = >>=-ok (apply_transition t transition user_id updates s₁) _ h₁ in
    let (n, s₃, needed, h₃) = >>=-ok (need concurrency_error new s₂) _ h₂ in
    let (codes, s₄, asked, h₄) =
      >>=-ok (lifted (approval_requests cat.upper transition.actions) _) _ h₃ in
    let (_, s₅, requested, h₅) =
      >>=-ok (ask_approvals dir now tenant_id t.ticket_id codes s₄) _ h₄ in
    let commented = comment_on-Commented t.ticket_id user_id comment s s₁ comments in
    let (known, returned, e₂) =
      apply_transition-ok t transition user_id updates s₁ new s₂ applied in
    let (is_new, e₃) = need-ok concurrency_error new s₂ needed in
    let (_, e₄) = lifted-ok (approval_requests cat.upper transition.actions) _ asked in
    let e₅ = ask_approvals-OnlyApprovals dir now tenant_id t.ticket_id codes s₄ s₅ requested in
    let version =
      next_version (is_unchanged t) t.row_version (unchanged_version t) s₁.tickets n
        (returned ∙ is_new) in
    let event = transition_executed t.ticket_id transition.transition_id t.row_version n in
    let whole : s'
        ≡ record (with_event event (record s₁ {
          tickets = update_rows (is_unchanged t) (moved transition user_id updates) s₁.tickets;
        })) { approvals = s₅.approvals } =
      sym (ap (λ x. x.1) (ok_inj h₅))
      ∙ (e₅
          ∙ ap {A = Desk} (λ d. record d { approvals = s₅.approvals })
              (e₄ ∙ ap (with_event event) (e₃ ∙ e₂))) in
    record {
      only_settable = known;
      answered =
          sym (ap (λ x. x.0) (ok_inj h₅)) ∙ ap (transitioned transition.transition_code) version;
      new_tickets =
          ap (λ d. d.tickets) whole
          ∙ ap (update_rows (is_unchanged t) (moved transition user_id updates))
              commented.same_tickets;
      new_events =
          ap (λ d. d.events) whole
          ∙ (ap (λ es. es ++ event ∷ []) commented.new_events
              ∙ ap
                  (λ k.
                    (s.events ++ comment_events t.ticket_id comment)
                    ++ transition_executed t.ticket_id transition.transition_id t.row_version k
                      ∷ [])
                  version);
      same_history = ap (λ d. d.history) whole ∙ commented.same_history;
      same_keys = ap (λ d. d.idempotency) whole ∙ commented.same_keys;
    }
