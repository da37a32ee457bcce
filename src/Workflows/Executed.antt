-- ===== src/Workflows/Executed.antt =====
-- `execute`: what it records, and the same request again.
use mathlib.Core.Path.{subst}
use helpdesk_agent.Prelude.{
  ℕ, ◌+◌, ◌≡◌, sym, ap, ◌∙◌, String, Bool, true, false, some, [], ◌∷◌, ◌++◌, ok,
}
use helpdesk_agent.Rules.Evaluate.{Values}
use helpdesk_agent.Approvals.Service.{Directory}
use helpdesk_agent.Desk.{
  require, require-ok, Desk, authorization_denied, not_found, Payload, transitioned,
  transition_executed, need, >>=-ok, need-ok, Context, update_rows, ticket_transition,
}
use helpdesk_agent.Desk.Once.{once}
use helpdesk_agent.Desk.Replay.{once-IsFirst}
use helpdesk_agent.Workflows.Models.{
  WorkflowTicket, WorkflowTransition, TransitionCommand, Catalogue,
}
use helpdesk_agent.Workflows.Reads.{ticket_of}
use helpdesk_agent.Workflows.Execute.{is_unchanged, moved, work, with_comment_normalized, execute}
use helpdesk_agent.Workflows.Performed.{comment_events}
use helpdesk_agent.Workflows.Recorded.{IsChecked, work-IsWork}

module _ (cat : Catalogue) (dir : Directory) (now : ℕ) (context : Context) (key : String)
    (command : TransitionCommand) where
  -- The command with its comment stripped.
  abbrev pub normal : TransitionCommand
  normal = with_comment_normalized cat command

  -- What stands when a transition has been executed and not replayed.
  pub record IsExecuted (s : Desk) (payload : Payload) (s' : Desk) : Type 0 where
    pub tenant_id : ℕ
    pub user_id : ℕ
    pub ticket : WorkflowTicket
    pub transition : WorkflowTransition
    pub updates : Values
    pub permitted : context.may_act ≡ true
    pub identified : context.identity ≡ some (tenant_id, user_id)
    pub ticket_found : ticket_of cat context tenant_id key s ≡ some ticket
    pub is_checked : IsChecked cat now ticket normal transition updates
    pub answered : payload ≡ transitioned transition.transition_code (ticket.row_version + 1)
    pub new_tickets :
        s'.tickets ≡ update_rows (is_unchanged ticket) (moved transition user_id updates) s.tickets
    pub new_events :
        s'.events
        ≡ (s.events ++ comment_events ticket.ticket_id normal.comment)
          ++ transition_executed ticket.ticket_id transition.transition_id ticket.row_version
              (ticket.row_version + 1)
            ∷ []
    pub same_history : s'.history ≡ s.history

  -- The call within `once`.
  pub record IsCalled (idempotency_key : String) (s : Desk) (answer : Payload × Bool) (s' : Desk)
      : Type 0 where
    pub tenant : ℕ
    pub user : ℕ
    pub may : context.may_act ≡ true
    pub who : context.identity ≡ some (tenant, user)
    pub row : WorkflowTicket
    pub found : ticket_of cat context tenant key s ≡ some row
    pub call :
        once tenant user ticket_transition idempotency_key
          (cat.request_hash key normal)
          (work cat dir now context tenant user key normal)
          s
        ≡ ok (answer, s')

  pub execute-IsCalled :
      (idempotency_key : String) (s : Desk) (answer : Payload × Bool) (s' : Desk)
      → execute cat dir now context key command idempotency_key s ≡ ok (answer, s')
      → IsCalled idempotency_key s answer s'
  unfolding execute
  execute-IsCalled idempotency_key s answer s' h =
      let (_, s₁, allowed, h₁) = >>=-ok (require context.may_act authorization_denied s) _ h in
      let (may, e₁) = require-ok context.may_act authorization_denied s s₁ allowed in
      let ((tenant_id, user_id), s₂, identity, h₂) =
        >>=-ok (need not_found context.identity s₁) _ h₁ in
      let (who, e₂) = need-ok not_found context.identity s₁ identity in
      let (t, s₃, visible, h₃) =
        >>=-ok (need not_found (ticket_of cat context tenant_id key s₂) s₂) _ h₂ in
      let (found, e₃) = need-ok not_found _ s₂ visible in
      let back = e₂ ∙ e₁ in
      record {
        tenant = tenant_id;
        user = user_id;
        may = may;
        who = who;
        row = t;
        found = ap (ticket_of cat context tenant_id key) (sym back) ∙ found;
        call =
            subst
              (λ d.
                once tenant_id user_id ticket_transition idempotency_key
                  (cat.request_hash key normal)
                  (work cat dir now context tenant_id user_id key normal) d
                ≡ ok (answer, s'))
              (e₃ ∙ back) h₃;
      }

  -- A transition that is answered, and not replayed, was asked for by a user who may execute
  -- transitions, for a ticket that the user sees. The ticket had the command's version and an
  -- executable workflow version; the transition with the command's code leads on from its status, is
  -- not for approvals only, its condition held and its required fields were given. The ticket has moved
  -- to the transition's status with the valid updates and one version on, no other row has changed, the
  -- transition, after the comment if there is one, is recorded as an event, and the answer is its code
  -- and the new version.
  pub execute-recorded :
      (idempotency_key : String) (s : Desk) (payload : Payload) (s' : Desk)
      → execute cat dir now context key command idempotency_key s ≡ ok ((payload, false), s')
      → IsExecuted s payload s'
  execute-recorded idempotency_key s payload s' h =
      let c = execute-IsCalled idempotency_key s (payload, false) s' h in
      let f =
        once-IsFirst c.tenant c.user ticket_transition idempotency_key (cat.request_hash key normal)
          _ s payload s' c.call in
      let w =
        work-IsWork cat dir now context c.tenant c.user key normal f.start payload f.end f.worked in
      let p = w.is_performed in
      record {
        tenant_id = c.tenant;
        user_id = c.user;
        ticket = w.ticket;
        transition = w.transition;
        updates = w.updates;
        permitted = c.may;
        identified = c.who;
        ticket_found =
            ap (ticket_of cat context c.tenant key) (sym f.is_claim.others_kept) ∙ w.ticket_found;
        is_checked = w.is_checked;
        answered = p.answered;
        new_tickets =
            ap (λ d. d.tickets) f.completed
            ∙ (p.new_tickets
                ∙ ap
                    (λ d.
                      update_rows (is_unchanged w.ticket) (moved w.transition c.user w.updates)
                        d.tickets)
                    f.is_claim.others_kept);
        new_events =
            ap (λ d. d.events) f.completed
            ∙ (p.new_events
                ∙ ap
                    (λ d.
                      (d.events ++ comment_events w.ticket.ticket_id normal.comment)
                      ++ transition_executed w.ticket.ticket_id w.transition.transition_id
                          w.ticket.row_version (w.ticket.row_version + 1)
                        ∷ [])
                    f.is_claim.others_kept);
        same_history =
            ap (λ d. d.history) f.completed
            ∙ (p.same_history ∙ ap (λ d. d.history) f.is_claim.others_kept);
      }
