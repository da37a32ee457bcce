-- ===== src/Routing/Manual.antt =====
-- What `assign_manual` has checked and written when it is answered.
use Prim.Native.String.{count}
use mathlib.Core.Path.{subst}
use helpdesk_agent.Prelude.{
  ℕ, ◌+◌, ◌≡◌, sym, ap, ◌∙◌, String, true, false, not, Option, none, some, [], ◌∷◌, ◌++◌, ◌==◌, ltb,
  ok,
}
use helpdesk_agent.Desk.{
  Desk, authorization_denied, concurrency_error, validation_failed, Payload, assigned, need,
  require, >>=-ok, need-ok, require-ok, Context, update_rows, ticket_assign_manual,
}
use helpdesk_agent.Desk.Called.{called-IsCalled}
use helpdesk_agent.Desk.Replay.{once-IsFirst}
use helpdesk_agent.Routing.Models.{RoutingTicket}
use helpdesk_agent.Routing.Assign.{Groups, ManualCommand, routing_ticket_of, target}
use helpdesk_agent.Routing.Calls.{
  is_current, given_to, history_row, assignment_event, may_assign_to, manual_work, with_reason,
  assign_manual,
}
use helpdesk_agent.Routing.Assigned.{IsAssigned, assign_to-IsAssigned}

module _ (groups : Groups) (context : Context) (key : String) (command : ManualCommand) where
  abbrev pub group : ℕ
  group = command.assignment_group_id

  -- The checks of a manual assignment and the code of its group.
  pub record IsTargeted (tenant_id : ℕ) (s : Desk) (t : RoutingTicket) (code : String)
      (assignee : Option ℕ) : Type 0 where
    pub ticket_found : routing_ticket_of groups context tenant_id key s ≡ some t
    pub current_version : t.row_version == command.row_version ≡ true
    pub group_permitted : may_assign_to context group ≡ true
    pub target_found :
        target groups tenant_id group command.assignee_user_id ≡ some (code, assignee)

  record IsWork (tenant_id user_id : ℕ) (s : Desk) (payload : Payload) (s' : Desk) : Type 0 where
    ticket : RoutingTicket
    code : String
    assignee : Option ℕ
    is_targeted : IsTargeted tenant_id s ticket code assignee
    is_assigned : IsAssigned ticket group code assignee user_id none false s payload s'

  manual_work-IsWork :
      (tenant_id user_id : ℕ) (s : Desk) (payload : Payload) (s' : Desk)
      → manual_work groups context tenant_id user_id key command s ≡ ok (payload, s')
      → IsWork tenant_id user_id s payload s'
  unfolding manual_work
  manual_work-IsWork tenant_id user_id s payload s' h =
      let (t, s₁, needed, h₁) =
        >>=-ok (need concurrency_error (routing_ticket_of groups context tenant_id key s) s) _ h in
      let (found, e₁) = need-ok concurrency_error _ s needed in
      let (_, s₂, versions, h₂) =
        >>=-ok (require (t.row_version == command.row_version) concurrency_error s₁) _ h₁ in
      let (current, e₂) = require-ok _ concurrency_error s₁ s₂ versions in
      let (_, s₃, permission, h₃) =
        >>=-ok (require (may_assign_to context group) authorization_denied s₂) _ h₂ in
      let (may, e₃) = require-ok _ authorization_denied s₂ s₃ permission in
      let ((code, assignee), s₄, targets, h₄) =
        >>=-ok (need validation_failed (target groups tenant_id group command.assignee_user_id) s₃)
          _ h₃ in
      let (targeted, e₄) = need-ok validation_failed _ s₃ targets in
      record {
        ticket = t;
        code = code;
        assignee = assignee;
        is_targeted = record {
          ticket_found = found;
          current_version = current;
          group_permitted = may;
          target_found = targeted;
        };
        is_assigned =
            subst (λ d. IsAssigned t group code assignee user_id none false d payload s')
              (e₄ ∙ (e₃ ∙ (e₂ ∙ e₁)))
              (assign_to-IsAssigned t group code assignee user_id none false s₄ payload s' h₄);
      }

  -- What stands when a ticket has been assigned and not replayed.
  pub record IsReassigned (s : Desk) (payload : Payload) (s' : Desk) : Type 0 where
    pub tenant_id : ℕ
    pub user_id : ℕ
    pub ticket : RoutingTicket
    pub code : String
    pub assignee : Option ℕ
    pub permitted : context.may_act ≡ true
    pub identified : context.identity ≡ some (tenant_id, user_id)
    pub reason_given : not (ltb (count (groups.collapse command.reason)) 3) ≡ true
    pub is_targeted : IsTargeted tenant_id s ticket code assignee
    pub answered : payload ≡ assigned code assignee none false
    pub new_tickets :
        s'.tickets ≡ update_rows (is_current ticket) (given_to group assignee user_id) s.tickets
    pub new_history : s'.history ≡ s.history ++ history_row ticket group assignee user_id none ∷ []
    pub new_events :
        s'.events ≡ s.events ++ assignment_event ticket none (ticket.row_version + 1) ∷ []

  -- A manual assignment that is answered, and not replayed, was asked for by a user who may assign
  -- tickets, with a reason of at least three characters, for a ticket that the user sees and that had the
  -- command's version. The group is one that the user may assign to, it is active, and the assignee, if
  -- there is one, is an active member. The ticket is given to them, one version on, and the assignment
  -- is added to the history and as an event.
  pub assign_manual-recorded :
      (idempotency_key : String) (s : Desk) (payload : Payload) (s' : Desk)
      → assign_manual groups context key command idempotency_key s ≡ ok ((payload, false), s')
      → IsReassigned s payload s'
  unfolding assign_manual
  assign_manual-recorded idempotency_key s payload s' h =
      let hash = groups.manual_hash key (with_reason groups command) in
      let c =
        called-IsCalled context (not (ltb (count (groups.collapse command.reason)) 3))
          (λ tenant_id. routing_ticket_of groups context tenant_id key) ticket_assign_manual
          idempotency_key hash
          (λ tenant_id user_id. manual_work groups context tenant_id user_id key command) s
          (payload, false) s' h in
      let f =
        once-IsFirst c.tenant c.user ticket_assign_manual idempotency_key hash _ s payload s'
          c.call in
      let w = manual_work-IsWork c.tenant c.user f.start payload f.end f.worked in
      let kept = f.is_claim.others_kept in
      record {
        tenant_id = c.tenant;
        user_id = c.user;
        ticket = w.ticket;
        code = w.code;
        assignee = w.assignee;
        permitted = c.may;
        identified = c.who;
        reason_given = c.is_valid;
        is_targeted = record {
          ticket_found =
              ap (routing_ticket_of groups context c.tenant key) (sym kept)
              ∙ w.is_targeted.ticket_found;
          current_version = w.is_targeted.current_version;
          group_permitted = w.is_targeted.group_permitted;
          target_found = w.is_targeted.target_found;
        };
        answered = w.is_assigned.answered;
        new_tickets =
            ap (λ d. d.tickets) f.completed
            ∙ (w.is_assigned.new_tickets
                ∙ ap
                    (λ d.
                      update_rows (is_current w.ticket) (given_to group w.assignee c.user)
                        d.tickets)
                    kept);
        new_history =
            ap (λ d. d.history) f.completed
            ∙ (w.is_assigned.new_history
                ∙ ap (λ d. d.history ++ history_row w.ticket group w.assignee c.user none ∷ [])
                    kept);
        new_events =
            ap (λ d. d.events) f.completed
            ∙ (w.is_assigned.new_events
                ∙ ap
                    (λ d.
                      d.events ++ assignment_event w.ticket none (w.ticket.row_version + 1) ∷ [])
                    kept);
      }
