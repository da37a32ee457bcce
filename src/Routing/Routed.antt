-- ===== src/Routing/Routed.antt =====
-- What `route` has checked and written when it is answered.
use mathlib.Core.Path.{subst}
use helpdesk_agent.Prelude.{
  ℕ, ◌+◌, ◌≡◌, sym, ap, ◌∙◌, String, true, false, Option, some, [], ◌∷◌, ◌++◌, ◌==◌, Result, ok,
  err,
}
use helpdesk_agent.Desk.{
  Desk, authorization_denied, concurrency_error, Payload, assigned, need, require, lifted, >>=-ok,
  need-ok, require-ok, lifted-ok, Context, update_rows, ticket_route,
}
use helpdesk_agent.Desk.Called.{called-IsCalled}
use helpdesk_agent.Desk.Replay.{once-IsFirst}
use helpdesk_agent.Routing.Models.{RoutingTicket, RoutingRuleVersion}
use helpdesk_agent.Routing.Select.{RoutingError, Route, select_rule}
use helpdesk_agent.Routing.Assign.{Groups, routing_ticket_of, round_robin_assignee}
use helpdesk_agent.Routing.Calls.{
  is_current, given_to, history_row, assignment_event, selected, may_assign_to, assignee_of,
  route_work, route,
}
use helpdesk_agent.Routing.Assigned.{IsAssigned, assign_to-IsAssigned}

selected-ok :
    (r : Result RoutingError Route) (chosen : Route) → selected r ≡ ok chosen → r ≡ ok chosen
selected-ok (ok c) chosen h = cc
selected-ok (err e) chosen h = cc

module _ (groups : Groups) (context : Context) (key : String) (row_version : ℕ) where
  -- The checks of a route and what they give.
  pub record IsChosen (tenant_id : ℕ) (s : Desk) (t : RoutingTicket) (chosen : Route)
      (assignee : Option ℕ) : Type 0 where
    pub ticket_found : routing_ticket_of groups context tenant_id key s ≡ some t
    pub current_version : t.row_version == row_version ≡ true
    pub rule_selected : select_rule (groups.rule_versions t.tenant_id t.project_id) t ≡ ok chosen
    pub group_permitted : may_assign_to context chosen.chosen.assignment_group_id ≡ true
    pub assignee_picked : assignee_of groups t chosen.chosen s ≡ ok assignee

  pub record IsWork (tenant_id user_id : ℕ) (s : Desk) (payload : Payload) (s' : Desk)
      : Type 0 where
    pub ticket : RoutingTicket
    pub chosen : Route
    pub assignee : Option ℕ
    pub is_chosen : IsChosen tenant_id s ticket chosen assignee
    pub is_assigned :
        IsAssigned ticket chosen.chosen.assignment_group_id chosen.chosen.group_code assignee
          user_id
          (some chosen.chosen.routing_rule_version_id)
          chosen.fallback
          s
          payload
          s'

  pub route_work-IsWork :
      (tenant_id user_id : ℕ) (s : Desk) (payload : Payload) (s' : Desk)
      → route_work groups context tenant_id user_id key row_version s ≡ ok (payload, s')
      → IsWork tenant_id user_id s payload s'
  unfolding route_work
  route_work-IsWork tenant_id user_id s payload s' h =
      let (t, s₁, needed, h₁) =
        >>=-ok (need concurrency_error (routing_ticket_of groups context tenant_id key s) s) _ h in
      let (found, e₁) = need-ok concurrency_error _ s needed in
      let (_, s₂, versions, h₂) =
        >>=-ok (require (t.row_version == row_version) concurrency_error s₁) _ h₁ in
      let (current, e₂) = require-ok _ concurrency_error s₁ s₂ versions in
      let (chosen, s₃, selection, h₃) =
        >>=-ok
          (lifted (selected (select_rule (groups.rule_versions t.tenant_id t.project_id) t)) s₂) _
          h₂ in
      let (rule, e₃) = lifted-ok _ s₂ selection in
      let (_, s₄, permission, h₄) =
        >>=-ok
          (require (may_assign_to context chosen.chosen.assignment_group_id) authorization_denied
            s₃)
          _ h₃ in
      let (may, e₄) = require-ok _ authorization_denied s₃ s₄ permission in
      let (assignee, s₅, picking, h₅) =
        >>=-ok (lifted (assignee_of groups t chosen.chosen s₄) s₄) _ h₄ in
      let (picked, e₅) = lifted-ok _ s₄ picking in
      let back₄ : s₄ ≡ s = e₄ ∙ (e₃ ∙ (e₂ ∙ e₁)) in
      record {
        ticket = t;
        chosen = chosen;
        assignee = assignee;
        is_chosen = record {
          ticket_found = found;
          current_version = current;
          rule_selected = selected-ok _ chosen rule;
          group_permitted = may;
          assignee_picked = ap (assignee_of groups t chosen.chosen) (sym back₄) ∙ picked;
        };
        is_assigned =
            subst
              (λ d.
                IsAssigned t chosen.chosen.assignment_group_id chosen.chosen.group_code assignee
                  user_id (some chosen.chosen.routing_rule_version_id) chosen.fallback d payload s')
              (e₅ ∙ back₄)
              (assign_to-IsAssigned t chosen.chosen.assignment_group_id chosen.chosen.group_code
                assignee user_id (some chosen.chosen.routing_rule_version_id) chosen.fallback s₅
                payload s' h₅);
      }

  -- What stands when a ticket has been routed and not replayed.
  pub record IsRouted (s : Desk) (payload : Payload) (s' : Desk) : Type 0 where
    pub tenant_id : ℕ
    pub user_id : ℕ
    pub ticket : RoutingTicket
    pub chosen : Route
    pub assignee : Option ℕ
    pub permitted : context.may_act ≡ true
    pub identified : context.identity ≡ some (tenant_id, user_id)
    pub is_chosen : IsChosen tenant_id s ticket chosen assignee
    pub answered :
        payload
        ≡ assigned chosen.chosen.group_code assignee
            (some chosen.chosen.routing_rule_version_id)
            chosen.fallback
    pub new_tickets :
        s'.tickets
        ≡ update_rows
            (is_current ticket)
            (given_to chosen.chosen.assignment_group_id assignee user_id)
            s.tickets
    pub new_history :
        s'.history
        ≡ s.history
          ++ history_row ticket chosen.chosen.assignment_group_id assignee user_id
              (some chosen.chosen.routing_rule_version_id)
            ∷ []
    pub new_events :
        s'.events
        ≡ s.events
          ++ assignment_event ticket
              (some chosen.chosen.routing_rule_version_id)
              (ticket.row_version + 1)
            ∷ []

  same_assignee :
      (t : RoutingTicket) (rule : RoutingRuleVersion) (s u : Desk)
      → u ≡ record s { idempotency = u.idempotency }
      → assignee_of groups t rule s ≡ assignee_of groups t rule u
  unfolding assignee_of round_robin_assignee
  same_assignee t rule s u kept = ap (assignee_of groups t rule) (sym kept)

  -- A route that is answered, and not replayed, was asked for by a user who may route tickets, for a
  -- ticket that the user sees and that had the command's version. The rule is the one that is selected
  -- among the rules in effect, its group is one that the user may assign to, and the assignee is the one
  -- of the rule's method. The ticket is given to them, one version on, the assignment is added to the
  -- history and as an event, and the answer names the group, the assignee and the rule.
  pub route-recorded :
      (idempotency_key : String) (s : Desk) (payload : Payload) (s' : Desk)
      → route groups context key row_version idempotency_key s ≡ ok ((payload, false), s')
      → IsRouted s payload s'
  unfolding route
  route-recorded idempotency_key s payload s' h =
      let c =
        called-IsCalled context true (λ tenant_id. routing_ticket_of groups context tenant_id key)
          ticket_route idempotency_key (groups.route_hash key row_version)
          (λ tenant_id user_id. route_work groups context tenant_id user_id key row_version) s
          (payload, false) s' h in
      let f =
        once-IsFirst c.tenant c.user ticket_route idempotency_key
          (groups.route_hash key row_version) _ s payload s' c.call in
      let w = route_work-IsWork c.tenant c.user f.start payload f.end f.worked in
      let kept = f.is_claim.others_kept in
      record {
        tenant_id = c.tenant;
        user_id = c.user;
        ticket = w.ticket;
        chosen = w.chosen;
        assignee = w.assignee;
        permitted = c.may;
        identified = c.who;
        is_chosen = record {
          ticket_found =
              ap (routing_ticket_of groups context c.tenant key) (sym kept)
              ∙ w.is_chosen.ticket_found;
          current_version = w.is_chosen.current_version;
          rule_selected = w.is_chosen.rule_selected;
          group_permitted = w.is_chosen.group_permitted;
          assignee_picked =
              same_assignee w.ticket w.chosen.chosen s f.start kept ∙ w.is_chosen.assignee_picked;
        };
        answered = w.is_assigned.answered;
        new_tickets =
            ap (λ d. d.tickets) f.completed
            ∙ (w.is_assigned.new_tickets
                ∙ ap
                    (λ d.
                      update_rows (is_current w.ticket)
                        (given_to w.chosen.chosen.assignment_group_id w.assignee c.user) d.tickets)
                    kept);
        new_history =
            ap (λ d. d.history) f.completed
            ∙ (w.is_assigned.new_history
                ∙ ap
                    (λ d.
                      d.history
                      ++ history_row w.ticket w.chosen.chosen.assignment_group_id w.assignee c.user
                          (some w.chosen.chosen.routing_rule_version_id)
                        ∷ [])
                    kept);
        new_events =
            ap (λ d. d.events) f.completed
            ∙ (w.is_assigned.new_events
                ∙ ap
                    (λ d.
                      d.events
                      ++ assignment_event w.ticket (some w.chosen.chosen.routing_rule_version_id)
                          (w.ticket.row_version + 1)
                        ∷ [])
                    kept);
      }
