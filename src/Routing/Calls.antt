-- ===== src/Routing/Calls.antt =====
-- `route` and `assign_manual` of apps/api/app/routing/service.py, with the writes of repository.py.
use Prim.Native.String.{count}
use package.text.Mathlib.Text.{◌==◌ as text_eq}
use helpdesk_agent.Prelude.{
  ℕ, String, Bool, true, false, not, ◌&&◌, ◌||◌, Option, none, some, [], ◌∷◌, ◌++◌, ◌==◌, ltb, any,
  if◌then◌else◌, Result, ok, err,
}
use helpdesk_agent.Desk.{
  TicketRow, HistoryRow, Desk, DeskError, authorization_denied, concurrency_error,
  configuration_conflict, validation_failed, uncaught, Payload, assigned, ticket_route,
  ticket_assign_manual, TicketEvent, ticket_routed, ticket_reassigned, Action, ◌>>=◌, ◌>>◌, pure,
  reads, writes, need, lifted, require, Context, update_ticket,
}
use helpdesk_agent.Desk.Called.{called}
use helpdesk_agent.Routing.Models.{RoutingTicket, RoutingRuleVersion}
use helpdesk_agent.Routing.Select.{
  RoutingError, routing_configuration, uncaught_type_error, Route, select_rule,
}
use helpdesk_agent.Routing.Assign.{
  Groups, ManualCommand, routing_ticket_of, target, round_robin_assignee,
}

abbrev pub same_id : Option ℕ → Option ℕ → Bool
same_id none none = true
same_id (some a) (some b) = a == b
same_id _ _ = false

-- The row that the ticket was read from, if nothing has changed it since.
abbrev pub is_current : RoutingTicket → TicketRow → Bool
is_current t r =
    (r.ticket_id == t.ticket_id && r.row_version == t.row_version)
    && (same_id r.assignment_group_id t.assignment_group_id
        && same_id r.assignee_user_id t.assignee_user_id)

abbrev pub given_to : ℕ → Option ℕ → ℕ → TicketRow → TicketRow
given_to group assignee actor r = record r {
  assignment_group_id = some group;
  assignee_user_id = assignee;
  updated_by = actor;
}

-- `assign`: the new version, if the ticket is as it was read.
unfoldable pub assign : RoutingTicket → ℕ → Option ℕ → ℕ → Action (Option ℕ)
assign t group assignee actor = update_ticket (is_current t) (given_to group assignee actor)

abbrev pub history_row : RoutingTicket → ℕ → Option ℕ → ℕ → Option ℕ → HistoryRow
history_row t group assignee actor rule = record {
  ticket_id = t.ticket_id;
  from_group_id = t.assignment_group_id;
  to_group_id = group;
  from_assignee_id = t.assignee_user_id;
  to_assignee_id = assignee;
  routing_rule_version_id = rule;
  assigned_by = actor;
}

abbrev pub assignment_event : RoutingTicket → Option ℕ → ℕ → TicketEvent
assignment_event t (some _) new_version = ticket_routed t.ticket_id t.row_version new_version
assignment_event t none new_version = ticket_reassigned t.ticket_id t.row_version new_version

-- `record_assignment`: the history row and the event, with its audit entry and outbox events.
unfoldable pub record_assignment :
    RoutingTicket → ℕ → Option ℕ → ℕ → Option ℕ → ℕ → Action (Unit {0})
record_assignment t group assignee actor rule new_version = writes λ s. record s {
  history = s.history ++ history_row t group assignee actor rule ∷ [];
  events = s.events ++ assignment_event t rule new_version ∷ [];
}

-- What `route` and `assign_manual` do once they know the group and the assignee.
unfoldable pub assign_to :
    RoutingTicket → ℕ → String → Option ℕ → ℕ → Option ℕ → Bool → Action Payload
assign_to t group code assignee actor rule fallback = assign t group assignee actor >>= λ new.
    need concurrency_error new >>= λ new_version.
    record_assignment t group assignee actor rule new_version
    >> pure (assigned code assignee rule fallback)

abbrev pub selection_error : RoutingError → DeskError
selection_error routing_configuration = configuration_conflict
selection_error uncaught_type_error = uncaught

abbrev pub selected : Result RoutingError Route → Result DeskError Route
selected (ok route) = ok route
selected (err e) = err (selection_error e)

-- `_authorize_group`
abbrev pub may_assign_to : Context → ℕ → Bool
may_assign_to context group = context.reads_all || any (λ g. g == group) context.support_group_ids

abbrev pub need_turn : Option ℕ → Result DeskError (Option ℕ)
need_turn none = err configuration_conflict
need_turn (some user) = ok (some user)

abbrev pub need_target : ℕ → Option (String × Option ℕ) → Result DeskError (Option ℕ)
need_target user none = err configuration_conflict
need_target user (some _) = ok (some user)

abbrev pub named : Groups → ℕ → RoutingRuleVersion → Option ℕ → Result DeskError (Option ℕ)
named groups tenant_id rule none = err configuration_conflict
named groups tenant_id rule (some user) =
    need_target user (target groups tenant_id rule.assignment_group_id (some user))

-- `_assignee`
unfoldable pub assignee_of :
    Groups → RoutingTicket → RoutingRuleVersion → Desk → Result DeskError (Option ℕ)
assignee_of groups t rule s =
    if text_eq rule.assignment_method "GROUP_ONLY"
    then ok none
    else if text_eq rule.assignment_method "ROUND_ROBIN"
    then need_turn (round_robin_assignee groups t.tenant_id rule.assignment_group_id s)
    else if text_eq rule.assignment_method "NAMED_ASSIGNEE"
    then named groups t.tenant_id rule rule.assignee_user_id
    else err configuration_conflict

-- `route` after the claim of its key
unfoldable pub route_work : Groups → Context → ℕ → ℕ → String → ℕ → Action Payload
route_work groups context tenant_id user_id key row_version =
    reads (routing_ticket_of groups context tenant_id key) >>= λ found.
    need concurrency_error found >>= λ t.
    require (t.row_version == row_version) concurrency_error
    >> (lifted (selected (select_rule (groups.rule_versions t.tenant_id t.project_id) t))
        >>= λ chosen.
            require (may_assign_to context chosen.chosen.assignment_group_id) authorization_denied
            >> (reads (assignee_of groups t chosen.chosen) >>= λ picked.
                lifted picked >>= λ assignee.
                assign_to t chosen.chosen.assignment_group_id chosen.chosen.group_code assignee
                  user_id (some chosen.chosen.routing_rule_version_id) chosen.fallback))

-- `assign_manual` after the claim of its key
unfoldable pub manual_work : Groups → Context → ℕ → ℕ → String → ManualCommand → Action Payload
manual_work groups context tenant_id user_id key command =
    reads (routing_ticket_of groups context tenant_id key) >>= λ found.
    need concurrency_error found >>= λ t.
    require (t.row_version == command.row_version) concurrency_error
    >> (require (may_assign_to context command.assignment_group_id) authorization_denied
        >> (need validation_failed
              (target groups tenant_id command.assignment_group_id command.assignee_user_id)
            >>= λ found_target.
                assign_to t command.assignment_group_id found_target.0 found_target.1 user_id none
                  false))

-- `RoutingService.route` up to its commit
unfoldable pub route : Groups → Context → String → ℕ → String → Action (Payload × Bool)
unfolding called
route groups context key row_version idempotency_key =
    called context true (λ tenant_id. routing_ticket_of groups context tenant_id key) ticket_route
      idempotency_key (groups.route_hash key row_version)
      (λ tenant_id user_id. route_work groups context tenant_id user_id key row_version)

abbrev pub with_reason : Groups → ManualCommand → ManualCommand
with_reason groups command = record command { reason = groups.collapse command.reason }

-- `RoutingService.assign_manual` up to its commit
unfoldable pub assign_manual :
    Groups → Context → String → ManualCommand → String → Action (Payload × Bool)
unfolding called
assign_manual groups context key command idempotency_key =
    called context (not (ltb (count (groups.collapse command.reason)) 3))
      (λ tenant_id. routing_ticket_of groups context tenant_id key) ticket_assign_manual
      idempotency_key (groups.manual_hash key (with_reason groups command))
      (λ tenant_id user_id. manual_work groups context tenant_id user_id key command)
