-- ===== src/Routing/AssignTests.antt =====
-- A ticket that the default route gives to a group of two, in turn, and that is then assigned by hand.
use helpdesk_agent.Prelude.{
  ◌≡◌, refl, Bool, true, false, none, some, List, [], ◌∷◌, ◌++◌, Result, ok, arith,
}
use helpdesk_agent.Rules.Value.{null}
use helpdesk_agent.Approvals.Tables.{Tables}
use helpdesk_agent.Desk.{TicketRow, Desk, DeskError, Payload, assigned, Context, update_ticket}
use helpdesk_agent.Desk.Once.{once, claim_idempotency, complete_idempotency}
use helpdesk_agent.Desk.Called.{called}
use helpdesk_agent.Routing.Models.{RoutingRuleVersion}
use helpdesk_agent.Routing.Select.{select_rule, specificity}
use helpdesk_agent.Routing.Assign.{
  Groups, ManualCommand, Member, eligible, assignment_count, round_robin_assignee, routing_ticket,
}
use helpdesk_agent.Routing.Calls.{
  assign, record_assignment, assign_to, assignee_of, route_work, manual_work, route, assign_manual,
  history_row,
}
use helpdesk_agent.Routing.Turns.{IsTurn, Balanced, round_robin_assignee-Balanced}
use helpdesk_agent.Routing.Routed.{IsRouted, route-recorded}
use helpdesk_agent.Routing.Replayed.{route-replayed}
use helpdesk_agent.Routing.Manual.{IsReassigned, assign_manual-recorded}

abbrev pub default_route : RoutingRuleVersion
default_route = record {
  routing_rule_id = 1;
  routing_rule_version_id = 11;
  version_number = 1;
  rule_priority = 1;
  condition = null;
  assignment_group_id = 7;
  assignment_method = "ROUND_ROBIN";
  assignee_user_id = none;
  effective_from = none;
  group_code = "DESK";
}

abbrev pub agents : List Member
agents =
    record { user_id = 2; member_role = "AGENT" }
    ∷ record { user_id = 3; member_role = "LEAD" }
    ∷ record { user_id = 4; member_role = "VIEWER" }
    ∷ []

abbrev pub groups : Groups
groups = record {
  codes_of = λ _. record {
    project_id = "1";
    project_code = "IT";
    service_node_id = none;
    service_node_code = none;
    service_code = none;
    module_code = none;
    environment_code = none;
    work_type_code = "INCIDENT";
    priority_code = "P3";
    status_code = "NEW";
    custom_fields = [];
  };
  rule_versions = λ _ _. default_route ∷ [];
  group_code = λ _ _. some "DESK";
  members = λ _ _. agents;
  collapse = λ s. s;
  route_hash = λ _ version. version;
  manual_hash = λ _ command. command.row_version;
}

abbrev pub new_row : TicketRow
new_row = record {
  ticket_id = 100;
  tenant_id = 1;
  ticket_key = "IT-1";
  project_id = 1;
  work_type_id = 1;
  workflow_version_id = 1;
  status_id = 10;
  row_version = 1;
  summary = "Printer";
  description = none;
  reporter_user_id = 9;
  requested_for_user_id = none;
  assignment_group_id = none;
  assignee_user_id = none;
  resolution_code = null;
  resolution_summary = null;
  first_response_at = null;
  resolved_at = null;
  closed_at = null;
  updated_by = 9;
}

abbrev pub no_approvals : Tables
no_approvals = record {
  approvals = [];
  next_id = 0;
  tickets = [];
  facts = [];
  outbox = [];
  workflow_outbox = [];
  idempotency = [];
}

abbrev pub new_desk : Desk
new_desk = record {
  tickets = new_row ∷ [];
  events = [];
  comments = [];
  history = [];
  idempotency = [];
  approvals = no_approvals;
}

abbrev pub lead : Context
lead = record {
  identity = some (1, 3);
  may_act = true;
  reads_all = false;
  support_group_ids = 7 ∷ [];
}

abbrev pub desk_of : Result DeskError ((Payload × Bool) × Desk) → Desk
desk_of (ok (_, s)) = s
desk_of _ = new_desk

abbrev pub routed : Result DeskError ((Payload × Bool) × Desk)
routed = route groups lead "IT-1" 1 "key" new_desk

abbrev pub route_answer : Payload
route_answer = assigned "DESK" (some 2) (some 11) true

pub routed_answered : routed ≡ ok ((route_answer, false), desk_of routed)
unfolding route called once claim_idempotency complete_idempotency route_work select_rule
    specificity assignee_of round_robin_assignee assign_to assign record_assignment update_ticket
routed_answered = refl

route-recorded_example : IsRouted groups lead "IT-1" 1 new_desk route_answer (desk_of routed)
route-recorded_example =
    route-recorded groups lead "IT-1" 1 "key" new_desk route_answer (desk_of routed) routed_answered

route-replayed_example :
    route groups lead "IT-1" 1 "key" (desk_of routed) ≡ ok ((route_answer, true), desk_of routed)
route-replayed_example =
    route-replayed groups lead "IT-1" 1 "key" new_desk route_answer (desk_of routed) routed_answered

first_turn : round_robin_assignee groups 1 7 new_desk ≡ some 2
unfolding round_robin_assignee
first_turn = refl

round_robin_assignee-Balanced_example :
    IsTurn (λ u. assignment_count 7 u new_desk.history) agents 2
    × Balanced
        (λ u. assignment_count 7 u (
          new_desk.history
          ++ history_row (routing_ticket groups new_row) 7 (some 2) 3 (some 11) ∷ []))
        (eligible agents)
round_robin_assignee-Balanced_example =
    round_robin_assignee-Balanced groups 1 7 new_desk 2 (routing_ticket groups new_row) 3 (some 11)
      first_turn ((omega arith, (omega arith, tt)), ((omega arith, (omega arith, tt)), tt))

abbrev by_hand : ManualCommand
by_hand = record {
  assignment_group_id = 7;
  assignee_user_id = some 3;
  reason = "on duty";
  row_version = 1;
}

abbrev reassigned : Result DeskError ((Payload × Bool) × Desk)
reassigned = assign_manual groups lead "IT-1" by_hand "key" new_desk

reassigned_answered :
    reassigned ≡ ok ((assigned "DESK" (some 3) none false, false), desk_of reassigned)
unfolding assign_manual called once claim_idempotency complete_idempotency manual_work assign_to
    assign record_assignment update_ticket
reassigned_answered = refl

assign_manual-recorded_example :
    IsReassigned groups lead "IT-1" by_hand new_desk
      (assigned "DESK" (some 3) none false)
      (desk_of reassigned)
assign_manual-recorded_example =
    assign_manual-recorded groups lead "IT-1" by_hand "key" new_desk
      (assigned "DESK" (some 3) none false) (desk_of reassigned) reassigned_answered
