-- ===== src/Routing/Assign.antt =====
-- Assignment of tickets: `route`, `assign_manual` and `_assignee` of apps/api/app/routing/service.py,
-- with the reads and writes of repository.py.
use package.text.Mathlib.Text.{◌==◌ as text_eq}
use helpdesk_agent.Prelude.{
  ℕ, ◌+◌, String, Bool, false, ◌&&◌, ◌||◌, Option, none, some, List, [], ◌∷◌, ◌==◌, ltb, leb, any,
  if◌then◌else◌,
}
use helpdesk_agent.Rules.Evaluate.{Values}
use helpdesk_agent.Desk.{TicketRow, HistoryRow, Desk, Context, is_visible, find_row}
use helpdesk_agent.Routing.Models.{RoutingTicket, RoutingRuleVersion}

-- What a ticket's row is joined with.
pub record TicketCodes : Type 0 where
  pub project_id : String
  pub project_code : String
  pub service_node_id : Option String
  pub service_node_code : Option String
  pub service_code : Option String
  pub module_code : Option String
  pub environment_code : Option String
  pub work_type_code : String
  pub priority_code : String
  pub status_code : String
  pub custom_fields : Values

-- An active member of a group who is an active user; the role may be one that is assigned in turn.
pub record Member : Type 0 where
  pub user_id : ℕ
  pub member_role : String

pub record ManualCommand : Type 0 where
  pub assignment_group_id : ℕ
  pub assignee_user_id : Option ℕ
  pub reason : String
  pub row_version : ℕ

-- What routing reads and never writes: the published rules in effect, active groups and their members;
-- and the library's `" ".join(reason.split())` and the hash of the canonical request.
pub record Groups : Type 0 where
  pub codes_of : TicketRow → TicketCodes
  pub rule_versions : ℕ → String → List RoutingRuleVersion
  pub group_code : ℕ → ℕ → Option String
  pub members : ℕ → ℕ → List Member
  pub collapse : String → String
  pub route_hash : String → ℕ → ℕ
  pub manual_hash : String → ManualCommand → ℕ

-- `RoutingRepository.ticket`
abbrev pub routing_ticket : Groups → TicketRow → RoutingTicket
routing_ticket groups r =
    let codes = groups.codes_of r in
    record {
      ticket_id = r.ticket_id;
      tenant_id = r.tenant_id;
      ticket_key = r.ticket_key;
      project_id = codes.project_id;
      project_code = codes.project_code;
      service_node_id = codes.service_node_id;
      service_node_code = codes.service_node_code;
      service_code = codes.service_code;
      module_code = codes.module_code;
      environment_code = codes.environment_code;
      work_type_code = codes.work_type_code;
      priority_code = codes.priority_code;
      status_code = codes.status_code;
      summary = r.summary;
      description = r.description;
      assignment_group_id = r.assignment_group_id;
      assignee_user_id = r.assignee_user_id;
      row_version = r.row_version;
      custom_fields = codes.custom_fields;
    }

abbrev pub routing_row : Groups → Option TicketRow → Option RoutingTicket
routing_row groups none = none
routing_row groups (some r) = some (routing_ticket groups r)

abbrev pub routing_ticket_of : Groups → Context → ℕ → String → Desk → Option RoutingTicket
routing_ticket_of groups context tenant_id key s =
    routing_row groups (find_row (is_visible context tenant_id key) s.tickets)

abbrev pub is_member : ℕ → List Member → Bool
is_member user = any (λ m. m.user_id == user)

-- `RoutingRepository.target`
abbrev pub target_in : String → List Member → Option ℕ → Option (String × Option ℕ)
target_in code members none = some (code, none)
target_in code members (some user) = if is_member user members then some (code, some user) else none

abbrev pub target_of : Option String → List Member → Option ℕ → Option (String × Option ℕ)
target_of none members assignee = none
target_of (some code) members assignee = target_in code members assignee

abbrev pub target : Groups → ℕ → ℕ → Option ℕ → Option (String × Option ℕ)
target groups tenant_id group assignee =
    target_of (groups.group_code tenant_id group) (groups.members tenant_id group) assignee

abbrev pub takes_turns : Member → Bool
takes_turns m =
    text_eq m.member_role "AGENT"
    || (text_eq m.member_role "LEAD" || text_eq m.member_role "MANAGER")

abbrev pub eligible : List Member → List ℕ
eligible [] = []
eligible (m ∷ rest) =
    let others = eligible rest in if takes_turns m then m.user_id ∷ others else others

abbrev pub is_assignment : ℕ → ℕ → HistoryRow → Bool
is_assignment group user h =
    h.to_group_id == group && elim h.to_assignee_id [ none ↦ false | some other ↦ other == user ]

-- `count(history.assignment_history_id)` of a member
abbrev pub assignment_count : ℕ → ℕ → List HistoryRow → ℕ
assignment_count group user [] = 0
assignment_count group user (h ∷ rest) =
    let others = assignment_count group user rest in
    if is_assignment group user h then others + 1 else others

-- `ORDER BY count(...), user_id LIMIT 1`
abbrev pub goes_before : (ℕ → ℕ) → ℕ → ℕ → Bool
goes_before counts a b = ltb (counts a) (counts b) || (counts a == counts b && leb a b)

abbrev pub first_of : (ℕ → ℕ) → ℕ → Option ℕ → ℕ
first_of counts a none = a
first_of counts a (some b) = if goes_before counts a b then a else b

abbrev pub next_in_turn : (ℕ → ℕ) → List ℕ → Option ℕ
next_in_turn counts [] = none
next_in_turn counts (a ∷ rest) = some (first_of counts a (next_in_turn counts rest))

-- `round_robin_assignee`
unfoldable pub round_robin_assignee : Groups → ℕ → ℕ → Desk → Option ℕ
round_robin_assignee groups tenant_id group s =
    next_in_turn (λ user. assignment_count group user s.history)
      (eligible (groups.members tenant_id group))
