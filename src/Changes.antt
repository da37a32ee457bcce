-- ===== src/Changes.antt =====
-- Changes of a ticket by the services together: transitions of apps/api/app/workflows and assignments of
-- apps/api/app/routing that ask for the same version of a ticket.
mod Tests
use package.text.Mathlib.Text.{◌==◌ as text_eq}
use helpdesk_agent.Prelude.{
  ℕ, ◌+◌, ◌≡◌, refl, sym, ap, ◌∙◌, String, Bool, true, false, ◌&&◌, Option, none, some, List, [],
  ◌∷◌, ◌==◌, Unique, Result, ok, err, arith,
}
use helpdesk_agent.Rules.Value.{Value}
use helpdesk_agent.Rules.Evaluate.{Values}
use helpdesk_agent.Approvals.Service.{Directory}
use helpdesk_agent.Desk.{
  TicketRow, Desk, Payload, Context, is_visible, find_row, update_rows, updated,
}
use helpdesk_agent.Desk.Versions.{same_key, has_key, updated_version}
use helpdesk_agent.Workflows.Models.{
  WorkflowTicket, WorkflowTransition, TransitionCommand, Catalogue,
}
use helpdesk_agent.Workflows.Reads.{joined, joined_row}
use helpdesk_agent.Workflows.Execute.{is_unchanged, moved, set_column, set_columns, execute}
use helpdesk_agent.Workflows.Executed.{IsExecuted, execute-recorded}
use helpdesk_agent.Routing.Models.{RoutingTicket}
use helpdesk_agent.Routing.Assign.{Groups, ManualCommand, routing_ticket, routing_row}
use helpdesk_agent.Routing.Calls.{same_id, is_current, given_to, route, assign_manual}
use helpdesk_agent.Routing.Routed.{IsRouted, route-recorded}
use helpdesk_agent.Routing.Manual.{IsReassigned, assign_manual-recorded}

-- A request about a ticket that asks for a version of it and is answered without a replay.
pub data Change (tenant_id : ℕ) (key : String) (version : ℕ) (s s' : Desk) : Type 0 where
  executed :
      (cat : Catalogue) (dir : Directory) (now : ℕ) (context : Context) (user_id : ℕ)
      (command : TransitionCommand) (idempotency_key : String) (payload : Payload)
      → context.identity ≡ some (tenant_id, user_id)
      → command.row_version ≡ version
      → execute cat dir now context key command idempotency_key s ≡ ok ((payload, false), s')
      → Change tenant_id key version s s'
  routed :
      (groups : Groups) (context : Context) (user_id : ℕ) (idempotency_key : String)
      (payload : Payload)
      → context.identity ≡ some (tenant_id, user_id)
      → route groups context key version idempotency_key s ≡ ok ((payload, false), s')
      → Change tenant_id key version s s'
  reassigned :
      (groups : Groups) (context : Context) (user_id : ℕ) (command : ManualCommand)
      (idempotency_key : String) (payload : Payload)
      → context.identity ≡ some (tenant_id, user_id)
      → command.row_version ≡ version
      → assign_manual groups context key command idempotency_key s ≡ ok ((payload, false), s')
      → Change tenant_id key version s s'

-- What each of them does: it updates the row that the user sees, which has the version.
record IsUpdate (tenant_id : ℕ) (key : String) (version : ℕ) (s s' : Desk) : Type 0 where
  context : Context
  row : TicketRow
  found : find_row (is_visible context tenant_id key) s.tickets ≡ some row
  versioned : row.row_version ≡ version
  chosen : TicketRow → Bool
  change : TicketRow → TicketRow
  is_chosen : chosen row ≡ true
  keeps_key : (r : TicketRow) → has_key tenant_id key (updated change r) ≡ has_key tenant_id key r
  new_tickets : s'.tickets ≡ update_rows chosen change s.tickets

is_visible-has_key :
    (context : Context) (tenant_id : ℕ) (key : String) (r : TicketRow)
    → is_visible context tenant_id key r ≡ true
    → has_key tenant_id key r ≡ true
is_visible-has_key context tenant_id key r h = ground arith

set_columns-has_key :
    (tenant_id : ℕ) (key : String) (updates : Values) (r : TicketRow)
    → has_key tenant_id key (set_columns updates r) ≡ has_key tenant_id key r
set_columns-has_key tenant_id key [] r = refl
set_columns-has_key tenant_id key ((name, v) ∷ rest) r =
    set_columns-has_key tenant_id key rest (set_column r (name, v)) ∙ ground arith

same_id_refl : (o : Option ℕ) → same_id o o ≡ true
same_id_refl none = refl
same_id_refl (some n) = ground arith

joined_of :
    (cat : Catalogue) (found : Option TicketRow) (t : WorkflowTicket)
    → joined_row cat found ≡ some t
    → (r : TicketRow) × (found ≡ some r) × (joined cat r ≡ t)
joined_of cat none t h = cc
joined_of cat (some r) t h = (r, refl, cc)

routing_of :
    (groups : Groups) (found : Option TicketRow) (t : RoutingTicket)
    → routing_row groups found ≡ some t
    → (r : TicketRow) × (found ≡ some r) × (routing_ticket groups r ≡ t)
routing_of groups none t h = cc
routing_of groups (some r) t h = (r, refl, cc)

abbrev tenant_of : Option (ℕ × ℕ) → ℕ
tenant_of none = 0
tenant_of (some (tenant_id, _)) = tenant_id

equal_path : (m n : ℕ) → m == n ≡ true → m ≡ n
equal_path m n h = ground arith

unchanged_row : (cat : Catalogue) (r : TicketRow) → is_unchanged (joined cat r) r ≡ true
unchanged_row cat r = ground arith

current_row : (groups : Groups) (r : TicketRow) → is_current (routing_ticket groups r) r ≡ true
current_row groups r =
    rw (same_id_refl r.assignment_group_id, same_id_refl r.assignee_user_id) (ground arith)

-- An assignment of the ticket that was read from the row that the user sees.
assigned-IsUpdate :
    (tenant_id : ℕ) (key : String) (version : ℕ) (s s' : Desk) (groups : Groups) (context : Context)
    (own_tenant : ℕ) (t : RoutingTicket) (group : ℕ) (assignee : Option ℕ) (actor : ℕ)
    → own_tenant ≡ tenant_id
    → routing_row groups (find_row (is_visible context own_tenant key) s.tickets) ≡ some t
    → t.row_version == version ≡ true
    → s'.tickets ≡ update_rows (is_current t) (given_to group assignee actor) s.tickets
    → IsUpdate tenant_id key version s s'
assigned-IsUpdate tenant_id key version s s' groups context own_tenant t group assignee actor own
      seen current update =
    let (r, row, same) =
      routing_of groups (find_row (is_visible context own_tenant key) s.tickets) t seen in
    record {
      context = context;
      row = r;
      found = ap (λ n. find_row (is_visible context n key) s.tickets) (sym own) ∙ row;
      versioned = ap (λ k. k.row_version) same ∙ equal_path t.row_version version current;
      chosen = is_current t;
      change = given_to group assignee actor;
      is_chosen = ap (λ k. is_current k r) (sym same) ∙ current_row groups r;
      keeps_key = λ x. refl;
      new_tickets = update;
    }

change-IsUpdate :
    (tenant_id : ℕ) (key : String) (version : ℕ) (s s' : Desk)
    → Change tenant_id key version s s'
    → IsUpdate tenant_id key version s s'
change-IsUpdate tenant_id key version s s'
      (executed cat dir now context user_id command idempotency_key payload who asked h) =
    let e = execute-recorded cat dir now context key command idempotency_key s payload s' h in
    let (r, row, same) =
      joined_of cat (find_row (is_visible context e.tenant_id key) s.tickets) e.ticket
        e.ticket_found in
    record {
      context = context;
      row = r;
      found =
          ap (λ n. find_row (is_visible context n key) s.tickets)
            (ap tenant_of (sym who ∙ e.identified))
          ∙ row;
      versioned =
          ap (λ k. k.row_version) same
          ∙ (equal_path e.ticket.row_version command.row_version e.is_checked.current_version
              ∙ asked);
      chosen = is_unchanged e.ticket;
      change = moved e.transition e.user_id e.updates;
      is_chosen = ap (λ k. is_unchanged k r) (sym same) ∙ unchanged_row cat r;
      keeps_key = λ x.
          set_columns-has_key tenant_id key e.updates
            (record x { status_id = e.transition.to_status_id; updated_by = e.user_id });
      new_tickets = e.new_tickets;
    }
change-IsUpdate tenant_id key version s s'
      (routed groups context user_id idempotency_key payload who h) =
    let e = route-recorded groups context key version idempotency_key s payload s' h in
    assigned-IsUpdate tenant_id key version s s' groups context e.tenant_id e.ticket
      e.chosen.chosen.assignment_group_id e.assignee e.user_id
      (ap tenant_of (sym e.identified ∙ who)) e.is_chosen.ticket_found e.is_chosen.current_version
      e.new_tickets
change-IsUpdate tenant_id key version s s'
      (reassigned groups context user_id command idempotency_key payload who asked h) =
    let e = assign_manual-recorded groups context key command idempotency_key s payload s' h in
    assigned-IsUpdate tenant_id key version s s' groups context e.tenant_id e.ticket
      command.assignment_group_id e.assignee e.user_id (ap tenant_of (sym e.identified ∙ who))
      e.is_targeted.ticket_found
      (ap (λ n. e.ticket.row_version == n) (sym asked) ∙ e.is_targeted.current_version)
      e.new_tickets

-- No update is lost: when keys are unique in the tickets of a tenant, and a transition, a route or a
-- manual assignment of a ticket has been carried out that asked for some version of it, then no
-- transition, route or manual assignment of the ticket that asks for the same version is carried out
-- next, whoever asks for it.
pub change-once :
    (tenant_id : ℕ) (key : String) (version : ℕ) (s s' s'' : Desk)
    → Unique same_key s.tickets
    → Change tenant_id key version s s'
    → ¬ Change tenant_id key version s' s''
change-once tenant_id key version s s' s'' unique first again =
    let u = change-IsUpdate tenant_id key version s s' first in
    let v = change-IsUpdate tenant_id key version s' s'' again in
    let found = ap (find_row (is_visible v.context tenant_id key)) (sym u.new_tickets) ∙ v.found in
    let next =
      updated_version tenant_id key u.chosen u.change u.keeps_key
        (is_visible u.context tenant_id key) (is_visible v.context tenant_id key)
        (is_visible-has_key u.context tenant_id key) (is_visible-has_key v.context tenant_id key)
        s.tickets unique u.row v.row u.found u.is_chosen found in
    omega (arith, next, u.versioned, v.versioned)
