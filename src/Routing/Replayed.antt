-- ===== src/Routing/Replayed.antt =====
-- A route that is asked for again with the same key.
use helpdesk_agent.Prelude.{
  ℕ, ◌≡◌, refl, ap, ◌∙◌, String, true, false, Option, none, some, ok, arith,
}
use helpdesk_agent.Desk.{
  TicketRow, Desk, Payload, Context, is_visible, find_row, updated, ticket_route,
}
use helpdesk_agent.Desk.Rows.{still_found}
use helpdesk_agent.Desk.Called.{called-replayed}
use helpdesk_agent.Routing.Models.{RoutingTicket}
use helpdesk_agent.Routing.Assign.{Groups, routing_ticket, routing_row, routing_ticket_of}
use helpdesk_agent.Routing.Calls.{is_current, given_to, may_assign_to, route_work, route}
use helpdesk_agent.Routing.Routed.{route-recorded, route_work-IsWork}

module _ (context : Context) (tenant_id : ℕ) (key : String) where
  -- A ticket is seen in a group that the user may assign to.
  given_to-visible :
      (group : ℕ) (assignee : Option ℕ) (actor : ℕ) (r : TicketRow)
      → may_assign_to context group ≡ true
      → is_visible context tenant_id key r ≡ true
      → is_visible context tenant_id key (updated (given_to group assignee actor) r) ≡ true
  given_to-visible group assignee actor r may shown = ground arith

module _ (groups : Groups) (context : Context) (tenant_id : ℕ) (key : String) where
  row_of :
      (s : Desk) (t : RoutingTicket)
      → routing_ticket_of groups context tenant_id key s ≡ some t
      → (r : TicketRow) × (find_row (is_visible context tenant_id key) s.tickets ≡ some r)
  row_of s t h = from (find_row (is_visible context tenant_id key) s.tickets) refl h
    where
      from :
          (found : Option TicketRow)
          → find_row (is_visible context tenant_id key) s.tickets ≡ found
          → routing_row groups found ≡ some t
          → (r : TicketRow) × (find_row (is_visible context tenant_id key) s.tickets ≡ some r)
      from none q e = cc
      from (some r) q e = (r, q)

-- A route that was answered, asked for again with the same command and key: the same answer is given as
-- a replay and nothing changes. The user still sees the ticket, since its new group is permitted.
pub route-replayed :
    (groups : Groups) (context : Context) (key : String) (row_version : ℕ)
    (idempotency_key : String) (s : Desk) (payload : Payload) (s' : Desk)
    → route groups context key row_version idempotency_key s ≡ ok ((payload, false), s')
    → route groups context key row_version idempotency_key s' ≡ ok ((payload, true), s')
unfolding route
route-replayed groups context key row_version idempotency_key s payload s' h =
    let work = λ (tenant_id : ℕ) (user_id : ℕ).
      route_work groups context tenant_id user_id key row_version in
    let e = route-recorded groups context key row_version idempotency_key s payload s' h in
    called-replayed context true (λ tenant_id. routing_ticket_of groups context tenant_id key)
      ticket_route idempotency_key (groups.route_hash key row_version) work work s payload s' h
      (λ tenant user u v p worked.
        (route_work-IsWork groups context key row_version tenant user u p v
          worked).is_assigned.same_keys)
      (λ c.
        let (r, row) = row_of groups context c.tenant key s c.seen c.is_seen in
        let (r', again) =
          still_found (is_visible context c.tenant key) (is_current e.ticket)
            (given_to e.chosen.chosen.assignment_group_id e.assignee e.user_id)
            (λ x shown.
              given_to-visible context c.tenant key e.chosen.chosen.assignment_group_id e.assignee
                e.user_id x e.is_chosen.group_permitted shown)
            s.tickets r row in
        (
          routing_ticket groups r',
          ap (λ rows. routing_row groups (find_row (is_visible context c.tenant key) rows))
                e.new_tickets
              ∙ ap (routing_row groups) again,
        ))
