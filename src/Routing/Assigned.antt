-- ===== src/Routing/Assigned.antt =====
-- What the writes of an assignment leave.
use helpdesk_agent.Prelude.{
  ℕ, ◌+◌, ◌≡◌, sym, ap, ◌∙◌, String, Bool, true, Option, [], ◌∷◌, ◌++◌, ok, ok_inj, arith,
}
use helpdesk_agent.Desk.{
  TicketRow, Desk, concurrency_error, Payload, assigned, need, >>=-ok, need-ok, find_row,
  update_rows, returned_version, update_ticket,
}
use helpdesk_agent.Desk.Rows.{next_version}
use helpdesk_agent.Routing.Models.{RoutingTicket}
use helpdesk_agent.Routing.Calls.{
  is_current, given_to, assign, history_row, assignment_event, record_assignment, assign_to,
}

current_version :
    (t : RoutingTicket) (r : TicketRow) → is_current t r ≡ true → r.row_version ≡ t.row_version
current_version t r h = ground arith

-- What an assignment that is answered has written.
pub record IsAssigned (t : RoutingTicket) (group : ℕ) (code : String) (assignee : Option ℕ)
    (actor : ℕ) (rule : Option ℕ) (fallback : Bool) (s : Desk) (payload : Payload) (s' : Desk)
    : Type 0 where
  pub answered : payload ≡ assigned code assignee rule fallback
  pub new_tickets :
      s'.tickets ≡ update_rows (is_current t) (given_to group assignee actor) s.tickets
  pub new_history : s'.history ≡ s.history ++ history_row t group assignee actor rule ∷ []
  pub new_events : s'.events ≡ s.events ++ assignment_event t rule (t.row_version + 1) ∷ []
  pub same_keys : s'.idempotency ≡ s.idempotency

pub assign_to-IsAssigned :
    (t : RoutingTicket) (group : ℕ) (code : String) (assignee : Option ℕ) (actor : ℕ)
    (rule : Option ℕ) (fallback : Bool) (s : Desk) (payload : Payload) (s' : Desk)
    → assign_to t group code assignee actor rule fallback s ≡ ok (payload, s')
    → IsAssigned t group code assignee actor rule fallback s payload s'
unfolding assign_to assign update_ticket record_assignment
assign_to-IsAssigned t group code assignee actor rule fallback s payload s' h =
    let new = returned_version (find_row (is_current t) s.tickets) in
    let moved = record s {
      tickets = update_rows (is_current t) (given_to group assignee actor) s.tickets;
    } in
    let (n, s₁, needed, h₁) = >>=-ok (need concurrency_error new moved) _ h in
    let (is_new, e₁) = need-ok concurrency_error new moved needed in
    let version =
      next_version (is_current t) t.row_version (current_version t) s.tickets n is_new in
    let whole : s' ≡ record moved {
      history = s.history ++ history_row t group assignee actor rule ∷ [];
      events = s.events ++ assignment_event t rule n ∷ [];
    } =
      sym (ap (λ x. x.1) (ok_inj h₁))
      ∙ ap {A = Desk}
          (λ d. record d {
            history = d.history ++ history_row t group assignee actor rule ∷ [];
            events = d.events ++ assignment_event t rule n ∷ [];
          })
          e₁ in
    record {
      answered = sym (ap (λ x. x.0) (ok_inj h₁));
      new_tickets = ap (λ d. d.tickets) whole;
      new_history = ap (λ d. d.history) whole;
      new_events =
          ap (λ d. d.events) whole ∙ ap (λ k. s.events ++ assignment_event t rule k ∷ []) version;
      same_keys = ap (λ d. d.idempotency) whole;
    }
