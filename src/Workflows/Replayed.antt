-- ===== src/Workflows/Replayed.antt =====
-- A transition that is asked for again with the same key.
use helpdesk_agent.Prelude.{
  ℕ, ◌≡◌, refl, ap, ◌∙◌, String, Bool, true, false, Option, none, some, [], ◌∷◌, ok, arith,
}
use helpdesk_agent.Rules.Value.{Value}
use helpdesk_agent.Rules.Evaluate.{Values}
use helpdesk_agent.Approvals.Service.{Directory}
use helpdesk_agent.Desk.{
  require, TicketRow, Desk, Payload, Context, authorization_denied, not_found, need, need-some,
  >>=-from, is_visible, find_row, updated, ticket_transition,
}
use helpdesk_agent.Desk.Replay.{once-replayed}
use helpdesk_agent.Desk.Rows.{still_found}
use helpdesk_agent.Workflows.Models.{
  WorkflowTicket, WorkflowTransition, TransitionCommand, Catalogue,
}
use helpdesk_agent.Workflows.Reads.{joined_row, joined, ticket_of}
use helpdesk_agent.Workflows.Execute.{is_unchanged, moved, set_column, set_columns, work, execute}
use helpdesk_agent.Workflows.Recorded.{work-IsWork}
use helpdesk_agent.Workflows.Executed.{execute-recorded, execute-IsCalled, normal}

module _ (context : Context) (tenant_id : ℕ) (key : String) where
  abbrev visible : TicketRow → Bool
  visible = is_visible context tenant_id key

  set_column-visible :
      (r : TicketRow) (update : String × Value) → visible (set_column r update) ≡ visible r
  set_column-visible r (name, v) = ground arith

  set_columns-visible :
      (updates : Values) (r : TicketRow) → visible (set_columns updates r) ≡ visible r
  set_columns-visible [] r = refl
  set_columns-visible (update ∷ rest) r =
      set_columns-visible rest (set_column r update) ∙ set_column-visible r update

  moved-visible :
      (transition : WorkflowTransition) (user_id : ℕ) (updates : Values) (r : TicketRow)
      → visible (updated (moved transition user_id updates) r) ≡ visible r
  moved-visible transition user_id updates r =
      set_columns-visible updates
        (record r { status_id = transition.to_status_id; updated_by = user_id })

module _ (cat : Catalogue) (context : Context) (tenant_id : ℕ) (key : String) where
  row_of :
      (s : Desk) (t : WorkflowTicket)
      → ticket_of cat context tenant_id key s ≡ some t
      → (r : TicketRow) × (find_row (is_visible context tenant_id key) s.tickets ≡ some r)
  row_of s t h = from (find_row (is_visible context tenant_id key) s.tickets) refl h
    where
      from :
          (found : Option TicketRow)
          → find_row (is_visible context tenant_id key) s.tickets ≡ found
          → joined_row cat found ≡ some t
          → (r : TicketRow) × (find_row (is_visible context tenant_id key) s.tickets ≡ some r)
      from none q e = cc
      from (some r) q e = (r, q)

-- A transition that was executed, asked for again with the same command and key: the same code and
-- version are answered as a replay and nothing changes, whatever the time and the configuration of
-- approvals are by then.
pub execute-replayed :
    (cat : Catalogue) (dir dir' : Directory) (now now' : ℕ) (context : Context) (key : String)
    (command : TransitionCommand) (idempotency_key : String) (s : Desk) (payload : Payload)
    (s' : Desk)
    → execute cat dir now context key command idempotency_key s ≡ ok ((payload, false), s')
    → execute cat dir' now' context key command idempotency_key s' ≡ ok ((payload, true), s')
unfolding execute
execute-replayed cat dir dir' now now' context key command idempotency_key s payload s' h =
    let c =
      execute-IsCalled cat dir now context key command idempotency_key s (payload, false) s' h in
    let e = execute-recorded cat dir now context key command idempotency_key s payload s' h in
    let request = normal cat dir now context key command in
    let replay =
      once-replayed c.tenant c.user ticket_transition idempotency_key (cat.request_hash key request)
        (work cat dir now context c.tenant c.user key request)
        (work cat dir' now' context c.tenant c.user key request) s payload s' c.call
        (λ u v p worked.
          (work-IsWork cat dir now context c.tenant c.user key request u p v
            worked).is_performed.same_keys) in
    let (r, row) = row_of cat context c.tenant key s c.row c.found in
    let (r', again) =
      still_found (is_visible context c.tenant key) (is_unchanged e.ticket)
        (moved e.transition e.user_id e.updates)
        (λ x shown. moved-visible context c.tenant key e.transition e.user_id e.updates x ∙ shown)
        s.tickets r row in
    let still : ticket_of cat context c.tenant key s' ≡ some (joined cat r') =
      ap (λ rows. joined_row cat (find_row (is_visible context c.tenant key) rows)) e.new_tickets
      ∙ ap (joined_row cat) again in
    >>=-from (require context.may_act authorization_denied s') _
      (ap (λ b. require b authorization_denied s') c.may)
      (>>=-from (need not_found context.identity s') _
        (need-some not_found context.identity s' c.who)
        (>>=-from (need not_found (ticket_of cat context c.tenant key s') s') _
          (need-some not_found _ s' still) replay))
