-- ===== src/Desk/Tickets.antt =====
-- Reads and writes of itsm.ticket that the repositories of apps/api/app/workflows and
-- apps/api/app/routing share, and the request of an approval inside their transactions.
use package.text.Mathlib.Text.{◌==◌ as text_eq}
use helpdesk_agent.Prelude.{
  ℕ, ◌+◌, String, Bool, true, ◌&&◌, ◌||◌, Option, none, some, List, [], ◌∷◌, ◌++◌, ◌==◌, map, any,
  if◌then◌else◌, Result, ok, err,
}
use helpdesk_agent.Approvals.Models.{ApprovalTicket}
use helpdesk_agent.Approvals.Tables.{Tables, Step, done, raised, committed}
use helpdesk_agent.Approvals.Service.{Directory}
use helpdesk_agent.Approvals.Service.{request as request_approval}
use helpdesk_agent.Desk.Store.{
  TicketRow, Desk, DeskError, approval_failed, TicketEvent, public_comment_added,
}
use helpdesk_agent.Desk.Steps.{Action, writes}

-- The caller of a request: its identity, if it has one, and what it is permitted.
pub record Context : Type 0 where
  pub identity : Option (ℕ × ℕ)
  pub may_act : Bool
  pub reads_all : Bool
  pub support_group_ids : List ℕ

-- `assignment_group_id IS NULL OR assignment_group_id = ANY(...)`, unless all tickets are read.
abbrev pub in_groups : List ℕ → Option ℕ → Bool
in_groups groups none = true
in_groups groups (some group) = any (λ g. g == group) groups

abbrev pub is_visible : Context → ℕ → String → TicketRow → Bool
is_visible context tenant_id key r =
    r.tenant_id == tenant_id
    && (text_eq r.ticket_key key
        && (context.reads_all || in_groups context.support_group_ids r.assignment_group_id))

abbrev pub find_row : (TicketRow → Bool) → List TicketRow → Option TicketRow
find_row p [] = none
find_row p (r ∷ rest) = if p r then some r else find_row p rest

-- `UPDATE itsm.ticket` of the row that a condition on its identity selects: the trigger
-- `ticket_before_update` counts its version up.
abbrev pub updated : (TicketRow → TicketRow) → TicketRow → TicketRow
updated f r = record (f r) { row_version = r.row_version + 1 }

abbrev pub update_rows :
    (TicketRow → Bool) → (TicketRow → TicketRow) → List TicketRow → List TicketRow
update_rows p f [] = []
update_rows p f (r ∷ rest) =
    let later = update_rows p f rest in if p r then updated f r ∷ later else r ∷ later

-- `RETURNING row_version`
abbrev pub returned_version : Option TicketRow → Option ℕ
returned_version none = none
returned_version (some r) = some (r.row_version + 1)

unfoldable pub update_ticket : (TicketRow → Bool) → (TicketRow → TicketRow) → Action (Option ℕ)
update_ticket p f s =
    ok (returned_version (find_row p s.tickets), record s { tickets = update_rows p f s.tickets })

abbrev pub with_event : TicketEvent → Desk → Desk
with_event e s = record s { events = s.events ++ e ∷ [] }

-- `TicketRepository.add_public_comment` of apps/api/app/tickets/repository.py; its outbox events have
-- the new comment's identity in their keys and so are new.
abbrev pub with_comment : ℕ → ℕ → String → Desk → Desk
with_comment ticket_id user_id body s = record s {
  comments =
      s.comments
      ++ record { ticket_id = ticket_id; author_user_id = user_id; comment_body = body } ∷ [];
  events = s.events ++ public_comment_added ticket_id ∷ [];
}

unfoldable pub add_public_comment : ℕ → ℕ → String → Action (Unit {0})
add_public_comment ticket_id user_id body = writes (with_comment ticket_id user_id body)

-- What approvals see of a ticket.
abbrev pub approval_ticket : TicketRow → ApprovalTicket
approval_ticket r = record {
  ticket_id = r.ticket_id;
  tenant_id = r.tenant_id;
  project_id = r.project_id;
  reporter_user_id = r.reporter_user_id;
  requested_for_user_id = r.requested_for_user_id;
  workflow_version_id = r.workflow_version_id;
  status_id = r.status_id;
}

abbrev pub approval_tables : Desk → Tables
approval_tables s = record (s.approvals) { tickets = map approval_ticket s.tickets }

abbrev pub approval_end : Desk → Step ℕ → Result DeskError (ℕ × Desk)
approval_end s (done id tables) = ok (id, record s { approvals = tables })
approval_end s (raised e) = err (approval_failed e)
approval_end s (committed e _) = err (approval_failed e)

-- `ApprovalEngine.request` inside the transaction of another service.
unfoldable pub ask_approval : Directory → ℕ → ℕ → ℕ → String → Action ℕ
ask_approval dir now tenant_id ticket_id code s =
    approval_end s (request_approval dir now tenant_id ticket_id code (approval_tables s))
