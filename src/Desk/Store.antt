-- ===== src/Desk/Store.antt =====
-- Rows of itsm.ticket and of the tables written with it, as the repositories of
-- apps/api/app/workflows and apps/api/app/routing use them. UUIDs and instants are numbers.
use helpdesk_agent.Prelude.{ℕ, String, Bool, Option, List}
use helpdesk_agent.Rules.Value.{Value}
use helpdesk_agent.Approvals.Tables.{ApprovalError, Tables}

-- The five columns that a transition may set besides the status hold null, a text or an instant.
pub record TicketRow : Type 0 where
  pub ticket_id : ℕ
  pub tenant_id : ℕ
  pub ticket_key : String
  pub project_id : ℕ
  pub work_type_id : ℕ
  pub workflow_version_id : ℕ
  pub status_id : ℕ
  pub row_version : ℕ
  pub summary : String
  pub description : Option String
  pub reporter_user_id : ℕ
  pub requested_for_user_id : Option ℕ
  pub assignment_group_id : Option ℕ
  pub assignee_user_id : Option ℕ
  pub resolution_code : Value
  pub resolution_summary : Value
  pub first_response_at : Value
  pub resolved_at : Value
  pub closed_at : Value
  pub updated_by : ℕ

pub data Operation : Type 0 where
  ticket_transition ticket_route ticket_assign_manual : Operation

-- What a completed request is answered with when it is repeated.
pub data Payload : Type 0 where
  transitioned : String → ℕ → Payload
  assigned : String → Option ℕ → Option ℕ → Bool → Payload

-- A row of integration.idempotency_record; it is completed when it has its payload.
pub record KeyRow : Type 0 where
  pub tenant_id : ℕ
  pub operation : Operation
  pub idempotency_key : String
  pub principal_id : ℕ
  pub request_hash : ℕ
  pub response_payload : Option Payload

-- A row of itsm.assignment_history.
pub record HistoryRow : Type 0 where
  pub ticket_id : ℕ
  pub from_group_id : Option ℕ
  pub to_group_id : ℕ
  pub from_assignee_id : Option ℕ
  pub to_assignee_id : Option ℕ
  pub routing_rule_version_id : Option ℕ
  pub assigned_by : ℕ

-- A public comment on a ticket.
pub record CommentRow : Type 0 where
  pub ticket_id : ℕ
  pub author_user_id : ℕ
  pub comment_body : String

-- The events of a ticket; each is kept with an audit entry and its outbox events.
pub data TicketEvent : Type 0 where
  transition_executed : (ticket_id transition_id old_version new_version : ℕ) → TicketEvent
  ticket_routed ticket_reassigned : (ticket_id old_version new_version : ℕ) → TicketEvent
  public_comment_added : (ticket_id : ℕ) → TicketEvent

pub record Desk : Type 0 where
  pub tickets : List TicketRow
  pub events : List TicketEvent
  pub comments : List CommentRow
  pub history : List HistoryRow
  pub idempotency : List KeyRow
  pub approvals : Tables

pub data DeskError : Type 0 where
  authorization_denied not_found idempotency_conflict concurrency_error : DeskError
  configuration_conflict invalid_transition validation_failed uncaught : DeskError
  approval_failed : ApprovalError → DeskError
