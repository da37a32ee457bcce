-- ===== src/Approvals/Models.antt =====
-- apps/api/app/approvals/models.py, with the rows behind them. UUIDs and instants are numbers, as in
-- Sla/Models.antt; `ticket_key` and `ticket_summary`, which only responses show, are left out.
use helpdesk_agent.Prelude.{ℕ, String, Bool, Option, List}
use helpdesk_agent.Rules.Value.{Value}

-- The modes that the service knows, and any other.
pub data ApprovalMode : Type 0 where
  any_one_approver all_approvers manager_approval other_mode : ApprovalMode

pub data ApprovalStatus : Type 0 where
  pending approved rejected cancelled expired : ApprovalStatus

-- A command's `APPROVE` and `REJECT`, and the `APPROVED` and `REJECTED` that are stored for them.
pub data Decision : Type 0 where
  approve reject : Decision

pub record ApprovalDefinition : Type 0 where
  pub definition_id : ℕ
  pub version_id : ℕ
  pub tenant_id : ℕ
  pub project_id : ℕ
  pub code : String
  pub name : String
  pub mode : ApprovalMode
  pub approver_rule : Value
  pub approved_transition_id : Option ℕ
  pub rejected_transition_id : Option ℕ
  pub allow_requester_self_approval : Bool
  pub expires_after_minutes : Option ℕ

-- A ticket, with what a continued workflow changes of it.
pub record ApprovalTicket : Type 0 where
  pub ticket_id : ℕ
  pub tenant_id : ℕ
  pub project_id : ℕ
  pub reporter_user_id : ℕ
  pub requested_for_user_id : Option ℕ
  pub workflow_version_id : ℕ
  pub status_id : ℕ

-- A row of itsm.ticket_approver.
pub record Approver : Type 0 where
  pub approver_user_id : ℕ
  pub sequence_number : ℕ
  pub decision : Option Decision
  pub decision_comment : Option String
  pub decided_at : Option ℕ

-- A row of itsm.ticket_approval with its definition version and its approvers.
pub record Approval : Type 0 where
  pub approval_id : ℕ
  pub tenant_id : ℕ
  pub ticket_id : ℕ
  pub definition : ApprovalDefinition
  pub status : ApprovalStatus
  pub requested_at : ℕ
  pub completed_at : Option ℕ
  pub expires_at : Option ℕ
  pub row_version : ℕ
  pub approvers : List Approver

pub record ApprovalView : Type 0 where
  pub approval_id : ℕ
  pub ticket_id : ℕ
  pub definition_version_id : ℕ
  pub approval_code : String
  pub approval_name : String
  pub approval_mode : ApprovalMode
  pub status : ApprovalStatus
  pub requested_at : ℕ
  pub completed_at : Option ℕ
  pub expires_at : Option ℕ
  pub row_version : ℕ
  pub approver_user_id : ℕ
  pub sequence_number : ℕ
  pub decision : Option Decision
  pub decision_comment : Option String
  pub decided_at : Option ℕ

pub record LockedApproval : Type 0 where
  pub approval_id : ℕ
  pub tenant_id : ℕ
  pub ticket_id : ℕ
  pub requester_user_id : ℕ
  pub status : ApprovalStatus
  pub row_version : ℕ
  pub mode : ApprovalMode
  pub approver_rule : Value
  pub approved_transition_id : Option ℕ
  pub rejected_transition_id : Option ℕ
  pub allow_requester_self_approval : Bool
  pub expires_at : Option ℕ
  pub approver_user_id : ℕ
  pub existing_decision : Option Decision

-- A row of config.workflow_transition; `is_continuation` says that its actions hold an
-- `APPROVAL_CONTINUATION`.
pub record Transition : Type 0 where
  pub workflow_version_id : ℕ
  pub from_status_id : ℕ
  pub to_status_id : ℕ
  pub active_flag : Bool
  pub is_continuation : Bool

pub data FactType : Type 0 where
  approval_requested approval_decided approval_expired approval_cancelled : FactType

-- What `_record_fact` writes, with the row version in the key of its outbox event.
pub record Fact : Type 0 where
  pub fact_type : FactType
  pub fact_approval_id : ℕ
  pub fact_version : ℕ

pub record IdempotencyRecord : Type 0 where
  pub tenant_id : ℕ
  pub principal_id : ℕ
  pub idempotency_key : String
  pub request_hash : ℕ
  pub completed : Bool
