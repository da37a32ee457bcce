-- ===== src/Workflows/Models.antt =====
-- apps/api/app/workflows/models.py, the command of schemas.py, and what the service only reads.
use helpdesk_agent.Prelude.{ℕ, String, Bool, Option, List}
use helpdesk_agent.Rules.Value.{Value}
use helpdesk_agent.Rules.Evaluate.{Values}

pub record WorkflowTicket : Type 0 where
  pub ticket_id : ℕ
  pub tenant_id : ℕ
  pub ticket_key : String
  pub project_id : ℕ
  pub work_type_code : String
  pub workflow_version_id : ℕ
  pub workflow_version_status : String
  pub status_id : ℕ
  pub status_code : String
  pub row_version : ℕ
  pub summary : String
  pub description : Option String
  pub resolution_code : Value
  pub resolution_summary : Value
  pub assignment_group_id : Option ℕ
  pub assignee_user_id : Option ℕ
  pub first_response_at : Value
  pub resolved_at : Value
  pub closed_at : Value

pub record WorkflowTransition : Type 0 where
  pub transition_id : ℕ
  pub workflow_version_id : ℕ
  pub transition_code : String
  pub transition_name : String
  pub from_status_id : ℕ
  pub from_status_code : String
  pub to_status_id : ℕ
  pub to_status_code : String
  pub to_status_name : String
  pub condition : Value
  pub validators : Value
  pub actions : Value

pub record TransitionCommand : Type 0 where
  pub transition_code : String
  pub row_version : ℕ
  pub field_updates : Values
  pub comment : Option String

-- What the services read and never write, the active rows of config.workflow_transition in the order
-- of `display_order` and code among it; and the library's `str.upper`, `str.lower`, `str.strip` and the
-- hash of the canonical request.
pub record Catalogue : Type 0 where
  pub transitions : List WorkflowTransition
  pub version_status : ℕ → String
  pub status_code : ℕ → String
  pub work_type_code : ℕ → String
  pub resolution_code_exists : String → Bool
  pub upper : String → String
  pub lower : String → String
  pub strip : String → String
  pub request_hash : String → TransitionCommand → ℕ
