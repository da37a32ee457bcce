-- ===== src/Routing/Models.antt =====
-- apps/api/app/routing/models.py. UUIDs and instants are numbers, as in Sla/Models.antt; those that
-- rules are asked about are texts. Priorities and version numbers are not negative.
use helpdesk_agent.Prelude.{ℕ, String, Option}
use helpdesk_agent.Rules.Value.{Value}
use helpdesk_agent.Rules.Evaluate.{Values}

pub record RoutingTicket : Type 0 where
  pub ticket_id : ℕ
  pub tenant_id : ℕ
  pub ticket_key : String
  pub project_id : String
  pub project_code : String
  pub service_node_id : Option String
  pub service_node_code : Option String
  pub service_code : Option String
  pub module_code : Option String
  pub environment_code : Option String
  pub work_type_code : String
  pub priority_code : String
  pub status_code : String
  pub summary : String
  pub description : Option String
  pub assignment_group_id : Option ℕ
  pub assignee_user_id : Option ℕ
  pub row_version : ℕ
  pub custom_fields : Values

pub record RoutingRuleVersion : Type 0 where
  pub routing_rule_id : ℕ
  pub routing_rule_version_id : ℕ
  pub version_number : ℕ
  pub rule_priority : ℕ
  pub condition : Value
  pub assignment_group_id : ℕ
  pub assignment_method : String
  pub assignee_user_id : Option ℕ
  pub effective_from : Option ℕ
  pub group_code : String
