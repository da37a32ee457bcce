-- ===== src/Sla/Models.antt =====
-- apps/api/app/sla/models.py: the records of calendars, goals and running SLAs.
-- An instant is a number of microseconds of UTC; a wall-clock date time is a number of microseconds
-- since 0001-01-01T00:00, a date its number of days since then, a time its microseconds since 00:00.
-- A UUID is a number, ordered as its text is; `service_node_id` is kept as its text.
use helpdesk_agent.Prelude.{ℕ, String, Bool, Option, none, some, List, [], ◌∷◌}
use helpdesk_agent.Rules.Value.{Value, null, str, Fields}
use helpdesk_agent.Rules.Evaluate.{Values}

pub data CalendarExceptionType : Type 0 where
  closed custom_hours : CalendarExceptionType

pub record WorkingPeriod : Type 0 where
  pub iso_day_of_week : ℕ
  pub start_local_time : ℕ
  pub end_local_time : ℕ

pub record CalendarException : Type 0 where
  pub exception_date : ℕ
  pub exception_type : CalendarExceptionType
  pub start_local_time : Option ℕ
  pub end_local_time : Option ℕ

pub record BusinessCalendarVersion : Type 0 where
  pub business_calendar_version_id : ℕ
  pub calendar_id : ℕ
  pub timezone_name : String
  pub twenty_four_seven : Bool
  pub working_periods : List WorkingPeriod
  pub exceptions : List CalendarException

pub data SlaMetric : Type 0 where
  first_response resolution : SlaMetric

pub data SlaState : Type 0 where
  pending running paused completed breached cancelled : SlaState

pub record SlaDefinitionVersion : Type 0 where
  pub sla_definition_id : ℕ
  pub sla_definition_version_id : ℕ
  pub metric : SlaMetric
  pub pause_conditions : Value

pub record SlaGoalVersion : Type 0 where
  pub sla_goal_id : ℕ
  pub sla_goal_version_id : ℕ
  pub sla_definition_version_id : ℕ
  pub business_calendar_version_id : ℕ
  pub match_conditions : Value
  pub target_seconds : ℕ
  pub warning_seconds : Option ℕ
  pub priority_order : ℕ

pub record TicketFacts : Type 0 where
  pub ticket_id : ℕ
  pub tenant_id : ℕ
  pub project_id : ℕ
  pub service_node_id : Option String
  pub work_type_code : String
  pub priority_code : String
  pub status_code : String
  pub status_category : String
  pub created_at : ℕ
  pub first_response_at : Option ℕ
  pub resolved_at : Option ℕ

abbrev pub text_or_null : Option String → Value
text_or_null none = null
text_or_null (some s) = str s

-- `TicketFacts.rule_values`
abbrev pub rule_values : TicketFacts → Values
rule_values t =
    ("priority_code", str t.priority_code)
    ∷ ("service_node_id", text_or_null t.service_node_id)
    ∷ ("work_type_code", str t.work_type_code)
    ∷ []

pub record TicketSla : Type 0 where
  pub ticket_sla_id : ℕ
  pub tenant_id : ℕ
  pub ticket_id : ℕ
  pub definition : SlaDefinitionVersion
  pub goal : SlaGoalVersion
  pub state : SlaState
  pub started_at : ℕ
  pub target_at : ℕ
  pub warning_at : Option ℕ
  pub paused_at : Option ℕ
  pub accumulated_pause_seconds : ℕ
  pub completed_at : Option ℕ
  pub breached_at : Option ℕ
  pub elapsed_working_seconds : ℕ
  pub remaining_working_seconds : ℕ
  pub last_calculated_at : ℕ
  pub warning_emitted_at : Option ℕ
  pub row_version : ℕ

pub data SlaEventType : Type 0 where
  start_sla agent_public_response_added customer_comment_added : SlaEventType
  ticket_workflow_transitioned ticket_priority_changed unsupported : SlaEventType

pub record SlaInputEvent : Type 0 where
  pub outbox_event_id : ℕ
  pub tenant_id : ℕ
  pub ticket_id : ℕ
  pub event_type : SlaEventType
  pub payload : Fields
  pub occurred_at : ℕ
