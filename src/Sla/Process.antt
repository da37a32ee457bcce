-- ===== src/Sla/Process.antt =====
-- The input events of `SlaEngine` (apps/api/app/sla/service.py): `process`, the handlers that it
-- dispatches to, and the scan `evaluate_due`.
pub mod Sound
pub mod Reach
use package.text.Mathlib.Text.{◌==◌ as text_eq}
use helpdesk_agent.Prelude.{
  ℕ, suc, ◌+◌, ◌-◌, String, Bool, true, false, not, ◌&&◌, ◌||◌, Option, none, some, List, [], ◌∷◌,
  ltb, ◌==◌, if◌then◌else◌, Result, ok, err, any, length,
}
use helpdesk_agent.Rules.Value.{Value, str, Fields, get_field}
use helpdesk_agent.Sla.Models.{
  SlaMetric, first_response, resolution, SlaState, cancelled, completed, breached,
  SlaDefinitionVersion, SlaGoalVersion, TicketFacts, TicketSla, SlaEventType, start_sla,
  agent_public_response_added, customer_comment_added, ticket_workflow_transitioned,
  ticket_priority_changed, unsupported, SlaInputEvent,
}
use helpdesk_agent.Sla.Goals.{
  SlaError, configuration_error, unsupported_event, select_goal, pause_statuses,
}
use helpdesk_agent.Sla.Store.{
  EventType, start_key, recalculate_key, Store, Engine, ◌>>=◌, ◌>>◌, pure, lift, raise, count,
  record_event, save, mark_first_response, ticket_slas, due_slas, create_sla,
}
use helpdesk_agent.Sla.Engine.{
  Config, calendar_of, add_seconds, warning_time, remaining_warning_time, is_running, is_paused,
  calculated, breach, pause, resume, complete, reopen, evaluate_one,
}

-- A loop over rows that were read before it.
unfoldable pub for_each : (TicketSla → Engine (Unit {0})) → List TicketSla → Engine (Unit {0})
for_each body [] = pure tt
for_each body (sla ∷ rest) = body sla >>= λ _. for_each body rest

abbrev pub is_metric : SlaMetric → SlaMetric → Bool
is_metric first_response first_response = true
is_metric resolution resolution = true
is_metric _ _ = false

abbrev pub contains_text : String → List String → Bool
contains_text status = any (λ s. text_eq s status)

abbrev pub discard : Engine TicketSla → Engine (Unit {0})
discard m = m >>= λ _. pure tt

abbrev pub is_some : {A : Type 0} → Option A → Bool
is_some none = false
is_some (some _) = true

abbrev pub or_zero : Option ℕ → ℕ
or_zero none = 0
or_zero (some n) = n

-- What happens to a new SLA of a ticket that has already been answered, resolved or paused.
unfoldable pub after_start :
    Config → TicketFacts → SlaDefinitionVersion → SlaInputEvent → TicketSla → Engine (Unit {0})
after_start cfg ticket definition event sla =
    if is_metric definition.metric first_response && is_some ticket.first_response_at
    then discard (complete cfg sla (or_zero ticket.first_response_at) event.outbox_event_id)
    else if is_metric definition.metric resolution && is_some ticket.resolved_at
    then discard (complete cfg sla (or_zero ticket.resolved_at) event.outbox_event_id)
    else lift (pause_statuses definition.pause_conditions) >>= λ statuses.
        if contains_text ticket.status_code statuses
        then discard (pause cfg sla ticket.created_at event.outbox_event_id)
        else pure tt

abbrev pub on_created : (TicketSla → Engine (Unit {0})) → Option TicketSla → Engine (Unit {0})
on_created body none = pure tt
on_created body (some sla) = body sla

-- One round of the loop of `_start`
unfoldable pub start_one :
    Config → TicketFacts → SlaInputEvent → SlaDefinitionVersion → Engine (Unit {0})
start_one cfg ticket event definition = do
  goal ← lift (
      select_goal cfg.python_str (cfg.goals definition.sla_definition_version_id ticket.created_at)
        ticket)
  cal ← lift (calendar_of cfg goal)
  target_at ← add_seconds cal ticket.created_at goal.target_seconds
  warning_at ← warning_time cal ticket.created_at goal
  created ← create_sla ticket definition goal ticket.created_at target_at warning_at
  on_created
      (λ sla.
        record_event sla EventType.started ticket.created_at (start_key event.outbox_event_id)
        >>= λ _.
            count (λ m. record m { instances_started = m.instances_started + 1 })
            >> after_start cfg ticket definition event sla)
      created

unfoldable pub start_each :
    Config → TicketFacts → SlaInputEvent → List SlaDefinitionVersion → Engine (Unit {0})
start_each cfg ticket event [] = pure tt
start_each cfg ticket event (definition ∷ rest) =
    start_one cfg ticket event definition >>= λ _. start_each cfg ticket event rest

-- `any(len(values) > 1 ...)`: two versions of one definition
abbrev pub has_duplicate : List SlaDefinitionVersion → Bool
has_duplicate [] = false
has_duplicate (d ∷ rest) =
    any (λ (d' : SlaDefinitionVersion). d'.sla_definition_id == d.sla_definition_id) rest
    || has_duplicate rest

-- `_start`
unfoldable pub start : Config → TicketFacts → SlaInputEvent → Engine (Unit {0})
unfolding start_each
start cfg ticket event =
    let definitions = cfg.definitions ticket.tenant_id ticket.project_id ticket.created_at in
    if has_duplicate definitions
    then raise configuration_error
    else start_each cfg ticket event definitions

abbrev pub text_value : Option Value → Result SlaError String
text_value (some (str s)) = if text_eq s "" then err configuration_error else ok s
text_value _ = err configuration_error

-- `_required_string`
abbrev pub required_string : Fields → String → Result SlaError String
required_string payload key = text_value (get_field key payload)

abbrev pub known : Option String → Result SlaError String
known none = err configuration_error
known (some s) = ok s

abbrev pub is_open : SlaState → Bool
is_open s = is_running s || is_paused s

-- The four ways of a resolution SLA through a transition.
unfoldable pub move_resolution :
    Config → SlaInputEvent → String → String → String → TicketSla → Engine (Unit {0})
move_resolution cfg event to_status from_category to_category sla =
    if text_eq from_category "DONE" && not (text_eq to_category "DONE")
    then discard (reopen cfg sla event.occurred_at event.outbox_event_id)
    else if text_eq to_category "DONE"
    then discard (complete cfg sla event.occurred_at event.outbox_event_id)
    else lift (pause_statuses sla.definition.pause_conditions) >>= λ statuses.
        if contains_text to_status statuses
        then discard (pause cfg sla event.occurred_at event.outbox_event_id)
        else if is_paused sla.state
        then discard (resume cfg sla event.occurred_at event.outbox_event_id)
        else pure tt

-- One round of the loop of `_transition`
unfoldable pub move_one :
    Config → TicketFacts → SlaInputEvent → String → String → String → TicketSla → Engine (Unit {0})
move_one cfg ticket event to_status from_category to_category sla =
    if is_metric sla.definition.metric first_response
      && (is_some ticket.first_response_at && is_open sla.state)
    then discard (complete cfg sla (or_zero ticket.first_response_at) event.outbox_event_id)
    else if is_metric sla.definition.metric resolution
    then move_resolution cfg event to_status from_category to_category sla
    else pure tt

-- `_transition`
unfoldable pub transition : Config → TicketFacts → SlaInputEvent → Engine (Unit {0})
transition cfg ticket event = do
  from_status ← lift (required_string event.payload "from_status")
  to_status ← lift (required_string event.payload "to_status")
  from_category ← lift (known (cfg.status_category ticket.ticket_id from_status))
  to_category ← lift (known (cfg.status_category ticket.ticket_id to_status))
  slas ← ticket_slas ticket.tenant_id ticket.ticket_id
  for_each (move_one cfg ticket event to_status from_category to_category) slas

-- `_complete_metric`
unfoldable pub complete_metric :
    Config → TicketFacts → SlaMetric → SlaInputEvent → Engine (Unit {0})
complete_metric cfg ticket metric event =
    ticket_slas ticket.tenant_id ticket.ticket_id
    >>= for_each λ sla.
      if is_metric sla.definition.metric metric
      then discard (complete cfg sla event.occurred_at event.outbox_event_id)
      else pure tt

abbrev pub is_closed : SlaState → Bool
is_closed cancelled = true
is_closed completed = true
is_closed breached = true
is_closed _ = false

abbrev pub breach_if : Bool → TicketSla → ℕ → Engine (Unit {0})
breach_if overdue sla at = if overdue then discard (breach sla at) else pure tt

-- One round of the loop of `_priority_changed`
unfoldable pub recalculate_one :
    Config → TicketFacts → SlaInputEvent → TicketSla → Engine (Unit {0})
recalculate_one cfg ticket event sla = if is_closed sla.state then pure tt else do
  current ← calculated cfg sla event.occurred_at
  goal ← lift (
      select_goal cfg.python_str
        (cfg.goals sla.definition.sla_definition_version_id event.occurred_at) ticket)
  cal ← lift (calendar_of cfg goal)
  let remaining = goal.target_seconds - current.elapsed_working_seconds
  target_at ← add_seconds cal event.occurred_at remaining
  warning_at ←
      remaining_warning_time cal event.occurred_at
        (record current { goal = goal; remaining_working_seconds = remaining })
  let changed = record current {
    goal = goal;
    remaining_working_seconds = remaining;
    target_at = target_at;
    warning_at = warning_at;
    last_calculated_at = event.occurred_at;
  }
  recorded ←
      record_event changed EventType.recalculated event.occurred_at
        (recalculate_key event.outbox_event_id)
  if not recorded then pure tt else do
    saved ← save changed sla.row_version
    count λ m. record m { recalculations = m.recalculations + 1 }
    breach_if (is_running saved.state && remaining == 0) saved event.occurred_at

-- `_priority_changed`
unfoldable pub priority_changed : Config → TicketFacts → SlaInputEvent → Engine (Unit {0})
priority_changed cfg ticket event =
    ticket_slas ticket.tenant_id ticket.ticket_id >>= for_each (recalculate_one cfg ticket event)

abbrev pub dispatch : Config → SlaEventType → TicketFacts → SlaInputEvent → Engine (Unit {0})
dispatch cfg start_sla ticket event = start cfg ticket event
dispatch cfg agent_public_response_added ticket event =
    mark_first_response event.ticket_id event.occurred_at
    >> complete_metric cfg ticket first_response event
dispatch cfg ticket_workflow_transitioned ticket event = transition cfg ticket event
dispatch cfg ticket_priority_changed ticket event = priority_changed cfg ticket event
dispatch cfg _ ticket event = pure tt

abbrev pub is_supported : SlaEventType → Bool
is_supported unsupported = false
is_supported _ = true

abbrev pub on_ticket : Config → SlaInputEvent → Option TicketFacts → Engine (Unit {0})
on_ticket cfg event none = raise configuration_error
on_ticket cfg event (some ticket) =
    dispatch cfg event.event_type ticket event
    >> count λ m. record m { input_events_processed = m.input_events_processed + 1 }

-- `process`
unfoldable pub process : Config → SlaInputEvent → Engine (Unit {0})
process cfg event =
    if is_supported event.event_type
    then on_ticket cfg event (cfg.ticket event.tenant_id event.ticket_id)
    else raise unsupported_event

-- `evaluate_due`: the number of rows that were due
unfoldable pub evaluate_due : Config → ℕ → ℕ → ℕ → Engine ℕ
evaluate_due cfg tenant_id due_at limit = due_slas tenant_id due_at limit >>= λ slas.
    for_each (λ sla. evaluate_one cfg sla due_at) slas >>= λ _. pure (length slas)
