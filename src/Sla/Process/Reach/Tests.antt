-- ===== src/Sla/Process/Reach/Tests.antt =====
-- A ticket's SLA from its start to its breach.
use helpdesk_agent.Prelude.{
  ◌*◌, ◌≡◌, refl, true, none, some, [], ◌∷◌, List, Result, ok, err, Bool, false, arith, ◌==◌,
  if◌then◌else◌,
}
use helpdesk_agent.Rules.Value.{null, end}
use helpdesk_agent.Sla.Models.{
  BusinessCalendarVersion, resolution, SlaDefinitionVersion, SlaGoalVersion, TicketFacts, TicketSla,
  start_sla, SlaInputEvent,
}
use helpdesk_agent.Sla.Calendar.Zones.{Zone, second}
use helpdesk_agent.Sla.Calendar.Build.{build, BusinessCalendar}
use helpdesk_agent.Sla.Calendar.Regular.{IsRegular}
use helpdesk_agent.Sla.Calendar.Hours.{InMinutes}
use helpdesk_agent.Prelude.Int.{pos}
use helpdesk_agent.Sla.Engine.Deadline.{calculated-target}
use helpdesk_agent.Sla.Goals.Choice.{IsChosen, select_goal-Chosen}
use helpdesk_agent.Sla.Calendar.Arithmetic.{
  add_business_seconds, business_seconds_between, intervals, consume,
}
use helpdesk_agent.Sla.Calendar.Zones.{local_boundary}
use helpdesk_agent.Sla.Goals.{SlaError, select_goal, goal_matches, pause_statuses}
use helpdesk_agent.Sla.Store.{
  Store, ◌>>=◌, record_event, save, emit_outbox, due_slas, create_sla, sla_warning, sla_breached,
  new_sla,
}
use helpdesk_agent.Sla.Engine.{
  Config, is_breached, calendar_of, add_seconds, seconds_between, warning_time, calculated, breach,
  advance, evaluate_one, warn,
}
use helpdesk_agent.Sla.Engine.Safe.{AllSound}
use helpdesk_agent.Sla.Process.{process, start, start_one, after_start, for_each, evaluate_due}
use helpdesk_agent.Sla.Process.Reach.{
  here, input, scan, empty_store, empty-AllSound, Reach-AllSound,
}

abbrev goal : SlaGoalVersion
goal = record {
  sla_goal_id = 1;
  sla_goal_version_id = 1;
  sla_definition_version_id = 1;
  business_calendar_version_id = 1;
  match_conditions = null;
  target_seconds = 3600;
  warning_seconds = some 600;
  priority_order = 1;
}

abbrev definition : SlaDefinitionVersion
definition = record {
  sla_definition_id = 1;
  sla_definition_version_id = 1;
  metric = resolution;
  pause_conditions = null;
}

abbrev always_version : BusinessCalendarVersion
always_version = record {
  business_calendar_version_id = 1;
  calendar_id = 1;
  timezone_name = "UTC";
  twenty_four_seven = true;
  working_periods = [];
  exceptions = [];
}

abbrev ticket : TicketFacts
ticket = record {
  ticket_id = 5;
  tenant_id = 1;
  project_id = 1;
  service_node_id = none;
  work_type_code = "INCIDENT";
  priority_code = "P1";
  status_code = "OPEN";
  status_category = "TODO";
  created_at = 100 * second;
  first_response_at = none;
  resolved_at = none;
}

abbrev config : Config
config = record {
  ticket = λ tenant id. if id == 5 then some ticket else none;
  status_category = λ id status. none;
  definitions = λ tenant project at. definition ∷ [];
  goals = λ version at. goal ∷ [];
  calendar = λ id. some always_version;
  zone_info = λ name. some (record { to_local = λ t. t; to_utc = λ n fold. n });
  python_str = λ v. "";
}

abbrev start_event : SlaInputEvent
start_event = record {
  outbox_event_id = 9;
  tenant_id = 1;
  ticket_id = 5;
  event_type = start_sla;
  payload = end;
  occurred_at = 100 * second;
}

abbrev store_of : {A : Type 0} → Result SlaError (A × Store) → Store
store_of (ok (_, s)) = s
store_of (err _) = empty_store

abbrev started : Store
started = store_of (process config start_event empty_store)

start_runs : process config start_event empty_store ≡ ok (tt, started)
unfolding process start start_one after_start select_goal goal_matches calendar_of build add_seconds
    warning_time add_business_seconds intervals consume local_boundary create_sla record_event ◌>>=◌
    pause_statuses
start_runs = refl

abbrev scanned : Store
scanned = store_of (evaluate_due config 1 (3700 * second) 100 started)

scan_runs : evaluate_due config 1 (3700 * second) 100 started ≡ ok (1, scanned)
unfolding process start start_one after_start select_goal goal_matches calendar_of build add_seconds
    warning_time add_business_seconds intervals consume local_boundary create_sla record_event ◌>>=◌
    pause_statuses evaluate_due due_slas for_each evaluate_one advance calculated seconds_between
    business_seconds_between save warn breach emit_outbox
scan_runs = refl

Reach-AllSound_example : AllSound scanned
Reach-AllSound_example =
    Reach-AllSound empty-AllSound
      (scan (input here config start_event start_runs) config 1 (3700 * second) 100 1 scan_runs)

first_breached : List TicketSla → Bool
first_breached (sla ∷ _) = is_breached sla.state
first_breached [] = false

-- At its deadline the SLA is warned of, breached and announced, all in one scan.
scan_breaches :
    (first_breached scanned.rows ≡ true) × (scanned.outbox ≡ sla_warning 0 ∷ sla_breached 0 ∷ [])
unfolding process start start_one after_start select_goal goal_matches calendar_of build add_seconds
    warning_time add_business_seconds intervals consume local_boundary create_sla record_event ◌>>=◌
    pause_statuses evaluate_due due_slas for_each evaluate_one advance calculated seconds_between
    business_seconds_between save warn breach emit_outbox first_breached
scan_breaches = (refl, refl)

abbrev running_sla : TicketSla
running_sla = new_sla ticket definition goal (100 * second) (3700 * second) none 0

abbrev utc_zone : Zone
utc_zone = record { to_local = λ t. t; to_utc = λ n fold. n }

utc-IsRegular : IsRegular utc_zone
utc-IsRegular = record {
  midnight_exists = λ day. refl;
  midnight_once = λ day. refl;
  dated = λ t. (omega arith, omega arith);
  gap_short = λ naive. (0, omega arith, refl);
}

abbrev always_calendar : BusinessCalendar
always_calendar = record {
  version = always_version;
  timezone = utc_zone;
  periods = [];
  exceptions = [];
}

utc-InMinutes : InMinutes always_calendar
utc-InMinutes day = tt

calendar_found : calendar_of config goal ≡ ok always_calendar
unfolding calendar_of build
calendar_found = refl

target_found : add_business_seconds always_calendar (100 * second) (pos 3600) ≡ ok (3700 * second)
unfolding add_business_seconds intervals consume local_boundary
target_found = refl

goal_found : select_goal config.python_str (goal ∷ []) ticket ≡ ok goal
unfolding select_goal goal_matches
goal_found = refl

calculated-target_example :
    calculated config running_sla (3700 * second) empty_store
    ≡ ok (
      record running_sla {
        elapsed_working_seconds = 3600;
        remaining_working_seconds = 0;
        last_calculated_at = 3700 * second;
      },
      empty_store,
    )
calculated-target_example =
    calculated-target config running_sla always_calendar empty_store utc-IsRegular utc-InMinutes
      calendar_found refl refl target_found (omega arith)

select_goal-Chosen_example : IsChosen config.python_str ticket (goal ∷ []) goal
select_goal-Chosen_example = select_goal-Chosen config.python_str (goal ∷ []) ticket goal goal_found
