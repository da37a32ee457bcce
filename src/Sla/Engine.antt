-- ===== src/Sla/Engine.antt =====
-- `SlaEngine` of apps/api/app/sla/service.py, method by method. The proofs are in the children.
pub mod Safe
pub mod Sound
pub mod Moves
pub mod Deadline
use package.text.Mathlib.Text.{◌==◌ as text_eq}
use helpdesk_agent.Prelude.{
  ℕ, zero, suc, ◌+◌, ◌-◌, ◌/◌, String, Bool, true, false, Option, none, some, List, [], ◌∷◌, ltb,
  leb, ◌==◌, ◌&&◌, ◌||◌, not, if◌then◌else◌, Result, ok, err,
}
use helpdesk_agent.Prelude.Int.{pos}
use helpdesk_agent.Rules.Value.{Value, str, Fields, get_field}
use helpdesk_agent.Sla.Models.{
  BusinessCalendarVersion, SlaMetric, SlaState, pending, running, paused, completed, breached,
  cancelled, SlaDefinitionVersion, SlaGoalVersion, TicketFacts, TicketSla, SlaInputEvent,
}
use helpdesk_agent.Sla.Calendar.Zones.{Zone, CalendarError, second}
use helpdesk_agent.Sla.Calendar.Build.{BusinessCalendar, build}
use helpdesk_agent.Sla.Calendar.Arithmetic.{add_business_seconds, business_seconds_between}
use helpdesk_agent.Sla.Goals.{SlaError, configuration_error, calendar_error, select_goal}
use helpdesk_agent.Sla.Store.{
  EventType, EventKey, pause_key, resume_key, stop_key, met_key, reopen_key, recalculate_key,
  warning_key, breach_key, Announcement, sla_warning, sla_breached, SlaMetrics, Store, Engine,
  ◌>>=◌, ◌>>◌, pure, lift, count, record_event, save, emit_outbox,
}

-- What the engine reads and never writes: the published configuration, the tickets, the time-zone
-- database, and Python's `str` of values that are no texts.
pub record Config : Type 0 where
  pub ticket : ℕ → ℕ → Option TicketFacts
  pub status_category : ℕ → String → Option String
  pub definitions : ℕ → ℕ → ℕ → List SlaDefinitionVersion
  pub goals : ℕ → ℕ → List SlaGoalVersion
  pub calendar : ℕ → Option BusinessCalendarVersion
  pub zone_info : String → Option Zone
  pub python_str : Value → String

abbrev built : Result CalendarError BusinessCalendar → Result SlaError BusinessCalendar
built (ok cal) = ok cal
built (err _) = err configuration_error

abbrev built_version :
    (String → Option Zone) → Option BusinessCalendarVersion → Result SlaError BusinessCalendar
built_version zone_info none = err configuration_error
built_version zone_info (some version) = built (build zone_info version)

-- `_calendar`
unfoldable pub calendar_of : Config → SlaGoalVersion → Result SlaError BusinessCalendar
calendar_of cfg goal = built_version cfg.zone_info (cfg.calendar goal.business_calendar_version_id)

abbrev from_calendar : Result CalendarError ℕ → Result SlaError ℕ
from_calendar (ok n) = ok n
from_calendar (err e) = err (calendar_error e)

unfoldable pub add_seconds : BusinessCalendar → ℕ → ℕ → Engine ℕ
add_seconds cal start seconds = lift (from_calendar (add_business_seconds cal start (pos seconds)))

unfoldable pub seconds_between : BusinessCalendar → ℕ → ℕ → Engine ℕ
seconds_between cal lower upper = lift (from_calendar (business_seconds_between cal lower upper))

abbrev pub optional_add : BusinessCalendar → ℕ → ℕ → Option ℕ → Engine (Option ℕ)
optional_add cal start total none = pure none
optional_add cal start total (some warning) =
    add_seconds cal start (total - warning) >>= λ at. pure (some at)

-- `_warning_at`
unfoldable pub warning_time : BusinessCalendar → ℕ → SlaGoalVersion → Engine (Option ℕ)
warning_time cal started_at goal =
    optional_add cal started_at goal.target_seconds goal.warning_seconds

abbrev pub remaining_add :
    BusinessCalendar → ℕ → ℕ → Option ℕ → Option ℕ → Option ℕ → Engine (Option ℕ)
remaining_add cal start remaining (some _) warning current = pure current
remaining_add cal start remaining none none current = pure current
remaining_add cal start remaining none (some warning) current =
    add_seconds cal start (remaining - warning) >>= λ at. pure (some at)

-- `_remaining_warning_at`
unfoldable pub remaining_warning_time : BusinessCalendar → ℕ → TicketSla → Engine (Option ℕ)
remaining_warning_time cal resumed_at sla =
    remaining_add cal resumed_at sla.remaining_working_seconds sla.warning_emitted_at
      sla.goal.warning_seconds sla.warning_at

abbrev pub is_running : SlaState → Bool
is_running running = true
is_running _ = false

abbrev pub is_paused : SlaState → Bool
is_paused paused = true
is_paused _ = false

abbrev pub is_breached : SlaState → Bool
is_breached breached = true
is_breached _ = false

abbrev pub is_completed : SlaState → Bool
is_completed completed = true
is_completed _ = false

abbrev pub is_some : Option ℕ → Bool
is_some none = false
is_some (some _) = true

-- The clock of a running SLA, moved on by `used` business seconds.
abbrev pub clocked : TicketSla → ℕ → ℕ → TicketSla
clocked sla at used = record sla {
  elapsed_working_seconds = sla.elapsed_working_seconds + used;
  remaining_working_seconds = sla.goal.target_seconds - (sla.elapsed_working_seconds + used);
  last_calculated_at = at;
}

-- `_calculated`
unfoldable pub calculated : Config → TicketSla → ℕ → Engine TicketSla
calculated cfg sla at =
    if not (is_running sla.state) || leb at sla.last_calculated_at then pure sla else do
      cal ← lift (calendar_of cfg sla.goal)
      used ← seconds_between cal sla.last_calculated_at at
      pure (clocked sla at used)

-- `_breach`
unfoldable pub breach : TicketSla → ℕ → Engine TicketSla
breach sla at =
    if is_breached sla.state
    then pure sla
    else record_event sla EventType.breached at breach_key >>= λ recorded.
        if not recorded then pure sla else do
          saved ←
              save
                (record sla {
                  state = breached;
                  breached_at = some at;
                  remaining_working_seconds = 0;
                  last_calculated_at = at;
                })
                sla.row_version
          emit_outbox (sla_breached saved.ticket_sla_id)
          count λ m. record m { breaches_emitted = m.breaches_emitted + 1 }
          pure saved

-- `_warning`
unfoldable pub warn : TicketSla → ℕ → Engine TicketSla
warn sla at = record_event sla EventType.warning at warning_key >>= λ recorded.
    if not recorded then pure sla else do
      warned ← save (record sla { warning_emitted_at = some at }) sla.row_version
      emit_outbox (sla_warning warned.ticket_sla_id)
      count λ m. record m { warnings_emitted = m.warnings_emitted + 1 }
      pure warned

-- `_pause`
unfoldable pub pause : Config → TicketSla → ℕ → ℕ → Engine TicketSla
pause cfg sla at input =
    if not (is_running sla.state)
    then pure sla
    else calculated cfg sla at >>= λ current.
        let stopped = record current { state = paused; paused_at = some at } in
        record_event stopped EventType.paused at (pause_key input) >>= λ recorded.
        if not recorded then pure sla else do
          saved ← save stopped sla.row_version
          count λ m. record m { instances_paused = m.instances_paused + 1 }
          pure saved

-- The part of `_resume` after its guard, for the instant at which the pause began.
unfoldable pub resume_from : Config → TicketSla → ℕ → ℕ → ℕ → Engine TicketSla
resume_from cfg sla paused_at at input = do
  cal ← lift (calendar_of cfg sla.goal)
  target_at ← add_seconds cal at sla.remaining_working_seconds
  warning_at ← remaining_warning_time cal at sla
  let resumed = record sla {
    state = running;
    target_at = target_at;
    warning_at = warning_at;
    paused_at = none;
    accumulated_pause_seconds = sla.accumulated_pause_seconds + (at - paused_at) / second;
    last_calculated_at = at;
  }
  recorded ← record_event resumed EventType.resumed at (resume_key input)
  if not recorded then pure sla else do
    saved ← save resumed sla.row_version
    count λ m. record m { instances_resumed = m.instances_resumed + 1 }
    pure saved

abbrev pub resume_if : Config → TicketSla → ℕ → ℕ → Option ℕ → Engine TicketSla
resume_if cfg sla at input none = pure sla
resume_if cfg sla at input (some paused_at) = resume_from cfg sla paused_at at input

-- `_resume`
unfoldable pub resume : Config → TicketSla → ℕ → ℕ → Engine TicketSla
unfolding resume_from
resume cfg sla at input =
    if not (is_paused sla.state) then pure sla else resume_if cfg sla at input sla.paused_at

abbrev pub closed_to_completion : SlaState → Bool
closed_to_completion cancelled = true
closed_to_completion pending = true
closed_to_completion _ = false

abbrev pub stopped_row : TicketSla → ℕ → TicketSla
stopped_row current at = record current {
  state = if is_breached current.state then breached else completed;
  completed_at = some at;
  paused_at = none;
  last_calculated_at = at;
}

-- The end of `_complete`: the event of an SLA that was met.
unfoldable pub note_met : TicketSla → ℕ → ℕ → Engine TicketSla
note_met saved at input =
    if is_completed saved.state
    then (do
      recorded ← record_event saved EventType.met at (met_key input)
      count λ m. record m { instances_met = m.instances_met + 1 }
      pure saved)
    else pure saved

-- `_complete`
unfoldable pub complete : Config → TicketSla → ℕ → ℕ → Engine TicketSla
unfolding note_met
complete cfg sla at input =
    if is_some sla.completed_at || closed_to_completion sla.state
    then pure sla
    else calculated cfg sla at >>= λ computed.
        (if is_running computed.state && computed.remaining_working_seconds == 0
          then breach computed at
          else pure computed)
        >>= λ current.
            record_event (stopped_row current at) EventType.stopped at (stop_key input)
            >>= λ recorded.
                if not recorded
                then pure sla
                else save (stopped_row current at) current.row_version >>= λ saved.
                    note_met saved at input

-- The part of `_reopen` for an SLA with time left.
unfoldable pub reopen_with : Config → TicketSla → ℕ → ℕ → ℕ → Engine TicketSla
reopen_with cfg sla remaining at input = do
  cal ← lift (calendar_of cfg sla.goal)
  target_at ← add_seconds cal at remaining
  warning_at ← remaining_warning_time cal at (record sla { remaining_working_seconds = remaining })
  let reopened = record sla {
    state = running;
    completed_at = none;
    remaining_working_seconds = remaining;
    target_at = target_at;
    warning_at = warning_at;
    last_calculated_at = at;
  }
  recorded ← record_event reopened EventType.resumed at (reopen_key input)
  if not recorded then pure sla else do
    saved ← save reopened sla.row_version
    count λ m. record m { instances_resumed = m.instances_resumed + 1 }
    pure saved

-- `_reopen`
unfoldable pub reopen : Config → TicketSla → ℕ → ℕ → Engine TicketSla
reopen cfg sla at input =
    let remaining = sla.goal.target_seconds - sla.elapsed_working_seconds in
    if not (is_completed sla.state)
    then pure sla
    else lift (calendar_of cfg sla.goal) >>= λ _.
        if remaining == 0
        then breach (record sla { completed_at = none }) at
        else reopen_with cfg sla remaining at input

-- `_advance`; a row whose clock did not move is not written
unfoldable pub advance : Config → TicketSla → ℕ → Engine TicketSla
advance cfg sla at =
    if not (is_running sla.state)
    then pure sla
    else calculated cfg sla at >>= λ advanced.
        if leb at sla.last_calculated_at then pure sla else save advanced sla.row_version

abbrev pub at_most : ℕ → Option ℕ → Bool
at_most n none = false
at_most n (some bound) = leb n bound

abbrev pub needs_warning : TicketSla → Bool
needs_warning current =
    not (is_some current.warning_emitted_at)
    && at_most current.remaining_working_seconds current.goal.warning_seconds

abbrev pub is_overdue : TicketSla → Bool
is_overdue current = current.remaining_working_seconds == 0 && is_running current.state

-- One round of `evaluate_due`
unfoldable pub evaluate_one : Config → TicketSla → ℕ → Engine (Unit {0})
evaluate_one cfg sla due_at = advance cfg sla due_at >>= λ advanced.
    (if needs_warning advanced then warn advanced due_at else pure advanced) >>= λ current.
    if is_overdue current then (breach current due_at >>= λ _. pure tt) else pure tt
