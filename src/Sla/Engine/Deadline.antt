-- ===== src/Sla/Engine/Deadline.antt =====
-- The deadline of a running SLA, against its clock.
use helpdesk_agent.Prelude.{◌+◌, ◌<◌, ◌≡◌, true, arith, ok, lt→leb_false}
use helpdesk_agent.Prelude.Int.{pos}
use helpdesk_agent.Sla.Models.{TicketSla}
use helpdesk_agent.Sla.Calendar.Build.{BusinessCalendar}
use helpdesk_agent.Sla.Calendar.Arithmetic.{add_business_seconds}
use helpdesk_agent.Sla.Calendar.Regular.{IsRegular}
use helpdesk_agent.Sla.Calendar.Hours.{InMinutes, business_seconds_round_trip}
use helpdesk_agent.Sla.Store.{Store, ◌>>=◌}
use helpdesk_agent.Sla.Engine.{Config, calendar_of, seconds_between, is_running, calculated}

-- A running SLA whose deadline lies its remaining seconds after its last calculation (as on its
-- start, its resumption and its recalculation), on a calendar in whole minutes in a zone with one
-- midnight a day: calculated at the deadline, its clock has used exactly the goal's seconds, nothing
-- remains, and nothing else changes.
pub calculated-target :
    (cfg : Config) (sla : TicketSla) (cal : BusinessCalendar) (s : Store)
    → IsRegular cal.timezone
    → InMinutes cal
    → calendar_of cfg sla.goal ≡ ok cal
    → is_running sla.state ≡ true
    → sla.elapsed_working_seconds + sla.remaining_working_seconds ≡ sla.goal.target_seconds
    → add_business_seconds cal sla.last_calculated_at (pos sla.remaining_working_seconds)
      ≡ ok sla.target_at
    → sla.last_calculated_at < sla.target_at
    → calculated cfg sla sla.target_at s
      ≡ ok (
        record sla {
          elapsed_working_seconds = sla.goal.target_seconds;
          remaining_working_seconds = 0;
          last_calculated_at = sla.target_at;
        },
        s,
      )
unfolding calculated seconds_between ◌>>=◌
calculated-target cfg sla cal s reg minutes found runs balance due later =
    rw (runs, lt→leb_false sla.last_calculated_at sla.target_at later, found)
      (rw
        (business_seconds_round_trip cal reg minutes sla.last_calculated_at
          sla.remaining_working_seconds sla.target_at due)
        (ground arith))
