-- ===== src/Sla/Calendar/Tests.antt =====
-- The calendar at concrete inputs: UTC, and a zone whose clocks go back over midnight.
use helpdesk_agent.Prelude.{
  ℕ, ◌+◌, ◌-◌, ◌*◌, ◌≡◌, refl, true, false, none, some, List, [], ◌∷◌, ltb, if◌then◌else◌, arith,
  ok, err,
}
use helpdesk_agent.Prelude.Int.{pos}
use helpdesk_agent.Sla.Models.{closed, BusinessCalendarVersion}
use helpdesk_agent.Sla.Calendar.Zones.{
  Zone, second, day_length, combine, local_boundary, periods_overlap, probe_loop,
}
use helpdesk_agent.Sla.Calendar.Intervals.{merge_intervals}
use helpdesk_agent.Sla.Calendar.Intervals.Cover.{covers, Separated, merge_intervals_lem}
use helpdesk_agent.Sla.Calendar.Build.{BusinessCalendar, build, validated_periods}
use helpdesk_agent.Sla.Calendar.Arithmetic.{
  add_business_seconds, business_seconds_between, intervals, consume,
}
use helpdesk_agent.Sla.Calendar.Consume.{OpenAfter, CloseBefore}
use helpdesk_agent.Sla.Calendar.Regular.{IsRegular}
use helpdesk_agent.Sla.Calendar.Hours.{InMinutes, business_seconds_round_trip, intervals_resolve}
use helpdesk_agent.Sla.Calendar.Midnight.{business_seconds_between-repeated_midnight}

abbrev hour : ℕ
hour = 3600 * second

abbrev utc_zone : Zone
utc_zone = record { to_local = λ t. t; to_utc = λ n _. n }

utc_zone-IsRegular : IsRegular utc_zone
utc_zone-IsRegular = record {
  midnight_exists = λ day. refl;
  midnight_once = λ day. refl;
  dated = λ t. (omega arith, omega arith);
  gap_short = λ naive. (0, omega arith, refl);
}

-- Mondays from 9 to 12 and from 13 to 17, closed on day 7.
abbrev monday_version : BusinessCalendarVersion
monday_version = record {
  business_calendar_version_id = 1;
  calendar_id = 1;
  timezone_name = "UTC";
  twenty_four_seven = false;
  working_periods =
      record { iso_day_of_week = 1; start_local_time = 13 * hour; end_local_time = 17 * hour }
      ∷ record { iso_day_of_week = 1; start_local_time = 9 * hour; end_local_time = 12 * hour }
      ∷ [];
  exceptions =
      record {
        exception_date = 7;
        exception_type = closed;
        start_local_time = none;
        end_local_time = none;
      }
      ∷ [];
}

abbrev monday_calendar : BusinessCalendar
monday_calendar = record {
  version = monday_version;
  timezone = utc_zone;
  periods =
      (
        1,
        record { iso_day_of_week = 1; start_local_time = 9 * hour; end_local_time = 12 * hour }
            ∷ record {
              iso_day_of_week = 1;
              start_local_time = 13 * hour;
              end_local_time = 17 * hour;
            }
            ∷ [],
      )
      ∷ [];
  exceptions = (7, monday_version.exceptions) ∷ [];
}

monday_build : build (λ _. some utc_zone) monday_version ≡ ok monday_calendar
unfolding build
monday_build = refl

monday-InMinutes : InMinutes monday_calendar
monday-InMinutes day = ground arith

-- Eight hours from Monday 8:00: seven on day 0, day 7 is closed, and one on day 14.
eight_hours :
    add_business_seconds monday_calendar (8 * hour) (pos 28_800) ≡ ok (14 * day_length + 10 * hour)
unfolding add_business_seconds intervals local_boundary probe_loop merge_intervals consume
eight_hours = refl

business_seconds_round_trip_example :
    business_seconds_between monday_calendar (8 * hour) (14 * day_length + 10 * hour) ≡ ok 28_800
business_seconds_round_trip_example =
    business_seconds_round_trip monday_calendar utc_zone-IsRegular monday-InMinutes (8 * hour)
      28_800 (14 * day_length + 10 * hour) eight_hours

intervals_resolve_example :
    (l : List (ℕ × ℕ)) × (intervals monday_calendar 0 ≡ ok l)
    × Separated l
    × OpenAfter (combine 0 0) l
    × CloseBefore (combine 1 0) l
intervals_resolve_example = intervals_resolve monday_calendar utc_zone-IsRegular monday-InMinutes 0

overlapping_periods :
    validated_periods (
      record { iso_day_of_week = 2; start_local_time = 0; end_local_time = 5 }
      ∷ record { iso_day_of_week = 2; start_local_time = 4; end_local_time = 9 }
      ∷ [])
    ≡ err periods_overlap
unfolding validated_periods
overlapping_periods = refl

merge_intervals_lem_example :
    ((t : ℕ)
      → covers t (merge_intervals ((5, 9) ∷ (1, 3) ∷ (3, 4) ∷ []))
        ≡ covers t ((5, 9) ∷ (1, 3) ∷ (3, 4) ∷ []))
    × Separated (merge_intervals ((5, 9) ∷ (1, 3) ∷ (3, 4) ∷ []))
merge_intervals_lem_example = merge_intervals_lem ((5, 9) ∷ (1, 3) ∷ (3, 4) ∷ [])

-- One hour ahead of UTC until the clocks go back at 01:00 of day 2 to midnight.
abbrev autumn_zone : Zone
autumn_zone = record {
  to_local = λ t. if ltb t (2 * day_length) then t + hour else t;
  to_utc = λ n fold.
      if ltb n (2 * day_length)
      then n - hour
      else if ltb n (2 * day_length + hour)
      then (if fold then n else n - hour)
      else n;
}

abbrev always_open : BusinessCalendar
always_open = record {
  version = record monday_version {
    twenty_four_seven = true;
    working_periods = [];
    exceptions = [];
  };
  timezone = autumn_zone;
  periods = [];
  exceptions = [];
}

-- Three hours pass, and four are counted.
business_seconds_between-repeated_midnight_example :
    business_seconds_between always_open (2 * day_length - 2 * hour) (2 * day_length + hour)
    ≡ ok 14_400
unfolding local_boundary
business_seconds_between-repeated_midnight_example =
    business_seconds_between-repeated_midnight always_open 1 (day_length - hour) (3 * day_length)
      (2 * day_length - 2 * hour) (2 * day_length + hour) refl refl refl refl refl (omega arith)
      (omega arith, omega arith) (omega arith, omega arith) refl refl
