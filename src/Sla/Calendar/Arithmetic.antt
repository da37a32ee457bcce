-- ===== src/Sla/Calendar/Arithmetic.antt =====
-- `_intervals`, `add_business_seconds` and `business_seconds_between` of calendar.py.
use helpdesk_agent.Prelude.{
  ℕ, zero, suc, ◌+◌, ◌-◌, ◌*◌, ◌/◌, Bool, true, false, Option, none, some, List, [], ◌∷◌, ltb, leb,
  if◌then◌else◌, Result, ok, err, ◌>>=◌, map_result, min, max, any,
}
use helpdesk_agent.Sla.Models.{
  CalendarExceptionType, closed, custom_hours, WorkingPeriod, CalendarException,
}
use helpdesk_agent.Sla.Calendar.Zones.{
  Zone, CalendarError, second, local_date, combine, isoweekday, local_boundary, exceeds_ten_years,
  negative_seconds,
}
use helpdesk_agent.Sla.Calendar.Intervals.{Interval, merge_intervals}
use helpdesk_agent.Sla.Calendar.Build.{BusinessCalendar, get_group}
use helpdesk_agent.Prelude.Int.{ℤ, pos, negsuc}

abbrev pub is_closed : CalendarExceptionType → Bool
is_closed closed = true
is_closed custom_hours = false

-- `value or time.min`: a `time` is true in Python, so only `None` is replaced
abbrev or_midnight : Option ℕ → ℕ
or_midnight none = 0
or_midnight (some t) = t

-- The custom hours of a day's exceptions, as periods.
abbrev pub custom_periods : ℕ → List CalendarException → List WorkingPeriod
custom_periods day [] = []
custom_periods day (x ∷ rest) =
    let others = custom_periods day rest in
    if is_closed x.exception_type
    then others
    else record {
      iso_day_of_week = isoweekday day;
      start_local_time = or_midnight x.start_local_time;
      end_local_time = or_midnight x.end_local_time;
    }
      ∷ others

-- `custom or list(...)`
abbrev or_weekly : List WorkingPeriod → List WorkingPeriod → List WorkingPeriod
or_weekly [] weekly = weekly
or_weekly (p ∷ rest) weekly = p ∷ rest

abbrev pub day_periods : BusinessCalendar → ℕ → List WorkingPeriod
day_periods cal day =
    or_weekly (custom_periods day (get_group day cal.exceptions))
      (get_group (isoweekday day) cal.periods)

unfoldable pub bound_period : Zone → ℕ → WorkingPeriod → Result CalendarError Interval
bound_period z day p = do
  opens ← local_boundary z (combine day p.start_local_time) false
  closes ← local_boundary z (combine day p.end_local_time) true
  ok (opens, closes)

unfoldable pub whole_day : Zone → ℕ → Result CalendarError (List Interval)
whole_day z day = do
  opens ← local_boundary z (combine day 0) false
  closes ← local_boundary z (combine (day + 1) 0) true
  ok ((opens, closes) ∷ [])

unfoldable pub intervals : BusinessCalendar → ℕ → Result CalendarError (List Interval)
unfolding whole_day bound_period
intervals cal day =
    if cal.version.twenty_four_seven
    then whole_day cal.timezone day
    else if any (λ (x : CalendarException). is_closed x.exception_type)
        (get_group day cal.exceptions)
    then ok []
    else map_result (bound_period cal.timezone day) (day_periods cal day) >>= λ bounded.
        ok (merge_intervals bounded)

-- What the loop over one day's intervals ends with.
pub data Consumed : Type 0 where
  reached : ℕ → Consumed
  left : ℕ → Consumed

unfoldable pub consume : ℕ → ℕ → List Interval → Consumed
consume current remaining [] = left remaining
consume current remaining ((opens, closes) ∷ rest) =
    let cursor = max current opens in
    let available = (closes - cursor) / second in
    let skipped = consume current remaining rest in
    let later = consume current (remaining - available) rest in
    if leb closes cursor
    then skipped
    else if leb remaining available
    then reached (cursor + remaining * second)
    else later

-- The loop over the days; `rounds` days of `range(_MAX_SEARCH_DAYS)` are left.
unfoldable pub add_days : BusinessCalendar → ℕ → ℕ → ℕ → ℕ → Result CalendarError ℕ
add_days cal zero day current remaining = err exceeds_ten_years
add_days cal (suc rounds) day current remaining = intervals cal day >>= λ open_intervals.
    elim (consume current remaining open_intervals) [
      | reached instant ↦ ok instant
      | left remaining' ↦ local_boundary cal.timezone (combine (day + 1) 0) false >>= λ midnight.
          add_days cal rounds (day + 1) midnight remaining'
    ]

abbrev pub max_search_days : ℕ
max_search_days = 3660

unfoldable pub add_business_seconds : BusinessCalendar → ℕ → ℤ → Result CalendarError ℕ
unfolding add_days
add_business_seconds cal start (negsuc _) = err negative_seconds
add_business_seconds cal start (pos zero) = ok start
add_business_seconds cal start (pos (suc seconds)) =
    add_days cal max_search_days (local_date cal.timezone start) start (suc seconds)

-- The whole seconds of one interval inside `[lower, upper)`.
abbrev pub overlap : ℕ → ℕ → Interval → ℕ
overlap lower upper (opens, closes) =
    let overlap_start = max lower opens in
    let overlap_end = min upper closes in
    if ltb overlap_start overlap_end then (overlap_end - overlap_start) / second else 0

abbrev pub overlap_total : ℕ → ℕ → List Interval → ℕ
overlap_total lower upper [] = 0
overlap_total lower upper (i ∷ rest) = overlap lower upper i + overlap_total lower upper rest

-- The `while day <= last`; `rounds` days are left.
unfoldable pub sum_days : BusinessCalendar → ℕ → ℕ → ℕ → ℕ → ℕ → Result CalendarError ℕ
sum_days cal lower upper zero day total = ok total
sum_days cal lower upper (suc rounds) day total = intervals cal day >>= λ open_intervals.
    sum_days cal lower upper rounds (day + 1) (total + overlap_total lower upper open_intervals)

unfoldable pub business_seconds_between : BusinessCalendar → ℕ → ℕ → Result CalendarError ℕ
unfolding sum_days
business_seconds_between cal lower upper =
    let first = local_date cal.timezone lower in
    let last = local_date cal.timezone upper in
    if leb upper lower then ok 0 else sum_days cal lower upper (last + 1 - first) first 0
