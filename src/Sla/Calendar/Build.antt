-- ===== src/Sla/Calendar/Build.antt =====
-- The construction of `BusinessCalendar` in calendar.py: the checks of a calendar version.
use helpdesk_agent.Prelude.{
  ℕ, String, Bool, true, false, not, Option, none, some, List, [], ◌∷◌, ◌&&◌, ◌||◌, ltb, leb, ◌==◌,
  if◌then◌else◌, Result, ok, err, ◌>>=◌, ◌++◌, map_result,
}
use helpdesk_agent.Sla.Models.{
  CalendarExceptionType, closed, custom_hours, WorkingPeriod, CalendarException,
  BusinessCalendarVersion,
}
use helpdesk_agent.Sla.Calendar.Zones.{
  Zone, CalendarError, unknown_timezone, period_day_invalid, period_bounds_invalid, periods_overlap,
  custom_hours_invalid, closed_with_hours,
}

-- A dictionary from numbers to lists, in the order of insertion.
abbrev pub Grouped : Type 0 → Type 0
Grouped A = List (ℕ × List A)

-- `result.setdefault(key, []).append(value)`
abbrev pub append_to : {A : Type 0} → ℕ → A → Grouped A → Grouped A
append_to key value [] = (key, value ∷ []) ∷ []
append_to key value ((k, values) ∷ rest) =
    if k == key then (k, values ++ value ∷ []) ∷ rest else (k, values) ∷ append_to key value rest

-- `result.get(key, ())`
abbrev pub get_group : {A : Type 0} → ℕ → Grouped A → List A
get_group key [] = []
get_group key ((k, values) ∷ rest) = if k == key then values else get_group key rest

pub group_periods :
    Grouped WorkingPeriod → List WorkingPeriod → Result CalendarError (Grouped WorkingPeriod)
group_periods result [] = ok result
group_periods result (period ∷ rest) =
    let more = group_periods (append_to period.iso_day_of_week period result) rest in
    if not (leb 1 period.iso_day_of_week && leb period.iso_day_of_week 7)
    then err period_day_invalid
    else if leb period.end_local_time period.start_local_time
    then err period_bounds_invalid
    else more

abbrev pub insert_period : WorkingPeriod → List WorkingPeriod → List WorkingPeriod
insert_period p [] = p ∷ []
insert_period p (q ∷ rest) =
    if leb p.start_local_time q.start_local_time then p ∷ q ∷ rest else q ∷ insert_period p rest

-- `sorted(values, key=lambda item: item.start_local_time)`, which is stable
abbrev pub sort_periods : List WorkingPeriod → List WorkingPeriod
sort_periods [] = []
sort_periods (p ∷ rest) = insert_period p (sort_periods rest)

-- Two neighbours of the ordered periods overlap.
abbrev pub has_overlap : List WorkingPeriod → Bool
has_overlap (p ∷ q ∷ rest) = ltb q.start_local_time p.end_local_time || has_overlap (q ∷ rest)
has_overlap _ = false

abbrev normalize_day : ℕ × List WorkingPeriod → Result CalendarError (ℕ × List WorkingPeriod)
normalize_day (day, values) =
    let ordered = sort_periods values in
    if has_overlap ordered then err periods_overlap else ok (day, ordered)

unfoldable pub validated_periods : List WorkingPeriod → Result CalendarError (Grouped WorkingPeriod)
unfolding group_periods
validated_periods periods = group_periods [] periods >>= map_result normalize_day

-- `start is None or end is None or start >= end`
abbrev bad_hours : Option ℕ → Option ℕ → Bool
bad_hours (some s) (some e) = leb e s
bad_hours _ _ = true

-- `start is not None or end is not None`
abbrev has_hours : Option ℕ → Option ℕ → Bool
has_hours none none = false
has_hours _ _ = true

abbrev check_exception :
    CalendarExceptionType → Option ℕ → Option ℕ → Result CalendarError (Unit {0})
check_exception custom_hours s e = if bad_hours s e then err custom_hours_invalid else ok tt
check_exception closed s e = if has_hours s e then err closed_with_hours else ok tt

pub group_exceptions :
    Grouped CalendarException
    → List CalendarException
    → Result CalendarError (Grouped CalendarException)
group_exceptions result [] = ok result
group_exceptions result (x ∷ rest) =
    let more = group_exceptions (append_to x.exception_date x result) rest in
    check_exception x.exception_type x.start_local_time x.end_local_time >>= λ _. more

pub record BusinessCalendar : Type 0 where
  pub version : BusinessCalendarVersion
  pub timezone : Zone
  pub periods : Grouped WorkingPeriod
  pub exceptions : Grouped CalendarException

abbrev find_zone : Option Zone → Result CalendarError Zone
find_zone none = err unknown_timezone
find_zone (some z) = ok z

-- `BusinessCalendar(version)`; `zone_info` is the time-zone database, `none` for an unknown name.
unfoldable pub build :
    (String → Option Zone) → BusinessCalendarVersion → Result CalendarError BusinessCalendar
unfolding validated_periods group_exceptions
build zone_info version = do
  timezone ← find_zone (zone_info version.timezone_name)
  periods ← validated_periods version.working_periods
  exceptions ← group_exceptions [] version.exceptions
  ok (record { version = version; timezone = timezone; periods = periods; exceptions = exceptions })
