-- ===== src/Sla/Calendar/Zones.antt =====
-- `_local_boundary` of calendar.py: a wall-clock boundary as an instant.
use helpdesk_agent.Prelude.{
  ℕ, zero, suc, ◌+◌, ◌*◌, ◌/◌, ◌%◌, Bool, true, false, List, [], ◌∷◌, ◌++◌, Result, ok, err, ◌==◌,
  if◌then◌else◌, min, max,
}

abbrev pub second : ℕ
second = 1_000_000

abbrev pub minute : ℕ
minute = 60 * second

abbrev pub day_length : ℕ
day_length = 86_400 * second

-- A time zone: `to_local t` is `t.astimezone(zone).replace(tzinfo=None)`, and `to_utc n fold` is
-- `n.replace(tzinfo=zone, fold=fold).astimezone(UTC)`, with `true` for fold 1.
pub record Zone : Type 0 where
  pub to_local : ℕ → ℕ
  pub to_utc : ℕ → Bool → ℕ

pub data CalendarError : Type 0 where
  unknown_timezone period_day_invalid period_bounds_invalid periods_overlap : CalendarError
  custom_hours_invalid closed_with_hours unresolvable_local_time exceeds_ten_years : CalendarError
  negative_seconds : CalendarError

-- `value.astimezone(zone).date()`
abbrev pub local_date : Zone → ℕ → ℕ
local_date z t = z.to_local t / day_length

-- `datetime.combine(day, time)`
abbrev pub combine : ℕ → ℕ → ℕ
combine day time = day * day_length + time

-- `day.isoweekday()`: 0001-01-01 was a Monday
abbrev pub isoweekday : ℕ → ℕ
isoweekday day = day % 7 + 1

-- The instant that a wall-clock time names under `fold`, if it names one.
unfoldable pub candidate : Zone → ℕ → Bool → List ℕ
candidate z naive fold =
    let utc = z.to_utc naive fold in if z.to_local utc == naive then utc ∷ [] else []

abbrev pub choose : Bool → ℕ → ℕ → ℕ
choose true a b = max a b
choose false a b = min a b

-- The loop over `range(180)`: the first minute after a gap.
unfoldable pub probe_loop : Zone → ℕ → ℕ → Result CalendarError ℕ
probe_loop z zero probe = err unresolvable_local_time
probe_loop z (suc rounds) probe =
    let next = probe + minute in
    let utc = z.to_utc next false in
    let rest = probe_loop z rounds next in if z.to_local utc == next then ok utc else rest

abbrev pub pick : Bool → Result CalendarError ℕ → List ℕ → Result CalendarError ℕ
pick last fallback [] = fallback
pick last fallback (a ∷ []) = ok a
pick last fallback (a ∷ b ∷ _) = ok (choose last a b)

unfoldable pub local_boundary : Zone → ℕ → Bool → Result CalendarError ℕ
unfolding candidate
local_boundary z naive last =
    pick last (probe_loop z 180 naive) (candidate z naive false ++ candidate z naive true)
