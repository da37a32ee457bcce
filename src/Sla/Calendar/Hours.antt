-- ===== src/Sla/Calendar/Hours.antt =====
-- The days of a calendar in a regular zone: `_intervals` always succeeds, with disjoint intervals
-- between the day's midnights.
use helpdesk_agent.Prelude.{
  ℕ, ◌+◌, ◌-◌, ◌%◌, ◌≤◌, ◌<◌, ◌≡◌, refl, true, false, List, [], ◌∷◌, ◌||◌, arith, Bool-cases, inl,
  inr, ok, sym, ◌∙◌, map_result, any, All,
}
use helpdesk_agent.Sla.Models.{WorkingPeriod, CalendarException}
use helpdesk_agent.Sla.Calendar.Zones.{minute, day_length, combine}
use helpdesk_agent.Sla.Calendar.Intervals.{Interval, merge_intervals}
use helpdesk_agent.Sla.Calendar.Intervals.Cover.{Separated, covers, within, merge_intervals_lem}
use helpdesk_agent.Sla.Calendar.Build.{BusinessCalendar, get_group}
use helpdesk_agent.Sla.Calendar.Arithmetic.{
  intervals, bound_period, day_periods, is_closed, add_business_seconds, business_seconds_between,
}
use helpdesk_agent.Sla.Calendar.Consume.{OpenAfter, CloseBefore, Separated-tail, Separated-head}
use helpdesk_agent.Sla.Calendar.Days.{DayBounded, between-add_business_seconds}
use helpdesk_agent.Sla.Calendar.Regular.{
  IsRegular, InDay, midnight, local_boundary-Within, local_boundary-midnight, ascending, date_of,
}
use helpdesk_agent.Prelude.Int.{pos}

-- A Python `time` in whole minutes.
abbrev pub IsTime : ℕ → Type 0
IsTime t = (t < day_length) × (t % minute ≡ 0)

-- The hours of every day of the calendar are Python times in whole minutes.
abbrev pub InMinutes : BusinessCalendar → Type 0
InMinutes cal =
    (day : ℕ)
    → All (λ (p : WorkingPeriod). IsTime p.start_local_time × IsTime p.end_local_time)
        (day_periods cal day)

-- Every instant that is covered lies between `low` and `high`.
abbrev Covered : ℕ → ℕ → List Interval → Type 0
Covered low high l = (t : ℕ) → covers t l ≡ true → (low ≤ t) × (t < high)

Covered-head :
    (low high s e : ℕ) (l : List Interval)
    → s < e
    → Covered low high ((s, e) ∷ l)
    → (low ≤ s) × (e ≤ high)
Covered-head low high s e l n c =
    let first = c s (ground arith) in
    let last = c (e - 1) (ground arith) in (first.0, omega (arith, last))

Covered-tail :
    (low high : ℕ) (i : Interval) (l : List Interval)
    → Covered low high (i ∷ l)
    → Covered low high l
Covered-tail low high (s, e) l c t h = c t (ground (arith, h))

Covered-bounds :
    (low high : ℕ) (l : List Interval)
    → Separated l
    → Covered low high l
    → OpenAfter low l × CloseBefore high l
Covered-bounds low high [] sep c = (tt, tt)
Covered-bounds low high ((s, e) ∷ l) sep c =
    let head = Covered-head low high s e l (Separated-head (s, e) l sep) c in
    let tail =
      Covered-bounds low high l (Separated-tail (s, e) l sep) (Covered-tail low high (s, e) l c) in
    ((head.0, tail.0), (head.1, tail.1))

here_bounds :
    (low high s e t : ℕ)
    → low ≤ s
    → e ≤ high
    → (within t (s, e) || false) ≡ true
    → (low ≤ t) × (t < high)
here_bounds low high s e t a b h = ground arith

bounds-Covered :
    (low high : ℕ) (l : List Interval) → OpenAfter low l → CloseBefore high l → Covered low high l
bounds-Covered low high [] a b t h = absurd (cc)
bounds-Covered low high ((s, e) ∷ l) a b t h = elim (Bool-cases (covers t l)) [
  | inl rest ↦ bounds-Covered low high l a.1 b.1 t rest
  | inr here ↦ here_bounds low high s e t a.0 b.0 (rw here at h)
]

-- Merging keeps the intervals between the bounds.
merged_bounds :
    (low high : ℕ) (l : List Interval)
    → OpenAfter low l
    → CloseBefore high l
    → OpenAfter low (merge_intervals l) × CloseBefore high (merge_intervals l)
merged_bounds low high l a b =
    let (same, sep) = merge_intervals_lem l in
    Covered-bounds low high (merge_intervals l) sep
      (λ t h. bounds-Covered low high l a b t (sym (same t) ∙ h))

intervals-weekly :
    (cal : BusinessCalendar) (day : ℕ) (l : List Interval)
    → cal.version.twenty_four_seven ≡ false
    → any (λ (x : CalendarException). is_closed x.exception_type) (get_group day cal.exceptions)
      ≡ false
    → map_result (bound_period cal.timezone day) (day_periods cal day) ≡ ok l
    → intervals cal day ≡ ok (merge_intervals l)
unfolding intervals
intervals-weekly cal day l weekly open_day e = rw (weekly, open_day, e)

module _ (cal : BusinessCalendar) (reg : IsRegular cal.timezone) (minutes : InMinutes cal) where
  abbrev start_of : ℕ → ℕ
  start_of = midnight cal.timezone reg

  time_InDay : (day t : ℕ) → IsTime t → InDay day (combine day t)
  time_InDay day t h = (omega arith, omega (arith, h), omega (arith, h))

  bounded :
      (day : ℕ) (ps : List WorkingPeriod)
      → All (λ (p : WorkingPeriod). IsTime p.start_local_time × IsTime p.end_local_time) ps
      → (l : List Interval) × (map_result (bound_period cal.timezone day) ps ≡ ok l)
        × OpenAfter (start_of day) l
        × CloseBefore (start_of (day + 1)) l
  unfolding bound_period
  bounded day [] h = ([], refl, tt, tt)
  bounded day (p ∷ ps) h =
      let (opens, e, w) =
        local_boundary-Within cal.timezone reg day (combine day p.start_local_time) false
          (time_InDay day p.start_local_time h.0.0) in
      let (closes, e', w') =
        local_boundary-Within cal.timezone reg day (combine day p.end_local_time) true
          (time_InDay day p.end_local_time h.0.1) in
      let (l, k, a, b) = bounded day ps h.1 in
      ((opens, closes) ∷ l, rw (e, e', k), (w.0, a), (w'.1, b))

  -- What `_intervals` returns for a day.
  abbrev Hours : ℕ → Type 0
  Hours day =
      (l : List Interval) × (intervals cal day ≡ ok l)
      × Separated l
      × OpenAfter (start_of day) l
      × CloseBefore (start_of (day + 1)) l

  Hours-of : (day : ℕ) → Hours day
  unfolding intervals
  Hours-of day = elim (Bool-cases cal.version.twenty_four_seven) [
    | inl always ↦ (
      (start_of day, start_of (day + 1)) ∷ [],
      rw always (
          rw (
            local_boundary-midnight cal.timezone reg day false,
            local_boundary-midnight cal.timezone reg (day + 1) true,
          )),
      ascending cal.timezone reg day,
      (omega arith, tt),
      (omega arith, tt),
    )
    | inr weekly ↦
        elim (Bool-cases (
          any (λ (x : CalendarException). is_closed x.exception_type)
            (get_group day cal.exceptions))) [
              | inl shut ↦ ([], rw (weekly, shut), tt, tt, tt)
              | inr open_day ↦
                  let (l, e, a, b) = bounded day (day_periods cal day) (minutes day) in
                  let (a', b') = merged_bounds (start_of day) (start_of (day + 1)) l a b in
                  (
                    merge_intervals l,
                    intervals-weekly cal day l weekly open_day e,
                    (merge_intervals_lem l).1,
                    a',
                    b',
                  )
            ]
  ]

  hours_bounded : DayBounded cal
  hours_bounded = record {
    midnight = start_of;
    boundary = λ day. local_boundary-midnight cal.timezone reg day false;
    dated = reg.dated;
    date_of = date_of cal.timezone reg;
    ascending = ascending cal.timezone reg;
    hours = λ day. (Hours-of day).0;
    resolved = λ day. (Hours-of day).1;
    separated = λ day. (Hours-of day).2;
    opens = λ day. (Hours-of day).3;
    closes = λ day. (Hours-of day).4;
  }

  -- In a zone with one midnight a day and no gap over three hours, for a calendar in whole minutes:
  -- if adding business seconds to an instant returns an instant (it may instead raise, after ten
  -- years), then the business seconds from the first to the second are exactly those added.
  pub business_seconds_round_trip :
      (start seconds r : ℕ)
      → add_business_seconds cal start (pos seconds) ≡ ok r
      → business_seconds_between cal start r ≡ ok seconds
  business_seconds_round_trip = between-add_business_seconds cal hours_bounded

  -- There, a day's intervals always resolve: disjoint, each with an inside, and between the
  -- midnights of the day.
  pub intervals_resolve :
      (day : ℕ)
      → (l : List Interval) × (intervals cal day ≡ ok l)
        × Separated l
        × OpenAfter (cal.timezone.to_utc (combine day 0) false) l
        × CloseBefore (cal.timezone.to_utc (combine (day + 1) 0) false) l
  intervals_resolve = Hours-of
