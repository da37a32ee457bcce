-- ===== src/Sla/Calendar/Midnight.antt =====
-- A zone whose clocks go back over midnight: a calendar that is always open counts the repeated
-- hour in both days.
use helpdesk_agent.Prelude.{
  ℕ, ◌+◌, ◌-◌, ◌/◌, ◌≤◌, ◌<◌, ◌≡◌, Bool, true, false, [], ◌∷◌, arith, ok, ap, ==_iff, lt→leb_false,
}
use helpdesk_agent.Sla.Calendar.Zones.{
  Zone, second, local_date, combine, candidate, local_boundary, choose,
}
use helpdesk_agent.Sla.Calendar.Regular.{Names}
use helpdesk_agent.Sla.Calendar.Build.{BusinessCalendar}
use helpdesk_agent.Sla.Calendar.Arithmetic.{intervals, overlap, business_seconds_between}

candidate_of :
    (z : Zone) (naive : ℕ) (fold : Bool)
    → Names z naive fold
    → candidate z naive fold ≡ z.to_utc naive fold ∷ []
unfolding candidate
candidate_of z naive fold n = rw ((==_iff (z.to_local (z.to_utc naive fold)) naive).1 n)

-- A wall-clock time that exists twice: `end` takes the later instant, else the earlier one.
local_boundary-twice :
    (z : Zone) (naive : ℕ) (last : Bool)
    → Names z naive false
    → Names z naive true
    → local_boundary z naive last ≡ ok (choose last (z.to_utc naive false) (z.to_utc naive true))
unfolding local_boundary
local_boundary-twice z naive last n m =
    rw (candidate_of z naive false n, candidate_of z naive true m)

module _ (cal : BusinessCalendar) (day opening closing : ℕ) where
  abbrev first_midnight : ℕ
  first_midnight = cal.timezone.to_utc (combine (day + 1) 0) false

  abbrev second_midnight : ℕ
  second_midnight = cal.timezone.to_utc (combine (day + 1) 0) true

  before_midnight :
      cal.version.twenty_four_seven ≡ true
      → local_boundary cal.timezone (combine day 0) false ≡ ok opening
      → Names cal.timezone (combine (day + 1) 0) false
      → Names cal.timezone (combine (day + 1) 0) true
      → first_midnight < second_midnight
      → intervals cal day ≡ ok ((opening, second_midnight) ∷ [])
  unfolding intervals
  before_midnight always e n m h =
      rw (always, e, local_boundary-twice cal.timezone (combine (day + 1) 0) true n m)
        (ap (λ t. ok ((opening, t) ∷ [])) (omega arith))

  after_midnight :
      cal.version.twenty_four_seven ≡ true
      → local_boundary cal.timezone (combine (day + 1 + 1) 0) true ≡ ok closing
      → Names cal.timezone (combine (day + 1) 0) false
      → Names cal.timezone (combine (day + 1) 0) true
      → first_midnight < second_midnight
      → intervals cal (day + 1) ≡ ok ((first_midnight, closing) ∷ [])
  unfolding intervals
  after_midnight always e n m h =
      rw (always, e, local_boundary-twice cal.timezone (combine (day + 1) 0) false n m)
        (ap (λ t. ok ((t, closing) ∷ [])) (omega arith))

  two_days :
      (lower upper : ℕ)
      → opening ≤ lower
      → lower < second_midnight
      → first_midnight < upper
      → lower ≤ first_midnight
      → second_midnight ≤ upper
      → upper ≤ closing
      → 0
          + (overlap lower upper (opening, second_midnight) + 0)
          + (overlap lower upper (first_midnight, closing) + 0)
        ≡ (second_midnight - lower) / second + (upper - first_midnight) / second
  two_days lower upper a b c d e f = ground arith

  -- On a calendar that is always open, in a zone where the midnight that starts the day after `day`
  -- occurs twice: the business seconds between an instant of `day` and an instant of the next day
  -- are the seconds up to the second midnight plus those from the first midnight on, so the time
  -- between the two midnights is counted twice.
  pub business_seconds_between-repeated_midnight :
      (lower upper : ℕ)
      → cal.version.twenty_four_seven ≡ true
      → local_boundary cal.timezone (combine day 0) false ≡ ok opening
      → local_boundary cal.timezone (combine (day + 1 + 1) 0) true ≡ ok closing
      → Names cal.timezone (combine (day + 1) 0) false
      → Names cal.timezone (combine (day + 1) 0) true
      → first_midnight < second_midnight
      → (opening ≤ lower) × (lower ≤ first_midnight)
      → (second_midnight ≤ upper) × (upper ≤ closing)
      → local_date cal.timezone lower ≡ day
      → local_date cal.timezone upper ≡ day + 1
      → business_seconds_between cal lower upper
        ≡ ok ((second_midnight - lower) / second + (upper - first_midnight) / second)
  unfolding business_seconds_between
  business_seconds_between-repeated_midnight lower upper always e e' n m h l u d d' =
      let rounds : local_date cal.timezone upper + 1 - local_date cal.timezone lower ≡ 2 =
        omega (arith, d, d') in
      rw (lt→leb_false lower upper (omega arith), rounds)
        (rw d (
          rw (before_midnight always e n m h, after_midnight always e' n m h)
            (ap ok (two_days lower upper l.0 (omega arith) (omega arith) l.1 u.0 u.1))))
