-- ===== src/Sla/Calendar/Days.antt =====
-- The loops over days: counting the seconds up to the instant that `add_business_seconds` returns
-- gives the seconds that were added.
use helpdesk_agent.Prelude.{
  ℕ, zero, suc, ◌+◌, ◌-◌, ◌≤◌, ◌<◌, ◌≡◌, refl, false, List, arith, ok, ◌>>=◌, sym, ◌∙◌, ap, dec_lt,
  ok_inj, lt→leb_false, eq→leb,
}
use native.Mathlib.Nat.{add-zero}
use helpdesk_agent.Prelude.Int.{pos}
use helpdesk_agent.Sla.Calendar.Zones.{local_date, combine, local_boundary}
use helpdesk_agent.Sla.Calendar.Intervals.{Interval}
use helpdesk_agent.Sla.Calendar.Intervals.Cover.{Separated}
use helpdesk_agent.Sla.Calendar.Build.{BusinessCalendar}
use helpdesk_agent.Sla.Calendar.Arithmetic.{
  Consumed, reached, left, consume, overlap_total, intervals, add_days, add_business_seconds,
  sum_days, business_seconds_between, max_search_days,
}
use helpdesk_agent.Sla.Calendar.Consume.{
  OpenAfter, CloseBefore, OpenAfter-weaken, CloseBefore-weaken, overlap_total-OpenAfter,
  overlap_total-low, consume_low, consume_high, consume-reached, consume-left,
}

-- What the arithmetic needs of a calendar's days: they follow one another at `midnight`, a local
-- date is that of the midnights around the instant, and the intervals of a day are disjoint and
-- lie between its midnights.
pub record DayBounded (cal : BusinessCalendar) : Type 0 where
  pub midnight : ℕ → ℕ
  pub boundary : (day : ℕ) → local_boundary cal.timezone (combine day 0) false ≡ ok (midnight day)
  pub dated :
      (t : ℕ)
      → (midnight (local_date cal.timezone t) ≤ t) × (t < midnight (local_date cal.timezone t + 1))
  pub date_of :
      (day t : ℕ) → midnight day ≤ t → t < midnight (day + 1) → local_date cal.timezone t ≡ day
  pub ascending : (day : ℕ) → midnight day < midnight (day + 1)
  pub hours : ℕ → List Interval
  pub resolved : (day : ℕ) → intervals cal day ≡ ok (hours day)
  pub separated : (day : ℕ) → Separated (hours day)
  pub opens : (day : ℕ) → OpenAfter (midnight day) (hours day)
  pub closes : (day : ℕ) → CloseBefore (midnight (day + 1)) (hours day)

module _ (cal : BusinessCalendar) (b : DayBounded cal) where
  sum_days-step :
      (lower upper rounds day total : ℕ)
      → sum_days cal lower upper (suc rounds) day total
        ≡ sum_days cal lower upper rounds
            (day + 1)
            (total + overlap_total lower upper (b.hours day))
  unfolding sum_days
  sum_days-step lower upper rounds day total = rw (b.resolved day)

  sum_days-zero : (lower upper day total : ℕ) → sum_days cal lower upper 0 day total ≡ ok total
  unfolding sum_days
  sum_days-zero lower upper day total = refl

  -- What one day's loop does to the loop over the days.
  data DayStep (rounds day current remaining : ℕ) : Type 0 where
    stopped :
        (r : ℕ)
        → consume current remaining (b.hours day) ≡ reached r
        → add_days cal (suc rounds) day current remaining ≡ ok r
        → DayStep rounds day current remaining
    passed :
        (rest : ℕ)
        → consume current remaining (b.hours day) ≡ left rest
        → add_days cal (suc rounds) day current remaining
          ≡ add_days cal rounds (day + 1) (b.midnight (day + 1)) rest
        → DayStep rounds day current remaining

  day_step : (rounds day current remaining : ℕ) → DayStep rounds day current remaining
  unfolding add_days
  day_step rounds day current remaining = go (consume current remaining (b.hours day)) refl
    where
      go :
          (c : Consumed)
          → consume current remaining (b.hours day) ≡ c
          → DayStep rounds day current remaining
      go (reached r) e = stopped r e (rw (b.resolved day) (rw (e, ◌>>=◌)))
      go (left rest) e =
          passed rest e (rw (b.resolved day) (rw (e, ◌>>=◌) (rw (b.boundary (day + 1)))))

  -- The loop over the days from `day` on, seen from the start of the count.
  record Counted (start day remaining r : ℕ) : Type 0 where
    later : start < r
    follows : day ≤ local_date cal.timezone r
    past : b.midnight day ≤ r
    counted :
        (total : ℕ)
        → sum_days cal start r (local_date cal.timezone r + 1 - day) day total
          ≡ ok (total + remaining)

  sum_days-one :
      (start r rounds day total n : ℕ)
      → rounds ≡ 1
      → overlap_total start r (b.hours day) ≡ n
      → sum_days cal start r rounds day total ≡ ok (total + n)
  sum_days-one start r rounds day total n one h =
      rw one (sum_days-step start r 0 day total ∙ (sum_days-zero start r _ _ ∙ rw h))

  sum_days-two :
      (start r rounds day total n : ℕ)
      → rounds ≡ 2
      → overlap_total start r (b.hours day) ≡ n
      → overlap_total start r (b.hours (day + 1)) ≡ 0
      → sum_days cal start r rounds day total ≡ ok (total + n)
  sum_days-two start r rounds day total n two h k = rw two (
      sum_days-step start r 1 day total
      ∙ (ap (λ m. sum_days cal start r 1 (day + 1) (total + m)) h
          ∙ (sum_days-one start r 1 (day + 1) (total + n) 0 refl k ∙ ap ok (add-zero (total + n)))))

  stop_in :
      (start day current remaining r : ℕ)
      → 0 < remaining
      → start ≤ current
      → b.midnight day ≤ current
      → ((u : ℕ) → overlap_total start u (b.hours day) ≡ overlap_total current u (b.hours day))
      → consume current remaining (b.hours day) ≡ reached r
      → Counted start day remaining r
  stop_in start day current remaining r p from_start from_midnight alike e =
      let after =
        consume_low (b.midnight day) current remaining r (b.hours day) p (b.opens day) e in
      let before =
        consume_high (b.midnight (day + 1)) current remaining r (b.hours day) (b.closes day) e in
      let full : overlap_total start r (b.hours day) ≡ remaining =
        alike r ∙ consume-reached current remaining r (b.hours day) (b.separated day) p e in
      elim (dec_lt r (b.midnight (day + 1))) [
        | yes inside ↦
            let today : local_date cal.timezone r ≡ day =
              b.date_of day r (omega (arith, after)) inside in
            record {
              later = omega (arith, after);
              follows = omega (arith, today);
              past = omega (arith, after);
              counted =
                  λ total. sum_days-one start r _ day total remaining (omega (arith, today)) full;
            }
        | no outside ↦
            let tomorrow : local_date cal.timezone r ≡ day + 1 =
              b.date_of (day + 1) r (omega arith) (omega (arith, b.ascending (day + 1), before)) in
            record {
              later = omega (arith, after);
              follows = omega (arith, tomorrow);
              past = omega (arith, after);
              counted = λ total.
                  sum_days-two start r _ day total remaining (omega (arith, tomorrow)) full (
                    overlap_total-OpenAfter start r (b.hours (day + 1)) (
                      OpenAfter-weaken r (b.midnight (day + 1)) (b.hours (day + 1)) before
                        (b.opens (day + 1))));
            }
      ]

  go_on :
      (start day current remaining rest r : ℕ)
      → 0 < remaining
      → ((u : ℕ) → overlap_total start u (b.hours day) ≡ overlap_total current u (b.hours day))
      → consume current remaining (b.hours day) ≡ left rest
      → Counted start (day + 1) rest r
      → Counted start day remaining r
  go_on start day current remaining rest r p alike e c =
      let through =
        CloseBefore-weaken (b.midnight (day + 1)) r (b.hours day) c.past (b.closes day) in
      let used = consume-left current remaining rest r (b.hours day) through p e in
      record {
        later = c.later;
        follows = omega (arith, c.follows);
        past = omega (arith, c.past, b.ascending day);
        counted = λ total.
            let rounds : local_date cal.timezone r + 1 - day
                ≡ suc (local_date cal.timezone r + 1 - (day + 1)) =
              omega (arith, c.follows) in
            rw rounds (
              sum_days-step start r _ day total
              ∙ (c.counted (total + overlap_total start r (b.hours day))
                  ∙ ap ok (omega (arith, used, alike r))));
      }

  days-Counted :
      (start rounds day current remaining r : ℕ)
      → 0 < remaining
      → start ≤ current
      → b.midnight day ≤ current
      → start ≤ b.midnight (day + 1)
      → ((u : ℕ) → overlap_total start u (b.hours day) ≡ overlap_total current u (b.hours day))
      → add_days cal rounds day current remaining ≡ ok r
      → Counted start day remaining r
  days-Counted start zero day current remaining r p f m n alike h = unfold add_days in absurd (cc)
  days-Counted start (suc rounds) day current remaining r p f m n alike h =
      elim (day_step rounds day current remaining) [
        | stopped r' e step ↦
            let same : r' ≡ r = ok_inj (sym step ∙ h) in
            stop_in start day current remaining r p f m alike (e ∙ ap reached same)
        | passed rest e step ↦
            let used =
              consume-left current remaining rest (b.midnight (day + 1)) (b.hours day)
                (b.closes day) p e in
            go_on start day current remaining rest r p alike e (
              days-Counted start rounds (day + 1) (b.midnight (day + 1)) rest r used.0 n
                (omega arith) (omega (arith, b.ascending (day + 1)))
                (λ u.
                  overlap_total-low start (b.midnight (day + 1)) u (b.hours (day + 1))
                    (OpenAfter-weaken start (b.midnight (day + 1)) (b.hours (day + 1)) n
                      (b.opens (day + 1)))
                    (b.opens (day + 1)))
                (sym step ∙ h))
      ]

  -- On a calendar whose days are bounded by their midnights: if adding a number of business seconds
  -- to an instant returns an instant, then the business seconds between the two are that number.
  pub between-add_business_seconds :
      (start seconds r : ℕ)
      → add_business_seconds cal start (pos seconds) ≡ ok r
      → business_seconds_between cal start r ≡ ok seconds
  unfolding add_business_seconds business_seconds_between
  between-add_business_seconds start zero r h = rw (eq→leb r start (ok_inj h))
  between-add_business_seconds start (suc n) r h =
      let day : ℕ = local_date cal.timezone start in
      let c =
        days-Counted start max_search_days day start (suc n) r (omega arith) (omega arith)
          (b.dated start).0 (omega (arith, b.dated start)) (λ u. refl) h in
      rw (lt→leb_false start r c.later) (c.counted 0 ∙ ap ok (omega arith))
