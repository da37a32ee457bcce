-- ===== src/Sla/Calendar/Regular.antt =====
-- What is documented of `zoneinfo` for a zone whose transitions leave midnights alone, and that
-- `_local_boundary` then finds every boundary of a day between the day's midnights.
use helpdesk_agent.Prelude.{
  ℕ, zero, suc, ◌+◌, ◌-◌, ◌*◌, ◌%◌, ◌≤◌, ◌<◌, ◌≡◌, Bool, true, false, [], ◌∷◌, ◌==◌, arith,
  Bool-cases, inl, inr, ok, ◌⊎◌, ap, dec_lt, ==_iff,
}
use helpdesk_agent.Sla.Calendar.Zones.{
  Zone, minute, local_date, combine, candidate, probe_loop, local_boundary, choose,
}

-- The wall-clock time names an instant.
abbrev pub Names : Zone → ℕ → Bool → Type 0
Names z naive fold = z.to_local (z.to_utc naive fold) ≡ naive

pub record IsRegular (z : Zone) : Type 0 where
  -- midnight exists, and once
  pub midnight_exists : (day : ℕ) → Names z (combine day 0) false
  pub midnight_once : (day : ℕ) → z.to_utc (combine day 0) true ≡ z.to_utc (combine day 0) false
  -- the local date of an instant is that of the midnights around it
  pub dated :
      (t : ℕ)
      → (z.to_utc (combine (local_date z t) 0) false ≤ t)
        × (t < z.to_utc (combine (local_date z t + 1) 0) false)
  -- a wall-clock time that does not exist lies in a gap of at most three hours
  pub gap_short : (naive : ℕ) → (k : ℕ) × (k < 180) × Names z (naive + suc k * minute) false

-- A wall-clock time of a day, in whole minutes.
abbrev pub InDay : ℕ → ℕ → Type 0
InDay day naive = (combine day 0 ≤ naive) × (naive < combine (day + 1) 0) × (naive % minute ≡ 0)

module _ (z : Zone) (reg : IsRegular z) where
  abbrev pub midnight : ℕ → ℕ
  midnight day = z.to_utc (combine day 0) false

  pub midnight_date : (day : ℕ) → local_date z (midnight day) ≡ day
  midnight_date day = rw (reg.midnight_exists day) (omega arith)

  pub ascending : (day : ℕ) → midnight day < midnight (day + 1)
  ascending day = rw (midnight_date day) at ((reg.dated (midnight day)).1)

  pub midnight_mono : (day k : ℕ) → midnight day ≤ midnight (k + day)
  midnight_mono day zero = let e : 0 + day ≡ day = omega arith in rw e (omega arith)
  midnight_mono day (suc k) =
      let e : suc k + day ≡ k + day + 1 = omega arith in
      rw e (omega (arith, midnight_mono day k, ascending (k + day)))

  pub midnight_le : (day day' : ℕ) → day ≤ day' → midnight day ≤ midnight day'
  midnight_le day day' h =
      let e : day' ≡ (day' - day) + day = omega arith in rw e (midnight_mono day (day' - day))

  pub date_of : (day t : ℕ) → midnight day ≤ t → t < midnight (day + 1) → local_date z t ≡ day
  date_of day t h k = elim (dec_lt (local_date z t) day) [
    | yes early ↦
        absurd (omega (arith, reg.dated t, midnight_le (local_date z t + 1) day (omega arith)))
    | no on ↦ elim (dec_lt day (local_date z t)) [
      | yes late ↦
          absurd (omega (arith, reg.dated t, midnight_le (day + 1) (local_date z t) (omega arith)))
      | no in_time ↦ omega arith
    ]
  ]

  -- Between the midnights of a day.
  abbrev pub Within : ℕ → ℕ → Type 0
  Within day t = (midnight day ≤ t) × (t ≤ midnight (day + 1))

  named-Within :
      (day naive : ℕ) (fold : Bool)
      → InDay day naive
      → Names z naive fold
      → Within day (z.to_utc naive fold)
  named-Within day naive fold i n =
      let e : local_date z (z.to_utc naive fold) ≡ day = rw n (omega arith) in
      let d = reg.dated (z.to_utc naive fold) in let d' = rw e at d in (d'.0, omega (arith, d'.1))

  -- The next minute of a day is in the day, or is the midnight after it.
  next_minute :
      (day naive : ℕ)
      → InDay day naive
      → InDay day (naive + minute) ⊎ (naive + minute ≡ combine (day + 1) 0)
  next_minute day naive i = elim (dec_lt (naive + minute) (combine (day + 1) 0)) [
    | yes h ↦ inl (omega (arith, i), h, omega (arith, i))
    | no h ↦ inr (omega (arith, i))
  ]

  next-Within :
      (day naive : ℕ)
      → InDay day naive
      → Names z (naive + minute) false
      → Within day (z.to_utc (naive + minute) false)
  next-Within day naive i n = elim (next_minute day naive i) [
    | inl inside ↦ named-Within day (naive + minute) false inside n
    | inr over ↦ rw over (omega (arith, ascending day), omega arith)
  ]

  missing_next :
      (naive : ℕ) → Names z naive false → (z.to_local (z.to_utc naive false) == naive) ≡ false → ⊥
  missing_next naive n m = cc ((==_iff (z.to_local (z.to_utc naive false)) naive).1 n)

  -- The search after a gap ends by the midnight after it.
  probe-Within :
      (rounds k day naive : ℕ)
      → InDay day naive
      → k < rounds
      → Names z (naive + suc k * minute) false
      → (x : ℕ) × (probe_loop z rounds naive ≡ ok x) × Within day x
  unfolding probe_loop
  probe-Within zero k day naive i h n = absurd (omega arith)
  probe-Within (suc rounds) k day naive i h n =
      elim (Bool-cases (z.to_local (z.to_utc (naive + minute) false) == naive + minute)) [
        | inl found ↦ (
          z.to_utc (naive + minute) false,
          rw found,
          next-Within day naive i ((==_iff _ _).0 found),
        )
        | inr missing ↦ rw missing (
            later (λ k'. probe-Within rounds k' day (naive + minute)) k h n
              (next_minute day naive i) missing)
      ]
    where
      later :
          ((k : ℕ)
            → InDay day (naive + minute)
            → k < rounds
            → Names z (naive + minute + suc k * minute) false
            → (x : ℕ) × (probe_loop z rounds (naive + minute) ≡ ok x) × Within day x)
          → (k : ℕ) → k < suc rounds
          → Names z (naive + suc k * minute) false
          → InDay day (naive + minute) ⊎ (naive + minute ≡ combine (day + 1) 0)
          → (z.to_local (z.to_utc (naive + minute) false) == naive + minute) ≡ false
          → (x : ℕ) × (probe_loop z rounds (naive + minute) ≡ ok x) × Within day x
      later ih zero h n s m =
          let e : naive + 1 * minute ≡ naive + minute = omega arith in
          absurd (missing_next (naive + minute) (rw e at n) m)
      later ih (suc k) h n (inr over) m =
          absurd (missing_next (naive + minute) (rw over (reg.midnight_exists (day + 1))) m)
      later ih (suc k) h n (inl inside) m =
          let e : naive + suc (suc k) * minute ≡ naive + minute + suc k * minute = omega arith in
          ih k inside (omega arith) (rw e at n)

  candidate_cases :
      (naive : ℕ) (fold : Bool)
      → ((candidate z naive fold ≡ z.to_utc naive fold ∷ []) × Names z naive fold)
        ⊎ (candidate z naive fold ≡ [])
  unfolding candidate
  candidate_cases naive fold = elim (Bool-cases (z.to_local (z.to_utc naive fold) == naive)) [
    | inl h ↦ inl (rw h, (==_iff _ _).0 h)
    | inr h ↦ inr (rw h)
  ]

  not_missing : (naive : ℕ) (fold : Bool) → Names z naive fold → candidate z naive fold ≡ [] → ⊥
  unfolding candidate
  not_missing naive fold n e = cc (rw ((==_iff (z.to_local (z.to_utc naive fold)) naive).1 n) at e)

  choose-Within :
      (day a b : ℕ) (last : Bool) → Within day a → Within day b → Within day (choose last a b)
  choose-Within day a b true h k = omega arith
  choose-Within day a b false h k = omega arith

  -- Every whole minute of a day has a boundary, and it lies between the day's midnights.
  pub local_boundary-Within :
      (day naive : ℕ) (last : Bool)
      → InDay day naive
      → (x : ℕ) × (local_boundary z naive last ≡ ok x) × Within day x
  unfolding local_boundary
  local_boundary-Within day naive last i = elim (candidate_cases naive false) [
    | inl (a, n) ↦ elim (candidate_cases naive true) [
      | inl (b, m) ↦ (
        choose last (z.to_utc naive false) (z.to_utc naive true),
        rw (a, b),
        choose-Within day (z.to_utc naive false) (z.to_utc naive true) last
            (named-Within day naive false i n) (named-Within day naive true i m),
      )
      | inr b ↦ (z.to_utc naive false, rw (a, b), named-Within day naive false i n)
    ]
    | inr a ↦ elim (candidate_cases naive true) [
      | inl (b, m) ↦ (z.to_utc naive true, rw (a, b), named-Within day naive true i m)
      | inr b ↦
          rw (a, b)
            (probe-Within 180 (reg.gap_short naive).0 day naive i (reg.gap_short naive).1
              (reg.gap_short naive).2)
    ]
  ]

  -- The boundary at midnight is the midnight, whichever end it is.
  pub local_boundary-midnight :
      (day : ℕ) (last : Bool) → local_boundary z (combine day 0) last ≡ ok (midnight day)
  unfolding local_boundary
  local_boundary-midnight day last = elim (candidate_cases (combine day 0) false) [
    | inl (a, n) ↦ elim (candidate_cases (combine day 0) true) [
      | inl (b, m) ↦ rw (a, b) (ap ok (choose_same day last))
      | inr b ↦ rw (a, b)
    ]
    | inr a ↦ absurd (not_missing (combine day 0) false (reg.midnight_exists day) a)
  ]
    where
      choose_same :
          (day : ℕ) (last : Bool)
          → choose last (midnight day) (z.to_utc (combine day 0) true) ≡ midnight day
      choose_same day true = omega (arith, reg.midnight_once day)
      choose_same day false = omega (arith, reg.midnight_once day)
