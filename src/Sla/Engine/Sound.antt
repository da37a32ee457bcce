-- ===== src/Sla/Engine/Sound.antt =====
-- Every method of the engine keeps the invariant of the rows.
use helpdesk_agent.Prelude.{
  ℕ, true, false, not, ◌||◌, ◌≡◌, refl, Option, none, some, arith, if◌then◌else◌, leb, sym, ◌∙◌,
}
use helpdesk_agent.Sla.Models.{
  SlaState, pending, running, paused, completed, breached, cancelled, TicketSla,
}
use helpdesk_agent.Sla.Calendar.Build.{BusinessCalendar}
use helpdesk_agent.Sla.Store.{
  EventType, EventKey, SlaMetrics, ◌>>=◌, pure, count, record_event, save,
}
use helpdesk_agent.Sla.Engine.{
  Config, add_seconds, seconds_between, is_running, is_paused, is_breached, is_completed, is_some,
  calculated, clocked, breach, warn, pause,
}
use helpdesk_agent.Sla.Engine.Safe.{
  IsSound, Safe, Any, Safe-pure, Safe-if, Safe-map, Safe-lift, Safe-bind, Safe-count,
  Safe-record_event, Safe-save, Safe-emit_outbox,
}

module _ (cfg : Config) (sla : TicketSla) (at : ℕ) (h : IsSound sla) where
  clocked-IsSound : (used : ℕ) → is_running sla.state ≡ true → IsSound (clocked sla at used)
  clocked-IsSound used r = ground (arith, h)

  warned-IsSound : IsSound (record sla { warning_emitted_at = some at })
  warned-IsSound = ground (arith, h)

  pub warn-Safe : Safe IsSound (warn sla at)
  unfolding warn
  warn-Safe = Safe-bind _ _ (Safe-record_event _ _ _ _) λ recorded _.
      Safe-if (not recorded) _ _ (λ _. Safe-pure sla h)
        (λ _. Safe-bind _ _ (Safe-save _ _ warned-IsSound) λ warned s.
          Safe-bind _ _ (Safe-emit_outbox _)
            λ _ _. Safe-bind _ _ (Safe-count _) λ _ _. Safe-pure warned s)

module _ (sla : TicketSla) (at : ℕ) (unpaused : is_some sla.paused_at ≡ false) where
  pub breached-IsSound : IsSound (record sla {
    state = breached;
    breached_at = some at;
    remaining_working_seconds = 0;
    last_calculated_at = at;
  })
  breached-IsSound = record {
    pause_dated = unpaused;
    breach_dated = refl;
    open_ended = λ e. cc;
    completion_dated = λ e. cc;
    balance = λ e. cc;
    spent = λ _. refl;
  }

  -- The row that is handed on may be the argument, which need not be sound.
  pub breach-Safe : Safe (λ r. IsSound sla → IsSound r) (breach sla at)
  unfolding breach
  breach-Safe =
      Safe-if (is_breached sla.state) _ _ (λ _. Safe-pure sla λ h. h)
        (λ _. Safe-bind _ _ (Safe-record_event _ _ _ _) λ recorded _.
          Safe-if (not recorded) _ _ (λ _. Safe-pure sla λ h. h)
            (λ _. Safe-bind _ _ (Safe-save _ _ breached-IsSound) λ saved s.
              Safe-bind _ _ (Safe-emit_outbox _)
                λ _ _. Safe-bind _ _ (Safe-count _) λ _ _. Safe-pure saved λ _. s))

running-not_paused : (s : SlaState) → is_running s ≡ true → is_paused s ≡ false
running-not_paused paused r = sym r
running-not_paused running r = refl
running-not_paused pending r = refl
running-not_paused completed r = refl
running-not_paused breached r = refl
running-not_paused cancelled r = refl

pub completed-not_paused : (s : SlaState) → is_completed s ≡ true → is_paused s ≡ false
completed-not_paused paused r = sym r
completed-not_paused running r = refl
completed-not_paused pending r = refl
completed-not_paused completed r = refl
completed-not_paused breached r = refl
completed-not_paused cancelled r = refl

running-not_breached : (s : SlaState) → is_running s ≡ true → is_breached s ≡ false
running-not_breached breached r = sym r
running-not_breached running r = refl
running-not_breached pending r = refl
running-not_breached completed r = refl
running-not_breached paused r = refl
running-not_breached cancelled r = refl

paused-not_breached : (s : SlaState) → is_paused s ≡ true → is_breached s ≡ false
paused-not_breached breached r = sym r
paused-not_breached running r = refl
paused-not_breached pending r = refl
paused-not_breached completed r = refl
paused-not_breached paused r = refl
paused-not_breached cancelled r = refl

pub breach_running-Safe :
    (sla : TicketSla) (at : ℕ)
    → IsSound sla
    → is_running sla.state ≡ true
    → Safe IsSound (breach sla at)
breach_running-Safe sla at h r =
    Safe-map _ (λ _ q. q h) (breach-Safe sla at (h.pause_dated ∙ running-not_paused sla.state r))

-- A sound row that is moved on to running with a deadline.
module _ (cfg : Config) (sla : TicketSla) (at : ℕ) (h : IsSound sla) where
  paused-IsSound :
      is_running sla.state ≡ true → IsSound (record sla { state = paused; paused_at = some at })
  paused-IsSound r =
      let calm = running-not_breached sla.state r in
      record {
        pause_dated = refl;
        breach_dated = h.breach_dated ∙ calm;
        open_ended = λ _. h.open_ended (rw r refl);
        completion_dated = λ e. cc;
        balance = λ _. h.balance calm;
        spent = λ e. cc;
      }

  pub resumed-IsSound :
      (target : ℕ) (warning : Option ℕ) (total : ℕ)
      → is_paused sla.state ≡ true
      → IsSound (record sla {
        state = running;
        target_at = target;
        warning_at = warning;
        paused_at = none;
        accumulated_pause_seconds = total;
        last_calculated_at = at;
      })
  resumed-IsSound target warning total p =
      let calm = paused-not_breached sla.state p in
      record {
        pause_dated = refl;
        breach_dated = h.breach_dated ∙ calm;
        open_ended = λ _. h.open_ended (ground arith);
        completion_dated = λ e. cc;
        balance = λ _. h.balance calm;
        spent = λ e. cc;
      }

-- What `_calculated` hands on: a sound row in the state of the first.
abbrev pub Ticked : TicketSla → TicketSla → Type 0
Ticked sla r = IsSound r × (r.state ≡ sla.state)

-- Write the event, and if it is new the row: the end of `_pause`, `_resume` and `_reopen`.
pub recorded-Safe :
    (sla row : TicketSla) (type : EventType) (at : ℕ) (key : EventKey) (f : SlaMetrics → SlaMetrics)
    → IsSound sla
    → IsSound row
    → Safe IsSound (
        record_event row type at key >>= λ recorded.
        if not recorded
        then pure sla
        else save row sla.row_version >>= λ saved. count f >>= λ _. pure saved)
recorded-Safe sla row type at key f h k =
    Safe-bind _ _ (Safe-record_event row type at key) λ recorded _.
      Safe-if (not recorded) _ _ (λ _. Safe-pure sla h)
        (λ _.
          Safe-bind _ _ (Safe-save row sla.row_version k)
            λ saved s. Safe-bind _ _ (Safe-count f) λ _ _. Safe-pure saved s)

module _ (cfg : Config) (sla : TicketSla) (at : ℕ) (h : IsSound sla) where
  pub calculated-Ticked : Safe (Ticked sla) (calculated cfg sla at)
  unfolding calculated seconds_between
  calculated-Ticked =
      Safe-if (not (is_running sla.state) || leb at sla.last_calculated_at) _ _
        (λ _. Safe-pure sla (h, refl))
        (λ e. Safe-bind _ _ (Safe-lift _) λ cal _. Safe-bind _ _ (Safe-lift _) λ used _.
          Safe-pure (clocked sla at used) (clocked-IsSound cfg sla at h used (ground arith), refl))

  pub pause-Safe : (input : ℕ) → Safe IsSound (pause cfg sla at input)
  unfolding pause
  pause-Safe input =
      Safe-if (not (is_running sla.state)) _ _ (λ _. Safe-pure sla h)
        (λ e. Safe-bind _ _ calculated-Ticked λ current t.
          recorded-Safe sla _ _ _ _ _ h (paused-IsSound cfg current at t.0 (rw t.1 (ground arith))))

  add_seconds-Safe : (cal : BusinessCalendar) (start n : ℕ) → Safe Any (add_seconds cal start n)
  unfolding add_seconds
  add_seconds-Safe cal start n = Safe-lift _
