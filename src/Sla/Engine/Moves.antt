-- ===== src/Sla/Engine/Moves.antt =====
-- `_resume`, `_complete`, `_reopen` and one round of `evaluate_due` keep the invariant of the rows.
use helpdesk_agent.Prelude.{
  ℕ, ◌-◌, true, false, not, ◌&&◌, ◌||◌, ◌≡◌, refl, Option, none, some, arith, if◌then◌else◌,
  Bool-cases, inl, inr, ◌==◌, leb, sym, ◌∙◌,
}
use helpdesk_agent.Sla.Models.{SlaState, running, breached, SlaGoalVersion, TicketSla}
use helpdesk_agent.Sla.Calendar.Build.{BusinessCalendar}
use helpdesk_agent.Sla.Store.{pure}
use helpdesk_agent.Sla.Engine.{
  Config, add_seconds, warning_time, remaining_warning_time, remaining_add, optional_add,
  is_running, is_paused, is_breached, is_completed, is_some, breach, warn, resume, resume_from,
  resume_if, complete, stopped_row, note_met, reopen, reopen_with, advance, evaluate_one,
  needs_warning, is_overdue, closed_to_completion,
}
use helpdesk_agent.Sla.Engine.Safe.{
  IsSound, Safe, Any, Safe-pure, Safe-if, Safe-map, Safe-lift, Safe-bind, Safe-count,
  Safe-record_event, Safe-save,
}
use helpdesk_agent.Sla.Engine.Sound.{
  recorded-Safe, resumed-IsSound, calculated-Ticked, warn-Safe, breach-Safe, breach_running-Safe,
  completed-not_paused,
}

pub add_seconds-Safe : (cal : BusinessCalendar) (start n : ℕ) → Safe Any (add_seconds cal start n)
unfolding add_seconds
add_seconds-Safe cal start n = Safe-lift _

pub remaining_warning_time-Safe :
    (cal : BusinessCalendar) (at : ℕ) (sla : TicketSla)
    → Safe Any (remaining_warning_time cal at sla)
unfolding remaining_warning_time
remaining_warning_time-Safe cal at sla = go sla.warning_emitted_at sla.goal.warning_seconds
  where
    go :
        (emitted warning : Option ℕ)
        → Safe Any
            (remaining_add cal at sla.remaining_working_seconds emitted warning sla.warning_at)
    go (some e) w = Safe-pure sla.warning_at tt
    go none none = Safe-pure sla.warning_at tt
    go none (some w) = Safe-bind _ _ (add_seconds-Safe cal at _) λ t _. Safe-pure (some t) tt

pub warning_time-Safe :
    (cal : BusinessCalendar) (at : ℕ) (goal : SlaGoalVersion) → Safe Any (warning_time cal at goal)
unfolding warning_time
warning_time-Safe cal at goal = go goal.warning_seconds
  where
    go : (warning : Option ℕ) → Safe Any (optional_add cal at goal.target_seconds warning)
    go none = Safe-pure none tt
    go (some w) = Safe-bind _ _ (add_seconds-Safe cal at _) λ t _. Safe-pure (some t) tt

completed-not_breached : (s : SlaState) → is_completed s ≡ true → is_breached s ≡ false
completed-not_breached breached r = sym r
completed-not_breached _ r = ground arith

-- What `_complete` writes is sound, whatever the state before.
stopped-IsSound : (r : TicketSla) (at : ℕ) → IsSound r → IsSound (stopped_row r at)
stopped-IsSound r at h = elim (Bool-cases (is_breached r.state)) [
  | inl b ↦ record {
    pause_dated = rw b refl;
    breach_dated = rw b (h.breach_dated ∙ b);
    open_ended = rw b (λ e. cc);
    completion_dated = λ _. refl;
    balance = rw b (λ e. cc);
    spent = λ _. h.spent b;
  }
  | inr b ↦ record {
    pause_dated = rw b refl;
    breach_dated = rw b (h.breach_dated ∙ b);
    open_ended = rw b (λ e. cc);
    completion_dated = λ _. refl;
    balance = λ _. h.balance b;
    spent = rw b (λ e. cc);
  }
]

module _ (cfg : Config) (sla : TicketSla) (at : ℕ) (h : IsSound sla) (input : ℕ) where
  resume_from-Safe :
      (paused_at : ℕ)
      → is_paused sla.state ≡ true
      → Safe IsSound (resume_from cfg sla paused_at at input)
  unfolding resume_from
  resume_from-Safe paused_at p = Safe-bind _ _ (Safe-lift _) λ cal _.
      Safe-bind _ _ (add_seconds-Safe cal at _) λ target _.
        Safe-bind _ _ (remaining_warning_time-Safe cal at sla) λ warning _.
          recorded-Safe sla _ _ _ _ _ h (resumed-IsSound cfg sla at h target warning _ p)

  pub resume-Safe : Safe IsSound (resume cfg sla at input)
  unfolding resume
  resume-Safe =
      Safe-if (not (is_paused sla.state)) _ _ (λ _. Safe-pure sla h)
        (λ e. go sla.paused_at (ground arith))
    where
      go :
          (since : Option ℕ)
          → is_paused sla.state ≡ true
          → Safe IsSound (resume_if cfg sla at input since)
      go none p = Safe-pure sla h
      go (some since) p = resume_from-Safe since p

  note_met-Safe : (saved : TicketSla) → IsSound saved → Safe IsSound (note_met saved at input)
  unfolding note_met
  note_met-Safe saved s =
      Safe-if (is_completed saved.state) _ _
        (λ _.
          Safe-bind _ _ (Safe-record_event saved _ at _)
            λ _ _. Safe-bind _ _ (Safe-count _) λ _ _. Safe-pure saved s)
        (λ _. Safe-pure saved s)

  breach_spent-Safe :
      (computed : TicketSla)
      → IsSound computed
      → Safe IsSound (
          if is_running computed.state && computed.remaining_working_seconds == 0
          then breach computed at
          else pure computed)
  breach_spent-Safe computed k =
      Safe-if (is_running computed.state && computed.remaining_working_seconds == 0) _ _
        (λ e. breach_running-Safe computed at k (ground arith)) (λ _. Safe-pure computed k)

  pub complete-Safe : Safe IsSound (complete cfg sla at input)
  unfolding complete
  complete-Safe =
      Safe-if (is_some sla.completed_at || closed_to_completion sla.state) _ _
        (λ _. Safe-pure sla h)
        (λ _. Safe-bind _ _ (calculated-Ticked cfg sla at h) λ computed t.
          Safe-bind _ _ (breach_spent-Safe computed t.0) λ current c.
            Safe-bind _ _ (Safe-record_event (stopped_row current at) _ at _) λ recorded _.
              Safe-if (not recorded) _ _ (λ _. Safe-pure sla h)
                (λ _.
                  Safe-bind _ _
                    (Safe-save (stopped_row current at) _ (stopped-IsSound current at c))
                    λ saved s. note_met-Safe saved s))

  reopened-IsSound :
      (target : ℕ) (warning : Option ℕ) (remaining : ℕ)
      → is_completed sla.state ≡ true
      → remaining ≡ sla.goal.target_seconds - sla.elapsed_working_seconds
      → IsSound (record sla {
        state = running;
        completed_at = none;
        remaining_working_seconds = remaining;
        target_at = target;
        warning_at = warning;
        last_calculated_at = at;
      })
  reopened-IsSound target warning remaining c e = record {
    pause_dated = h.pause_dated ∙ completed-not_paused sla.state c;
    breach_dated = h.breach_dated ∙ completed-not_breached sla.state c;
    open_ended = λ _. refl;
    completion_dated = λ e. cc;
    balance = λ _. e;
    spent = λ e. cc;
  }

  reopen_with-Safe :
      (remaining : ℕ)
      → is_completed sla.state ≡ true
      → remaining ≡ sla.goal.target_seconds - sla.elapsed_working_seconds
      → Safe IsSound (reopen_with cfg sla remaining at input)
  unfolding reopen_with
  reopen_with-Safe remaining c e = Safe-bind _ _ (Safe-lift _) λ cal _.
      Safe-bind _ _ (add_seconds-Safe cal at _) λ target _.
        Safe-bind _ _ (remaining_warning_time-Safe cal at _)
          λ warning _. recorded-Safe sla _ _ _ _ _ h (reopened-IsSound target warning remaining c e)

  -- A breach that was recorded before hands the row on as it was given, which is not sound here.
  pub reopen-Safe : Safe Any (reopen cfg sla at input)
  unfolding reopen
  reopen-Safe =
      Safe-if (not (is_completed sla.state)) _ _ (λ _. Safe-pure sla tt)
        (λ c. Safe-bind _ _ (Safe-lift _) λ _ _.
          Safe-if (sla.goal.target_seconds - sla.elapsed_working_seconds == 0) _ _
            (λ _.
              Safe-map _ (λ _ _. tt)
                (breach-Safe (record sla { completed_at = none }) at
                  (h.pause_dated ∙ completed-not_paused sla.state (ground arith))))
            (λ _. Safe-map _ (λ _ _. tt) (reopen_with-Safe _ (ground arith) refl)))

module _ (cfg : Config) (sla : TicketSla) (at : ℕ) (h : IsSound sla) where
  advance-Safe : Safe IsSound (advance cfg sla at)
  unfolding advance
  advance-Safe =
      Safe-if (not (is_running sla.state)) _ _ (λ _. Safe-pure sla h)
        (λ _. Safe-bind _ _ (calculated-Ticked cfg sla at h) λ advanced t.
          Safe-if (leb at sla.last_calculated_at) _ _ (λ _. Safe-pure sla h)
            (λ _. Safe-save advanced _ t.0))

  pub evaluate_one-Safe : Safe Any (evaluate_one cfg sla at)
  unfolding evaluate_one
  evaluate_one-Safe = Safe-bind _ _ advance-Safe λ advanced a.
      Safe-bind _ _ (warned advanced a) λ current c.
        Safe-if (is_overdue current) _ _
          (λ e.
            Safe-bind _ _ (breach_running-Safe current at c (ground arith)) λ _ _. Safe-pure tt tt)
          (λ _. Safe-pure tt tt)
    where
      warned :
          (advanced : TicketSla)
          → IsSound advanced
          → Safe IsSound (if needs_warning advanced then warn advanced at else pure advanced)
      warned advanced a =
          Safe-if (needs_warning advanced) _ _ (λ _. warn-Safe cfg advanced at a)
            (λ _. Safe-pure advanced a)
