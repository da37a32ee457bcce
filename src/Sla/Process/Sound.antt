-- ===== src/Sla/Process/Sound.antt =====
-- Every input event and every scan keeps the invariant of the rows.
use package.text.Mathlib.Text.{◌==◌ as text_eq}
use helpdesk_agent.Prelude.{
  ℕ, ◌-◌, String, true, false, not, ◌&&◌, List, [], ◌∷◌, ◌≡◌, refl, Option, none, some, All, arith,
  ◌==◌, ◌∙◌, ap, length,
}
use helpdesk_agent.Sla.Models.{
  SlaMetric, first_response, resolution, SlaState, SlaDefinitionVersion, SlaGoalVersion,
  TicketFacts, TicketSla, SlaEventType, start_sla, agent_public_response_added,
  customer_comment_added, ticket_workflow_transitioned, ticket_priority_changed, unsupported,
  SlaInputEvent,
}
use helpdesk_agent.Sla.Store.{Engine}
use helpdesk_agent.Sla.Engine.{Config, is_running, is_paused, is_breached}
use helpdesk_agent.Sla.Engine.Safe.{
  IsSound, Safe, Any, SoundIfSome, Safe-pure, Safe-raise, Safe-if, Safe-map, Safe-lift, Safe-bind,
  Safe-count, Safe-record_event, Safe-save, Safe-mark_first_response, Safe-ticket_slas,
  Safe-due_slas, Safe-create_sla,
}
use helpdesk_agent.Sla.Engine.Sound.{calculated-Ticked, breach_running-Safe, pause-Safe}
use helpdesk_agent.Sla.Engine.Moves.{
  add_seconds-Safe, remaining_warning_time-Safe, warning_time-Safe, resume-Safe, complete-Safe,
  reopen-Safe, evaluate_one-Safe,
}
use helpdesk_agent.Sla.Process.{
  is_some, for_each, is_metric, contains_text, discard, after_start, on_created, start_one,
  start_each, has_duplicate, start, is_open, move_resolution, move_one, transition, complete_metric,
  is_closed, recalculate_one, priority_changed, dispatch, is_supported, on_ticket, process,
  evaluate_due,
}

pub for_each-Safe :
    (body : TicketSla → Engine (Unit {0})) (rows : List TicketSla)
    → ((sla : TicketSla) → IsSound sla → Safe Any (body sla))
    → All IsSound rows
    → Safe Any (for_each body rows)
unfolding for_each
for_each-Safe body [] k h = Safe-pure tt tt
for_each-Safe body (sla ∷ rows) k h = Safe-bind _ _ (k sla h.0) λ _ _. for_each-Safe body rows k h.1

discard-Safe : (m : Engine TicketSla) → Safe Any m → Safe Any (discard m)
discard-Safe m p = Safe-bind m _ p λ _ _. Safe-pure tt tt

forget : (m : Engine TicketSla) → Safe IsSound m → Safe Any (discard m)
forget m p = discard-Safe m (Safe-map m (λ _ _. tt) p)

on_created-Safe :
    (body : TicketSla → Engine (Unit {0})) (created : Option TicketSla)
    → ((sla : TicketSla) → IsSound sla → Safe Any (body sla))
    → SoundIfSome created
    → Safe Any (on_created body created)
on_created-Safe body none k s = Safe-pure tt tt
on_created-Safe body (some sla) k s = k sla s

-- A row in a state that `_priority_changed` does not leave aside stays sound under a new goal.
retargeted-IsSound :
    (r : TicketSla) (goal : SlaGoalVersion) (target : ℕ) (warning : Option ℕ) (at : ℕ)
    → IsSound r
    → is_closed r.state ≡ false
    → IsSound (record r {
      goal = goal;
      remaining_working_seconds = goal.target_seconds - r.elapsed_working_seconds;
      target_at = target;
      warning_at = warning;
      last_calculated_at = at;
    })
retargeted-IsSound r goal target warning at h c = record {
  pause_dated = h.pause_dated;
  breach_dated = h.breach_dated;
  open_ended = h.open_ended;
  completion_dated = h.completion_dated;
  balance = λ _. refl;
  spent = λ b. absurd (breached-closed r.state b c);
}
  where
    breached-closed : (s : SlaState) → is_breached s ≡ true → is_closed s ≡ false → ⊥
    breached-closed s b c = ground arith

module _ (cfg : Config) (ticket : TicketFacts) (event : SlaInputEvent) where
  after_start-Safe :
      (definition : SlaDefinitionVersion) (sla : TicketSla)
      → IsSound sla
      → Safe Any (after_start cfg ticket definition event sla)
  unfolding after_start
  after_start-Safe definition sla h =
      Safe-if (is_metric definition.metric first_response && is_some ticket.first_response_at) _ _
        (λ _. forget _ (complete-Safe cfg sla _ h event.outbox_event_id))
        (λ _.
          Safe-if (is_metric definition.metric resolution && is_some ticket.resolved_at) _ _
            (λ _. forget _ (complete-Safe cfg sla _ h event.outbox_event_id))
            (λ _. Safe-bind _ _ (Safe-lift _) λ statuses _.
              Safe-if (contains_text ticket.status_code statuses) _ _
                (λ _. forget _ (pause-Safe cfg sla _ h event.outbox_event_id))
                (λ _. Safe-pure tt tt)))

  start_one-Safe :
      (definition : SlaDefinitionVersion) → Safe Any (start_one cfg ticket event definition)
  unfolding start_one
  start_one-Safe definition = Safe-bind _ _ (Safe-lift _) λ goal _.
      Safe-bind _ _ (Safe-lift _) λ cal _. Safe-bind _ _ (add_seconds-Safe cal _ _) λ target _.
        Safe-bind _ _ (warning_time-Safe cal _ goal) λ warning _.
          Safe-bind _ _ (Safe-create_sla ticket definition goal _ target warning) λ created s.
            on_created-Safe _ created
              (λ sla h.
                Safe-bind _ _ (Safe-record_event sla _ _ _)
                  λ _ _. Safe-bind _ _ (Safe-count _) λ _ _. after_start-Safe definition sla h)
              s

  start_each-Safe :
      (definitions : List SlaDefinitionVersion) → Safe Any (start_each cfg ticket event definitions)
  unfolding start_each
  start_each-Safe [] = Safe-pure tt tt
  start_each-Safe (d ∷ rest) = Safe-bind _ _ (start_one-Safe d) λ _ _. start_each-Safe rest

  start-Safe : Safe Any (start cfg ticket event)
  unfolding start
  start-Safe =
      Safe-if (has_duplicate (cfg.definitions ticket.tenant_id ticket.project_id ticket.created_at))
        _ _ (λ _. Safe-raise _) (λ _. start_each-Safe _)

  move_resolution-Safe :
      (to_status from_category to_category : String) (sla : TicketSla)
      → IsSound sla
      → Safe Any (move_resolution cfg event to_status from_category to_category sla)
  unfolding move_resolution
  move_resolution-Safe to_status from_category to_category sla h =
      Safe-if (text_eq from_category "DONE" && not (text_eq to_category "DONE")) _ _
        (λ _. discard-Safe _ (reopen-Safe cfg sla _ h event.outbox_event_id))
        (λ _.
          Safe-if (text_eq to_category "DONE") _ _
            (λ _. forget _ (complete-Safe cfg sla _ h event.outbox_event_id))
            (λ _. Safe-bind _ _ (Safe-lift _) λ statuses _.
              Safe-if (contains_text to_status statuses) _ _
                (λ _. forget _ (pause-Safe cfg sla _ h event.outbox_event_id))
                (λ _.
                  Safe-if (is_paused sla.state) _ _
                    (λ _. forget _ (resume-Safe cfg sla _ h event.outbox_event_id))
                    (λ _. Safe-pure tt tt))))

  move_one-Safe :
      (to_status from_category to_category : String) (sla : TicketSla)
      → IsSound sla
      → Safe Any (move_one cfg ticket event to_status from_category to_category sla)
  unfolding move_one
  move_one-Safe to_status from_category to_category sla h =
      Safe-if
        (is_metric sla.definition.metric first_response
          && (is_some ticket.first_response_at && is_open sla.state))
        _ _ (λ _. forget _ (complete-Safe cfg sla _ h event.outbox_event_id))
        (λ _.
          Safe-if (is_metric sla.definition.metric resolution) _ _
            (λ _. move_resolution-Safe to_status from_category to_category sla h)
            (λ _. Safe-pure tt tt))

  transition-Safe : Safe Any (transition cfg ticket event)
  unfolding transition
  transition-Safe = Safe-bind _ _ (Safe-lift _) λ from_status _.
      Safe-bind _ _ (Safe-lift _) λ to_status _. Safe-bind _ _ (Safe-lift _) λ from_category _.
        Safe-bind _ _ (Safe-lift _) λ to_category _.
          Safe-bind _ _ (Safe-ticket_slas _ _)
            λ slas s. for_each-Safe _ slas (move_one-Safe to_status from_category to_category) s

  complete_metric-Safe : (metric : SlaMetric) → Safe Any (complete_metric cfg ticket metric event)
  unfolding complete_metric
  complete_metric-Safe metric = Safe-bind _ _ (Safe-ticket_slas _ _) λ slas s.
      for_each-Safe _ slas
        (λ sla h.
          Safe-if (is_metric sla.definition.metric metric) _ _
            (λ _. forget _ (complete-Safe cfg sla _ h event.outbox_event_id))
            (λ _. Safe-pure tt tt))
        s

  recalculate_one-Safe :
      (sla : TicketSla) → IsSound sla → Safe Any (recalculate_one cfg ticket event sla)
  unfolding recalculate_one
  recalculate_one-Safe sla h =
      Safe-if (is_closed sla.state) _ _ (λ _. Safe-pure tt tt)
        (λ live. Safe-bind _ _ (calculated-Ticked cfg sla event.occurred_at h) λ current t.
          Safe-bind _ _ (Safe-lift _) λ goal _. Safe-bind _ _ (Safe-lift _) λ cal _.
            Safe-bind _ _ (add_seconds-Safe cal _ _) λ target _.
              Safe-bind _ _ (remaining_warning_time-Safe cal _ _) λ warning _.
                Safe-bind _ _ (Safe-record_event _ _ _ _) λ recorded _.
                  Safe-if (not recorded) _ _ (λ _. Safe-pure tt tt)
                    (λ _.
                      Safe-bind _ _
                        (Safe-save _ sla.row_version (
                          retargeted-IsSound current goal target warning _ t.0
                            (ap is_closed t.1 ∙ live)))
                        λ saved s. Safe-bind _ _ (Safe-count _) λ _ _.
                          Safe-if
                            (is_running saved.state
                              && goal.target_seconds - current.elapsed_working_seconds == 0)
                            _ _
                            (λ e.
                              Safe-bind _ _
                                (breach_running-Safe saved event.occurred_at s (ground arith))
                                λ _ _. Safe-pure tt tt)
                            (λ _. Safe-pure tt tt)))

  priority_changed-Safe : Safe Any (priority_changed cfg ticket event)
  unfolding priority_changed
  priority_changed-Safe =
      Safe-bind _ _ (Safe-ticket_slas _ _) λ slas s. for_each-Safe _ slas recalculate_one-Safe s

  dispatch-Safe : (type : SlaEventType) → Safe Any (dispatch cfg type ticket event)
  dispatch-Safe start_sla = start-Safe
  dispatch-Safe agent_public_response_added =
      Safe-bind _ _ (Safe-mark_first_response _ _) λ _ _. complete_metric-Safe first_response
  dispatch-Safe ticket_workflow_transitioned = transition-Safe
  dispatch-Safe ticket_priority_changed = priority_changed-Safe
  dispatch-Safe customer_comment_added = Safe-pure tt tt
  dispatch-Safe unsupported = Safe-pure tt tt

pub process-Safe : (cfg : Config) (event : SlaInputEvent) → Safe Any (process cfg event)
unfolding process
process-Safe cfg event =
    Safe-if (is_supported event.event_type) _ _
      (λ _. found (cfg.ticket event.tenant_id event.ticket_id)) (λ _. Safe-raise _)
  where
    found : (ticket : Option TicketFacts) → Safe Any (on_ticket cfg event ticket)
    found none = Safe-raise _
    found (some ticket) =
        Safe-bind _ _ (dispatch-Safe cfg ticket event event.event_type) λ _ _. Safe-count _

pub evaluate_due-Safe :
    (cfg : Config) (tenant_id due_at limit : ℕ) → Safe Any (evaluate_due cfg tenant_id due_at limit)
unfolding evaluate_due
evaluate_due-Safe cfg tenant_id due_at limit =
    Safe-bind _ _ (Safe-due_slas tenant_id due_at limit) λ slas s.
      Safe-bind _ _ (for_each-Safe _ slas (λ sla h. evaluate_one-Safe cfg sla due_at h) s)
        λ _ _. Safe-pure (length slas) tt
