-- ===== src/Sla/Process/Reach.antt =====
-- The stores that input events and scans lead to. An action that raises changes nothing: its
-- transaction is rolled back.
mod Tests
use helpdesk_agent.Prelude.{ℕ, [], Result, ok, ◌≡◌}
use helpdesk_agent.Sla.Models.{SlaInputEvent}
use helpdesk_agent.Sla.Store.{Store}
use helpdesk_agent.Sla.Engine.{Config}
use helpdesk_agent.Sla.Engine.Safe.{AllSound, Safe, Holds, Any}
use helpdesk_agent.Sla.Process.{process, evaluate_due}
use helpdesk_agent.Sla.Process.Sound.{process-Safe, evaluate_due-Safe}

-- The configuration may be another one at each step, as tickets and published versions change.
pub data Reach (s : Store) : Store → Type 0 where
  here : Reach s s
  input :
      {t u : Store}
      → Reach s t
      → (cfg : Config) (event : SlaInputEvent) → process cfg event t ≡ ok (tt, u)
      → Reach s u
  scan :
      {t u : Store}
      → Reach s t
      → (cfg : Config) (tenant_id due_at limit due : ℕ)
      → evaluate_due cfg tenant_id due_at limit t ≡ ok (due, u)
      → Reach s u

-- The tables before the first ticket.
abbrev pub empty_store : Store
empty_store = record {
  rows = [];
  next_id = 0;
  events = [];
  outbox = [];
  first_responses = [];
  metrics = record {
    input_events_processed = 0;
    instances_started = 0;
    instances_paused = 0;
    instances_resumed = 0;
    instances_met = 0;
    warnings_emitted = 0;
    breaches_emitted = 0;
    recalculations = 0;
  };
}

empty-AllSound : AllSound empty_store
empty-AllSound = record { rows_sound = tt; events_unique = tt; outbox_unique = tt }

-- After any input events and scans that return, from tables in order, every SLA row is sound (its
-- dates and seconds agree with its state), no SLA has two events of one key, and no announcement is
-- made twice.
pub Reach-AllSound : {s t : Store} → AllSound s → Reach s t → AllSound t
Reach-AllSound h here = h
Reach-AllSound {s} h (input {t} {u} r cfg event e) =
    (rw e at ((process-Safe cfg event).at t (Reach-AllSound h r))).0
Reach-AllSound {s} h (scan {t} {u} r cfg tenant_id due_at limit due e) =
    (rw e at ((evaluate_due-Safe cfg tenant_id due_at limit).at t (Reach-AllSound h r))).0
