-- ===== src/Ai/Snapshot.antt =====
-- What `snapshot` shows of a circuit, against `permit`.
use helpdesk_agent.Prelude.{
  ℕ, ◌≤◌, ◌≡◌, refl, ◌∙◌, Bool, true, false, not, Option, none, some, arith,
}
use helpdesk_agent.Ai.Circuit.{
  Provider, CircuitState, Limits, Circuits, find_circuit, or_fresh, recovering, permit,
  open_circuit, CircuitObservation, observe, observe_state, observe_found,
}

abbrev pub is_shown_open : CircuitObservation → Bool
is_shown_open o = elim o.status [ open_circuit ↦ true | _ ↦ false ]

-- Opened, if at all, no later than now.
pub data Since (now : ℕ) : Option ℕ → Type 0 where
  never_opened : Since now none
  opened_since : {opened : ℕ} → opened ≤ now → Since now (some opened)

observe_state-recovering :
    (limits : Limits) (now : ℕ) (p : Provider) (failures : ℕ) (opened : Option ℕ)
    → Since now opened
    → is_shown_open (observe_state limits now p failures opened) ≡ recovering limits now opened
observe_state-recovering limits now p failures none h = refl
observe_state-recovering limits now p failures (some opened) (opened_since before) = ground arith

observe_found-recovering :
    (limits : Limits) (now : ℕ) (p : Provider) (found : Option CircuitState)
    → Since now (or_fresh found).opened_at
    → is_shown_open (observe_found limits now p found)
      ≡ recovering limits now (or_fresh found).opened_at
observe_found-recovering limits now p none h = refl
observe_found-recovering limits now p (some c) h =
    observe_state-recovering limits now p c.failures c.opened_at h

recovering-permit :
    (limits : Limits) (now : ℕ) (p : Provider) (circuits : Circuits)
    → recovering limits now (or_fresh (find_circuit p circuits)).opened_at
      ≡ not (permit limits now p circuits).0
unfolding permit
recovering-permit limits now p circuits = ground arith

-- What `snapshot` shows of a provider agrees with `permit`: when the circuit, if it ever opened, did so
-- no later than now, it is shown open exactly if a call of the provider is refused now.
pub observe-permit :
    (limits : Limits) (now : ℕ) (p : Provider) (circuits : Circuits)
    → Since now (or_fresh (find_circuit p circuits)).opened_at
    → is_shown_open (observe limits now circuits p) ≡ not (permit limits now p circuits).0
unfolding observe
observe-permit limits now p circuits h =
    observe_found-recovering limits now p (find_circuit p circuits) h
    ∙ recovering-permit limits now p circuits
