-- ===== src/Ai/Tests.antt =====
-- Two providers, a threshold of two failures and a recovery time of ten ticks.
use helpdesk_agent.Prelude.{
  ℕ, ◌≡◌, refl, true, false, not, some, List, [], ◌∷◌, ltb, if◌then◌else◌, arith,
}
use helpdesk_agent.Ai.Circuit.{
  Provider, Limits, Circuits, fresh_circuit, permit, observe, failure, CircuitState,
}
use helpdesk_agent.Ai.Executor.{
  generated, timed_out, World, Run, returned, Settings, attempt_provider, generate, attempts,
}
use helpdesk_agent.Ai.Breaker.{
  Event, permits, fails, succeeds, circuits_after, recent, refuses, permit-recent,
}
use helpdesk_agent.Ai.Snapshot.{opened_since, is_shown_open, observe-permit}
use helpdesk_agent.Ai.Attempts.{Generates, generate-Generates}
use helpdesk_agent.Ai.Endings.{Explained, attempt_provider-Explained}

abbrev main_provider : Provider
main_provider = record { provider_alias = "main"; model_alias = "large" }

abbrev other_provider : Provider
other_provider = record { provider_alias = "other"; model_alias = "small" }

abbrev limits : Limits
limits = record { failure_threshold = 2; recovery = 10 }

-- Two failures of the main provider, between which the other one succeeds; the last event stands first.
abbrev events : List Event
events =
    fails main_provider 7
    ∷ permits main_provider 6
    ∷ succeeds other_provider
    ∷ fails main_provider 5
    ∷ permits main_provider 4
    ∷ []

permit-recent_example :
    (permit limits 12 main_provider (circuits_after limits events)).0
    ≡ not (refuses limits 12 (recent limits main_provider events))
permit-recent_example = permit-recent limits 12 main_provider events

abbrev open_state : CircuitState
open_state = record { failures = 2; opened_at = some 7 }

abbrev opened : Circuits
opened = (main_provider, open_state) ∷ []

refused : (permit limits 12 main_provider opened).0 ≡ false
unfolding permit
refused = refl

let_through : permit limits 17 main_provider opened ≡ (true, (main_provider, fresh_circuit) ∷ [])
unfolding permit
let_through = refl

observe-permit_example :
    is_shown_open (observe limits 12 opened main_provider)
    ≡ not (permit limits 12 main_provider opened).0
observe-permit_example = observe-permit limits 12 main_provider opened (opened_since (omega arith))

-- The first call times out and the second one gives a result; each wait takes a tick.
abbrev world : World ℕ
world = record {
  clock = λ waits. waits;
  ending = λ waits p. if ltb waits 2 then timed_out else generated 42;
  meanwhile = λ waits circuits. circuits;
}

abbrev settings : Settings
settings = record { limits = limits; maximum_attempts = 3 }

abbrev start : Run
start = record { circuits = []; waits = 0; calls = []; sleeps = [] }

second_answers : (attempt_provider settings world main_provider start).0 ≡ returned 42
unfolding attempt_provider attempts permit failure
second_answers = refl

generate-Generates_example :
    Generates settings world main_provider start
      (some other_provider)
      (generate settings world main_provider (some other_provider) start).1
generate-Generates_example =
    generate-Generates settings world main_provider (some other_provider) start

attempt_provider-Explained_example :
    Explained settings world main_provider 0 3 []
      (attempt_provider settings world main_provider start)
attempt_provider-Explained_example =
    attempt_provider-Explained settings world main_provider start (omega arith)
