-- ===== src/Ai/Circuit.antt =====
-- `CircuitBreaker` of apps/api/app/ai/resilience.py. Time is a number of ticks of the monotonic clock;
-- each operation is given what its call of the clock returns, and holds the lock throughout.
use Prim.Native.Nat.{Ordering}
use Prim.Native.String.{compare as compare_text}
use package.text.Mathlib.Text.{◌==◌ as text_eq}
use helpdesk_agent.Prelude.{
  ℕ, ◌+◌, ◌-◌, String, Bool, true, false, ◌&&◌, Option, none, some, List, [], ◌∷◌, ◌++◌, map, ltb,
  leb, if◌then◌else◌,
}

-- `_key`: the aliases of a provider and of its model.
pub record Provider : Type 0 where
  pub provider_alias : String
  pub model_alias : String

abbrev pub same_provider : Provider → Provider → Bool
same_provider p q = text_eq p.provider_alias q.provider_alias && text_eq p.model_alias q.model_alias

pub record CircuitState : Type 0 where
  pub failures : ℕ
  pub opened_at : Option ℕ

abbrev pub fresh_circuit : CircuitState
fresh_circuit = record { failures = 0; opened_at = none }

pub record Limits : Type 0 where
  pub failure_threshold : ℕ
  pub recovery : ℕ

-- `_states`
abbrev pub Circuits : Type 0
Circuits = List (Provider × CircuitState)

abbrev pub find_circuit : Provider → Circuits → Option CircuitState
find_circuit p [] = none
find_circuit p ((q, c) ∷ rest) = if same_provider p q then some c else find_circuit p rest

abbrev pub set_circuit : Provider → CircuitState → Circuits → Circuits
set_circuit p c [] = (p, c) ∷ []
set_circuit p c ((q, d) ∷ rest) =
    if same_provider p q then (q, c) ∷ rest else (q, d) ∷ set_circuit p c rest

abbrev pub or_fresh : Option CircuitState → CircuitState
or_fresh none = fresh_circuit
or_fresh (some c) = c

-- Whether the recovery time of a circuit that opened at an instant lasts still:
-- `clock() - opened_at < recovery_seconds`
abbrev pub recovering : Limits → ℕ → Option ℕ → Bool
recovering limits now none = false
recovering limits now (some opened) = ltb now (opened + limits.recovery)

abbrev pub is_open : Option ℕ → Bool
is_open none = false
is_open (some _) = true

-- `permit`: whether it returns, and the circuits after it. A refusal is the `CircuitOpenError`.
unfoldable pub permit : Limits → ℕ → Provider → Circuits → Bool × Circuits
permit limits now p circuits =
    let c = or_fresh (find_circuit p circuits) in
    if recovering limits now c.opened_at
    then (false, set_circuit p c circuits)
    else (true, set_circuit p (if is_open c.opened_at then fresh_circuit else c) circuits)

-- `success`
unfoldable pub success : Provider → Circuits → Circuits
success p circuits = set_circuit p fresh_circuit circuits

abbrev pub failed : Limits → ℕ → CircuitState → CircuitState
failed limits now c = record {
  failures = c.failures + 1;
  opened_at = if leb limits.failure_threshold (c.failures + 1) then some now else c.opened_at;
}

-- `failure`
unfoldable pub failure : Limits → ℕ → Provider → Circuits → Circuits
failure limits now p circuits =
    set_circuit p (failed limits now (or_fresh (find_circuit p circuits))) circuits

pub data CircuitStatus : Type 0 where
  not_observed open_circuit closed_circuit : CircuitStatus

pub record CircuitObservation : Type 0 where
  pub observed : Provider
  pub status : CircuitStatus
  pub recent_failures : ℕ
  pub recovery_remaining : Option ℕ

-- `max(0.0, recovery_seconds - (now - opened_at))`, for a clock that does not go back
abbrev pub remaining : Limits → ℕ → ℕ → ℕ
remaining limits now opened = limits.recovery - (now - opened)

abbrev pub observe_open : Provider → ℕ → ℕ → CircuitObservation
observe_open p failures left =
    if ltb 0 left
    then record {
      observed = p;
      status = open_circuit;
      recent_failures = failures;
      recovery_remaining = some left;
    }
    else record {
      observed = p;
      status = closed_circuit;
      recent_failures = 0;
      recovery_remaining = none;
    }

abbrev pub observe_state : Limits → ℕ → Provider → ℕ → Option ℕ → CircuitObservation
observe_state limits now p failures none = record {
  observed = p;
  status = closed_circuit;
  recent_failures = failures;
  recovery_remaining = none;
}
observe_state limits now p failures (some opened) =
    observe_open p failures (remaining limits now opened)

abbrev pub observe_found : Limits → ℕ → Provider → Option CircuitState → CircuitObservation
observe_found limits now p none = record {
  observed = p;
  status = not_observed;
  recent_failures = 0;
  recovery_remaining = none;
}
observe_found limits now p (some c) = observe_state limits now p c.failures c.opened_at

-- One item of `snapshot`.
unfoldable pub observe : Limits → ℕ → Circuits → Provider → CircuitObservation
observe limits now circuits p = observe_found limits now p (find_circuit p circuits)

abbrev text_before : Ordering → Bool → Bool
text_before Ordering.lt later = true
text_before Ordering.eq later = later
text_before Ordering.gt later = false

abbrev pub provider_le : Provider → Provider → Bool
provider_le p q =
    text_before (compare_text p.provider_alias q.provider_alias)
      (text_before (compare_text p.model_alias q.model_alias) true)

-- A sorted list of the members of a set.
abbrev pub insert_provider : Provider → List Provider → List Provider
insert_provider p [] = p ∷ []
insert_provider p (q ∷ rest) =
    if same_provider p q
    then q ∷ rest
    else if provider_le p q
    then p ∷ q ∷ rest
    else q ∷ insert_provider p rest

abbrev pub sorted_providers : List Provider → List Provider
sorted_providers [] = []
sorted_providers (p ∷ rest) = insert_provider p (sorted_providers rest)

-- `snapshot`
unfoldable pub snapshot : Limits → ℕ → List Provider → Circuits → List CircuitObservation
unfolding observe
snapshot limits now known circuits =
    map (observe limits now circuits) (sorted_providers (known ++ map (λ entry. entry.0) circuits))
