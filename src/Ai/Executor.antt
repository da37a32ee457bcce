-- ===== src/Ai/Executor.antt =====
-- `ResilientProviderExecutor` of apps/api/app/ai/resilience.py. What other tasks do to the circuits while
-- this one waits, what the clock returns and how a provider's call ends are those of a world that is
-- asked by the number of waits so far.
use helpdesk_agent.Prelude.{
  ℕ, zero, suc, ◌+◌, ◌*◌, ◌^◌, Bool, true, false, Option, none, some, List, ◌∷◌, min, if◌then◌else◌,
}
use helpdesk_agent.Ai.Circuit.{Provider, Limits, Circuits, permit, success, failure}

-- How a call of a provider ends: with a result, by the timeout, with a `ProviderError`, which may be
-- retryable, or with another exception, such as a cancellation.
pub data Ending {ℓ} (A : Type ℓ) : Type ℓ where
  generated : A → Ending A
  timed_out : Ending A
  provider_error : Bool → Ending A
  crashed : Ending A

pub record World {ℓ} (A : Type ℓ) : Type ℓ where
  pub clock : ℕ → ℕ
  pub ending : ℕ → Provider → Ending A
  pub meanwhile : ℕ → Circuits → Circuits

-- `waits` counts the waits; calls and sleeps (in milliseconds) are logged, the last one first.
pub record Run : Type 0 where
  pub circuits : Circuits
  pub waits : ℕ
  pub calls : List Provider
  pub sleeps : List ℕ

-- How `_attempt` and `generate` end. `unassigned` is the failed assertion on `last_error`.
pub data Outcome {ℓ} (A : Type ℓ) : Type ℓ where
  returned : A → Outcome A
  circuit_open unassigned other_error : Outcome A
  last_error : Option Bool → Outcome A

pub record Settings : Type 0 where
  pub limits : Limits
  pub maximum_attempts : ℕ

-- `min(0.1 * (2**attempt), 2.0)`, in milliseconds
abbrev pub back_off : ℕ → ℕ
back_off attempt = min (100 * 2 ^ attempt) 2000

-- Whether `generate` catches the exception: a `ProviderError`, as an open circuit is, or a `TimeoutError`.
abbrev pub falls_back {ℓ} : {A : Type ℓ} → Outcome A → Bool
falls_back circuit_open = true
falls_back (last_error _) = true
falls_back _ = false

module _ {ℓ} {A : Type ℓ} (settings : Settings) (world : World A) where
  abbrev now : Run → ℕ
  now r = world.clock r.waits

  -- A wait: other tasks run.
  abbrev pub waited : Run → Run
  waited r = record r { circuits = world.meanwhile r.waits r.circuits; waits = r.waits + 1 }

  abbrev pub permitted : Provider → Run → Bool × Circuits
  permitted p r = permit settings.limits (now r) p r.circuits

  -- `provider.generate`, under the timeout
  abbrev pub called : Provider → Circuits → Run → Run
  called p circuits r = waited (record r { circuits = circuits; calls = p ∷ r.calls })

  abbrev pub record_failure : Provider → Run → Run
  record_failure p r = record r { circuits = failure settings.limits (now r) p r.circuits }

  abbrev pub record_success : Provider → Run → Run
  record_success p r = record r { circuits = success p r.circuits }

  -- The sleep after a failed attempt, unless it is the last one.
  abbrev pub slept : ℕ → ℕ → Run → Run
  slept zero attempt r = r
  slept (suc _) attempt r = waited (record r { sleeps = back_off attempt ∷ r.sleeps })

  -- What `raise last_error` raises: nothing is the `TimeoutError`.
  abbrev pub raise_last : Option (Option Bool) → Outcome A
  raise_last none = unassigned
  raise_last (some e) = last_error e

  -- One round of the loop, `rest` being the rounds after it.
  abbrev pub round :
      Provider
      → ℕ
      → ℕ
      → (Option (Option Bool) → Run → Outcome A × Run)
      → Run
      → Ending A
      → Outcome A × Run
  round p left attempt rest r (generated a) = (returned a, record_success p r)
  round p left attempt rest r timed_out = rest (some none) (slept left attempt (record_failure p r))
  round p left attempt rest r (provider_error true) =
      rest (some (some true)) (slept left attempt (record_failure p r))
  round p left attempt rest r (provider_error false) = (last_error (some false), record_failure p r)
  round p left attempt rest r crashed = (other_error, r)

  abbrev pub guarded :
      Provider
      → ℕ
      → ℕ
      → (Option (Option Bool) → Run → Outcome A × Run)
      → Run
      → Bool × Circuits
      → Outcome A × Run
  guarded p left attempt rest r (false, circuits) = (circuit_open, record r { circuits = circuits })
  guarded p left attempt rest r (true, circuits) =
      round p left attempt rest (called p circuits r) (world.ending r.waits p)

  -- The loop of `_attempt`, with so many rounds left.
  unfoldable pub attempts : ℕ → ℕ → Provider → Option (Option Bool) → Run → Outcome A × Run
  attempts zero attempt p last r = (raise_last last, r)
  attempts (suc left) attempt p last r =
      guarded p left attempt (attempts left (attempt + 1) p) r (permitted p r)

  -- `_attempt`
  unfoldable pub attempt_provider : Provider → Run → Outcome A × Run
  attempt_provider p r = attempts settings.maximum_attempts 0 p none r

  abbrev pub with_fallback : Option Provider → Outcome A × Run → Outcome A × Run
  with_fallback none result = result
  with_fallback (some p) (outcome, r) =
      if falls_back outcome then attempt_provider p r else (outcome, r)

  -- `generate`
  unfoldable pub generate : Provider → Option Provider → Run → Outcome A × Run
  unfolding attempt_provider
  generate primary fallback r = with_fallback fallback (attempt_provider primary r)
