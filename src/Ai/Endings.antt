-- ===== src/Ai/Endings.antt =====
-- How `_attempt` of `ResilientProviderExecutor` ends, and why.
use helpdesk_agent.Prelude.{
  ℕ, zero, suc, ◌+◌, ◌*◌, ◌<◌, ◌≡◌, refl, ap, Bool, true, false, Option, none, some, List, ◌∷◌,
  arith, Bool-cases, inl, inr,
}
use helpdesk_agent.Ai.Circuit.{
  Provider, Limits, fresh_circuit, Circuits, find_circuit, success, failure, permit, recovering,
  or_fresh,
}
use helpdesk_agent.Ai.Breaker.{find-set_circuit}
use helpdesk_agent.Ai.Executor.{
  Ending, generated, timed_out, provider_error, crashed, World, Run, Outcome, returned,
  circuit_open, other_error, last_error, Settings, permitted, called, record_failure, slept, round,
  guarded, attempts, attempt_provider,
}

-- The provider in front of the calls, so many times.
abbrev pub after_calls : Provider → ℕ → List Provider → List Provider
after_calls p zero calls = calls
after_calls p (suc k) calls = after_calls p k (p ∷ calls)

module _ {ℓ} {A : Type ℓ} (settings : Settings) (world : World A) (p : Provider) where
  -- A call that ends in what is retried, and the error that is remembered: nothing is a timeout.
  pub data IsRetried : Ending A → Option Bool → Type ℓ where
    by_timeout : IsRetried timed_out none
    by_retryable : IsRetried (provider_error true) (some true)

  -- So many calls, of which the first is made after `n` waits, end in what is retried; two waits lie
  -- between the calls, that for the answer and that before the next attempt.
  pub data Retried : ℕ → ℕ → Type ℓ where
    no_call : {n : ℕ} → Retried n zero
    one_more :
        {n k : ℕ} {e : Option Bool}
        → IsRetried (world.ending n p) e
        → Retried (n + 1 + 1) k
        → Retried n (suc k)

  -- The last thing that was done to the circuits is the recording of a failure.
  abbrev pub HasFailed : Run → Type 0
  HasFailed r =
      (before : Circuits) × (r.circuits ≡ failure settings.limits (world.clock r.waits) p before)

  -- Why `left` attempts, the first of them after `n` waits and after `calls`, end so: `k` calls were
  -- retried, and the next attempt is the one that decides.
  pub data Explained (n left : ℕ) (calls : List Provider) : Outcome A × Run → Type ℓ where
    by_result :
        {a : A} {r : Run} (k : ℕ)
        → k < left
        → Retried n k
        → world.ending (n + 2 * k) p ≡ generated a
        → r.waits ≡ n + 2 * k + 1
        → r.calls ≡ after_calls p (suc k) calls
        → find_circuit p r.circuits ≡ some fresh_circuit
        → Explained n left calls (returned a, r)
    by_refusal :
        {r : Run} (k : ℕ)
        → k < left
        → Retried n k
        → (permitted settings world p r).0 ≡ false
        → r.waits ≡ n + 2 * k
        → r.calls ≡ after_calls p k calls
        → Explained n left calls (circuit_open, r)
    by_error :
        {r : Run} (k : ℕ)
        → k < left
        → Retried n k
        → world.ending (n + 2 * k) p ≡ provider_error false
        → r.waits ≡ n + 2 * k + 1
        → r.calls ≡ after_calls p (suc k) calls
        → HasFailed r
        → Explained n left calls (last_error (some false), r)
    by_exhaustion :
        {e : Option Bool} {r : Run} (k : ℕ)
        → suc k ≡ left
        → Retried n k
        → IsRetried (world.ending (n + 2 * k) p) e
        → r.waits ≡ n + 2 * k + 1
        → r.calls ≡ after_calls p (suc k) calls
        → HasFailed r
        → Explained n left calls (last_error e, r)
    by_crash :
        {r : Run} (k : ℕ)
        → k < left
        → Retried n k
        → world.ending (n + 2 * k) p ≡ crashed
        → r.waits ≡ n + 2 * k + 1
        → r.calls ≡ after_calls p (suc k) calls
        → Explained n left calls (other_error, r)

  next_wait : (n k : ℕ) → n + 1 + 1 + 2 * k ≡ n + 2 * suc k
  next_wait n k = omega arith

  -- One retried call before.
  one_more-Explained :
      (n left : ℕ) (calls : List Provider) (e : Option Bool) {out : Outcome A × Run}
      → IsRetried (world.ending n p) e
      → Explained (n + 1 + 1) left (p ∷ calls) out
      → Explained n (suc left) calls out
  one_more-Explained n left calls e first (by_result k h before q w c fresh) =
      by_result (suc k) (omega (arith, h)) (one_more first before) (rw (next_wait n k) at q)
        (rw (next_wait n k) at w) c fresh
  one_more-Explained n left calls e first (by_refusal k h before q w c) =
      by_refusal (suc k) (omega (arith, h)) (one_more first before) q (rw (next_wait n k) at w) c
  one_more-Explained n left calls e first (by_error k h before q w c f) =
      by_error (suc k) (omega (arith, h)) (one_more first before) (rw (next_wait n k) at q)
        (rw (next_wait n k) at w) c f
  one_more-Explained n left calls e first (by_exhaustion k h before q w c f) =
      by_exhaustion (suc k) (ap suc h) (one_more first before) (rw (next_wait n k) at q)
        (rw (next_wait n k) at w) c f
  one_more-Explained n left calls e first (by_crash k h before q w c) =
      by_crash (suc k) (omega (arith, h)) (one_more first before) (rw (next_wait n k) at q)
        (rw (next_wait n k) at w) c

  first_wait : (n : ℕ) → n + 2 * 0 ≡ n
  first_wait n = omega arith

  -- A refusal leaves the circuit as it is, so that it is refused again.
  refused_again :
      (limits : Limits) (now : ℕ) (circuits : Circuits)
      → (permit limits now p circuits).0 ≡ false
      → (permit limits now p (permit limits now p circuits).1).0 ≡ false
  unfolding permit
  refused_again limits now circuits h =
      let c = or_fresh (find_circuit p circuits) in
      elim (Bool-cases (recovering limits now c.opened_at)) [
        | inr over ↦ absurd (cc (rw over at h))
        | inl open_still ↦ rw (open_still, find-set_circuit p c circuits, open_still) refl
      ]

  abbrev AttemptsExplained : ℕ → ℕ → Type ℓ
  AttemptsExplained left attempt =
      (last : Option (Option Bool)) (r : Run)
      → Explained r.waits left r.calls (attempts settings world left attempt p last r)

  abbrev failed_run : Circuits → Run → Run
  failed_run circuits r = record_failure settings world p (called settings world p circuits r)

  retry-Explained :
      (left attempt : ℕ) (r : Run) (circuits : Circuits) (e : Option Bool)
      → ((l : ℕ) → left ≡ suc l → AttemptsExplained left (attempt + 1))
      → IsRetried (world.ending r.waits p) e
      → Explained r.waits (suc left) r.calls (
          attempts settings world left
            (attempt + 1)
            p
            (some e)
            (slept settings world left attempt (failed_run circuits r)))
  unfolding attempts
  retry-Explained zero attempt r circuits e ih q =
      by_exhaustion 0 refl no_call (rw (first_wait r.waits) q) (rw (first_wait r.waits) refl) refl
        (_, refl)
  retry-Explained (suc l) attempt r circuits e ih q =
      one_more-Explained r.waits (suc l) r.calls e q
        (ih l refl (some e) (slept settings world (suc l) attempt (failed_run circuits r)))

  module _ (left attempt : ℕ) (ih : (l : ℕ) → left ≡ suc l → AttemptsExplained left (attempt + 1))
      (r : Run) where
    round-Explained :
        (circuits : Circuits) (e : Ending A)
        → world.ending r.waits p ≡ e
        → Explained r.waits (suc left) r.calls (
            round settings world p left attempt
              (attempts settings world left (attempt + 1) p)
              (called settings world p circuits r)
              e)
    unfolding success
    round-Explained circuits (generated a) q =
        by_result 0 (omega arith) no_call (rw (first_wait r.waits) q) (rw (first_wait r.waits) refl)
          refl (find-set_circuit p fresh_circuit _)
    round-Explained circuits timed_out q =
        retry-Explained left attempt r circuits none ih (rw q by_timeout)
    round-Explained circuits (provider_error true) q =
        retry-Explained left attempt r circuits (some true) ih (rw q by_retryable)
    round-Explained circuits (provider_error false) q =
        by_error 0 (omega arith) no_call (rw (first_wait r.waits) q) (rw (first_wait r.waits) refl)
          refl (_, refl)
    round-Explained circuits crashed q =
        by_crash 0 (omega arith) no_call (rw (first_wait r.waits) q) (rw (first_wait r.waits) refl)
          refl

    guarded-Explained :
        (permission : Bool × Circuits)
        → permitted settings world p r ≡ permission
        → Explained r.waits (suc left) r.calls (
            guarded settings world p left attempt
              (attempts settings world left (attempt + 1) p)
              r
              permission)
    guarded-Explained (false, circuits) q =
        by_refusal 0 (omega arith) no_call
          (rw q at
            (refused_again settings.limits (world.clock r.waits) r.circuits (ap (λ x. x.0) q)))
          (rw (first_wait r.waits) refl) refl
    guarded-Explained (true, circuits) q = round-Explained circuits (world.ending r.waits p) refl

  attempts-Explained : (left attempt : ℕ) → AttemptsExplained (suc left) attempt
  unfolding attempts
  attempts-Explained zero attempt last r =
      guarded-Explained zero attempt (λ l e. absurd (cc)) r (permitted settings world p r) refl
  attempts-Explained (suc left) attempt last r =
      guarded-Explained (suc left) attempt (λ l e. attempts-Explained left (attempt + 1)) r
        (permitted settings world p r) refl

  some_attempts-Explained :
      (n : ℕ)
      → 0 < n
      → (r : Run) → Explained r.waits n r.calls (attempts settings world n 0 p none r)
  some_attempts-Explained zero h r = absurd (omega (arith, h))
  some_attempts-Explained (suc left) h r = attempts-Explained left 0 none r

  -- When the maximum of attempts is not 0, `_attempt` makes some calls, fewer than the maximum, that end
  -- in a timeout or a retryable error, at waits that lie two apart, and the next attempt decides: a result
  -- is that of its call, after which the circuit is reset; an open circuit is a refusal of the circuit
  -- breaker for the circuits and the time at the end; an error that is not retryable is that of its
  -- call; a timeout or a retryable error is raised only when it was the last of the maximum of attempts and
  -- ended so, and is the error of its call; and another exception is that of its call. The calls made
  -- are logged, and a raised error has been recorded as a failure.
  pub attempt_provider-Explained :
      (r : Run)
      → 0 < settings.maximum_attempts
      → Explained r.waits settings.maximum_attempts r.calls (attempt_provider settings world p r)
  unfolding attempt_provider
  attempt_provider-Explained r h = some_attempts-Explained settings.maximum_attempts h r
