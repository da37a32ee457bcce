-- ===== src/Ai/Attempts.antt =====
-- How often `ResilientProviderExecutor` calls the providers, how long it sleeps, and how it ends.
use mathlib.Core.List.{append_assoc}
use helpdesk_agent.Prelude.{
  ℕ, zero, suc, ◌+◌, ◌≤◌, ◌≡◌, refl, sym, ap, ◌∙◌, Bool, true, false, Option, none, some, List, [],
  ◌∷◌, ◌++◌, length, length-append, arith, Bool-cases, inl, inr, All, All-snoc,
}
use helpdesk_agent.Ai.Circuit.{Provider, Circuits}
use helpdesk_agent.Ai.Executor.{
  Ending, generated, timed_out, provider_error, crashed, World, Run, Outcome, Settings, back_off,
  permitted, called, record_failure, slept, round, guarded, attempts, attempt_provider,
  with_fallback, falls_back, generate,
}

abbrev pub repeated {ℓ} : {A : Type ℓ} → ℕ → A → List A
repeated zero x = []
repeated (suc n) x = x ∷ repeated n x

repeated-move {ℓ} :
    {A : Type ℓ} (n : ℕ) (x : A) (xs : List A) → repeated n x ++ (x ∷ xs) ≡ x ∷ (repeated n x ++ xs)
repeated-move zero x xs = refl
repeated-move (suc n) x xs = ap (λ ys. x ∷ ys) (repeated-move n x xs)

-- A log that has grown by at most `n` calls, all of one provider.
pub record Called (p : Provider) (n : ℕ) (before after : List Provider) : Type 0 where
  pub made : ℕ
  pub made_bound : made ≤ n
  pub made_lem : after ≡ repeated made p ++ before

-- A log that has grown by at most `n` sleeps, of at most two seconds each.
pub record Slept (n : ℕ) (before after : List ℕ) : Type 0 where
  pub added : List ℕ
  pub added_bound : length added ≤ n
  pub added_lem : after ≡ added ++ before
  pub added_short : All (λ ms. ms ≤ 2000) added

abbrev pub one_less : ℕ → ℕ
one_less zero = 0
one_less (suc n) = n

-- So many rounds add at most as many calls, and fewer sleeps.
pub record Within (p : Provider) (n : ℕ) (before after : Run) : Type 0 where
  pub calls_lem : Called p n before.calls after.calls
  pub sleeps_lem : Slept (one_less n) before.sleeps after.sleeps

Called-none : (p : Provider) (n : ℕ) (calls : List Provider) → Called p n calls calls
Called-none p n calls = record { made = 0; made_bound = omega arith; made_lem = refl }

Called-suc :
    (p : Provider) (n : ℕ) (calls after : List Provider)
    → Called p n (p ∷ calls) after
    → Called p (suc n) calls after
Called-suc p n calls after c = record {
  made = suc c.made;
  made_bound = omega (arith, c.made_bound);
  made_lem = c.made_lem ∙ repeated-move c.made p calls;
}

Slept-none : (n : ℕ) (sleeps : List ℕ) → Slept n sleeps sleeps
Slept-none n sleeps = record {
  added = [];
  added_bound = omega arith;
  added_lem = refl;
  added_short = tt;
}

Slept-suc :
    (n ms : ℕ) (sleeps after : List ℕ)
    → ms ≤ 2000
    → Slept n (ms ∷ sleeps) after
    → Slept (suc n) sleeps after
Slept-suc n ms sleeps after short s = record {
  added = s.added ++ (ms ∷ []);
  added_bound = omega (arith, length-append s.added (ms ∷ []), s.added_bound);
  added_lem = s.added_lem ∙ sym (append_assoc s.added (ms ∷ []) sleeps);
  added_short = All-snoc (λ k. k ≤ 2000) s.added ms s.added_short short;
}

back_off_bound : (attempt : ℕ) → back_off attempt ≤ 2000
back_off_bound attempt = omega arith

module _ {ℓ} {A : Type ℓ} (settings : Settings) (world : World A) (p : Provider) where
  -- The rounds that are left keep within their number.
  abbrev RestWithin : ℕ → (Option (Option Bool) → Run → Outcome A × Run) → Type 0
  RestWithin left rest = (last : Option (Option Bool)) (k : Run) → Within p left k (rest last k).1

  module _ (circuits : Circuits) (r : Run) where
    -- After the call of a round, whatever is done to the circuits, and after the rounds that follow.
    stopped-Within :
        (left : ℕ) (c : Circuits)
        → Within p (suc left) r (record (called settings world p circuits r) { circuits = c })
    stopped-Within left c = record {
      calls_lem = Called-suc p left r.calls (p ∷ r.calls) (Called-none p left (p ∷ r.calls));
      sleeps_lem = Slept-none left r.sleeps;
    }

    continued-Within :
        (left attempt : ℕ) (rest : Option (Option Bool) → Run → Outcome A × Run)
        → RestWithin left rest
        → (last : Option (Option Bool))
        → Within p
            (suc left)
            r
            (rest last (
              slept settings world left attempt
                (record_failure settings world p (called settings world p circuits r)))).1
    continued-Within zero attempt rest h last =
        let after = record_failure settings world p (called settings world p circuits r) in
        let w = h last after in
        record { calls_lem = Called-suc p 0 r.calls _ w.calls_lem; sleeps_lem = w.sleeps_lem }
    continued-Within (suc left) attempt rest h last =
        let after = record_failure settings world p (called settings world p circuits r) in
        let w = h last (slept settings world (suc left) attempt after) in
        record {
          calls_lem = Called-suc p (suc left) r.calls _ w.calls_lem;
          sleeps_lem =
              Slept-suc left (back_off attempt) r.sleeps _ (back_off_bound attempt) w.sleeps_lem;
        }

    round-Within :
        (left attempt : ℕ) (rest : Option (Option Bool) → Run → Outcome A × Run)
        → RestWithin left rest
        → (e : Ending A)
        → Within p
            (suc left)
            r
            (round settings world p left attempt rest (called settings world p circuits r) e).1
    round-Within left attempt rest h (generated a) = stopped-Within left _
    round-Within left attempt rest h timed_out = continued-Within left attempt rest h (some none)
    round-Within left attempt rest h (provider_error true) =
        continued-Within left attempt rest h (some (some true))
    round-Within left attempt rest h (provider_error false) = stopped-Within left _
    round-Within left attempt rest h crashed = stopped-Within left _

  none-Within :
      (n : ℕ) (circuits : Circuits) (r : Run) → Within p n r (record r { circuits = circuits })
  none-Within n circuits r = record {
    calls_lem = Called-none p n r.calls;
    sleeps_lem = Slept-none (one_less n) r.sleeps;
  }

  guarded-Within :
      (left attempt : ℕ) (rest : Option (Option Bool) → Run → Outcome A × Run) (r : Run)
      → RestWithin left rest
      → (permission : Bool × Circuits)
      → Within p (suc left) r (guarded settings world p left attempt rest r permission).1
  guarded-Within left attempt rest r h (false, circuits) = none-Within (suc left) circuits r
  guarded-Within left attempt rest r h (true, circuits) =
      round-Within circuits r left attempt rest h (world.ending r.waits p)

  attempts-Within : (left attempt : ℕ) → RestWithin left (attempts settings world left attempt p)
  unfolding attempts
  attempts-Within zero attempt last r = none-Within 0 r.circuits r
  attempts-Within (suc left) attempt last r =
      guarded-Within left attempt (attempts settings world left (attempt + 1) p) r
        (attempts-Within left (attempt + 1)) (permitted settings world p r)

module _ {ℓ} {A : Type ℓ} (settings : Settings) (world : World A) where
  abbrev pub limit : ℕ
  limit = settings.maximum_attempts

  attempt_provider-Within :
      (p : Provider) (r : Run) → Within p limit r (attempt_provider settings world p r).1
  unfolding attempt_provider
  attempt_provider-Within p r = attempts-Within settings world p limit 0 none r

  -- What `generate` adds to the logs: what `_attempt` adds for the primary provider and, if that ends
  -- with an error that is caught and there is a fallback, what it then adds for the fallback.
  pub data Generates (primary : Provider) (before : Run) : Option Provider → Run → Type ℓ where
    by_primary :
        (fallback : Option Provider) {after : Run}
        → Within primary limit before after
        → Generates primary before fallback after
    by_fallback :
        (fallback : Provider) (first : Outcome A × Run) {after : Run}
        → attempt_provider settings world primary before ≡ first
        → falls_back first.0 ≡ true
        → Within primary limit before first.1
        → Within fallback limit first.1 after
        → Generates primary before (some fallback) after

  with_fallback-Generates :
      (primary : Provider) (r : Run) (fallback : Option Provider) (result : Outcome A × Run)
      → attempt_provider settings world primary r ≡ result
      → Within primary limit r result.1
      → Generates primary r fallback (with_fallback settings world fallback result).1
  with_fallback-Generates primary r none (o, s) q w = by_primary none w
  with_fallback-Generates primary r (some p) (o, s) q w = elim (Bool-cases (falls_back o)) [
    | inl caught ↦ rw caught (by_fallback p (o, s) q caught w (attempt_provider-Within p s))
    | inr kept ↦ rw kept (by_primary (some p) w)
  ]

  -- Whatever other tasks, the clock and the providers do, `generate` calls the primary provider at most
  -- as often as the maximum of attempts, and only if this ends with a provider's error or a timeout
  -- calls the fallback, at most as often again. For each of them it sleeps fewer times than that
  -- maximum (not at all when it is 0), and never for more than two seconds.
  pub generate-Generates :
      (primary : Provider) (fallback : Option Provider) (r : Run)
      → Generates primary r fallback (generate settings world primary fallback r).1
  unfolding generate
  generate-Generates primary fallback r =
      with_fallback-Generates primary r fallback (attempt_provider settings world primary r) refl
        (attempt_provider-Within primary r)
