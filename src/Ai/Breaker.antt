-- ===== src/Ai/Breaker.antt =====
-- The circuit breaker against the list of a provider's recent failures.
use package.text.Mathlib.TextPositions.{eq_refl}
use package.text.Mathlib.TextEquality.{eq_iff}
use helpdesk_agent.Prelude.{
  ℕ, suc, ◌+◌, ◌≡◌, refl, sym, ap, ◌∙◌, Bool, true, false, not, ◌&&◌, Option, none, some, List, [],
  ◌∷◌, length, ltb, leb, if◌then◌else◌, arith, Bool-cases, inl, inr,
}
use helpdesk_agent.Ai.Circuit.{
  Provider, same_provider, CircuitState, fresh_circuit, Limits, Circuits, find_circuit, set_circuit,
  or_fresh, recovering, is_open, permit, success, failed, failure,
}

-- What tasks do to the breaker, and when.
pub data Event : Type 0 where
  permits fails : Provider → ℕ → Event
  succeeds : Provider → Event

-- The circuits after the events, of which the last one stands first.
abbrev after_event : Limits → Event → Circuits → Circuits
after_event limits (permits p now) circuits = (permit limits now p circuits).1
after_event limits (fails p now) circuits = failure limits now p circuits
after_event limits (succeeds p) circuits = success p circuits

pub circuits_after : Limits → List Event → Circuits
circuits_after limits [] = []
circuits_after limits (e ∷ earlier) = after_event limits e (circuits_after limits earlier)

-- The times of the failures of a provider since it was last reset, the last one first. They refuse
-- calls while there are as many as the threshold and the last one is less than the recovery time ago.
abbrev pub refuses : Limits → ℕ → List ℕ → Bool
refuses limits now [] = false
refuses limits now (last ∷ earlier) =
    leb limits.failure_threshold (length (last ∷ earlier)) && ltb now (last + limits.recovery)

-- A permitted call after the recovery time resets the failures.
abbrev pub after_permit : Limits → ℕ → List ℕ → List ℕ
after_permit limits now times =
    if leb limits.failure_threshold (length times) && not (refuses limits now times)
    then []
    else times

abbrev pub recent_after : Limits → Provider → Event → List ℕ → List ℕ
recent_after limits p (permits q now) times =
    if same_provider p q then after_permit limits now times else times
recent_after limits p (fails q now) times = if same_provider p q then now ∷ times else times
recent_after limits p (succeeds q) times = if same_provider p q then [] else times

pub recent : Limits → Provider → List Event → List ℕ
recent limits p [] = []
recent limits p (e ∷ earlier) = recent_after limits p e (recent limits p earlier)

-- The circuit of a provider with these failures.
abbrev opened_by : Limits → List ℕ → Option ℕ
opened_by limits [] = none
opened_by limits (last ∷ earlier) =
    if leb limits.failure_threshold (length (last ∷ earlier)) then some last else none

abbrev pub circuit_of : Limits → List ℕ → CircuitState
circuit_of limits times = record { failures = length times; opened_at = opened_by limits times }

same_provider_refl : (p : Provider) → same_provider p p ≡ true
same_provider_refl p = rw (eq_refl p.provider_alias, eq_refl p.model_alias) refl

same_provider_path : (p q : Provider) → same_provider p q ≡ true → p ≡ q
same_provider_path p q h =
    ground (arith, eq_iff p.provider_alias q.provider_alias, eq_iff p.model_alias q.model_alias)

module _ (p : Provider) (c : CircuitState) where
  pub find-set_circuit : (circuits : Circuits) → find_circuit p (set_circuit p c circuits) ≡ some c
  find-set_circuit [] = rw (same_provider_refl p) refl
  find-set_circuit ((q, d) ∷ rest) = elim (Bool-cases (same_provider p q)) [
    | inl hit ↦ rw (hit, hit) refl
    | inr miss ↦ rw (miss, miss) (find-set_circuit rest)
  ]

  find-set_circuit-other :
      (q : Provider) (circuits : Circuits)
      → same_provider q p ≡ false
      → find_circuit q (set_circuit p c circuits) ≡ find_circuit q circuits
  find-set_circuit-other q [] h = rw h refl
  find-set_circuit-other q ((k, d) ∷ rest) h = elim (Bool-cases (same_provider p k)) [
    | inl hit ↦
        let apart : same_provider q k ≡ false = rw (same_provider_path p k hit) at h in
        rw (hit, apart) refl
    | inr miss ↦
        rw miss
          (ap (λ o. if same_provider q k then some d else o) (find-set_circuit-other q rest h))
  ]

-- The state a provider's calls see, after events of all providers.
abbrev pub state_after : Limits → Provider → List Event → CircuitState
state_after limits p events = or_fresh (find_circuit p (circuits_after limits events))

module _ (limits : Limits) where
  recovering-refuses :
      (now : ℕ) (times : List ℕ)
      → recovering limits now (opened_by limits times) ≡ refuses limits now times
  recovering-refuses now [] = refl
  recovering-refuses now (last ∷ earlier) =
      elim (Bool-cases (leb limits.failure_threshold (suc (length earlier)))) [
        | inl reached ↦ rw reached refl
        | inr below ↦ rw below refl
      ]

  failed-circuit_of :
      (now : ℕ) (times : List ℕ)
      → failed limits now (circuit_of limits times) ≡ circuit_of limits (now ∷ times)
  failed-circuit_of now times = ground arith

  -- What `permit` leaves of a circuit.
  abbrev permitted_state : ℕ → CircuitState → CircuitState
  permitted_state now c =
      if recovering limits now c.opened_at
      then c
      else if is_open c.opened_at
      then fresh_circuit
      else c

  permitted-circuit_of :
      (now : ℕ) (times : List ℕ)
      → permitted_state now (circuit_of limits times)
        ≡ circuit_of limits (after_permit limits now times)
  permitted-circuit_of now [] = ground arith
  permitted-circuit_of now (last ∷ earlier) =
      elim (Bool-cases (leb limits.failure_threshold (suc (length earlier)))) [
        | inl reached ↦ elim (Bool-cases (ltb now (last + limits.recovery))) [
          | inl soon ↦ rw (reached, soon, reached) refl
          | inr late ↦ rw (reached, late) refl
        ]
        | inr below ↦ rw (below, below) refl
      ]

  permit-circuits :
      (now : ℕ) (p : Provider) (circuits : Circuits)
      → (permit limits now p circuits).1
        ≡ set_circuit p (permitted_state now (or_fresh (find_circuit p circuits))) circuits
  unfolding permit
  permit-circuits now p circuits = ground arith

  permit-recovering :
      (now : ℕ) (p : Provider) (circuits : Circuits)
      → (permit limits now p circuits).0
        ≡ not (recovering limits now (or_fresh (find_circuit p circuits)).opened_at)
  unfolding permit
  permit-recovering now p circuits = ground arith

found-set_circuit :
    (p q : Provider) (c : CircuitState) (circuits : Circuits)
    → or_fresh (find_circuit p (set_circuit q c circuits))
      ≡ (if same_provider p q then c else or_fresh (find_circuit p circuits))
found-set_circuit p q c circuits = elim (Bool-cases (same_provider p q)) [
  | inl hit ↦ rw hit (
      ap (λ k. or_fresh (find_circuit k (set_circuit q c circuits))) (same_provider_path p q hit)
      ∙ ap or_fresh (find-set_circuit q c circuits))
  | inr miss ↦ rw miss (ap or_fresh (find-set_circuit-other q c p circuits miss))
]

-- A step that sets the circuit of a provider, and does to the failures what it does to that circuit.
step-circuit_of :
    (limits : Limits) (p q : Provider) (f : CircuitState → CircuitState) (g : List ℕ → List ℕ)
    → ((times : List ℕ) → f (circuit_of limits times) ≡ circuit_of limits (g times))
    → (circuits : Circuits) (times : List ℕ)
    → or_fresh (find_circuit p circuits) ≡ circuit_of limits times
    → or_fresh (find_circuit p (set_circuit q (f (or_fresh (find_circuit q circuits))) circuits))
      ≡ circuit_of limits (if same_provider p q then g times else times)
step-circuit_of limits p q f g simulates circuits times h =
    found-set_circuit p q (f (or_fresh (find_circuit q circuits))) circuits
    ∙ elim (Bool-cases (same_provider p q)) [
      | inl hit ↦ rw hit (
          ap (λ k. f (or_fresh (find_circuit k circuits))) (sym (same_provider_path p q hit))
          ∙ (ap f h ∙ simulates times))
      | inr miss ↦ rw miss h
    ]

pub state_after-circuit_of :
    (limits : Limits) (p : Provider) (events : List Event)
    → state_after limits p events ≡ circuit_of limits (recent limits p events)
unfolding circuits_after recent success failure
state_after-circuit_of limits p [] = refl
state_after-circuit_of limits p (permits q now ∷ earlier) =
    ap (λ circuits. or_fresh (find_circuit p circuits))
      (permit-circuits limits now q (circuits_after limits earlier))
    ∙ step-circuit_of limits p q (permitted_state limits now) (after_permit limits now)
        (permitted-circuit_of limits now) (circuits_after limits earlier) (recent limits p earlier)
        (state_after-circuit_of limits p earlier)
state_after-circuit_of limits p (fails q now ∷ earlier) =
    step-circuit_of limits p q (failed limits now) (λ times. now ∷ times)
      (failed-circuit_of limits now) (circuits_after limits earlier) (recent limits p earlier)
      (state_after-circuit_of limits p earlier)
state_after-circuit_of limits p (succeeds q ∷ earlier) =
    step-circuit_of limits p q (λ _. fresh_circuit) (λ _. []) (λ _. refl)
      (circuits_after limits earlier) (recent limits p earlier)
      (state_after-circuit_of limits p earlier)

-- After any calls of the breaker for any providers, `permit` lets a provider pass exactly when the
-- failures it has had since its last success or last permitted recovery are fewer than the threshold,
-- or the latest of them is at least the recovery time ago.
pub permit-recent :
    (limits : Limits) (now : ℕ) (p : Provider) (events : List Event)
    → (permit limits now p (circuits_after limits events)).0
      ≡ not (refuses limits now (recent limits p events))
permit-recent limits now p events =
    permit-recovering limits now p (circuits_after limits events)
    ∙ ap not (
        ap (λ c. recovering limits now c.opened_at) (state_after-circuit_of limits p events)
        ∙ recovering-refuses limits now (recent limits p events))
