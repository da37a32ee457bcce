-- ===== src/Approvals/Keys.antt =====
-- Idempotency records: what a claim finds, and what it finds once completed.
use package.text.Mathlib.TextPositions.{eq_refl}
use helpdesk_agent.Prelude.{
  ℕ, ◌≡◌, refl, sym, String, true, false, none, some, List, [], ◌∷◌, ◌++◌, arith, Bool-cases,
  Option-cases, inl, inr,
}
use helpdesk_agent.Approvals.Models.{IdempotencyRecord}
use helpdesk_agent.Approvals.Tables.{
  Tables, done, claim_idempotency, find_key, is_key, complete_key,
}

fresh_key : ℕ → ℕ → String → ℕ → IdempotencyRecord
fresh_key tenant_id user key hash = record {
  tenant_id = tenant_id;
  principal_id = user;
  idempotency_key = key;
  request_hash = hash;
  completed = false;
}

own_key : (r : IdempotencyRecord) → is_key r.tenant_id r.idempotency_key r ≡ true
own_key r = rw (eq_refl r.idempotency_key) (ground arith)

module _ (tenant_id : ℕ) (key : String) where
  find_key-snoc :
      (rows : List IdempotencyRecord) (r : IdempotencyRecord)
      → find_key tenant_id key rows ≡ none
      → is_key tenant_id key r ≡ true
      → find_key tenant_id key (rows ++ r ∷ []) ≡ some r
  find_key-snoc [] r h k = rw k refl
  find_key-snoc (x ∷ rows) r h k = elim (Bool-cases (is_key tenant_id key x)) [
    | inl hit ↦ absurd (lost (rw hit at h))
    | inr miss ↦ rw miss (find_key-snoc rows r (rw miss at h) k)
  ]
    where
      lost : some x ≡ none → ⊥
      lost e = cc

  found_head :
      (rows : List IdempotencyRecord) (r : IdempotencyRecord)
      → is_key tenant_id key r ≡ true
      → find_key tenant_id key (complete_key r.tenant_id r.idempotency_key (r ∷ rows))
        ≡ some (record r { completed = true })
  found_head rows r h = rw (own_key r, h) refl

  pub find_key-complete_key :
      (rows : List IdempotencyRecord) (r : IdempotencyRecord)
      → find_key tenant_id key rows ≡ some r
      → find_key tenant_id key (complete_key r.tenant_id r.idempotency_key rows)
        ≡ some (record r { completed = true })
  find_key-complete_key [] r h = cc
  find_key-complete_key (x ∷ rows) r h = elim (Bool-cases (is_key tenant_id key x)) [
    | inl hit ↦
        let same : x ≡ r = some_inj (rw hit at h) in rw same (found_head rows r (rw same at hit))
    | inr miss ↦ elim (Bool-cases (is_key r.tenant_id r.idempotency_key x)) [
      | inl also ↦ rw (also, miss) (find_key-complete_key rows r (rw miss at h))
      | inr other ↦ rw (other, miss) (find_key-complete_key rows r (rw miss at h))
    ]
  ]
    where
      some_inj : some x ≡ some r → x ≡ r
      some_inj e = cc

-- A claim answers with the record that the key has from then on, and changes no approval.
pub claim-found :
    (tenant_id user : ℕ) (key : String) (hash : ℕ) (s u : Tables) (idem : IdempotencyRecord)
    → claim_idempotency tenant_id user key hash s ≡ done idem u
    → (find_key tenant_id key u.idempotency ≡ some idem)
      × (u.approvals ≡ s.approvals)
      × (u.tickets ≡ s.tickets)
unfolding claim_idempotency fresh_key
claim-found tenant_id user key hash s u idem e =
    elim (Option-cases (find_key tenant_id key s.idempotency)) [
      | inl new ↦
          let (same, after) = done_inj _ _ _ _ (rw new at e) in
          let fresh = fresh_key tenant_id user key hash in
          let found = find_key-snoc tenant_id key s.idempotency fresh new (own_key fresh) in
          (rw (sym after, sym same) found, rw (sym after) refl, rw (sym after) refl)
      | inr (r, old) ↦
          let (same, after) = done_inj r idem s u (rw old at e) in
          (rw (sym after, sym same) old, rw (sym after) refl, rw (sym after) refl)
    ]
  where
    done_inj : (x y : IdempotencyRecord) (v w : Tables) → done x v ≡ done y w → (x ≡ y) × (v ≡ w)
    done_inj x y v w q = (cc, cc)
