-- ===== src/Desk/Replay.antt =====
-- A request that is repeated with its key.
use package.text.Mathlib.TextPositions.{eq_refl}
use mathlib.Core.Path.{subst}
use helpdesk_agent.Prelude.{
  ℕ, ◌≡◌, refl, ap, ◌∙◌, String, true, false, Option, none, some, List, [], ◌∷◌, ◌++◌, arith,
  Bool-cases, inl, inr, ok, err, ok_inj,
}
use helpdesk_agent.Desk.Store.{Operation, Payload, KeyRow, Desk, idempotency_conflict}
use helpdesk_agent.Desk.Steps.{Action, >>=-ok}
use helpdesk_agent.Desk.Once.{
  is_key, find_key, new_key, claimed, claim_idempotency, complete_row, complete_idempotency,
  is_foreign, answered_or, completing, once,
}

own_key : (r : KeyRow) → is_key r.tenant_id r.operation r.idempotency_key r ≡ true
own_key r = rw (eq_refl r.idempotency_key) (ground arith)

-- The record once it is completed.
abbrev with_payload : Payload → KeyRow → KeyRow
with_payload payload r = record r { response_payload = some payload }

module _ (tenant_id : ℕ) (op : Operation) (key : String) where
  find_key-snoc :
      (rows : List KeyRow) (r : KeyRow)
      → find_key tenant_id op key rows ≡ none
      → is_key tenant_id op key r ≡ true
      → find_key tenant_id op key (rows ++ r ∷ []) ≡ some r
  find_key-snoc [] r h k = rw k refl
  find_key-snoc (x ∷ rows) r h k = elim (Bool-cases (is_key tenant_id op key x)) [
    | inl hit ↦ absurd (lost (rw hit at h))
    | inr miss ↦ rw miss (find_key-snoc rows r (rw miss at h) k)
  ]
    where
      lost : some x ≡ none → ⊥
      lost e = cc

  module _ (payload : Payload) where
    found_head :
        (rows : List KeyRow) (r : KeyRow)
        → is_key tenant_id op key r ≡ true
        → find_key tenant_id op key
            (complete_row r.tenant_id r.operation r.idempotency_key payload (r ∷ rows))
          ≡ some (with_payload payload r)
    found_head rows r h = rw (own_key r, h) refl

    find_key-complete_row :
        (rows : List KeyRow) (r : KeyRow)
        → find_key tenant_id op key rows ≡ some r
        → find_key tenant_id op key
            (complete_row r.tenant_id r.operation r.idempotency_key payload rows)
          ≡ some (with_payload payload r)
    find_key-complete_row [] r h = cc
    find_key-complete_row (x ∷ rows) r h = elim (Bool-cases (is_key tenant_id op key x)) [
      | inl hit ↦
          let same : x ≡ r = some_inj (rw hit at h) in rw same (found_head rows r (rw same at hit))
      | inr miss ↦ elim (Bool-cases (is_key r.tenant_id r.operation r.idempotency_key x)) [
        | inl also ↦ rw (also, miss) (find_key-complete_row rows r (rw miss at h))
        | inr other ↦ rw (other, miss) (find_key-complete_row rows r (rw miss at h))
      ]
    ]
      where
        some_inj : some x ≡ some r → x ≡ r
        some_inj e = cc

-- A claim answers with the record that the key has from then on, and writes no other table.
pub record IsClaim (tenant_id : ℕ) (op : Operation) (key : String) (s : Desk) (r : KeyRow)
    (u : Desk) : Type 0 where
  pub key_found : find_key tenant_id op key u.idempotency ≡ some r
  pub others_kept : u ≡ record s { idempotency = u.idempotency }

claimed-IsClaim :
    (tenant_id user_id : ℕ) (op : Operation) (key : String) (hash : ℕ) (s : Desk)
    (found : Option KeyRow)
    → find_key tenant_id op key s.idempotency ≡ found
    → (u : Desk) (r : KeyRow) → claimed (new_key tenant_id user_id op key hash) found s ≡ ok (r, u)
    → IsClaim tenant_id op key s r u
claimed-IsClaim tenant_id user_id op key hash s none new u r h =
    let fresh = new_key tenant_id user_id op key hash in
    subst (λ p. IsClaim tenant_id op key s p.0 p.1) (ok_inj h)
      (record {
        key_found = find_key-snoc tenant_id op key s.idempotency fresh new (own_key fresh);
        others_kept = refl;
      })
claimed-IsClaim tenant_id user_id op key hash s (some r₁) old u r h =
    subst (λ p. IsClaim tenant_id op key s p.0 p.1) (ok_inj h)
      (record { key_found = old; others_kept = refl })

-- A request that is answered by its own work: the claim that it starts from and what the work does.
pub record IsFirst (tenant_id user_id : ℕ) (op : Operation) (key : String) (hash : ℕ)
    (body : Action Payload) (s : Desk) (payload : Payload) (s' : Desk) : Type 0 where
  pub row : KeyRow
  pub start : Desk
  pub end : Desk
  pub is_claim : IsClaim tenant_id op key s row start
  pub unanswered : row.response_payload ≡ none
  pub own_row : is_foreign hash user_id row ≡ false
  pub worked : body start ≡ ok (payload, end)
  pub completed : s' ≡ record end {
    idempotency =
        complete_row row.tenant_id row.operation row.idempotency_key payload end.idempotency;
  }

answered-IsFirst :
    (tenant_id user_id : ℕ) (op : Operation) (key : String) (hash : ℕ) (body : Action Payload)
    (s : Desk) (payload : Payload) (s' : Desk) (r : KeyRow) (u : Desk)
    → IsClaim tenant_id op key s r u
    → is_foreign hash user_id r ≡ false
    → (old : Option Payload) → r.response_payload ≡ old
    → answered_or body r old u ≡ ok ((payload, false), s')
    → IsFirst tenant_id user_id op key hash body s payload s'
unfolding complete_idempotency
answered-IsFirst tenant_id user_id op key hash body s payload s' r u claim own (some p) q h =
    let lost : true ≡ false = ap (λ x. x.0.1) (ok_inj h) in cc
answered-IsFirst tenant_id user_id op key hash body s payload s' r u claim own none q h =
    let (p, v, worked, done) = >>=-ok (body u) (completing r) h in
    subst (λ x. IsFirst tenant_id user_id op key hash body s x.0.0 x.1) (ok_inj done)
      (record {
        row = r;
        start = u;
        end = v;
        is_claim = claim;
        unanswered = q;
        own_row = own;
        worked = worked;
        completed = refl;
      })

pub once-IsFirst :
    (tenant_id user_id : ℕ) (op : Operation) (key : String) (hash : ℕ) (body : Action Payload)
    (s : Desk) (payload : Payload) (s' : Desk)
    → once tenant_id user_id op key hash body s ≡ ok ((payload, false), s')
    → IsFirst tenant_id user_id op key hash body s payload s'
unfolding once claim_idempotency
once-IsFirst tenant_id user_id op key hash body s payload s' h =
    let (r, u, claim, rest) = >>=-ok (claim_idempotency tenant_id user_id op key hash s) _ h in
    elim (Bool-cases (is_foreign hash user_id r)) [
      | inl foreign ↦
          let lost : err idempotency_conflict ≡ ok ((payload, false), s') = rw foreign at rest in cc
      | inr own ↦
          answered-IsFirst tenant_id user_id op key hash body s payload s' r u
            (claimed-IsClaim tenant_id user_id op key hash s _ refl u r claim) own
            r.response_payload refl (rw own at rest)
    ]

-- The same request again, once it is answered: the work is not done again, whatever it would be.
pub once-replayed :
    (tenant_id user_id : ℕ) (op : Operation) (key : String) (hash : ℕ) (body again : Action Payload)
    (s : Desk) (payload : Payload) (s' : Desk)
    → once tenant_id user_id op key hash body s ≡ ok ((payload, false), s')
    → ((u v : Desk) (p : Payload) → body u ≡ ok (p, v) → v.idempotency ≡ u.idempotency)
    → once tenant_id user_id op key hash again s' ≡ ok ((payload, true), s')
unfolding once claim_idempotency
once-replayed tenant_id user_id op key hash body again s payload s' h keeps =
    let f = once-IsFirst tenant_id user_id op key hash body s payload s' h in
    let kept : find_key tenant_id op key f.end.idempotency ≡ some f.row =
      ap (find_key tenant_id op key) (keeps f.start f.end payload f.worked)
      ∙ f.is_claim.key_found in
    let found : find_key tenant_id op key s'.idempotency ≡ some (with_payload payload f.row) =
      ap (λ d. find_key tenant_id op key d.idempotency) f.completed
      ∙ find_key-complete_row tenant_id op key payload f.end.idempotency f.row kept in
    rw (found, f.own_row) refl
