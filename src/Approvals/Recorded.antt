-- ===== src/Approvals/Recorded.antt =====
-- What a decision that succeeds has read and written.
use helpdesk_agent.Prelude.{
  ℕ, ◌≡◌, refl, sym, ap, ◌∙◌, String, true, false, Option, none, some, List, [], any, Bool-cases,
  Option-cases, inl, inr, ◌==◌, Result, ok, err, if◌then◌else◌,
}
use helpdesk_agent.Approvals.Models.{
  Decision, ApprovalTicket, Approval, LockedApproval, Transition, IdempotencyRecord,
}
use helpdesk_agent.Approvals.Tables.{
  ApprovalError, conflict, Tables, Step, done, raised, committed, Work, ◌>>=◌, record_fact,
  find_approval, map_approval, expire_if_due, is_due, is_pending, decided_approval, record_decision,
  locked_of, find_ticket, lock_for_decision, decision_counts, continue_workflow,
  complete_idempotency, complete_key,
}
use helpdesk_agent.Approvals.Service.{
  Directory, Command, refusal, settle_decision, decide_locked, follow_up, transition_for,
}
use helpdesk_agent.Approvals.Tables.{then_work, commit_raise, continued, is_ticket, continues}
use helpdesk_agent.Approvals.Service.{refuse, or_raise}
use helpdesk_agent.Approvals.Decide.{counted_outcome, next_outcome, IsLocked, locked_of-some}
use helpdesk_agent.Approvals.Settle.{
  IsAllowed, refusal-IsAllowed, live-not_due, expire-cases, find_approval-id,
}

module _ {ℓ} {A B : Type ℓ} where
  then-done :
      (r : Step A) (f : A → Work B) (b : B) (t : Tables)
      → then_work r f ≡ done b t
      → (a : A) × (u : Tables) × (r ≡ done a u) × (f a u ≡ done b t)
  then-done (done a u) f b t e = (a, u, refl, e)
  then-done (raised x) f b t e = cc
  then-done (committed x u) f b t e = cc

  -- What returns after a first step has a step that returned.
  pub bind-done :
      (m : Work A) (f : A → Work B) (s : Tables) (b : B) (t : Tables)
      → (m >>= f) s ≡ done b t
      → (a : A) × (u : Tables) × (m s ≡ done a u) × (f a u ≡ done b t)
  unfolding ◌>>=◌
  bind-done m f s b t e = then-done (m s) f b t e

abbrev pub rows_at {ℓ} : {A : Type ℓ} → Step A → List Approval
rows_at (done _ t) = t.approvals
rows_at _ = []

abbrev keys_at {ℓ} : {A : Type ℓ} → Step A → List IdempotencyRecord
keys_at (done _ t) = t.idempotency
keys_at _ = []

-- What a step left alone.
abbrev SameRows : Tables → Step (Unit {0}) → Type 0
SameRows s (done _ t) = (t.approvals ≡ s.approvals) × (t.idempotency ≡ s.idempotency)
SameRows s (raised _) = Unit
SameRows s (committed _ _) = ⊥

continued-SameRows :
    (l : LockedApproval) (transition : Option Transition) (t : Option ApprovalTicket) (s : Tables)
    → SameRows s (continued l transition t s)
continued-SameRows l none t s = tt
continued-SameRows l (some transition) none s = tt
continued-SameRows l (some transition) (some t) s = elim (Bool-cases (continues transition t)) [
  | inr stale ↦ rw stale tt
  | inl fits ↦ elim (Bool-cases (any (λ id. id == l.approval_id) s.workflow_outbox)) [
    | inl twice ↦ rw (fits, twice) tt
    | inr once ↦ rw (fits, once) (refl, refl)
  ]
]

follow_up-SameRows :
    (dir : Directory) (l : LockedApproval) (terminal : Option Decision) (s : Tables)
    → SameRows s (follow_up dir l terminal s)
unfolding ◌>>=◌ continue_workflow
follow_up-SameRows dir l none s = (refl, refl)
follow_up-SameRows dir l (some d) s = elim (Option-cases (transition_for l d)) [
  | inl missing ↦ rw missing tt
  | inr (id, e) ↦ rw e (
      continued-SameRows l (dir.transition_of id)
        (find_ticket (is_ticket l.tenant_id l.ticket_id) s.tickets) s)
]

-- The row and the voter that a recorded decision is about, and the tables after it.
pub record IsRecorded (now tenant_id user id : ℕ) (command : Command) (comment : Option String)
    (idem : IdempotencyRecord) (s t : Tables) : Type 0 where
  pub lock : LockedApproval
  pub found : IsLocked s tenant_id id user lock
  pub allowed : IsAllowed lock user command comment
  pub live : is_due now lock.expires_at ≡ false
  pub terminal : Option Decision
  pub counted : next_outcome command.decision found.row ≡ ok terminal
  pub approvals_after :
      t.approvals
      ≡ map_approval id (decided_approval now user command.decision comment terminal) s.approvals
  pub idempotency_after :
      t.idempotency ≡ complete_key idem.tenant_id idem.idempotency_key s.idempotency

module _ (dir : Directory) (now tenant_id user id : ℕ) (command : Command) (comment : Option String)
    (idem : IdempotencyRecord) (s t : Tables) (l : LockedApproval)
    (k : IsLocked s tenant_id id user l) (a : IsAllowed l user command comment)
    (not_due : is_due now l.expires_at ≡ false) where
  settled-IsRecorded :
      (terminal : Option Decision)
      → next_outcome command.decision k.row ≡ ok terminal
      → (record_decision now l user command.decision comment terminal >>= λ version.
            follow_up dir l terminal >>= λ _. complete_idempotency idem)
          s
        ≡ done tt t
      → IsRecorded now tenant_id user id command comment idem s t
  unfolding record_decision record_fact complete_idempotency ◌>>=◌
  settled-IsRecorded terminal q e =
      let (v, u, e1, e2) =
        bind-done (record_decision now l user command.decision comment terminal)
          (λ _. follow_up dir l terminal >>= λ _. complete_idempotency idem) s tt t e in
      let (_, w, e3, e4) =
        bind-done (follow_up dir l terminal) (λ _. complete_idempotency idem) u tt t e2 in
      let same : (w.approvals ≡ u.approvals) × (w.idempotency ≡ u.idempotency) =
        rw e3 at (follow_up-SameRows dir l terminal u) in
      let own : l.approval_id ≡ id =
        rw k.is_view (find_approval-id id s.approvals k.row k.row_found) in
      record {
        lock = l;
        found = k;
        allowed = a;
        live = not_due;
        terminal = terminal;
        counted = q;
        approvals_after =
            sym (ap rows_at e4)
            ∙ same.0
            ∙ sym (ap rows_at e1)
            ∙ ap
                (λ n.
                  map_approval n (decided_approval now user command.decision comment terminal)
                    s.approvals)
                own;
        idempotency_after =
            sym (ap keys_at e4)
            ∙ ap (complete_key idem.tenant_id idem.idempotency_key) (same.1 ∙ sym (ap keys_at e1));
      }

  outcome-IsRecorded :
      (r : Result ApprovalError (Option Decision))
      → next_outcome command.decision k.row ≡ r
      → (or_raise r >>= λ terminal.
            record_decision now l user command.decision comment terminal >>= λ version.
            follow_up dir l terminal >>= λ _. complete_idempotency idem)
          s
        ≡ done tt t
      → IsRecorded now tenant_id user id command comment idem s t
  unfolding ◌>>=◌
  outcome-IsRecorded (err x) q e = cc
  outcome-IsRecorded (ok terminal) q e = settled-IsRecorded terminal q e

  settle_decision-IsRecorded :
      settle_decision dir now l user command.decision comment idem s ≡ done tt t
      → IsRecorded now tenant_id user id command comment idem s t
  unfolding settle_decision decision_counts ◌>>=◌
  settle_decision-IsRecorded e =
      let own : l.approval_id ≡ id =
        rw k.is_view (find_approval-id id s.approvals k.row k.row_found) in
      let here : find_approval l.approval_id s.approvals ≡ some k.row = rw own k.row_found in
      let mode : k.row.definition.mode ≡ l.mode = rw k.is_view refl in
      outcome-IsRecorded (counted_outcome l.mode command.decision k.row.approvers)
        (ap (λ m. counted_outcome m command.decision k.row.approvers) mode) (rw here at e)

module _ (dir : Directory) (now tenant_id user id : ℕ) (command : Command) (comment : Option String)
    (idem : IdempotencyRecord) (s t : Tables) where
  refuse-IsRecorded :
      (l : LockedApproval) (e : Option ApprovalError)
      → IsLocked s tenant_id id user l
      → (is_pending l.status ≡ true → is_due now l.expires_at ≡ false)
      → refusal l user command comment ≡ e
      → (refuse e >>= λ _. settle_decision dir now l user command.decision comment idem) s
        ≡ done tt t
      → IsRecorded now tenant_id user id command comment idem s t
  unfolding ◌>>=◌
  refuse-IsRecorded l (some x) k live q e = cc
  refuse-IsRecorded l none k live q e =
      let a = refusal-IsAllowed l user command comment q in
      settle_decision-IsRecorded dir now tenant_id user id command comment idem s t l k a
        (live a.waiting) e

  live-IsRecorded :
      (l : LockedApproval)
      → IsLocked s tenant_id id user l
      → (expire_if_due now l >>= λ has_expired.
            if has_expired
            then commit_raise conflict
            else refuse (refusal l user command comment) >>= λ _.
                settle_decision dir now l user command.decision comment idem)
          s
        ≡ done tt t
      → IsRecorded now tenant_id user id command comment idem s t
  unfolding ◌>>=◌
  live-IsRecorded l k e = elim (expire-cases now l s) [
    | inl live ↦
        refuse-IsRecorded l (refusal l user command comment) k (live-not_due now l s live) refl
          (rw live at e)
    | inr over ↦ absurd (not_done (rw over at e))
  ]
    where
      not_done :
          {x : ApprovalError} {u : Tables}
          → ◌≡◌ {A = Step (Unit {0})} (committed x u) (done tt t)
          → ⊥
      not_done q = cc

  pub decide_locked-IsRecorded :
      decide_locked dir now tenant_id user id command comment idem s ≡ done tt t
      → IsRecorded now tenant_id user id command comment idem s t
  unfolding decide_locked lock_for_decision ◌>>=◌
  decide_locked-IsRecorded e =
      elim (Option-cases (locked_of s.tickets tenant_id user (find_approval id s.approvals))) [
        | inl missing ↦ absurd (not_done (rw missing at e))
        | inr (l, found) ↦
            live-IsRecorded l (locked_of-some s tenant_id user id l found) (rw found at e)
      ]
    where
      not_done : {x : ApprovalError} → ◌≡◌ {A = Step (Unit {0})} (raised x) (done tt t) → ⊥
      not_done q = cc
