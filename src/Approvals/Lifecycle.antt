-- ===== src/Approvals/Lifecycle.antt =====
-- The tables that requests, decisions and cancellations lead to.
use helpdesk_agent.Prelude.{
  ℕ, ◌≡◌, String, Bool, true, false, Option, none, some, Option-cases, inl, inr, Result, ok, err,
  if◌then◌else◌,
}
use helpdesk_agent.Approvals.Models.{ApprovalView, IdempotencyRecord}
use helpdesk_agent.Approvals.Tables.{
  ApprovalError, idempotency_conflict, Tables, Step, done, raised, committed, Work, ◌>>=◌, pure,
  raise, view_for_user, claim_idempotency, claimed, find_key, cancel_pending, find_approval,
  view_of,
}
use helpdesk_agent.Approvals.Service.{
  Directory, Command, stripped, is_foreign, answer, decide_locked, decide_once, ended, transaction,
  respond, decide, request,
}
use helpdesk_agent.Approvals.Invariant.{InOrder, Holds, Any, bind-Holds, if-Holds}
use helpdesk_agent.Approvals.Keeps.{cancel_pending-Holds}
use helpdesk_agent.Approvals.Request.{request-Holds}
use helpdesk_agent.Approvals.Settle.{decide_locked-Holds}

-- The transactions may see another directory each.
pub data Reach (s : Tables) : Tables → Type 0 where
  here : Reach s s
  requested :
      {t u : Tables}
      → Reach s t
      → (dir : Directory) (now tenant_id ticket_id : ℕ) (code : String) (r : Result ApprovalError ℕ)
      → transaction (request dir now tenant_id ticket_id code) t ≡ (r, u)
      → Reach s u
  decided :
      {t u : Tables}
      → Reach s t
      → (dir : Directory) (now : ℕ) (allowed : Bool) (identity : Option (ℕ × ℕ)) (id : ℕ)
        (command : Command) (key : String) (r : Result ApprovalError (ApprovalView × Bool))
      → decide dir now allowed identity id command key t ≡ (r, u)
      → Reach s u
  withdrawn :
      {t u : Tables}
      → Reach s t
      → (now tenant_id ticket_id : ℕ) (r : Result ApprovalError ℕ)
      → transaction (cancel_pending now tenant_id ticket_id) t ≡ (r, u)
      → Reach s u

pub ended-InOrder {ℓ} :
    {A : Type ℓ} (s : Tables) (r : Step A) → InOrder s → Holds Any r → InOrder (ended s r).1
ended-InOrder s (done a t) h k = k.0
ended-InOrder s (raised e) h k = h
ended-InOrder s (committed e t) h k = k

pub transaction-InOrder {ℓ} :
    {A : Type ℓ} (m : Work A) (s : Tables)
    → InOrder s
    → Holds Any (m s)
    → InOrder (transaction m s).1
unfolding transaction
transaction-InOrder m s h k = ended-InOrder s (m s) h k

answer-Holds :
    (tenant_id id user : ℕ) (s : Tables) → InOrder s → Holds Any (answer tenant_id id user s)
unfolding answer view_for_user ◌>>=◌
answer-Holds tenant_id id user s h =
    elim (Option-cases (view_of tenant_id user (find_approval id s.approvals))) [
      | inl missing ↦ rw missing tt
      | inr (v, found) ↦ rw found (h, tt)
    ]

claimed-Holds :
    (fresh : IdempotencyRecord) (o : Option IdempotencyRecord) (s : Tables)
    → InOrder s
    → Holds Any (claimed fresh o s)
claimed-Holds fresh (some r) s h = (h, tt)
claimed-Holds fresh none s h = (
  record { rows_settled = h.rows_settled; ids_unique = h.ids_unique; ids_issued = h.ids_issued },
  tt,
)

module _ (dir : Directory) (now tenant_id user id : ℕ) (command : Command) (key : String) where
  claimed_key-Holds :
      (hash : ℕ) (comment : Option String) (idem : IdempotencyRecord) (s : Tables)
      → InOrder s
      → Holds Any (
          (if is_foreign idem hash user
              then raise idempotency_conflict
              else if idem.completed
              then (answer tenant_id id user >>= λ v. pure (some v))
              else (decide_locked dir now tenant_id user id command comment idem >>= λ _.
                  pure none))
            s)
  unfolding ◌>>=◌
  claimed_key-Holds hash comment idem s h = if-Holds Any (is_foreign idem hash user) _ _ s tt (
      if-Holds Any idem.completed _ _ s
        (bind-Holds Any Any (answer tenant_id id user) (λ v. pure (some v)) s
          (answer-Holds tenant_id id user s h) λ _ t _ k. (k, tt))
        (bind-Holds Any Any (decide_locked dir now tenant_id user id command comment idem)
          (λ _. pure none) s
          (decide_locked-Holds dir now tenant_id user id command comment idem s h)
          λ _ t _ k. (k, tt)))

  decide_once-Holds :
      (s : Tables) → InOrder s → Holds Any (decide_once dir now tenant_id user id command key s)
  unfolding decide_once claim_idempotency
  decide_once-Holds s h =
      let comment = stripped dir.strip command.comment in
      let hash = dir.request_hash id command.decision command.expected_version comment in
      bind-Holds Any Any (claim_idempotency tenant_id user key hash) _ s
        (claimed-Holds _ (find_key tenant_id key s.idempotency) s h)
        λ idem t _ k. claimed_key-Holds hash comment idem t k

respond-InOrder :
    (tenant_id id user : ℕ) (r : Result ApprovalError (Option ApprovalView)) (s : Tables)
    → InOrder s
    → InOrder (respond tenant_id id user (r, s)).1
respond-InOrder tenant_id id user (ok (some v)) s h = h
respond-InOrder tenant_id id user (ok none) s h =
    transaction-InOrder (answer tenant_id id user) s h (answer-Holds tenant_id id user s h)
respond-InOrder tenant_id id user (err e) s h = h

decide-InOrder :
    (dir : Directory) (now : ℕ) (allowed : Bool) (identity : Option (ℕ × ℕ)) (id : ℕ)
    (command : Command) (key : String) (s : Tables)
    → InOrder s
    → InOrder (decide dir now allowed identity id command key s).1
unfolding decide
decide-InOrder dir now false identity id command key s h = h
decide-InOrder dir now true none id command key s h = h
decide-InOrder dir now true (some (tenant_id, user)) id command key s h =
    let m = decide_once dir now tenant_id user id command key in
    respond-InOrder tenant_id id user (transaction m s).0 (transaction m s).1
      (transaction-InOrder m s h (decide_once-Holds dir now tenant_id user id command key s h))

-- From tables in order, whatever is requested, decided and cancelled, whether it returns or raises:
-- in every approval nobody is asked twice, its status is the outcome that the recorded votes have
-- under its mode (approved or rejected exactly when they decide, and undecided votes while it is
-- pending, cancelled or expired), it has a completion time exactly when it is not pending, and
-- identities stay unique.
pub Reach-InOrder : {s t : Tables} → InOrder s → Reach s t → InOrder t
Reach-InOrder h here = h
Reach-InOrder {s} h (requested {t} {u} w dir now tenant_id ticket_id code r e) =
    let k = Reach-InOrder h w in
    rw e at (
      transaction-InOrder (request dir now tenant_id ticket_id code) t k
        (request-Holds dir now tenant_id code ticket_id t k))
Reach-InOrder {s} h (decided {t} {u} w dir now allowed identity id command key r e) =
    rw e at (decide-InOrder dir now allowed identity id command key t (Reach-InOrder h w))
Reach-InOrder {s} h (withdrawn {t} {u} w now tenant_id ticket_id r e) =
    let k = Reach-InOrder h w in
    rw e at (
      transaction-InOrder (cancel_pending now tenant_id ticket_id) t k
        (cancel_pending-Holds now tenant_id ticket_id t k))
