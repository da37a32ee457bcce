-- ===== src/Approvals/Commits.antt =====
-- Which steps of `decide` may commit and then raise: the expiry alone.
use helpdesk_agent.Prelude.{
  ℕ, ◌≡◌, refl, ap, ◌∙◌, inl, inr, String, Bool, true, false, Option, none, some, any, Bool-cases,
  Option-cases, Result, ok, err, if◌then◌else◌, ◌==◌,
}
use helpdesk_agent.Approvals.Models.{
  ApprovalTicket, LockedApproval, Transition, Decision, expired, IdempotencyRecord,
}
use helpdesk_agent.Approvals.Tables.{
  ApprovalError, conflict, idempotency_conflict, Tables, Step, done, raised, committed, Work,
  then_work, ◌>>=◌, pure, raise, commit_raise, find_approval, map_approval, close_if_pending,
  continued, continues, continue_workflow, find_ticket, is_ticket, record_decision, record_fact,
  complete_idempotency, decision_counts, expire_if_due, locked_of, lock_for_decision, view_of,
  view_for_user, claim_idempotency, find_key,
}
use helpdesk_agent.Approvals.Service.{
  Directory, Command, stripped, is_foreign, or_raise, refuse, refusal, transition_for, follow_up,
  settle_decision, decide_locked, decide_once, answer,
}
use helpdesk_agent.Approvals.Settle.{expire-cases, find_approval-id}
use helpdesk_agent.Approvals.Decide.{locked_of-some}
use helpdesk_agent.Approvals.Keys.{claim-found}

-- The rows and tickets after an expiry, if the step ends in a commit and an exception.
abbrev pub Expires : {A : Type 0} → ℕ → ℕ → Tables → Step A → Type 0
Expires now id s (done a t) = Unit
Expires now id s (raised e) = Unit
Expires now id s (committed e t) =
    (e ≡ conflict)
    × (t.approvals ≡ map_approval id (close_if_pending now expired) s.approvals)
    × (t.tickets ≡ s.tickets)

-- The step ends in no commit.
abbrev Uncommitted : {A : Type 0} → Step A → Type 0
Uncommitted (done a t) = Unit
Uncommitted (raised e) = Unit
Uncommitted (committed e t) = ⊥

module _ {A B : Type 0} where
  then-Uncommitted :
      (r : Step A) (f : A → Work B)
      → Uncommitted r
      → ((a : A) (t : Tables) → Uncommitted (f a t))
      → Uncommitted (then_work r f)
  then-Uncommitted (done a t) f h k = k a t
  then-Uncommitted (raised e) f h k = tt
  then-Uncommitted (committed e t) f h k = h

  bind-Uncommitted :
      (m : Work A) (f : A → Work B) (s : Tables)
      → Uncommitted (m s)
      → ((a : A) (t : Tables) → Uncommitted (f a t))
      → Uncommitted ((m >>= f) s)
  unfolding ◌>>=◌
  bind-Uncommitted m f s h k = then-Uncommitted (m s) f h k

Uncommitted-Expires :
    {A : Type 0} (now id : ℕ) (s : Tables) (r : Step A) → Uncommitted r → Expires now id s r
Uncommitted-Expires now id s (done a t) h = tt
Uncommitted-Expires now id s (raised e) h = tt
Uncommitted-Expires now id s (committed e t) h = absurd h

continued-Uncommitted :
    (l : LockedApproval) (transition : Option Transition) (t : Option ApprovalTicket) (s : Tables)
    → Uncommitted (continued l transition t s)
continued-Uncommitted l none t s = tt
continued-Uncommitted l (some transition) none s = tt
continued-Uncommitted l (some transition) (some t) s = elim (Bool-cases (continues transition t)) [
  | inr stale ↦ rw stale tt
  | inl fits ↦ elim (Bool-cases (any (λ id. id == l.approval_id) s.workflow_outbox)) [
    | inl twice ↦ rw (fits, twice) tt
    | inr once ↦ rw (fits, once) tt
  ]
]

follow_up-Uncommitted :
    (dir : Directory) (l : LockedApproval) (terminal : Option Decision) (s : Tables)
    → Uncommitted (follow_up dir l terminal s)
unfolding ◌>>=◌ continue_workflow
follow_up-Uncommitted dir l none s = tt
follow_up-Uncommitted dir l (some d) s = elim (Option-cases (transition_for l d)) [
  | inl missing ↦ rw missing tt
  | inr (id, e) ↦ rw e (
      continued-Uncommitted l (dir.transition_of id)
        (find_ticket (is_ticket l.tenant_id l.ticket_id) s.tickets) s)
]

module _ (dir : Directory) (now user : ℕ) (l : LockedApproval) (d : Decision)
    (comment : Option String) (idem : IdempotencyRecord) where
  outcome-Uncommitted :
      (r : Result ApprovalError (Option Decision)) (s : Tables)
      → Uncommitted (
          (or_raise r >>= λ terminal. record_decision now l user d comment terminal >>= λ version.
          follow_up dir l terminal >>= λ _. complete_idempotency idem)
            s)
  unfolding record_decision record_fact complete_idempotency ◌>>=◌
  outcome-Uncommitted (err e) s = tt
  outcome-Uncommitted (ok terminal) s =
      bind-Uncommitted (record_decision now l user d comment terminal)
        (λ _. follow_up dir l terminal >>= λ _. complete_idempotency idem) s tt
        λ _ t.
          bind-Uncommitted (follow_up dir l terminal) (λ _. complete_idempotency idem) t
            (follow_up-Uncommitted dir l terminal t) λ _ u. tt

  refuse-Uncommitted :
      (e : Option ApprovalError) (s : Tables)
      → Uncommitted ((refuse e >>= λ _. settle_decision dir now l user d comment idem) s)
  unfolding settle_decision decision_counts ◌>>=◌
  refuse-Uncommitted (some e) s = tt
  refuse-Uncommitted none s = outcome-Uncommitted _ s

module _ (now id : ℕ) where
  moved-Expires :
      {A : Type 0} (s u : Tables) (r : Step A)
      → u.approvals ≡ s.approvals
      → u.tickets ≡ s.tickets
      → Expires now id u r
      → Expires now id s r
  moved-Expires s u (done a t) p q h = tt
  moved-Expires s u (raised e) p q h = tt
  moved-Expires s u (committed e t) p q h =
      (h.0, h.1 ∙ ap (map_approval id (close_if_pending now expired)) p, h.2 ∙ q)

  then-Expires :
      {A B : Type 0} (s : Tables) (r : Step A) (f : A → Work B)
      → Uncommitted r
      → ((a : A) (t : Tables) → r ≡ done a t → Expires now id s (f a t))
      → Expires now id s (then_work r f)
  then-Expires s (done a t) f h k = k a t refl
  then-Expires s (raised e) f h k = tt
  then-Expires s (committed e t) f h k = absurd h

  discard-Expires :
      {A : Type 0} (s : Tables) (r : Step (Unit {0})) (a : A)
      → Expires now id s r
      → Expires now id s (then_work r λ _. pure a)
  unfolding ◌>>=◌
  discard-Expires s (done _ t) a h = tt
  discard-Expires s (raised e) a h = tt
  discard-Expires s (committed e t) a h = h

module _ (dir : Directory) (now tenant_id user id : ℕ) (command : Command) where
  live-Expires :
      (comment : Option String) (idem : IdempotencyRecord) (s : Tables) (l : LockedApproval)
      → l.approval_id ≡ id
      → Expires now id s (
          (expire_if_due now l >>= λ has_expired.
          if has_expired
          then commit_raise conflict
          else refuse (refusal l user command comment) >>= λ _.
              settle_decision dir now l user command.decision comment idem)
            s)
  unfolding ◌>>=◌
  live-Expires comment idem s l own = elim (expire-cases now l s) [
    | inl live ↦ rw live (
        Uncommitted-Expires now id s _ (
          refuse-Uncommitted dir now user l command.decision comment idem
            (refusal l user command comment) s))
    | inr over ↦ rw (over, own) (refl, refl, refl)
  ]

  decide_locked-Expires :
      (comment : Option String) (idem : IdempotencyRecord) (s : Tables)
      → Expires now id s (decide_locked dir now tenant_id user id command comment idem s)
  unfolding decide_locked lock_for_decision ◌>>=◌
  decide_locked-Expires comment idem s =
      elim (Option-cases (locked_of s.tickets tenant_id user (find_approval id s.approvals))) [
        | inl missing ↦ rw missing tt
        | inr (l, found) ↦
            let k = locked_of-some s tenant_id user id l found in
            let own : l.approval_id ≡ id =
              rw k.is_view (find_approval-id id s.approvals k.row k.row_found) in
            rw found (live-Expires comment idem s l own)
      ]

  answer-Uncommitted :
      (s : Tables) → Uncommitted ((answer tenant_id id user >>= λ v. pure (some v)) s)
  unfolding answer view_for_user ◌>>=◌
  answer-Uncommitted s =
      elim (Option-cases (view_of tenant_id user (find_approval id s.approvals))) [
        | inl missing ↦ rw missing tt
        | inr (v, found) ↦ rw found tt
      ]

  claimed-Expires :
      (comment : Option String) (idem : IdempotencyRecord) (foreign replay : Bool) (s : Tables)
      → Expires now id s (
          (if foreign
              then raise idempotency_conflict
              else if replay
              then (answer tenant_id id user >>= λ v. pure (some v))
              else (decide_locked dir now tenant_id user id command comment idem >>= λ _.
                  pure none))
            s)
  unfolding ◌>>=◌
  claimed-Expires comment idem true replay s = tt
  claimed-Expires comment idem false true s = Uncommitted-Expires now id s _ (answer-Uncommitted s)
  claimed-Expires comment idem false false s =
      discard-Expires now id s (decide_locked dir now tenant_id user id command comment idem s) none
        (decide_locked-Expires comment idem s)

  claim-Uncommitted :
      (key : String) (hash : ℕ) (s : Tables)
      → Uncommitted (claim_idempotency tenant_id user key hash s)
  unfolding claim_idempotency
  claim-Uncommitted key hash s = elim (Option-cases (find_key tenant_id key s.idempotency)) [
    | inl new ↦ rw new tt
    | inr (r, old) ↦ rw old tt
  ]

  pub decide_once-Expires :
      (key : String) (s : Tables)
      → Expires now id s (decide_once dir now tenant_id user id command key s)
  unfolding decide_once ◌>>=◌
  decide_once-Expires key s =
      let comment = stripped dir.strip command.comment in
      let hash = dir.request_hash id command.decision command.expected_version comment in
      then-Expires now id s (claim_idempotency tenant_id user key hash s) _
        (claim-Uncommitted key hash s)
        λ idem u e.
          let (_, same, same_tickets) = claim-found tenant_id user key hash s u idem e in
          moved-Expires now id s u _ same same_tickets
            (claimed-Expires comment idem (is_foreign idem hash user) idem.completed u)
