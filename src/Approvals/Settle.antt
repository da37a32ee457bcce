-- ===== src/Approvals/Settle.antt =====
-- The transaction of a decision keeps the approvals in order.
use helpdesk_agent.Prelude.{
  ℕ, ◌+◌, ◌≡◌, refl, sym, ap, ◌∙◌, ◌⊎◌, String, true, false, not, ◌&&◌, Option, none, some, List,
  [], ◌∷◌, arith, Bool-cases, Option-cases, inl, inr, ◌==◌, ==_iff, Result, ok, err, if◌then◌else◌,
}
use helpdesk_agent.Approvals.Models.{
  expired, Decision, Approval, LockedApproval, IdempotencyRecord, approval_decided,
  approval_expired,
}
use helpdesk_agent.Approvals.Tables.{
  ApprovalError, conflict, Tables, done, ◌>>=◌, commit_raise, pure, is_approval, record_fact,
  is_pending, find_approval, map_approval, expire_if_due, is_due, decided_approval, record_decision,
  locked_of, lock_for_decision, decision_counts, complete_idempotency, with_fact, close_if_pending,
}
use helpdesk_agent.Approvals.Service.{
  is_some, is_reject, comment_required, Directory, Command, refusal, settle_decision, decide_locked,
  follow_up, transition_for,
}
use helpdesk_agent.Approvals.Invariant.{
  IsSettled, InOrder, Holds, Any, bind-Holds, map_approval-All, map_approval-Unique,
}
use helpdesk_agent.Approvals.Keeps.{record_fact-Holds, continue_workflow-Holds, close_row-InOrder}
use helpdesk_agent.Approvals.Service.{refuse, or_raise}
use helpdesk_agent.Approvals.Decide.{
  counted_outcome, next_outcome, decided_approval-IsSettled, decided_approval-id, IsLocked,
  locked_of-some,
}

-- What the guards of `decide` let through.
pub record IsAllowed (l : LockedApproval) (user : ℕ) (command : Command) (comment : Option String)
    : Type 0 where
  pub waiting : is_pending l.status ≡ true
  pub current : l.row_version ≡ command.expected_version
  pub idle : l.existing_decision ≡ none
  pub not_own : (not l.allow_requester_self_approval && l.requester_user_id == user) ≡ false
  pub commented :
      (is_reject command.decision && (comment_required l.approver_rule && not (is_some comment)))
      ≡ false

is_some-none : (o : Option Decision) → is_some o ≡ false → o ≡ none
is_some-none none h = refl
is_some-none (some d) h = cc

pub refusal-IsAllowed :
    (l : LockedApproval) (user : ℕ) (command : Command) (comment : Option String)
    → refusal l user command comment ≡ none
    → IsAllowed l user command comment
unfolding refusal
refusal-IsAllowed l user command comment h = record {
  waiting = ground arith;
  current = ground arith;
  idle = is_some-none l.existing_decision (ground arith);
  not_own = ground arith;
  commented = ground arith;
}

some_inj : {x y : Approval} → some x ≡ some y → x ≡ y
some_inj e = cc

pub find_approval-id :
    (id : ℕ) (rows : List Approval) (a : Approval)
    → find_approval id rows ≡ some a
    → a.approval_id ≡ id
find_approval-id id [] a h = cc
find_approval-id id (r ∷ rows) a h = elim (Bool-cases (is_approval id r)) [
  | inl here ↦
      ap (λ x. x.approval_id) (some_inj (sym (rw here at h))) ∙ (==_iff r.approval_id id).0 here
  | inr there ↦ find_approval-id id rows a (rw there at h)
]

pub complete_idempotency-Holds :
    (r : IdempotencyRecord) (s : Tables) → InOrder s → Holds Any (complete_idempotency r s)
unfolding complete_idempotency ◌>>=◌
complete_idempotency-Holds r s h = (
  record { rows_settled = h.rows_settled; ids_unique = h.ids_unique; ids_issued = h.ids_issued },
  tt,
)

follow_up-Holds :
    (dir : Directory) (l : LockedApproval) (terminal : Option Decision) (s : Tables)
    → InOrder s
    → Holds Any (follow_up dir l terminal s)
unfolding ◌>>=◌
follow_up-Holds dir l none s h = (h, tt)
follow_up-Holds dir l (some d) s h = elim (Option-cases (transition_for l d)) [
  | inl missing ↦ rw missing tt
  | inr (id, e) ↦ rw e (continue_workflow-Holds dir.transition_of l id s h)
]

module _ (dir : Directory) (now tenant_id user id : ℕ) (d : Decision) (comment : Option String)
    (s : Tables) (h : InOrder s) (l : LockedApproval) (k : IsLocked s tenant_id id user l)
    (waiting : is_pending l.status ≡ true) (idle : l.existing_decision ≡ none) where
  same_row : l.approval_id ≡ id
  same_row = rw k.is_view (find_approval-id id s.approvals k.row k.row_found)

  row_settles :
      (terminal : Option Decision) (a : Approval)
      → next_outcome d k.row ≡ ok terminal
      → find_approval l.approval_id s.approvals ≡ some a
      → IsSettled a
      → IsSettled (decided_approval now user d comment terminal a)
  row_settles terminal a e f m =
      let same : k.row ≡ a = some_inj (sym k.row_found ∙ (rw same_row at f)) in
      decided_approval-IsSettled now user d comment a m (rw (k.is_view, same) at waiting) k.voter
        (rw same at k.voter_found) (rw k.is_view at idle) terminal (rw same at e)

  decided_rows-InOrder :
      (terminal : Option Decision)
      → next_outcome d k.row ≡ ok terminal
      → InOrder (record s {
        approvals =
            map_approval l.approval_id (decided_approval now user d comment terminal) s.approvals;
      })
  decided_rows-InOrder terminal e =
      let f = decided_approval now user d comment terminal in
      let keeps = decided_approval-id now user d comment terminal in
      record {
        rows_settled =
            map_approval-All l.approval_id f keeps s.approvals
              (λ a f m. row_settles terminal a e f m) h.ids_unique h.rows_settled;
        ids_unique = map_approval-Unique l.approval_id f keeps s.approvals h.ids_unique;
        ids_issued =
            map_approval-All l.approval_id f keeps s.approvals (λ a _ m. rw (keeps a) m)
              h.ids_unique h.ids_issued;
      }

  record_decision-Holds :
      (terminal : Option Decision)
      → next_outcome d k.row ≡ ok terminal
      → Holds Any (record_decision now l user d comment terminal s)
  unfolding record_decision ◌>>=◌
  record_decision-Holds terminal e =
      bind-Holds Any Any (record_fact approval_decided l.approval_id (l.row_version + 1))
        (λ _. pure (l.row_version + 1)) _
        (record_fact-Holds approval_decided l.approval_id (l.row_version + 1) _
          (decided_rows-InOrder terminal e))
        λ _ t _ m. (m, tt)

  outcome-Holds :
      (idem : IdempotencyRecord) (r : Result ApprovalError (Option Decision))
      → next_outcome d k.row ≡ r
      → Holds Any (
          (or_raise r >>= λ terminal. record_decision now l user d comment terminal >>= λ version.
          follow_up dir l terminal >>= λ _. complete_idempotency idem)
            s)
  unfolding ◌>>=◌
  outcome-Holds idem (err e) q = tt
  outcome-Holds idem (ok terminal) q =
      bind-Holds Any Any (record_decision now l user d comment terminal) _ s
        (record_decision-Holds terminal q)
        λ _ t _ m.
          bind-Holds Any Any (follow_up dir l terminal) _ t (follow_up-Holds dir l terminal t m)
            λ _ u _ n. complete_idempotency-Holds idem u n

  settle_decision-Holds :
      (idem : IdempotencyRecord) → Holds Any (settle_decision dir now l user d comment idem s)
  unfolding settle_decision decision_counts ◌>>=◌
  settle_decision-Holds idem =
      let found : find_approval l.approval_id s.approvals ≡ some k.row = rw same_row k.row_found in
      let mode : k.row.definition.mode ≡ l.mode = rw k.is_view refl in
      rw found (
        outcome-Holds idem (counted_outcome l.mode d k.row.approvers)
          (ap (λ m. counted_outcome m d k.row.approvers) mode))

-- The tables once the approval has expired.
abbrev pub expired_tables : ℕ → ℕ → Tables → Tables
expired_tables now id s =
    with_fact (record { fact_type = approval_expired; fact_approval_id = id; fact_version = 1 })
      (record s { approvals = map_approval id (close_if_pending now expired) s.approvals })

expired_tables-InOrder : (now id : ℕ) (s : Tables) → InOrder s → InOrder (expired_tables now id s)
expired_tables-InOrder now id s h =
    let k = close_row-InOrder now expired refl refl id s h in
    record { rows_settled = k.rows_settled; ids_unique = k.ids_unique; ids_issued = k.ids_issued }

-- `expire_if_due` either leaves the tables alone or closes the approval.
pub expire-cases :
    (now : ℕ) (l : LockedApproval) (s : Tables)
    → (expire_if_due now l s ≡ done false s)
      ⊎ (expire_if_due now l s ≡ done true (expired_tables now l.approval_id s))
unfolding expire_if_due record_fact ◌>>=◌
expire-cases now l s = elim (Bool-cases (is_due now l.expires_at)) [
  | inr early ↦ inl (rw early refl)
  | inl due ↦ elim (Bool-cases (is_pending l.status)) [
    | inr over ↦ inl (rw (due, over) refl)
    | inl waiting ↦ inr (rw (due, waiting) refl)
  ]
]

-- A pending approval that `expire_if_due` leaves alone has not expired.
pub live-not_due :
    (now : ℕ) (l : LockedApproval) (s : Tables)
    → expire_if_due now l s ≡ done false s
    → is_pending l.status ≡ true
    → is_due now l.expires_at ≡ false
unfolding expire_if_due record_fact ◌>>=◌
live-not_due now l s e waiting = elim (Bool-cases (is_due now l.expires_at)) [
  | inr early ↦ early
  | inl due ↦ absurd (cc (rw (due, waiting) at e))
]

module _ (dir : Directory) (now tenant_id user id : ℕ) (command : Command) (comment : Option String)
    (idem : IdempotencyRecord) (s : Tables) (h : InOrder s) where
  allowed-Holds :
      (l : LockedApproval) (e : Option ApprovalError)
      → IsLocked s tenant_id id user l
      → refusal l user command comment ≡ e
      → Holds Any
          ((refuse e >>= λ _. settle_decision dir now l user command.decision comment idem) s)
  unfolding ◌>>=◌
  allowed-Holds l (some e) k q = tt
  allowed-Holds l none k q =
      let a = refusal-IsAllowed l user command comment q in
      settle_decision-Holds dir now tenant_id user id command.decision comment s h l k a.waiting
        a.idle idem

  locked-Holds :
      (l : LockedApproval)
      → IsLocked s tenant_id id user l
      → Holds Any (
          (expire_if_due now l >>= λ has_expired.
          if has_expired
          then commit_raise conflict
          else refuse (refusal l user command comment) >>= λ _.
              settle_decision dir now l user command.decision comment idem)
            s)
  unfolding ◌>>=◌
  locked-Holds l k = elim (expire-cases now l s) [
    | inl live ↦ rw live (allowed-Holds l (refusal l user command comment) k refl)
    | inr over ↦ rw over (expired_tables-InOrder now l.approval_id s h)
  ]

  pub decide_locked-Holds :
      Holds Any (decide_locked dir now tenant_id user id command comment idem s)
  unfolding decide_locked lock_for_decision ◌>>=◌
  decide_locked-Holds =
      elim (Option-cases (locked_of s.tickets tenant_id user (find_approval id s.approvals))) [
        | inl missing ↦ rw missing tt
        | inr (l, found) ↦ rw found (locked-Holds l (locked_of-some s tenant_id user id l found))
      ]
