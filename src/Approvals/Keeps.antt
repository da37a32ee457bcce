-- ===== src/Approvals/Keeps.antt =====
-- Every operation of `ApprovalRepository` and `ApprovalEngine` keeps the approvals in order.
use helpdesk_agent.Prelude.{
  ℕ, ◌≡◌, refl, sym, ap, ◌∙◌, true, false, Option, none, some, List, [], ◌∷◌, any, length, arith,
  Bool-cases, inl, inr, ◌==◌, ok,
}
use helpdesk_agent.Approvals.Models.{
  ApprovalStatus, cancelled, expired, ApprovalTicket, Approval, LockedApproval, Transition,
  FactType, approval_expired, approval_cancelled,
}
use helpdesk_agent.Approvals.Tables.{
  Tables, ◌>>=◌, pure, record_fact, is_pending, close_if_pending, map_approval, expire_if_due,
  cancel_pending, cancel_rows, cancel_row, is_due, continue_workflow, continued, find_ticket,
  is_ticket, continues, record_cancelled, cancelled_ids, of_ticket,
}
use helpdesk_agent.Approvals.Invariant.{
  result_of, IsSettled, InOrder, Holds, Any, bind-Holds, map_approval-All, map_approval-Unique,
  map-All, map-Unique, cancel_rows-map,
}

pub record_fact-Holds :
    (type : FactType) (id version : ℕ) (s : Tables)
    → InOrder s
    → Holds Any (record_fact type id version s)
unfolding record_fact ◌>>=◌
record_fact-Holds type id version s h = (
  record { rows_settled = h.rows_settled; ids_unique = h.ids_unique; ids_issued = h.ids_issued },
  tt,
)

-- Closing a pending approval without a decision.
module _ (now : ℕ) (status : ApprovalStatus) (closed : is_pending status ≡ false)
    (silent : result_of status ≡ none) where
  pub close_if_pending-IsSettled :
      (a : Approval) → IsSettled a → IsSettled (close_if_pending now status a)
  close_if_pending-IsSettled a h = elim (Bool-cases (is_pending a.status)) [
    | inl open' ↦ rw open' (record {
      voters_unique = h.voters_unique;
      voted = h.voted ∙ ap ok (pending-result a.status open' ∙ sym silent);
      completion = rw closed refl;
    })
    | inr closed' ↦ rw closed' h
  ]
    where
      pending-result : (st : ApprovalStatus) → is_pending st ≡ true → result_of st ≡ none
      pending-result st p = ground arith

  close_if_pending-id : (a : Approval) → (close_if_pending now status a).approval_id ≡ a.approval_id
  close_if_pending-id a = ground arith

  pub close_row-InOrder :
      (id : ℕ) (s : Tables)
      → InOrder s
      → InOrder (record s { approvals = map_approval id (close_if_pending now status) s.approvals })
  close_row-InOrder id s h = record {
    rows_settled =
        map_approval-All id _ close_if_pending-id s.approvals
          (λ a _ k. close_if_pending-IsSettled a k) h.ids_unique h.rows_settled;
    ids_unique = map_approval-Unique id _ close_if_pending-id s.approvals h.ids_unique;
    ids_issued =
        map_approval-All id _ close_if_pending-id s.approvals
          (λ a _ k. rw (close_if_pending-id a) k) h.ids_unique h.ids_issued;
  }

pub expire_if_due-Holds :
    (now : ℕ) (a : LockedApproval) (s : Tables) → InOrder s → Holds Any (expire_if_due now a s)
unfolding expire_if_due ◌>>=◌
expire_if_due-Holds now a s h = elim (Bool-cases (is_due now a.expires_at)) [
  | inr early ↦ rw early (h, tt)
  | inl due ↦ elim (Bool-cases (is_pending a.status)) [
    | inr over ↦ rw (due, over) (h, tt)
    | inl waiting ↦
        rw (due, waiting)
          (bind-Holds Any Any (record_fact approval_expired a.approval_id 1) (λ _. pure true) _
            (record_fact-Holds approval_expired a.approval_id 1 _
              (close_row-InOrder now expired refl refl a.approval_id s h))
            λ _ t _ k. (k, tt))
  ]
]

continued-Holds :
    (a : LockedApproval) (transition : Option Transition) (t : Option ApprovalTicket) (s : Tables)
    → InOrder s
    → Holds Any (continued a transition t s)
continued-Holds a none t s h = tt
continued-Holds a (some transition) none s h = tt
continued-Holds a (some transition) (some t) s h = elim (Bool-cases (continues transition t)) [
  | inr stale ↦ rw stale tt
  | inl fits ↦ elim (Bool-cases (any (λ id. id == a.approval_id) s.workflow_outbox)) [
    | inl twice ↦ rw (fits, twice) tt
    | inr once ↦
        rw (fits, once)
          (
            record {
              rows_settled = h.rows_settled;
              ids_unique = h.ids_unique;
              ids_issued = h.ids_issued;
            },
            tt,
          )
  ]
]

pub continue_workflow-Holds :
    (transition_of : ℕ → Option Transition) (a : LockedApproval) (id : ℕ) (s : Tables)
    → InOrder s
    → Holds Any (continue_workflow transition_of a id s)
unfolding continue_workflow
continue_workflow-Holds transition_of a id s h =
    continued-Holds a (transition_of id) (find_ticket (is_ticket a.tenant_id a.ticket_id) s.tickets)
      s h

record_cancelled-Holds :
    (ids : List ℕ) (s : Tables) → InOrder s → Holds Any (record_cancelled ids s)
unfolding record_cancelled ◌>>=◌
record_cancelled-Holds [] s h = (h, tt)
record_cancelled-Holds (id ∷ ids) s h =
    bind-Holds Any Any (record_fact approval_cancelled id 1) (λ _. record_cancelled ids) s
      (record_fact-Holds approval_cancelled id 1 s h) λ _ t _ k. record_cancelled-Holds ids t k

module _ (now tenant_id ticket_id : ℕ) where
  cancel_row-id :
      (a : Approval) → (cancel_row now tenant_id ticket_id a).approval_id ≡ a.approval_id
  cancel_row-id a = elim (Bool-cases (of_ticket tenant_id ticket_id a)) [
    | inl hit ↦ rw hit (close_if_pending-id now cancelled refl refl a)
    | inr miss ↦ rw miss refl
  ]

  cancel_row-IsSettled :
      (a : Approval) → IsSettled a → IsSettled (cancel_row now tenant_id ticket_id a)
  cancel_row-IsSettled a h = elim (Bool-cases (of_ticket tenant_id ticket_id a)) [
    | inl hit ↦ rw hit (close_if_pending-IsSettled now cancelled refl refl a h)
    | inr miss ↦ rw miss h
  ]

  cancel_rows-InOrder :
      (s : Tables)
      → InOrder s
      → InOrder (record s { approvals = cancel_rows now tenant_id ticket_id s.approvals })
  cancel_rows-InOrder s h = rw (cancel_rows-map now tenant_id ticket_id s.approvals) (record {
    rows_settled = map-All _ s.approvals cancel_row-IsSettled h.rows_settled;
    ids_unique = map-Unique _ cancel_row-id s.approvals h.ids_unique;
    ids_issued = map-All _ s.approvals (λ a k. rw (cancel_row-id a) k) h.ids_issued;
  })

  pub cancel_pending-Holds :
      (s : Tables) → InOrder s → Holds Any (cancel_pending now tenant_id ticket_id s)
  unfolding cancel_pending ◌>>=◌
  cancel_pending-Holds s h =
      let ids = cancelled_ids tenant_id ticket_id s.approvals in
      bind-Holds Any Any (record_cancelled ids) (λ _. pure (length ids)) _
        (record_cancelled-Holds ids _ (cancel_rows-InOrder s h)) λ _ t _ k. (k, tt)
