-- ===== src/Approvals/Request.antt =====
-- A request keeps the approvals in order.
use helpdesk_agent.Prelude.{
  ℕ, suc, ◌+◌, ◌<◌, ◌≡◌, refl, ap, ◌∙◌, String, false, not, ◌&&◌, Option, none, some, List, [], ◌∷◌,
  any, length, arith, Unique, Unique-snoc, All, All-map, All-snoc, Bool-cases, Option-cases, inl,
  inr, Result, ok, err, if◌then◌else◌,
}
use helpdesk_agent.Approvals.Models.{
  Decision, approve, reject, ApprovalDefinition, ApprovalTicket, Approval, approval_requested,
}
use helpdesk_agent.Approvals.Tables.{
  ApprovalError, configuration_error, Tables, ◌>>=◌, pure, raise, is_approver, record_fact,
  new_approvers, new_approval, insert_approval, create, count_decided, pending_of, ticket,
  find_ticket, is_ticket, requester, is_decision,
}
use helpdesk_agent.Approvals.Service.{Directory, resolve, contains_id, need, or_raise, request}
use helpdesk_agent.Approvals.Votes.{same_voter}
use helpdesk_agent.Approvals.Invariant.{IsSettled, same_id, InOrder, Holds, Any, bind-Holds}
use helpdesk_agent.Approvals.Keeps.{record_fact-Holds}
use helpdesk_agent.Approvals.Panel.{same_user, IsPanel, resolve-IsPanel}

length-new_approvers : (n : ℕ) (ids : List ℕ) → length (new_approvers n ids) ≡ length ids
length-new_approvers n [] = refl
length-new_approvers n (id ∷ ids) = ap suc (length-new_approvers (n + 1) ids)

any-new_approvers :
    (id n : ℕ) (ids : List ℕ) → any (is_approver id) (new_approvers n ids) ≡ contains_id id ids
any-new_approvers id n [] = refl
any-new_approvers id n (x ∷ ids) = rw (any-new_approvers id (n + 1) ids) refl

new_approvers-Unique :
    (n : ℕ) (ids : List ℕ) → Unique same_user ids → Unique same_voter (new_approvers n ids)
new_approvers-Unique n [] u = tt
new_approvers-Unique n (id ∷ ids) u =
    (any-new_approvers id (n + 1) ids ∙ u.0, new_approvers-Unique (n + 1) ids u.1)

undecided : (d : Decision) → is_decision d none ≡ false
undecided approve = refl
undecided reject = refl

count-new_approvers :
    (d : Decision) (n : ℕ) (ids : List ℕ) → count_decided d (new_approvers n ids) ≡ 0
count-new_approvers d n [] = refl
count-new_approvers d n (id ∷ ids) = rw (undecided d) (count-new_approvers d (n + 1) ids)

new_approval-IsSettled :
    (now : ℕ) (t : ApprovalTicket) (d : ApprovalDefinition) (ids : List ℕ) (id : ℕ)
    → IsPanel d.mode ids
    → IsSettled (new_approval now t d ids id)
new_approval-IsSettled now t d ids id p = record {
  voters_unique = new_approvers-Unique 1 ids p.once;
  voted =
      rw
        (
          length-new_approvers 1 ids,
          count-new_approvers approve 1 ids,
          count-new_approvers reject 1 ids,
        )
        p.open_vote;
  completion = refl;
}

same_id_comm : (a b : Approval) → same_id a b ≡ same_id b a
same_id_comm a b = ground arith

-- An identity that is not issued yet is no row's.
pub fresh_id :
    (a : Approval) (n : ℕ) (rows : List Approval)
    → a.approval_id ≡ n
    → All (λ r. r.approval_id < n) rows
    → any (same_id a) rows ≡ false
fresh_id a n [] e h = refl
fresh_id a n (r ∷ rows) e h = ground (arith, fresh_id a n rows e h.1)

module _ (now : ℕ) (t : ApprovalTicket) (d : ApprovalDefinition) (ids : List ℕ)
    (p : IsPanel d.mode ids) where
  insert_approval-Holds : (s : Tables) → InOrder s → Holds Any (insert_approval now t d ids s)
  unfolding insert_approval
  insert_approval-Holds s h =
      elim (Bool-cases (any (pending_of t.ticket_id d.definition_id) s.approvals)) [
        | inl twice ↦ rw twice tt
        | inr first ↦
            let a = new_approval now t d ids s.next_id in
            rw first (
              record {
                rows_settled =
                    All-snoc IsSettled s.approvals a h.rows_settled
                      (new_approval-IsSettled now t d ids s.next_id p);
                ids_unique =
                    Unique-snoc same_id same_id_comm s.approvals a
                      (fresh_id a s.next_id s.approvals refl h.ids_issued) h.ids_unique;
                ids_issued =
                    All-snoc (λ r. r.approval_id < s.next_id + 1) s.approvals a
                      (All-map s.approvals (λ r k. omega (arith, k)) h.ids_issued) (omega arith);
              },
              tt,
            )
      ]

  create-Holds : (s : Tables) → InOrder s → Holds Any (create now t d ids s)
  unfolding create ◌>>=◌
  create-Holds s h =
      bind-Holds Any Any (insert_approval now t d ids) _ s (insert_approval-Holds s h) λ id u _ k.
        bind-Holds Any Any (record_fact approval_requested id 1) (λ _. pure id) u
          (record_fact-Holds approval_requested id 1 u k) λ _ v _ l. (l, tt)

-- What is requested for a ticket and a definition that were found.
request_of-Holds :
    (dir : Directory) (now : ℕ) (t : ApprovalTicket) (d : ApprovalDefinition)
    (r : Result ApprovalError (List ℕ)) (s : Tables)
    → resolve dir t d ≡ r
    → InOrder s
    → Holds Any (
        (or_raise r >>= λ approvers.
        if not d.allow_requester_self_approval && contains_id (requester t) approvers
        then raise configuration_error
        else create now t d approvers)
          s)
unfolding ◌>>=◌
request_of-Holds dir now t d (err e) s q h = tt
request_of-Holds dir now t d (ok ids) s q h =
    elim (Bool-cases (not d.allow_requester_self_approval && contains_id (requester t) ids)) [
      | inl own ↦ rw own tt
      | inr other ↦ rw other (create-Holds now t d ids (resolve-IsPanel dir t d ids q) s h)
    ]

module _ (dir : Directory) (now tenant_id : ℕ) (code : String) where
  defined-Holds :
      (t : ApprovalTicket) (d : Option ApprovalDefinition) (s : Tables)
      → InOrder s
      → Holds Any (
          (need configuration_error d >>= λ definition.
          or_raise (resolve dir t definition) >>= λ approvers.
          if not definition.allow_requester_self_approval && contains_id (requester t) approvers
          then raise configuration_error
          else create now t definition approvers)
            s)
  unfolding ◌>>=◌
  defined-Holds t none s h = tt
  defined-Holds t (some d) s h = request_of-Holds dir now t d (resolve dir t d) s refl h

  pub request-Holds :
      (ticket_id : ℕ) (s : Tables)
      → InOrder s
      → Holds Any (request dir now tenant_id ticket_id code s)
  unfolding request ticket ◌>>=◌
  request-Holds ticket_id s h =
      elim (Option-cases (find_ticket (is_ticket tenant_id ticket_id) s.tickets)) [
        | inl missing ↦ rw missing tt
        | inr (t, found) ↦
            rw found (defined-Holds t (dir.published_definition tenant_id t.project_id code) s h)
      ]
