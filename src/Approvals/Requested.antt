-- ===== src/Approvals/Requested.antt =====
-- What a request that succeeds has written.
use helpdesk_agent.Prelude.{
  ℕ, ◌≡◌, refl, sym, ap, ◌∙◌, String, true, false, not, ◌&&◌, Option, none, some, List, [], ◌∷◌,
  ◌++◌, any, arith, Bool-cases, inl, inr, Result, ok, err, if◌then◌else◌,
}
use helpdesk_agent.Approvals.Models.{Approval, ApprovalTicket, ApprovalDefinition}
use helpdesk_agent.Approvals.Tables.{
  ApprovalError, configuration_error, Tables, Step, done, raised, committed, ◌>>=◌, raise, ticket,
  find_ticket, is_ticket, requester, is_approval, find_approval, new_approval, pending_of,
  insert_approval, record_fact, create,
}
use helpdesk_agent.Approvals.Service.{
  Directory, resolve, request, transaction, ended, need, or_raise, contains_id,
}
use helpdesk_agent.Approvals.Invariant.{InOrder}
use helpdesk_agent.Approvals.Panel.{IsPanel, resolve-IsPanel}
use helpdesk_agent.Approvals.Request.{fresh_id}
use helpdesk_agent.Approvals.Recorded.{rows_at}

find_approval-snoc :
    (id : ℕ) (rows : List Approval) (a : Approval)
    → any (is_approval id) rows ≡ false
    → is_approval id a ≡ true
    → find_approval id (rows ++ a ∷ []) ≡ some a
find_approval-snoc id [] a h k = rw k refl
find_approval-snoc id (r ∷ rows) a h k = ground (arith, find_approval-snoc id rows a)

abbrev issued_at : Step ℕ → ℕ
issued_at (done id t) = id
issued_at _ = 0

-- A new approval in the tables of a request.
pub record IsRequest (dir : Directory) (now tenant_id ticket_id : ℕ) (code : String) (s : Tables)
    (id : ℕ) (t : Tables) : Type 0 where
  pub of_ticket : ApprovalTicket
  pub definition : ApprovalDefinition
  pub approver_ids : List ℕ
  pub ticket_found : find_ticket (is_ticket tenant_id ticket_id) s.tickets ≡ some of_ticket
  pub definition_found :
      dir.published_definition tenant_id of_ticket.project_id code ≡ some definition
  pub resolved : resolve dir of_ticket definition ≡ ok approver_ids
  pub panel : IsPanel definition.mode approver_ids
  pub not_own :
      (not definition.allow_requester_self_approval
        && contains_id (requester of_ticket) approver_ids)
      ≡ false
  pub only_pending :
      any (pending_of of_ticket.ticket_id definition.definition_id) s.approvals ≡ false
  pub approvals_after :
      t.approvals ≡ s.approvals ++ new_approval now of_ticket definition approver_ids id ∷ []
  pub approval_found :
      find_approval id t.approvals ≡ some (new_approval now of_ticket definition approver_ids id)

module _ (dir : Directory) (now tenant_id ticket_id : ℕ) (code : String) (s : Tables)
    (h : InOrder s) (id : ℕ) (t : Tables) where
  created-IsRequest :
      (b : ApprovalTicket) (d : ApprovalDefinition) (ids : List ℕ)
      → find_ticket (is_ticket tenant_id ticket_id) s.tickets ≡ some b
      → dir.published_definition tenant_id b.project_id code ≡ some d
      → resolve dir b d ≡ ok ids
      → (if not d.allow_requester_self_approval && contains_id (requester b) ids
            then raise configuration_error
            else create now b d ids)
          s
        ≡ done id t
      → IsRequest dir now tenant_id ticket_id code s id t
  unfolding create insert_approval record_fact ◌>>=◌
  created-IsRequest b d ids f1 f2 f3 e =
      elim (Bool-cases (not d.allow_requester_self_approval && contains_id (requester b) ids)) [
        | inl own ↦ absurd (clash (rw own at e))
        | inr other ↦ elim (Bool-cases (any (pending_of b.ticket_id d.definition_id) s.approvals)) [
          | inl twice ↦ absurd (clash (rw (other, twice) at e))
          | inr first ↦
              let made = rw (other, first) at e in
              let named : s.next_id ≡ id = ap issued_at made in
              let a = new_approval now b d ids id in
              let after : t.approvals ≡ s.approvals ++ a ∷ [] =
                sym (ap rows_at made)
                ∙ ap (λ n. s.approvals ++ new_approval now b d ids n ∷ []) named in
              record {
                of_ticket = b;
                definition = d;
                approver_ids = ids;
                ticket_found = f1;
                definition_found = f2;
                resolved = f3;
                panel = resolve-IsPanel dir b d ids f3;
                not_own = other;
                only_pending = first;
                approvals_after = after;
                approval_found = rw after (
                    find_approval-snoc id s.approvals a
                      (fresh_id a s.next_id s.approvals (sym named) h.ids_issued) (ground arith));
              }
        ]
      ]
    where
      clash : {x : ApprovalError} → raised x ≡ done id t → ⊥
      clash q = cc

  resolved-IsRequest :
      (b : ApprovalTicket) (d : ApprovalDefinition) (r : Result ApprovalError (List ℕ))
      → find_ticket (is_ticket tenant_id ticket_id) s.tickets ≡ some b
      → dir.published_definition tenant_id b.project_id code ≡ some d
      → resolve dir b d ≡ r
      → (or_raise r >>= λ approvers.
            if not d.allow_requester_self_approval && contains_id (requester b) approvers
            then raise configuration_error
            else create now b d approvers)
          s
        ≡ done id t
      → IsRequest dir now tenant_id ticket_id code s id t
  unfolding ◌>>=◌
  resolved-IsRequest b d (err x) f1 f2 f3 e = cc
  resolved-IsRequest b d (ok ids) f1 f2 f3 e = created-IsRequest b d ids f1 f2 f3 e

  defined-IsRequest :
      (b : ApprovalTicket) (d : Option ApprovalDefinition)
      → find_ticket (is_ticket tenant_id ticket_id) s.tickets ≡ some b
      → dir.published_definition tenant_id b.project_id code ≡ d
      → (need configuration_error d >>= λ definition.
            or_raise (resolve dir b definition) >>= λ approvers.
            if not definition.allow_requester_self_approval && contains_id (requester b) approvers
            then raise configuration_error
            else create now b definition approvers)
          s
        ≡ done id t
      → IsRequest dir now tenant_id ticket_id code s id t
  unfolding ◌>>=◌
  defined-IsRequest b none f1 f2 e = cc
  defined-IsRequest b (some d) f1 f2 e = resolved-IsRequest b d (resolve dir b d) f1 f2 refl e

  ticketed-IsRequest :
      (b : Option ApprovalTicket)
      → find_ticket (is_ticket tenant_id ticket_id) s.tickets ≡ b
      → (need configuration_error b >>= λ b'.
            need configuration_error (dir.published_definition tenant_id b'.project_id code)
            >>= λ definition. or_raise (resolve dir b' definition) >>= λ approvers.
                if not definition.allow_requester_self_approval
                  && contains_id (requester b') approvers
                then raise configuration_error
                else create now b' definition approvers)
          s
        ≡ done id t
      → IsRequest dir now tenant_id ticket_id code s id t
  unfolding ◌>>=◌
  ticketed-IsRequest none f e = cc
  ticketed-IsRequest (some b) f e =
      defined-IsRequest b (dir.published_definition tenant_id b.project_id code) f refl e

  request-IsRequest :
      request dir now tenant_id ticket_id code s ≡ done id t
      → IsRequest dir now tenant_id ticket_id code s id t
  unfolding request ticket ◌>>=◌
  request-IsRequest e =
      ticketed-IsRequest (find_ticket (is_ticket tenant_id ticket_id) s.tickets) refl e

ended-done :
    (s : Tables) (r : Step ℕ) (id : ℕ) (t : Tables) → ended s r ≡ (ok id, t) → r ≡ done id t
ended-done s (done a u) id t e = cc
ended-done s (raised x) id t e = cc
ended-done s (committed x u) id t e = cc

-- From tables in order, a request that returns an identity found the ticket and the published
-- definition, asks approvers of whom none is named twice and, unless that is allowed, none is the
-- requester, and whose votes decide nothing before one is cast; the ticket had no pending approval
-- of the definition, and the only change of the approvals is the new one, which the identity finds.
pub request-recorded :
    (dir : Directory) (now tenant_id ticket_id : ℕ) (code : String) (s : Tables) (id : ℕ)
    (t : Tables)
    → InOrder s
    → transaction (request dir now tenant_id ticket_id code) s ≡ (ok id, t)
    → IsRequest dir now tenant_id ticket_id code s id t
unfolding transaction
request-recorded dir now tenant_id ticket_id code s id t h e =
    request-IsRequest dir now tenant_id ticket_id code s h id t
      (ended-done s (request dir now tenant_id ticket_id code s) id t e)
