-- ===== src/Approvals/Decide.antt =====
-- A decision keeps the approvals in order, on every branch.
use helpdesk_agent.Prelude.{
  ℕ, ◌≡◌, refl, sym, ap, ◌∙◌, String, true, false, not, Option, none, some, List, length, arith,
  Bool-cases, Option-cases, inl, inr, ◌==◌, Result, ok,
}
use helpdesk_agent.Approvals.Models.{
  ApprovalMode, ApprovalStatus, Decision, approve, reject, ApprovalTicket, Approver, Approval,
  LockedApproval,
}
use helpdesk_agent.Approvals.Tables.{
  ApprovalError, Tables, count_decided, is_pending, find_approver, find_approval, decided_approval,
  status_of, decide_rows, locked, locked_of, locked_row, find_ticket, is_decision,
}
use helpdesk_agent.Approvals.Service.{terminal_status, add_if, is_reject}
use helpdesk_agent.Approvals.Votes.{length-decide_rows, decide_rows-Unique, count-decide_rows}
use helpdesk_agent.Approvals.Invariant.{result_of, outcome, IsSettled}

-- The outcome once the vote that `settle_decision` adds to the recorded ones is counted.
abbrev pub counted_outcome :
    ApprovalMode → Decision → List Approver → Result ApprovalError (Option Decision)
counted_outcome mode d rows =
    terminal_status mode (length rows) (add_if (not (is_reject d)) (count_decided approve rows))
      (add_if (is_reject d) (count_decided reject rows))

abbrev pub next_outcome : Decision → Approval → Result ApprovalError (Option Decision)
next_outcome d a = counted_outcome a.definition.mode d a.approvers

is_decision_approve : (d : Decision) → is_decision approve (some d) ≡ not (is_reject d)
is_decision_approve approve = refl
is_decision_approve reject = refl

is_decision_reject : (d : Decision) → is_decision reject (some d) ≡ is_reject d
is_decision_reject approve = refl
is_decision_reject reject = refl

result_of-status_of : (d : Decision) → result_of (status_of d) ≡ some d
result_of-status_of approve = refl
result_of-status_of reject = refl

settled-closed : (d : Decision) → is_pending (status_of d) ≡ false
settled-closed approve = refl
settled-closed reject = refl

module _ (now user : ℕ) (d : Decision) (comment : Option String) (a : Approval) (h : IsSettled a)
    (waiting : is_pending a.status ≡ true) (v : Approver)
    (mine : find_approver user a.approvers ≡ some v) (idle : v.decision ≡ none) where
  next_outcome_lem :
      outcome (record a { approvers = decide_rows now user d comment a.approvers })
      ≡ next_outcome d a
  next_outcome_lem =
      rw
        (
          length-decide_rows now user d comment a.approvers,
          count-decide_rows now user d comment approve v a.approvers h.voters_unique mine idle,
          count-decide_rows now user d comment reject v a.approvers h.voters_unique mine idle,
          is_decision_approve d,
          is_decision_reject d,
        )
        refl

  pub decided_approval-IsSettled :
      (terminal : Option Decision)
      → next_outcome d a ≡ ok terminal
      → IsSettled (decided_approval now user d comment terminal a)
  decided_approval-IsSettled none e = record {
    voters_unique = decide_rows-Unique now user d comment a.approvers h.voters_unique;
    voted = next_outcome_lem ∙ e ∙ ap ok (pending-result a.status waiting);
    completion = h.completion;
  }
    where
      pending-result : (st : ApprovalStatus) → is_pending st ≡ true → none ≡ result_of st
      pending-result st p = ground arith
  decided_approval-IsSettled (some dd) e = record {
    voters_unique = decide_rows-Unique now user d comment a.approvers h.voters_unique;
    voted = next_outcome_lem ∙ e ∙ ap ok (sym (result_of-status_of dd));
    completion = rw (settled-closed dd) refl;
  }

pub decided_approval-id :
    (now user : ℕ) (d : Decision) (comment : Option String) (terminal : Option Decision)
    (a : Approval)
    → (decided_approval now user d comment terminal a).approval_id ≡ a.approval_id
decided_approval-id now user d comment none a = refl
decided_approval-id now user d comment (some _) a = refl

-- What a lock that succeeded has found.
pub record IsLocked (s : Tables) (tenant_id id user : ℕ) (l : LockedApproval) : Type 0 where
  pub row : Approval
  pub of_ticket : ApprovalTicket
  pub voter : Approver
  pub row_found : find_approval id s.approvals ≡ some row
  pub own_tenant : (row.tenant_id == tenant_id) ≡ true
  pub ticket_found : find_ticket (λ t. t.ticket_id == row.ticket_id) s.tickets ≡ some of_ticket
  pub voter_found : find_approver user row.approvers ≡ some voter
  pub is_view : l ≡ locked row of_ticket voter

locked_row-some :
    (a : Approval) (t : Option ApprovalTicket) (r : Option Approver) (l : LockedApproval)
    → locked_row a t r ≡ some l
    → (t' : ApprovalTicket) × (v : Approver) × (t ≡ some t') × (r ≡ some v) × (l ≡ locked a t' v)
locked_row-some a none r l e = cc
locked_row-some a (some t) none l e = cc
locked_row-some a (some t) (some r) l e = (t, r, refl, refl, cc)

pub locked_of-some :
    (s : Tables) (tenant_id user id : ℕ) (l : LockedApproval)
    → locked_of s.tickets tenant_id user (find_approval id s.approvals) ≡ some l
    → IsLocked s tenant_id id user l
locked_of-some s tenant_id user id l e = elim (Option-cases (find_approval id s.approvals)) [
  | inl missing ↦ absurd (lost (rw missing at e))
  | inr (a, found) ↦ elim (Bool-cases (a.tenant_id == tenant_id)) [
    | inr foreign ↦ absurd (lost (rw (found, foreign) at e))
    | inl own ↦
        let (t, v, about, mine, same) = locked_row-some a _ _ l (rw (found, own) at e) in
        record {
          row = a;
          of_ticket = t;
          voter = v;
          row_found = found;
          own_tenant = own;
          ticket_found = about;
          voter_found = mine;
          is_view = same;
        }
  ]
]
  where
    lost : none ≡ some l → ⊥
    lost n = cc
