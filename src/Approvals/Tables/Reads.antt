-- ===== src/Approvals/Tables/Reads.antt =====
-- The reads of apps/api/app/approvals/repository.py: `ticket`, `lock_for_decision`, `view_for_user` and
-- `decision_counts`.
use helpdesk_agent.Prelude.{
  ℕ, suc, Bool, true, false, ◌&&◌, Option, none, some, List, [], ◌∷◌, ◌==◌, if◌then◌else◌, length,
}
use helpdesk_agent.Approvals.Models.{
  Decision, approve, reject, ApprovalTicket, Approver, Approval, ApprovalView, LockedApproval,
}
use helpdesk_agent.Approvals.Tables.Store.{Work, gets}

abbrev pub is_ticket : ℕ → ℕ → ApprovalTicket → Bool
is_ticket tenant_id ticket_id t = t.tenant_id == tenant_id && t.ticket_id == ticket_id

abbrev pub find_ticket : (ApprovalTicket → Bool) → List ApprovalTicket → Option ApprovalTicket
find_ticket p [] = none
find_ticket p (t ∷ rest) = if p t then some t else find_ticket p rest

-- `ticket`
unfoldable pub ticket : ℕ → ℕ → Work (Option ApprovalTicket)
ticket tenant_id ticket_id = gets λ s. find_ticket (is_ticket tenant_id ticket_id) s.tickets

abbrev pub is_approver : ℕ → Approver → Bool
is_approver user_id r = r.approver_user_id == user_id

abbrev pub find_approver : ℕ → List Approver → Option Approver
find_approver user_id [] = none
find_approver user_id (r ∷ rest) =
    if is_approver user_id r then some r else find_approver user_id rest

abbrev pub is_approval : ℕ → Approval → Bool
is_approval approval_id a = a.approval_id == approval_id

abbrev pub find_approval : ℕ → List Approval → Option Approval
find_approval approval_id [] = none
find_approval approval_id (a ∷ rest) =
    if is_approval approval_id a then some a else find_approval approval_id rest

-- `coalesce(ticket.requested_for_user_id,ticket.reporter_user_id)`
abbrev pub requester : ApprovalTicket → ℕ
requester t = elim t.requested_for_user_id [ none ↦ t.reporter_user_id | some user ↦ user ]

abbrev pub locked : Approval → ApprovalTicket → Approver → LockedApproval
locked a t r = record {
  approval_id = a.approval_id;
  tenant_id = a.tenant_id;
  ticket_id = a.ticket_id;
  requester_user_id = requester t;
  status = a.status;
  row_version = a.row_version;
  mode = a.definition.mode;
  approver_rule = a.definition.approver_rule;
  approved_transition_id = a.definition.approved_transition_id;
  rejected_transition_id = a.definition.rejected_transition_id;
  allow_requester_self_approval = a.definition.allow_requester_self_approval;
  expires_at = a.expires_at;
  approver_user_id = r.approver_user_id;
  existing_decision = r.decision;
}

abbrev pub locked_row : Approval → Option ApprovalTicket → Option Approver → Option LockedApproval
locked_row a (some t) (some r) = some (locked a t r)
locked_row a _ _ = none

abbrev pub locked_of : List ApprovalTicket → ℕ → ℕ → Option Approval → Option LockedApproval
locked_of tickets tenant_id user_id none = none
locked_of tickets tenant_id user_id (some a) =
    if a.tenant_id == tenant_id
    then locked_row a (find_ticket (λ t. t.ticket_id == a.ticket_id) tickets)
        (find_approver user_id a.approvers)
    else none

-- `lock_for_decision`
unfoldable pub lock_for_decision : ℕ → ℕ → ℕ → Work (Option LockedApproval)
lock_for_decision tenant_id approval_id user_id =
    gets λ s. locked_of s.tickets tenant_id user_id (find_approval approval_id s.approvals)

abbrev pub view : Approval → Approver → ApprovalView
view a r = record {
  approval_id = a.approval_id;
  ticket_id = a.ticket_id;
  definition_version_id = a.definition.version_id;
  approval_code = a.definition.code;
  approval_name = a.definition.name;
  approval_mode = a.definition.mode;
  status = a.status;
  requested_at = a.requested_at;
  completed_at = a.completed_at;
  expires_at = a.expires_at;
  row_version = a.row_version;
  approver_user_id = r.approver_user_id;
  sequence_number = r.sequence_number;
  decision = r.decision;
  decision_comment = r.decision_comment;
  decided_at = r.decided_at;
}

abbrev pub view_of : ℕ → ℕ → Option Approval → Option ApprovalView
view_of tenant_id user_id none = none
view_of tenant_id user_id (some a) =
    if a.tenant_id == tenant_id
    then elim (find_approver user_id a.approvers) [ none ↦ none | some r ↦ some (view a r) ]
    else none

-- `view_for_user`
unfoldable pub view_for_user : ℕ → ℕ → ℕ → Work (Option ApprovalView)
view_for_user tenant_id approval_id user_id =
    gets λ s. view_of tenant_id user_id (find_approval approval_id s.approvals)

abbrev pub is_decision : Decision → Option Decision → Bool
is_decision approve (some approve) = true
is_decision reject (some reject) = true
is_decision _ _ = false

abbrev pub count_decided : Decision → List Approver → ℕ
count_decided d [] = 0
count_decided d (r ∷ rest) =
    let others = count_decided d rest in if is_decision d r.decision then suc others else others

abbrev pub approvers_of : Option Approval → List Approver
approvers_of none = []
approvers_of (some a) = a.approvers

-- `decision_counts`: all approvers, those who approved and those who rejected
unfoldable pub decision_counts : ℕ → Work (ℕ × ℕ × ℕ)
decision_counts approval_id = gets λ s.
    let rows = approvers_of (find_approval approval_id s.approvals) in
    (length rows, count_decided approve rows, count_decided reject rows)
