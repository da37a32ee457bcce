-- ===== src/Approvals/Service/Verdict.antt =====
-- `decide` of apps/api/app/approvals/service.py from the lock on, and `_terminal_status`.
use package.text.Mathlib.Text.{◌==◌ as text_eq}
use helpdesk_agent.Prelude.{
  ℕ, ◌+◌, String, Bool, true, false, not, ◌&&◌, Option, none, some, ◌==◌, if◌then◌else◌, Result, ok,
  err,
}
use helpdesk_agent.Rules.Value.{Value, boolean, obj, get_field}
use helpdesk_agent.Approvals.Models.{
  ApprovalMode, any_one_approver, all_approvers, manager_approval, other_mode, Decision, approve,
  reject, LockedApproval, IdempotencyRecord,
}
use helpdesk_agent.Approvals.Tables.{
  ApprovalError, configuration_error, not_found, authorization_denied, conflict, concurrency_error,
  validation_failed, Work, ◌>>=◌, pure, raise, commit_raise, is_pending, lock_for_decision,
  complete_idempotency, decision_counts, record_decision, continue_workflow, expire_if_due,
}
use helpdesk_agent.Approvals.Service.Resolve.{Directory, or_raise, need}

-- One approval is enough, and only all rejections reject.
abbrev pub first_approval : ℕ → ℕ → ℕ → Option Decision
first_approval total yeas nays =
    if yeas == 0 then (if nays == total then some reject else none) else some approve

-- `_terminal_status`
unfoldable pub terminal_status : ApprovalMode → ℕ → ℕ → ℕ → Result ApprovalError (Option Decision)
terminal_status any_one_approver total yeas nays = ok (first_approval total yeas nays)
terminal_status manager_approval total yeas nays = ok (first_approval total yeas nays)
terminal_status all_approvers total yeas nays =
    ok (if 0 == nays then (if yeas == total then some approve else none) else some reject)
terminal_status other_mode total yeas nays = err configuration_error

pub record Command : Type 0 where
  pub decision : Decision
  pub expected_version : ℕ
  pub comment : Option String

-- The comment, stripped, unless nothing is left of it.
abbrev pub stripped : (String → String) → Option String → Option String
stripped strip none = none
stripped strip (some c) = if text_eq (strip c) "" then none else some (strip c)

abbrev pub is_some : {A : Type 0} → Option A → Bool
is_some none = false
is_some (some _) = true

abbrev pub is_true : Option Value → Bool
is_true (some (boolean true)) = true
is_true _ = false

abbrev pub comment_required : Value → Bool
comment_required (obj rule) = is_true (get_field "rejection_comment_required" rule)
comment_required _ = false

abbrev pub is_reject : Decision → Bool
is_reject reject = true
is_reject approve = false

-- The guards of `decide` between the lock and the decision, in their order.
unfoldable pub refusal : LockedApproval → ℕ → Command → Option String → Option ApprovalError
refusal a user_id command comment =
    if not (is_pending a.status)
    then some conflict
    else if not (a.row_version == command.expected_version)
    then some concurrency_error
    else if is_some a.existing_decision
    then some conflict
    else if not a.allow_requester_self_approval && a.requester_user_id == user_id
    then some authorization_denied
    else if is_reject command.decision
        && (comment_required a.approver_rule && not (is_some comment))
    then some validation_failed
    else none

abbrev pub refuse : Option ApprovalError → Work (Unit {0})
refuse none = pure tt
refuse (some e) = raise e

abbrev pub transition_for : LockedApproval → Decision → Option ℕ
transition_for a approve = a.approved_transition_id
transition_for a reject = a.rejected_transition_id

-- What follows a decision that ends the approval.
abbrev pub follow_up : Directory → LockedApproval → Option Decision → Work (Unit {0})
follow_up dir a none = pure tt
follow_up dir a (some terminal) =
    need configuration_error (transition_for a terminal) >>= λ transition_id.
    continue_workflow dir.transition_of a transition_id

abbrev pub add_if : Bool → ℕ → ℕ
add_if b n = if b then n + 1 else n

-- From the recorded counts on.
unfoldable pub settle_decision :
    Directory
    → ℕ
    → LockedApproval
    → ℕ
    → Decision
    → Option String
    → IdempotencyRecord
    → Work (Unit {0})
settle_decision dir now a user_id d comment idem =
    decision_counts a.approval_id >>= λ (total, yeas, nays).
    or_raise
      (terminal_status a.mode total (add_if (not (is_reject d)) yeas) (add_if (is_reject d) nays))
    >>= λ terminal. record_decision now a user_id d comment terminal >>= λ version.
        follow_up dir a terminal >>= λ _. complete_idempotency idem

-- The first transaction of `decide`, for an idempotency record that is not completed.
unfoldable pub decide_locked :
    Directory → ℕ → ℕ → ℕ → ℕ → Command → Option String → IdempotencyRecord → Work (Unit {0})
decide_locked dir now tenant_id user_id approval_id command comment idem =
    lock_for_decision tenant_id approval_id user_id >>= λ found. need not_found found >>= λ a.
    expire_if_due now a >>= λ has_expired.
    if has_expired
    then commit_raise conflict
    else refuse (refusal a user_id command comment) >>= λ _.
        settle_decision dir now a user_id command.decision comment idem
