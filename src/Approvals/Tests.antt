-- ===== src/Approvals/Tests.antt =====
-- An approval that two users are asked for, from its request to its end.
use package.text.Mathlib.Text.{◌==◌ as text_eq}
use helpdesk_agent.Prelude.{
  ℕ, ◌+◌, ◌≡◌, refl, Bool, true, false, none, some, [], ◌∷◌, ◌⊎◌, Result, ok, err, if◌then◌else◌,
}
use helpdesk_agent.Rules.Value.{Value, str, arr, obj, nil, cons, end, field}
use helpdesk_agent.Approvals.Models.{
  all_approvers, approved, expired, approve, ApprovalDefinition, ApprovalView,
}
use helpdesk_agent.Approvals.Tables.{
  ApprovalError, conflict, Tables, ◌>>=◌, create, insert_approval, ticket, record_fact,
  claim_idempotency, lock_for_decision, expire_if_due, decision_counts, record_decision,
  continue_workflow, complete_idempotency, view_for_user, map_approval, close_if_pending,
}
use helpdesk_agent.Approvals.Service.{
  Parsed, parsed, refused, failed, Directory, Command, request, resolve, transaction, decide,
  decide_once, decide_locked, refusal, settle_decision, terminal_status, answer,
}
use helpdesk_agent.Approvals.Invariant.{InOrder}
use helpdesk_agent.Approvals.Lifecycle.{here, requested, decided, Reach-InOrder}
use helpdesk_agent.Approvals.Replay.{decide-replayed}
use helpdesk_agent.Approvals.View.{IsDecision, decide-recorded}
use helpdesk_agent.Approvals.Atomic.{decide-failed}
use helpdesk_agent.Approvals.Requested.{IsRequest, request-recorded}

abbrev parse_digit : Value → Parsed
parse_digit (str s) =
    if text_eq s "2" then parsed 2 else if text_eq s "3" then parsed 3 else refused
parse_digit _ = failed

abbrev two_approvers : ApprovalDefinition
two_approvers = record {
  definition_id = 1;
  version_id = 1;
  tenant_id = 1;
  project_id = 1;
  code = "LAPTOP";
  name = "Laptop";
  mode = all_approvers;
  approver_rule = obj (field "user_ids" (arr (cons (str "2") (cons (str "3") nil))) end);
  approved_transition_id = some 5;
  rejected_transition_id = none;
  allow_requester_self_approval = false;
  expires_after_minutes = some 10;
}

abbrev directory : Directory
directory = record {
  published_definition = λ _ _ _. some two_approvers;
  is_active = λ _ _. true;
  manager_for = λ _ _. none;
  transition_of = λ _. some (record {
    workflow_version_id = 1;
    from_status_id = 10;
    to_status_id = 20;
    active_flag = true;
    is_continuation = true;
  });
  parse_uuid = parse_digit;
  strip = λ s. s;
  request_hash = λ id _ version _. id + version;
}

abbrev first_tables : Tables
first_tables = record {
  approvals = [];
  next_id = 0;
  tickets =
      record {
        ticket_id = 100;
        tenant_id = 1;
        project_id = 1;
        reporter_user_id = 9;
        requested_for_user_id = none;
        workflow_version_id = 1;
        status_id = 10;
      }
      ∷ [];
  facts = [];
  outbox = [];
  workflow_outbox = [];
  idempotency = [];
}

abbrev approval_at : ℕ → Command
approval_at version = record { decision = approve; expected_version = version; comment = none }

abbrev request_1 : Result ApprovalError ℕ × Tables
request_1 = transaction (request directory 0 1 100 "LAPTOP") first_tables

abbrev decide_1 : Result ApprovalError (ApprovalView × Bool) × Tables
decide_1 = decide directory 5 true (some (1, 2)) 0 (approval_at 1) "first" request_1.1

abbrev decide_2 : Result ApprovalError (ApprovalView × Bool) × Tables
decide_2 = decide directory 6 true (some (1, 3)) 0 (approval_at 2) "second" decide_1.1

first_tables-InOrder : InOrder first_tables
first_tables-InOrder = record { rows_settled = tt; ids_unique = tt; ids_issued = tt }

request_1_issued : request_1 ≡ (ok 0, request_1.1)
unfolding request resolve transaction ticket create insert_approval record_fact ◌>>=◌
request_1_issued = refl

Reach-InOrder_example : InOrder decide_2.1
Reach-InOrder_example = Reach-InOrder first_tables-InOrder (
    decided
      (decided (requested here directory 0 1 100 "LAPTOP" request_1.0 refl) directory 5 true
        (some (1, 2)) 0 (approval_at 1) "first" decide_1.0 refl)
      directory 6 true (some (1, 3)) 0 (approval_at 2) "second" decide_2.0 refl)

request-recorded_example : IsRequest directory 0 1 100 "LAPTOP" first_tables 0 request_1.1
request-recorded_example =
    request-recorded directory 0 1 100 "LAPTOP" first_tables 0 request_1.1 first_tables-InOrder
      request_1_issued

abbrev view_2 : ApprovalView
view_2 = record {
  approval_id = 0;
  ticket_id = 100;
  definition_version_id = 1;
  approval_code = "LAPTOP";
  approval_name = "Laptop";
  approval_mode = all_approvers;
  status = approved;
  requested_at = 0;
  completed_at = some 6;
  expires_at = some 600_000_000;
  row_version = 3;
  approver_user_id = 3;
  sequence_number = 2;
  decision = some approve;
  decision_comment = none;
  decided_at = some 6;
}

-- The second approval settles.
decide_2_answered : decide_2 ≡ (ok (view_2, false), decide_2.1)
unfolding request resolve transaction ticket create insert_approval record_fact ◌>>=◌ decide
    decide_once claim_idempotency decide_locked lock_for_decision expire_if_due refusal
    settle_decision decision_counts terminal_status record_decision continue_workflow
    complete_idempotency answer view_for_user
decide_2_answered = refl

decide-recorded_example : IsDecision 6 1 3 0 (approval_at 2) none decide_1.1 view_2 decide_2.1
decide-recorded_example =
    decide-recorded directory 6 1 3 0 (approval_at 2) "second" decide_1.1 decide_2.1 view_2
      decide_2_answered

decide-replayed_example :
    decide directory 99 true (some (1, 3)) 0 (approval_at 2) "second" decide_2.1
    ≡ (ok (view_2, true), decide_2.1)
decide-replayed_example =
    decide-replayed directory 6 1 3 0 (approval_at 2) "second" decide_1.1 decide_2.1 view_2 99
      decide_2_answered

-- A decision after the ten minutes.
abbrev late : Result ApprovalError (ApprovalView × Bool) × Tables
late = decide directory 600_000_000 true (some (1, 3)) 0 (approval_at 2) "late" decide_1.1

late_refused : late ≡ (err conflict, late.1)
unfolding request resolve transaction ticket create insert_approval record_fact ◌>>=◌ decide
    decide_once claim_idempotency decide_locked lock_for_decision expire_if_due refusal
    settle_decision decision_counts terminal_status record_decision continue_workflow
    complete_idempotency answer view_for_user
late_refused = refl

decide-failed_example :
    (late.1 ≡ decide_1.1)
    ⊎ ((conflict ≡ conflict)
        × (late.1.approvals
            ≡ map_approval 0 (close_if_pending 600_000_000 expired) decide_1.1.approvals)
        × (late.1.tickets ≡ decide_1.1.tickets))
decide-failed_example =
    decide-failed directory 600_000_000 1 3 0 (approval_at 2) "late" decide_1.1 late.1 conflict
      late_refused
