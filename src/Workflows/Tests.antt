-- ===== src/Workflows/Tests.antt =====
-- A ticket that is resolved: the transition needs a resolution code and sets `resolved_at`.
use package.text.Mathlib.Text.{◌==◌ as text_eq}
use helpdesk_agent.Prelude.{◌≡◌, refl, Bool, true, false, none, some, [], ◌∷◌, any, Result, ok}
use helpdesk_agent.Rules.Value.{null, str, foreign, obj, arr, nil, cons, field, end}
use helpdesk_agent.Rules.Evaluate.{Values, evaluate}
use helpdesk_agent.Approvals.Tables.{Tables}
use helpdesk_agent.Approvals.Service.{Directory, refused}
use helpdesk_agent.Desk.{
  TicketRow, Desk, DeskError, Payload, transitioned, Context, update_ticket, add_public_comment,
}
use helpdesk_agent.Desk.Once.{once, claim_idempotency, complete_idempotency}
use helpdesk_agent.Workflows.Models.{WorkflowTransition, TransitionCommand, Catalogue}
use helpdesk_agent.Workflows.Guard.{validate_required, missing_fields}
use helpdesk_agent.Workflows.Effects.{
  apply_items, apply_actions, validate_update_values, validated_updates, is_approval_continuation,
  approval_requests,
}
use helpdesk_agent.Workflows.Reads.{available, joined}
use helpdesk_agent.Workflows.Execute.{
  apply_transition, record_transition, perform, checked, work, execute,
}
use helpdesk_agent.Workflows.Validated.{IsValidated, validated_updates-IsValidated}
use helpdesk_agent.Workflows.Executed.{IsExecuted, execute-recorded}
use helpdesk_agent.Workflows.Replayed.{execute-replayed}
use helpdesk_agent.Workflows.Offers.{has_code, execute-available}

abbrev resolve_transition : WorkflowTransition
resolve_transition = record {
  transition_id = 5;
  workflow_version_id = 1;
  transition_code = "RESOLVE";
  transition_name = "Resolve";
  from_status_id = 10;
  from_status_code = "IN_PROGRESS";
  to_status_id = 20;
  to_status_code = "RESOLVED";
  to_status_name = "Resolved";
  condition = null;
  validators = arr (
      cons (obj (field "type" (str "required_field") (field "field" (str "resolution_code") end)))
        nil);
  actions =
      arr (
        cons (obj (field "type" (str "SET_TIMESTAMP") (field "field" (str "resolved_at") end)))
          nil);
}

-- The same, with no validators.
abbrev quick_transition : WorkflowTransition
quick_transition = record resolve_transition { transition_code = "QUICK"; validators = null }

abbrev catalogue : Catalogue
catalogue = record {
  transitions = resolve_transition ∷ quick_transition ∷ [];
  version_status = λ _. "PUBLISHED";
  status_code = λ _. "IN_PROGRESS";
  work_type_code = λ _. "INCIDENT";
  resolution_code_exists = λ code. text_eq code "FIXED";
  upper = λ s. s;
  lower = λ s. s;
  strip = λ s. s;
  request_hash = λ _ command. command.row_version;
}

abbrev directory : Directory
directory = record {
  published_definition = λ _ _ _. none;
  is_active = λ _ _. true;
  manager_for = λ _ _. none;
  transition_of = λ _. none;
  parse_uuid = λ _. refused;
  strip = λ s. s;
  request_hash = λ id _ version _. id;
}

abbrev first_row : TicketRow
first_row = record {
  ticket_id = 100;
  tenant_id = 1;
  ticket_key = "IT-1";
  project_id = 1;
  work_type_id = 1;
  workflow_version_id = 1;
  status_id = 10;
  row_version = 3;
  summary = "Printer";
  description = none;
  reporter_user_id = 9;
  requested_for_user_id = none;
  assignment_group_id = some 7;
  assignee_user_id = none;
  resolution_code = null;
  resolution_summary = null;
  first_response_at = null;
  resolved_at = null;
  closed_at = null;
  updated_by = 9;
}

abbrev no_approvals : Tables
no_approvals = record {
  approvals = [];
  next_id = 0;
  tickets = [];
  facts = [];
  outbox = [];
  workflow_outbox = [];
  idempotency = [];
}

abbrev first_desk : Desk
first_desk = record {
  tickets = first_row ∷ [];
  events = [];
  comments = [];
  history = [];
  idempotency = [];
  approvals = no_approvals;
}

abbrev analyst : Context
analyst = record {
  identity = some (1, 2);
  may_act = true;
  reads_all = false;
  support_group_ids = 7 ∷ [];
}

abbrev fixed : Values
fixed = ("resolution_code", str "FIXED") ∷ []

abbrev resolve_command : TransitionCommand
resolve_command = record {
  transition_code = "RESOLVE";
  row_version = 3;
  field_updates = fixed;
  comment = some "Done.";
}

abbrev quick_command : TransitionCommand
quick_command = record {
  transition_code = "QUICK";
  row_version = 3;
  field_updates = [];
  comment = none;
}

abbrev after_updates : Values
after_updates = ("resolution_code", str "FIXED") ∷ ("resolved_at", foreign 50) ∷ []

abbrev desk_of : Result DeskError ((Payload × Bool) × Desk) → Desk
desk_of (ok (_, s)) = s
desk_of _ = first_desk

abbrev executed : TransitionCommand → Result DeskError ((Payload × Bool) × Desk)
executed command = execute catalogue directory 50 analyst "IT-1" command "key" first_desk

updates_valid :
    validated_updates catalogue 50 (joined catalogue first_row) resolve_transition fixed
    ≡ ok after_updates
unfolding validated_updates validate_required missing_fields apply_items apply_actions
    validate_update_values evaluate
updates_valid = refl

validated_updates-IsValidated_example :
    IsValidated catalogue 50 (joined catalogue first_row) resolve_transition fixed after_updates
validated_updates-IsValidated_example =
    validated_updates-IsValidated catalogue 50 (joined catalogue first_row) resolve_transition fixed
      after_updates updates_valid

resolve_executed :
    executed resolve_command
    ≡ ok ((transitioned "RESOLVE" 4, false), desk_of (executed resolve_command))
unfolding execute once claim_idempotency complete_idempotency work checked perform apply_transition
    record_transition update_ticket add_public_comment validated_updates validate_required
    missing_fields apply_items apply_actions validate_update_values is_approval_continuation
    approval_requests evaluate
resolve_executed = refl

execute-recorded_example :
    IsExecuted catalogue directory 50 analyst "IT-1" resolve_command first_desk
      (transitioned "RESOLVE" 4)
      (desk_of (executed resolve_command))
execute-recorded_example =
    execute-recorded catalogue directory 50 analyst "IT-1" resolve_command "key" first_desk
      (transitioned "RESOLVE" 4) (desk_of (executed resolve_command)) resolve_executed

execute-replayed_example :
    execute catalogue directory 99 analyst "IT-1" resolve_command "key"
      (desk_of (executed resolve_command))
    ≡ ok ((transitioned "RESOLVE" 4, true), desk_of (executed resolve_command))
execute-replayed_example =
    execute-replayed catalogue directory directory 50 99 analyst "IT-1" resolve_command "key"
      first_desk (transitioned "RESOLVE" 4) (desk_of (executed resolve_command)) resolve_executed

quick_executed :
    executed quick_command ≡ ok ((transitioned "QUICK" 4, false), desk_of (executed quick_command))
unfolding execute once claim_idempotency complete_idempotency work checked perform apply_transition
    record_transition update_ticket validated_updates validate_required apply_items apply_actions
    validate_update_values is_approval_continuation approval_requests evaluate
quick_executed = refl

both_listed :
    available catalogue analyst "IT-1" first_desk
    ≡ ok (resolve_transition ∷ quick_transition ∷ [], first_desk)
unfolding available is_approval_continuation evaluate
both_listed = refl

execute-available_example :
    any (has_code "QUICK") (resolve_transition ∷ quick_transition ∷ []) ≡ true
execute-available_example =
    execute-available catalogue directory 50 analyst "IT-1" quick_command "key" first_desk
      (transitioned "QUICK" 4) (desk_of (executed quick_command))
      (resolve_transition ∷ quick_transition ∷ []) first_desk refl quick_executed both_listed
