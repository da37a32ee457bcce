-- ===== src/Workflows/Reads.antt =====
-- The queries of apps/api/app/workflows/repository.py and `available` of service.py.
use package.text.Mathlib.Text.{◌==◌ as text_eq}
use helpdesk_agent.Prelude.{
  ℕ, String, Bool, true, false, ◌&&◌, ◌||◌, Option, none, some, List, [], ◌∷◌, ◌==◌, if◌then◌else◌,
  Result, ok, err,
}
use helpdesk_agent.Rules.Evaluate.{Values, evaluate}
use helpdesk_agent.Desk.{
  TicketRow, Desk, DeskError, authorization_denied, not_found, configuration_conflict, Action,
  ◌>>=◌, ◌>>◌, pure, raise, reads, need, lifted, Context, is_visible, find_row,
}
use helpdesk_agent.Workflows.Models.{WorkflowTicket, WorkflowTransition, Catalogue}
use helpdesk_agent.Workflows.Guard.{values_of, caught}
use helpdesk_agent.Workflows.Effects.{is_approval_continuation}

-- A row with the codes of its status, work type and workflow version.
abbrev pub joined : Catalogue → TicketRow → WorkflowTicket
joined cat r = record {
  ticket_id = r.ticket_id;
  tenant_id = r.tenant_id;
  ticket_key = r.ticket_key;
  project_id = r.project_id;
  work_type_code = cat.work_type_code r.work_type_id;
  workflow_version_id = r.workflow_version_id;
  workflow_version_status = cat.version_status r.workflow_version_id;
  status_id = r.status_id;
  status_code = cat.status_code r.status_id;
  row_version = r.row_version;
  summary = r.summary;
  description = r.description;
  resolution_code = r.resolution_code;
  resolution_summary = r.resolution_summary;
  assignment_group_id = r.assignment_group_id;
  assignee_user_id = r.assignee_user_id;
  first_response_at = r.first_response_at;
  resolved_at = r.resolved_at;
  closed_at = r.closed_at;
}

abbrev pub joined_row : Catalogue → Option TicketRow → Option WorkflowTicket
joined_row cat none = none
joined_row cat (some r) = some (joined cat r)

-- `WorkflowRepository.ticket`
abbrev pub ticket_of : Catalogue → Context → ℕ → String → Desk → Option WorkflowTicket
ticket_of cat context tenant_id key s =
    joined_row cat (find_row (is_visible context tenant_id key) s.tickets)

abbrev pub leaves : ℕ → ℕ → WorkflowTransition → Bool
leaves version_id status_id t = t.workflow_version_id == version_id && t.from_status_id == status_id

-- `WorkflowRepository.available`
abbrev pub transitions_from : ℕ → ℕ → List WorkflowTransition → List WorkflowTransition
transitions_from version_id status_id [] = []
transitions_from version_id status_id (t ∷ rest) =
    let later = transitions_from version_id status_id rest in
    if leaves version_id status_id t then t ∷ later else later

-- `WorkflowRepository.transition`: the code is unique among the transitions of a status.
abbrev pub with_code_of : String → List WorkflowTransition → Option WorkflowTransition
with_code_of code [] = none
with_code_of code (t ∷ rest) =
    if text_eq t.transition_code code then some t else with_code_of code rest

abbrev pub transition_of : Catalogue → ℕ → ℕ → String → Option WorkflowTransition
transition_of cat version_id status_id code =
    with_code_of code (transitions_from version_id status_id cat.transitions)

-- The versions that can be executed.
abbrev pub executable : WorkflowTicket → Bool
executable t =
    text_eq t.workflow_version_status "PUBLISHED" || text_eq t.workflow_version_status "RETIRED"

abbrev pub unless_continues : Result DeskError Bool → Result DeskError Bool → Result DeskError Bool
unless_continues (err e) allowed = err e
unless_continues (ok true) allowed = ok false
unless_continues (ok false) allowed = allowed

-- One transition of the loop of `available`.
abbrev pub offered : Catalogue → Values → WorkflowTransition → Result DeskError Bool
offered cat values t =
    unless_continues (is_approval_continuation cat.upper t.actions)
      (caught (evaluate t.condition values))

abbrev pub offer :
    WorkflowTransition
    → Result DeskError Bool
    → Result DeskError (List WorkflowTransition)
    → Result DeskError (List WorkflowTransition)
offer t (err e) later = err e
offer t (ok true) (ok ts) = ok (t ∷ ts)
offer t (ok false) later = later
offer t (ok true) (err e) = err e

abbrev pub offers :
    Catalogue → Values → List WorkflowTransition → Result DeskError (List WorkflowTransition)
offers cat values [] = ok []
offers cat values (t ∷ rest) = offer t (offered cat values t) (offers cat values rest)

abbrev pub available_for : Catalogue → WorkflowTicket → Result DeskError (List WorkflowTransition)
available_for cat t =
    if executable t
    then offers cat (values_of t [])
        (transitions_from t.workflow_version_id t.status_id cat.transitions)
    else err configuration_conflict

-- `WorkflowService.available`: the transitions that it answers with.
unfoldable pub available : Catalogue → Context → String → Action (List WorkflowTransition)
available cat context key =
    (if context.may_act then pure tt else raise authorization_denied)
    >> (need not_found context.identity >>= λ who.
        reads (ticket_of cat context who.0 key) >>= λ found.
        need not_found found >>= λ t. lifted (available_for cat t))
