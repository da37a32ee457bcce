-- ===== src/Workflows/Execute.antt =====
-- `WorkflowService.execute` of apps/api/app/workflows/service.py with the writes of repository.py.
use package.text.Mathlib.Text.{◌==◌ as text_eq}
use helpdesk_agent.Prelude.{
  ℕ, String, Bool, true, false, not, ◌&&◌, Option, none, some, List, [], ◌∷◌, ◌==◌, all,
  if◌then◌else◌, Result, ok, err,
}
use helpdesk_agent.Prelude.{◌>>=◌ as ◌>>=ᵣ◌}
use helpdesk_agent.Rules.Value.{Value}
use helpdesk_agent.Rules.Evaluate.{Values}
use helpdesk_agent.Approvals.Service.{Directory}
use helpdesk_agent.Desk.{
  TicketRow, DeskError, authorization_denied, not_found, concurrency_error, configuration_conflict,
  invalid_transition, uncaught, Payload, transitioned, ticket_transition, transition_executed,
  Action, ◌>>=◌, ◌>>◌, pure, raise, reads, writes, need, lifted, require, Context, update_ticket,
  with_event, add_public_comment, ask_approval,
}
use helpdesk_agent.Desk.Once.{once}
use helpdesk_agent.Workflows.Models.{
  WorkflowTicket, WorkflowTransition, TransitionCommand, Catalogue,
}
use helpdesk_agent.Workflows.Guard.{clearable_fields, one_of}
use helpdesk_agent.Workflows.Effects.{
  validated_updates, is_approval_continuation, approval_requests,
}
use helpdesk_agent.Workflows.Reads.{ticket_of, transition_of, executable}

-- `UPDATE itsm.ticket SET field=...`
abbrev pub set_column : TicketRow → String × Value → TicketRow
set_column r (name, v) =
    if text_eq name "resolution_code"
    then record r { resolution_code = v }
    else if text_eq name "resolution_summary"
    then record r { resolution_summary = v }
    else if text_eq name "first_response_at"
    then record r { first_response_at = v }
    else if text_eq name "resolved_at"
    then record r { resolved_at = v }
    else if text_eq name "closed_at"
    then record r { closed_at = v }
    else r

abbrev pub set_columns : Values → TicketRow → TicketRow
set_columns [] r = r
set_columns (update ∷ rest) r = set_columns rest (set_column r update)

-- The row that the ticket was read from, if nothing has changed it since.
abbrev pub is_unchanged : WorkflowTicket → TicketRow → Bool
is_unchanged t r =
    (r.ticket_id == t.ticket_id && r.workflow_version_id == t.workflow_version_id)
    && (r.status_id == t.status_id && r.row_version == t.row_version)

abbrev pub moved : WorkflowTransition → ℕ → Values → TicketRow → TicketRow
moved transition user_id updates r =
    set_columns updates (record r { status_id = transition.to_status_id; updated_by = user_id })

-- `apply_transition`
unfoldable pub apply_transition :
    WorkflowTicket → WorkflowTransition → ℕ → Values → Action (Option ℕ)
apply_transition t transition user_id updates =
    if all (λ update. one_of clearable_fields update.0) updates
    then update_ticket (is_unchanged t) (moved transition user_id updates)
    else raise uncaught

-- `record_transition`: the event, with its audit entry and outbox events.
unfoldable pub record_transition : WorkflowTicket → WorkflowTransition → ℕ → Action (Unit {0})
record_transition t transition new_version = writes (
    with_event (transition_executed t.ticket_id transition.transition_id t.row_version new_version))

-- The comment that is kept: nothing for an empty text.
abbrev pub normalized_comment : (String → String) → Option String → Option String
normalized_comment strip none = none
normalized_comment strip (some text) = if text_eq text "" then none else some (strip text)

abbrev pub comment_on : ℕ → ℕ → Option String → Action (Unit {0})
comment_on ticket_id user_id none = pure tt
comment_on ticket_id user_id (some text) =
    if text_eq text "" then pure tt else add_public_comment ticket_id user_id text

abbrev pub ask_approvals : Directory → ℕ → ℕ → ℕ → List String → Action (Unit {0})
ask_approvals dir now tenant_id ticket_id [] = pure tt
ask_approvals dir now tenant_id ticket_id (code ∷ rest) =
    ask_approval dir now tenant_id ticket_id code >>= λ _.
    ask_approvals dir now tenant_id ticket_id rest

-- What `execute` does with a transition that has been found.
unfoldable pub perform :
    Catalogue
    → Directory
    → ℕ
    → ℕ
    → ℕ
    → WorkflowTicket
    → WorkflowTransition
    → Values
    → Option String
    → Action Payload
perform cat dir now tenant_id user_id t transition updates comment =
    comment_on t.ticket_id user_id comment
    >> (apply_transition t transition user_id updates >>= λ new.
        need concurrency_error new >>= λ new_version.
        record_transition t transition new_version
        >> (lifted (approval_requests cat.upper transition.actions) >>= λ codes.
            ask_approvals dir now tenant_id t.ticket_id codes
            >> pure (transitioned transition.transition_code new_version)))

abbrev pub with_updates :
    WorkflowTransition
    → Bool
    → Result DeskError Values
    → Result DeskError (WorkflowTransition × Values)
with_updates transition true updates = err invalid_transition
with_updates transition false (err e) = err e
with_updates transition false (ok updates) = ok (transition, updates)

-- A transition that is found is not for approvals only, and its updates are valid.
abbrev pub check_found :
    Catalogue
    → ℕ
    → WorkflowTicket
    → Values
    → Option WorkflowTransition
    → Result DeskError (WorkflowTransition × Values)
check_found cat now t requested none = err invalid_transition
check_found cat now t requested (some transition) =
    is_approval_continuation cat.upper transition.actions >>=ᵣ λ continues.
    with_updates transition continues (validated_updates cat now t transition requested)

-- The checks on the locked ticket.
unfoldable pub checked :
    Catalogue
    → ℕ
    → WorkflowTicket
    → TransitionCommand
    → Result DeskError (WorkflowTransition × Values)
checked cat now t command =
    if not (t.row_version == command.row_version)
    then err concurrency_error
    else if not (executable t)
    then err configuration_conflict
    else check_found cat now t command.field_updates
        (transition_of cat t.workflow_version_id t.status_id command.transition_code)

-- `execute` after the claim of its key
unfoldable pub work :
    Catalogue → Directory → ℕ → Context → ℕ → ℕ → String → TransitionCommand → Action Payload
work cat dir now context tenant_id user_id key command =
    reads (ticket_of cat context tenant_id key) >>= λ found. need concurrency_error found >>= λ t.
    lifted (checked cat now t command) >>= λ plan.
    perform cat dir now tenant_id user_id t plan.0 plan.1 command.comment

abbrev pub with_comment_normalized : Catalogue → TransitionCommand → TransitionCommand
with_comment_normalized cat command = record command {
  comment = normalized_comment cat.strip command.comment;
}

-- `WorkflowService.execute` up to its commit; the response reads the ticket afterwards.
unfoldable pub execute :
    Catalogue
    → Directory
    → ℕ
    → Context
    → String
    → TransitionCommand
    → String
    → Action (Payload × Bool)
execute cat dir now context key command idempotency_key =
    require context.may_act authorization_denied
    >> (need not_found context.identity >>= λ who.
        let normal = with_comment_normalized cat command in
        reads (ticket_of cat context who.0 key) >>= λ found. need not_found found >>= λ _.
        once who.0 who.1 ticket_transition idempotency_key (cat.request_hash key normal)
          (work cat dir now context who.0 who.1 key normal))
