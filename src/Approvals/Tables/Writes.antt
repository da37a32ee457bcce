-- ===== src/Approvals/Tables/Writes.antt =====
-- The writes of apps/api/app/approvals/repository.py.
use package.text.Mathlib.Text.{◌==◌ as text_eq}
use helpdesk_agent.Prelude.{
  ℕ, ◌+◌, ◌*◌, String, Bool, true, false, not, ◌&&◌, Option, none, some, List, [], ◌∷◌, ◌++◌, leb,
  ◌==◌, if◌then◌else◌, any, length,
}
use helpdesk_agent.Approvals.Models.{
  ApprovalStatus, pending, cancelled, expired, approved, rejected, Decision, approve, reject,
  ApprovalDefinition, ApprovalTicket, Approver, Approval, LockedApproval, Transition,
  approval_requested, approval_decided, approval_expired, approval_cancelled, IdempotencyRecord,
}
use helpdesk_agent.Approvals.Tables.Store.{
  modify, configuration_error, uncaught, done, raised, Work, pure, gets, ◌>>=◌, record_fact,
}
use helpdesk_agent.Approvals.Tables.Reads.{is_ticket, find_ticket, is_approver, is_approval}

abbrev pub new_approvers : ℕ → List ℕ → List Approver
new_approvers sequence [] = []
new_approvers sequence (user ∷ rest) =
    record {
      approver_user_id = user;
      sequence_number = sequence;
      decision = none;
      decision_comment = none;
      decided_at = none;
    }
    ∷ new_approvers (sequence + 1) rest

-- `now()+make_interval(mins=>...)`, in microseconds
abbrev pub expiry : ℕ → Option ℕ → Option ℕ
expiry now none = none
expiry now (some minutes) = some (now + minutes * 60_000_000)

abbrev pub new_approval : ℕ → ApprovalTicket → ApprovalDefinition → List ℕ → ℕ → Approval
new_approval now t definition approver_ids id = record {
  approval_id = id;
  tenant_id = t.tenant_id;
  ticket_id = t.ticket_id;
  definition = definition;
  status = pending;
  requested_at = now;
  completed_at = none;
  expires_at = expiry now definition.expires_after_minutes;
  row_version = 1;
  approvers = new_approvers 1 approver_ids;
}

abbrev pub is_pending : ApprovalStatus → Bool
is_pending pending = true
is_pending _ = false

-- The unique index of 0010_approval_engine.py: a ticket has one pending approval of a definition.
abbrev pub pending_of : ℕ → ℕ → Approval → Bool
pending_of ticket_id definition_id a =
    is_pending a.status && (a.ticket_id == ticket_id && a.definition.definition_id == definition_id)

-- The insertion of `create`; a row against the unique index raises.
unfoldable pub insert_approval : ℕ → ApprovalTicket → ApprovalDefinition → List ℕ → Work ℕ
insert_approval now t definition approver_ids s =
    if any (pending_of t.ticket_id definition.definition_id) s.approvals
    then raised uncaught
    else done s.next_id (record s {
      approvals = s.approvals ++ new_approval now t definition approver_ids s.next_id ∷ [];
      next_id = s.next_id + 1;
    })

-- `create`
unfoldable pub create : ℕ → ApprovalTicket → ApprovalDefinition → List ℕ → Work ℕ
create now t definition approver_ids = insert_approval now t definition approver_ids >>= λ id.
    record_fact approval_requested id 1 >>= λ _. pure id

abbrev pub is_key : ℕ → String → IdempotencyRecord → Bool
is_key tenant_id key r = r.tenant_id == tenant_id && text_eq r.idempotency_key key

abbrev pub find_key : ℕ → String → List IdempotencyRecord → Option IdempotencyRecord
find_key tenant_id key [] = none
find_key tenant_id key (r ∷ rest) =
    if is_key tenant_id key r then some r else find_key tenant_id key rest

abbrev pub claimed : IdempotencyRecord → Option IdempotencyRecord → Work IdempotencyRecord
claimed fresh (some r) s = done r s
claimed fresh none s = done fresh (record s { idempotency = s.idempotency ++ fresh ∷ [] })

-- `claim_idempotency`: the record of the key, inserted if there is none.
unfoldable pub claim_idempotency : ℕ → ℕ → String → ℕ → Work IdempotencyRecord
claim_idempotency tenant_id user_id key hash s =
    claimed
      (record {
        tenant_id = tenant_id;
        principal_id = user_id;
        idempotency_key = key;
        request_hash = hash;
        completed = false;
      })
      (find_key tenant_id key s.idempotency) s

abbrev pub complete_key : ℕ → String → List IdempotencyRecord → List IdempotencyRecord
complete_key tenant_id key [] = []
complete_key tenant_id key (r ∷ rest) =
    (if is_key tenant_id key r then record r { completed = true } else r)
    ∷ complete_key tenant_id key rest

-- `complete_idempotency`; a record is found by its tenant and key, which are unique
unfoldable pub complete_idempotency : IdempotencyRecord → Work (Unit {0})
complete_idempotency r =
    modify λ s. record s { idempotency = complete_key r.tenant_id r.idempotency_key s.idempotency }

abbrev pub map_approval : ℕ → (Approval → Approval) → List Approval → List Approval
map_approval approval_id f [] = []
map_approval approval_id f (a ∷ rest) =
    (if is_approval approval_id a then f a else a) ∷ map_approval approval_id f rest

abbrev pub is_undecided : Option Decision → Bool
is_undecided none = true
is_undecided (some _) = false

-- The `UPDATE` of itsm.ticket_approver
abbrev pub decide_row : ℕ → ℕ → Decision → Option String → Approver → Approver
decide_row now user_id d comment r =
    if is_approver user_id r && is_undecided r.decision
    then record r { decision = some d; decision_comment = comment; decided_at = some now }
    else r

abbrev pub decide_rows : ℕ → ℕ → Decision → Option String → List Approver → List Approver
decide_rows now user_id d comment [] = []
decide_rows now user_id d comment (r ∷ rest) =
    decide_row now user_id d comment r ∷ decide_rows now user_id d comment rest

abbrev pub status_of : Decision → ApprovalStatus
status_of approve = approved
status_of reject = rejected

-- The `UPDATE` of itsm.ticket_approval
abbrev pub settle : ℕ → Option Decision → Approval → Approval
settle now none a = record a { row_version = a.row_version + 1 }
settle now (some d) a = record a {
  status = status_of d;
  completed_at = some now;
  row_version = a.row_version + 1;
}

abbrev pub decided_approval :
    ℕ → ℕ → Decision → Option String → Option Decision → Approval → Approval
decided_approval now user_id d comment terminal a =
    settle now terminal (record a { approvers = decide_rows now user_id d comment a.approvers })

-- `record_decision`; the row that it updates was locked, so its version is the expected one
unfoldable pub record_decision :
    ℕ → LockedApproval → ℕ → Decision → Option String → Option Decision → Work ℕ
record_decision now locked_approval user_id d comment terminal =
    modify (λ s. record s {
      approvals =
          map_approval locked_approval.approval_id (decided_approval now user_id d comment terminal)
            s.approvals;
    })
    >>= λ _.
        record_fact approval_decided locked_approval.approval_id (locked_approval.row_version + 1)
        >>= λ _. pure (locked_approval.row_version + 1)

-- The `WHERE` of `continue_workflow`
abbrev pub continues : Transition → ApprovalTicket → Bool
continues transition t =
    transition.workflow_version_id == t.workflow_version_id
    && (transition.from_status_id == t.status_id
        && (transition.active_flag && transition.is_continuation))

abbrev pub move_ticket : ℕ → ℕ → ℕ → List ApprovalTicket → List ApprovalTicket
move_ticket tenant_id ticket_id status [] = []
move_ticket tenant_id ticket_id status (t ∷ rest) =
    (if is_ticket tenant_id ticket_id t then record t { status_id = status } else t)
    ∷ move_ticket tenant_id ticket_id status rest

abbrev pub continued : LockedApproval → Option Transition → Option ApprovalTicket → Work (Unit {0})
continued a (some transition) (some t) s =
    if continues transition t
    then (if any (λ id. id == a.approval_id) s.workflow_outbox
        then raised uncaught
        else done tt (record s {
          tickets = move_ticket a.tenant_id a.ticket_id transition.to_status_id s.tickets;
          workflow_outbox = s.workflow_outbox ++ a.approval_id ∷ [];
        }))
    else raised configuration_error
continued a _ _ s = raised configuration_error

-- `continue_workflow`; its `RuntimeError` is the service's configuration error
unfoldable pub continue_workflow : (ℕ → Option Transition) → LockedApproval → ℕ → Work (Unit {0})
continue_workflow transition_of a transition_id s =
    continued a (transition_of transition_id)
      (find_ticket (is_ticket a.tenant_id a.ticket_id) s.tickets) s

abbrev pub is_due : ℕ → Option ℕ → Bool
is_due now none = false
is_due now (some t) = leb t now

abbrev pub close_if_pending : ℕ → ApprovalStatus → Approval → Approval
close_if_pending now status a =
    if is_pending a.status
    then record a { status = status; completed_at = some now; row_version = a.row_version + 1 }
    else a

-- `expire_if_due`
unfoldable pub expire_if_due : ℕ → LockedApproval → Work Bool
expire_if_due now a =
    if not (is_due now a.expires_at)
    then pure false
    else if not (is_pending a.status)
    then pure false
    else modify (λ s. record s {
      approvals = map_approval a.approval_id (close_if_pending now expired) s.approvals;
    })
      >>= λ _. record_fact approval_expired a.approval_id 1 >>= λ _. pure true

abbrev pub of_ticket : ℕ → ℕ → Approval → Bool
of_ticket tenant_id ticket_id a = a.tenant_id == tenant_id && a.ticket_id == ticket_id

abbrev pub cancel_row : ℕ → ℕ → ℕ → Approval → Approval
cancel_row now tenant_id ticket_id a =
    if of_ticket tenant_id ticket_id a then close_if_pending now cancelled a else a

abbrev pub cancel_rows : ℕ → ℕ → ℕ → List Approval → List Approval
cancel_rows now tenant_id ticket_id [] = []
cancel_rows now tenant_id ticket_id (a ∷ rest) =
    cancel_row now tenant_id ticket_id a ∷ cancel_rows now tenant_id ticket_id rest

abbrev pub cancelled_ids : ℕ → ℕ → List Approval → List ℕ
cancelled_ids tenant_id ticket_id [] = []
cancelled_ids tenant_id ticket_id (a ∷ rest) =
    let others = cancelled_ids tenant_id ticket_id rest in
    if of_ticket tenant_id ticket_id a && is_pending a.status
    then a.approval_id ∷ others
    else others

unfoldable pub record_cancelled : List ℕ → Work (Unit {0})
record_cancelled [] = pure tt
record_cancelled (id ∷ rest) = record_fact approval_cancelled id 1 >>= λ _. record_cancelled rest

-- `cancel_pending`
unfoldable pub cancel_pending : ℕ → ℕ → ℕ → Work ℕ
cancel_pending now tenant_id ticket_id =
    gets (λ s. cancelled_ids tenant_id ticket_id s.approvals) >>= λ ids.
    modify (λ s. record s { approvals = cancel_rows now tenant_id ticket_id s.approvals }) >>= λ _.
    record_cancelled ids >>= λ _. pure (length ids)
