-- ===== src/Approvals/View.antt =====
-- What a decision that was recorded shows to its author.
use helpdesk_agent.Prelude.{
  ℕ, ◌<◌, ◌≡◌, refl, sym, ap, ◌∙◌, String, true, false, not, ◌&&◌, Option, none, some, List, [],
  ◌∷◌, arith, Bool-cases, inl, inr, ◌==◌, ==_iff, ok,
}
use helpdesk_agent.Rules.Value.{Value, boolean, obj, Fields, get_field}
use helpdesk_agent.Approvals.Models.{
  Decision, reject, Approver, Approval, ApprovalView, ApprovalTicket,
}
use helpdesk_agent.Approvals.Tables.{
  Tables, is_due, is_approver, is_approval, is_pending, find_approver, find_approval, map_approval,
  decided_approval, decide_row, decide_rows, view, view_of, find_ticket, requester,
}
use helpdesk_agent.Approvals.Service.{
  Directory, Command, stripped, is_some, is_reject, comment_required, decide,
}
use helpdesk_agent.Approvals.Decide.{next_outcome, decided_approval-id}
use helpdesk_agent.Approvals.Recorded.{IsRecorded}
use helpdesk_agent.Approvals.Keys.{claim-found}
use helpdesk_agent.Approvals.Replay.{decide-IsFirst, first-IsRecorded}

some_inj {ℓ} : {A : Type ℓ} {x y : A} → ◌≡◌ {A = Option A} (some x) (some y) → x ≡ y
some_inj e = cc

find_approval-map_approval :
    (id : ℕ) (f : Approval → Approval) (keeps : (a : Approval) → (f a).approval_id ≡ a.approval_id)
    (rows : List Approval) (a : Approval)
    → find_approval id rows ≡ some a
    → find_approval id (map_approval id f rows) ≡ some (f a)
find_approval-map_approval id f keeps [] a h = cc
find_approval-map_approval id f keeps (r ∷ rows) a h = elim (Bool-cases (is_approval id r)) [
  | inl hit ↦
      let moved : is_approval id (f r) ≡ true = ap (λ n. n == id) (keeps r) ∙ hit in
      let same : r ≡ a = some_inj (rw hit at h) in rw (hit, moved) (ap (λ x. some (f x)) same)
  | inr miss ↦ rw (miss, miss) (find_approval-map_approval id f keeps rows a (rw miss at h))
]

module _ (now user : ℕ) (d : Decision) (comment : Option String) where
  decide_row-user :
      (r : Approver) → (decide_row now user d comment r).approver_user_id ≡ r.approver_user_id
  decide_row-user r = ground arith

  find_approver-decide_rows :
      (rows : List Approver) (v : Approver)
      → find_approver user rows ≡ some v
      → find_approver user (decide_rows now user d comment rows)
        ≡ some (decide_row now user d comment v)
  find_approver-decide_rows [] v h = cc
  find_approver-decide_rows (r ∷ rows) v h = elim (Bool-cases (is_approver user r)) [
    | inl hit ↦
        let same : r ≡ v = some_inj (rw hit at h) in
        let hit_too : is_approver user v ≡ true = rw same at hit in
        rw (same, decide_row-user v, hit_too) refl
    | inr miss ↦ rw (decide_row-user r, miss) (find_approver-decide_rows rows v (rw miss at h))
  ]

  decided_approval-approvers :
      (terminal : Option Decision) (a : Approval)
      → (decided_approval now user d comment terminal a).approvers
        ≡ decide_rows now user d comment a.approvers
  decided_approval-approvers none a = refl
  decided_approval-approvers (some _) a = refl

  decided_approval-tenant :
      (terminal : Option Decision) (a : Approval)
      → (decided_approval now user d comment terminal a).tenant_id ≡ a.tenant_id
  decided_approval-tenant none a = refl
  decided_approval-tenant (some _) a = refl

module _ (now tenant_id user id : ℕ) (command : Command) (comment : Option String) where
  pub recorded-view_of :
      {s t : Tables} {idem : _} (r : IsRecorded now tenant_id user id command comment idem s t)
      → view_of tenant_id user (find_approval id t.approvals)
        ≡ some (
            view
              (decided_approval now user command.decision comment r.terminal r.found.row)
              (decide_row now user command.decision comment r.found.voter))
  recorded-view_of {s} {t} {idem} r =
      let f = decided_approval now user command.decision comment r.terminal in
      let keeps = decided_approval-id now user command.decision comment r.terminal in
      let after : find_approval id t.approvals ≡ some (f r.found.row) =
        rw r.approvals_after
          (find_approval-map_approval id f keeps s.approvals r.found.row r.found.row_found) in
      let own : ((f r.found.row).tenant_id == tenant_id) ≡ true =
        ap (λ n. n == tenant_id)
          (decided_approval-tenant now user command.decision comment r.terminal r.found.row)
        ∙ r.found.own_tenant in
      let mine : find_approver user (f r.found.row).approvers
          ≡ some (decide_row now user command.decision comment r.found.voter) =
        ap (find_approver user)
          (decided_approval-approvers now user command.decision comment r.terminal r.found.row)
        ∙ find_approver-decide_rows now user command.decision comment r.found.row.approvers
            r.found.voter r.found.voter_found in
      rw (after, own, mine) refl

not_due-live :
    (now : ℕ) (expires : Option ℕ)
    → is_due now expires ≡ false
    → (t : ℕ) → expires ≡ some t
    → now < t
not_due-live now none h t e = cc
not_due-live now (some u) h t e = let same : u ≡ t = some_inj e in ground arith

has_comment :
    (d : Decision) (v : Value) (comment : Option String)
    → (is_reject d && (comment_required v && not (is_some comment))) ≡ false
    → (rule : Fields) → d ≡ reject
    → v ≡ obj rule
    → get_field "rejection_comment_required" rule ≡ some (boolean true)
    → (c : String) × (comment ≡ some c)
has_comment d v (some c) h rule rejects is_rule asked = (c, refl)
has_comment d v none h rule rejects is_rule asked = absurd (cc (rw (rejects, is_rule, asked) at h))

-- What a decision answered without a replay has met and has written.
pub record IsDecision (now tenant_id user id : ℕ) (command : Command) (comment : Option String)
    (s : Tables) (v : ApprovalView) (t : Tables) : Type 0 where
  pub row : Approval
  pub of_ticket : ApprovalTicket
  pub voter : Approver
  pub terminal : Option Decision
  pub row_found : find_approval id s.approvals ≡ some row
  pub own_tenant : row.tenant_id ≡ tenant_id
  pub ticket_found : find_ticket (λ t. t.ticket_id == row.ticket_id) s.tickets ≡ some of_ticket
  pub voter_found : find_approver user row.approvers ≡ some voter
  pub waiting : is_pending row.status ≡ true
  pub current : row.row_version ≡ command.expected_version
  pub idle : voter.decision ≡ none
  pub not_own :
      (not row.definition.allow_requester_self_approval && requester of_ticket == user) ≡ false
  pub live : (t : ℕ) → row.expires_at ≡ some t → now < t
  pub commented :
      (rule : Fields)
      → command.decision ≡ reject
      → row.definition.approver_rule ≡ obj rule
      → get_field "rejection_comment_required" rule ≡ some (boolean true)
      → (c : String) × (comment ≡ some c)
  pub counted : next_outcome command.decision row ≡ ok terminal
  pub approvals_after :
      t.approvals
      ≡ map_approval id (decided_approval now user command.decision comment terminal) s.approvals
  pub shown :
      v
      ≡ view
          (decided_approval now user command.decision comment terminal row)
          (decide_row now user command.decision comment voter)

-- A call that answers without a replay found a pending approval of the caller's tenant at the
-- expected version that had not expired, in which the caller had not voted yet and whose requester
-- the caller is not, unless that is allowed; a rejection has a comment where the approval's rule asks
-- for one; it recorded the vote in that approval and settled it as the mode decides
-- from the recorded votes and this one, left every other approval alone, and shows the result.
pub decide-recorded :
    (dir : Directory) (now tenant_id user id : ℕ) (command : Command) (key : String) (s t : Tables)
    (v : ApprovalView)
    → decide dir now true (some (tenant_id, user)) id command key s ≡ (ok (v, false), t)
    → IsDecision now tenant_id user id command (stripped dir.strip command.comment) s v t
decide-recorded dir now tenant_id user id command key s t v e =
    let (f, seen) = decide-IsFirst dir now tenant_id user id command key s t v e in
    let r = first-IsRecorded dir now tenant_id user id command key s t f in
    let (_, same, same_tickets) =
      claim-found tenant_id user key _ s f.claimed_tables f.idem f.claim in
    let lock = r.found.is_view in
    record {
      row = r.found.row;
      of_ticket = r.found.of_ticket;
      voter = r.found.voter;
      terminal = r.terminal;
      row_found = rw same at r.found.row_found;
      own_tenant = (==_iff r.found.row.tenant_id tenant_id).0 r.found.own_tenant;
      ticket_found = rw same_tickets at r.found.ticket_found;
      voter_found = r.found.voter_found;
      waiting = rw lock at r.allowed.waiting;
      current = rw lock at r.allowed.current;
      idle = rw lock at r.allowed.idle;
      not_own = rw lock at r.allowed.not_own;
      live = not_due-live now r.found.row.expires_at (rw lock at r.live);
      commented =
          has_comment command.decision r.found.row.definition.approver_rule
            (stripped dir.strip command.comment) (rw lock at r.allowed.commented);
      counted = r.counted;
      approvals_after = rw same at r.approvals_after;
      shown = some_inj (
          sym seen
          ∙ recorded-view_of now tenant_id user id command (stripped dir.strip command.comment) r);
    }
