-- ===== src/Approvals/Service/Calls.antt =====
-- `ApprovalService.decide` of apps/api/app/approvals/service.py with its two transactions.
use helpdesk_agent.Prelude.{
  ℕ, String, Bool, true, false, not, ◌||◌, Option, none, some, ◌==◌, if◌then◌else◌, Result, ok, err,
}
use helpdesk_agent.Approvals.Models.{ApprovalView, IdempotencyRecord}
use helpdesk_agent.Approvals.Tables.{
  ApprovalError, not_found, authorization_denied, idempotency_conflict, Tables, Step, done, raised,
  committed, Work, ◌>>=◌, pure, raise, view_for_user, claim_idempotency,
}
use helpdesk_agent.Approvals.Service.Resolve.{Directory, need}
use helpdesk_agent.Approvals.Service.Verdict.{Command, stripped, decide_locked}

abbrev pub is_foreign : IdempotencyRecord → ℕ → ℕ → Bool
is_foreign idem hash user_id = not (idem.request_hash == hash) || not (idem.principal_id == user_id)

-- The view that answers the request.
unfoldable pub answer : ℕ → ℕ → ℕ → Work ApprovalView
answer tenant_id approval_id user_id =
    view_for_user tenant_id approval_id user_id >>= λ found. need not_found found

-- The first transaction of `decide`; a replay has its answer from it.
unfoldable pub decide_once :
    Directory → ℕ → ℕ → ℕ → ℕ → Command → String → Work (Option ApprovalView)
decide_once dir now tenant_id user_id approval_id command key =
    let comment = stripped dir.strip command.comment in
    let hash = dir.request_hash approval_id command.decision command.expected_version comment in
    claim_idempotency tenant_id user_id key hash >>= λ idem.
    if is_foreign idem hash user_id
    then raise idempotency_conflict
    else if idem.completed
    then (answer tenant_id approval_id user_id >>= λ v. pure (some v))
    else (decide_locked dir now tenant_id user_id approval_id command comment idem >>= λ _.
        pure none)

-- A transaction: an exception before its commit leaves the tables as they were.
abbrev pub ended {ℓ} : {A : Type ℓ} → Tables → Step A → Result ApprovalError A × Tables
ended s (done a s') = (ok a, s')
ended s (raised e) = (err e, s)
ended s (committed e s') = (err e, s')

unfoldable pub transaction {ℓ} : {A : Type ℓ} → Work A → Tables → Result ApprovalError A × Tables
transaction m s = ended s (m s)

-- A view, and whether the request was replayed.
abbrev pub answered :
    Bool → Result ApprovalError ApprovalView → Result ApprovalError (ApprovalView × Bool)
answered replayed (ok v) = ok (v, replayed)
answered replayed (err e) = err e

-- The second transaction reads the view.
abbrev pub respond :
    ℕ
    → ℕ
    → ℕ
    → Result ApprovalError (Option ApprovalView) × Tables
    → Result ApprovalError (ApprovalView × Bool) × Tables
respond tenant_id approval_id user_id (ok (some v), s) = (ok (v, true), s)
respond tenant_id approval_id user_id (ok none, s) =
    let (found, s') = transaction (answer tenant_id approval_id user_id) s in
    (answered false found, s')
respond tenant_id approval_id user_id (err e, s) = (err e, s)

-- `ApprovalService.decide`; `allowed` is the permission check, and an identity may be missing
unfoldable pub decide :
    Directory
    → ℕ
    → Bool
    → Option (ℕ × ℕ)
    → ℕ
    → Command
    → String
    → Tables
    → Result ApprovalError (ApprovalView × Bool) × Tables
decide dir now false identity approval_id command key s = (err authorization_denied, s)
decide dir now true none approval_id command key s = (err not_found, s)
decide dir now true (some (tenant_id, user_id)) approval_id command key s =
    respond tenant_id approval_id user_id
      (transaction (decide_once dir now tenant_id user_id approval_id command key) s)
