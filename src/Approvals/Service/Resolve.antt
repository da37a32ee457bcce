-- ===== src/Approvals/Service/Resolve.antt =====
-- `ApprovalEngine` of apps/api/app/approvals/service.py: `request` and `_resolve`.
use package.text.Mathlib.Text.{◌==◌ as text_eq}
use helpdesk_agent.Prelude.{
  ℕ, String, Bool, true, false, not, ◌&&◌, ◌||◌, Option, none, some, List, [], ◌∷◌, ◌==◌,
  if◌then◌else◌, any, all, Result, ok, err,
}
use helpdesk_agent.Rules.Value.{
  Value, str, arr, obj, Items, nil, cons, Fields, end, field, get_field,
}
use helpdesk_agent.Approvals.Models.{
  ApprovalMode, any_one_approver, all_approvers, manager_approval, other_mode, Decision,
  ApprovalDefinition, ApprovalTicket, Transition,
}
use helpdesk_agent.Approvals.Tables.{
  ApprovalError, configuration_error, uncaught, Work, ◌>>=◌, pure, raise, ticket, create, requester,
}

-- `UUID(value)` ends with an identity, with the `TypeError` or `ValueError` that is caught, or with
-- another exception.
pub data Parsed : Type 0 where
  parsed : ℕ → Parsed
  refused failed : Parsed

-- What approvals read and never write: published definitions, users, transitions; and the library
-- functions `UUID`, `str.strip` and the hash of the canonical request.
pub record Directory : Type 0 where
  pub published_definition : ℕ → ℕ → String → Option ApprovalDefinition
  pub is_active : ℕ → ℕ → Bool
  pub manager_for : ℕ → ℕ → Option ℕ
  pub transition_of : ℕ → Option Transition
  pub parse_uuid : Value → Parsed
  pub strip : String → String
  pub request_hash : ℕ → Decision → ℕ → Option String → ℕ

abbrev pub only_keys : (String → Bool) → Fields → Bool
only_keys allowed end = true
only_keys allowed (field k v rest) = allowed k && only_keys allowed rest

abbrev pub user_rule_key : String → Bool
user_rule_key k = text_eq k "user_ids" || text_eq k "rejection_comment_required"

abbrev pub manager_rule_key : String → Bool
manager_rule_key k = text_eq k "subject" || text_eq k "rejection_comment_required"

abbrev pub contains_id : ℕ → List ℕ → Bool
contains_id id = any (λ other. other == id)

abbrev pub without_id : ℕ → List ℕ → List ℕ
without_id id [] = []
without_id id (x ∷ xs) = let rest = without_id id xs in if x == id then rest else x ∷ rest

-- `list(dict.fromkeys(...))`: each identity once, at its first place
abbrev pub distinct_ids : List ℕ → List ℕ
distinct_ids [] = []
distinct_ids (x ∷ xs) = x ∷ without_id x (distinct_ids xs)

abbrev pub parsed_or : Parsed → (ℕ → Result ApprovalError (List ℕ)) → Result ApprovalError (List ℕ)
parsed_or (parsed id) k = k id
parsed_or refused k = err configuration_error
parsed_or failed k = err uncaught

abbrev pub cons_result : ℕ → Result ApprovalError (List ℕ) → Result ApprovalError (List ℕ)
cons_result id (ok ids) = ok (id ∷ ids)
cons_result id (err e) = err e

abbrev pub parse_ids : (Value → Parsed) → Items → Result ApprovalError (List ℕ)
parse_ids parse nil = ok []
parse_ids parse (cons v rest) = parsed_or (parse v) λ id. cons_result id (parse_ids parse rest)

-- The approvers that are configured, if all of them are active.
abbrev pub active_ids : (ℕ → Bool) → Result ApprovalError (List ℕ) → Result ApprovalError (List ℕ)
active_ids is_active (err e) = err e
active_ids is_active (ok ids) =
    if all is_active (distinct_ids ids) then ok (distinct_ids ids) else err configuration_error

abbrev pub resolve_ids : Directory → ℕ → Option Value → Result ApprovalError (List ℕ)
resolve_ids dir tenant_id (some (arr (cons v rest))) =
    active_ids (dir.is_active tenant_id) (parse_ids dir.parse_uuid (cons v rest))
resolve_ids dir tenant_id _ = err configuration_error

-- The only subject of a manager rule, which is also the default.
abbrev pub subject_supported : Option Value → Bool
subject_supported none = true
subject_supported (some (str s)) = text_eq s "REQUESTED_FOR_OR_REPORTER"
subject_supported (some _) = false

abbrev pub resolve_manager : Option ℕ → Result ApprovalError (List ℕ)
resolve_manager none = err configuration_error
resolve_manager (some manager) = ok (manager ∷ [])

abbrev pub resolve_users : Directory → ApprovalTicket → Fields → Result ApprovalError (List ℕ)
resolve_users dir t rule =
    if only_keys user_rule_key rule
    then resolve_ids dir t.tenant_id (get_field "user_ids" rule)
    else err configuration_error

abbrev pub resolve_mode :
    Directory → ApprovalTicket → ApprovalMode → Fields → Result ApprovalError (List ℕ)
resolve_mode dir t any_one_approver rule = resolve_users dir t rule
resolve_mode dir t all_approvers rule = resolve_users dir t rule
resolve_mode dir t manager_approval rule =
    if only_keys manager_rule_key rule && subject_supported (get_field "subject" rule)
    then resolve_manager (dir.manager_for t.tenant_id (requester t))
    else err configuration_error
resolve_mode dir t other_mode rule = err configuration_error

abbrev pub resolve_rule :
    Directory → ApprovalTicket → ApprovalMode → Value → Result ApprovalError (List ℕ)
resolve_rule dir t mode (obj rule) = resolve_mode dir t mode rule
resolve_rule dir t mode _ = err configuration_error

-- `_resolve`
unfoldable pub resolve :
    Directory → ApprovalTicket → ApprovalDefinition → Result ApprovalError (List ℕ)
resolve dir t definition = resolve_rule dir t definition.mode definition.approver_rule

abbrev pub or_raise {ℓ} : {A : Type ℓ} → Result ApprovalError A → Work A
or_raise (ok a) = pure a
or_raise (err e) = raise e

abbrev pub need {ℓ} : {A : Type ℓ} → ApprovalError → Option A → Work A
need e none = raise e
need e (some a) = pure a

-- `ApprovalEngine.request`
unfoldable pub request : Directory → ℕ → ℕ → ℕ → String → Work ℕ
request dir now tenant_id ticket_id approval_code = ticket tenant_id ticket_id >>= λ found.
    need configuration_error found >>= λ t.
    need configuration_error (dir.published_definition tenant_id t.project_id approval_code)
    >>= λ definition. or_raise (resolve dir t definition) >>= λ approvers.
        if not definition.allow_requester_self_approval && contains_id (requester t) approvers
        then raise configuration_error
        else create now t definition approvers
