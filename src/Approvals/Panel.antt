-- ===== src/Approvals/Panel.antt =====
-- The approvers that `_resolve` names: at least one, and none twice.
use helpdesk_agent.Prelude.{
  ℕ, suc, ◌≡◌, refl, Bool, true, false, ◌&&◌, Option, none, some, List, [], ◌∷◌, all, length, arith,
  Unique, Bool-cases, inl, inr, ◌==◌, Result, ok, err,
}
use helpdesk_agent.Rules.Value.{Value, arr, obj, Items, cons, Fields, get_field}
use helpdesk_agent.Approvals.Models.{
  ApprovalMode, any_one_approver, all_approvers, manager_approval, other_mode, ApprovalDefinition,
  ApprovalTicket,
}
use helpdesk_agent.Approvals.Tables.{ApprovalError, requester}
use helpdesk_agent.Approvals.Service.{
  terminal_status, Directory, resolve, distinct_ids, without_id, contains_id, resolve_rule,
  resolve_mode, resolve_users, resolve_ids, active_ids, parse_ids, parsed_or, cons_result, Parsed,
  parsed, refused, failed, only_keys, user_rule_key, manager_rule_key, subject_supported,
  resolve_manager,
}

abbrev pub same_user : ℕ → ℕ → Bool
same_user a b = b == a

contains_id-without_id :
    (id x : ℕ) (xs : List ℕ) → contains_id x xs ≡ false → contains_id x (without_id id xs) ≡ false
contains_id-without_id id x [] h = refl
contains_id-without_id id x (y ∷ ys) h = ground (arith, contains_id-without_id id x ys)

without_id-absent : (id : ℕ) (xs : List ℕ) → contains_id id (without_id id xs) ≡ false
without_id-absent id [] = refl
without_id-absent id (y ∷ ys) = ground (arith, without_id-absent id ys)

without_id-Unique :
    (id : ℕ) (xs : List ℕ) → Unique same_user xs → Unique same_user (without_id id xs)
without_id-Unique id [] u = tt
without_id-Unique id (y ∷ ys) u = elim (Bool-cases (y == id)) [
  | inl hit ↦ rw hit (without_id-Unique id ys u.1)
  | inr miss ↦ rw miss (contains_id-without_id id y ys u.0, without_id-Unique id ys u.1)
]

pub distinct_ids-Unique : (xs : List ℕ) → Unique same_user (distinct_ids xs)
distinct_ids-Unique [] = tt
distinct_ids-Unique (x ∷ xs) = (
  without_id-absent x (distinct_ids xs),
  without_id-Unique x (distinct_ids xs) (distinct_ids-Unique xs),
)

-- The approvers of a new approval: each once, and not decided before any of them has voted.
pub record IsPanel (mode : ApprovalMode) (ids : List ℕ) : Type 0 where
  pub once : Unique same_user ids
  pub open_vote : terminal_status mode (length ids) 0 0 ≡ ok none

abbrev PanelIfOk : ApprovalMode → Result ApprovalError (List ℕ) → Type 0
PanelIfOk mode (ok ids) = IsPanel mode ids
PanelIfOk mode (err e) = Unit

abbrev is_cons : List ℕ → Bool
is_cons [] = false
is_cons (_ ∷ _) = true

abbrev asks_users : ApprovalMode → Bool
asks_users any_one_approver = true
asks_users all_approvers = true
asks_users _ = false

open_vote_lem :
    (mode : ApprovalMode) (n : ℕ)
    → asks_users mode ≡ true
    → terminal_status mode (suc n) 0 0 ≡ ok none
unfolding terminal_status
open_vote_lem any_one_approver n h = ground arith
open_vote_lem all_approvers n h = ground arith
open_vote_lem manager_approval n h = cc
open_vote_lem other_mode n h = cc

module _ (mode : ApprovalMode) (users : asks_users mode ≡ true) where
  active_ids-IsPanel :
      (active : ℕ → Bool) (id : ℕ) (r : Result ApprovalError (List ℕ))
      → PanelIfOk mode (active_ids active (cons_result id r))
  active_ids-IsPanel active id (err e) = tt
  active_ids-IsPanel active id (ok ids) = elim (Bool-cases (all active (distinct_ids (id ∷ ids)))) [
    | inr some_inactive ↦ rw some_inactive tt
    | inl all_active ↦ rw all_active (record {
      once = distinct_ids-Unique (id ∷ ids);
      open_vote = open_vote_lem mode (length (without_id id (distinct_ids ids))) users;
    })
  ]

  parse_ids-IsPanel :
      (active : ℕ → Bool) (parse : Value → Parsed) (p : Parsed) (rest : Items)
      → PanelIfOk mode (active_ids active (parsed_or p λ id. cons_result id (parse_ids parse rest)))
  parse_ids-IsPanel active parse (parsed id) rest =
      active_ids-IsPanel active id (parse_ids parse rest)
  parse_ids-IsPanel active parse refused rest = tt
  parse_ids-IsPanel active parse failed rest = tt

  resolve_ids-IsPanel :
      (dir : Directory) (tenant_id : ℕ) (v : Option Value)
      → PanelIfOk mode (resolve_ids dir tenant_id v)
  resolve_ids-IsPanel dir tenant_id (some (arr (cons v rest))) =
      parse_ids-IsPanel (dir.is_active tenant_id) dir.parse_uuid (dir.parse_uuid v) rest
  resolve_ids-IsPanel dir tenant_id _ = tt

  resolve_users-IsPanel :
      (dir : Directory) (t : ApprovalTicket) (rule : Fields)
      → PanelIfOk mode (resolve_users dir t rule)
  resolve_users-IsPanel dir t rule = elim (Bool-cases (only_keys user_rule_key rule)) [
    | inl known ↦ rw known (resolve_ids-IsPanel dir t.tenant_id (get_field "user_ids" rule))
    | inr unknown ↦ rw unknown tt
  ]

resolve_manager-IsPanel : (m : Option ℕ) → PanelIfOk manager_approval (resolve_manager m)
unfolding terminal_status
resolve_manager-IsPanel none = tt
resolve_manager-IsPanel (some manager) = record { once = (refl, tt); open_vote = refl }

resolve_mode-IsPanel :
    (dir : Directory) (t : ApprovalTicket) (mode : ApprovalMode) (rule : Fields)
    → PanelIfOk mode (resolve_mode dir t mode rule)
resolve_mode-IsPanel dir t any_one_approver rule =
    resolve_users-IsPanel any_one_approver refl dir t rule
resolve_mode-IsPanel dir t all_approvers rule = resolve_users-IsPanel all_approvers refl dir t rule
resolve_mode-IsPanel dir t manager_approval rule =
    elim (Bool-cases
      (only_keys manager_rule_key rule && subject_supported (get_field "subject" rule))) [
        | inl known ↦ rw known (resolve_manager-IsPanel (dir.manager_for t.tenant_id (requester t)))
        | inr unknown ↦ rw unknown tt
      ]
resolve_mode-IsPanel dir t other_mode rule = tt

resolve_rule-IsPanel :
    (dir : Directory) (t : ApprovalTicket) (mode : ApprovalMode) (rule : Value)
    → PanelIfOk mode (resolve_rule dir t mode rule)
resolve_rule-IsPanel dir t mode (obj rule) = resolve_mode-IsPanel dir t mode rule
resolve_rule-IsPanel dir t mode _ = tt

pub resolve-IsPanel :
    (dir : Directory) (t : ApprovalTicket) (d : ApprovalDefinition) (ids : List ℕ)
    → resolve dir t d ≡ ok ids
    → IsPanel d.mode ids
unfolding resolve
resolve-IsPanel dir t d ids e = rw e at (resolve_rule-IsPanel dir t d.mode d.approver_rule)
