-- ===== src/Approvals/Invariant.antt =====
-- What holds of the approvals between two transactions.
use helpdesk_agent.Prelude.{
  ℕ, ◌<◌, ◌≡◌, refl, sym, Bool, true, false, not, Option, none, some, List, [], ◌∷◌, any, length,
  arith, Unique, All, Bool-cases, inl, inr, Result, ok, if◌then◌else◌, map, ==_iff,
}
use helpdesk_agent.Approvals.Models.{
  ApprovalStatus, pending, approved, rejected, cancelled, expired, Decision, approve, reject,
  Approval,
}
use helpdesk_agent.Approvals.Tables.{
  Tables, ApprovalError, Step, done, raised, committed, Work, then_work, ◌>>=◌, is_pending,
  is_approval, find_approval, map_approval, count_decided, cancel_rows, cancel_row,
}
use helpdesk_agent.Approvals.Service.{terminal_status, is_some}
use helpdesk_agent.Approvals.Votes.{same_voter}

-- The decision that a status reports.
abbrev pub result_of : ApprovalStatus → Option Decision
result_of approved = some approve
result_of rejected = some reject
result_of pending = none
result_of cancelled = none
result_of expired = none

-- The outcome that the recorded votes have under the approval's mode.
abbrev pub outcome : Approval → Result ApprovalError (Option Decision)
outcome a =
    terminal_status a.definition.mode (length a.approvers) (count_decided approve a.approvers)
      (count_decided reject a.approvers)

-- Nobody votes twice, the status is the outcome of the votes, and the end is dated.
pub record IsSettled (a : Approval) : Type 0 where
  pub voters_unique : Unique same_voter a.approvers
  pub voted : outcome a ≡ ok (result_of a.status)
  pub completion : is_some a.completed_at ≡ not (is_pending a.status)

abbrev pub same_id : Approval → Approval → Bool
same_id a = is_approval a.approval_id

pub record InOrder (s : Tables) : Type 0 where
  pub rows_settled : All IsSettled s.approvals
  pub ids_unique : Unique same_id s.approvals
  pub ids_issued : All (λ a. a.approval_id < s.next_id) s.approvals

-- A step that returns or commits leaves the tables in order; one that raises leaves none.
abbrev pub Holds {ℓ} : {A : Type ℓ} → (A → Type 0) → Step A → Type 0
Holds Q (done a s) = InOrder s × Q a
Holds Q (raised e) = Unit
Holds Q (committed e s) = InOrder s

abbrev pub Any {ℓ} : {A : Type ℓ} → A → Type 0
Any _ = Unit

module _ {ℓ} {A B : Type ℓ} (Q : A → Type 0) (R : B → Type 0) where
  then-Holds :
      (r : Step A) (f : A → Work B)
      → Holds Q r
      → ((a : A) (t : Tables) → Q a → InOrder t → Holds R (f a t))
      → Holds R (then_work r f)
  then-Holds (done a t) f h k = k a t h.1 h.0
  then-Holds (raised e) f h k = tt
  then-Holds (committed e t) f h k = h

  pub bind-Holds :
      (m : Work A) (f : A → Work B) (s : Tables)
      → Holds Q (m s)
      → ((a : A) (t : Tables) → Q a → InOrder t → Holds R (f a t))
      → Holds R ((m >>= f) s)
  unfolding ◌>>=◌
  bind-Holds m f s h k = then-Holds (m s) f h k

pub if-Holds {ℓ} :
    {A : Type ℓ} (Q : A → Type 0) (b : Bool) (m n : Work A) (s : Tables)
    → Holds Q (m s)
    → Holds Q (n s)
    → Holds Q ((if b then m else n) s)
if-Holds Q true m n s p q = p
if-Holds Q false m n s p q = q

-- A change of rows that keeps their identities.
module _ (g : Approval → Approval)
    (keeps_id : (a : Approval) → (g a).approval_id ≡ a.approval_id) where
  any-map :
      (id : ℕ) (rows : List Approval)
      → any (is_approval id) (map g rows) ≡ any (is_approval id) rows
  any-map id [] = refl
  any-map id (a ∷ rows) = rw (keeps_id a, any-map id rows) refl

  pub map-Unique : (rows : List Approval) → Unique same_id rows → Unique same_id (map g rows)
  map-Unique [] u = tt
  map-Unique (a ∷ rows) u = (rw (keeps_id a, any-map a.approval_id rows) u.0, map-Unique rows u.1)

pub map-All :
    {P : Approval → Type 0} (g : Approval → Approval) (rows : List Approval)
    → ((a : Approval) → P a → P (g a))
    → All P rows
    → All P (map g rows)
map-All g [] k h = tt
map-All g (a ∷ rows) k h = (k a h.0, map-All g rows k h.1)

pub cancel_rows-map :
    (now tenant_id ticket_id : ℕ) (rows : List Approval)
    → cancel_rows now tenant_id ticket_id rows ≡ map (cancel_row now tenant_id ticket_id) rows
cancel_rows-map now tenant_id ticket_id [] = refl
cancel_rows-map now tenant_id ticket_id (a ∷ rows) =
    rw (cancel_rows-map now tenant_id ticket_id rows) refl

module _ (id : ℕ) (f : Approval → Approval)
    (keeps_id : (a : Approval) → (f a).approval_id ≡ a.approval_id) where
  changed : Approval → Approval
  changed a = if is_approval id a then f a else a

  changed-keeps_id : (a : Approval) → (changed a).approval_id ≡ a.approval_id
  unfolding changed
  changed-keeps_id a = elim (Bool-cases (is_approval id a)) [
    | inl here ↦ rw here (keeps_id a)
    | inr there ↦ rw there refl
  ]

  map_approval-map : (rows : List Approval) → map_approval id f rows ≡ map changed rows
  unfolding changed
  map_approval-map [] = refl
  map_approval-map (a ∷ rows) = rw (map_approval-map rows) refl

  pub map_approval-Unique :
      (rows : List Approval) → Unique same_id rows → Unique same_id (map_approval id f rows)
  map_approval-Unique rows u =
      rw (map_approval-map rows) (map-Unique changed changed-keeps_id rows u)

  map_approval-absent :
      (rows : List Approval) → any (is_approval id) rows ≡ false → map_approval id f rows ≡ rows
  map_approval-absent [] h = refl
  map_approval-absent (a ∷ rows) h = ground (arith, map_approval-absent rows)

  -- Only the row that is found by the identity changes.
  pub map_approval-All :
      {P : Approval → Type 0} (rows : List Approval)
      → ((a : Approval) → find_approval id rows ≡ some a → P a → P (f a))
      → Unique same_id rows
      → All P rows
      → All P (map_approval id f rows)
  map_approval-All [] k u h = tt
  map_approval-All {P} (a ∷ rows) k u h = elim (Bool-cases (is_approval id a)) [
    | inl here ↦
        let absent : any (is_approval id) rows ≡ false =
          rw (sym ((==_iff a.approval_id id).0 here)) u.0 in
        rw (here, map_approval-absent rows absent) (k a (rw here refl) h.0, h.1)
    | inr there ↦ rw there (h.0, map_approval-All rows (λ b e. k b (rw there e)) u.1 h.1)
  ]
