-- ===== src/Sla/Goals/Choice.antt =====
-- What `_select_goal` chooses.
use mathlib.Core.Path.{subst}
use mathlib.Core.List.{Perm}
use mathlib.Core.List.Perm
use helpdesk_agent.Prelude.{
  ℕ, ◌≤◌, ◌<◌, ◌≡◌, ◌⊎◌, refl, sym, ap, Bool, true, false, String, List, [], ◌∷◌, ◌++◌, ◌==◌, All,
  All-map, arith, ok, >>=-eq-ok, Bool-cases, inl, inr, ok_inj,
}
use helpdesk_agent.Rules.Value.{Value}
use helpdesk_agent.Sla.Models.{SlaGoalVersion, TicketFacts, rule_values}
use helpdesk_agent.Sla.Goals.{
  goal_le, insert_goal, sort_goals, first_goal, goal_matches, matching_goals, select_goal,
}

insert-Perm : (g : SlaGoalVersion) (l : List SlaGoalVersion) → Perm (insert_goal g l) (g ∷ l)
insert-Perm g [] = Perm.refl (g ∷ [])
insert-Perm g (h ∷ l) = elim (Bool-cases (goal_le g h)) [
  | inl first ↦ rw first (Perm.refl (g ∷ h ∷ l))
  | inr later ↦ rw later (Perm.trans (Perm.cons h (insert-Perm g l)) (Perm.swap g h l))
]

middle-Perm : (g : SlaGoalVersion) (l m : List SlaGoalVersion) → Perm (l ++ g ∷ m) (g ∷ (l ++ m))
middle-Perm g [] m = Perm.refl (g ∷ m)
middle-Perm g (h ∷ l) m = Perm.trans (Perm.cons h (middle-Perm g l m)) (Perm.swap g h (l ++ m))

sort-Perm : (l : List SlaGoalVersion) → Perm (sort_goals l) l
sort-Perm [] = Perm.refl []
sort-Perm (g ∷ l) = Perm.trans (insert-Perm g (sort_goals l)) (Perm.cons g (sort-Perm l))

-- No goal of the list comes before `g` in priority.
abbrev NotBefore : ℕ → List SlaGoalVersion → Type 0
NotBefore p = All (λ (h : SlaGoalVersion). p ≤ h.priority_order)

abbrev InOrder : List SlaGoalVersion → Type 0
InOrder [] = Unit
InOrder (g ∷ l) = NotBefore g.priority_order l × InOrder l

insert-NotBefore :
    (p : ℕ) (g : SlaGoalVersion) (l : List SlaGoalVersion)
    → p ≤ g.priority_order
    → NotBefore p l
    → NotBefore p (insert_goal g l)
insert-NotBefore p g [] h a = (h, tt)
insert-NotBefore p g (k ∷ l) h a = elim (Bool-cases (goal_le g k)) [
  | inl first ↦ rw first (h, a)
  | inr later ↦ rw later (a.0, insert-NotBefore p g l h a.1)
]

goal_le→le : (g h : SlaGoalVersion) → goal_le g h ≡ true → g.priority_order ≤ h.priority_order
goal_le→le g h e = ground arith

not_goal_le→le : (g h : SlaGoalVersion) → goal_le g h ≡ false → h.priority_order ≤ g.priority_order
not_goal_le→le g h e = ground arith

insert-InOrder :
    (g : SlaGoalVersion) (l : List SlaGoalVersion) → InOrder l → InOrder (insert_goal g l)
insert-InOrder g [] o = (tt, tt)
insert-InOrder g (h ∷ l) o = elim (Bool-cases (goal_le g h)) [
  | inl first ↦
      let below = goal_le→le g h first in
      rw first (
        (
          below,
          All-map l (λ (k : SlaGoalVersion) (q : h.priority_order ≤ k.priority_order). omega arith)
              o.0,
        ),
        o,
      )
  | inr later ↦
      rw later (
        insert-NotBefore h.priority_order g l (not_goal_le→le g h later) o.0,
        insert-InOrder g l o.1,
      )
]

sort-InOrder : (l : List SlaGoalVersion) → InOrder (sort_goals l)
sort-InOrder [] = tt
sort-InOrder (g ∷ l) = insert-InOrder g (sort_goals l) (sort-InOrder l)

module _ (P : SlaGoalVersion → Type 0) where
  insert-All :
      (g : SlaGoalVersion) (l : List SlaGoalVersion) → P g → All P l → All P (insert_goal g l)
  insert-All g [] h a = (h, tt)
  insert-All g (k ∷ l) h a = elim (Bool-cases (goal_le g k)) [
    | inl first ↦ rw first (h, a)
    | inr later ↦ rw later (a.0, insert-All g l h a.1)
  ]

  sort-All : (l : List SlaGoalVersion) → All P l → All P (sort_goals l)
  sort-All [] a = tt
  sort-All (g ∷ l) a = insert-All g (sort_goals l) a.0 (sort-All l a.1)

-- The first goal comes strictly before all others.
first-goal_lem :
    (sorted : List SlaGoalVersion) (g : SlaGoalVersion)
    → InOrder sorted
    → first_goal sorted ≡ ok g
    → (others : List SlaGoalVersion) × (sorted ≡ g ∷ others)
      × All (λ h. g.priority_order < h.priority_order) others
first-goal_lem [] g o e = absurd (cc)
first-goal_lem (h ∷ []) g o e = ([], ap (λ x. x ∷ []) (ok_inj e), tt)
first-goal_lem (h ∷ k ∷ rest) g o e = elim (Bool-cases (h.priority_order == k.priority_order)) [
  | inl tie ↦ absurd (cc (rw tie at e))
  | inr apart ↦
      let same : h ≡ g = ok_inj (rw apart at e) in
      let strict : h.priority_order < k.priority_order = ground (arith, o.0.0) in
      rw (sym same) (
        k ∷ rest,
        refl,
        (
          strict,
          All-map rest
              (λ (m : SlaGoalVersion) (q : k.priority_order ≤ m.priority_order). omega arith) o.1.0,
        ),
      )
]

-- The conditions of a goal, decided on the ticket.
abbrev pub Decides : (Value → String) → TicketFacts → SlaGoalVersion → Bool → Type 0
Decides python_str ticket g b =
    goal_matches python_str g.match_conditions (rule_values ticket) ≡ ok b

-- The goal's conditions do not hold, or hold with a priority number greater than that of `g`.
abbrev pub IsAfter : (Value → String) → TicketFacts → SlaGoalVersion → SlaGoalVersion → Type 0
IsAfter python_str ticket g h =
    Decides python_str ticket h false
    ⊎ (Decides python_str ticket h true × (g.priority_order < h.priority_order))

-- A goal that is chosen holds, and comes before all others that hold.
pub record IsChosen (python_str : Value → String) (ticket : TicketFacts)
    (goals : List SlaGoalVersion) (g : SlaGoalVersion) : Type 0 where
  pub others : List SlaGoalVersion
  pub all_goals : Perm goals (g ∷ others)
  pub holds : Decides python_str ticket g true
  pub others_after : All (IsAfter python_str ticket g) others

module _ (python_str : Value → String) (ticket : TicketFacts) where
  -- The goals whose conditions hold and those whose conditions do not are all goals.
  matching_goals-parts :
      (goals candidates : List SlaGoalVersion)
      → matching_goals python_str (rule_values ticket) goals ≡ ok candidates
      → (rejected : List SlaGoalVersion) × Perm goals (candidates ++ rejected)
        × All (λ g. Decides python_str ticket g true) candidates
        × All (λ g. Decides python_str ticket g false) rejected
  unfolding matching_goals
  matching_goals-parts [] candidates e =
      subst
        (λ cs.
          (rejected : List SlaGoalVersion) × Perm [] (cs ++ rejected)
          × All (λ g. Decides python_str ticket g true) cs
          × All (λ g. Decides python_str ticket g false) rejected)
        (ok_inj e) ([], Perm.refl [], tt, tt)
  matching_goals-parts (goal ∷ rest) candidates e =
      let (matched, decided, e₁) =
        >>=-eq-ok (goal_matches python_str goal.match_conditions (rule_values ticket)) _ e in
      let (others, found, e₂) =
        >>=-eq-ok (matching_goals python_str (rule_values ticket) rest) _ e₁ in
      let (rejected, parts, hold, fail) = matching_goals-parts rest others found in
      elim (Bool-cases matched) [
        | inl matching ↦
            rw (sym (ok_inj (rw matching at e₂)))
              (rejected, Perm.cons goal parts, (rw matching at decided, hold), fail)
        | inr failing ↦ rw (sym (ok_inj (rw failing at e₂))) (
          goal ∷ rejected,
          Perm.trans (Perm.cons goal parts) (Perm.symm (middle-Perm goal others rejected)),
          hold,
          (rw failing at decided, fail),
        )
      ]

  both :
      (g : SlaGoalVersion) (l : List SlaGoalVersion)
      → All (λ h. Decides python_str ticket h true) l
      → All (λ h. g.priority_order < h.priority_order) l
      → All (IsAfter python_str ticket g) l
  both g [] a b = tt
  both g (h ∷ l) a b = (inr (a.0, b.0), both g l a.1 b.1)

All-append :
    (P : SlaGoalVersion → Type 0) (l m : List SlaGoalVersion) → All P l → All P m → All P (l ++ m)
All-append P [] m a b = b
All-append P (x ∷ l) m a b = (a.0, All-append P l m a.1 b)

-- If `_select_goal` returns a goal, then the goal's conditions hold of the ticket, and of each other
-- goal the conditions are decided: they do not hold, or they hold and its priority number is greater.
pub select_goal-Chosen :
    (python_str : Value → String) (goals : List SlaGoalVersion) (ticket : TicketFacts)
    (g : SlaGoalVersion)
    → select_goal python_str goals ticket ≡ ok g
    → IsChosen python_str ticket goals g
unfolding select_goal
select_goal-Chosen python_str goals ticket g e =
    let (candidates, found, first) =
      >>=-eq-ok (matching_goals python_str (rule_values ticket) goals)
        (λ candidates. first_goal (sort_goals candidates)) e in
    let (rejected, parts, hold, fail) =
      matching_goals-parts python_str ticket goals candidates found in
    let (others, sorted, after) =
      first-goal_lem (sort_goals candidates) g (sort-InOrder candidates) first in
    let order : Perm (g ∷ others) candidates = rw sorted at (sort-Perm candidates) in
    let all_hold : All (λ h. Decides python_str ticket h true) (g ∷ others) =
      rw sorted at (sort-All (λ h. Decides python_str ticket h true) candidates hold) in
    record {
      others = others ++ rejected;
      all_goals = Perm.trans parts (Perm.append_right rejected (Perm.symm order));
      holds = all_hold.0;
      others_after =
          All-append (IsAfter python_str ticket g) others rejected
            (both python_str ticket g others all_hold.1 after)
            (All-map rejected (λ h failing. inl failing) fail);
    }
