-- ===== src/Routing/Turns.antt =====
-- The members of a group take turns.
use mathlib.Core.Path.{subst}
use package.text.Mathlib.Text.{◌==◌ as text_eq}
use package.text.Mathlib.TextEquality.{eq_iff}
use helpdesk_agent.Prelude.{
  ℕ, ◌+◌, ◌≤◌, ◌≡◌, refl, sym, ap, ◌∙◌, ◌⊎◌, String, true, false, Option, some, List, [], ◌∷◌, ◌++◌,
  ◌==◌, if◌then◌else◌, arith, All, All-map, Exists, Bool-cases, inl, inr,
}
use helpdesk_agent.Desk.{HistoryRow, Desk}
use helpdesk_agent.Routing.Models.{RoutingTicket}
use helpdesk_agent.Routing.Assign.{
  Groups, Member, takes_turns, eligible, is_assignment, assignment_count, goes_before, first_of,
  next_in_turn, round_robin_assignee,
}
use helpdesk_agent.Routing.Calls.{history_row}

some_inj : {b c : ℕ} → ◌≡◌ {A = Option ℕ} (some b) (some c) → b ≡ c
some_inj e = cc

-- The member that is next goes before all of them.
module _ (counts : ℕ → ℕ) where
  goes_before_refl : (a : ℕ) → goes_before counts a a ≡ true
  goes_before_refl a = ground arith

  goes_before_trans :
      (a b c : ℕ)
      → goes_before counts a b ≡ true
      → goes_before counts b c ≡ true
      → goes_before counts a c ≡ true
  goes_before_trans a b c h k = ground arith

  goes_before_total : (a b : ℕ) → goes_before counts a b ≡ false → goes_before counts b a ≡ true
  goes_before_total a b h = ground arith

  abbrev IsNext : ℕ → List ℕ → Type 0
  IsNext user users = All (λ a. goes_before counts user a ≡ true) users

  next_in_turn-IsNext :
      (users : List ℕ) (user : ℕ) → next_in_turn counts users ≡ some user → IsNext user users
  next_in_turn-IsNext [] user h = tt
  next_in_turn-IsNext (a ∷ []) user h = rw (sym (some_inj h)) (goes_before_refl a, tt)
  next_in_turn-IsNext (a ∷ b ∷ rest) user h =
      let m = first_of counts b (next_in_turn counts rest) in
      let best : IsNext m (b ∷ rest) = next_in_turn-IsNext (b ∷ rest) m refl in
      elim (Bool-cases (goes_before counts a m)) [
        | inl first ↦
            let same : a ≡ user = some_inj (rw first at h) in
            subst (λ u. IsNext u (a ∷ b ∷ rest)) same
              (
                goes_before_refl a,
                All-map (b ∷ rest) (λ c before. goes_before_trans a m c first before) best,
              )
        | inr later ↦
            let same : m ≡ user = some_inj (rw later at h) in
            subst (λ u. IsNext u (a ∷ b ∷ rest)) same (goes_before_total a m later, best)
      ]

-- No member is more than one assignment ahead of another.
abbrev pub Balanced : (ℕ → ℕ) → List ℕ → Type 0
Balanced counts users = All (λ a. All (λ b. counts a ≤ counts b + 1) users) users

assignment_count-snoc :
    (group user : ℕ) (history : List HistoryRow) (h : HistoryRow)
    → assignment_count group user (history ++ h ∷ []) ≡ (
        if is_assignment group user h
        then assignment_count group user history + 1
        else assignment_count group user history)
assignment_count-snoc group user [] h = refl
assignment_count-snoc group user (x ∷ history) h =
    ground (arith, assignment_count-snoc group user history h)

-- The members' counts after an assignment of one of them.
module _ (group user : ℕ) (history : List HistoryRow) (row : HistoryRow)
    (own : (u : ℕ) → is_assignment group u row ≡ (user == u)) where
  abbrev before : ℕ → ℕ
  before u = assignment_count group u history

  abbrev after : ℕ → ℕ
  after u = assignment_count group u (history ++ row ∷ [])

  after_lem : (u : ℕ) → after u ≡ (if user == u then before u + 1 else before u)
  after_lem u =
      assignment_count-snoc group u history row
      ∙ ap (λ b. if b then before u + 1 else before u) (own u)

  grows : (b : ℕ) → before b ≤ after b
  grows b = rw (after_lem b) (elim (Bool-cases (user == b)) [
    | inl hit ↦ rw hit (omega arith)
    | inr miss ↦ rw miss (omega arith)
  ])

  least : (b : ℕ) → goes_before before user b ≡ true → before user ≤ before b
  least b first = ground arith

  still_close :
      (a b : ℕ) → before a ≤ before b + 1 → goes_before before user b ≡ true → after a ≤ after b + 1
  still_close a b close first = elim (Bool-cases (user == a)) [
    | inl hit ↦
        let same : user ≡ a = ground arith in
        let own_count : before a ≤ before b =
          subst (λ u. before u ≤ before b) same (least b first) in
        rw (after_lem a, hit) (omega (arith, own_count, grows b))
    | inr miss ↦ rw (after_lem a, miss) (omega (arith, close, grows b))
  ]

  close_to_all :
      (a : ℕ) (users : List ℕ)
      → All (λ b. before a ≤ before b + 1) users
      → IsNext before user users
      → All (λ b. after a ≤ after b + 1) users
  close_to_all a [] h k = tt
  close_to_all a (b ∷ rest) (close, closer) (first, firster) =
      (still_close a b close first, close_to_all a rest closer firster)

  still-Balanced :
      (users : List ℕ) → IsNext before user users → Balanced before users → Balanced after users
  still-Balanced users next h = All-map users (λ a close. close_to_all a users close next) h

-- The roles of a group whose members take turns.
abbrev pub IsTurnRole : String → Type 0
IsTurnRole role = (role ≡ "AGENT") ⊎ (role ≡ "LEAD") ⊎ (role ≡ "MANAGER")

takes_turns-role : (m : Member) → takes_turns m ≡ true → IsTurnRole m.member_role
takes_turns-role m h = elim (Bool-cases (text_eq m.member_role "AGENT")) [
  | inl agent ↦ inl ((eq_iff m.member_role "AGENT").0 agent)
  | inr other ↦ elim (Bool-cases (text_eq m.member_role "LEAD")) [
    | inl lead ↦ inr (inl ((eq_iff m.member_role "LEAD").0 lead))
    | inr manager ↦ inr (inr ((eq_iff m.member_role "MANAGER").0 (rw (other, manager) at h)))
  ]
]

role-takes_turns : (m : Member) → IsTurnRole m.member_role → takes_turns m ≡ true
role-takes_turns m (inl e) = rw ((eq_iff m.member_role "AGENT").1 e) refl
role-takes_turns m (inr (inl e)) = let h = (eq_iff m.member_role "LEAD").1 e in ground (arith, h)
role-takes_turns m (inr (inr e)) = let h = (eq_iff m.member_role "MANAGER").1 e in ground (arith, h)

-- The user comes before another one: by the count, and then by the identity.
abbrev pub IsBefore : (ℕ → ℕ) → ℕ → ℕ → Type 0
IsBefore counts a b = (counts a ≤ counts b) × (counts a ≡ counts b → a ≤ b)

-- The user is a member who takes turns, and comes before all members who do.
pub record IsTurn (counts : ℕ → ℕ) (members : List Member) (user : ℕ) : Type 0 where
  pub among : Exists (λ m. (m.user_id ≡ user) × IsTurnRole m.member_role) members
  pub first : All (λ m. IsTurnRole m.member_role → IsBefore counts user m.user_id) members

module _ (counts : ℕ → ℕ) (user : ℕ) where
  next_in_turn-among :
      (users : List ℕ) → next_in_turn counts users ≡ some user → Exists (λ a. a ≡ user) users
  next_in_turn-among [] h = cc
  next_in_turn-among (a ∷ []) h = inl (some_inj h)
  next_in_turn-among (a ∷ b ∷ rest) h =
      let m = first_of counts b (next_in_turn counts rest) in
      elim (Bool-cases (goes_before counts a m)) [
        | inl first ↦ inl (some_inj (rw first at h))
        | inr later ↦ inr (next_in_turn-among (b ∷ rest) (rw later at h))
      ]

  eligible-among :
      (members : List Member)
      → Exists (λ a. a ≡ user) (eligible members)
      → Exists (λ m. (m.user_id ≡ user) × IsTurnRole m.member_role) members
  eligible-among [] h = h
  eligible-among (m ∷ rest) h = elim (Bool-cases (takes_turns m)) [
    | inr out ↦ inr (eligible-among rest (rw out at h))
    | inl turns ↦ elim (rw turns at h) [
      | inl same ↦ inl (same, takes_turns-role m turns)
      | inr later ↦ inr (eligible-among rest later)
    ]
  ]

  before_lem : (a : ℕ) → goes_before counts user a ≡ true → IsBefore counts user a
  before_lem a h = (ground arith, λ e. ground arith)

  eligible-first :
      (members : List Member)
      → IsNext counts user (eligible members)
      → All (λ m. IsTurnRole m.member_role → IsBefore counts user m.user_id) members
  eligible-first [] h = tt
  eligible-first (m ∷ rest) h = elim (Bool-cases (takes_turns m)) [
    | inl turns ↦
        let both : IsNext counts user (m.user_id ∷ eligible rest) = rw turns at h in
        (λ role. before_lem m.user_id both.0, eligible-first rest both.1)
    | inr out ↦
        let others : IsNext counts user (eligible rest) = rw out at h in
        (λ role. absurd (cc (role-takes_turns m role)), eligible-first rest others)
  ]

-- Round robin is fair: it takes a member of the group who is an agent, lead or manager, and of all
-- those members one that has the least count of assignments to the group and, of those, the least
-- identity; and if their counts differ by one at most, then after the assignment is recorded they
-- differ by one at most again.
pub round_robin_assignee-Balanced :
    (groups : Groups) (tenant_id group : ℕ) (s : Desk) (user : ℕ) (t : RoutingTicket) (actor : ℕ)
    (rule : Option ℕ)
    → round_robin_assignee groups tenant_id group s ≡ some user
    → Balanced (λ u. assignment_count group u s.history) (eligible (groups.members tenant_id group))
    → IsTurn (λ u. assignment_count group u s.history) (groups.members tenant_id group) user
      × Balanced
          (λ u.
            assignment_count group u (s.history ++ history_row t group (some user) actor rule ∷ []))
          (eligible (groups.members tenant_id group))
unfolding round_robin_assignee
round_robin_assignee-Balanced groups tenant_id group s user t actor rule h balanced =
    let users = eligible (groups.members tenant_id group) in
    let next = next_in_turn-IsNext (λ u. assignment_count group u s.history) users user h in
    let counts = λ (u : ℕ). assignment_count group u s.history in
    (
      record {
        among =
            eligible-among counts user (groups.members tenant_id group)
              (next_in_turn-among counts user users h);
        first = eligible-first counts user (groups.members tenant_id group) next;
      },
      still-Balanced group user s.history (history_row t group (some user) actor rule)
          (λ u. ground arith) users next balanced,
    )
