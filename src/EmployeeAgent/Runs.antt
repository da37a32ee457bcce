-- ===== src/EmployeeAgent/Runs.antt =====
-- The runs of the state machine.
use helpdesk_agent.Prelude.{
  ℕ, ◌==◌, arith, ◌≡◌, refl, sym, ◌∙◌, ◌⊎◌, ◌↔◌, inl, inr, Bool, true, false, ◌||◌, none, some,
  Bool-cases,
}
use helpdesk_agent.EmployeeAgent.Machine.{
  AgentState, new, collecting_information, classified, searching_knowledge, solution_proposed,
  awaiting_resolution_confirmation, resolved_without_ticket, collecting_ticket_fields,
  ticket_draft_ready, awaiting_user_confirmation, ticket_submitted, advance, same_state,
  state_number,
}

-- The calls of `advance` that returned, the last one last.
pub data Run (s : AgentState) : AgentState → Type 0 where
  here : Run s s
  advanced : {t u : AgentState} → Run s t → advance t u ≡ some u → Run s u

-- Whether a run has been in a state before its last one.
abbrev pub passed : {s t : AgentState} → AgentState → Run s t → Bool
passed x here = false
passed x (advanced {t} {u} r e) = same_state x t || passed x r

-- The states that `advance` reaches the last three states from.
into_submitted :
    (t : AgentState)
    → advance t ticket_submitted ≡ some ticket_submitted
    → t ≡ awaiting_user_confirmation
unfolding advance
into_submitted new e = cc
into_submitted collecting_information e = cc
into_submitted classified e = cc
into_submitted searching_knowledge e = cc
into_submitted solution_proposed e = cc
into_submitted awaiting_resolution_confirmation e = cc
into_submitted resolved_without_ticket e = cc
into_submitted collecting_ticket_fields e = cc
into_submitted ticket_draft_ready e = cc
into_submitted awaiting_user_confirmation e = refl
into_submitted ticket_submitted e = cc

into_awaiting :
    (t : AgentState)
    → advance t awaiting_user_confirmation ≡ some awaiting_user_confirmation
    → t ≡ ticket_draft_ready
unfolding advance
into_awaiting new e = cc
into_awaiting collecting_information e = cc
into_awaiting classified e = cc
into_awaiting searching_knowledge e = cc
into_awaiting solution_proposed e = cc
into_awaiting awaiting_resolution_confirmation e = cc
into_awaiting resolved_without_ticket e = cc
into_awaiting collecting_ticket_fields e = cc
into_awaiting ticket_draft_ready e = refl
into_awaiting awaiting_user_confirmation e = cc
into_awaiting ticket_submitted e = cc

into_draft :
    (t : AgentState)
    → advance t ticket_draft_ready ≡ some ticket_draft_ready
    → t ≡ collecting_ticket_fields
unfolding advance
into_draft new e = cc
into_draft collecting_information e = cc
into_draft classified e = cc
into_draft searching_knowledge e = cc
into_draft solution_proposed e = cc
into_draft awaiting_resolution_confirmation e = cc
into_draft resolved_without_ticket e = cc
into_draft collecting_ticket_fields e = refl
into_draft ticket_draft_ready e = cc
into_draft awaiting_user_confirmation e = cc
into_draft ticket_submitted e = cc

==_refl : (n : ℕ) → (n == n) ≡ true
==_refl n = ground arith

same_state_refl : (x t : AgentState) → t ≡ x → same_state x t ≡ true
same_state_refl x t e = rw e (==_refl (state_number x))

later :
    (x t : AgentState) {s : AgentState} (r : Run s t)
    → passed x r ≡ true
    → (same_state x t || passed x r) ≡ true
later x t r h = elim (Bool-cases (same_state x t)) [
  | inl now ↦ rw now refl
  | inr not_now ↦ rw not_now h
]

draft-passed :
    {t : AgentState} (r : Run new t)
    → t ≡ ticket_draft_ready
    → passed collecting_ticket_fields r ≡ true
draft-passed here q = cc
draft-passed (advanced {t} {u} r e) q =
    rw (same_state_refl collecting_ticket_fields t (into_draft t (rw q at e))) refl

awaiting-passed :
    {t : AgentState} (r : Run new t)
    → t ≡ awaiting_user_confirmation
    → (passed collecting_ticket_fields r ≡ true) × (passed ticket_draft_ready r ≡ true)
awaiting-passed here q = cc
awaiting-passed (advanced {t} {u} r e) q =
    let from : t ≡ ticket_draft_ready = into_awaiting t (rw q at e) in
    (
      later collecting_ticket_fields t r (draft-passed r from),
      rw (same_state_refl ticket_draft_ready t from) refl,
    )

submitted-passed :
    {t : AgentState} (r : Run new t)
    → t ≡ ticket_submitted
    → (passed collecting_ticket_fields r ≡ true)
      × (passed ticket_draft_ready r ≡ true)
      × (passed awaiting_user_confirmation r ≡ true)
submitted-passed here q = cc
submitted-passed (advanced {t} {u} r e) q =
    let from : t ≡ awaiting_user_confirmation = into_submitted t (rw q at e) in
    let earlier = awaiting-passed r from in
    (
      later collecting_ticket_fields t r earlier.0,
      later ticket_draft_ready t r earlier.1,
      rw (same_state_refl awaiting_user_confirmation t from) refl,
    )

-- Every run from a new conversation to a submitted ticket has collected the ticket's fields, has
-- made a draft and has awaited the user's confirmation.
pub submitted-confirmed :
    (r : Run new ticket_submitted)
    → (passed collecting_ticket_fields r ≡ true)
      × (passed ticket_draft_ready r ≡ true)
      × (passed awaiting_user_confirmation r ≡ true)
submitted-confirmed r = submitted-passed r refl

then_submit : {s : AgentState} → Run s collecting_ticket_fields → Run s ticket_submitted
unfolding advance
then_submit r =
    advanced
      (advanced {u = awaiting_user_confirmation} (advanced {u = ticket_draft_ready} r refl) refl)
      refl

abbrev pub IsDeadEnd : AgentState → Type 0
IsDeadEnd s = (u : AgentState) → advance s u ≡ none

still_open : (s : AgentState) → Run s ticket_submitted ⊎ (s ≡ resolved_without_ticket)
unfolding advance
still_open new = inl (then_submit (advanced (advanced {u = collecting_information} here refl) refl))
still_open collecting_information = inl (then_submit (advanced here refl))
still_open classified = inl (then_submit (advanced here refl))
still_open searching_knowledge = inl (then_submit (advanced here refl))
still_open solution_proposed =
    inl (then_submit (advanced (advanced {u = awaiting_resolution_confirmation} here refl) refl))
still_open awaiting_resolution_confirmation = inl (then_submit (advanced here refl))
still_open resolved_without_ticket = inr refl
still_open collecting_ticket_fields = inl (then_submit here)
still_open ticket_draft_ready =
    inl (advanced (advanced {u = awaiting_user_confirmation} here refl) refl)
still_open awaiting_user_confirmation = inl (advanced here refl)
still_open ticket_submitted = inl here

abbrev pub IsEnd : AgentState → Type 0
IsEnd s = (s ≡ resolved_without_ticket) ⊎ (s ≡ ticket_submitted)

moves : (s t : AgentState) → advance s t ≡ some t → IsDeadEnd s → IsEnd s
moves s t e d = let lost : none ≡ some t = sym (d t) ∙ e in cc

dead-IsEnd : (s : AgentState) → IsDeadEnd s → IsEnd s
unfolding advance
dead-IsEnd new d = moves new collecting_information refl d
dead-IsEnd collecting_information d = moves collecting_information classified refl d
dead-IsEnd classified d = moves classified searching_knowledge refl d
dead-IsEnd searching_knowledge d = moves searching_knowledge solution_proposed refl d
dead-IsEnd solution_proposed d = moves solution_proposed awaiting_resolution_confirmation refl d
dead-IsEnd awaiting_resolution_confirmation d =
    moves awaiting_resolution_confirmation resolved_without_ticket refl d
dead-IsEnd resolved_without_ticket d = inl refl
dead-IsEnd collecting_ticket_fields d = moves collecting_ticket_fields ticket_draft_ready refl d
dead-IsEnd ticket_draft_ready d = moves ticket_draft_ready awaiting_user_confirmation refl d
dead-IsEnd awaiting_user_confirmation d = moves awaiting_user_confirmation ticket_submitted refl d
dead-IsEnd ticket_submitted d = inr refl

end-IsDead : (s : AgentState) → IsEnd s → IsDeadEnd s
unfolding advance
end-IsDead s (inl e) = rw e (λ u. refl)
end-IsDead s (inr e) = rw e (λ u. refl)

-- No conversation is stuck before its end: from every state a ticket can still be submitted, except
-- in RESOLVED_WITHOUT_TICKET; and `advance` goes nowhere from exactly that state and from
-- TICKET_SUBMITTED, the two in which a conversation has ended.
pub advance-ends :
    (s : AgentState)
    → (Run s ticket_submitted ⊎ (s ≡ resolved_without_ticket)) × (IsDeadEnd s ↔ IsEnd s)
advance-ends s = (still_open s, (dead-IsEnd s, end-IsDead s))
