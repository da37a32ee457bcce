-- ===== src/EmployeeAgent/Tests.antt =====
-- A conversation in which a solution is turned down and a ticket is submitted.
use helpdesk_agent.Prelude.{◌≡◌, refl, ◌⊎◌, ◌↔◌, true}
use helpdesk_agent.EmployeeAgent.Machine.{
  new, collecting_information, classified, searching_knowledge, solution_proposed,
  awaiting_resolution_confirmation, resolved_without_ticket, collecting_ticket_fields,
  ticket_draft_ready, awaiting_user_confirmation, ticket_submitted, advance,
}
use helpdesk_agent.EmployeeAgent.Runs.{
  Run, here, advanced, passed, submitted-confirmed, IsDeadEnd, IsEnd, advance-ends,
}

unfoldable asked_again : Run new collecting_ticket_fields
unfolding advance
asked_again =
    advanced
      (advanced {u = awaiting_resolution_confirmation}
        (advanced {u = solution_proposed}
          (advanced {u = searching_knowledge}
            (advanced {u = classified} (advanced {u = collecting_information} here refl) refl) refl)
          refl)
        refl)
      refl

unfoldable submission : Run new ticket_submitted
unfolding advance asked_again
submission =
    advanced
      (advanced {u = awaiting_user_confirmation}
        (advanced {u = ticket_draft_ready} asked_again refl) refl)
      refl

submitted-confirmed_example :
    (passed collecting_ticket_fields submission ≡ true)
    × (passed ticket_draft_ready submission ≡ true)
    × (passed awaiting_user_confirmation submission ≡ true)
submitted-confirmed_example = submitted-confirmed submission

advance-ends_example :
    (Run new ticket_submitted ⊎ (new ≡ resolved_without_ticket)) × (IsDeadEnd new ↔ IsEnd new)
advance-ends_example = advance-ends new
