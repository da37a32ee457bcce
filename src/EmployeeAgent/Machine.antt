-- ===== src/EmployeeAgent/Machine.antt =====
-- `AgentState` of apps/api/app/employee_agent/models.py and state_machine.py.
use helpdesk_agent.Prelude.{ℕ, Bool, Option, none, some, List, [], ◌∷◌, ◌==◌, if◌then◌else◌, any}

pub data AgentState : Type 0 where
  new collecting_information classified searching_knowledge solution_proposed : AgentState
  awaiting_resolution_confirmation resolved_without_ticket collecting_ticket_fields : AgentState
  ticket_draft_ready awaiting_user_confirmation ticket_submitted : AgentState

-- `_TRANSITIONS`
abbrev pub transitions : AgentState → List AgentState
transitions new = collecting_information ∷ []
transitions collecting_information = classified ∷ collecting_ticket_fields ∷ []
transitions classified = searching_knowledge ∷ collecting_ticket_fields ∷ []
transitions searching_knowledge = solution_proposed ∷ collecting_ticket_fields ∷ []
transitions solution_proposed = awaiting_resolution_confirmation ∷ []
transitions awaiting_resolution_confirmation =
    collecting_information ∷ resolved_without_ticket ∷ collecting_ticket_fields ∷ []
transitions collecting_ticket_fields = collecting_ticket_fields ∷ ticket_draft_ready ∷ []
transitions ticket_draft_ready = awaiting_user_confirmation ∷ []
transitions awaiting_user_confirmation = ticket_submitted ∷ []
transitions resolved_without_ticket = []
transitions ticket_submitted = []

abbrev pub state_number : AgentState → ℕ
state_number new = 0
state_number collecting_information = 1
state_number classified = 2
state_number searching_knowledge = 3
state_number solution_proposed = 4
state_number awaiting_resolution_confirmation = 5
state_number resolved_without_ticket = 6
state_number collecting_ticket_fields = 7
state_number ticket_draft_ready = 8
state_number awaiting_user_confirmation = 9
state_number ticket_submitted = 10

abbrev pub same_state : AgentState → AgentState → Bool
same_state s t = state_number s == state_number t

-- `advance`; nothing is the exception `InvalidAgentTransition`, which leaves the state as it was.
unfoldable pub advance : AgentState → AgentState → Option AgentState
advance state target = if any (same_state target) (transitions state) then some target else none
