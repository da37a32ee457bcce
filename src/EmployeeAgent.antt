-- ===== src/EmployeeAgent.antt =====
-- The employee's conversation with the agent: apps/api/app/employee_agent.
pub mod Machine
pub mod Runs
mod Tests
