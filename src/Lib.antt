-- ===== src/Lib.antt =====
-- The deterministic core of the helpdesk backend (apps/api/app): the parts of the program that
-- decide something by themselves, apart from their HTTP, SQL and logging.
--
-- Rules (apps/api/app/core/rules.py). Rules/Value.antt has JSON values with Python's `==`, orders
-- and `in`; Rules/Evaluate.antt is `evaluate`, with `InvalidRule` and `TypeError` as error values;
-- Rules/Meaning.antt gives the rule language a meaning apart from its JSON form, and Rules/Faults.antt
-- says which of its tests are at fault. JSON fractions are not modelled: a number is an integer.
--
-- Sla (apps/api/app/sla). Sla/Models.antt has the records of models.py. Sla/Calendar is
-- calendar.py: Zones (`_local_boundary`; `ZoneInfo` is the parameter `Zone`, and Regular says what
-- is documented of it), Intervals (`_merge_intervals`), Build (the checks of a version), Arithmetic
-- (`_intervals`, `add_business_seconds`, `business_seconds_between`); Consume, Days, Hours and
-- Midnight hold the proofs. Sla/Goals.antt is goal selection and pause conditions, with the proof
-- in Goals/Choice. Sla/Store.antt has the tables and the writes of repository.py: an action is a
-- function of the tables to an error or a value and new tables, and an error rolls everything back.
-- Sla/Engine.antt has the methods of `SlaEngine` and Sla/Process.antt its handlers, `process` and
-- `evaluate_due`. The children of both hold the proofs, and Process/Reach the histories of events
-- and scans. Instants are numbers of microseconds, UUIDs are numbers. Published configuration,
-- tickets and the time-zone database are the record `Config`, which may be another one at each
-- step. Event payloads and logging are left out.
--
-- Approvals (apps/api/app/approvals). Approvals/Models.antt has the records of models.py and the
-- rows of the tables; Approvals/Tables is repository.py (Store: the tables and transactions; Reads;
-- Writes), Approvals/Service is `ApprovalEngine` (Resolve) and `ApprovalService` (Verdict, Calls).
-- A step inside a transaction ends with a value, with an exception (nothing is written) or with a
-- commit and then an exception, as an expiry does. What approvals only read and the library's
-- `UUID`, `str.strip` and request hash are the record `Directory`. A decision is kept in its
-- approver's row; ticket keys, summaries and event payloads are left out. The rows found by an
-- identity and the counts are the SQL of repository.py over lists. Votes, Invariant, Keeps, Panel,
-- Request, Decide and Settle hold the proofs for Lifecycle, the histories of requests, decisions
-- and cancellations; Recorded, Keys, Replay, View, Commits, Atomic and Requested say what single
-- calls do.
--
-- Routing (apps/api/app/routing). Routing/Models.antt has the records of models.py and
-- Routing/Select.antt the choice of a route of service.py; Order, Choice and Total hold the proofs.
-- A rule is among the defaults exactly if its condition is empty, since equal rules have equal
-- conditions. Routing/Assign.antt has the reads of repository.py and `round_robin_assignee`, and
-- Routing/Calls.antt `route` and `assign_manual` with their writes to the tables of Desk; Assigned,
-- Routed, Replayed, Manual and Turns hold the proofs. Published rules, groups, members and the codes
-- that a ticket is joined with are the record `Groups`. Reasons and the routing trace are left out.
--
-- EmployeeAgent (apps/api/app/employee_agent). EmployeeAgent/Machine.antt is state_machine.py, with
-- the states of models.py; Runs holds the proofs. The service that drives it is not modelled.
--
-- Desk has the ticket tables that services share: Desk/Store the rows, Desk/Steps the steps of a
-- transaction (an exception rolls it back), Desk/Tickets the reads and updates of itsm.ticket, whose
-- trigger counts the version up, `add_public_comment` of tickets/repository.py and `ApprovalEngine`'s
-- request on these tickets. Desk/Once is the handling of an idempotency key, and Desk/Replay what
-- holds of any request that goes through it; Desk/Called is the frame of a request around its key.
--
-- Workflows (apps/api/app/workflows). Workflows/Models.antt has the records of models.py, and
-- `Catalogue`, the published transitions and the library's functions; Guard and Effects are the checks
-- and actions of service.py, Reads is `available` with the queries of repository.py, and Execute is
-- `execute` with its writes. Updates, Validated, Performed, Recorded, Executed, Replayed and Offers
-- hold the proofs. A ticket's UUIDs and date times are `foreign` values to the rules. An event stands
-- for its audit entry and its outbox events; the rows' own constraints are those of the database.
-- The keys of approvals and of workflows have different operation codes, and so are kept apart.
--
-- Changes puts Workflows and Routing together: requests of any of the three kinds about one ticket,
-- with Desk/Versions, which follows a ticket's version through updates of the table. Locks are not
-- modelled: a request is one transaction, and requests come one after the other.
--
-- Forms (apps/api/app/tickets/validation.py). Forms/Conditions.antt has the conditions, with the rules of
-- catalog/rules.py and their validators, Forms/Fields.antt the types and the bounds of a form's fields,
-- and Forms/Validate.antt `validate_and_normalize`; Supplied, Firsts, Typed, Normal,
-- Within and Settled hold the proofs.
-- What pydantic makes of a rule by its annotations, before those validators, and what `Decimal`,
-- `date`, `datetime`, `UUID`, `json.dumps` and the functions on texts give is the record `Library`.
--
-- Ai (apps/api/app/ai). Ai/Circuit.antt and Ai/Executor.antt are the two classes of resilience.py;
-- Breaker, Snapshot, Attempts and Endings hold the proofs. A breaker's operation holds its lock and waits for
-- nothing, so it is one step. Time is in ticks of the monotonic clock and sleeps are in milliseconds.
-- What the clock returns, how a provider's call ends and what other tasks do to the circuits
-- meanwhile are the parameter `World`, which is asked by the number of waits so far. Models' requests
-- and results are those of any type.
--
-- Bounds. `probe_loop` runs the 180 rounds and `add_days` the 3660 days of the source; running out
-- of them is the source's own error. `sum_days` is given the number of days of the source's loop.
-- `attempts` recurs on the rounds that are left of
-- `range(maximum_attempts)`. All other recursion is on lists or values.
--
-- Not modelled: HTTP, SQL queries that only read configuration, logging, the other language-model parts
-- and the web client.
pub mod Ai
pub mod Approvals
pub mod Changes
pub mod Desk
pub mod EmployeeAgent
pub mod Forms
pub mod Prelude
pub mod Routing
pub mod Rules
pub mod Sla
pub mod Workflows
