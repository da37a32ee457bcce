-- ===== src/Sla/Store.antt =====
-- The tables that the SLA engine writes, and the writes of apps/api/app/sla/repository.py. The
-- database function `itsm.record_sla_event` and the unique indexes are those of
-- apps/api/alembic/versions/0009_business_calendar_sla.py. Event payloads, which nothing reads, are
-- left out.
use helpdesk_agent.Prelude.{
  ℕ, suc, ◌+◌, Bool, true, false, ◌&&◌, ◌||◌, Option, none, some, List, [], ◌∷◌, ◌++◌, ltb, leb,
  ◌==◌, if◌then◌else◌, Result, ok, err, any, zero,
}
use helpdesk_agent.Sla.Models.{
  SlaState, running, SlaDefinitionVersion, SlaGoalVersion, TicketFacts, TicketSla,
}
use helpdesk_agent.Sla.Goals.{SlaError, concurrent_update}

pub data EventType : Type 0 where
  started paused resumed stopped met warning breached recalculated : EventType

-- The unique key of an event among those of its SLA: `input:<outbox event>:<what>`, `warning` or
-- `breach`.
pub data EventKey : Type 0 where
  start_key pause_key resume_key stop_key : ℕ → EventKey
  met_key reopen_key recalculate_key : ℕ → EventKey
  warning_key breach_key : EventKey

abbrev pub key_code : EventKey → ℕ × ℕ
key_code (start_key n) = (0, n)
key_code (pause_key n) = (1, n)
key_code (resume_key n) = (2, n)
key_code (stop_key n) = (3, n)
key_code (met_key n) = (4, n)
key_code (reopen_key n) = (5, n)
key_code (recalculate_key n) = (6, n)
key_code warning_key = (7, 0)
key_code breach_key = (8, 0)

abbrev pub key_eq : EventKey → EventKey → Bool
key_eq k l = (key_code k).0 == (key_code l).0 && (key_code k).1 == (key_code l).1

-- A row of itsm.ticket_sla_event.
pub record SlaEvent : Type 0 where
  pub event_sla_id : ℕ
  pub event_type : EventType
  pub event_at : ℕ
  pub event_key : EventKey

-- What the engine tells other consumers: an event of the SLA with the deduplication key
-- `sla:<id>:warning` or `sla:<id>:breach`.
pub data Announcement : Type 0 where
  sla_warning sla_breached : ℕ → Announcement

abbrev pub announcement_eq : Announcement → Announcement → Bool
announcement_eq (sla_warning a) (sla_warning b) = a == b
announcement_eq (sla_breached a) (sla_breached b) = a == b
announcement_eq _ _ = false

pub record SlaMetrics : Type 0 where
  pub input_events_processed : ℕ
  pub instances_started : ℕ
  pub instances_paused : ℕ
  pub instances_resumed : ℕ
  pub instances_met : ℕ
  pub warnings_emitted : ℕ
  pub breaches_emitted : ℕ
  pub recalculations : ℕ

pub record Store : Type 0 where
  pub rows : List TicketSla
  pub next_id : ℕ
  pub events : List SlaEvent
  pub outbox : List Announcement
  pub first_responses : List (ℕ × ℕ)
  pub metrics : SlaMetrics

-- An action of the engine inside its transaction: an exception rolls everything back.
abbrev pub Engine {ℓ} : Type ℓ → Type ℓ
Engine A = Store → Result SlaError (A × Store)

abbrev pub then_run {ℓ} :
    {A B : Type ℓ} → Result SlaError (A × Store) → (A → Engine B) → Result SlaError (B × Store)
then_run (ok (a, s)) f = f a s
then_run (err e) f = err e

pub pure {ℓ} : {A : Type ℓ} → A → Engine A
pure a s = ok (a, s)

pub lift {ℓ} : {A : Type ℓ} → Result SlaError A → Engine A
lift (ok a) s = ok (a, s)
lift (err e) s = err e

pub raise {ℓ} : {A : Type ℓ} → SlaError → Engine A
raise e s = err e

pub count : (SlaMetrics → SlaMetrics) → Engine (Unit {0})
count f s = ok (tt, record s { metrics = f s.metrics })

infixl 5 ◌>>=◌ ◌>>◌
-- Opening this opens `pure`, `lift`, `raise` and `count` too.
unfoldable pub ◌>>=◌ {ℓ} : {A B : Type ℓ} → Engine A → (A → Engine B) → Engine B
unfolding pure lift raise count
◌>>=◌ m f s = then_run (m s) f

abbrev pub ◌>>◌ : {B : Type 0} → Engine (Unit {0}) → Engine B → Engine B
m >> k = m >>= λ _. k

abbrev pub is_event : ℕ → EventKey → SlaEvent → Bool
is_event id key e = e.event_sla_id == id && key_eq e.event_key key

-- `record_event`: a second event with the key of a first is not inserted.
unfoldable pub record_event : TicketSla → EventType → ℕ → EventKey → Engine Bool
record_event sla type at key s =
    if any (is_event sla.ticket_sla_id key) s.events
    then ok (false, s)
    else ok (
      true,
      record s {
        events =
            s.events
            ++ record {
              event_sla_id = sla.ticket_sla_id;
              event_type = type;
              event_at = at;
              event_key = key;
            }
              ∷ [];
      },
    )

-- The row whose identity, tenant and version the `UPDATE` asks for.
abbrev pub is_version : TicketSla → ℕ → TicketSla → Bool
is_version sla expected row =
    row.ticket_sla_id == sla.ticket_sla_id
    && (row.tenant_id == sla.tenant_id && row.row_version == expected)

abbrev pub replace_version : TicketSla → ℕ → List TicketSla → List TicketSla
replace_version sla expected [] = []
replace_version sla expected (row ∷ rest) =
    let others = replace_version sla expected rest in
    (if is_version sla expected row then record sla { row_version = expected + 1 } else row)
    ∷ others

-- `save`: no such row is a concurrent update.
unfoldable pub save : TicketSla → ℕ → Engine TicketSla
save sla expected s =
    if any (is_version sla expected) s.rows
    then ok (
      record sla { row_version = expected + 1 },
      record s { rows = replace_version sla expected s.rows },
    )
    else err concurrent_update

-- `emit_outbox`, with `ON CONFLICT DO NOTHING`
unfoldable pub emit_outbox : Announcement → Engine (Unit {0})
emit_outbox a s =
    if any (announcement_eq a) s.outbox
    then ok (tt, s)
    else ok (tt, record s { outbox = s.outbox ++ a ∷ [] })

-- `mark_first_response` hands the instant over to the ticket's table.
unfoldable pub mark_first_response : ℕ → ℕ → Engine (Unit {0})
mark_first_response ticket_id at s =
    ok (tt, record s { first_responses = s.first_responses ++ (ticket_id, at) ∷ [] })

abbrev of_ticket : ℕ → ℕ → TicketSla → Bool
of_ticket tenant_id ticket_id row = row.tenant_id == tenant_id && row.ticket_id == ticket_id

abbrev pub select : (TicketSla → Bool) → List TicketSla → List TicketSla
select p [] = []
select p (row ∷ rest) = let others = select p rest in if p row then row ∷ others else others

unfoldable pub ticket_slas : ℕ → ℕ → Engine (List TicketSla)
ticket_slas tenant_id ticket_id s = ok (select (of_ticket tenant_id ticket_id) s.rows, s)

abbrev is_running : SlaState → Bool
is_running running = true
is_running _ = false

abbrev passed : Option ℕ → ℕ → Bool
passed none at = false
passed (some t) at = leb t at

abbrev absent : Option ℕ → Bool
absent none = true
absent (some _) = false

-- The `WHERE` of `due_slas`
abbrev pub is_due : ℕ → ℕ → TicketSla → Bool
is_due tenant_id due_at row =
    row.tenant_id == tenant_id
    && (is_running row.state
        && (leb row.target_at due_at
            || (absent row.warning_emitted_at && passed row.warning_at due_at)))

abbrev pub due_le : TicketSla → TicketSla → Bool
due_le a b =
    ltb a.target_at b.target_at
    || (a.target_at == b.target_at && leb a.ticket_sla_id b.ticket_sla_id)

abbrev pub insert_due : TicketSla → List TicketSla → List TicketSla
insert_due a [] = a ∷ []
insert_due a (b ∷ rest) = if due_le a b then a ∷ b ∷ rest else b ∷ insert_due a rest

abbrev pub sort_due : List TicketSla → List TicketSla
sort_due [] = []
sort_due (a ∷ rest) = insert_due a (sort_due rest)

abbrev pub limit_to : ℕ → List TicketSla → List TicketSla
limit_to zero l = []
limit_to (suc n) [] = []
limit_to (suc n) (a ∷ rest) = a ∷ limit_to n rest

unfoldable pub due_slas : ℕ → ℕ → ℕ → Engine (List TicketSla)
due_slas tenant_id due_at limit s =
    ok (limit_to limit (sort_due (select (is_due tenant_id due_at) s.rows)), s)

abbrev pub same_definition : ℕ → ℕ → TicketSla → Bool
same_definition ticket_id definition_id row =
    row.ticket_id == ticket_id && row.definition.sla_definition_id == definition_id

abbrev pub new_sla :
    TicketFacts → SlaDefinitionVersion → SlaGoalVersion → ℕ → ℕ → Option ℕ → ℕ → TicketSla
new_sla ticket definition goal started_at target_at warning_at id = record {
  ticket_sla_id = id;
  tenant_id = ticket.tenant_id;
  ticket_id = ticket.ticket_id;
  definition = definition;
  goal = goal;
  state = running;
  started_at = started_at;
  target_at = target_at;
  warning_at = warning_at;
  paused_at = none;
  accumulated_pause_seconds = 0;
  completed_at = none;
  breached_at = none;
  elapsed_working_seconds = 0;
  remaining_working_seconds = goal.target_seconds;
  last_calculated_at = started_at;
  warning_emitted_at = none;
  row_version = 1;
}

-- `create_sla`: a ticket has one SLA of a definition.
unfoldable pub create_sla :
    TicketFacts
    → SlaDefinitionVersion
    → SlaGoalVersion
    → ℕ
    → ℕ
    → Option ℕ
    → Engine (Option TicketSla)
create_sla ticket definition goal started_at target_at warning_at s =
    let sla = new_sla ticket definition goal started_at target_at warning_at s.next_id in
    if any (same_definition ticket.ticket_id definition.sla_definition_id) s.rows
    then ok (none, s)
    else ok (some sla, record s { rows = s.rows ++ sla ∷ []; next_id = s.next_id + 1 })
