-- ===== src/Sla/Engine/Safe.antt =====
-- The invariant of the rows of running SLAs, and rules for the actions that keep it.
use helpdesk_agent.Prelude.{
  ℕ, zero, suc, ◌+◌, ◌-◌, Bool, true, false, ◌||◌, List, [], ◌∷◌, ◌++◌, ◌≡◌, refl, Unique,
  Unique-snoc, Option, none, some, All, arith, Result, ok, err, any, if◌then◌else◌, Bool-cases, inl,
  inr,
}
use helpdesk_agent.Sla.Models.{SlaDefinitionVersion, SlaGoalVersion, TicketFacts, TicketSla}
use helpdesk_agent.Sla.Goals.{SlaError}
use helpdesk_agent.Sla.Store.{
  EventType, EventKey, SlaEvent, Announcement, sla_warning, sla_breached, SlaMetrics, Store, Engine,
  then_run, ◌>>=◌, pure, lift, raise, count, record_event, save, is_version, replace_version,
  emit_outbox, mark_first_response, ticket_slas, due_slas, create_sla, select, sort_due, insert_due,
  limit_to, is_event, is_due, new_sla, due_le, same_definition, announcement_eq,
}
use helpdesk_agent.Sla.Engine.{is_running, is_paused, is_breached, is_completed, is_some}

-- What holds of an SLA between two actions: a pause is dated exactly while it lasts, a breach
-- exactly once it has happened; what runs or pauses is not completed, and what is completed is
-- dated; the remaining seconds are what the goal leaves, or none after a breach.
pub record IsSound (sla : TicketSla) : Type 0 where
  pub pause_dated : is_some sla.paused_at ≡ is_paused sla.state
  pub breach_dated : is_some sla.breached_at ≡ is_breached sla.state
  pub open_ended :
      (is_running sla.state || is_paused sla.state) ≡ true → is_some sla.completed_at ≡ false
  pub completion_dated : is_completed sla.state ≡ true → is_some sla.completed_at ≡ true
  pub balance :
      is_breached sla.state ≡ false
      → sla.remaining_working_seconds ≡ sla.goal.target_seconds - sla.elapsed_working_seconds
  pub spent : is_breached sla.state ≡ true → sla.remaining_working_seconds ≡ 0

abbrev pub same_event : SlaEvent → SlaEvent → Bool
same_event e = is_event e.event_sla_id e.event_key

-- What holds of the tables between two actions: every row is sound, no SLA has two events of one
-- key, and nothing is announced twice.
pub record AllSound (s : Store) : Type 0 where
  pub rows_sound : All IsSound s.rows
  pub events_unique : Unique same_event s.events
  pub outbox_unique : Unique announcement_eq s.outbox

-- The tables after a change of the rows, or of what the invariant does not read.
new_rows :
    {s : Store} (rows : List TicketSla) (next : ℕ) (responses : List (ℕ × ℕ)) (m : SlaMetrics)
    → AllSound s
    → All IsSound rows
    → AllSound (record s { rows = rows; next_id = next; first_responses = responses; metrics = m })
new_rows rows next responses m h k = record {
  rows_sound = k;
  events_unique = h.events_unique;
  outbox_unique = h.outbox_unique;
}

same_event_comm : (e e' : SlaEvent) → same_event e e' ≡ same_event e' e
same_event_comm e e' = ground arith

announcement_eq_comm : (a b : Announcement) → announcement_eq a b ≡ announcement_eq b a
announcement_eq_comm (sla_warning a) (sla_warning b) = ground arith
announcement_eq_comm (sla_breached a) (sla_breached b) = ground arith
announcement_eq_comm (sla_warning a) (sla_breached b) = refl
announcement_eq_comm (sla_breached a) (sla_warning b) = refl

-- If the action returns, every row of the store is sound and the value meets `Q`.
abbrev pub Holds {ℓ} : {A : Type ℓ} → (A → Type 0) → Result SlaError (A × Store) → Type 0
Holds Q (ok (a, s)) = AllSound s × Q a
Holds Q (err e) = Unit

pub record Safe {ℓ} {A : Type ℓ} (Q : A → Type 0) (m : Engine A) : Type ℓ where
  pub at : (s : Store) → AllSound s → Holds Q (m s)

abbrev pub Any {ℓ} : {A : Type ℓ} → A → Type 0
Any _ = Unit

module _ {ℓ} {A : Type ℓ} {Q : A → Type 0} where
  pub Safe-pure : (a : A) → Q a → Safe Q (pure a)
  unfolding ◌>>=◌
  Safe-pure a q = record { at = λ s h. (h, q) }

  pub Safe-raise : (e : SlaError) → Safe Q (raise {A = A} e)
  unfolding ◌>>=◌
  Safe-raise e = record { at = λ s h. tt }

  pub Safe-if :
      (b : Bool) (m n : Engine A)
      → (b ≡ true → Safe Q m)
      → (b ≡ false → Safe Q n)
      → Safe Q (if b then m else n)
  Safe-if true m n p q = p refl
  Safe-if false m n p q = q refl

pub Safe-lift {ℓ} : {A : Type ℓ} (r : Result SlaError A) → Safe Any (lift r)
unfolding ◌>>=◌
Safe-lift (ok a) = record { at = λ s h. (h, tt) }
Safe-lift (err e) = record { at = λ s h. tt }

module _ {ℓ} {A B : Type ℓ} {Q : A → Type 0} {R : B → Type 0} where
  then-Safe :
      (r : Result SlaError (A × Store)) (f : A → Engine B)
      → Holds Q r
      → ((a : A) → Q a → Safe R (f a))
      → Holds R (then_run r f)
  then-Safe (ok (a, s)) f h k = (k a h.1).at s h.0
  then-Safe (err e) f h k = tt

  pub Safe-bind :
      (m : Engine A) (f : A → Engine B)
      → Safe Q m
      → ((a : A) → Q a → Safe R (f a))
      → Safe R (m >>= f)
  unfolding ◌>>=◌
  Safe-bind m f p k = record { at = λ s h. then-Safe (m s) f (p.at s h) k }

then-Holds {ℓ} :
    {A : Type ℓ} {Q R : A → Type 0} (r : Result SlaError (A × Store))
    → ((a : A) → Q a → R a)
    → Holds Q r
    → Holds R r
then-Holds (ok (a, s)) k h = (h.0, k a h.1)
then-Holds (err e) k h = h

pub Safe-map {ℓ} :
    {A : Type ℓ} {Q R : A → Type 0} (m : Engine A) → ((a : A) → Q a → R a) → Safe Q m → Safe R m
Safe-map m k p = record { at = λ s h. then-Holds (m s) k (p.at s h) }

pub Safe-count : (f : SlaMetrics → SlaMetrics) → Safe Any (count f)
unfolding ◌>>=◌
Safe-count f = record {
  at = λ s h. (new_rows s.rows s.next_id s.first_responses (f s.metrics) h h.rows_sound, tt);
}

pub Safe-record_event :
    (sla : TicketSla) (type : EventType) (at : ℕ) (key : EventKey)
    → Safe Any (record_event sla type at key)
unfolding record_event
Safe-record_event sla type at key = record {
  at = λ s h. elim (Bool-cases (any (is_event sla.ticket_sla_id key) s.events)) [
    | inl old ↦ rw old (h, tt)
    | inr new ↦
        let e : SlaEvent = record {
          event_sla_id = sla.ticket_sla_id;
          event_type = type;
          event_at = at;
          event_key = key;
        } in
        rw new (
          record {
            rows_sound = h.rows_sound;
            events_unique = Unique-snoc same_event same_event_comm s.events e new h.events_unique;
            outbox_unique = h.outbox_unique;
          },
          tt,
        )
  ];
}

version-IsSound : (sla : TicketSla) (n : ℕ) → IsSound sla → IsSound (record sla { row_version = n })
version-IsSound sla n h = record {
  pause_dated = h.pause_dated;
  breach_dated = h.breach_dated;
  open_ended = h.open_ended;
  completion_dated = h.completion_dated;
  balance = h.balance;
  spent = h.spent;
}

replace-AllSound :
    (sla : TicketSla) (n : ℕ) (rows : List TicketSla)
    → IsSound sla
    → All IsSound rows
    → All IsSound (replace_version sla n rows)
replace-AllSound sla n [] h k = tt
replace-AllSound sla n (row ∷ rows) h k = elim (Bool-cases (is_version sla n row)) [
  | inl same ↦ rw same (version-IsSound sla (n + 1) h, replace-AllSound sla n rows h k.1)
  | inr other ↦ rw other (k.0, replace-AllSound sla n rows h k.1)
]

pub Safe-save : (sla : TicketSla) (n : ℕ) → IsSound sla → Safe IsSound (save sla n)
unfolding save
Safe-save sla n h = record {
  at = λ s k. elim (Bool-cases (any (is_version sla n) s.rows)) [
    | inl found ↦ rw found (
      new_rows (replace_version sla n s.rows) s.next_id s.first_responses s.metrics k
          (replace-AllSound sla n s.rows h k.rows_sound),
      version-IsSound sla (n + 1) h,
    )
    | inr missing ↦ rw missing tt
  ];
}

pub Safe-emit_outbox : (a : Announcement) → Safe Any (emit_outbox a)
unfolding emit_outbox
Safe-emit_outbox a = record {
  at = λ s h. elim (Bool-cases (any (announcement_eq a) s.outbox)) [
    | inl told ↦ rw told (h, tt)
    | inr new ↦ rw new (
      record {
        rows_sound = h.rows_sound;
        events_unique = h.events_unique;
        outbox_unique =
            Unique-snoc announcement_eq announcement_eq_comm s.outbox a new h.outbox_unique;
      },
      tt,
    )
  ];
}

pub Safe-mark_first_response : (ticket_id at : ℕ) → Safe Any (mark_first_response ticket_id at)
unfolding mark_first_response
Safe-mark_first_response ticket_id at = record {
  at = λ s h. (
    new_rows s.rows s.next_id (s.first_responses ++ (ticket_id, at) ∷ []) s.metrics h h.rows_sound,
    tt,
  );
}

All-select :
    (p : TicketSla → Bool) (rows : List TicketSla) → All IsSound rows → All IsSound (select p rows)
All-select p [] h = tt
All-select p (row ∷ rows) h = elim (Bool-cases (p row)) [
  | inl kept ↦ rw kept (h.0, All-select p rows h.1)
  | inr left_out ↦ rw left_out (All-select p rows h.1)
]

pub Safe-ticket_slas :
    (tenant_id ticket_id : ℕ) → Safe (All IsSound) (ticket_slas tenant_id ticket_id)
unfolding ticket_slas
Safe-ticket_slas tenant_id ticket_id = record { at = λ s h. (h, All-select _ s.rows h.rows_sound) }

All-insert_due :
    (a : TicketSla) (rows : List TicketSla)
    → IsSound a
    → All IsSound rows
    → All IsSound (insert_due a rows)
All-insert_due a [] h k = (h, tt)
All-insert_due a (b ∷ rows) h k = elim (Bool-cases (due_le a b)) [
  | inl first ↦ rw first (h, k)
  | inr later ↦ rw later (k.0, All-insert_due a rows h k.1)
]

All-sort_due : (rows : List TicketSla) → All IsSound rows → All IsSound (sort_due rows)
All-sort_due [] h = tt
All-sort_due (row ∷ rows) h = All-insert_due row (sort_due rows) h.0 (All-sort_due rows h.1)

All-limit_to : (n : ℕ) (rows : List TicketSla) → All IsSound rows → All IsSound (limit_to n rows)
All-limit_to zero rows h = tt
All-limit_to (suc n) [] h = tt
All-limit_to (suc n) (row ∷ rows) h = (h.0, All-limit_to n rows h.1)

pub Safe-due_slas :
    (tenant_id due_at limit : ℕ) → Safe (All IsSound) (due_slas tenant_id due_at limit)
unfolding due_slas
Safe-due_slas tenant_id due_at limit = record {
  at = λ s h. (
    h,
    All-limit_to limit (sort_due (select (is_due tenant_id due_at) s.rows))
        (All-sort_due (select (is_due tenant_id due_at) s.rows) (All-select _ s.rows h.rows_sound)),
  );
}

All-append :
    (rows rows' : List TicketSla)
    → All IsSound rows
    → All IsSound rows'
    → All IsSound (rows ++ rows')
All-append [] rows' h k = k
All-append (row ∷ rows) rows' h k = (h.0, All-append rows rows' h.1 k)

abbrev pub SoundIfSome : Option TicketSla → Type 0
SoundIfSome none = Unit
SoundIfSome (some sla) = IsSound sla

new_sla-IsSound :
    (ticket : TicketFacts) (definition : SlaDefinitionVersion) (goal : SlaGoalVersion)
    (started_at target_at : ℕ) (warning_at : Option ℕ) (id : ℕ)
    → IsSound (new_sla ticket definition goal started_at target_at warning_at id)
new_sla-IsSound ticket definition goal started_at target_at warning_at id = record {
  pause_dated = refl;
  breach_dated = refl;
  open_ended = λ _. refl;
  completion_dated = λ e. cc;
  balance = λ _. omega arith;
  spent = λ e. cc;
}

pub Safe-create_sla :
    (ticket : TicketFacts) (definition : SlaDefinitionVersion) (goal : SlaGoalVersion)
    (started_at target_at : ℕ) (warning_at : Option ℕ)
    → Safe SoundIfSome (create_sla ticket definition goal started_at target_at warning_at)
unfolding create_sla
Safe-create_sla ticket definition goal started_at target_at warning_at = record {
  at = λ s h.
      elim (Bool-cases
        (any (same_definition ticket.ticket_id definition.sla_definition_id) s.rows)) [
          | inl there ↦ rw there (h, tt)
          | inr new ↦
              let sound =
                new_sla-IsSound ticket definition goal started_at target_at warning_at s.next_id in
              rw new (
                new_rows _ (s.next_id + 1) s.first_responses s.metrics h
                    (All-append s.rows _ h.rows_sound (sound, tt)),
                sound,
              )
        ];
}
