-- ===== src/Schedule/Store.antt =====
-- schedule_store.py: the file as a map from ids to events.
use ndif.Prelude.{
  ℕ, ◌≡◌, ◌≤◌, refl, true, not, Option, none, some, List, [], ◌∷◌, ◌++◌, All, All-append, keep,
  keep-All, length, ◌==◌, if◌then◌else◌, Bool-cases, inl, inr, arith,
}
use ndif.Prelude.Results.{ok, Returns}
use ndif.Schedule.{
  ScheduleEventIn, ScheduleEvent, is_valid, validate, list_events, first_with, create_event,
  update_event, delete_event, mark_status, Write, created, updated, deleted, marked, run,
}

-- Every entry of the file validates.
abbrev pub AllValid : List ScheduleEvent → Type 0
AllValid events = All (λ event. is_valid event.payload ≡ true) events

-- What a write may be given.
abbrev pub IsProper : Write → List ScheduleEvent → Type 0
IsProper (created now id payload) events = (is_valid payload ≡ true) × (first_with id events ≡ none)
IsProper (updated now id payload) events = is_valid payload ≡ true
IsProper (deleted id) events = Unit {0}
IsProper (marked now id status error) events = Unit {0}

abbrev pub fresh : ℕ → ℕ → ScheduleEventIn → ScheduleEvent
fresh now id payload = record {
  payload = payload;
  id = id;
  created_at = now;
  updated_at = now;
  last_status = none;
  last_error = none;
}

abbrev pub replaced : ℕ → ScheduleEventIn → Option ScheduleEvent → Option ScheduleEvent
replaced now payload none = none
replaced now payload (some event) = some (record event { payload = payload; updated_at = now })

abbrev pub stamped : ℕ → ℕ → Option ℕ → Option ScheduleEvent → Option ScheduleEvent
stamped now status error none = none
stamped now status error (some event) =
    some (record event { last_status = some status; last_error = error; updated_at = now })

-- What a map makes of the write: the event under an id, from the one that was there.
abbrev pub written : Write → ℕ → Option ScheduleEvent → Option ScheduleEvent
written (created now id payload) other before =
    if id == other then some (fresh now id payload) else before
written (updated now id payload) other before =
    if id == other then replaced now payload before else before
written (deleted id) other before = if id == other then none else before
written (marked now id status error) other before =
    if id == other then stamped now status error before else before

abbrev pub Writes : Write → List ScheduleEvent → List ScheduleEvent → Type 0
Writes write events events' =
    AllValid events'
    × ((other : ℕ) → first_with other events' ≡ written write other (first_with other events))

pub list_events-AllValid :
    (events : List ScheduleEvent) → AllValid events → list_events events ≡ ok events
unfolding list_events validate
list_events-AllValid [] valid = refl
list_events-AllValid (event ∷ events) valid = rw (valid.0, list_events-AllValid events valid.1) refl

first_with-append :
    (other : ℕ) (event : ScheduleEvent) (events : List ScheduleEvent)
    → first_with event.id events ≡ none
    → first_with other (events ++ event ∷ [])
      ≡ (if event.id == other then some event else first_with other events)
unfolding first_with
first_with-append other event [] h = refl
first_with-append other event (e ∷ events) h = ground (arith, first_with-append other event events)

module _ (now id : ℕ) (payload : ScheduleEventIn) (valid_payload : is_valid payload ≡ true) where
  create-Writes :
      (events : List ScheduleEvent)
      → AllValid events
      → first_with id events ≡ none
      → Returns (run (created now id payload) events) (Writes (created now id payload) events)
  unfolding run create_event validate
  create-Writes events valid new = (
    events ++ fresh now id payload ∷ [],
    rw valid_payload refl,
    (
      All-append (λ event. is_valid event.payload ≡ true) events (fresh now id payload ∷ []) valid
          (valid_payload, tt),
      λ other. first_with-append other (fresh now id payload) events new,
    ),
  )

  update_event-Writes :
      (events : List ScheduleEvent)
      → AllValid events
      → Returns
          (update_event now id payload events)
          (λ r. Writes (updated now id payload) events r.1)
  unfolding update_event validate first_with
  update_event-Writes [] valid = ((none, []), refl, (tt, λ other. ground arith))
  update_event-Writes (event ∷ events) valid = elim (Bool-cases (event.id == id)) [
    | inl e ↦
        let new = record event { payload = payload; updated_at = now } in
        (
          (some new, new ∷ events),
          rw (e, valid.0) refl,
          ((valid_payload, valid.1), λ other. ground arith),
        )
    | inr e ↦
        let ((found, rest), h, (good, same)) = update_event-Writes events valid.1 in
        (
          (found, event ∷ rest),
          rw (e, h) refl,
          ((valid.0, good), λ other. ground (arith, same other)),
        )
  ]

kept_length :
    (id : ℕ) (events : List ScheduleEvent)
    → length (keep (λ event. not (event.id == id)) events) ≤ length events
unfolding keep
kept_length id [] = omega arith
kept_length id (event ∷ events) = ground (arith, kept_length id events)

-- Nothing was dropped: nothing had the id.
kept_all :
    (id : ℕ) (events : List ScheduleEvent)
    → length (keep (λ event. not (event.id == id)) events) ≡ length events
    → first_with id events ≡ none
unfolding keep first_with
kept_all id [] h = refl
kept_all id (event ∷ events) h = ground (arith, kept_all id events, kept_length id events)

first_with-keep :
    (id other : ℕ) (events : List ScheduleEvent)
    → first_with other (keep (λ event. not (event.id == id)) events)
      ≡ (if id == other then none else first_with other events)
unfolding keep first_with
first_with-keep id other [] = ground arith
first_with-keep id other (event ∷ events) = ground (arith, first_with-keep id other events)

absent_written :
    (id other : ℕ) (events : List ScheduleEvent)
    → first_with id events ≡ none
    → first_with other events ≡ (if id == other then none else first_with other events)
absent_written id other events h = elim (Bool-cases (id == other)) [
  | inl e ↦ let same : id ≡ other = ground arith in rw e (rw same at h)
  | inr e ↦ rw e refl
]

delete-Writes :
    (id : ℕ) (events : List ScheduleEvent)
    → AllValid events
    → Writes (deleted id) events (delete_event id events).1
unfolding delete_event
delete-Writes id events valid =
    elim (Bool-cases (length (keep (λ event. not (event.id == id)) events) == length events)) [
      | inl e ↦
          let gone = kept_all id events (ground arith) in
          rw e (valid, λ other. absent_written id other events gone)
      | inr e ↦ rw e (
        keep-All (λ event. is_valid event.payload ≡ true) (λ event. not (event.id == id)) events
            valid,
        λ other. first_with-keep id other events,
      )
    ]

mark_status-Writes :
    (now id status : ℕ) (error : Option ℕ) (events : List ScheduleEvent)
    → AllValid events
    → Writes (marked now id status error) events (mark_status now id status error events)
unfolding mark_status first_with
mark_status-Writes now id status error [] valid = (tt, λ other. ground arith)
mark_status-Writes now id status error (event ∷ events) valid =
    let rest = mark_status-Writes now id status error events valid.1 in
    elim (Bool-cases (event.id == id)) [
      | inl e ↦ rw e ((valid.0, valid.1), λ other. ground arith)
      | inr e ↦ rw e ((valid.0, rest.0), λ other. ground (arith, rest.1 other))
    ]

run_cases :
    (write : Write) (events : List ScheduleEvent)
    → AllValid events
    → IsProper write events
    → Returns (run write events) (Writes write events)
unfolding run
run_cases (created now id payload) events valid proper =
    create-Writes now id payload proper.0 events valid proper.1
run_cases (updated now id payload) events valid proper =
    let (done, h, good) = update_event-Writes now id payload proper events valid in
    (done.1, rw h refl, good)
run_cases (deleted id) events valid proper =
    ((delete_event id events).1, refl, delete-Writes id events valid)
run_cases (marked now id status error) events valid proper = (
  mark_status now id status error events,
  refl,
  mark_status-Writes now id status error events valid,
)

-- The file holds a map from ids to events: every write, in a file whose entries all validate, raises
-- nothing, leaves entries that all validate, so that the next `list` reads them, and changes the event
-- under its id alone, as the map's write does; a new event has a new id, and the payload of a create
-- or an update has a key and a window that ends after its start.
pub run-Writes :
    (write : Write) (events : List ScheduleEvent)
    → AllValid events
    → IsProper write events
    → Returns
        (run write events)
        (λ events'. Writes write events events' × (list_events events' ≡ ok events'))
run-Writes write events valid proper =
    let (events', h, written_well) = run_cases write events valid proper in
    (events', h, (written_well, list_events-AllValid events' written_well.0))
