-- ===== src/Schedule.antt =====
-- services/dashboard/backend/schedule_store.py: the events of the schedule. The file is the list of its
-- raw entries, one call under its lock is one function; times are ticks, and texts are numbers.
pub mod Store
use ndif.Prelude.{
  ℕ, Bool, true, false, not, ◌&&◌, Option, none, some, List, [], ◌∷◌, ◌++◌, length, keep, ltb, leb,
  ◌==◌, if◌then◌else◌,
}
use ndif.Prelude.Results.{Result, ok, raise, value_error, ◌>>=◌}
use ndif.Evaluator.{Factor}

-- `ScheduleEventIn`
pub record ScheduleEventIn : Type 0 where
  pub title : ℕ
  pub checkpoint : ℕ
  pub start : ℕ
  pub end : Option ℕ
  pub revision : Option ℕ
  pub task : Option ℕ
  pub trust_remote_code : Bool
  pub actor_class : Option ℕ
  pub envoy_class : Option ℕ
  pub padding_factor : Option Factor
  pub execution_timeout_seconds : Option ℕ
  pub model_key : Option ℕ

-- A raw entry of the file, and `ScheduleEvent` once it is validated.
pub record ScheduleEvent : Type 0 where
  pub payload : ScheduleEventIn
  pub id : ℕ
  pub created_at : ℕ
  pub updated_at : ℕ
  pub last_status : Option ℕ
  pub last_error : Option ℕ

-- `_end_after_start`
unfoldable pub end_after_start : ScheduleEventIn → Bool
end_after_start payload = elim payload.end [ none ↦ true | some end ↦ ltb payload.start end ]

abbrev pub is_given : Option ℕ → Bool
is_given none = false
is_given (some value) = true

-- `ScheduleEvent.model_validate`: the window, and the key that a persisted event must have.
unfoldable pub is_valid : ScheduleEventIn → Bool
is_valid payload = end_after_start payload && is_given payload.model_key

unfoldable pub validate : ScheduleEvent → Result ScheduleEvent
validate event = if is_valid event.payload then ok event else raise value_error

-- `ScheduleStore.list`
unfoldable pub list_events : List ScheduleEvent → Result (List ScheduleEvent)
list_events [] = ok []
list_events (event ∷ events) =
    validate event >>= (λ valid. list_events events >>= (λ rest. ok (valid ∷ rest)))

unfoldable pub first_with : ℕ → List ScheduleEvent → Option ScheduleEvent
first_with id [] = none
first_with id (event ∷ events) = if event.id == id then some event else first_with id events

-- `ScheduleStore.get`
unfoldable pub get_event : ℕ → List ScheduleEvent → Result (Option ScheduleEvent)
get_event id events = list_events events >>= (λ valid. ok (first_with id valid))

-- `ScheduleStore.create`, with the id that `uuid4` gives.
unfoldable pub create_event :
    ℕ → ℕ → ScheduleEventIn → List ScheduleEvent → Result (ScheduleEvent × List ScheduleEvent)
create_event now id payload events =
    validate (record {
      payload = payload;
      id = id;
      created_at = now;
      updated_at = now;
      last_status = none;
      last_error = none;
    })
    >>= (λ event. ok (event, events ++ event ∷ []))

-- `ScheduleStore.update`: the entry is validated as it was, not as it becomes.
unfoldable pub update_event :
    ℕ
    → ℕ
    → ScheduleEventIn
    → List ScheduleEvent
    → Result (Option ScheduleEvent × List ScheduleEvent)
update_event now id payload [] = ok (none, [])
update_event now id payload (event ∷ events) =
    if event.id == id
    then (validate event >>= (λ existing.
        let updated = record existing { payload = payload; updated_at = now } in
        ok (some updated, updated ∷ events)))
    else (update_event now id payload events >>= (λ (found, rest). ok (found, event ∷ rest)))

-- `ScheduleStore.delete`
unfoldable pub delete_event : ℕ → List ScheduleEvent → Bool × List ScheduleEvent
delete_event id events =
    let kept = keep (λ event. not (event.id == id)) events in
    if length kept == length events then (false, events) else (true, kept)

-- `ScheduleStore.mark_status`
unfoldable pub mark_status : ℕ → ℕ → ℕ → Option ℕ → List ScheduleEvent → List ScheduleEvent
mark_status now id status error [] = []
mark_status now id status error (event ∷ events) =
    if event.id == id
    then record event { last_status = some status; last_error = error; updated_at = now } ∷ events
    else event ∷ mark_status now id status error events

-- `_is_active`
unfoldable pub is_active : ℕ → ScheduleEvent → Bool
is_active when event =
    if ltb when event.payload.start
    then false
    else (elim event.payload.end [ none ↦ true | some end ↦ ltb when end ])

unfoldable pub filter_active : ℕ → List ScheduleEvent → List ScheduleEvent
filter_active when events = keep (is_active when) events

-- `ScheduleStore.active_at`
unfoldable pub active_at : ℕ → List ScheduleEvent → Result (List ScheduleEvent)
active_at when events = list_events events >>= (λ valid. ok (filter_active when valid))

-- A write of the schedule's router, which mints the key.
pub data Write : Type 0 where
  created : (now id : ℕ) → ScheduleEventIn → Write
  updated : (now id : ℕ) → ScheduleEventIn → Write
  deleted : (id : ℕ) → Write
  marked : (now id status : ℕ) → (error : Option ℕ) → Write

unfoldable pub run : Write → List ScheduleEvent → Result (List ScheduleEvent)
run (created now id payload) events =
    create_event now id payload events >>= (λ (event, rest). ok rest)
run (updated now id payload) events =
    update_event now id payload events >>= (λ (event, rest). ok rest)
run (deleted id) events = ok (delete_event id events).1
run (marked now id status error) events = ok (mark_status now id status error events)
