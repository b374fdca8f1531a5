-- ===== src/Queue/Dispatcher.antt =====
-- services/api/queue/dispatcher.py: the dict `self.processors`, and what the loops of the dispatcher do to
-- it. The error queue is drained into a list that says of each error whether it is a connection error.
pub mod Dispatching
pub mod Killing
pub mod Reporting
use ndif.Prelude.{
  ℕ, Bool, true, false, not, ◌&&◌, ◌||◌, Option, none, some, List, [], ◌∷◌, map, ◌==◌,
  if◌then◌else◌,
}
use ndif.Prelude.Dict.{Dict, lookup, set}
use ndif.Queue.RequestQueue.{Request, remove}
use ndif.Queue.Processor.{
  Processor, Replica, ReplicaId, ObjectId, error, respond, cancel_object, enqueue, begin_purge,
  is_empty,
}
use ndif.Queue.Processor.Events.{Event, new_processor, step, reconcile}
use ndif.Queue.Processor.Held.{holds}

abbrev pub ModelKey : Type 0
ModelKey = ℕ

abbrev pub or_new : Option Processor → Processor
or_new none = new_processor
or_new (some p) = p

-- The processor of a model, a new one where there is none yet.
unfoldable pub processor_of : ModelKey → Dict Processor → Processor
processor_of k processors = or_new (lookup k processors)

-- `dispatch`
unfoldable pub dispatch : ℕ → ModelKey → Request → Dict Processor → Dict Processor
dispatch now k request processors =
    set k (enqueue now request false (processor_of k processors)) processors

unfoldable pub any_connection : List Bool → Bool
any_connection [] = false
any_connection (is_connection ∷ errors) = is_connection || any_connection errors

-- Where a purge stands: `to_purge` lists the models whose processors it has not come to yet.
pub record Dispatcher : Type 0 where
  pub processors : Dict Processor
  pub to_purge : List ModelKey

abbrev pub new_dispatcher : Dispatcher
new_dispatcher = record { processors = []; to_purge = [] }

abbrev pub model_keys : Dict Processor → List ModelKey
model_keys processors = map (λ e. e.0) processors

-- `handle_errors` up to the first purge, with what `RayProvider.connected()` says.
unfoldable pub handle_errors : List Bool → Bool → Dispatcher → Dispatcher
handle_errors errors connected d =
    if is_empty errors
    then d
    else if any_connection errors || not connected
    then record d { to_purge = model_keys d.processors }
    else d

-- `purge` of the next processor begins, after the one before ended or raised.
unfoldable pub purge_one : ModelKey → Dict Processor → Dict Processor
purge_one k processors = elim (lookup k processors) [
  | none ↦ processors
  | some p ↦ set k (begin_purge false p) processors
]

abbrev pub purge_next_of : List ModelKey → Dict Processor → Dispatcher
purge_next_of [] processors = record { processors = processors; to_purge = [] }
purge_next_of (k ∷ ks) processors = record { processors = purge_one k processors; to_purge = ks }

unfoldable pub purge_next : Dispatcher → Dispatcher
unfolding purge_one
purge_next d = purge_next_of d.to_purge d.processors

-- `pop_queued`, and the answer to what it took out.
unfoldable pub pop_queued : ℕ → Processor → Option Processor
pop_queued id p =
    let (found, queue) = remove id p.queue in
    elim found [
      | none ↦ none
      | some request ↦ some (respond request.id error (record p { queue = queue }))
    ]

abbrev pub executes : ℕ → Option Replica → Bool
executes id none = false
executes id (some r) = holds id r

-- `executing_replica`, over the pool.
unfoldable pub executing_from : ℕ → Dict Replica → Dict ObjectId → Option ObjectId
executing_from id objects [] = none
executing_from id objects ((rid, o) ∷ replicas) =
    let later = executing_from id objects replicas in
    if executes id (lookup o objects) then some o else later

abbrev pub executing_replica : ℕ → Processor → Option ObjectId
executing_replica id p = executing_from id p.objects p.replicas

-- `cancel` with `interrupt` answers the request; how its dispatch then ends is a later event.
unfoldable pub cancel_executing : ℕ → Processor → Option Processor
cancel_executing id p = elim (executing_replica id p) [
  | none ↦ none
  | some o ↦ some (cancel_object o p)
]

-- A loop over the processors that stops at the first one it changes.
unfoldable pub first_change :
    (Processor → Option Processor) → Dict Processor → Option (Dict Processor)
first_change f [] = none
first_change f ((k, p) ∷ processors) =
    let later = first_change f processors in
    elim (f p) [
      | some p' ↦ some ((k, p') ∷ processors)
      | none ↦ elim later [ none ↦ none | some rest ↦ some ((k, p) ∷ rest) ]
    ]

pub data KillStatus : Type 0 where
  removed_from_queue cancelled_execution not_found : KillStatus

-- `_kill`
unfoldable pub kill : ℕ → Dict Processor → KillStatus × Dict Processor
kill id processors = elim (first_change (pop_queued id) processors) [
  | some processors' ↦ (removed_from_queue, processors')
  | none ↦ elim (first_change (cancel_executing id) processors) [
    | some processors' ↦ (cancelled_execution, processors')
    | none ↦ (not_found, processors)
  ]
]

-- `_handle_reconcile`, with what the controller answers.
unfoldable pub handle_reconcile :
    ModelKey → Option (List ReplicaId) → Dict Processor → Dict Processor
handle_reconcile k current processors = elim (lookup k processors) [
  | none ↦ processors
  | some p ↦ set k (reconcile current p) processors
]

-- What happens to a dispatcher: what its loops do, and the events of each processor.
pub data Happening : Type 0 where
  dispatched_request : (now : ℕ) → ModelKey → Request → Happening
  errors_handled : List Bool → (connected : Bool) → Happening
  next_purged : Happening
  killed : (id : ℕ) → Happening
  reconcile_asked : ModelKey → Option (List ReplicaId) → Happening
  processor_event : ModelKey → Event → Happening

unfoldable pub processor_step : ModelKey → Event → Dict Processor → Dict Processor
processor_step k event processors = elim (lookup k processors) [
  | none ↦ processors
  | some p ↦ set k (step event p) processors
]

unfoldable pub happen : Happening → Dispatcher → Dispatcher
happen (dispatched_request now k request) d = record d {
  processors = dispatch now k request d.processors;
}
happen (errors_handled errors connected) d = handle_errors errors connected d
happen next_purged d = purge_next d
happen (killed id) d = record d { processors = (kill id d.processors).1 }
happen (reconcile_asked k current) d = record d {
  processors = handle_reconcile k current d.processors;
}
happen (processor_event k event) d = record d { processors = processor_step k event d.processors }

unfoldable pub happen_all : List Happening → Dispatcher → Dispatcher
happen_all [] d = d
happen_all (h ∷ happenings) d = happen_all happenings (happen h d)
