-- ===== src/Tests/Dispatchers.antt =====
-- The theorems of dispatcher.py at work on two models' processors.
use ndif.Prelude.{ℕ, ◌≡◌, refl, true, false, ◌||◌, none, some, List, [], ◌∷◌}
use ndif.Prelude.Dict.{Dict}
use ndif.Queue.RequestQueue.{Request, empty_queue, put, remove, remove_item, item_of, rank, stamp}
use ndif.Queue.Processor.{Processor, provisioning, evicted}
use ndif.Queue.Processor.Events.{purge_stepped, new_processor, found, started, taken, ended}
use ndif.Queue.Processor.Held.{held}
use ndif.Queue.Dispatcher.{
  processor_of, kill, removed_from_queue, Happening, dispatched_request, errors_handled,
  next_purged, killed, reconcile_asked, processor_event, happen, happen_all, new_dispatcher,
  first_change, pop_queued,
}
use ndif.Queue.Dispatcher.Dispatching.{lost_over, happen_all-held}
use ndif.Queue.Dispatcher.Reporting.{Reported, kill-Reported}

abbrev request : ℕ → Request
request id = record { id = id; priority = false; enqueued_at = none }

abbrev waiting : ℕ → Processor
waiting id = record new_processor {
  queue = put 5 (request id) false empty_queue;
  status = provisioning;
}

abbrev two_models : Dict Processor
two_models = (3, waiting 1) ∷ (4, waiting 2) ∷ []

-- A request for model 4 is taken by a worker, whose replica is evicted; then Ray is lost.
abbrev before : List Happening
before = dispatched_request 4 3 (request 8) ∷ []

abbrev after : List Happening
after =
    processor_event 4 (found (7 ∷ []))
    ∷ processor_event 4 (started 0)
    ∷ processor_event 4 (taken 0)
    ∷ killed 8
    ∷ processor_event 4 (ended 6 0 evicted)
    ∷ reconcile_asked 4 (some (7 ∷ []))
    ∷ errors_handled (false ∷ true ∷ []) true
    ∷ next_purged
    ∷ processor_event 3 (purge_stepped 0)
    ∷ []

happen_all-held_example :
    let d = happen (dispatched_request 5 4 (request 2)) (happen_all before new_dispatcher) in
    (held 2 (processor_of 4 (happen_all after d).processors) || lost_over 2 4 after d) ≡ true
happen_all-held_example = happen_all-held before after 5 4 (request 2)

kill-Reported_example : Reported 2 two_models (kill 2 two_models).0 (kill 2 two_models).1
kill-Reported_example = kill-Reported 2 two_models

-- The kill of request 2 finds it with the second model.
kill_removes : (kill 2 two_models).0 ≡ removed_from_queue
unfolding kill first_change pop_queued remove remove_item put item_of rank stamp
kill_removes = refl
