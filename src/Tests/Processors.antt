-- ===== src/Tests/Processors.antt =====
-- The theorems of processor.py at work on a worker whose replica is evicted, a start that
-- stalls, and a purge that overlooks a request.
use ndif.Prelude.{ℕ, ◌≡◌, refl, true, false, ◌||◌, none, some, List, [], ◌∷◌, length}
use ndif.Prelude.Dict.{lookup, set, del}
use ndif.Prelude.Sort.{sort, insert, extract_min}
use ndif.Queue.RequestQueue.{
  empty_queue, Request, put, get, snapshot, clear, key_lt, item_of, rank, stamp,
}
use ndif.Queue.Processor.{
  Processor, running, deploying, evicted, interrupted, ensure_started, mark_idle, enqueue, register,
  register_all, respond_all, reply, cancel_object, begin_purge, step_purge, continue_purge,
  worker_exit, take_next, take, settle, dispatch_end,
}
use ndif.Queue.Processor.Events.{
  Event, enqueued, found, started, start_ended, start_raised, start_failed, taken, ended,
  purge_begun, purge_stepped, new_processor, step, run, start_found, start_ready, start_done,
  start_object,
}
use ndif.Queue.Processor.Held.{held, settled, in_items, in_objects}
use ndif.Queue.Processor.Steps.{lost_on, run-held}

abbrev request : ℕ → Request
request id = record { id = id; priority = false; enqueued_at = none }

abbrev eviction : List Event
eviction =
    found (7 ∷ [])
    ∷ started 0
    ∷ start_ended
    ∷ taken 0
    ∷ ended 6 0 evicted
    ∷ purge_begun
    ∷ purge_stepped 0
    ∷ []

run-held_example :
    let start = step (enqueued 5 (request 1)) (run [] new_processor) in
    (held 1 (run eviction start) || lost_on 1 eviction start) ≡ true
run-held_example = run-held [] eviction 5 (request 1)

-- Replica 7 was purged with a request in hand, and is found again while its worker winds up.
abbrev overtaken : List Event
overtaken =
    enqueued 5 (request 1)
    ∷ found (7 ∷ [])
    ∷ started 0
    ∷ start_ended
    ∷ taken 0
    ∷ purge_begun
    ∷ purge_stepped 0
    ∷ purge_stepped 0
    ∷ purge_stepped 0
    ∷ enqueued 6 (request 2)
    ∷ found (7 ∷ [])
    ∷ ended 7 0 interrupted
    ∷ start_ended
    ∷ []

-- Then a request waits, no replica is there to serve it, and no start is under way that could bring
-- one, in a status in which none is begun.
stalled :
    let p = run overtaken new_processor in
    (length p.queue.items ≡ 1)
    × (p.replicas ≡ [])
    × (p.starting ≡ false)
    × (p.status ≡ deploying)
    × (ensure_started p ≡ p)
unfolding run step enqueue put item_of rank stamp ensure_started start_found register_all register
    reply respond_all snapshot start_ready start_object start_done take take_next get extract_min
    key_lt lookup set del begin_purge step_purge continue_purge cancel_object clear dispatch_end
    settle worker_exit mark_idle sort insert
stalled = (refl, refl, refl, refl, refl)

-- A request that comes while a purge answers the ones before it is cleared with them, unanswered.
abbrev overlooked : List Event
overlooked =
    enqueued 5 (request 1)
    ∷ start_raised
    ∷ purge_stepped 0
    ∷ enqueued 6 (request 2)
    ∷ purge_stepped 0
    ∷ purge_stepped 0
    ∷ []

drops_late :
    let p = run overlooked new_processor in
    (held 1 p ≡ true) × (held 2 p ≡ false) × (p.queue.items ≡ []) × (p.starting ≡ false)
unfolding run step enqueue put item_of rank stamp ensure_started start_failed begin_purge step_purge
    continue_purge snapshot clear lookup set del sort insert key_lt in_items in_objects settled
drops_late = (refl, refl, refl, refl)

-- Model 7's only replica has request 1 in hand while request 2 waits.
abbrev at_work : Processor
at_work = record new_processor {
  queue = put 6 (request 2) false empty_queue;
  objects = (0, record { replica_id = 7; task = running; current_request = some (request 1) }) ∷ [];
  replicas = (7, 0) ∷ [];
}
