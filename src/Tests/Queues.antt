-- ===== src/Tests/Queues.antt =====
-- The theorems of request_queue.py at work on a queue of three requests.
use ndif.Prelude.{ℕ, ◌≡◌, refl, Bool, true, false, none, some, [], ◌∷◌, get_elem?}
use ndif.Queue.RequestQueue.{
  Request, SortKey, RequestQueue, empty_queue, put, snapshot, position, key_of_id, count_before,
  key_lt, item_of, rank, stamp,
}
use ndif.Queue.RequestQueue.Order.{Inv, put-Inv}
use ndif.Queue.RequestQueue.Position.{snapshot-position}

abbrev request : ℕ → Bool → Request
request id priority = record { id = id; priority = priority; enqueued_at = none }

-- As it stands in the queue.
abbrev queued : ℕ → Bool → ℕ → Request
queued id priority at = record { id = id; priority = priority; enqueued_at = some at }

abbrev key : ℕ → ℕ → ℕ → SortKey
key rank at seq = record { rank = rank; enqueued_at = at; seq = seq }

-- Request 1 came at 5 and request 2, which has priority, at 6.
abbrev sample_queue : RequestQueue
sample_queue = record {
  items =
      record { key = key 3 5 0; request = queued 1 false 5 }
      ∷ record { key = key 1 6 1; request = queued 2 true 6 }
      ∷ [];
  next_seq = 2;
}

sample_queue-Inv : Inv sample_queue
unfolding put item_of rank stamp
sample_queue-Inv =
    put-Inv 6 (request 2 true) false (put 5 (request 1 false) false empty_queue)
      (put-Inv 5 (request 1 false) false empty_queue (record { below = tt; fresh = tt }))

put-Inv_example : Inv (put 7 (request 3 false) false sample_queue)
put-Inv_example = put-Inv 7 (request 3 false) false sample_queue sample_queue-Inv

abbrev served : RequestQueue
served = record {
  items = record { key = key 3 5 0; request = queued 1 false 5 } ∷ [];
  next_seq = 2;
}

snapshot-position_example :
    (r : Request) × (get_elem? (snapshot sample_queue) 1 ≡ some r) × (r.id ≡ 1)
unfolding position key_of_id count_before key_lt
snapshot-position_example = snapshot-position sample_queue 1 1 sample_queue-Inv refl
