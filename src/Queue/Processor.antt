-- ===== src/Queue/Processor.antt =====
-- services/api/queue/processor.py and replica.py: a model's requests, and the workers that serve
-- them. A `Replica` object outlives its place in the pool, so the objects stand in a store, and the
-- pool names them. The code between two awaits is one event.
pub mod Events
pub mod Held
pub mod Handlers
pub mod Purging
pub mod Completing
pub mod Steps
use ndif.Prelude.{
  ℕ, suc, ◌+◌, ◌-◌, Bool, true, false, not, ◌&&◌, ◌||◌, Option, none, some, List, [], ◌∷◌, ◌++◌,
  map, length, ltb, ◌==◌, if◌then◌else◌,
}
use ndif.Prelude.Dict.{Dict, lookup, set, del}
use ndif.Queue.RequestQueue.{Request, RequestQueue, put, get, snapshot, clear, oldest, stamp, rank}

pub data ProcessorStatus : Type 0 where
  uninitialized provisioning deploying ready cancelled : ProcessorStatus

-- The statuses of a reply that the queue sends, and `completed`, which the actor sends.
pub data Status : Type 0 where
  queued_status provisioning_status deploying_status dispatched completed error : Status

-- `task`: never started, running, or none or done.
pub data Task : Type 0 where
  unstarted running done : Task

abbrev pub ReplicaId : Type 0
ReplicaId = ℕ

-- Where a `Replica` object is in memory.
abbrev pub ObjectId : Type 0
ObjectId = ℕ

pub record Replica : Type 0 where
  pub replica_id : ReplicaId
  pub task : Task
  pub current_request : Option Request

-- A purge under way: the requests of its snapshot that are still to be answered, or then the
-- replicas that are still to be cancelled, and whether it is `start`'s.
pub data Purge : Type 0 where
  answering : (of_start : Bool) → List Request → Purge
  cancelling : (of_start : Bool) → List ObjectId → Purge

-- `replies` are the calls of `arespond`, `errors` the length of what was put in the error queue, and
-- `starting` says that a task of `start` was created and has not ended.
pub record Processor : Type 0 where
  pub queue : RequestQueue
  pub status : ProcessorStatus
  pub objects : Dict Replica
  pub next_object : ObjectId
  pub replicas : Dict ObjectId
  pub replies : List (ℕ × Status)
  pub errors : ℕ
  pub starting : Bool
  pub purges : Dict Purge
  pub next_purge : ℕ

abbrev pub is_setting_up : ProcessorStatus → Bool
is_setting_up provisioning = true
is_setting_up deploying = true
is_setting_up _ = false

abbrev pub respond : ℕ → Status → Processor → Processor
respond id s p = record p { replies = (id, s) ∷ p.replies }

-- The status that a reply with no description takes from the phase.
abbrev pub phase_status : ProcessorStatus → Status → Status
phase_status provisioning s = provisioning_status
phase_status deploying s = deploying_status
phase_status _ s = s

unfoldable pub respond_all : List Request → Status → Processor → Processor
respond_all [] s p = p
respond_all (r ∷ rs) s p = respond_all rs s (respond r.id s p)

-- `reply()`: every queued request.
unfoldable pub reply : Processor → Processor
unfolding respond_all
reply p = respond_all (snapshot p.queue) (phase_status p.status queued_status) p

abbrev pub is_empty {ℓ} : {A : Type ℓ} → List A → Bool
is_empty [] = true
is_empty (x ∷ xs) = false

unfoldable pub ensure_started : Processor → Processor
ensure_started p =
    if not (is_empty p.replicas) || is_setting_up p.status
    then p
    else record p { status = provisioning; starting = true }

unfoldable pub mark_idle : Processor → Processor
mark_idle p = if is_empty p.replicas then record p { status = uninitialized } else p

unfoldable pub enqueue : ℕ → Request → Bool → Processor → Processor
unfolding ensure_started
enqueue now request prepend p =
    let p' = ensure_started (record p { queue = put now request prepend p.queue }) in
    respond request.id (phase_status p'.status queued_status) p'

-- `Replica(...)`, registered in the pool.
unfoldable pub register : ReplicaId → Processor → Processor
register rid p = record p {
  objects =
      set p.next_object (record { replica_id = rid; task = unstarted; current_request = none })
        p.objects;
  next_object = p.next_object + 1;
  replicas = set rid p.next_object p.replicas;
}

unfoldable pub register_all : List ReplicaId → Processor → Processor
unfolding register
register_all [] p = p
register_all (rid ∷ rids) p = register_all rids (register rid p)

abbrev pub with_object : ObjectId → Replica → Processor → Processor
with_object o r p = record p { objects = set o r p.objects }

abbrev pub with_status : ProcessorStatus → Processor → Processor
with_status s p = record p { status = s }

abbrev pub report : Processor → Processor
report p = record p { errors = p.errors + 1 }

-- `cancel` of one replica: its request is answered, and its task ends.
abbrev pub cancel_current : Option Request → Processor → Processor
cancel_current none p = p
cancel_current (some request) p = respond request.id error p

unfoldable pub cancel_object : ObjectId → Processor → Processor
cancel_object o p = elim (lookup o p.objects) [
  | none ↦ p
  | some r ↦ cancel_current r.current_request p
]

abbrev pub pool_objects : Dict ObjectId → List ObjectId
pool_objects replicas = map (λ e. e.1) replicas

-- `purge` up to its first await: the snapshot is taken.
unfoldable pub begin_purge : Bool → Processor → Processor
begin_purge of_start p = record p {
  purges = set p.next_purge (answering of_start (snapshot p.queue)) p.purges;
  next_purge = p.next_purge + 1;
}

abbrev pub with_purge : ℕ → Purge → Processor → Processor
with_purge u purge p = record p { purges = set u purge p.purges }

-- The task of `start` ends with its purge.
abbrev pub end_purge : ℕ → Bool → Processor → Processor
end_purge u of_start p = record p {
  purges = del u p.purges;
  starting = if of_start then false else p.starting;
}

-- `purge` from one await to the next: a request of the snapshot is answered, or the queue is cleared
-- and the pool listed, or a replica is cancelled, or the pool is emptied.
unfoldable pub continue_purge : ℕ → Purge → Processor → Processor
unfolding cancel_object
continue_purge u (answering of_start (r ∷ rs)) p =
    respond r.id error (with_purge u (answering of_start rs) p)
continue_purge u (answering of_start []) p =
    with_purge u (cancelling of_start (pool_objects p.replicas))
      (record p { queue = clear p.queue })
continue_purge u (cancelling of_start (o ∷ os)) p =
    cancel_object o (with_purge u (cancelling of_start os) p)
continue_purge u (cancelling of_start []) p =
    end_purge u of_start (record p { replicas = []; status = uninitialized })

unfoldable pub step_purge : ℕ → Processor → Processor
unfolding continue_purge
step_purge u p = elim (lookup u p.purges) [ none ↦ p | some purge ↦ continue_purge u purge p ]

abbrev pub is_of_start : Purge → Bool
is_of_start (answering of_start rs) = of_start
is_of_start (cancelling of_start os) = of_start

-- An `arespond` of the purge raised: the rest of it is left undone.
unfoldable pub abandon_purge : ℕ → Processor → Processor
abandon_purge u p = elim (lookup u p.purges) [
  | none ↦ p
  | some purge ↦ end_purge u (is_of_start purge) p
]

-- `worker`'s `finally`: the pool entry of this id goes, whichever object it names.
unfoldable pub worker_exit : ReplicaId → Processor → Processor
unfolding ensure_started mark_idle
worker_exit rid p =
    let p' = record p { replicas = del rid p.replicas } in
    if is_empty p'.queue.items then mark_idle p' else ensure_started p'

-- `dispatch` begins: a started worker with nothing in hand took the next request.
unfoldable pub take_next : ObjectId → Replica → Processor → Processor
take_next o r p = elim (get p.queue) [
  | none ↦ p
  | some (request, queue) ↦
      respond request.id dispatched
        (with_object o (record r { current_request = some request }) (record p { queue = queue }))
]

abbrev pub is_running : Task → Bool
is_running running = true
is_running _ = false

abbrev pub is_idle : Replica → Bool
is_idle r = elim r.current_request [ none ↦ true | some request ↦ false ]

unfoldable pub take : ObjectId → Processor → Processor
unfolding take_next
take o p = elim (lookup o p.objects) [
  | none ↦ p
  | some r ↦ if is_running r.task && is_idle r then take_next o r p else p
]

-- How the call of the actor ends.
pub data Outcome : Type 0 where
  returned evicted failed interrupted : Outcome

abbrev pub idle : Replica → Replica
idle r = record r { current_request = none }

abbrev pub stopped : Replica → Replica
stopped r = record r { current_request = none; task = done }

-- The branches of `dispatch`, with the worker's exit where it follows.
unfoldable pub settle : ℕ → ObjectId → Replica → Request → Outcome → Processor → Processor
unfolding worker_exit enqueue
settle now o r request returned p = respond request.id completed (with_object o (idle r) p)
settle now o r request evicted p =
    worker_exit r.replica_id (enqueue now request true (with_object o (stopped r) p))
settle now o r request failed p = report (respond request.id error (with_object o (idle r) p))
settle now o r request interrupted p =
    worker_exit r.replica_id (respond request.id error (with_object o (stopped r) p))

unfoldable pub dispatch_end : ℕ → ObjectId → Outcome → Processor → Processor
unfolding settle
dispatch_end now o outcome p = elim (lookup o p.objects) [
  | none ↦ p
  | some r ↦ elim r.current_request [ none ↦ p | some request ↦ settle now o r request outcome p ]
]
