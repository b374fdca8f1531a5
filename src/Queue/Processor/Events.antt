-- ===== src/Queue/Processor/Events.antt =====
-- services/api/queue/processor.py: starting, scaling and reconciling, and the events of a processor.
use ndif.Prelude.{
  ℕ, ◌+◌, Bool, true, false, ◌&&◌, Option, none, some, List, [], ◌∷◌, length, ltb, if◌then◌else◌,
}
use ndif.Prelude.Dict.{lookup, del}
use ndif.Queue.RequestQueue.{Request, oldest, empty_queue}
use ndif.Queue.Processor.{
  ProcessorStatus, uninitialized, deploying, ready, Processor, ReplicaId, ObjectId, Outcome,
  running, reply, register, register_all, with_object, with_status, report, begin_purge, step_purge,
  abandon_purge, enqueue, take, dispatch_end, worker_exit, is_setting_up, is_running, is_idle,
  stopped,
}

abbrev pub new_processor : Processor
new_processor = record {
  queue = empty_queue;
  status = uninitialized;
  objects = [];
  next_object = 0;
  replicas = [];
  replies = [];
  errors = 0;
  starting = false;
  purges = [];
  next_purge = 0;
}

-- `replica.start()`
unfoldable pub start_object : ObjectId → Processor → Processor
start_object o p = elim (lookup o p.objects) [
  | none ↦ p
  | some r ↦ with_object o (record r { task = running }) p
]

-- `start`: the replicas that the controller lists, or the one that it deployed, are registered.
unfoldable pub start_found : List ReplicaId → Processor → Processor
start_found rids p = reply (with_status deploying (register_all rids p))

-- One replica is ready.
unfoldable pub start_ready : ObjectId → Processor → Processor
unfolding start_object
start_ready o p = with_status ready (start_object o p)

unfoldable pub start_done : Processor → Processor
start_done p = reply (record p { starting = false })

abbrev pub is_ready : ProcessorStatus → Bool
is_ready ready = true
is_ready _ = false

-- Any exception in `start`: reported, and the processor is purged unless it is ready.
unfoldable pub start_failed : Processor → Processor
start_failed p =
    if is_ready p.status
    then record (report p) { starting = false }
    else begin_purge true (report p)

-- The ids that are new to the pool.
unfoldable pub register_new : List ReplicaId → Processor → Processor
register_new [] p = p
register_new (rid ∷ rids) p = elim (lookup rid p.replicas) [
  | some o ↦ register_new rids p
  | none ↦ register_new rids (register rid p)
]

-- `none` where asking the controller raised.
unfoldable pub reconcile : Option (List ReplicaId) → Processor → Processor
unfolding register_new
reconcile none p = report p
reconcile (some current) p = if is_setting_up p.status then p else register_new current p

-- `adopt`, and the end of `Replica.deploy`, of a replica that is ready.
unfoldable pub adopt_ready : ObjectId → Processor → Processor
adopt_ready o p = reply (start_ready o p)

unfoldable pub adopt_failed : ReplicaId → Processor → Processor
adopt_failed rid p = report (record p { replicas = del rid p.replicas })

-- The test of a tick of `autoscaling_loop`.
abbrev pub wants_more : ℕ → ℕ → ℕ → Processor → Bool
wants_more now threshold max_replicas p = elim (oldest p.queue) [
  | none ↦ false
  | some request ↦ elim request.enqueued_at [
    | none ↦ false
    | some at ↦
        is_ready p.status && ltb (at + threshold) now && ltb (length p.replicas) max_replicas
  ]
]

-- `scale_up` with the id that the controller placed, or `none` where it refused.
unfoldable pub scale_up : Option ReplicaId → Processor → Processor
scale_up none p = report p
scale_up (some rid) p = register rid p

-- A cancelled worker that has no request in hand.
unfoldable pub withdraw : ObjectId → Processor → Processor
withdraw o p = elim (lookup o p.objects) [
  | none ↦ p
  | some r ↦
      if is_running r.task && is_idle r
      then worker_exit r.replica_id (with_object o (stopped r) p)
      else p
]

pub data Event : Type 0 where
  enqueued : (now : ℕ) → Request → Event
  found : List ReplicaId → Event
  started : ObjectId → Event
  start_ended start_raised : Event
  taken : ObjectId → Event
  ended : (now : ℕ) → ObjectId → Outcome → Event
  reconciled : Option (List ReplicaId) → Event
  adopted : ObjectId → Event
  adoption_failed : ReplicaId → Event
  tick : (now threshold max_replicas : ℕ) → Option ReplicaId → Event
  scaled : ObjectId → Event
  purge_begun : Event
  purge_stepped : (u : ℕ) → Event
  purge_raised : (u : ℕ) → Event
  withdrawn : ObjectId → Event

unfoldable pub step : Event → Processor → Processor
unfolding start_found start_ready start_done start_failed reconcile adopt_ready adopt_failed
    scale_up withdraw
step (enqueued now request) p = enqueue now request false p
step (found rids) p = start_found rids p
step (started o) p = start_ready o p
step start_ended p = start_done p
step start_raised p = start_failed p
step (taken o) p = take o p
step (ended now o outcome) p = dispatch_end now o outcome p
step (reconciled current) p = reconcile current p
step (adopted o) p = adopt_ready o p
step (adoption_failed rid) p = adopt_failed rid p
step (tick now threshold max_replicas placed) p =
    if wants_more now threshold max_replicas p then scale_up placed p else p
step (scaled o) p = start_object o p
step purge_begun p = begin_purge false p
step (purge_stepped u) p = step_purge u p
step (purge_raised u) p = abandon_purge u p
step (withdrawn o) p = withdraw o p

unfoldable pub run : List Event → Processor → Processor
unfolding step
run [] p = p
run (e ∷ events) p = run events (step e p)
