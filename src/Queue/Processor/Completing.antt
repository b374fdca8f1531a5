-- ===== src/Queue/Processor/Completing.antt =====
-- services/api/queue/processor.py: `purge` when nothing comes between its awaits.
use ndif.Prelude.{ℕ, zero, suc, ◌≡◌, Bool, true, Option, none, some, List, [], All}
use ndif.Prelude.Dict.{Dict, lookup}
use ndif.Queue.RequestQueue.{Request}
use ndif.Queue.Processor.{
  Processor, Replica, ObjectId, Status, uninitialized, step_purge, pool_objects,
}
use ndif.Queue.Processor.Held.{settled}

-- So many steps of the purge alone.
unfoldable pub purge_steps : ℕ → ℕ → Processor → Processor
purge_steps zero u p = p
purge_steps (suc n) u p = purge_steps n u (step_purge u p)

-- The request that a replica had in hand is answered.
abbrev pub is_told : Option Replica → List (ℕ × Status) → Bool
is_told none replies = true
is_told (some r) replies = elim r.current_request [
  | none ↦ true
  | some request ↦ settled request.id replies
]

-- No answer is taken back.
abbrev Grows : List (ℕ × Status) → List (ℕ × Status) → Type 0
Grows replies replies' = (id : ℕ) → settled id replies ≡ true → settled id replies' ≡ true

-- What the cancel of one replica does.
record Cancelled (o : ObjectId) (p q : Processor) : Type 0 where
  same_queue : q.queue ≡ p.queue
  same_objects : q.objects ≡ p.objects
  same_purges : q.purges ≡ p.purges
  grows : Grows p.replies q.replies
  told : is_told (lookup o p.objects) q.replies ≡ true

-- A purge has ended: the pool is empty and the processor as before any start, and the replicas that
-- were still to be cancelled have had their requests answered.
record Ended (os : List ObjectId) (p q : Processor) : Type 0 where
  same_queue : q.queue ≡ p.queue
  no_replicas : q.replicas ≡ []
  is_uninitialized : q.status ≡ uninitialized
  grows : Grows p.replies q.replies
  told : All (λ o. is_told (lookup o p.objects) q.replies ≡ true) os

Ends : ℕ → List ObjectId → Processor → Type 0
Ends u os p = (n : ℕ) × Ended os p (purge_steps n u p)

-- After a purge: the processor is as before any start, the listed requests are answered, and so is
-- each request that a replica of the pool had in hand; no answer was taken back.
pub record Purged (rs : List Request) (p q : Processor) : Type 0 where
  pub no_items : q.queue.items ≡ []
  pub no_replicas : q.replicas ≡ []
  pub is_uninitialized : q.status ≡ uninitialized
  pub grows : Grows p.replies q.replies
  pub answered : All (λ r. settled r.id q.replies ≡ true) rs
  pub told : All (λ o. is_told (lookup o p.objects) q.replies ≡ true) (pool_objects p.replicas)
