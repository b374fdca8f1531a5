-- ===== src/Queue/Processor/Handlers.antt =====
-- services/api/queue/processor.py and replica.py: the handlers, each on the requests that are held.
use ndif.Prelude.{
  ℕ, ◌+◌, ◌<◌, ◌≡◌, refl, Bool, true, false, ◌&&◌, none, some, List, [], ◌∷◌, All_imp,
  if◌then◌else◌, Bool-cases, Option-cases, inl, inr, arith,
}
use ndif.Prelude.Dict.{lookup, del, set-All}
use ndif.Prelude.Sort.{extract_min}
use ndif.Queue.RequestQueue.{Request, item_lt, item_of, put, get}
use ndif.Queue.Processor.{
  Processor, Replica, ReplicaId, ObjectId, Status, error, completed, respond, ensure_started,
  mark_idle, enqueue, register, register_all, with_object, worker_exit, take, take_next, Outcome,
  returned, evicted, failed, interrupted, unstarted, settle, dispatch_end, idle, stopped, is_empty,
  is_running, is_idle,
}
use ndif.Queue.Processor.Held.{
  in_items, settled, is_final, held, Bounded, Safe, Safe-refl, Safe-trans, in_items-append,
  in_items-extract_min, set-old, set-new, set-holds, set-bound, respond-Safe,
}

-- Whichever branch is taken.
pub if-Safe : (p x y : Processor) (c : Bool) → Safe p x → Safe p y → Safe p (if c then x else y)
if-Safe p x y true f g = f
if-Safe p x y false f g = g

pub ensure_started-Safe : (p : Processor) → Safe p (ensure_started p)
unfolding ensure_started
ensure_started-Safe p = if-Safe p p _ _ (Safe-refl p) (λ b. (b, λ id h. h))

pub worker_exit-Safe : (rid : ReplicaId) (p : Processor) → Safe p (worker_exit rid p)
unfolding worker_exit mark_idle
worker_exit-Safe rid p =
    let p' = record p { replicas = del rid p.replicas } in
    if-Safe p _ _ (is_empty p.queue.items)
      (if-Safe p _ _ (is_empty p'.replicas) (λ b. (b, λ id h. h)) (λ b. (b, λ id h. h)))
      (Safe-trans p p' (ensure_started p') (λ b. (b, λ id h. h)) (ensure_started-Safe p'))

pub put-Safe :
    (now : ℕ) (request : Request) (prepend : Bool) (p : Processor)
    → Safe p (record p { queue = put now request prepend p.queue })
unfolding put
put-Safe now request prepend p b = (
  b,
  λ id h.
      ground (
        arith,
        in_items-append id p.queue.items (item_of now p.queue.next_seq request prepend ∷ []),
      ),
)

pub enqueue-Safe :
    (now : ℕ) (request : Request) (prepend : Bool) (p : Processor)
    → Safe p (enqueue now request prepend p)
unfolding enqueue
enqueue-Safe now request prepend p =
    let p1 = record p { queue = put now request prepend p.queue } in
    Safe-trans p (ensure_started p1) (enqueue now request prepend p)
      (Safe-trans p p1 (ensure_started p1) (put-Safe now request prepend p)
        (ensure_started-Safe p1))
      (respond-Safe request.id _ (ensure_started p1))

put-held :
    (now : ℕ) (request : Request) (prepend : Bool) (p : Processor)
    → held request.id (record p { queue = put now request prepend p.queue }) ≡ true
unfolding put item_of in_items
put-held now request prepend p = ground (
  arith,
  in_items-append request.id p.queue.items (item_of now p.queue.next_seq request prepend ∷ []),
)

-- What is enqueued is held.
pub enqueue-held :
    (now : ℕ) (request : Request) (prepend : Bool) (p : Processor)
    → Bounded p
    → held request.id (enqueue now request prepend p) ≡ true
unfolding enqueue
enqueue-held now request prepend p b =
    let p1 = record p { queue = put now request prepend p.queue } in
    (Safe-trans p1 (ensure_started p1) (enqueue now request prepend p) (ensure_started-Safe p1)
        (respond-Safe request.id _ (ensure_started p1)) b).1
      request.id (put-held now request prepend p)

abbrev fresh_replica : ReplicaId → Replica
fresh_replica rid = record { replica_id = rid; task = unstarted; current_request = none }

pub register-Safe : (rid : ReplicaId) (p : Processor) → Safe p (register rid p)
unfolding register
register-Safe rid p b = (
  set-All (λ e. e.0 < p.next_object + 1) p.next_object (fresh_replica rid) p.objects (omega arith)
      (All_imp (λ e. e.0 < p.next_object) (λ e. e.0 < p.next_object + 1) p.objects
        (λ e h. omega arith) b),
  λ id h. ground (arith, set-new id p.next_object (fresh_replica rid) p.objects b),
)

pub register_all-Safe : (rids : List ReplicaId) (p : Processor) → Safe p (register_all rids p)
unfolding register_all
register_all-Safe [] p = Safe-refl p
register_all-Safe (rid ∷ rids) p =
    Safe-trans p (register rid p) (register_all (rid ∷ rids) p) (register-Safe rid p)
      (register_all-Safe rids (register rid p))

-- An object is rewritten with the request that it has in hand.
pub with_object-Safe :
    (o : ObjectId) (r r' : Replica) (p : Processor)
    → lookup o p.objects ≡ some r
    → r'.current_request ≡ r.current_request
    → Safe p (with_object o r' p)
with_object-Safe o r r' p e same b = (
  set-bound o p.next_object r r' p.objects e b,
  λ id h. ground (arith, set-old id o r r' p.objects e, set-holds id o r' p.objects),
)

-- A worker's request is answered.
answered-Safe :
    (o : ObjectId) (r r' : Replica) (request : Request) (st : Status) (p : Processor)
    → lookup o p.objects ≡ some r
    → r.current_request ≡ some request
    → is_final st ≡ true
    → Safe p (respond request.id st (with_object o r' p))
unfolding settled
answered-Safe o r r' request st p e c f b = (
  set-bound o p.next_object r r' p.objects e b,
  λ id h. ground (arith, set-old id o r r' p.objects e),
)

take_next-Safe :
    (o : ObjectId) (r : Replica) (p : Processor)
    → lookup o p.objects ≡ some r
    → is_idle r ≡ true
    → Safe p (take_next o r p)
unfolding take_next get settled
take_next-Safe o r p e free b = elim (Option-cases (extract_min item_lt p.queue.items)) [
  | inl q ↦ rw (take_next, get, q) (b, λ id h. h)
  | inr ((m, rest), q) ↦
      let r' = record r { current_request = some m.request } in
      rw (take_next, get, q)
        (
          set-bound o p.next_object r r' p.objects e b,
          λ id h. ground (
            arith,
            in_items-extract_min id p.queue.items m rest q,
            set-old id o r r' p.objects e,
            set-holds id o r' p.objects,
          ),
        )
]

pub take-Safe : (o : ObjectId) (p : Processor) → Safe p (take o p)
unfolding take
take-Safe o p = elim (Option-cases (lookup o p.objects)) [
  | inl e ↦ rw (take, e) (Safe-refl p)
  | inr (r, e) ↦ elim (Bool-cases (is_running r.task && is_idle r)) [
    | inl c ↦ rw (take, e, c) (take_next-Safe o r p e (ground arith))
    | inr c ↦ rw (take, e, c) (Safe-refl p)
  ]
]

-- The request in hand goes back to the queue.
requeued-Safe :
    (now : ℕ) (o : ObjectId) (r : Replica) (request : Request) (p : Processor)
    → lookup o p.objects ≡ some r
    → r.current_request ≡ some request
    → Safe p (record (with_object o (stopped r) p) { queue = put now request true p.queue })
unfolding put in_items item_of
requeued-Safe now o r request p e c b = (
  set-bound o p.next_object r (stopped r) p.objects e b,
  λ id h. ground (
    arith,
    set-old id o r (stopped r) p.objects e,
    in_items-append id p.queue.items (item_of now p.queue.next_seq request true ∷ []),
  ),
)

settle-Safe :
    (now : ℕ) (o : ObjectId) (r : Replica) (request : Request) (outcome : Outcome) (p : Processor)
    → lookup o p.objects ≡ some r
    → r.current_request ≡ some request
    → Safe p (settle now o r request outcome p)
unfolding settle enqueue
settle-Safe now o r request returned p e c = answered-Safe o r (idle r) request completed p e c refl
settle-Safe now o r request failed p e c = answered-Safe o r (idle r) request error p e c refl
settle-Safe now o r request interrupted p e c =
    Safe-trans p (respond request.id error (with_object o (stopped r) p))
      (settle now o r request interrupted p)
      (answered-Safe o r (stopped r) request error p e c refl)
      (worker_exit-Safe r.replica_id (respond request.id error (with_object o (stopped r) p)))
settle-Safe now o r request evicted p e c =
    let p1 = record (with_object o (stopped r) p) { queue = put now request true p.queue } in
    let p2 = enqueue now request true (with_object o (stopped r) p) in
    Safe-trans p p1 (worker_exit r.replica_id p2) (requeued-Safe now o r request p e c) (
      Safe-trans p1 (ensure_started p1) (worker_exit r.replica_id p2) (ensure_started-Safe p1) (
        Safe-trans (ensure_started p1) p2 (worker_exit r.replica_id p2)
          (respond-Safe request.id _ (ensure_started p1)) (worker_exit-Safe r.replica_id p2)))

pub dispatch_end-Safe :
    (now : ℕ) (o : ObjectId) (outcome : Outcome) (p : Processor)
    → Safe p (dispatch_end now o outcome p)
unfolding dispatch_end
dispatch_end-Safe now o outcome p = elim (Option-cases (lookup o p.objects)) [
  | inl e ↦ rw (dispatch_end, e) (Safe-refl p)
  | inr (r, e) ↦ elim (Option-cases r.current_request) [
    | inl c ↦ rw (dispatch_end, e, c) (Safe-refl p)
    | inr (request, c) ↦ rw (dispatch_end, e, c) (settle-Safe now o r request outcome p e c)
  ]
]
