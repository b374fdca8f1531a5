-- ===== src/Queue/Processor/Steps.antt =====
-- services/api/queue/processor.py: all events together.
use ndif.Prelude.{
  ℕ, ◌≡◌, refl, ap, Bool, ◌||◌, true, false, ◌&&◌, Option, none, some, List, [], ◌∷◌, Bool-cases,
  Option-cases, inl, inr, arith,
}
use ndif.Prelude.Dict.{lookup}
use ndif.Queue.RequestQueue.{Request, snapshot}
use ndif.Queue.Processor.{
  Processor, ProcessorStatus, ReplicaId, ObjectId, reply, register, with_object, with_status,
  report, begin_purge, enqueue, worker_exit, stopped, is_running, is_idle, is_setting_up, running,
  deploying, ready, register_all,
}
use ndif.Queue.Processor.Events.{
  Event, enqueued, found, started, start_ended, start_raised, taken, ended, reconciled, adopted,
  adoption_failed, tick, scaled, purge_begun, purge_stepped, purge_raised, withdrawn, step, run,
  start_object, start_found, start_ready, start_done, start_failed, register_new, reconcile,
  adopt_ready, adopt_failed, wants_more, scale_up, withdraw, is_ready, new_processor,
}
use ndif.Queue.Processor.Held.{held, Safe, Safe-refl, Safe-trans, respond_all-Safe}
use ndif.Queue.Processor.Handlers.{
  if-Safe, enqueue-Safe, enqueue-held, register-Safe, register_all-Safe, with_object-Safe,
  take-Safe, dispatch_end-Safe, worker_exit-Safe,
}
use ndif.Queue.Processor.Purging.{
  clears, begin_purge-Safe, abandon_purge-Safe, SafeBut, Safe-SafeBut, step_purge-SafeBut,
}

start_object-Safe : (o : ObjectId) (p : Processor) → Safe p (start_object o p)
unfolding start_object
start_object-Safe o p = elim (Option-cases (lookup o p.objects)) [
  | inl e ↦ rw (start_object, e) (Safe-refl p)
  | inr (r, e) ↦ rw (start_object, e) (with_object-Safe o r (record r { task = running }) p e refl)
]

-- What neither the queue nor a worker nor an answer depends on.
status-Safe : (p : Processor) (st : ProcessorStatus) → Safe p (with_status st p)
status-Safe p st b = (b, λ id h. h)

reply-Safe : (p : Processor) → Safe p (reply p)
unfolding reply
reply-Safe p = respond_all-Safe (snapshot p.queue) _ p

start_ready-Safe : (o : ObjectId) (p : Processor) → Safe p (start_ready o p)
unfolding start_ready
start_ready-Safe o p =
    Safe-trans p (start_object o p) (start_ready o p) (start_object-Safe o p)
      (status-Safe (start_object o p) ready)

register_new-Safe : (rids : List ReplicaId) (p : Processor) → Safe p (register_new rids p)
unfolding register_new
register_new-Safe [] p = Safe-refl p
register_new-Safe (rid ∷ rids) p = elim (Option-cases (lookup rid p.replicas)) [
  | inl e ↦
      rw (register_new, e)
        (Safe-trans p (register rid p) (register_new rids (register rid p)) (register-Safe rid p)
          (register_new-Safe rids (register rid p)))
  | inr (o, e) ↦ rw (register_new, e) (register_new-Safe rids p)
]

withdraw-Safe : (o : ObjectId) (p : Processor) → Safe p (withdraw o p)
unfolding withdraw
withdraw-Safe o p = elim (Option-cases (lookup o p.objects)) [
  | inl e ↦ rw (withdraw, e) (Safe-refl p)
  | inr (r, e) ↦ elim (Bool-cases (is_running r.task && is_idle r)) [
    | inl c ↦
        rw (withdraw, e, c)
          (Safe-trans p (with_object o (stopped r) p)
            (worker_exit r.replica_id (with_object o (stopped r) p))
            (with_object-Safe o r (stopped r) p e (ground arith))
            (worker_exit-Safe r.replica_id (with_object o (stopped r) p)))
    | inr c ↦ rw (withdraw, e, c) (Safe-refl p)
  ]
]

scale_up-Safe : (placed : Option ReplicaId) (p : Processor) → Safe p (scale_up placed p)
unfolding scale_up
scale_up-Safe none p = λ b. (b, λ id h. h)
scale_up-Safe (some rid) p = register-Safe rid p

-- The purge that the event continues.
abbrev pub purge_of : Event → Option ℕ
purge_of (purge_stepped u) = some u
purge_of _ = none

abbrev lost_at : ℕ → Option ℕ → Processor → Bool
lost_at id none p = false
lost_at id (some u) p = clears id u p

-- The event is the step of a purge that clears the queue while the request waits in it unanswered.
abbrev pub lost_in : ℕ → Event → Processor → Bool
lost_in id e p = lost_at id (purge_of e) p

-- On the way some purge cleared the queue while the request waited in it unanswered.
unfoldable pub lost_on : ℕ → List Event → Processor → Bool
lost_on id [] p = false
lost_on id (e ∷ events) p = lost_in id e p || lost_on id events (step e p)

-- All events but the steps of a purge.
pub handled-Safe : (e : Event) (p : Processor) → purge_of e ≡ none → Safe p (step e p)
unfolding step start_found start_done start_failed reconcile adopt_ready adopt_failed
handled-Safe (enqueued now request) p h = enqueue-Safe now request false p
handled-Safe (found rids) p h =
    let p1 = register_all rids p in
    Safe-trans p p1 (start_found rids p) (register_all-Safe rids p) (
      Safe-trans p1 (with_status deploying p1) (start_found rids p) (status-Safe p1 deploying)
        (reply-Safe (with_status deploying p1)))
handled-Safe (started o) p h = start_ready-Safe o p
handled-Safe start_ended p h =
    let p1 = record p { starting = false } in
    Safe-trans p p1 (start_done p) (λ b. (b, λ id h. h)) (reply-Safe p1)
handled-Safe start_raised p h =
    if-Safe p (record (report p) { starting = false }) (begin_purge true (report p))
      (is_ready p.status) (λ b. (b, λ id k. k)) (begin_purge-Safe true (report p))
handled-Safe (taken o) p h = take-Safe o p
handled-Safe (ended now o outcome) p h = dispatch_end-Safe now o outcome p
handled-Safe (reconciled none) p h = λ b. (b, λ id h. h)
handled-Safe (reconciled (some current)) p h =
    if-Safe p p (register_new current p) (is_setting_up p.status) (Safe-refl p)
      (register_new-Safe current p)
handled-Safe (adopted o) p h =
    Safe-trans p (start_ready o p) (adopt_ready o p) (start_ready-Safe o p)
      (reply-Safe (start_ready o p))
handled-Safe (adoption_failed rid) p h = λ b. (b, λ id h. h)
handled-Safe (tick now threshold max_replicas placed) p h =
    if-Safe p (scale_up placed p) p (wants_more now threshold max_replicas p)
      (scale_up-Safe placed p) (Safe-refl p)
handled-Safe (scaled o) p h = start_object-Safe o p
handled-Safe purge_begun p h = begin_purge-Safe false p
handled-Safe (purge_stepped u) p h = absurd (ground arith)
handled-Safe (purge_raised u) p h = abandon_purge-Safe u p
handled-Safe (withdrawn o) p h = withdraw-Safe o p

purge_of-some : (e : Event) (u : ℕ) → purge_of e ≡ some u → e ≡ purge_stepped u
purge_of-some (purge_stepped v) u h = ap purge_stepped (ground arith)
purge_of-some _ u h = absurd (ground arith)

purge_step-SafeBut :
    (u : ℕ) (p : Processor) → SafeBut (λ id. clears id u p) p (step (purge_stepped u) p)
unfolding step
purge_step-SafeBut u p = step_purge-SafeBut u p

pub step-SafeBut : (e : Event) (p : Processor) → SafeBut (λ id. lost_in id e p) p (step e p)
step-SafeBut e p = elim (Option-cases (purge_of e)) [
  | inl h ↦ Safe-SafeBut (λ id. lost_in id e p) p (step e p) (handled-Safe e p h)
  | inr (u, h) ↦ rw (purge_of-some e u h) (purge_step-SafeBut u p)
]

pub kept_on :
    (here gone later kept : Bool)
    → (here || gone) ≡ true
    → (here ≡ true → (kept || later) ≡ true)
    → (kept || (gone || later)) ≡ true
kept_on true gone later kept h k = let there = k refl in ground arith
kept_on false gone later kept h k = ground arith

pub run-SafeBut :
    (events : List Event) (p : Processor) → SafeBut (λ id. lost_on id events p) p (run events p)
unfolding run lost_on
run-SafeBut [] p = Safe-SafeBut (λ id. false) p p (Safe-refl p)
run-SafeBut (e ∷ events) p = λ b.
    let (b1, one) = step-SafeBut e p b in
    let (b2, others) = run-SafeBut events (step e p) b1 in
    (
      b2,
      λ id h.
          kept_on (held id (step e p)) (lost_in id e p) (lost_on id events (step e p))
            (held id (run events (step e p))) (one id h) (others id),
    )

-- Whatever happened to a new processor before, and whatever happens after it, a request that was
-- enqueued waits in the queue, is in a worker's hand, or was answered with a final status, unless
-- after it was enqueued some purge came to clear the queue while the request waited in it unanswered.
pub run-held :
    (before after : List Event) (now : ℕ) (request : Request)
    → let start = step (enqueued now request) (run before new_processor) in
      (held request.id (run after start) || lost_on request.id after start) ≡ true
unfolding step
run-held before after now request =
    let start = run before new_processor in
    let bounded = (run-SafeBut before new_processor tt).0 in
    let there = (enqueue-Safe now request false start bounded).0 in
    (run-SafeBut after (enqueue now request false start) there).1 request.id
      (enqueue-held now request false start bounded)
