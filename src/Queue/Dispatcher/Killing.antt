-- ===== src/Queue/Dispatcher/Killing.antt =====
-- dispatcher.py: `_kill` on each processor, and what it finds.
use ndif.Prelude.{
  ℕ, ◌≡◌, refl, true, false, ◌||◌, none, some, List, [], ◌∷◌, ◌==◌, Bool-cases, Option-cases, inl,
  inr, arith,
}
use ndif.Prelude.Dict.{Dict, lookup}
use ndif.Queue.RequestQueue.{Item, remove_item, remove}
use ndif.Queue.Processor.{
  Processor, Replica, ObjectId, error, respond, cancel_object, cancel_current,
}
use ndif.Queue.Processor.Held.{in_items, holds, settled, Safe}
use ndif.Queue.Processor.Purging.{cancel_object-Safe}
use ndif.Queue.Dispatcher.{
  pop_queued, executes, executing_from, executing_replica, cancel_executing,
}

-- What the removal of an id takes out has that id, and the rest stays.
pub remove_item-Taken :
    (id other : ℕ) (xs : List Item) (x : Item) (rest : List Item)
    → remove_item id xs ≡ some (x, rest)
    → (x.request.id ≡ id) × (in_items other xs ≡ (x.request.id == other || in_items other rest))
unfolding remove_item in_items
remove_item-Taken id other [] x rest h = absurd (ground arith)
remove_item-Taken id other (y ∷ ys) x rest h = elim (Bool-cases (y.request.id == id)) [
  | inl e ↦
      let first : y ≡ x = ground arith in
      let others : ys ≡ rest = ground arith in (ground arith, rw (← first, ← others) refl)
  | inr e ↦ elim (Option-cases (remove_item id ys)) [
    | inl g ↦ absurd (ground arith)
    | inr ((z, zs), g) ↦
        let first : z ≡ x = ground arith in
        let others : y ∷ zs ≡ rest = ground arith in
        let (same, kept) = remove_item-Taken id other ys z zs g in
        (rw (← first) same, rw (← first, ← others) (ground arith))
  ]
]

-- It takes something out exactly when the id is there.
remove_item-none : (id : ℕ) (xs : List Item) → remove_item id xs ≡ none → in_items id xs ≡ false
unfolding remove_item in_items
remove_item-none id [] h = refl
remove_item-none id (y ∷ ys) h = elim (Bool-cases (y.request.id == id)) [
  | inl e ↦ absurd (ground arith)
  | inr e ↦ elim (Option-cases (remove_item id ys)) [
    | inl g ↦ ground (arith, remove_item-none id ys g)
    | inr (found, g) ↦ absurd (ground arith)
  ]
]

-- What popping gives.
abbrev popped : ℕ → Item → List Item → Processor → Processor
popped id x rest p =
    respond x.request.id error (record p { queue = record p.queue { items = rest } })

pub pop_queued_cases :
    (id : ℕ) (p p' : Processor)
    → pop_queued id p ≡ some p'
    → (x : Item) × (rest : List Item) × (remove_item id p.queue.items ≡ some (x, rest))
      × (popped id x rest p ≡ p')
unfolding pop_queued remove
pop_queued_cases id p p' h = elim (Option-cases (remove_item id p.queue.items)) [
  | inl e ↦ absurd (ground arith)
  | inr ((x, rest), e) ↦ (x, rest, e, ground arith)
]

popped-Safe :
    (id : ℕ) (p : Processor) (x : Item) (rest : List Item)
    → remove_item id p.queue.items ≡ some (x, rest)
    → Safe p (popped id x rest p)
unfolding settled
popped-Safe id p x rest e b =
    (b, λ other h. ground (arith, (remove_item-Taken id other p.queue.items x rest e).1))

pub pop_queued-Safe : (id : ℕ) (p p' : Processor) → pop_queued id p ≡ some p' → Safe p p'
pop_queued-Safe id p p' h =
    let (x, rest, e, same) = pop_queued_cases id p p' h in rw (← same) (popped-Safe id p x rest e)

pub pop_queued-settled :
    (id : ℕ) (p p' : Processor) → pop_queued id p ≡ some p' → settled id p'.replies ≡ true
unfolding settled
pop_queued-settled id p p' h =
    let (x, rest, e, same) = pop_queued_cases id p p' h in
    let (its_id, kept) = remove_item-Taken id id p.queue.items x rest e in
    rw (← same) (ground arith)

pub pop_queued-none :
    (id : ℕ) (p : Processor) → pop_queued id p ≡ none → in_items id p.queue.items ≡ false
unfolding pop_queued remove
pop_queued-none id p h = elim (Option-cases (remove_item id p.queue.items)) [
  | inl e ↦ remove_item-none id p.queue.items e
  | inr (found, e) ↦ absurd (ground arith)
]

pub cancel_executing_cases :
    (id : ℕ) (p p' : Processor)
    → cancel_executing id p ≡ some p'
    → (o : ObjectId) × (executing_replica id p ≡ some o) × (cancel_object o p ≡ p')
unfolding cancel_executing
cancel_executing_cases id p p' h = elim (Option-cases (executing_replica id p)) [
  | inl e ↦ absurd (ground arith)
  | inr (o, e) ↦ (o, e, ground arith)
]

pub cancel_executing-Safe :
    (id : ℕ) (p p' : Processor) → cancel_executing id p ≡ some p' → Safe p p'
cancel_executing-Safe id p p' h =
    let (o, e, same) = cancel_executing_cases id p p' h in rw (← same) (cancel_object-Safe o p)

executing_from-executes :
    (id : ℕ) (objects : Dict Replica) (replicas : Dict ObjectId) (o : ObjectId)
    → executing_from id objects replicas ≡ some o
    → executes id (lookup o objects) ≡ true
unfolding executing_from
executing_from-executes id objects [] o h = absurd (ground arith)
executing_from-executes id objects ((rid, i) ∷ replicas) o h =
    elim (Bool-cases (executes id (lookup i objects))) [
      | inl e ↦ let same : i ≡ o = ground arith in rw same at e
      | inr e ↦ executing_from-executes id objects replicas o (ground arith)
    ]

cancel_current-answers :
    (id : ℕ) (current : Replica) (p : Processor)
    → holds id current ≡ true
    → settled id (cancel_current current.current_request p).replies ≡ true
unfolding settled
cancel_current-answers id current p h = elim (Option-cases current.current_request) [
  | inl e ↦ let nothing = rw e at h in absurd (ground arith)
  | inr (request, e) ↦ rw e (let at_hand = rw e at h in ground arith)
]

pub cancel_executing-settled :
    (id : ℕ) (p p' : Processor) → cancel_executing id p ≡ some p' → settled id p'.replies ≡ true
unfolding cancel_object
cancel_executing-settled id p p' h =
    let (o, e, same) = cancel_executing_cases id p p' h in
    let running = executing_from-executes id p.objects p.replicas o e in
    elim (Option-cases (lookup o p.objects)) [
      | inl g ↦ let nothing = rw g at running in absurd (ground arith)
      | inr (r, g) ↦
          rw (← same) (rw (cancel_object, g) (cancel_current-answers id r p (rw g at running)))
    ]
