-- ===== src/Queue/Dispatcher/Reporting.antt =====
-- dispatcher.py: what `_kill` reports.
use ndif.Prelude.{
  ℕ, ◌+◌, ◌≡◌, refl, List, if◌then◌else◌, ◌==◌, Bool-cases, Bool, true, false, ◌||◌, Option, none,
  some, [], ◌∷◌, Option-cases, inl, inr, arith,
}
use ndif.Prelude.Dict.{Dict, lookup}
use ndif.Queue.Processor.{Processor, Replica, ObjectId}
use ndif.Queue.RequestQueue.{Item, remove_item}
use ndif.Queue.Processor.Purging.{cancel_object-queue}
use ndif.Queue.Processor.Held.{in_items, settled}
use ndif.Queue.Dispatcher.{
  pop_queued, executes, executing_from, executing_replica, cancel_executing, first_change,
  KillStatus, removed_from_queue, cancelled_execution, not_found, kill,
}
use ndif.Queue.Dispatcher.Killing.{
  remove_item-Taken, pop_queued_cases, pop_queued-settled, pop_queued-none, cancel_executing_cases,
  cancel_executing-settled,
}

abbrev pub queued_in : ℕ → Processor → Bool
queued_in id p = in_items id p.queue.items

-- A replica object that the pool names has it in hand.
unfoldable pub executing_among : ℕ → Dict Replica → Dict ObjectId → Bool
executing_among id objects [] = false
executing_among id objects ((rid, o) ∷ replicas) =
    executes id (lookup o objects) || executing_among id objects replicas

abbrev pub executing_in : ℕ → Processor → Bool
executing_in id p = executing_among id p.objects p.replicas

abbrev pub answered_in : ℕ → Processor → Bool
answered_in id p = settled id p.replies

-- Some processor passes the test.
unfoldable pub any_processor : (Processor → Bool) → Dict Processor → Bool
any_processor test [] = false
any_processor test ((k, p) ∷ processors) = test p || any_processor test processors

module _ (f : Processor → Option Processor) (before after : Processor → Bool)
    (changes : (p p' : Processor) → f p ≡ some p' → (before p ≡ true) × (after p' ≡ true))
    (stays : (p : Processor) → f p ≡ none → before p ≡ false) where
  first_change-some :
      (d d' : Dict Processor)
      → first_change f d ≡ some d'
      → (any_processor before d ≡ true) × (any_processor after d' ≡ true)
  unfolding first_change any_processor
  first_change-some [] d' h = absurd (ground arith)
  first_change-some ((k, p) ∷ d) d' h = elim (Option-cases (f p)) [
    | inr (p', e) ↦
        let here : (k, p') ∷ d ≡ d' = ground arith in
        let (was, is) = changes p p' e in (ground arith, rw (← here) (ground arith))
    | inl e ↦ elim (Option-cases (first_change f d)) [
      | inl g ↦ absurd (ground arith)
      | inr (rest, g) ↦
          let here : (k, p) ∷ rest ≡ d' = ground arith in
          let (was, is) = first_change-some d rest g in (ground arith, rw (← here) (ground arith))
    ]
  ]

  first_change-none :
      (d : Dict Processor) → first_change f d ≡ none → any_processor before d ≡ false
  unfolding first_change any_processor
  first_change-none [] h = refl
  first_change-none ((k, p) ∷ d) h = elim (Option-cases (f p)) [
    | inr (p', e) ↦ absurd (ground arith)
    | inl e ↦ elim (Option-cases (first_change f d)) [
      | inr (rest, g) ↦ absurd (ground arith)
      | inl g ↦ let here = stays p e in ground (arith, first_change-none d g)
    ]
  ]

pop_queued-some :
    (id : ℕ) (p p' : Processor)
    → pop_queued id p ≡ some p'
    → (queued_in id p ≡ true) × (answered_in id p' ≡ true)
pop_queued-some id p p' h =
    let (x, rest, e, same) = pop_queued_cases id p p' h in
    let (its_id, kept) = remove_item-Taken id id p.queue.items x rest e in
    (ground arith, pop_queued-settled id p p' h)

executing_from-some :
    (id : ℕ) (objects : Dict Replica) (replicas : Dict ObjectId) (o : ObjectId)
    → executing_from id objects replicas ≡ some o
    → executing_among id objects replicas ≡ true
unfolding executing_from executing_among
executing_from-some id objects [] o h = absurd (ground arith)
executing_from-some id objects ((rid, i) ∷ replicas) o h =
    ground (arith, executing_from-some id objects replicas o)

executing_from-none :
    (id : ℕ) (objects : Dict Replica) (replicas : Dict ObjectId)
    → executing_from id objects replicas ≡ none
    → executing_among id objects replicas ≡ false
unfolding executing_from executing_among
executing_from-none id objects [] h = refl
executing_from-none id objects ((rid, i) ∷ replicas) h =
    ground (arith, executing_from-none id objects replicas)

cancel_executing-some :
    (id : ℕ) (p p' : Processor)
    → cancel_executing id p ≡ some p'
    → (executing_in id p ≡ true) × (answered_in id p' ≡ true)
cancel_executing-some id p p' h =
    let (o, e, same) = cancel_executing_cases id p p' h in
    (executing_from-some id p.objects p.replicas o e, cancel_executing-settled id p p' h)

cancel_executing-none :
    (id : ℕ) (p : Processor) → cancel_executing id p ≡ none → executing_in id p ≡ false
unfolding cancel_executing
cancel_executing-none id p h = elim (Option-cases (executing_replica id p)) [
  | inl e ↦ executing_from-none id p.objects p.replicas e
  | inr (o, e) ↦ absurd (ground arith)
]

-- How often an id waits in a queue, and in all of them.
unfoldable pub count_of : ℕ → List Item → ℕ
count_of id [] = 0
count_of id (x ∷ xs) = (if x.request.id == id then 1 else 0) + count_of id xs

unfoldable pub total : (Processor → ℕ) → Dict Processor → ℕ
total measure [] = 0
total measure ((k, p) ∷ processors) = measure p + total measure processors

abbrev pub waiting : ℕ → Dict Processor → ℕ
waiting id d = total (λ p. count_of id p.queue.items) d

remove_item-count :
    (id other : ℕ) (xs : List Item) (x : Item) (rest : List Item)
    → remove_item id xs ≡ some (x, rest)
    → count_of other xs ≡ count_of other rest + (if id == other then 1 else 0)
unfolding remove_item count_of
remove_item-count id other [] x rest h = absurd (ground arith)
remove_item-count id other (y ∷ ys) x rest h = elim (Bool-cases (y.request.id == id)) [
  | inl e ↦
      let others : ys ≡ rest = ground arith in
      let its_id : y.request.id ≡ id = ground arith in rw (← others, its_id) (omega arith)
  | inr e ↦ elim (Option-cases (remove_item id ys)) [
    | inl g ↦ absurd (ground arith)
    | inr ((z, zs), g) ↦
        let others : y ∷ zs ≡ rest = ground arith in
        rw (← others) (omega (arith, remove_item-count id other ys z zs g))
  ]
]

first_change-total :
    (f : Processor → Option Processor) (measure : Processor → ℕ) (less : ℕ)
    → ((p p' : Processor) → f p ≡ some p' → measure p ≡ measure p' + less)
    → (d d' : Dict Processor) → first_change f d ≡ some d'
    → total measure d ≡ total measure d' + less
unfolding first_change total
first_change-total f measure less change [] d' h = absurd (ground arith)
first_change-total f measure less change ((k, p) ∷ d) d' h = elim (Option-cases (f p)) [
  | inr (p', e) ↦
      let here : (k, p') ∷ d ≡ d' = ground arith in rw (← here) (omega (arith, change p p' e))
  | inl e ↦ elim (Option-cases (first_change f d)) [
    | inl g ↦ absurd (ground arith)
    | inr (rest, g) ↦
        let here : (k, p) ∷ rest ≡ d' = ground arith in
        rw (← here) (omega (arith, first_change-total f measure less change d rest g))
  ]
]

pop_queued-count :
    (id other : ℕ) (p p' : Processor)
    → pop_queued id p ≡ some p'
    → count_of other p.queue.items ≡ count_of other p'.queue.items + (if id == other then 1 else 0)
pop_queued-count id other p p' h =
    let (x, rest, e, same) = pop_queued_cases id p p' h in
    rw (← same) (remove_item-count id other p.queue.items x rest e)

cancel_executing-count :
    (id other : ℕ) (p p' : Processor)
    → cancel_executing id p ≡ some p'
    → count_of other p.queue.items ≡ count_of other p'.queue.items + 0
cancel_executing-count id other p p' h =
    let (o, e, same) = cancel_executing_cases id p p' h in
    let kept : p'.queue ≡ p.queue = rw (← same) (cancel_object-queue o p) in rw kept (omega arith)

-- What a kill reports, and what it then did.
abbrev pub Reported : ℕ → Dict Processor → KillStatus → Dict Processor → Type 0
Reported id d removed_from_queue d' =
    ((other : ℕ) → waiting other d ≡ waiting other d' + (if id == other then 1 else 0))
    × (any_processor (queued_in id) d ≡ true)
    × (any_processor (answered_in id) d' ≡ true)
Reported id d cancelled_execution d' =
    ((other : ℕ) → waiting other d ≡ waiting other d' + 0)
    × (any_processor (queued_in id) d ≡ false)
    × (any_processor (executing_in id) d ≡ true)
    × (any_processor (answered_in id) d' ≡ true)
Reported id d not_found d' =
    (any_processor (queued_in id) d ≡ false)
    × (any_processor (executing_in id) d ≡ false)
    × (d' ≡ d)

-- A kill reports what it found, and does what it reports: it says that a request was removed from the
-- queue only if a processor had it queued, and then it waits once less, every other request waits as
-- before, and it has its final answer; it says that it was cancelled only if none had it queued and a
-- replica of a pool executed it, and then the queues are as before and it has its final answer; it
-- says that there is none only if no processor has it queued or executes it, and changes nothing then.
pub kill-Reported : (id : ℕ) (d : Dict Processor) → Reported id d (kill id d).0 (kill id d).1
unfolding kill
kill-Reported id d = elim (Option-cases (first_change (pop_queued id) d)) [
  | inr (d', e) ↦
      let (was, is) =
        first_change-some (pop_queued id) (queued_in id) (answered_in id) (pop_queued-some id)
          (pop_queued-none id) d d' e in
      rw (kill, e)
        (
          λ other.
              first_change-total (pop_queued id) (λ p. count_of other p.queue.items)
                (if id == other then 1 else 0) (pop_queued-count id other) d d' e,
          was,
          is,
        )
  | inl e ↦
      let unqueued =
        first_change-none (pop_queued id) (queued_in id) (answered_in id) (pop_queued-some id)
          (pop_queued-none id) d e in
      elim (Option-cases (first_change (cancel_executing id) d)) [
        | inr (d', g) ↦
            let (was, is) =
              first_change-some (cancel_executing id) (executing_in id) (answered_in id)
                (cancel_executing-some id) (cancel_executing-none id) d d' g in
            rw (kill, e, g)
              (
                λ other.
                    first_change-total (cancel_executing id) (λ p. count_of other p.queue.items) 0
                      (cancel_executing-count id other) d d' g,
                unqueued,
                was,
                is,
              )
        | inl g ↦
            rw (kill, e, g)
              (
                unqueued,
                first_change-none (cancel_executing id) (executing_in id) (answered_in id)
                    (cancel_executing-some id) (cancel_executing-none id) d g,
                refl,
              )
      ]
]
