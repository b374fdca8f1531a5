-- ===== src/Queue/Dispatcher/Dispatching.antt =====
-- dispatcher.py: the requests that are held, whatever happens to the processors.
use ndif.Prelude.{
  ℕ, ◌≡◌, refl, ap, sym, ◌∙◌, Bool, true, false, not, ◌&&◌, ◌||◌, Option, some, List, [], ◌∷◌, ◌==◌,
  if◌then◌else◌, Bool-cases, Option-cases, inl, inr, arith,
}
use ndif.Prelude.Dict.{Dict, lookup, set, lookup-set}
use ndif.Queue.RequestQueue.{Request}
use ndif.Queue.Processor.{Processor, ReplicaId, enqueue, begin_purge, is_empty}
use ndif.Queue.Processor.Events.{Event, reconciled, step, reconcile}
use ndif.Queue.Processor.Held.{held, Bounded, Safe, Safe-refl, Safe-trans}
use ndif.Queue.Processor.Handlers.{enqueue-Safe, enqueue-held}
use ndif.Queue.Processor.Purging.{begin_purge-Safe, SafeBut, Safe-SafeBut}
use ndif.Queue.Processor.Steps.{handled-Safe, step-SafeBut, lost_in, kept_on}
use ndif.Queue.Dispatcher.{
  ModelKey, or_new, processor_of, dispatch, any_connection, Dispatcher, new_dispatcher, purge_one,
  purge_next_of, purge_next, processor_step, next_purged, handle_errors, first_change, pop_queued,
  cancel_executing, kill, handle_reconcile, Happening, dispatched_request, errors_handled, killed,
  reconcile_asked, processor_event, happen, happen_all,
}
use ndif.Queue.Dispatcher.Killing.{pop_queued-Safe, cancel_executing-Safe}

-- No processor loses a request.
abbrev Kept : Dict Processor → Dict Processor → Type 0
Kept d d' = (k : ModelKey) → Safe (processor_of k d) (processor_of k d')

Kept-refl : (d : Dict Processor) → Kept d d
Kept-refl d k = Safe-refl (processor_of k d)

Kept-trans : (d e f : Dict Processor) → Kept d e → Kept e f → Kept d f
Kept-trans d e f one two k =
    Safe-trans (processor_of k d) (processor_of k e) (processor_of k f) (one k) (two k)

or_new-if :
    (c : Bool) (p : Processor) (found : Option Processor)
    → or_new (if c then some p else found) ≡ (if c then p else or_new found)
or_new-if true p found = refl
or_new-if false p found = refl

processor_of-set :
    (k j : ModelKey) (p : Processor) (d : Dict Processor)
    → processor_of j (set k p d) ≡ (if k == j then p else processor_of j d)
unfolding processor_of
processor_of-set k j p d = ap or_new (lookup-set k j p d) ∙ or_new-if (k == j) p (lookup j d)

set-Kept :
    (k : ModelKey) (p : Processor) (d : Dict Processor)
    → Safe (processor_of k d) p
    → Kept d (set k p d)
set-Kept k p d safe j = elim (Bool-cases (k == j)) [
  | inl e ↦ let same : k ≡ j = ground arith in rw (processor_of-set k j p d, e) (rw same at safe)
  | inr e ↦ rw (processor_of-set k j p d, e) (Safe-refl (processor_of j d))
]

processor_of-cons :
    (k j : ModelKey) (p : Processor) (d : Dict Processor)
    → processor_of j ((k, p) ∷ d) ≡ (if k == j then p else processor_of j d)
unfolding processor_of lookup
processor_of-cons k j p d = or_new-if (k == j) p (lookup j d)

cons-Kept :
    (k : ModelKey) (p p' : Processor) (d d' : Dict Processor)
    → Safe p p'
    → Kept d d'
    → Kept ((k, p) ∷ d) ((k, p') ∷ d')
cons-Kept k p p' d d' one rest j = elim (Bool-cases (k == j)) [
  | inl e ↦ rw (processor_of-cons k j p d, processor_of-cons k j p' d', e) one
  | inr e ↦ rw (processor_of-cons k j p d, processor_of-cons k j p' d', e) (rest j)
]

first_change-Kept :
    (f : Processor → Option Processor)
    → ((p p' : Processor) → f p ≡ some p' → Safe p p')
    → (d d' : Dict Processor) → first_change f d ≡ some d'
    → Kept d d'
unfolding first_change
first_change-Kept f safe [] d' h = absurd (ground arith)
first_change-Kept f safe ((k, p) ∷ d) d' h = elim (Option-cases (f p)) [
  | inr (p', e) ↦
      let here : (k, p') ∷ d ≡ d' = ground arith in
      rw (← here) (cons-Kept k p p' d d (safe p p' e) (Kept-refl d))
  | inl e ↦ elim (Option-cases (first_change f d)) [
    | inl g ↦ absurd (ground arith)
    | inr (rest, g) ↦
        let here : (k, p) ∷ rest ≡ d' = ground arith in
        rw (← here) (cons-Kept k p p d rest (Safe-refl p) (first_change-Kept f safe d rest g))
  ]
]

kill-Kept : (id : ℕ) (d : Dict Processor) → Kept d (kill id d).1
unfolding kill
kill-Kept id d = elim (Option-cases (first_change (pop_queued id) d)) [
  | inr (d', e) ↦ rw (kill, e) (first_change-Kept (pop_queued id) (pop_queued-Safe id) d d' e)
  | inl e ↦ elim (Option-cases (first_change (cancel_executing id) d)) [
    | inr (d', g) ↦
        rw (kill, e, g) (first_change-Kept (cancel_executing id) (cancel_executing-Safe id) d d' g)
    | inl g ↦ rw (kill, e, g) (Kept-refl d)
  ]
]

found-Safe :
    (k : ModelKey) (p p' : Processor) (d : Dict Processor)
    → lookup k d ≡ some p
    → Safe p p'
    → Safe (processor_of k d) p'
unfolding processor_of
found-Safe k p p' d e safe = rw (processor_of, e) safe

dispatch-Kept :
    (now : ℕ) (k : ModelKey) (request : Request) (d : Dict Processor)
    → Kept d (dispatch now k request d)
unfolding dispatch
dispatch-Kept now k request d =
    set-Kept k (enqueue now request false (processor_of k d)) d
      (enqueue-Safe now request false (processor_of k d))

reconcile-Safe : (current : Option (List ReplicaId)) (p : Processor) → Safe p (reconcile current p)
unfolding step
reconcile-Safe current p = handled-Safe (reconciled current) p refl

handle_reconcile-Kept :
    (k : ModelKey) (current : Option (List ReplicaId)) (d : Dict Processor)
    → Kept d (handle_reconcile k current d)
unfolding handle_reconcile
handle_reconcile-Kept k current d = elim (Option-cases (lookup k d)) [
  | inl e ↦ rw (handle_reconcile, e) (Kept-refl d)
  | inr (p, e) ↦
      rw (handle_reconcile, e)
        (set-Kept k (reconcile current p) d
          (found-Safe k p (reconcile current p) d e (reconcile-Safe current p)))
]

purge_one-Kept : (k : ModelKey) (d : Dict Processor) → Kept d (purge_one k d)
unfolding purge_one
purge_one-Kept k d = elim (Option-cases (lookup k d)) [
  | inl e ↦ rw (purge_one, e) (Kept-refl d)
  | inr (p, e) ↦
      rw (purge_one, e)
        (set-Kept k (begin_purge false p) d
          (found-Safe k p (begin_purge false p) d e (begin_purge-Safe false p)))
]

purge_next-Kept : (ks : List ModelKey) (d : Dict Processor) → Kept d (purge_next_of ks d).processors
purge_next-Kept [] d = Kept-refl d
purge_next-Kept (k ∷ ks) d = purge_one-Kept k d

-- An event of the model's processor is the step of a purge that clears its queue while the request
-- waits in it unanswered.
abbrev pub lost_when : ℕ → ModelKey → Happening → Dispatcher → Bool
lost_when id k (processor_event j event) d =
    j == k && lost_in id event (processor_of k d.processors)
lost_when id k _ d = false

unfoldable pub lost_over : ℕ → ModelKey → List Happening → Dispatcher → Bool
lost_over id k [] d = false
lost_over id k (h ∷ hs) d = lost_when id k h d || lost_over id k hs (happen h d)

-- No processor loses a request but in the step of a purge.
abbrev KeptBut : (ModelKey → ℕ → Bool) → Dict Processor → Dict Processor → Type 0
KeptBut lost d d' = (k : ModelKey) → SafeBut (lost k) (processor_of k d) (processor_of k d')

Kept-KeptBut : (d d' : Dict Processor) → Kept d d' → KeptBut (λ k id. false) d d'
Kept-KeptBut d d' kept k =
    Safe-SafeBut (λ id. false) (processor_of k d) (processor_of k d') (kept k)

equal_keys : (j k : ModelKey) → (j == k) ≡ true → j ≡ k
equal_keys j k h = ground arith

processor_step-KeptBut :
    (j : ModelKey) (event : Event) (d : Dict Processor)
    → KeptBut (λ k id. j == k && lost_in id event (processor_of k d)) d (processor_step j event d)
unfolding processor_step processor_of
processor_step-KeptBut j event d k = elim (Option-cases (lookup j d)) [
  | inl e ↦
      rw (processor_step, e)
        (Safe-SafeBut (λ id. j == k && lost_in id event (processor_of k d)) (processor_of k d)
          (processor_of k d) (Safe-refl (processor_of k d)))
  | inr (p, e) ↦ elim (Bool-cases (j == k)) [
    | inr other ↦
        rw (processor_step, e, processor_of-set j k (step event p) d, other)
          (Safe-SafeBut (λ id. false) (processor_of k d) (processor_of k d)
            (Safe-refl (processor_of k d)))
    | inl same ↦
        let here : processor_of k d ≡ p =
          ap (λ i. processor_of i d) (sym (equal_keys j k same)) ∙ ap or_new e in
        rw (processor_step, e, processor_of-set j k (step event p) d, same, here)
          (step-SafeBut event p)
  ]
]

same_processors :
    (errors : List Bool) (connected : Bool) (d : Dispatcher)
    → Kept d.processors (handle_errors errors connected d).processors
unfolding handle_errors
same_processors errors connected d = elim (Bool-cases (is_empty errors)) [
  | inl e ↦ rw e (Kept-refl d.processors)
  | inr e ↦ elim (Bool-cases (any_connection errors || not connected)) [
    | inl g ↦ rw (e, g) (Kept-refl d.processors)
    | inr g ↦ rw (e, g) (Kept-refl d.processors)
  ]
]

happen-KeptBut :
    (h : Happening) (d : Dispatcher)
    → KeptBut (λ k id. lost_when id k h d) d.processors (happen h d).processors
unfolding happen handle_errors purge_next
happen-KeptBut (dispatched_request now k request) d =
    Kept-KeptBut d.processors (dispatch now k request d.processors)
      (dispatch-Kept now k request d.processors)
happen-KeptBut (errors_handled errors connected) d =
    Kept-KeptBut d.processors (handle_errors errors connected d).processors
      (same_processors errors connected d)
happen-KeptBut next_purged d =
    Kept-KeptBut d.processors (purge_next d).processors (purge_next-Kept d.to_purge d.processors)
happen-KeptBut (killed id) d =
    Kept-KeptBut d.processors (kill id d.processors).1 (kill-Kept id d.processors)
happen-KeptBut (reconcile_asked k current) d =
    Kept-KeptBut d.processors (handle_reconcile k current d.processors)
      (handle_reconcile-Kept k current d.processors)
happen-KeptBut (processor_event k event) d = processor_step-KeptBut k event d.processors

happen_all-KeptBut :
    (hs : List Happening) (d : Dispatcher)
    → KeptBut (λ k id. lost_over id k hs d) d.processors (happen_all hs d).processors
unfolding happen_all lost_over
happen_all-KeptBut [] d = Kept-KeptBut d.processors d.processors (Kept-refl d.processors)
happen_all-KeptBut (h ∷ hs) d = λ k b.
    let (b1, one) = happen-KeptBut h d k b in
    let (b2, others) = happen_all-KeptBut hs (happen h d) k b1 in
    (
      b2,
      λ id there.
          kept_on (held id (processor_of k (happen h d).processors)) (lost_when id k h d)
            (lost_over id k hs (happen h d))
            (held id (processor_of k (happen_all hs (happen h d)).processors)) (one id there)
            (others id),
    )

dispatch-held :
    (now : ℕ) (k : ModelKey) (request : Request) (d : Dict Processor)
    → Bounded (processor_of k d)
    → held request.id (processor_of k (dispatch now k request d)) ≡ true
unfolding dispatch
dispatch-held now k request d bounded =
    let p' = enqueue now request false (processor_of k d) in
    let same : (k == k) ≡ true = ground arith in
    rw (processor_of-set k k p' d, same) (enqueue-held now request false (processor_of k d) bounded)

no_objects : (k : ModelKey) → Bounded (processor_of k [])
unfolding processor_of lookup
no_objects k = tt

-- Whatever happened to a new dispatcher before a request was dispatched, and whatever happens after
-- (kills, lost connections, reconciliations and the events of every processor), its model's processor
-- has the request in the queue or in a worker's hand, or it was answered with a final status, unless
-- after it was dispatched some purge of that processor came to clear the queue while the request
-- waited in it unanswered.
pub happen_all-held :
    (before after : List Happening) (now : ℕ) (k : ModelKey) (request : Request)
    → let d = happen (dispatched_request now k request) (happen_all before new_dispatcher) in
      (held request.id (processor_of k (happen_all after d).processors)
        || lost_over request.id k after d)
      ≡ true
unfolding happen
happen_all-held before after now k request =
    let start = happen_all before new_dispatcher in
    let d = happen (dispatched_request now k request) start in
    let bounded = (happen_all-KeptBut before new_dispatcher k (no_objects k)).0 in
    let there = (dispatch-Kept now k request start.processors k bounded).0 in
    (happen_all-KeptBut after d k there).1 request.id
      (dispatch-held now k request start.processors bounded)
