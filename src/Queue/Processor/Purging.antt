-- ===== src/Queue/Processor/Purging.antt =====
-- services/api/queue/processor.py: `purge`, await by await.
use ndif.Prelude.{
  ℕ, ◌≡◌, refl, Bool, true, false, not, ◌&&◌, ◌||◌, Option, none, some, [], ◌∷◌, Option-cases, inl,
  inr, arith,
}
use ndif.Prelude.Dict.{lookup}
use ndif.Queue.RequestQueue.{Request, clear}
use ndif.Queue.Processor.{
  Processor, ObjectId, Purge, answering, cancelling, error, respond, cancel_current, cancel_object,
  begin_purge, with_purge, continue_purge, step_purge, abandon_purge,
}
use ndif.Queue.Processor.Held.{in_items, settled, held, Bounded, Safe, Safe-refl, respond-Safe}

cancel_current-Safe : (current : Option Request) (p : Processor) → Safe p (cancel_current current p)
cancel_current-Safe none p = Safe-refl p
cancel_current-Safe (some request) p = respond-Safe request.id error p

pub cancel_object-Safe : (o : ObjectId) (p : Processor) → Safe p (cancel_object o p)
unfolding cancel_object
cancel_object-Safe o p = elim (Option-cases (lookup o p.objects)) [
  | inl e ↦ rw (cancel_object, e) (Safe-refl p)
  | inr (r, e) ↦ rw (cancel_object, e) (cancel_current-Safe r.current_request p)
]

pub begin_purge-Safe : (of_start : Bool) (p : Processor) → Safe p (begin_purge of_start p)
unfolding begin_purge
begin_purge-Safe of_start p b = (b, λ id h. h)

pub abandon_purge-Safe : (u : ℕ) (p : Processor) → Safe p (abandon_purge u p)
unfolding abandon_purge
abandon_purge-Safe u p = elim (Option-cases (lookup u p.purges)) [
  | inl e ↦ rw (abandon_purge, e) (Safe-refl p)
  | inr (purge, e) ↦ rw (abandon_purge, e) (λ b. (b, λ id h. h))
]

-- The next thing that the purge does is to clear the queue.
abbrev pub about_to_clear : Option Purge → Bool
about_to_clear (some (answering of_start [])) = true
about_to_clear _ = false

-- The step clears a queue in which the request waits with no answer.
unfoldable pub clears : ℕ → ℕ → Processor → Bool
clears id u p =
    about_to_clear (lookup u p.purges) && (in_items id p.queue.items && not (settled id p.replies))

-- No request is lost from one state to the other, but those that `lost` tells.
abbrev pub SafeBut : (ℕ → Bool) → Processor → Processor → Type 0
SafeBut lost p p' =
    Bounded p → Bounded p' × ((id : ℕ) → held id p ≡ true → (held id p' || lost id) ≡ true)

pub Safe-SafeBut : (lost : ℕ → Bool) (p p' : Processor) → Safe p p' → SafeBut lost p p'
Safe-SafeBut lost p p' safe b =
    let (b', kept) = safe b in (b', λ id h. let there = kept id h in ground arith)

continue_purge-SafeBut :
    (u : ℕ) (purge : Purge) (p : Processor)
    → SafeBut
        (λ id.
          about_to_clear (some purge) && (in_items id p.queue.items && not (settled id p.replies)))
        p
        (continue_purge u purge p)
unfolding continue_purge clear in_items
continue_purge-SafeBut u (answering of_start (r ∷ rs)) p =
    Safe-SafeBut (λ id. false) p (respond r.id error (with_purge u (answering of_start rs) p))
      (respond-Safe r.id error (with_purge u (answering of_start rs) p))
continue_purge-SafeBut u (answering of_start []) p = λ b. (b, λ id h. ground arith)
continue_purge-SafeBut u (cancelling of_start (o ∷ os)) p =
    Safe-SafeBut (λ id. false) p (cancel_object o (with_purge u (cancelling of_start os) p))
      (cancel_object-Safe o (with_purge u (cancelling of_start os) p))
continue_purge-SafeBut u (cancelling of_start []) p = λ b. (b, λ id h. ground arith)

pub step_purge-SafeBut : (u : ℕ) (p : Processor) → SafeBut (λ id. clears id u p) p (step_purge u p)
unfolding step_purge clears
step_purge-SafeBut u p = elim (Option-cases (lookup u p.purges)) [
  | inl e ↦ rw (step_purge, clears, e) (Safe-SafeBut (λ id. false) p p (Safe-refl p))
  | inr (purge, e) ↦ rw (step_purge, clears, e) (continue_purge-SafeBut u purge p)
]

cancel_current-queue :
    (current : Option Request) (p : Processor) → (cancel_current current p).queue ≡ p.queue
cancel_current-queue none p = refl
cancel_current-queue (some request) p = refl

-- A cancel answers, and leaves the queue alone.
pub cancel_object-queue : (o : ObjectId) (p : Processor) → (cancel_object o p).queue ≡ p.queue
unfolding cancel_object
cancel_object-queue o p = elim (Option-cases (lookup o p.objects)) [
  | inl e ↦ rw (cancel_object, e) refl
  | inr (r, e) ↦ rw (cancel_object, e) (cancel_current-queue r.current_request p)
]
