-- ===== src/Reconcile/Plan.antt =====
-- reconcile.py: which keys a pass evicts and deploys.
use ndif.Prelude.{
  among, among-keep, ◌≡◌, refl, ap, sym, ◌∙◌, Bool, true, false, not, ◌&&◌, ◌||◌, Option, List, [],
  ◌∷◌, map, keep, ◌==◌, Bool-cases, inl, inr, arith,
}
use ndif.Prelude.Dict.{Dict, set}
use ndif.Prelude.Sort.{sort, insert}
use ndif.Evaluator.{ModelKey}
use ndif.Schedule.{ScheduleEvent}
use ndif.Reconcile.{
  model_key, new_keys_from, new_keys, keys_of, as_set, smaller_key, to_evict, is_due, to_deploy,
}

among-insert :
    (k x : ModelKey) (xs : List ModelKey)
    → among k (insert smaller_key x xs) ≡ (x == k || among k xs)
unfolding among insert
among-insert k x [] = refl
among-insert k x (y ∷ ys) = ground (arith, among-insert k x ys)

among-sort : (k : ModelKey) (xs : List ModelKey) → among k (sort smaller_key xs) ≡ among k xs
unfolding among sort
among-sort k [] = refl
among-sort k (x ∷ xs) =
    among-insert k x (sort smaller_key xs) ∙ ap (λ b. x == k || b) (among-sort k xs)

among-as_set : (k : ModelKey) (xs : List ModelKey) → among k (as_set xs) ≡ among k xs
unfolding among as_set
among-as_set k [] = refl
among-as_set k (x ∷ xs) = elim (Bool-cases (among x (as_set xs))) [
  | inr e ↦ rw (e, among-as_set k xs) refl
  | inl e ↦ elim (Bool-cases (x == k)) [
    | inl f ↦
        let same : x ≡ k = ground arith in
        let here : among k xs ≡ true = sym (among-as_set k xs) ∙ (rw same at e) in
        rw (e, f, among-as_set k xs, here) refl
    | inr f ↦ rw (e, f, among-as_set k xs) refl
  ]
]

-- What is among no list is in no list.
pub no_members : (xs : List ModelKey) → ((k : ModelKey) → among k xs ≡ false) → xs ≡ []
unfolding among
no_members [] h = refl
no_members (x ∷ xs) h = let none_here = h x in absurd (ground arith)

-- The keys that were pinned and are no longer scheduled.
pub among-to_evict :
    (k : ModelKey) (prev : List ModelKey) (new : Dict ScheduleEvent)
    → among k (to_evict prev new) ≡ (among k prev && not (among k (keys_of new)))
unfolding to_evict
among-to_evict k prev new =
    among-sort k (keep (λ j. not (among j (keys_of new))) (as_set prev))
    ∙ (among-keep k (λ j. not (among j (keys_of new))) (as_set prev)
        ∙ ap (λ b. b && not (among k (keys_of new))) (among-as_set k prev))

keys_of-keep :
    (p : ModelKey → Bool) (new : Dict ScheduleEvent)
    → keys_of (keep (λ entry. p entry.0) new) ≡ keep p (keys_of new)
unfolding keep
keys_of-keep p [] = refl
keys_of-keep p ((k, event) ∷ new) = elim (Bool-cases (p k)) [
  | inl e ↦ rw e (ap (λ t. k ∷ t) (keys_of-keep p new))
  | inr e ↦ rw e (keys_of-keep p new)
]

pub among-to_deploy :
    (k : ModelKey) (force : Bool) (prev : List ModelKey) (hot : Option (List ModelKey))
    (new : Dict ScheduleEvent)
    → among k (keys_of (to_deploy force prev hot new))
      ≡ (among k (keys_of new) && is_due force prev hot k)
unfolding to_deploy
among-to_deploy k force prev hot new =
    ap (among k) (keys_of-keep (is_due force prev hot) new)
    ∙ among-keep k (is_due force prev hot) (keys_of new)

among-set :
    (k j : ModelKey) (event : ScheduleEvent) (new : Dict ScheduleEvent)
    → among k (keys_of (set j event new)) ≡ (j == k || among k (keys_of new))
unfolding among set
among-set k j event [] = refl
among-set k j event ((i, e) ∷ new) = ground (arith, among-set k j event new)

among-new_keys_from :
    (k : ModelKey) (new : Dict ScheduleEvent) (active : List ScheduleEvent)
    → among k (keys_of (new_keys_from new active))
      ≡ (among k (keys_of new) || among k (map model_key active))
unfolding among new_keys_from
among-new_keys_from k new [] = ground arith
among-new_keys_from k new (event ∷ active) = ground (
  arith,
  among-new_keys_from k (set (model_key event) event new) active,
  among-set k (model_key event) event new,
)

-- The keys of the active events.
pub among-new_keys :
    (k : ModelKey) (active : List ScheduleEvent)
    → among k (keys_of (new_keys active)) ≡ among k (map model_key active)
unfolding among
among-new_keys k active = among-new_keys_from k [] active
