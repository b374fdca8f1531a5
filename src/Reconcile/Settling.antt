-- ===== src/Reconcile/Settling.antt =====
-- reconcile.py: the keys that a pass leaves, and the pass after it.
use ndif.Prelude.{
  among, ℕ, ◌≡◌, refl, ap, sym, ◌∙◌, Bool, true, false, not, ◌&&◌, some, List, [], ◌∷◌, map, length,
  ◌==◌, Bool-cases, Option-cases, inl, inr, arith,
}
use ndif.Prelude.Dict.{Dict}
use ndif.Evaluator.{ModelKey}
use ndif.Schedule.{ScheduleEvent}
use ndif.Reconcile.{
  model_key, new_keys, keys_of, to_evict, is_due, to_deploy, event_of, Client, Call, evict_call,
  Ending, skipped, in_sync, evict_failed, deploy_failed, reconciled, Pass, is_unknown, deploy_step,
  act, decide,
}
use ndif.Reconcile.Plan.{no_members, among-to_evict, among-to_deploy, among-new_keys}

-- The pass did what was due.
abbrev pub IsDone : Ending → Type 0
IsDone skipped = ⊥
IsDone in_sync = Unit {0}
IsDone evict_failed = ⊥
IsDone deploy_failed = ⊥
IsDone reconciled = Unit {0}

module _ (now : ℕ) (client : Client) (active : List ScheduleEvent) (prev new : List ModelKey)
    (events : List ScheduleEvent) where
  deploy_step-keys :
      (calls : List Call) (due : Dict ScheduleEvent)
      → (deploy_step now client calls due active new events).prev_model_keys ≡ new
  unfolding deploy_step
  deploy_step-keys calls [] = refl
  deploy_step-keys calls (entry ∷ due) =
      elim (Option-cases (client.deploys (map event_of (entry ∷ due)))) [
        | inl e ↦ rw (deploy_step, e) refl
        | inr (results, e) ↦ rw (deploy_step, e) refl
      ]

  act-keys :
      (evicted : List ModelKey) (due : Dict ScheduleEvent)
      → IsDone (act now client evicted due active prev new events).ending
      → (act now client evicted due active prev new events).prev_model_keys ≡ new
  unfolding act
  act-keys [] due done = deploy_step-keys [] due
  act-keys (k ∷ evicted) due done = elim (Bool-cases (client.takes_evict (k ∷ evicted))) [
    | inl e ↦ rw e (deploy_step-keys (evict_call (k ∷ evicted) ∷ []) due)
    | inr e ↦ absurd (rw e at done)
  ]

decide-keys :
    (now : ℕ) (client : Client) (force : Bool) (prev : List ModelKey)
    (active events : List ScheduleEvent)
    → IsDone (decide now client force prev active events).ending
    → (decide now client force prev active events).prev_model_keys ≡ keys_of (new_keys active)
unfolding decide
decide-keys now client force prev active events done =
    elim (Bool-cases (is_unknown client.hot_keys && not force)) [
      | inl e ↦ absurd (rw e at done)
      | inr e ↦
          elim (Bool-cases (
            length (to_evict prev (new_keys active)) == 0
            && length (to_deploy force prev client.hot_keys (new_keys active)) == 0)) [
              | inl f ↦ rw (e, f) refl
              | inr f ↦
                  rw (e, f)
                    (act-keys now client active prev (keys_of (new_keys active)) events
                      (to_evict prev (new_keys active))
                      (to_deploy force prev client.hot_keys (new_keys active)) (rw (e, f) at done))
            ]
    ]

same_elsewhere : (b : Bool) → b && not b ≡ false
same_elsewhere true = refl
same_elsewhere false = refl

-- Nothing to evict after a pass for the same keys.
settled_evict :
    (prev : List ModelKey) (new : Dict ScheduleEvent) → prev ≡ keys_of new → to_evict prev new ≡ []
settled_evict prev new e = no_members (to_evict prev new) (λ k.
    among-to_evict k prev new
    ∙ (ap (λ keys. among k keys && not (among k (keys_of new))) e
        ∙ same_elsewhere (among k (keys_of new))))

-- A key that was active and is HOT is not due.
pub settled_due :
    (prev hot : List ModelKey) (k : ModelKey) (here : Bool)
    → (here ≡ true → (among k prev ≡ true) × (among k hot ≡ true))
    → here && is_due false prev (some hot) k ≡ false
unfolding is_due
settled_due prev hot k false h = refl
settled_due prev hot k true h = let (a, b) = h refl in ground arith

no_keys : (new : Dict ScheduleEvent) → keys_of new ≡ [] → new ≡ []
no_keys [] e = refl
no_keys (entry ∷ new) e = absurd (ground arith)

settled_deploy :
    (prev hot : List ModelKey) (new : Dict ScheduleEvent)
    → prev ≡ keys_of new
    → ((k : ModelKey) → among k (keys_of new) ≡ true → among k hot ≡ true)
    → to_deploy false prev (some hot) new ≡ []
settled_deploy prev hot new e all_hot = no_keys (to_deploy false prev (some hot) new) (
    no_members (keys_of (to_deploy false prev (some hot) new)) (λ k.
      among-to_deploy k false prev (some hot) new
      ∙ settled_due prev hot k (among k (keys_of new))
          (λ here. (ap (among k) e ∙ here, all_hot k here))))

-- What a pass that is in sync leaves.
abbrev pub in_sync_pass : List ModelKey → List ScheduleEvent → Pass
in_sync_pass keys events = record {
  ending = in_sync;
  calls = [];
  prev_model_keys = keys;
  events = events;
}

-- A pass that did what was due is the last one: when the same keys are active at the next pass and the
-- controller reports them HOT by then, that pass asks nothing of the controller and changes neither
-- the events nor the keys.
pub decide_settles :
    (now now' : ℕ) (client client' : Client) (force : Bool) (prev hot : List ModelKey)
    (active active' events events' : List ScheduleEvent)
    → IsDone (decide now client force prev active events).ending
    → keys_of (new_keys active') ≡ keys_of (new_keys active)
    → client'.hot_keys ≡ some hot
    → ((k : ModelKey) → among k (map model_key active') ≡ true → among k hot ≡ true)
    → decide now' client' false
        (decide now client force prev active events).prev_model_keys
        active'
        events'
      ≡ in_sync_pass (keys_of (new_keys active')) events'
unfolding decide
decide_settles now now' client client' force prev hot active active' events events' done same known
      all_hot =
    let kept = decide-keys now client force prev active events done ∙ sym same in
    let gone =
      settled_evict (decide now client force prev active events).prev_model_keys (new_keys active')
        kept in
    let none_due =
      settled_deploy (decide now client force prev active events).prev_model_keys hot
        (new_keys active') kept (λ k here. all_hot k (sym (among-new_keys k active') ∙ here)) in
    rw (known, gone, none_due) refl
