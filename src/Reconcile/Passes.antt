-- ===== src/Reconcile/Passes.antt =====
-- reconcile.py: what a pass asks of the controller, and what it leaves for the next one.
use ndif.Prelude.{
  among, ℕ, ◌≡◌, refl, ap, ◌∙◌, Bool, not, ◌&&◌, Option, List, [], ◌∷◌, All, All-append, map,
  keep-All, length, ◌==◌, Bool-cases, Option-cases, inl, inr,
}
use ndif.Prelude.Dict.{Dict, set, set-All}
use ndif.Evaluator.{ModelKey}
use ndif.Schedule.{ScheduleEvent}
use ndif.Reconcile.{
  model_key, new_keys_from, new_keys, keys_of, to_evict, is_due, to_deploy, event_of, Client, Call,
  evict_call, deploy_call, is_unknown, deploy_step, act, decide,
}
use ndif.Reconcile.Plan.{among-to_evict, among-to_deploy, among-new_keys}

-- An entry stands under the key of its event.
abbrev OwnKey : ModelKey × ScheduleEvent → Type 0
OwnKey entry = model_key entry.1 ≡ entry.0

new_keys_from-OwnKey :
    (new : Dict ScheduleEvent) (active : List ScheduleEvent)
    → All OwnKey new
    → All OwnKey (new_keys_from new active)
unfolding new_keys_from
new_keys_from-OwnKey new [] own = own
new_keys_from-OwnKey new (event ∷ active) own =
    new_keys_from-OwnKey (set (model_key event) event new) active
      (set-All OwnKey (model_key event) event new refl own)

named_all :
    (due : Dict ScheduleEvent) → All OwnKey due → map model_key (map event_of due) ≡ keys_of due
named_all [] own = refl
named_all ((k, event) ∷ due) own = λ i. own.0 i ∷ named_all due own.1 i

module _ (force : Bool) (prev : List ModelKey) (hot : Option (List ModelKey))
    (active : List ScheduleEvent) where
  -- A call is for exactly the keys that are to go or to come.
  abbrev pub IsExact : Call → Type 0
  IsExact (evict_call keys) =
      (k : ModelKey) → among k keys ≡ (among k prev && not (among k (map model_key active)))
  IsExact (deploy_call events) =
      (k : ModelKey)
      → among k (map model_key events) ≡ (among k (map model_key active) && is_due force prev hot k)

  pub evict-IsExact : IsExact (evict_call (to_evict prev (new_keys active)))
  evict-IsExact k =
      among-to_evict k prev (new_keys active)
      ∙ ap (λ b. among k prev && not b) (among-new_keys k active)

  pub deploy-IsExact :
      IsExact (deploy_call (map event_of (to_deploy force prev hot (new_keys active))))
  unfolding to_deploy
  deploy-IsExact k =
      ap (among k) (
        named_all (to_deploy force prev hot (new_keys active)) (
          keep-All OwnKey (λ entry. is_due force prev hot entry.0) (new_keys active)
            (new_keys_from-OwnKey [] active tt)))
      ∙ (among-to_deploy k force prev hot (new_keys active)
          ∙ ap (λ b. b && is_due force prev hot k) (among-new_keys k active))

  module _ (now : ℕ) (client : Client) (new : List ModelKey) (events : List ScheduleEvent) where
    deploy_step-IsExact :
        (calls : List Call) (due : Dict ScheduleEvent)
        → All IsExact calls
        → IsExact (deploy_call (map event_of due))
        → All IsExact (deploy_step now client calls due active new events).calls
    unfolding deploy_step
    deploy_step-IsExact calls [] exact due_exact = exact
    deploy_step-IsExact calls (entry ∷ due) exact due_exact =
        elim (Option-cases (client.deploys (map event_of (entry ∷ due)))) [
          | inl e ↦
              rw (deploy_step, e)
                (All-append IsExact calls (deploy_call (map event_of (entry ∷ due)) ∷ []) exact
                  (due_exact, tt))
          | inr (results, e) ↦
              rw (deploy_step, e)
                (All-append IsExact calls (deploy_call (map event_of (entry ∷ due)) ∷ []) exact
                  (due_exact, tt))
        ]

    act-IsExact :
        (evicted : List ModelKey) (due : Dict ScheduleEvent)
        → IsExact (evict_call evicted)
        → IsExact (deploy_call (map event_of due))
        → All IsExact (act now client evicted due active prev new events).calls
    unfolding act
    act-IsExact [] due gone due_exact = deploy_step-IsExact [] due tt due_exact
    act-IsExact (k ∷ evicted) due gone due_exact =
        elim (Bool-cases (client.takes_evict (k ∷ evicted))) [
          | inl e ↦
              rw e (deploy_step-IsExact (evict_call (k ∷ evicted) ∷ []) due (gone, tt) due_exact)
          | inr e ↦ rw e (gone, tt)
        ]

pub calls-IsExact :
    (now : ℕ) (client : Client) (force : Bool) (prev : List ModelKey)
    (active events : List ScheduleEvent)
    → All
        (IsExact force prev client.hot_keys active)
        (decide now client force prev active events).calls
unfolding decide
calls-IsExact now client force prev active events =
    elim (Bool-cases (is_unknown client.hot_keys && not force)) [
      | inl e ↦ rw e tt
      | inr e ↦
          elim (Bool-cases (
            length (to_evict prev (new_keys active)) == 0
            && length (to_deploy force prev client.hot_keys (new_keys active)) == 0)) [
              | inl f ↦ rw (e, f) tt
              | inr f ↦
                  rw (e, f)
                    (act-IsExact force prev client.hot_keys active now client
                      (keys_of (new_keys active)) events (to_evict prev (new_keys active))
                      (to_deploy force prev client.hot_keys (new_keys active))
                      (evict-IsExact force prev client.hot_keys active)
                      (deploy-IsExact force prev client.hot_keys active))
            ]
    ]
