-- ===== src/Reconcile/Asking.antt =====
-- reconcile.py: every key that is due is asked for.
use ndif.Prelude.{
  ◌||◌, ◌++◌, among, ℕ, ◌≡◌, refl, ap, ◌∙◌, Bool, true, false, not, ◌&&◌, List, [], ◌∷◌, All, map,
  length, ◌==◌, Bool-cases, Option-cases, inl, inr, arith,
}
use ndif.Prelude.Dict.{Dict}
use ndif.Evaluator.{ModelKey}
use ndif.Schedule.{ScheduleEvent}
use ndif.Reconcile.{
  model_key, new_keys, keys_of, to_evict, is_due, to_deploy, event_of, Client, Call, evict_call,
  deploy_call, is_unknown, deploy_step, act, decide,
}
use ndif.Reconcile.Passes.{IsExact, evict-IsExact, deploy-IsExact, calls-IsExact}

-- A call of the list is to evict, or to deploy, the key.
unfoldable pub evicts : ModelKey → List Call → Bool
evicts k [] = false
evicts k (evict_call keys ∷ calls) = among k keys || evicts k calls
evicts k (deploy_call events ∷ calls) = evicts k calls

unfoldable pub deploys_key : ModelKey → List Call → Bool
deploys_key k [] = false
deploys_key k (evict_call keys ∷ calls) = deploys_key k calls
deploys_key k (deploy_call events ∷ calls) = among k (map model_key events) || deploys_key k calls

-- The controller does not take the evict of these keys.
abbrev pub refuses : Client → List ModelKey → Bool
refuses client [] = false
refuses client (k ∷ keys) = not (client.takes_evict (k ∷ keys))

evicts-append :
    (k : ModelKey) (calls : List Call) (events : List ScheduleEvent)
    → evicts k (calls ++ deploy_call events ∷ []) ≡ evicts k calls
unfolding evicts
evicts-append k [] events = refl
evicts-append k (evict_call keys ∷ calls) events =
    ap (λ b. among k keys || b) (evicts-append k calls events)
evicts-append k (deploy_call done ∷ calls) events = evicts-append k calls events

deploys_key-append :
    (k : ModelKey) (calls : List Call) (events : List ScheduleEvent)
    → deploys_key k (calls ++ deploy_call events ∷ [])
      ≡ (deploys_key k calls || among k (map model_key events))
unfolding deploys_key
deploys_key-append k [] events = ground arith
deploys_key-append k (evict_call keys ∷ calls) events = deploys_key-append k calls events
deploys_key-append k (deploy_call done ∷ calls) events =
    ground (arith, deploys_key-append k calls events)

or_false : (b : Bool) → (b || false) ≡ b
or_false true = refl
or_false false = refl

module _ (now : ℕ) (client : Client) (active : List ScheduleEvent) (prev new : List ModelKey)
    (events : List ScheduleEvent) (k : ModelKey) where
  deploy_step-evicts :
      (calls : List Call) (due : Dict ScheduleEvent)
      → evicts k (deploy_step now client calls due active new events).calls ≡ evicts k calls
  unfolding deploy_step
  deploy_step-evicts calls [] = refl
  deploy_step-evicts calls (entry ∷ due) =
      elim (Option-cases (client.deploys (map event_of (entry ∷ due)))) [
        | inl e ↦ rw (deploy_step, e) (evicts-append k calls (map event_of (entry ∷ due)))
        | inr (results, e) ↦
            rw (deploy_step, e) (evicts-append k calls (map event_of (entry ∷ due)))
      ]

  deploy_step-deploys :
      (calls : List Call) (due : Dict ScheduleEvent)
      → deploys_key k (deploy_step now client calls due active new events).calls
        ≡ (deploys_key k calls || among k (map model_key (map event_of due)))
  unfolding deploy_step among
  deploy_step-deploys calls [] = ground arith
  deploy_step-deploys calls (entry ∷ due) =
      elim (Option-cases (client.deploys (map event_of (entry ∷ due)))) [
        | inl e ↦ rw (deploy_step, e) (deploys_key-append k calls (map event_of (entry ∷ due)))
        | inr (results, e) ↦
            rw (deploy_step, e) (deploys_key-append k calls (map event_of (entry ∷ due)))
      ]

  act-evicts :
      (evicted : List ModelKey) (due : Dict ScheduleEvent)
      → evicts k (act now client evicted due active prev new events).calls ≡ among k evicted
  unfolding act evicts among
  act-evicts [] due = deploy_step-evicts [] due
  act-evicts (j ∷ evicted) due = elim (Bool-cases (client.takes_evict (j ∷ evicted))) [
    | inl e ↦
        rw e (
          deploy_step-evicts (evict_call (j ∷ evicted) ∷ []) due ∙ or_false (among k (j ∷ evicted)))
    | inr e ↦ rw e (or_false (among k (j ∷ evicted)))
  ]

  act-deploys :
      (evicted : List ModelKey) (due : Dict ScheduleEvent)
      → deploys_key k (act now client evicted due active prev new events).calls
        ≡ (not (refuses client evicted) && among k (map model_key (map event_of due)))
  unfolding act deploys_key
  act-deploys [] due = deploy_step-deploys [] due
  act-deploys (j ∷ evicted) due = elim (Bool-cases (client.takes_evict (j ∷ evicted))) [
    | inl e ↦ rw e (deploy_step-deploys (evict_call (j ∷ evicted) ∷ []) due)
    | inr e ↦ rw e refl
  ]

-- What a pass asks, key by key.
abbrev pub Asks : Client → Bool → List ModelKey → List ScheduleEvent → ModelKey → List Call → Type 0
Asks client force prev active k calls =
    let runs = not (is_unknown client.hot_keys && not force) in
    let refused = refuses client (to_evict prev (new_keys active)) in
    (evicts k calls ≡ (runs && (among k prev && not (among k (map model_key active)))))
    × (deploys_key k calls ≡ (
        runs
        && (not refused
            && (among k (map model_key active) && is_due force prev client.hot_keys k))))

no_length : {A : Type 0} (xs : List A) → length xs ≡ 0 → xs ≡ []
no_length [] h = refl
no_length (x ∷ xs) h = absurd (omega arith)

nothing_asked :
    (evicted : List ModelKey) (due : Dict ScheduleEvent) (client : Client) (k : ModelKey)
    (gone wanted : Bool)
    → evicted ≡ []
    → due ≡ []
    → among k evicted ≡ gone
    → among k (map model_key (map event_of due)) ≡ wanted
    → (false ≡ gone) × (false ≡ (not (refuses client evicted) && wanted))
unfolding among
nothing_asked evicted due client k gone wanted e f g h =
    let none_gone : false ≡ gone = rw e at g in
    let none_due : false ≡ wanted = rw f at h in (none_gone, rw (← none_due) (ground arith))

decide-Asks :
    (now : ℕ) (client : Client) (force : Bool) (prev : List ModelKey)
    (active events : List ScheduleEvent) (k : ModelKey)
    → Asks client force prev active k (decide now client force prev active events).calls
unfolding decide evicts deploys_key among
decide-Asks now client force prev active events k =
    let new = new_keys active in
    let due = to_deploy force prev client.hot_keys new in
    let gone = evict-IsExact force prev client.hot_keys active k in
    let wanted = deploy-IsExact force prev client.hot_keys active k in
    elim (Bool-cases (is_unknown client.hot_keys && not force)) [
      | inl e ↦ rw e (refl, refl)
      | inr e ↦ elim (Bool-cases (length (to_evict prev new) == 0 && length due == 0)) [
        | inl f ↦
            let no_evict : to_evict prev new ≡ [] = no_length (to_evict prev new) (ground arith) in
            let no_due : due ≡ [] = no_length due (ground arith) in
            rw (e, f)
              (nothing_asked (to_evict prev new) due client k
                (among k prev && not (among k (map model_key active)))
                (among k (map model_key active) && is_due force prev client.hot_keys k) no_evict
                no_due gone wanted)
        | inr f ↦
            rw (e, f)
              (
                act-evicts now client active prev (keys_of new) events k (to_evict prev new) due
                    ∙ gone,
                act-deploys now client active prev (keys_of new) events k (to_evict prev new) due
                    ∙ ap (λ b. not (refuses client (to_evict prev new)) && b) wanted,
              )
      ]
    ]

-- A pass asks the controller for neither more nor less than what is due. Unless the HOT keys are
-- unknown and it is not forced, when it asks nothing, it evicts exactly the keys that were pinned and
-- are not scheduled any more, and, unless the controller refused that evict, deploys exactly the
-- active keys that are new or not HOT, or all of them by force; and every single call is for exactly
-- these keys.
pub decide-IsExact :
    (now : ℕ) (client : Client) (force : Bool) (prev : List ModelKey)
    (active events : List ScheduleEvent)
    → ((k : ModelKey)
        → Asks client force prev active k (decide now client force prev active events).calls)
      × All
          (IsExact force prev client.hot_keys active)
          (decide now client force prev active events).calls
decide-IsExact now client force prev active events = (
  decide-Asks now client force prev active events,
  calls-IsExact now client force prev active events,
)
