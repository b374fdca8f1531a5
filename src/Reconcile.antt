-- ===== src/Reconcile.antt =====
-- services/dashboard/jobs/reconcile.py: one pass of the job that keeps the controller in line with the
-- schedule. The controller's answers are parameters; a pass is one step.
pub mod Plan
pub mod Passes
pub mod Asking
pub mod Settling
use ndif.Prelude.{
  among, ℕ, Bool, true, false, not, ◌&&◌, ◌||◌, Option, none, some, List, [], ◌∷◌, ◌++◌, map, keep,
  length, ltb, ◌==◌, if◌then◌else◌,
}
use ndif.Prelude.Dict.{Dict, lookup, set}
use ndif.Prelude.Results.{Result, ok, raise, ◌>>=◌}
use ndif.Prelude.Sort.{sort}
use ndif.Evaluator.{ModelKey, value_or}
use ndif.Schedule.{ScheduleEvent, list_events, mark_status, filter_active}

-- The key of a validated event, which has one.
abbrev pub model_key : ScheduleEvent → ModelKey
model_key event = value_or event.payload.model_key 0

-- `{e.model_key: e for e in active}`
unfoldable pub new_keys_from : Dict ScheduleEvent → List ScheduleEvent → Dict ScheduleEvent
new_keys_from keys [] = keys
new_keys_from keys (event ∷ events) = new_keys_from (set (model_key event) event keys) events

abbrev pub new_keys : List ScheduleEvent → Dict ScheduleEvent
new_keys active = new_keys_from [] active

abbrev pub keys_of : Dict ScheduleEvent → List ModelKey
keys_of keys = map (λ entry. entry.0) keys

-- `set(keys)`, in some order.
unfoldable pub as_set : List ModelKey → List ModelKey
as_set [] = []
as_set (k ∷ keys) = let rest = as_set keys in if among k rest then rest else k ∷ rest

abbrev pub smaller_key : ModelKey → ModelKey → Bool
smaller_key a b = ltb a b

-- `sorted(prev_keys - set(new_keys))`
unfoldable pub to_evict : List ModelKey → Dict ScheduleEvent → List ModelKey
to_evict prev new = sort smaller_key (keep (λ k. not (among k (keys_of new))) (as_set prev))

-- What the comprehension asks of an entry; with `force` every entry passes.
unfoldable pub is_due : Bool → List ModelKey → Option (List ModelKey) → ModelKey → Bool
is_due force prev none k = force
is_due force prev (some hot) k = force || (not (among k prev) || not (among k hot))

unfoldable pub to_deploy :
    Bool → List ModelKey → Option (List ModelKey) → Dict ScheduleEvent → Dict ScheduleEvent
to_deploy force prev hot new = keep (λ entry. is_due force prev hot entry.0) new

abbrev pub event_of : ModelKey × ScheduleEvent → ScheduleEvent
event_of entry = entry.1

-- An entry of `deployments` in the answer of a deploy.
pub record DeployStatus : Type 0 where
  pub model_key : ModelKey
  pub status : ℕ
  pub error : Option ℕ

-- What the controller answers: its HOT keys, whether an evict is taken, and what a deploy gives;
-- `none` and `false` where the call raises.
pub record Client : Type 0 where
  pub hot_keys : Option (List ModelKey)
  pub takes_evict : List ModelKey → Bool
  pub deploys : List ScheduleEvent → Option (List DeployStatus)

pub data Call : Type 0 where
  evict_call : List ModelKey → Call
  deploy_call : List ScheduleEvent → Call

-- How a pass ends.
pub data Ending : Type 0 where
  skipped in_sync evict_failed deploy_failed reconciled : Ending

pub record Pass : Type 0 where
  pub ending : Ending
  pub calls : List Call
  pub prev_model_keys : List ModelKey
  pub events : List ScheduleEvent

abbrev pub is_unknown : Option (List ModelKey) → Bool
is_unknown none = true
is_unknown (some hot) = false

-- `by_key.get(model_key)`: of two results for one key the later one counts.
unfoldable pub latest_result : ModelKey → List DeployStatus → Option DeployStatus
latest_result k [] = none
latest_result k (d ∷ results) = elim (latest_result k results) [
  | none ↦ if d.model_key == k then some d else none
  | some later ↦ some later
]

-- The loop of `mark_status`.
unfoldable pub mark_all :
    ℕ → List DeployStatus → List ScheduleEvent → List ScheduleEvent → List ScheduleEvent
mark_all now results [] events = events
mark_all now results (event ∷ active) events = elim (latest_result (model_key event) results) [
  | none ↦ mark_all now results active events
  | some d ↦ mark_all now results active (mark_status now event.id d.status d.error events)
]

module _ (now : ℕ) (client : Client) where
  -- From the deploy on, with the calls so far.
  unfoldable pub deploy_step :
      List Call
      → Dict ScheduleEvent
      → List ScheduleEvent
      → List ModelKey
      → List ScheduleEvent
      → Pass
  deploy_step calls [] active new events = record {
    ending = reconciled;
    calls = calls;
    prev_model_keys = new;
    events = events;
  }
  deploy_step calls (entry ∷ due) active new events =
      let specs = map event_of (entry ∷ due) in
      let asked = calls ++ deploy_call specs ∷ [] in
      elim (client.deploys specs) [
        | none ↦ record {
          ending = deploy_failed;
          calls = asked;
          prev_model_keys = new;
          events = events;
        }
        | some results ↦ record {
          ending = reconciled;
          calls = asked;
          prev_model_keys = new;
          events = mark_all now results active events;
        }
      ]

  -- From the evict on.
  unfoldable pub act :
      List ModelKey
      → Dict ScheduleEvent
      → List ScheduleEvent
      → List ModelKey
      → List ModelKey
      → List ScheduleEvent
      → Pass
  act [] due active prev new events = deploy_step [] due active new events
  act (k ∷ evicted) due active prev new events =
      if client.takes_evict (k ∷ evicted)
      then deploy_step (evict_call (k ∷ evicted) ∷ []) due active new events
      else record {
        ending = evict_failed;
        calls = evict_call (k ∷ evicted) ∷ [];
        prev_model_keys = prev;
        events = events;
      }

  -- The pass, over the active events.
  unfoldable pub decide : Bool → List ModelKey → List ScheduleEvent → List ScheduleEvent → Pass
  decide force prev active events =
      let new = new_keys active in
      let evicted = to_evict prev new in
      let due = to_deploy force prev client.hot_keys new in
      if is_unknown client.hot_keys && not force
      then record { ending = skipped; calls = []; prev_model_keys = prev; events = events }
      else if length evicted == 0 && length due == 0
      then record { ending = in_sync; calls = []; prev_model_keys = keys_of new; events = events }
      else act evicted due active prev (keys_of new) events

  -- `_reconcile_locked`
  unfoldable pub reconcile_locked : Bool → List ModelKey → List ScheduleEvent → Result Pass
  reconcile_locked force prev events =
      list_events events >>= (λ valid. ok (decide force prev (filter_active now valid) events))
