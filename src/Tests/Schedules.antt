-- ===== src/Tests/Schedules.antt =====
-- The theorems of schedule_store.py and reconcile.py at work on a file of two events.
use ndif.Prelude.{ℕ, ◌+◌, ◌≡◌, refl, true, false, none, some, List, [], ◌∷◌, All, map, among, keep}
use ndif.Prelude.Dict.{set}
use ndif.Prelude.Results.{ok, raise, value_error, Returns}
use ndif.Prelude.Sort.{sort, insert}
use ndif.Schedule.{
  ScheduleEventIn, ScheduleEvent, is_valid, list_events, create_event, updated, run, validate,
  end_after_start, is_active, filter_active,
}
use ndif.Schedule.Store.{AllValid, Writes, run-Writes}
use ndif.Reconcile.{
  model_key, keys_of, new_keys, Client, evict_call, deploy_call, decide, new_keys_from, to_evict,
  to_deploy, is_due, act, deploy_step, as_set, mark_all, latest_result,
}
use ndif.Reconcile.Passes.{IsExact}
use ndif.Reconcile.Asking.{Asks, decide-IsExact}
use ndif.Reconcile.Settling.{IsDone, decide_settles, in_sync_pass}

abbrev payload : ℕ → ℕ → ScheduleEventIn
payload start key = record {
  title = 1;
  checkpoint = 2;
  start = start;
  end = some (start + 10);
  revision = none;
  task = none;
  trust_remote_code = false;
  actor_class = none;
  envoy_class = none;
  padding_factor = none;
  execution_timeout_seconds = none;
  model_key = some key;
}

abbrev event : ℕ → ℕ → ℕ → ScheduleEvent
event id start key = record {
  payload = payload start key;
  id = id;
  created_at = 0;
  updated_at = 0;
  last_status = none;
  last_error = none;
}

abbrev stored_events : List ScheduleEvent
stored_events = event 5 20 100 ∷ event 6 25 101 ∷ []

stored_events-AllValid : AllValid stored_events
unfolding is_valid end_after_start
stored_events-AllValid = (refl, (refl, tt))

moved_is_valid : is_valid (payload 40 101) ≡ true
unfolding is_valid end_after_start
moved_is_valid = refl

run-Writes_example : Returns (run (updated 30 6 (payload 40 101)) stored_events) (λ events'.
    Writes (updated 30 6 (payload 40 101)) stored_events events'
    × (list_events events' ≡ ok events'))
run-Writes_example =
    run-Writes (updated 30 6 (payload 40 101)) stored_events stored_events-AllValid moved_is_valid

-- The controller has one of the scheduled models, and takes what it is asked.
abbrev client : Client
client = record {
  hot_keys = some (100 ∷ []);
  takes_evict = λ keys. true;
  deploys = λ specs. some (record { model_key = 101; status = 3; error = none } ∷ []);
}

abbrev warm : Client
warm = record client { hot_keys = some (100 ∷ 101 ∷ []) }

decide-IsExact_example :
    let calls = (decide 30 client false (100 ∷ 99 ∷ []) stored_events stored_events).calls in
    ((k : ℕ) → Asks client false (100 ∷ 99 ∷ []) stored_events k calls)
    × All (IsExact false (100 ∷ 99 ∷ []) client.hot_keys stored_events) calls
decide-IsExact_example = decide-IsExact 30 client false (100 ∷ 99 ∷ []) stored_events stored_events

-- Model 99 goes and model 101 comes.
decide_calls :
    (decide 30 client false (100 ∷ 99 ∷ []) stored_events stored_events).calls
    ≡ evict_call (99 ∷ []) ∷ deploy_call (event 6 25 101 ∷ []) ∷ []
unfolding decide new_keys_from to_evict to_deploy is_due act deploy_step as_set sort insert mark_all
    latest_result among keep set
decide_calls = refl

decide-IsDone : IsDone (decide 30 client false (100 ∷ 99 ∷ []) stored_events stored_events).ending
unfolding decide new_keys_from to_evict to_deploy is_due act deploy_step as_set sort insert mark_all
    latest_result among keep set
decide-IsDone = tt

stored_among :
    (k : ℕ) → among k (map model_key stored_events) ≡ true → among k (100 ∷ 101 ∷ []) ≡ true
stored_among k h = h

decide_settles_example :
    decide 32 warm false
      (decide 30 client false (100 ∷ 99 ∷ []) stored_events stored_events).prev_model_keys
      stored_events
      stored_events
    ≡ in_sync_pass (keys_of (new_keys stored_events)) stored_events
decide_settles_example =
    decide_settles 30 32 client warm false (100 ∷ 99 ∷ []) (100 ∷ 101 ∷ []) stored_events
      stored_events stored_events stored_events decide-IsDone refl refl stored_among

-- An event that ends before it starts is refused.
refuses_backwards :
    create_event 30 7 (record (payload 20 102) { end = some 19 }) stored_events ≡ raise value_error
unfolding create_event validate is_valid end_after_start
refuses_backwards = refl

-- Between the two starts one event is active.
active_between : map model_key (filter_active 22 stored_events) ≡ 100 ∷ []
unfolding filter_active is_active keep
active_between = refl
