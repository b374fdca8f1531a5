-- ===== src/Tests/Controllers.antt =====
-- The theorems of controller.py at work on a controller whose cluster has one node.
use ndif.Prelude.{ℕ, ◌≡◌, refl, true, false, none, [], ◌∷◌, All, map, if◌then◌else◌}
use ndif.Prelude.Results.{ok, raise, key_error, Returns}
use ndif.Cluster.Deployment.{hot}
use ndif.Cluster.Replicas.{inner_entries, entries}
use ndif.Controller.{
  Controller, DeploymentDelta, no_delta, visit, visits, note_cached, note_deployed, walk,
  deployment_of, build, remove_deployment,
}
use ndif.Controller.Tracking.{StateKey, same_state_key, tracked, track, untrack, Once}
use ndif.Controller.Building.{any_visit, unknown, entry_of, forgotten, changes, build-changes}
use ndif.Controller.Visits.{visits-Apart}
use ndif.Controller.Settled.{Levelled, build_settled}
use ndif.Controller.Synced.{Synced, Dropped, build-Synced, remove_deployment-Synced}
use ndif.Controller.Homes.{AtHome, visits-Fits}
use ndif.Controller.Applying.{Ray, apply}
use ndif.Controller.Applied.{Kept, lost_in, apply-Kept}
use ndif.Tests.Samples.{running, stored}
use ndif.Tests.Clusters.{sample_cluster, sample_cluster-Managed}

abbrev key : ℕ → ℕ → ℕ → StateKey
key node_id model_key replica_id = record {
  node_id = node_id;
  model_key = model_key;
  replica_id = replica_id;
}

-- Replica 2 of model 9 was HOT, replica 1 of model 7 is not known, and a third one is gone.
abbrev sample_controller : Controller
sample_controller = record {
  state =
      (key 3 9 2, record stored { deployment_level = hot })
      ∷ (key 8 4 1, record running { model_key = 4; node_id = 8 })
      ∷ [];
  cluster = sample_cluster;
  default_dtype = 2;
  default_execution_timeout_seconds = none;
}

sample_controller-Once : Once sample_controller.state
unfolding tracked same_state_key
sample_controller-Once = (refl, (refl, tt))

abbrev sample_delta : DeploymentDelta
sample_delta = record {
  to_cache = stored ∷ [];
  from_cache = [];
  to_create = (3, running) ∷ [];
  to_delete = record running { model_key = 4; node_id = 8 } ∷ [];
}

abbrev built : Controller
built = record sample_controller { state = (key 3 9 2, stored) ∷ (key 3 7 1, running) ∷ [] }

built_lem : build sample_controller ≡ ok (built, sample_delta)
unfolding build walk visits visit entries inner_entries tracked track untrack same_state_key
    note_cached note_deployed
built_lem = refl

build-changes_example : build sample_controller ≡ (
    if any_visit (unknown sample_controller.state) (visits sample_cluster.nodes)
    then raise key_error
    else ok (
      record sample_controller { state = map entry_of (visits sample_cluster.nodes) },
      changes
          (visits sample_cluster.nodes)
          sample_controller.state
          (map deployment_of (forgotten (visits sample_cluster.nodes) sample_controller.state)),
    ))
build-changes_example =
    build-changes sample_controller (visits-Apart sample_cluster.nodes sample_cluster-Managed)
      sample_controller-Once

sample_visits-Levelled : All Levelled (visits sample_cluster.nodes)
unfolding visits visit entries inner_entries
sample_visits-Levelled = (refl, (refl, tt))

build_settled_example : build built ≡ ok (built, no_delta)
build_settled_example =
    build_settled sample_controller built sample_delta sample_cluster-Managed sample_controller-Once
      sample_visits-Levelled built_lem

built-Synced : Synced built × (built.cluster ≡ sample_cluster)
built-Synced =
    build-Synced sample_controller built sample_delta sample_cluster-Managed sample_controller-Once
      built_lem

sample_visits-AtHome : All AtHome (visits sample_cluster.nodes)
unfolding visits visit entries inner_entries
sample_visits-AtHome = (refl, (refl, tt))

-- The cache is refused and the handle is there.
abbrev sample_ray : Ray
sample_ray = record {
  cache_starts = λ d. false;
  cache_fails = λ d. false;
  restore_starts = λ d. true;
  has_handle = λ d. true;
}

apply-Kept_example :
    Returns
      (apply sample_ray sample_controller)
      (λ done. Kept (lost_in sample_ray sample_delta) built done.1)
apply-Kept_example =
    apply-Kept sample_ray sample_controller built sample_delta sample_cluster-Managed
      sample_controller-Once sample_visits-AtHome built_lem

remove_deployment-Synced_example :
    Returns
      (remove_deployment running built)
      (λ c'. Synced c' × Dropped running sample_cluster.nodes c'.cluster.nodes)
unfolding visits visit entries inner_entries
remove_deployment-Synced_example =
    remove_deployment-Synced built running built-Synced.0
      (visits-Fits sample_cluster.nodes sample_cluster-Managed sample_visits-AtHome).1.0

build-Synced_example : Synced built × (built.cluster ≡ sample_cluster)
build-Synced_example =
    build-Synced sample_controller built sample_delta sample_cluster-Managed sample_controller-Once
      built_lem
