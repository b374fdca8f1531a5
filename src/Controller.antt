-- ===== src/Controller.antt =====
-- services/ray/deployments/controller/controller.py: what the controller keeps beside the cluster,
-- and how it turns the cluster's books into operations on actors. Ray's answers are parameters.
pub mod Tracking
pub mod Building
pub mod Visits
pub mod Settled
pub mod Removal
pub mod Mirror
pub mod Synced
pub mod Applying
pub mod Requests
pub mod Growth
pub mod Homes
pub mod Applied
use ndif.Prelude.{
  ℕ, Bool, true, false, not, ◌&&◌, Option, none, some, List, [], ◌∷◌, ◌++◌, map, length, ◌==◌,
  if◌then◌else◌,
}
use ndif.Prelude.Dict.{Dict, lookup, set}
use ndif.Prelude.Results.{Result, ok, raise, key_error, ◌>>=◌, or_raise}
use ndif.Evaluator.{ModelKey, DtypeName, value_or}
use ndif.Cluster.Resources.{release, release_cpu}
use ndif.Cluster.Deployment.{Deployment, DeploymentLevel, hot, warm, cold, ReplicaId, NodeId}
use ndif.Cluster.Replicas.{Entry, find, drop, entries}
use ndif.Cluster.Node.{Node, with_gpus}
use ndif.Cluster.Cluster.{Cluster}
use ndif.Controller.Tracking.{StateKey, Tracked, tracked, track, untrack}

pub record Controller : Type 0 where
  pub state : Tracked
  pub cluster : Cluster
  pub default_dtype : DtypeName
  pub default_execution_timeout_seconds : Option ℕ

-- `DeploymentDelta`. A created replica comes with its node, here by the node's id.
pub record DeploymentDelta : Type 0 where
  pub to_cache : List Deployment
  pub from_cache : List Deployment
  pub to_create : List (NodeId × Deployment)
  pub to_delete : List Deployment

abbrev pub no_delta : DeploymentDelta
no_delta = record { to_cache = []; from_cache = []; to_create = []; to_delete = [] }

-- A replica as the loops of `build` come to it.
pub record Visit : Type 0 where
  pub key : StateKey
  pub deployment : Deployment
  pub in_cache : Bool

unfoldable pub visit : NodeId → Bool → Entry → Visit
visit id in_cache entry = record {
  key = record { node_id = id; model_key = entry.key; replica_id = entry.rid };
  deployment = entry.deployment;
  in_cache = in_cache;
}

-- The order of the loops: node by node, `iter_cache` and then `iter_deployments`.
unfoldable pub visits : Dict Node → List Visit
visits [] = []
visits ((id, node) ∷ nodes) =
    map (visit id true) (entries node.cache)
    ++ (map (visit id false) (entries node.deployments) ++ visits nodes)

abbrev pub is_hot : DeploymentLevel → Bool
is_hot hot = true
is_hot warm = false
is_hot cold = false

abbrev pub is_warm : DeploymentLevel → Bool
is_warm hot = false
is_warm warm = true
is_warm cold = false

-- What the body of the first loop appends, by the replica it popped.
unfoldable pub note_cached : Deployment → Deployment → DeploymentDelta → DeploymentDelta
note_cached existing cached delta =
    if is_hot existing.deployment_level
    then record delta { to_cache = cached ∷ delta.to_cache }
    else delta

-- What the body of the second loop appends.
unfoldable pub note_deployed :
    Option Deployment → NodeId → Deployment → DeploymentDelta → DeploymentDelta
note_deployed none id deployment delta = record delta {
  to_create = (id, deployment) ∷ delta.to_create;
}
note_deployed (some existing) id deployment delta =
    if is_warm existing.deployment_level
    then record delta { from_cache = deployment ∷ delta.from_cache }
    else delta

-- The loops: what is left of the old state, the new one, and the delta so far.
unfoldable pub walk :
    List Visit → Tracked → Tracked → Result (Tracked × (Tracked × DeploymentDelta))
walk [] old new = ok (old, (new, no_delta))
walk (v ∷ vs) old new =
    if v.in_cache
    then (or_raise key_error (tracked v.key old) >>= (λ existing.
        walk vs (untrack v.key old) (track v.key v.deployment new)
        >>= (λ (left, (new', delta)). ok (left, (new', note_cached existing v.deployment delta)))))
    else (walk vs (untrack v.key old) (track v.key v.deployment new) >>= (λ (left, (new', delta)).
        ok (left, (new', note_deployed (tracked v.key old) v.key.node_id v.deployment delta))))

abbrev pub deployment_of : StateKey × Deployment → Deployment
deployment_of entry = entry.1

unfoldable pub build : Controller → Result (Controller × DeploymentDelta)
build c = walk (visits c.cluster.nodes) c.state [] >>= (λ (left, (new, delta)).
    ok (record c { state = new }, record delta { to_delete = map deployment_of left }))

-- `_remove_deployment_from_state`, on the node.
unfoldable pub remove_hot : Deployment → Node → Result Node
remove_hot d node = elim (find d.model_key d.replica_id node.deployments) [
  | none ↦ ok node
  | some held ↦ or_raise key_error (release d.gpus node.gpu_resources.gpus) >>= (λ gpus.
      ok (record (with_gpus gpus node) {
        deployments = drop d.model_key d.replica_id node.deployments;
      }))
]

unfoldable pub remove_warm : Deployment → Node → Node
remove_warm d node = elim (find d.model_key d.replica_id node.cache) [
  | none ↦ node
  | some held ↦ record node {
    cpu_resources = release_cpu d.size_bytes node.cpu_resources;
    cache = drop d.model_key d.replica_id node.cache;
  }
]

unfoldable pub remove_from_node : Deployment → Node → Result Node
remove_from_node d node = remove_hot d node >>= (λ node'. ok (remove_warm d node'))

abbrev pub key_of : Deployment → StateKey
key_of d = record { node_id = d.node_id; model_key = d.model_key; replica_id = d.replica_id }

-- `_remove_deployment_from_state`. A node's id is never empty, so the test of it is left out.
unfoldable pub remove_deployment : Deployment → Controller → Result Controller
remove_deployment d c =
    let state = untrack (key_of d) c.state in
    elim (lookup d.node_id c.cluster.nodes) [
      | none ↦ ok (record c { state = state })
      | some node ↦ remove_from_node d node >>= (λ node'. ok (record c {
        state = state;
        cluster = record (c.cluster) { nodes = set d.node_id node' c.cluster.nodes };
      }))
    ]
