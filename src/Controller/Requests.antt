-- ===== src/Controller/Requests.antt =====
-- controller.py: the requests that the controller answers, over `Cluster.deploy` and `Cluster.evict`.
use ndif.Prelude.{
  ℕ, Bool, true, false, ◌&&◌, Option, none, some, List, [], ◌∷◌, ◌++◌, length, ◌==◌, if◌then◌else◌,
}
use ndif.Prelude.Dict.{Dict, lookup}
use ndif.Prelude.Results.{Result, ok, ◌>>=◌}
use ndif.Evaluator.{ModelKey, DtypeName}
use ndif.Cluster.Deployment.{Deployment, ReplicaId}
use ndif.Cluster.Replicas.{inner_of}
use ndif.Cluster.Node.{Node}
use ndif.Cluster.Cluster.{DeploymentConfig, DeployResponse, World}
use ndif.Cluster.Cluster.Deploying.{deploy}
use ndif.Cluster.Cluster.Evicting.{evict_replicas}
use ndif.Controller.{Controller}
use ndif.Controller.Applying.{Operation, Ray, apply}

-- `.values()` of an inner dict.
unfoldable pub values : Dict Deployment → List Deployment
values [] = []
values ((rid, d) ∷ inner) = d ∷ values inner

unfoldable pub live : ModelKey → Dict Node → List Deployment
live mk [] = []
live mk ((id, node) ∷ nodes) = values (inner_of mk node.deployments) ++ live mk nodes

-- A field that the caller set differs from the replica's.
abbrev pub same_field : Option ℕ → Option ℕ → Bool
same_field none own = true
same_field (some pinned) none = false
same_field (some pinned) (some own) = own == pinned

unfoldable pub agrees : DeploymentConfig → Deployment → Bool
agrees config d =
    same_field config.actor_class d.actor_class
    && (same_field config.dtype d.dtype && same_field config.gpus (some (length d.gpus)))

-- `next((d for d in candidates if agrees(d)), default)`
unfoldable pub first_agreeing : DeploymentConfig → Deployment → List Deployment → Deployment
first_agreeing config default [] = default
first_agreeing config default (d ∷ candidates) =
    if agrees config d then d else first_agreeing config default candidates

abbrev pub or_own : Option ℕ → Option ℕ → Option ℕ
or_own none own = own
or_own (some pinned) own = some pinned

-- `size_bytes` is left alone.
unfoldable pub filled_from : DeploymentConfig → Deployment → DeploymentConfig
filled_from config model = record config {
  actor_class = or_own config.actor_class model.actor_class;
  dtype = or_own config.dtype model.dtype;
  gpus = or_own config.gpus (some (length model.gpus));
  execution_timeout_seconds =
      or_own config.execution_timeout_seconds model.execution_timeout_seconds;
}

unfoldable pub like_from : DeploymentConfig → List Deployment → DeploymentConfig
like_from config [] = config
like_from config (d ∷ candidates) = filled_from config (first_agreeing config d (d ∷ candidates))

-- `_like_existing`
unfoldable pub like_existing : ModelKey → DeploymentConfig → Dict Node → DeploymentConfig
like_existing mk config nodes = like_from config (live mk nodes)

-- `_deploy`: every config gets a dtype first.
unfoldable pub with_dtype : DtypeName → Dict DeploymentConfig → Dict DeploymentConfig
with_dtype default [] = []
with_dtype default ((mk, config) ∷ configs) =
    (mk, record config { dtype = or_own config.dtype (some default) }) ∷ with_dtype default configs

-- What a request leaves: the operations on actors, and the controller.
abbrev pub Answer : Type 0 → Type 0
Answer R = R × (List Operation × Controller)

module _ (w : World) (ray : Ray) (now : ℕ) where
  unfoldable pub deploy_configs :
      Dict DeploymentConfig → Controller → Result (Answer DeployResponse)
  deploy_configs configs c =
      deploy w now (with_dtype c.default_dtype configs) c.cluster >>= (λ (cluster, response).
        (if response.change
          then apply ray (record c { cluster = cluster })
          else ok ([], record c { cluster = cluster }))
        >>= (λ done. ok (response, done)))

  -- `n` replicas more, like the ones that run.
  unfoldable pub scale :
      ModelKey → ℕ → DeploymentConfig → Controller → Result (Answer DeployResponse)
  scale mk n config c =
      deploy_configs ((mk, like_existing mk (record config { replicas = n }) c.cluster.nodes) ∷ [])
        c

  unfoldable pub evict_request :
      ModelKey → Option ReplicaId → Controller → Result (Answer (List Deployment))
  evict_request mk replica_id c =
      evict_replicas w.classes now mk replica_id c.cluster >>= (λ (cluster, evicted).
        (if length evicted == 0
          then ok ([], record c { cluster = cluster })
          else apply ray (record c { cluster = cluster }))
        >>= (λ done. ok (evicted, done)))

-- `get_deployment`: HOT replicas, of one id or of all.
unfoldable pub get_deployment : ModelKey → Option ReplicaId → Dict Node → List Deployment
get_deployment mk replica_id [] = []
get_deployment mk replica_id ((id, node) ∷ nodes) =
    let replicas = inner_of mk node.deployments in
    let here : List Deployment = elim replica_id [
      | none ↦ values replicas
      | some rid ↦ elim (lookup rid replicas) [ none ↦ [] | some d ↦ d ∷ [] ]
    ] in
    here ++ get_deployment mk replica_id nodes
