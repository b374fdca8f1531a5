-- ===== src/Cluster/Cluster.antt =====
-- cluster.py, the class Cluster: the nodes and the placement of replicas on them.
pub mod Nodes
pub mod Deploying
pub mod Evicting
pub mod Draining
pub mod Emptying
pub mod Removing
pub mod Surveying
pub mod Rounds
pub mod Contract
use ndif.Prelude.{
  ℕ, zero, suc, ◌+◌, ◌-◌, ◌*◌, ◌/◌, Bool, true, false, not, ◌&&◌, ◌||◌, Option, none, some, List,
  [], ◌∷◌, ◌++◌, map, length, ltb, ◌==◌, if◌then◌else◌,
}
use ndif.Prelude.Dict.{Dict, lookup, set, del}
use ndif.Prelude.Int.{pos}
use ndif.Prelude.Results.{Result, ok, raise, zero_division_error, key_error, ◌>>=◌, or_raise}
use ndif.Prelude.Sort.{sort}
use ndif.Evaluator.{
  ModelKey, ActorClass, DtypeName, Factor, Hub, Answer, unreachable, failed, ModelEvaluator,
  size_of, max_tp, actor_class,
}
use ndif.Evaluator
use ndif.Cluster.Resources.{Gpu, GpuResources, CpuResources}
use ndif.Cluster.Deployment.{NodeId, ReplicaId, Classes}
use ndif.Cluster.Replicas.{Key}
use ndif.Cluster.Node.{Node, Excluded, Placement, mem}
use ndif.Cluster.Node
use ndif.Cluster.Placement.{
  Candidate, CandidateLevel, cant_accommodate, level_value, Reason, evaluate, update,
}

pub record Cluster : Type 0 where
  pub nodes : Dict Node
  pub default_model_actor_class : ActorClass
  pub evaluator : ModelEvaluator
  pub minimum_deployment_time_seconds : Option ℕ
  pub model_cache_percentage : Factor

-- A record of Ray's state API. The resources are what `resources_total` has under "GPU" and under their
-- names, `none` where it lacks the key.
pub record RayNode : Type 0 where
  pub node_id : NodeId
  pub is_alive : Bool
  pub gpus : Option ℕ
  pub gpu_type : ℕ
  pub cuda_memory_bytes : Option ℕ
  pub cpu_memory_bytes : Option ℕ

-- `[GPU(index=i, ...) for i in range(i, i + n)]`
unfoldable pub new_gpus : ℕ → ℕ → ℕ → List Gpu
new_gpus zero i bytes = []
new_gpus (suc n) i bytes =
    record { index = i; memory_bytes = bytes; available_memory_bytes = pos bytes }
    ∷ new_gpus n (i + 1) bytes

unfoldable pub new_node : Option ℕ → Factor → RayNode → ℕ → (cuda cpu : ℕ) → Node
unfolding new_gpus
new_node minimum percentage ray total_gpus cuda cpu =
    let budget = cpu * percentage.num / percentage.den in
    record {
      id = ray.node_id;
      gpu_resources = record {
        gpu_type = ray.gpu_type;
        gpus = new_gpus total_gpus 0 (cuda / total_gpus);
      };
      cpu_resources = record { memory_bytes = budget; available_memory_bytes = pos budget };
      minimum_deployment_time_seconds = minimum;
      deployments = [];
      cache = [];
    }

-- The memory of a new node is read, and `total_gpus` divides it.
unfoldable pub join : Option ℕ → Factor → RayNode → ℕ → Dict Node → Result (Dict Node)
join minimum percentage ray total_gpus nodes = elim (lookup ray.node_id nodes) [
  | some known ↦ ok nodes
  | none ↦ elim ray.cuda_memory_bytes [
    | none ↦ raise key_error
    | some cuda ↦ if total_gpus == 0 then raise zero_division_error else elim ray.cpu_memory_bytes [
      | none ↦ raise key_error
      | some cpu ↦ ok (set ray.node_id (new_node minimum percentage ray total_gpus cuda cpu) nodes)
    ]
  ]
]

abbrev pub managed : RayNode → Option ℕ
managed ray = if ray.is_alive then ray.gpus else none

unfoldable pub join_all : Option ℕ → Factor → List RayNode → Dict Node → Result (Dict Node)
join_all minimum percentage [] nodes = ok nodes
join_all minimum percentage (ray ∷ rays) nodes = elim (managed ray) [
  | none ↦ join_all minimum percentage rays nodes
  | some total_gpus ↦ join minimum percentage ray total_gpus nodes >>= λ nodes'.
      join_all minimum percentage rays nodes'
]

-- `node_id in current_nodes`
unfoldable pub is_current : NodeId → List RayNode → Bool
is_current id [] = false
is_current id (ray ∷ rays) =
    (elim (managed ray) [ none ↦ false | some _ ↦ ray.node_id == id ]) || is_current id rays

-- Departed nodes are popped and purged.
unfoldable pub sweep : List RayNode → Dict Node → Dict Node
sweep rays [] = []
sweep rays ((id, node) ∷ nodes) =
    if is_current id rays then (id, node) ∷ sweep rays nodes else sweep rays nodes

unfoldable pub update_nodes : List RayNode → Cluster → Result Cluster
update_nodes rays c = do
  nodes ← join_all c.minimum_deployment_time_seconds c.model_cache_percentage rays c.nodes
  ok (record c { nodes = sweep rays nodes })

pub record DeploymentConfig : Type 0 where
  pub pinned : Bool
  pub replicas : ℕ
  pub size_bytes : Option ℕ
  pub padding_factor : Option Factor
  pub padding_bias : Option ℕ
  pub gpus : Option ℕ
  pub max_tp : Option ℕ
  pub execution_timeout_seconds : Option ℕ
  pub dtype : Option DtypeName
  pub actor_class : Option ActorClass

pub data DeployError : Type 0 where
  evaluation_failed no_gpu_nodes could_not_accommodate : DeployError
  stated : Reason → DeployError
  out_of_room : (placed wanted : ℕ) → DeployError

pub record ModelDeployResult : Type 0 where
  pub replicas : List ReplicaId
  pub error : Option DeployError

abbrev pub no_result : ModelDeployResult
no_result = record { replicas = []; error = none }

pub record DeployResponse : Type 0 where
  pub results : Dict ModelDeployResult
  pub evictions : List Key
  pub change : Bool

-- What the code takes from outside: the order in which a set is listed, `random.choice` of a first
-- candidate and the others, a fresh id, the Hub, and the actor classes.
pub record World : Type 0 where
  pub order : List Key → List Key
  pub choice : NodeId × Candidate → Dict Candidate → NodeId × Candidate
  pub fresh : Dict Node → ModelKey → ReplicaId
  pub hub : Hub
  pub classes : Classes

-- The best candidates so far and their level.
abbrev pub Best : Type 0
Best = Option ℕ × Dict Candidate

unfoldable pub consider : NodeId → Candidate → Best → Best
consider id c (none, candidates) = (some (level_value c.candidate_level), (id, c) ∷ [])
consider id c (some best, candidates) =
    let level = level_value c.candidate_level in
    if ltb level best
    then (some level, (id, c) ∷ [])
    else if level == best
    then (some best, set id c candidates)
    else (some best, candidates)

module _ (w : World) (now : ℕ) (all_keys : Excluded) where
  -- The loop over the nodes.
  unfoldable pub survey :
      ModelKey → ℕ → DeploymentConfig → Option ℕ → Dict Node → Best → Result Best
  survey mk size config limit [] best = ok best
  survey mk size config limit ((id, node) ∷ nodes) best = do
    candidate ← evaluate w.order node now mk size config.pinned all_keys limit config.gpus none
    survey mk size config limit nodes (consider node.id candidate best)

  -- The first reason that a candidate states.
  unfoldable pub stated_reason : Dict Candidate → Option Reason
  stated_reason [] = none
  stated_reason ((id, c) ∷ candidates) = elim c.reason [
    | none ↦ stated_reason candidates
    | some reason ↦ some reason
  ]

  abbrev pub refusal : Dict Candidate → ℕ → ℕ → DeployError
  refusal candidates placed wanted = elim (stated_reason candidates) [
    | none ↦ out_of_room placed wanted
    | some reason ↦ stated reason
  ]

  abbrev pub placement : ModelKey → ℕ → DeploymentConfig → Candidate → ActorClass → Placement
  placement mk size config c class = record {
    model_key = mk;
    gpus = c.gpus;
    evictions = c.evictions;
    size_bytes = size;
    pinned = config.pinned;
    execution_timeout_seconds = config.execution_timeout_seconds;
    actor_class = some class;
    dtype = config.dtype;
  }

  -- An explicit class wins; otherwise the evaluator picks.
  unfoldable pub served_by :
      ModelKey → DeploymentConfig → Candidate → Cluster → ActorClass × ModelEvaluator
  served_by mk config c cluster = elim config.actor_class [
    | some class ↦ (class, cluster.evaluator)
    | none ↦
        actor_class w.hub cluster.evaluator mk (length c.gpus) cluster.default_model_actor_class
          config.dtype config.max_tp
  ]

  -- One replica on the chosen node.
  unfoldable pub place_on :
      ModelKey → ℕ → DeploymentConfig → NodeId → Candidate → Cluster → Result (Cluster × ReplicaId)
  place_on mk size config id c cluster =
      let (class, evaluator) = served_by mk config c cluster in
      or_raise key_error (lookup id cluster.nodes) >>= λ node.
      Node.deploy w.classes now all_keys (w.fresh cluster.nodes mk)
        (placement mk size config c class) node
      >>= λ done.
          ok (record cluster { nodes = set id done.0 cluster.nodes; evaluator = evaluator }, done.1)
