-- ===== src/Cluster/Node.antt =====
-- node.py, the class Node: its state, and the operations that change it.
pub mod Invariant
pub mod Caching
pub mod Uncaching
pub mod Books
pub mod Eviction
pub mod Clearing
use ndif.Prelude.{
  ℕ, suc, ◌+◌, ◌≡◌, Bool, true, false, not, ◌&&◌, ◌||◌, Option, none, some, List, [], ◌∷◌, map, ltb,
  ◌==◌, if◌then◌else◌,
}
use ndif.Prelude.Dict.{Dict}
use ndif.Prelude.Int.{ℤ, pos, ◌-ℤ◌, leb_ℤ}
use ndif.Prelude.Results.{Result, ok, raise, key_error, ◌>>=◌, or_raise}
use ndif.Prelude.Sort.{sort}
use ndif.Evaluator.{ModelKey, ActorClass, DtypeName}
use ndif.Cluster.Resources.{
  Gpu, GpuResources, CpuResources, allocate, release, allocate_cpu, release_cpu, minus,
}
use ndif.Cluster.Deployment.{
  Deployment, DeploymentLevel, hot, warm, ReplicaId, NodeId, Classes, cacheable,
}
use ndif.Cluster.Replicas.{Replicas, Key, Entry, find, put, drop, first_replica, entries}

pub record Node : Type 0 where
  pub id : NodeId
  pub gpu_resources : GpuResources
  pub cpu_resources : CpuResources
  pub minimum_deployment_time_seconds : Option ℕ
  pub deployments : Replicas
  pub cache : Replicas

-- `exclude`: `None` and the empty set exclude nothing.
abbrev pub Excluded : Type 0
Excluded = List ModelKey

unfoldable pub mem : ModelKey → Excluded → Bool
mem mk [] = false
mem mk (k ∷ ks) = k == mk || mem mk ks

abbrev pub smaller : Deployment → Deployment → Bool
smaller a b = ltb a.size_bytes b.size_bytes

-- The loop of `find_cache_evictions`: what is still needed, and the sorted cache.
unfoldable pub pick : Excluded → ℤ → List Deployment → Option (List Deployment)
pick exclude needed [] = none
pick exclude needed (d ∷ ds) =
    let skip = mem d.model_key exclude in
    let needed' = if skip then needed else minus needed d.size_bytes in
    let rest = pick exclude needed' ds in
    if skip
    then rest
    else if leb_ℤ needed' (pos 0)
    then some (d ∷ [])
    else elim rest [ none ↦ none | some evictions ↦ some (d ∷ evictions) ]

abbrev pub deployment_of : Entry → Deployment
deployment_of e = e.deployment

unfoldable pub find_cache_evictions : Node → ℕ → Excluded → Option (List Deployment)
find_cache_evictions node size_bytes exclude =
    let needed = pos size_bytes -ℤ node.cpu_resources.available_memory_bytes in
    if leb_ℤ needed (pos 0)
    then some []
    else pick exclude needed (sort smaller (map deployment_of (entries node.cache)))

-- A WARM replica goes: `del self.cache[...][...]` and its memory given back.
unfoldable pub uncache : ModelKey → ReplicaId → Node → Result Node
uncache mk rid node = do
  cached ← or_raise key_error (find mk rid node.cache)
  ok (record node {
    cache = drop mk rid node.cache;
    cpu_resources = release_cpu cached.size_bytes node.cpu_resources;
  })

-- `for eviction_deployment in cache_evictions`; the size given back is the listed deployment's.
unfoldable pub uncache_all : List Deployment → Node → Result Node
uncache_all [] node = ok node
uncache_all (d ∷ ds) node = do node' ← uncache d.model_key d.replica_id node; uncache_all ds node'

-- The WARM replica that a demoted HOT one becomes.
abbrev pub demoted : NodeId → ReplicaId → Deployment → ℕ → Deployment
demoted node_id rid d now = record {
  model_key = d.model_key;
  replica_id = rid;
  deployment_level = warm;
  gpus = [];
  size_bytes = d.size_bytes;
  pinned = false;
  node_id = node_id;
  execution_timeout_seconds = none;
  actor_class = d.actor_class;
  dtype = d.dtype;
  deployed = now;
}

-- The end of `evict`: the HOT replica goes, and becomes WARM if there is room for it.
unfoldable pub demote :
    ModelKey → ReplicaId → Deployment → ℕ → Option (List Deployment) → Node → Result Node
demote mk rid d now none node = ok (record node { deployments = drop mk rid node.deployments })
demote mk rid d now (some cache_evictions) node = do
  node' ← uncache_all cache_evictions node
  ok (record node' {
    deployments = drop mk rid node'.deployments;
    cpu_resources = allocate_cpu d.size_bytes node'.cpu_resources;
    cache = put mk rid (demoted node'.id rid d now) node'.cache;
  })

unfoldable pub with_gpus : List Gpu → Node → Node
with_gpus gpus node = record node { gpu_resources = record (node.gpu_resources) { gpus = gpus } }

-- The HOT branch of `evict`.
unfoldable pub evict_hot : Classes → ℕ → Excluded → ModelKey → ReplicaId → Node → Result Node
evict_hot classes now exclude mk rid node = do
  d ← or_raise key_error (find mk rid node.deployments)
  gpus ← or_raise key_error (release d.gpus node.gpu_resources.gpus)
  let released = with_gpus gpus node
  let cache_evictions =
      if cacheable classes d then find_cache_evictions released d.size_bytes exclude else none
  demote mk rid d now cache_evictions released

abbrev pub is_some {ℓ} : {A : Type ℓ} → Option A → Bool
is_some none = false
is_some (some a) = true

unfoldable pub evict : Classes → ℕ → Excluded → ModelKey → ReplicaId → Node → Result Node
evict classes now exclude mk rid node =
    if is_some (find mk rid node.cache)
    then uncache mk rid node
    else evict_hot classes now exclude mk rid node

-- The evictions of a candidate, in the order in which its set is listed.
unfoldable pub evict_all : Classes → ℕ → Excluded → List Key → Node → Result Node
evict_all classes now exclude [] node = ok node
evict_all classes now exclude ((mk, rid) ∷ keys) node = do
  node' ← evict classes now exclude mk rid node
  evict_all classes now exclude keys node'

unfoldable pub mem_key : ModelKey → ReplicaId → List Key → Bool
mem_key mk rid [] = false
mem_key mk rid ((k, r) ∷ keys) = (k == mk && r == rid) || mem_key mk rid keys

-- What `deploy` is told about the new replica.
pub record Placement : Type 0 where
  pub model_key : ModelKey
  pub gpus : Dict ℕ
  pub evictions : List Key
  pub size_bytes : ℕ
  pub pinned : Bool
  pub execution_timeout_seconds : Option ℕ
  pub actor_class : Option ActorClass
  pub dtype : Option DtypeName

-- WARM->HOT promotion takes the first cached replica's id; otherwise the id is fresh.
unfoldable pub take_from :
    ModelKey → ReplicaId → Node → Option (ReplicaId × Deployment) → Node × ReplicaId
take_from mk fresh node none = (node, fresh)
take_from mk fresh node (some (rid, cached)) = (
  record node {
    cache = drop mk rid node.cache;
    cpu_resources = release_cpu cached.size_bytes node.cpu_resources;
  },
  rid,
)

abbrev pub take_id : ModelKey → ReplicaId → Node → Node × ReplicaId
take_id mk fresh node = take_from mk fresh node (first_replica mk node.cache)

abbrev pub placed : NodeId → ReplicaId → Placement → ℕ → Deployment
placed node_id rid p now = record {
  model_key = p.model_key;
  replica_id = rid;
  deployment_level = hot;
  gpus = p.gpus;
  size_bytes = p.size_bytes;
  pinned = p.pinned;
  node_id = node_id;
  execution_timeout_seconds = p.execution_timeout_seconds;
  actor_class = p.actor_class;
  dtype = p.dtype;
  deployed = now;
}

-- `fresh` is the id that `_new_replica_id` would draw.
unfoldable pub deploy :
    Classes → ℕ → Excluded → ReplicaId → Placement → Node → Result (Node × ReplicaId)
deploy classes now exclude fresh p node = do
  node' ← evict_all classes now exclude p.evictions node
  gpus ← or_raise key_error (allocate p.gpus node'.gpu_resources.gpus)
  let (node'', rid) = take_id p.model_key fresh (with_gpus gpus node')
  ok (
    record node'' {
      deployments = put p.model_key rid (placed node''.id rid p now) node''.deployments;
    },
    rid,
  )
