-- ===== src/Cluster/Replicas.antt =====
-- `Dict[MODEL_KEY, Dict[REPLICA_ID, Deployment]]`, as `Node.deployments` and `Node.cache` are, with
-- the accesses that node.py makes. An inner dict that runs empty is removed.
pub mod Shapes
pub mod Weights
pub mod Entries
pub mod Listing
use ndif.Prelude.{ℕ, Bool, true, false, Option, none, some, List, [], ◌∷◌, ◌++◌, map}
use ndif.Prelude.Dict.{Dict, lookup, set, del}
use ndif.Evaluator.{ModelKey}
use ndif.Cluster.Deployment.{Deployment, ReplicaId}

abbrev pub Replicas : Type 0
Replicas = Dict (Dict Deployment)

abbrev pub Key : Type 0
Key = ModelKey × ReplicaId

-- `replicas.get(model_key, {})`
abbrev pub inner_of : ModelKey → Replicas → Dict Deployment
inner_of mk r = elim (lookup mk r) [ none ↦ [] | some inner ↦ inner ]

-- `replicas.get(model_key, {}).get(replica_id)`
unfoldable pub find : ModelKey → ReplicaId → Replicas → Option Deployment
find mk rid r = elim (lookup mk r) [ none ↦ none | some inner ↦ lookup rid inner ]

-- `replicas.setdefault(model_key, {})[replica_id] = deployment`
unfoldable pub put : ModelKey → ReplicaId → Deployment → Replicas → Replicas
put mk rid d r = set mk (set rid d (inner_of mk r)) r

-- `inner[model_key] = ...` after a deletion: the entry goes with its last replica.
unfoldable pub put_back : ModelKey → Dict Deployment → Replicas → Replicas
put_back mk [] r = del mk r
put_back mk (e ∷ inner) r = set mk (e ∷ inner) r

-- `del replicas[model_key][replica_id]`, then `del replicas[model_key]` if nothing is left.
unfoldable pub drop : ModelKey → ReplicaId → Replicas → Replicas
drop mk rid r = elim (lookup mk r) [ none ↦ r | some inner ↦ put_back mk (del rid inner) r ]

-- `next(iter(replicas[model_key].items()))`, if the model has a replica.
unfoldable pub first_replica : ModelKey → Replicas → Option (ReplicaId × Deployment)
first_replica mk r = elim (inner_of mk r) [ [] ↦ none | e ∷ inner ↦ some e ]

pub record Entry : Type 0 where
  pub key : ModelKey
  pub rid : ReplicaId
  pub deployment : Deployment

unfoldable pub inner_entries : ModelKey → Dict Deployment → List Entry
inner_entries mk [] = []
inner_entries mk ((rid, d) ∷ inner) =
    record { key = mk; rid = rid; deployment = d } ∷ inner_entries mk inner

-- `iter_deployments` and `iter_cache`
unfoldable pub entries : Replicas → List Entry
unfolding inner_entries
entries [] = []
entries ((mk, inner) ∷ r) = inner_entries mk inner ++ entries r
