-- ===== src/Cluster/Deployment.antt =====
-- deployment.py: the bookkeeping of one replica. The Ray actor behind it is not modelled: the
-- methods that drive it (delete, restart, cache, from_cache, create) change no field.
use ndif.Prelude.{ℕ, Bool, true, Option, none, some}
use ndif.Prelude.Dict.{Dict}
use ndif.Evaluator.{ModelKey, ActorClass, DtypeName, value_or}

abbrev pub ReplicaId : Type 0
ReplicaId = ℕ

abbrev pub NodeId : Type 0
NodeId = ℕ

pub data DeploymentLevel : Type 0 where
  hot warm cold : DeploymentLevel

pub record Deployment : Type 0 where
  pub model_key : ModelKey
  pub replica_id : ReplicaId
  pub deployment_level : DeploymentLevel
  pub gpus : Dict ℕ
  pub size_bytes : ℕ
  pub pinned : Bool
  pub node_id : NodeId
  pub execution_timeout_seconds : Option ℕ
  pub actor_class : Option ActorClass
  pub dtype : Option DtypeName
  -- `time.time()` at construction, in whole ticks
  pub deployed : ℕ

-- What resolving a class and reading its `CACHEABLE` gives; `none` where resolving fails.
abbrev pub Classes : Type 0
Classes = ActorClass → Option Bool

-- `cacheable`: an unset class and one that does not resolve both count as cacheable.
unfoldable pub cacheable : Classes → Deployment → Bool
cacheable classes d = elim d.actor_class [ none ↦ true | some c ↦ value_or (classes c) true ]
