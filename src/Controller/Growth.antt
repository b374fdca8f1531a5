-- ===== src/Controller/Growth.antt =====
-- controller.py: what `_like_existing` fills in.
use ndif.Prelude.{ℕ, ◌≡◌, true, some, List, length, get_elem?}
use ndif.Prelude.Dict.{Dict}
use ndif.Cluster.Deployment.{Deployment}
use ndif.Cluster.Node.{Node}
use ndif.Cluster.Cluster.{DeploymentConfig}
use ndif.Controller.Requests.{agrees, or_own}

-- The config is filled in from one live replica.
pub record Filled (config filled : DeploymentConfig) (candidates : List Deployment) : Type 0 where
  pub model : Deployment
  pub place : ℕ
  pub is_live : get_elem? candidates place ≡ some model
  pub actor_class : filled.actor_class ≡ or_own config.actor_class model.actor_class
  pub dtype : filled.dtype ≡ or_own config.dtype model.dtype
  pub gpus : filled.gpus ≡ or_own config.gpus (some (length model.gpus))
  pub execution_timeout_seconds :
      filled.execution_timeout_seconds
      ≡ or_own config.execution_timeout_seconds model.execution_timeout_seconds
  pub size_bytes : filled.size_bytes ≡ config.size_bytes
  pub replicas : filled.replicas ≡ config.replicas
  pub pinned : filled.pinned ≡ config.pinned
  pub padding_factor : filled.padding_factor ≡ config.padding_factor
  pub padding_bias : filled.padding_bias ≡ config.padding_bias
  pub max_tp : filled.max_tp ≡ config.max_tp
  pub agreeing :
      (i : ℕ) (d : Deployment)
      → get_elem? candidates i ≡ some d
      → agrees config d ≡ true
      → agrees filled model ≡ true
