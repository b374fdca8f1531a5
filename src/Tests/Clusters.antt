-- ===== src/Tests/Clusters.antt =====
-- The theorems of cluster.py at work on a cluster of one node.
use ndif.Prelude.{refl, true, false, none, some, List, [], ◌∷◌}
use ndif.Prelude.Dict.{lookup}
use ndif.Prelude.Results.{Returns, Spared}
use ndif.Cluster.Cluster.{Cluster, DeploymentConfig, RayNode, update_nodes, no_result}
use ndif.Cluster.Cluster.Evicting.{drain, evict_replicas}
use ndif.Cluster.Cluster.Removing.{Removed, evict_replicas-Removed}
use ndif.Cluster.Cluster.Emptying.{Emptied, evict_replicas-Emptied}
use ndif.Cluster.Cluster.Draining.{Drained, drain-Drained}
use ndif.Cluster.Cluster.Nodes.{Unless, all_full, Updated, update_nodes-Updated}
use ndif.Cluster.Cluster.Surveying.{Managed}
use ndif.Cluster.Cluster.Deploying.{deploy, place_replicas, Progress}
use ndif.Cluster.Cluster.Rounds.{Finished, place_replicas-Finished}
use ndif.Cluster.Cluster.Contract.{Answered, deploy-Answered}
use ndif.Tests.Samples.{sample_node, sample_node-Inv, any_class}
use ndif.Tests.Worlds.{sample_world, sample_world-IsWorld}

abbrev pub sample_cluster : Cluster
sample_cluster = record {
  nodes = (3, sample_node) ∷ [];
  default_model_actor_class = 1;
  evaluator = record {
    padding_factor = record { num = 3; den = 20 };
    padding_bias = 7;
    tp_model_actor_class = none;
    cache = [];
  };
  minimum_deployment_time_seconds = some 10;
  model_cache_percentage = record { num = 1; den = 2 };
}

pub sample_cluster-Managed : Managed sample_cluster.nodes
unfolding lookup
sample_cluster-Managed = record { unique = (refl, tt); each = ((refl, sample_node-Inv), tt) }

-- Two replicas of 50 bytes each, before the padding.
abbrev pub sample_config : DeploymentConfig
sample_config = record {
  pinned = false;
  replicas = 2;
  size_bytes = some 50;
  padding_factor = none;
  padding_bias = none;
  gpus = none;
  max_tp = none;
  execution_timeout_seconds = none;
  dtype = none;
  actor_class = none;
}

deploy-Answered_example :
    Spared
      (deploy sample_world 20 ((5, sample_config) ∷ []) sample_cluster)
      (Answered sample_cluster.nodes)
deploy-Answered_example =
    deploy-Answered sample_world sample_world-IsWorld 20 ((5, sample_config) ∷ []) sample_cluster
      sample_cluster-Managed

abbrev sample_progress : Progress
sample_progress = record {
  cluster = sample_cluster;
  result = no_result;
  evictions = [];
  change = false;
}

place_replicas-Finished_example :
    Spared
      (place_replicas sample_world 20 (5 ∷ []) 2 5 65 sample_config sample_progress)
      (Finished 2 sample_progress)
place_replicas-Finished_example =
    place_replicas-Finished sample_world sample_world-IsWorld 20 (5 ∷ []) 2 5 65 sample_config
      sample_progress sample_cluster-Managed

-- Node 3 left, and node 4 came with two cards.
abbrev sample_rays : List RayNode
sample_rays =
    record {
      node_id = 4;
      is_alive = true;
      gpus = some 2;
      gpu_type = 1;
      cuda_memory_bytes = some 200;
      cpu_memory_bytes = some 300;
    }
    ∷ record {
      node_id = 3;
      is_alive = false;
      gpus = some 2;
      gpu_type = 1;
      cuda_memory_bytes = some 200;
      cpu_memory_bytes = some 200;
    }
    ∷ []

update_nodes-Updated_example :
    Unless
      (all_full sample_rays)
      (update_nodes sample_rays sample_cluster)
      (Updated sample_rays sample_cluster)
update_nodes-Updated_example =
    update_nodes-Updated sample_rays sample_cluster sample_cluster-Managed

drain-Drained_example : Returns (drain any_class 20 2 7 1 sample_node) (Drained sample_node 7 1)
drain-Drained_example = drain-Drained any_class 20 7 1 0 sample_node sample_node-Inv

-- Model 7 is evicted from the cluster.
evict_replicas-Emptied_example :
    Returns
      (evict_replicas any_class 20 7 none sample_cluster)
      (λ r. Emptied any_class 20 7 sample_cluster.nodes r.0.nodes)
evict_replicas-Emptied_example =
    evict_replicas-Emptied any_class 20 7 sample_cluster sample_cluster-Managed

-- Replica 2 of model 9 is WARM on node 3.
evict_replicas-Removed_example :
    Returns
      (evict_replicas any_class 20 9 (some 2) sample_cluster)
      (λ r. Removed any_class 20 9 2 sample_cluster.nodes r.0.nodes r.1)
evict_replicas-Removed_example =
    evict_replicas-Removed any_class 20 9 2 sample_cluster sample_cluster-Managed
