-- ===== src/Tests/Samples.antt =====
-- A node of two cards with one HOT and one WARM replica, and a replica to place on it.
use ndif.Prelude.{ℕ, ◌≡◌, refl, inl, inr, true, false, none, some, List, [], ◌∷◌, arith}
use mathlib.Core.Path.{subst}
use ndif.Prelude.Dict.{lookup, set, sum_by}
use ndif.Prelude.Int.{pos}
use ndif.Cluster.Deployment.{Deployment, hot, warm, Classes}
use ndif.Cluster.Resources.Charges.{Fitted, charge}
use ndif.Cluster.Replicas.{Key, find, put}
use ndif.Cluster.Replicas.Weights.{IsTable, total}
use ndif.Cluster.Replicas.Entries.{put-IsTable}
use ndif.Cluster.Node.{Node, Placement}
use ndif.Cluster.Node.Invariant.{Inv}
use ndif.Cluster.Placement.Keys.{IsListing}

abbrev pub running : Deployment
running = record {
  model_key = 7;
  replica_id = 1;
  deployment_level = hot;
  gpus = (0, 60) ∷ (1, 60) ∷ [];
  size_bytes = 120;
  pinned = false;
  node_id = 3;
  execution_timeout_seconds = none;
  actor_class = none;
  dtype = none;
  deployed = 0;
}

abbrev pub stored : Deployment
stored = record {
  model_key = 9;
  replica_id = 2;
  deployment_level = warm;
  gpus = [];
  size_bytes = 30;
  pinned = false;
  node_id = 3;
  execution_timeout_seconds = none;
  actor_class = none;
  dtype = none;
  deployed = 0;
}

abbrev pub sample_node : Node
sample_node = record {
  id = 3;
  gpu_resources = record {
    gpu_type = 1;
    gpus =
        record { index = 0; memory_bytes = 100; available_memory_bytes = pos 40 }
        ∷ record { index = 1; memory_bytes = 100; available_memory_bytes = pos 40 }
        ∷ [];
  };
  cpu_resources = record { memory_bytes = 100; available_memory_bytes = pos 70 };
  minimum_deployment_time_seconds = some 10;
  deployments = (7, (1, running) ∷ []) ∷ [];
  cache = (9, (2, stored) ∷ []) ∷ [];
}

-- Every class can be cached.
abbrev pub any_class : Classes
any_class c = some true

IsTable-single : (mk rid : ℕ) (d : Deployment) → IsTable (put mk rid d [])
unfolding lookup
IsTable-single mk rid d = put-IsTable mk rid d [] (record { outer = tt; inner = λ k. tt })

pub sample_node-Inv : Inv sample_node
unfolding find lookup total sum_by put set charge
sample_node-Inv = record {
  hot_table = IsTable-single 7 1 running;
  warm_table = IsTable-single 9 2 stored;
  disjoint = λ mk rid d h. ground arith;
  hot_named = λ mk rid d h. ground arith;
  warm_named = λ mk rid d h. ground arith;
  cards = record {
    distinct = ((λ e. absurd (omega arith), tt), (tt, tt));
    seated = λ mk rid d h.
        (let same : running ≡ d = ground arith in
          subst (λ e. Fitted e.gpus sample_node.gpu_resources.gpus) same
            (inl refl, (inr (inl refl), tt)));
    balanced = (refl, (refl, tt));
  };
  cpu_balanced = refl;
}

abbrev pub as_listed : List Key → List Key
as_listed keys = keys

pub as_listed-IsListing : IsListing as_listed
as_listed-IsListing = record { same = λ mk rid keys. refl; once = λ keys o. o }

abbrev pub newcomer : Placement
newcomer = record {
  model_key = 5;
  gpus = (0, 80) ∷ [];
  evictions = (7, 1) ∷ [];
  size_bytes = 80;
  pinned = false;
  execution_timeout_seconds = none;
  actor_class = none;
  dtype = none;
}
