-- ===== src/Cluster/Cluster/Deploying.antt =====
-- cluster.py: `Cluster.deploy`, with the loops over the configs and over the replicas of each.
use ndif.Prelude.{
  ℕ, zero, suc, Bool, true, false, Option, none, some, List, [], ◌∷◌, ◌++◌, map, length, ltb,
  if◌then◌else◌,
}
use ndif.Prelude.Dict.{Dict, lookup, set}
use ndif.Prelude.Results.{Result, ok, ◌>>=◌}
use ndif.Prelude.Sort.{sort}
use ndif.Evaluator
use ndif.Evaluator.{ModelKey, Answer, unreachable, failed, size_of, max_tp}
use ndif.Cluster.Deployment.{NodeId, ReplicaId}
use ndif.Cluster.Replicas.{Key}
use ndif.Cluster.Node.{Excluded}
use ndif.Cluster.Placement.{Candidate, CandidateLevel, cant_accommodate, update}
use ndif.Cluster.Cluster.{
  Cluster, DeploymentConfig, DeployError, evaluation_failed, no_gpu_nodes, could_not_accommodate,
  ModelDeployResult, no_result, DeployResponse, World, survey, refusal, place_on,
}

abbrev pub is_refused : CandidateLevel → Bool
is_refused cant_accommodate = true
is_refused _ = false

-- The cluster, the result of the model at hand and the response so far.
pub record Progress : Type 0 where
  pub cluster : Cluster
  pub result : ModelDeployResult
  pub evictions : List Key
  pub change : Bool

abbrev pub with_error : DeployError → Progress → Progress
with_error e p = record p { result = record (p.result) { error = some e } }

-- After a replica was placed.
abbrev pub with_replica : Cluster → ReplicaId → Candidate → Progress → Progress
with_replica cluster rid c p = record {
  cluster = cluster;
  result = record (p.result) { replicas = p.result.replicas ++ rid ∷ [] };
  evictions = update p.evictions c.evictions;
  change = true;
}

-- `self.evaluator.max_tp(...)`, which may fill the evaluator's cache.
abbrev pub asked_limit : World → ModelKey → DeploymentConfig → Progress → Option ℕ × Progress
asked_limit w mk config p =
    let (limit, evaluator) = max_tp w.hub p.cluster.evaluator mk config.dtype config.max_tp in
    (limit, record p { cluster = record (p.cluster) { evaluator = evaluator } })

-- A model, its config and the size that the evaluator gave.
pub record Sized : Type 0 where
  pub model_key : ModelKey
  pub config : DeploymentConfig
  pub size : ℕ

abbrev pub bigger : Sized → Sized → Bool
bigger a b = ltb b.size a.size

-- The sized models, the results so far, and the cluster, whose evaluator keeps what it learned.
abbrev pub Sizes : Type 0
Sizes = List Sized × (Dict ModelDeployResult × Cluster)

abbrev failed_result : ModelDeployResult
failed_result = record { replicas = []; error = some evaluation_failed }

-- A size, or the failure as the model's result.
abbrev pub with_size : ModelKey → DeploymentConfig → Answer ℕ → Sizes → Sizes
with_size mk config (Evaluator.ok size) (sized, rest) =
    (record { model_key = mk; config = config; size = size } ∷ sized, rest)
with_size mk config unreachable (sized, (results, after)) =
    (sized, ((mk, failed_result) ∷ results, after))
with_size mk config failed (sized, (results, after)) =
    (sized, ((mk, failed_result) ∷ results, after))

unfoldable pub evaluate_sizes : World → Dict DeploymentConfig → Cluster → Sizes
evaluate_sizes w [] cluster = ([], ([], cluster))
evaluate_sizes w ((mk, config) ∷ configs) cluster =
    let (answer, evaluator) =
      size_of w.hub cluster.evaluator mk config.padding_factor config.dtype config.size_bytes
        config.padding_bias in
    with_size mk config answer (evaluate_sizes w configs (record cluster { evaluator = evaluator }))

-- `if not model_result.replicas and not model_result.error`
abbrev pub is_bare : ModelDeployResult → Bool
is_bare r = elim r.replicas [
  | [] ↦ elim r.error [ none ↦ true | some e ↦ false ]
  | rid ∷ rids ↦ false
]

unfoldable pub contracted : ModelDeployResult → ModelDeployResult
contracted r = if is_bare r then record r { error = some could_not_accommodate } else r

-- `response.results.setdefault(...)`
abbrev pub result_of : ModelKey → Dict ModelDeployResult → ModelDeployResult
result_of mk results = elim (lookup mk results) [ none ↦ no_result | some r ↦ r ]

module _ (w : World) (now : ℕ) (all_keys : Excluded) where
  -- What is done with the chosen candidate: `none` ends the loop.
  unfoldable pub try_on :
      ModelKey
      → ℕ
      → DeploymentConfig
      → Dict Candidate
      → NodeId × Candidate
      → Progress
      → Result (Bool × Progress)
  try_on mk size config candidates (id, c) p =
      if is_refused c.candidate_level
      then ok (
        false,
        with_error (refusal w now all_keys candidates (length p.result.replicas) config.replicas) p,
      )
      else place_on w now all_keys mk size config id c p.cluster >>= λ done.
          ok (true, with_replica done.0 done.1 c p)

  unfoldable pub try_best :
      ModelKey → ℕ → DeploymentConfig → Dict Candidate → Progress → Result (Bool × Progress)
  unfolding try_on
  try_best mk size config [] p = ok (false, with_error no_gpu_nodes p)
  try_best mk size config (c ∷ candidates) p =
      try_on mk size config (c ∷ candidates) (w.choice c candidates) p

  -- One round of `for replica_index in range(config.replicas)`: whether the loop goes on.
  unfoldable pub place_replica :
      ModelKey → ℕ → DeploymentConfig → Progress → Result (Bool × Progress)
  unfolding try_best
  place_replica mk size config p =
      let (limit, p') = asked_limit w mk config p in
      survey w now all_keys mk size config limit p'.cluster.nodes (none, []) >>= λ best.
      try_best mk size config best.1 p'

  unfoldable pub place_replicas : ℕ → ModelKey → ℕ → DeploymentConfig → Progress → Result Progress
  place_replicas zero mk size config p = ok p
  place_replicas (suc rounds) mk size config p = do
    (goes_on, p') ← place_replica mk size config p
    elim goes_on [ true ↦ place_replicas rounds mk size config p' | false ↦ ok p' ]

  -- One model: its replicas, and the contract at the end.
  unfoldable pub deploy_model : Sized → Cluster × DeployResponse → Result (Cluster × DeployResponse)
  unfolding place_replicas contracted
  deploy_model m (cluster, response) =
      place_replicas m.config.replicas m.model_key m.size m.config (record {
        cluster = cluster;
        result = result_of m.model_key response.results;
        evictions = response.evictions;
        change = response.change;
      })
      >>= λ p. ok (
        p.cluster,
        record {
          results = set m.model_key (contracted p.result) response.results;
          evictions = p.evictions;
          change = p.change;
        },
      )

  unfoldable pub deploy_models :
      List Sized → Cluster × DeployResponse → Result (Cluster × DeployResponse)
  deploy_models [] state = ok state
  deploy_models (m ∷ ms) state = do state' ← deploy_model m state; deploy_models ms state'

abbrev pub key_of : ModelKey × DeploymentConfig → ModelKey
key_of (mk, config) = mk

-- `Cluster.deploy`: the biggest models first.
unfoldable pub deploy :
    World → ℕ → Dict DeploymentConfig → Cluster → Result (Cluster × DeployResponse)
unfolding evaluate_sizes deploy_models
deploy w now configs cluster =
    let (sized, (results, cluster')) = evaluate_sizes w configs cluster in
    deploy_models w now (map key_of configs) (sort bigger sized)
      (cluster', record { results = results; evictions = []; change = false })
