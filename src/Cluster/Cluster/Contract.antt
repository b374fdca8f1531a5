-- ===== src/Cluster/Cluster/Contract.antt =====
-- cluster.py: what `Cluster.deploy` leaves behind.
use mathlib.Core.Path.{subst}
use ndif.Prelude.{ℕ, ◌≡◌, refl, false, some, List, [], ◌∷◌, All, Bool-cases, inl, inr, map}
use ndif.Prelude.Dict.{Dict, set-All}
use ndif.Prelude.Results.{Spared, >>=-Spared, Spared_imp}
use ndif.Prelude.Sort.{sort}
use ndif.Evaluator
use ndif.Evaluator.{ModelKey, Answer, size_of, unreachable, failed}
use ndif.Cluster.Deployment.{ReplicaId}
use ndif.Cluster.Node.{Node, Excluded}
use ndif.Cluster.Node.Invariant.{IsSolvent}
use ndif.Cluster.Cluster.{
  Cluster, World, DeploymentConfig, ModelDeployResult, DeployResponse, DeployError,
  could_not_accommodate,
}
use ndif.Cluster.Cluster.Surveying.{Managed}
use ndif.Cluster.Cluster.Rounds.{IsWorld, Finished, place_replicas-Finished}
use ndif.Cluster.Cluster.Deploying.{
  Progress, Sized, evaluate_sizes, Sizes, with_size, result_of, bigger, key_of, place_replicas,
  deploy_model, deploy_models, deploy, is_bare, contracted,
}

-- Every model has a replica or an error.
abbrev pub IsContracted : Dict ModelDeployResult → Type 0
IsContracted = All (λ e. is_bare e.1 ≡ false)

-- The nodes are managed, as solvent as they were, and the response keeps its contract.
pub record Answered (before : Dict Node) (r : Cluster × DeployResponse) : Type 0 where
  pub managed : Managed r.0.nodes
  pub solvent : All (λ e. IsSolvent e.1) before → All (λ e. IsSolvent e.1) r.0.nodes
  pub contract : IsContracted r.1.results

stated-full :
    (rids : List ReplicaId) (e : DeployError)
    → is_bare (record { replicas = rids; error = some e }) ≡ false
stated-full [] e = refl
stated-full (rid ∷ rids) e = refl

contracted-full : (r : ModelDeployResult) → is_bare (contracted r) ≡ false
unfolding contracted
contracted-full r = elim (Bool-cases (is_bare r)) [
  | inl e ↦ rw e (stated-full r.replicas could_not_accommodate)
  | inr e ↦ rw e e
]

-- The nodes are these, and every failure is stated.
abbrev AsSized : Dict Node → Sizes → Type 0
AsSized nodes s = (s.1.1.nodes ≡ nodes) × IsContracted s.1.0

with_size-AsSized :
    (nodes : Dict Node) (mk : ModelKey) (config : DeploymentConfig) (answer : Answer ℕ) (s : Sizes)
    → AsSized nodes s
    → AsSized nodes (with_size mk config answer s)
with_size-AsSized nodes mk config (Evaluator.ok size) s a = a
with_size-AsSized nodes mk config unreachable s a = (a.0, (refl, a.1))
with_size-AsSized nodes mk config failed s a = (a.0, (refl, a.1))

evaluate_sizes-AsSized :
    (w : World) (configs : Dict DeploymentConfig) (c : Cluster)
    → AsSized c.nodes (evaluate_sizes w configs c)
unfolding evaluate_sizes
evaluate_sizes-AsSized w [] c = (refl, tt)
evaluate_sizes-AsSized w ((mk, config) ∷ configs) c =
    let (answer, evaluator) =
      size_of w.hub c.evaluator mk config.padding_factor config.dtype config.size_bytes
        config.padding_bias in
    with_size-AsSized c.nodes mk config answer
      (evaluate_sizes w configs (record c { evaluator = evaluator }))
      (evaluate_sizes-AsSized w configs (record c { evaluator = evaluator }))

module _ (w : World) (good : IsWorld w) (now : ℕ) (all_keys : Excluded) where
  deploy_model-Answered :
      (m : Sized) (s : Cluster × DeployResponse)
      → Managed s.0.nodes
      → IsContracted s.1.results
      → Spared (deploy_model w now all_keys m s) (Answered s.0.nodes)
  unfolding deploy_model
  deploy_model-Answered m s v c =
      let p : Progress = record {
        cluster = s.0;
        result = result_of m.model_key s.1.results;
        evictions = s.1.evictions;
        change = s.1.change;
      } in
      >>=-Spared (Finished m.config.replicas p) (Answered s.0.nodes)
        (place_replicas w now all_keys m.config.replicas m.model_key m.size m.config p) _
        (place_replicas-Finished w good now all_keys m.config.replicas m.model_key m.size m.config p
          v)
        (λ p' f. record {
          managed = f.managed;
          solvent = f.solvent;
          contract =
              set-All (λ e. is_bare e.1 ≡ false) m.model_key (contracted p'.result) s.1.results
                (contracted-full p'.result) c;
        })

  deploy_models-Answered :
      (ms : List Sized) (s : Cluster × DeployResponse)
      → Managed s.0.nodes
      → IsContracted s.1.results
      → Spared (deploy_models w now all_keys ms s) (Answered s.0.nodes)
  unfolding deploy_models
  deploy_models-Answered [] s v c = record { managed = v; solvent = λ t. t; contract = c }
  deploy_models-Answered (m ∷ ms) s v c =
      >>=-Spared (Answered s.0.nodes) (Answered s.0.nodes) (deploy_model w now all_keys m s) _
        (deploy_model-Answered m s v c)
        (λ s' a.
          Spared_imp (Answered s'.0.nodes) (Answered s.0.nodes) (deploy_models w now all_keys ms s')
            (λ r q b. record {
              managed = b.managed;
              solvent = λ t. b.solvent (a.solvent t);
              contract = b.contract;
            })
            (deploy_models-Answered ms s' a.managed a.contract))

-- For a cluster whose nodes all satisfy their invariant, where a set is listed as it is, a choice is
-- one of the candidates and fresh ids are unused, and whatever the Hub answers, `Cluster.deploy` raises no `KeyError`: unless evaluating a node raises, the nodes all satisfy
-- their invariant again, no card and no CPU cache is promised beyond its memory if none was before,
-- and every result has a replica or an error.
pub deploy-Answered :
    (w : World) (good : IsWorld w) (now : ℕ) (configs : Dict DeploymentConfig) (cluster : Cluster)
    → Managed cluster.nodes
    → Spared (deploy w now configs cluster) (Answered cluster.nodes)
unfolding deploy
deploy-Answered w good now configs cluster m =
    let sizes = evaluate_sizes w configs cluster in
    let a = evaluate_sizes-AsSized w configs cluster in
    subst (λ nodes. Spared (deploy w now configs cluster) (Answered nodes)) a.0
      (deploy_models-Answered w good now (map key_of configs) (sort bigger sizes.0)
        (sizes.1.1, record { results = sizes.1.0; evictions = []; change = false }) (rw a.0 m) a.1)
