-- ===== src/Cluster/Cluster/Rounds.antt =====
-- cluster.py: the loop of `Cluster.deploy` over the replicas of a model.
use mathlib.Core.Path.{subst}
use ndif.Prelude.{
  ℕ, zero, suc, ◌+◌, ◌≡◌, refl, ap, ◌⊎◌, ◌∙◌, Bool, true, false, none, some, List, [], ◌∷◌, ◌++◌,
  All, ◌==◌, Bool-cases, inl, inr, length, get_elem?, arith,
}
use ndif.Prelude.Dict.{Dict, lookup, set, set-All, set-Unique}
use ndif.Prelude.Results.{Returns, ◌>>=◌, Spared, >>=-Spared, Spared_imp}
use ndif.Evaluator.{ModelKey}
use ndif.Cluster.Deployment.{NodeId, ReplicaId}
use ndif.Cluster.Replicas.{find}
use ndif.Cluster.Node.{Node, Excluded}
use ndif.Cluster.Node.Invariant.{IsSolvent}
use ndif.Cluster.Placement.{Candidate}
use ndif.Cluster.Placement.Keys.{IsListing}
use ndif.Cluster.Placing.{deploy-Deployed}
use ndif.Cluster.Cluster.{
  Cluster, World, DeploymentConfig, DeployError, placement, served_by, place_on, survey,
}
use ndif.Cluster.Cluster.Surveying.{IsManaged, Managed, Offered, survey-Offered}
use ndif.Cluster.Cluster.Deploying.{
  Progress, try_on, try_best, place_replica, place_replicas, with_replica, asked_limit, is_refused,
}

-- What the code relies on: a set is listed as it is, a choice is one of the candidates, and no
-- replica has the fresh id.
pub record IsWorld (w : World) : Type 0 where
  pub listing : IsListing w.order
  pub chosen :
      (c : NodeId × Candidate) (cs : Dict Candidate)
      → (i : ℕ) × (get_elem? (c ∷ cs) i ≡ some (w.choice c cs))
  pub fresh :
      (nodes : Dict Node) (mk : ModelKey) (id : NodeId) (node : Node)
      → lookup id nodes ≡ some node
      → find mk (w.fresh nodes mk) node.deployments ≡ none

get_elem?-All :
    {A : Type 0} (P : A → Type 0) (xs : List A) (i : ℕ) (x : A)
    → All P xs
    → get_elem? xs i ≡ some x
    → P x
get_elem?-All P [] i x a h = absurd (ground arith)
get_elem?-All P (y ∷ ys) zero x a h = subst P (ground arith) a.0
get_elem?-All P (y ∷ ys) (suc i) x a h = get_elem?-All P ys i x a.1 h

-- The nodes are sound, and as solvent as they were.
record Kept (before after : Dict Node) : Type 0 where
  managed : Managed after
  solvent : All (λ e. IsSolvent e.1) before → All (λ e. IsSolvent e.1) after

lookup-IsSolvent :
    (id : NodeId) (node : Node) (nodes : Dict Node)
    → lookup id nodes ≡ some node
    → All (λ e. IsSolvent e.1) nodes
    → IsSolvent node
unfolding lookup
lookup-IsSolvent id node [] h a = absurd (ground arith)
lookup-IsSolvent id node ((j, n) ∷ nodes) h a = elim (Bool-cases (j == id)) [
  | inl e ↦ subst IsSolvent (ground arith) a.0
  | inr e ↦ lookup-IsSolvent id node nodes (ground arith) a.1
]

same-Kept : (nodes : Dict Node) → Managed nodes → Kept nodes nodes
same-Kept nodes m = record { managed = m; solvent = λ s. s }

-- One round: a replica more, or an error.
record Advanced (p : Progress) (r : Bool × Progress) : Type 0 where
  kept : Kept p.cluster.nodes r.1.cluster.nodes
  outcome :
      (r.0 ≡ true) × (length r.1.result.replicas ≡ suc (length p.result.replicas))
      ⊎ (r.0 ≡ false) × ((e : DeployError) × (r.1.result.error ≡ some e))

-- The loop: all the replicas, or an error.
pub record Finished (rounds : ℕ) (p p' : Progress) : Type 0 where
  pub managed : Managed p'.cluster.nodes
  pub solvent : All (λ e. IsSolvent e.1) p.cluster.nodes → All (λ e. IsSolvent e.1) p'.cluster.nodes
  pub outcome :
      ((e : DeployError) × (p'.result.error ≡ some e))
      ⊎ (length p'.result.replicas ≡ length p.result.replicas + rounds)

length-snoc : (xs : List ReplicaId) (x : ReplicaId) → length (xs ++ x ∷ []) ≡ suc (length xs)
length-snoc [] x = refl
length-snoc (y ∷ ys) x = ap suc (length-snoc ys x)

one_more :
    (rounds : ℕ) (p p1 p' : Progress)
    → Kept p.cluster.nodes p1.cluster.nodes
    → length p1.result.replicas ≡ suc (length p.result.replicas)
    → Finished rounds p1 p'
    → Finished (suc rounds) p p'
one_more rounds p p1 p' k n f = record {
  managed = f.managed;
  solvent = λ s. f.solvent (k.solvent s);
  outcome = elim f.outcome [ inl e ↦ inl e | inr m ↦ inr (omega (arith, m, n)) ];
}

module _ (w : World) (good : IsWorld w) (now : ℕ) (all_keys : Excluded) where
  place_on-Kept :
      (mk : ModelKey) (size : ℕ) (config : DeploymentConfig) (id : NodeId) (c : Candidate)
      (cluster : Cluster)
      → Managed cluster.nodes
      → Offered cluster.nodes now config.pinned all_keys (id, c)
      → Returns
          (place_on w now all_keys mk size config id c cluster)
          (λ r. Kept cluster.nodes r.0.nodes)
  unfolding place_on
  place_on-Kept mk size config id c cluster m (node, found, own, inv, sound) =
      let p =
        placement w now all_keys mk size config c
          (served_by w now all_keys mk config c cluster).0 in
      let (done, q, d) =
        deploy-Deployed w.classes now all_keys (w.fresh cluster.nodes mk) p node inv sound
          (good.fresh cluster.nodes mk id node found) in
      let cluster' = record cluster {
        nodes = set id done.0 cluster.nodes;
        evaluator = (served_by w now all_keys mk config c cluster).1;
      } in
      (
        (cluster', done.1),
        rw (found, q, ◌>>=◌) refl,
        record {
          managed = record {
            unique = set-Unique id done.0 cluster.nodes m.unique;
            each = set-All IsManaged id done.0 cluster.nodes (d.same_id ∙ own, d.inv) m.each;
          };
          solvent = λ s.
              set-All (λ e. IsSolvent e.1) id done.0 cluster.nodes
                (d.solvent (lookup-IsSolvent id node cluster.nodes found s)) s;
        },
      )

  try_on-Advanced :
      (mk : ModelKey) (size : ℕ) (config : DeploymentConfig) (candidates : Dict Candidate)
      (id : NodeId) (c : Candidate) (p : Progress)
      → Managed p.cluster.nodes
      → Offered p.cluster.nodes now config.pinned all_keys (id, c)
      → Returns (try_on w now all_keys mk size config candidates (id, c) p) (Advanced p)
  unfolding try_on
  try_on-Advanced mk size config candidates id c p m o =
      elim (Bool-cases (is_refused c.candidate_level)) [
        | inl e ↦ rw e (
          _,
          refl,
          record { kept = same-Kept p.cluster.nodes m; outcome = inr (refl, (_, refl)) },
        )
        | inr e ↦
            let (r, q, k) = place_on-Kept mk size config id c p.cluster m o in
            rw e (
              (true, with_replica r.0 r.1 c p),
              rw (q, ◌>>=◌) refl,
              record { kept = k; outcome = inl (refl, length-snoc p.result.replicas r.1) },
            )
      ]

  try_best-Advanced :
      (mk : ModelKey) (size : ℕ) (config : DeploymentConfig) (candidates : Dict Candidate)
      (p : Progress)
      → Managed p.cluster.nodes
      → All (Offered p.cluster.nodes now config.pinned all_keys) candidates
      → Returns (try_best w now all_keys mk size config candidates p) (Advanced p)
  unfolding try_best
  try_best-Advanced mk size config [] p m a =
      (_, refl, record { kept = same-Kept p.cluster.nodes m; outcome = inr (refl, (_, refl)) })
  try_best-Advanced mk size config (c ∷ cs) p m a =
      let (i, e) = good.chosen c cs in
      try_on-Advanced mk size config (c ∷ cs) (w.choice c cs).0 (w.choice c cs).1 p m (
        get_elem?-All (Offered p.cluster.nodes now config.pinned all_keys) (c ∷ cs) i
          (w.choice c cs) a e)

  place_replica-Advanced :
      (mk : ModelKey) (size : ℕ) (config : DeploymentConfig) (p : Progress)
      → Managed p.cluster.nodes
      → Spared (place_replica w now all_keys mk size config p) (Advanced p)
  unfolding place_replica
  place_replica-Advanced mk size config p m =
      let (limit, p') = asked_limit w mk config p in
      >>=-Spared (λ b. All (Offered p.cluster.nodes now config.pinned all_keys) b.1) (Advanced p)
        (survey w now all_keys mk size config limit p.cluster.nodes (none, []))
        (λ best. try_best w now all_keys mk size config best.1 p')
        (survey-Offered w now all_keys mk size config limit p.cluster.nodes good.listing m)
        (λ best a.
          (let (r, q, v) = try_best-Advanced mk size config best.1 p' m a in
            rw q (record { kept = v.kept; outcome = v.outcome })))

  -- For nodes that all satisfy their invariant, where a set is listed as it is, a choice is one of
  -- the candidates and fresh ids are unused, the loop of `Cluster.deploy` over the replicas of a model
  -- raises no `KeyError`: unless evaluating a node raises, the nodes satisfy their invariant again, no
  -- card and no CPU cache is promised beyond its memory if none was before, and either all the
  -- replicas that were asked for were added to the result or the result states an error.
  pub place_replicas-Finished :
      (rounds : ℕ) (mk : ModelKey) (size : ℕ) (config : DeploymentConfig) (p : Progress)
      → Managed p.cluster.nodes
      → Spared (place_replicas w now all_keys rounds mk size config p) (Finished rounds p)
  unfolding place_replicas
  place_replicas-Finished zero mk size config p m = record {
    managed = m;
    solvent = λ s. s;
    outcome = inr (omega arith);
  }
  place_replicas-Finished (suc rounds) mk size config p m =
      >>=-Spared (Advanced p) (Finished (suc rounds) p)
        (place_replica w now all_keys mk size config p) _
        (place_replica-Advanced mk size config p m)
        (λ r v. elim v.outcome [
          | inl (e, n) ↦ rw e (
              Spared_imp (Finished rounds r.1) (Finished (suc rounds) p)
                (place_replicas w now all_keys rounds mk size config r.1)
                (λ p' q f. one_more rounds p r.1 p' v.kept n f)
                (place_replicas-Finished rounds mk size config r.1 v.kept.managed))
          | inr (e, stated) ↦
              rw e (record {
                managed = v.kept.managed;
                solvent = v.kept.solvent;
                outcome = inl stated;
              })
        ])
