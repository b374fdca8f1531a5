-- ===== src/Cluster/Cluster/Surveying.antt =====
-- cluster.py: the loop of `Cluster.deploy` over the nodes.
use ndif.Prelude.{
  ℕ, ◌≡◌, Bool, Option, none, some, List, [], ◌∷◌, All, ltb, ◌==◌, Bool-cases, refl, inl, inr, ap,
  ◌∙◌, All_imp, arith,
}
use ndif.Prelude.Dict.{Dict, lookup, set-All, Unique}
use ndif.Prelude.Results.{ok, Spared, >>=-Spared, Spared_imp}
use ndif.Evaluator.{ModelKey}
use ndif.Cluster.Deployment.{NodeId}
use ndif.Cluster.Replicas.{Key}
use ndif.Cluster.Node.{Node, Excluded}
use ndif.Cluster.Node.Invariant.{Inv}
use ndif.Cluster.Placement.{Candidate, evaluate, weigh_up, gpus_needed, share, level_value}
use ndif.Cluster.Placement.Keys.{IsListing}
use ndif.Cluster.Placement.Sound.{IsSound, evaluate-IsSound}
use ndif.Cluster.Cluster.{World, DeploymentConfig, Best, consider, survey}

-- Every node stands under its own id, and its books are balanced.
abbrev pub IsManaged : NodeId × Node → Type 0
IsManaged (id, node) = (node.id ≡ id) × Inv node

pub record Managed (nodes : Dict Node) : Type 0 where
  pub unique : Unique nodes
  pub each : All IsManaged nodes

evaluate-Spared :
    (order : List Key → List Key) (node : Node) (now : ℕ) (mk : ModelKey) (size : ℕ) (pinned : Bool)
    (exclude : Excluded) (max_tp gpus per : Option ℕ)
    → Spared (evaluate order node now mk size pinned exclude max_tp gpus per) (λ c. Unit {0})
unfolding evaluate gpus_needed weigh_up share
evaluate-Spared order node now mk size pinned exclude max_tp gpus per = ground arith

-- A sound candidate of the node that it names.
abbrev pub Offered : Dict Node → ℕ → Bool → Excluded → NodeId × Candidate → Type 0
Offered nodes now pinned exclude (id, c) =
    (node : Node) × (lookup id nodes ≡ some node)
    × (node.id ≡ id)
    × Inv node
    × IsSound node now pinned exclude c.evictions c.gpus

module _ (P : NodeId × Candidate → Type 0) where
  consider-All :
      (id : NodeId) (c : Candidate) (best : Best)
      → P (id, c)
      → All P best.1
      → All P (consider id c best).1
  unfolding consider
  consider-All id c (none, candidates) p a = (p, tt)
  consider-All id c (some best, candidates) p a =
      elim (Bool-cases (ltb (level_value c.candidate_level) best)) [
        | inl e ↦ rw e (p, tt)
        | inr e ↦ elim (Bool-cases (level_value c.candidate_level == best)) [
          | inl q ↦ rw (e, q) (set-All P id c candidates p a)
          | inr q ↦ rw (e, q) a
        ]
      ]

  survey-All :
      (w : World) (now : ℕ) (exclude : Excluded) (mk : ModelKey) (size : ℕ)
      (config : DeploymentConfig) (limit : Option ℕ) (nodes : Dict Node) (best : Best)
      → All
          (λ e.
            (c : Candidate)
            → evaluate w.order e.1 now mk size config.pinned exclude limit config.gpus none ≡ ok c
            → P (e.1.id, c))
          nodes
      → All P best.1
      → Spared (survey w now exclude mk size config limit nodes best) (λ b. All P b.1)
  unfolding survey
  survey-All w now exclude mk size config limit [] best f a = a
  survey-All w now exclude mk size config limit ((id, node) ∷ nodes) best f a =
      >>=-Spared (λ c. P (node.id, c)) (λ b. All P b.1)
        (evaluate w.order node now mk size config.pinned exclude limit config.gpus none) _
        (Spared_imp (λ c. Unit {0}) (λ c. P (node.id, c))
          (evaluate w.order node now mk size config.pinned exclude limit config.gpus none)
          (λ c e u. f.0 c e)
          (evaluate-Spared w.order node now mk size config.pinned exclude limit config.gpus none))
        (λ c p.
          survey-All w now exclude mk size config limit nodes (consider node.id c best) f.1
            (consider-All node.id c best p a))

-- What is known of every entry, with the look-up that finds it.
pub lookup-All :
    {V : Type 0} (P : ℕ × V → Type 0) (d : Dict V)
    → Unique d
    → All P d
    → All (λ e. (lookup e.0 d ≡ some e.1) × P e) d
unfolding lookup
lookup-All P [] u a = tt
lookup-All P ((k, v) ∷ d) u a = (
  (ground arith, a.0),
  All_imp (λ e. (lookup e.0 d ≡ some e.1) × P e) (λ e. (lookup e.0 ((k, v) ∷ d) ≡ some e.1) × P e) d
      (λ e p. (ground (arith, u.0, p.0), p.1)) (lookup-All P d u.1 a.1),
)

pub survey-Offered :
    (w : World) (now : ℕ) (exclude : Excluded) (mk : ModelKey) (size : ℕ)
    (config : DeploymentConfig) (limit : Option ℕ) (nodes : Dict Node)
    → IsListing w.order
    → Managed nodes
    → Spared
        (survey w now exclude mk size config limit nodes (none, []))
        (λ b. All (Offered nodes now config.pinned exclude) b.1)
survey-Offered w now exclude mk size config limit nodes listing m =
    survey-All (Offered nodes now config.pinned exclude) w now exclude mk size config limit nodes
      (none, [])
      (All_imp (λ e. (lookup e.0 nodes ≡ some e.1) × IsManaged e)
        (λ e.
          (c : Candidate)
          → evaluate w.order e.1 now mk size config.pinned exclude limit config.gpus none ≡ ok c
          → Offered nodes now config.pinned exclude (e.1.id, c))
        nodes
        (λ e p c q. (
          e.1,
          ap (λ id. lookup id nodes) p.1.0 ∙ p.0,
          refl,
          p.1.1,
          evaluate-IsSound w.order listing e.1 p.1.1.cards.distinct p.1.1.hot_table now
              config.pinned exclude mk size limit config.gpus none c q,
        ))
        (lookup-All IsManaged nodes m.unique m.each))
      tt
