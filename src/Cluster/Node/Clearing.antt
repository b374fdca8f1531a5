-- ===== src/Cluster/Node/Clearing.antt =====
-- node.py: what a list of evictions does to a node, and how much memory it brings back.
use ndif.Prelude.{
  ℕ, ◌+◌, ◌≤◌, ◌≡◌, refl, ap, ◌∙◌, true, false, none, some, List, [], ◌∷◌, arith, if◌then◌else◌,
}
use ndif.Prelude.Results.{Returns, ◌>>=◌}
use ndif.Evaluator.{ModelKey}
use ndif.Cluster.Deployment.{Deployment, ReplicaId, Classes}
use ndif.Cluster.Replicas.{Replicas, Key, find}
use ndif.Cluster.Replicas.Weights.{Weight, total, total-drop, total_mono, total_split}
use ndif.Cluster.Replicas.Entries.{same_key, find-drop}
use ndif.Cluster.Node.{Node, Excluded, evict, evict_all, mem_key}
use ndif.Cluster.Node.Books.{layout}
use ndif.Cluster.Node.Invariant.{Inv, IsSolvent}
use ndif.Cluster.Node.Eviction.{Evicted, evict_hot-Evicted}

-- On a node that satisfies its invariant, `evict` of a HOT replica raises nothing and takes exactly
-- this replica off the cards; the invariant holds again, the cards are the same, and no card and no
-- CPU cache is promised beyond its memory if none was before.
pub evict-Evicted :
    (classes : Classes) (now : ℕ) (exclude : Excluded) (mk : ModelKey) (rid : ReplicaId)
    (d : Deployment) (n : Node)
    → Inv n
    → find mk rid n.deployments ≡ some d
    → Returns (evict classes now exclude mk rid n) (Evicted n mk rid)
unfolding evict
evict-Evicted classes now exclude mk rid d n inv e =
    let cold : find mk rid n.cache ≡ none = inv.disjoint mk rid d e in
    rw cold (evict_hot-Evicted n inv mk rid d e classes now exclude)

-- No key is listed twice.
abbrev pub Once : List Key → Type 0
Once [] = Unit {0}
Once ((mk, rid) ∷ keys) = (mem_key mk rid keys ≡ false) × Once keys

-- Every key names a HOT replica.
abbrev pub AllHot : Replicas → List Key → Type 0
AllHot hot keys =
    (mk : ModelKey) (rid : ReplicaId)
    → mem_key mk rid keys ≡ true
    → (d : Deployment) × (find mk rid hot ≡ some d)

-- The listed replicas left the cards, the others did not, and the node is as sound as before.
pub record Cleared (n : Node) (keys : List Key) (n' : Node) : Type 0 where
  pub inv : Inv n'
  pub solvent : IsSolvent n → IsSolvent n'
  pub same_id : n'.id ≡ n.id
  pub same_layout : layout n'.gpu_resources.gpus ≡ layout n.gpu_resources.gpus
  pub hot :
      (mk : ModelKey) (rid : ReplicaId)
      → find mk rid n'.deployments
        ≡ (if mem_key mk rid keys then none else find mk rid n.deployments)
  pub lighter : (w : Weight) → total w n'.deployments ≤ total w n.deployments

-- One eviction, then the others.
module _ (n n' : Node) (mk : ModelKey) (rid : ReplicaId) (d : Deployment) (keys : List Key)
    (inv : Inv n) (e : find mk rid n.deployments ≡ some d) (v : Evicted n mk rid n') where
  -- What is HOT once the first replica left.
  left :
      (mk' : ModelKey) (rid' : ReplicaId)
      → find mk' rid' n'.deployments
        ≡ (if same_key mk rid mk' rid' then none else find mk' rid' n.deployments)
  left mk' rid' = ap (find mk' rid') v.hot ∙ find-drop mk mk' rid rid' n.deployments inv.hot_table

  left-AllHot :
      mem_key mk rid keys ≡ false
      → AllHot n.deployments ((mk, rid) ∷ keys)
      → AllHot n'.deployments keys
  unfolding mem_key
  left-AllHot once all mk' rid' h =
      let (d', found) = all mk' rid' (ground arith) in (d', ground (arith, left mk' rid', once))

  first-Cleared : (n'' : Node) → Cleared n' keys n'' → Cleared n ((mk, rid) ∷ keys) n''
  unfolding mem_key
  first-Cleared n'' c = record {
    inv = c.inv;
    solvent = λ s. c.solvent (v.solvent s);
    same_id = c.same_id ∙ v.same_id;
    same_layout = c.same_layout ∙ v.same_layout;
    hot = λ mk' rid'. ground (arith, c.hot mk' rid', left mk' rid');
    lighter =
        λ w. omega (arith, c.lighter w, ap (total w) v.hot, total-drop w mk rid d n.deployments e);
  }

-- On a node that satisfies its invariant, a list of keys of HOT replicas, each listed once, is
-- evicted without an exception; exactly the listed replicas have left the cards, the invariant
-- holds again, the cards are the same, no card and no CPU cache is promised beyond its memory if
-- none was before, and no weight of the HOT replicas grew.
pub evict_all-Cleared :
    (classes : Classes) (now : ℕ) (exclude : Excluded) (keys : List Key) (n : Node)
    → Inv n
    → Once keys
    → AllHot n.deployments keys
    → Returns (evict_all classes now exclude keys n) (Cleared n keys)
unfolding evict_all mem_key
evict_all-Cleared classes now exclude [] n inv once all = (
  n,
  refl,
  record {
    inv = inv;
    solvent = λ s. s;
    same_id = refl;
    same_layout = refl;
    hot = λ mk rid. refl;
    lighter = λ w. omega arith;
  },
)
evict_all-Cleared classes now exclude ((mk, rid) ∷ keys) n inv once all =
    let (d, e) = all mk rid (ground arith) in
    let (n', q, v) = evict-Evicted classes now exclude mk rid d n inv e in
    let (n'', q', c) =
      evict_all-Cleared classes now exclude keys n' v.inv once.1
        (left-AllHot n n' mk rid d keys inv e v once.0 all) in
    (n'', rw (q, ◌>>=◌) q', first-Cleared n n' mk rid d keys inv e v n'' c)

-- What the listed replicas weigh, and what the others do.
abbrev pub inside : List Key → Weight → Weight
inside keys w mk rid d = if mem_key mk rid keys then w mk rid d else 0

abbrev pub outside : List Key → Weight → Weight
outside keys w mk rid d = if mem_key mk rid keys then 0 else w mk rid d

-- The weight of the listed replicas came back.
pub Cleared-total :
    (n n' : Node) (keys : List Key) (w : Weight)
    → Cleared n keys n'
    → total w n'.deployments + total (inside keys w) n.deployments ≤ total w n.deployments
Cleared-total n n' keys w c = omega (
  arith,
  total_split w (inside keys w) (outside keys w) n.deployments (λ mk rid d. ground arith),
  c.lighter (outside keys w),
  total_mono w (outside keys w) n'.deployments c.inv.hot_table
      (λ mk rid d h. ground (arith, c.hot mk rid)),
)
