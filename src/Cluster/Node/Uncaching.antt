-- ===== src/Cluster/Node/Uncaching.antt =====
-- node.py: what evicting WARM replicas does to a node.
use ndif.Prelude.{ℕ, ◌+◌, ◌≡◌, refl, ◌∙◌, false, none, some, List, [], ◌∷◌, All, sum_of, arith}
use ndif.Prelude.Int.{pos, pos_part, neg_part, ◌+ℤ◌, +ℤ_parts}
use ndif.Prelude.Results.{Returns, ◌>>=◌}
use ndif.Evaluator.{ModelKey}
use ndif.Cluster.Deployment.{Deployment, ReplicaId}
use ndif.Cluster.Replicas.{Replicas, find, drop}
use ndif.Cluster.Replicas.Weights.{total, IsTable, total-drop}
use ndif.Cluster.Replicas.Entries.{find-drop, drop-IsTable}
use ndif.Cluster.Node.{Node, uncache, uncache_all}
use ndif.Cluster.Node.Caching.{Stored, Evictable, same_replica}
use ndif.Cluster.Node.Invariant.{size_weight}

-- `freed` bytes of WARM replicas went, and nothing else changed.
pub record Uncached (n : Node) (freed : ℕ) (n' : Node) : Type 0 where
  pub same_id : n'.id ≡ n.id
  pub same_hot : n'.deployments ≡ n.deployments
  pub same_gpus : n'.gpu_resources ≡ n.gpu_resources
  pub same_memory : n'.cpu_resources.memory_bytes ≡ n.cpu_resources.memory_bytes
  pub table : IsTable n'.cache
  pub shrinks :
      (mk : ModelKey) (rid : ReplicaId) (d : Deployment)
      → find mk rid n'.cache ≡ some d
      → find mk rid n.cache ≡ some d
  pub gone :
      (mk : ModelKey) (rid : ReplicaId) → find mk rid n.cache ≡ none → find mk rid n'.cache ≡ none
  pub lighter : total size_weight n'.cache + freed ≡ total size_weight n.cache
  pub given_back :
      pos_part n'.cpu_resources.available_memory_bytes
        + neg_part n.cpu_resources.available_memory_bytes
      ≡ pos_part n.cpu_resources.available_memory_bytes
        + neg_part n'.cpu_resources.available_memory_bytes
        + freed

-- Evicting a replica that is WARM, from a cache whose replicas stand once, raises nothing, removes
-- this replica from the cache, gives back its size, and changes no HOT replica and no card.
pub uncache-Uncached :
    (mk : ModelKey) (rid : ReplicaId) (d : Deployment) (n : Node)
    → IsTable n.cache
    → find mk rid n.cache ≡ some d
    → Returns
        (uncache mk rid n)
        (λ n'. Uncached n d.size_bytes n' × (n'.cache ≡ drop mk rid n.cache))
unfolding uncache
uncache-Uncached mk rid d n t e = (
  record n {
    cache = drop mk rid n.cache;
    cpu_resources = record (n.cpu_resources) {
      available_memory_bytes = n.cpu_resources.available_memory_bytes +ℤ pos d.size_bytes;
    };
  },
  ground arith,
  (
    record {
      same_id = refl;
      same_hot = refl;
      same_gpus = refl;
      same_memory = refl;
      table = drop-IsTable mk rid n.cache t;
      shrinks = λ mk' rid' d' h. ground (arith, find-drop mk mk' rid rid' n.cache t);
      gone = λ mk' rid' h. ground (arith, find-drop mk mk' rid rid' n.cache t);
      lighter = total-drop size_weight mk rid d n.cache e;
      given_back =
          omega (arith, +ℤ_parts n.cpu_resources.available_memory_bytes (pos d.size_bytes));
    },
    refl,
  ),
)

-- The replicas that are told apart from an evicted one stay.
Stored-drop :
    (d : Deployment) (ds : List Deployment) (r : Replicas)
    → IsTable r
    → All (λ e. same_replica d e ≡ false) ds
    → All (Stored r) ds
    → All (Stored (drop d.model_key d.replica_id r)) ds
Stored-drop d [] r t a s = tt
Stored-drop d (e ∷ ds) r t a s = (
  ground (arith, a.0, s.0, find-drop d.model_key e.model_key d.replica_id e.replica_id r t),
  Stored-drop d ds r t a.1 s.1,
)

Uncached-trans :
    (n n' n'' : Node) (a b : ℕ) → Uncached n a n' → Uncached n' b n'' → Uncached n (a + b) n''
Uncached-trans n n' n'' a b u v = record {
  same_id = v.same_id ∙ u.same_id;
  same_hot = v.same_hot ∙ u.same_hot;
  same_gpus = v.same_gpus ∙ u.same_gpus;
  same_memory = v.same_memory ∙ u.same_memory;
  table = v.table;
  shrinks = λ mk rid d h. u.shrinks mk rid d (v.shrinks mk rid d h);
  gone = λ mk rid h. v.gone mk rid (u.gone mk rid h);
  lighter = omega (arith, u.lighter, v.lighter);
  given_back = omega (arith, u.given_back, v.given_back);
}

-- A list of stored replicas that are told apart can be evicted one after the other.
pub uncache_all-Uncached :
    (ds : List Deployment) (n : Node)
    → IsTable n.cache
    → Evictable n.cache ds
    → Returns (uncache_all ds n) (λ n'. Uncached n (sum_of (λ d. d.size_bytes) ds) n')
unfolding uncache_all sum_of
uncache_all-Uncached [] n t ev = (
  n,
  refl,
  record {
    same_id = refl;
    same_hot = refl;
    same_gpus = refl;
    same_memory = refl;
    table = t;
    shrinks = λ mk rid d h. h;
    gone = λ mk rid h. h;
    lighter = omega arith;
    given_back = omega arith;
  },
)
uncache_all-Uncached (d ∷ ds) n t ev =
    let (n', e, uc) = uncache-Uncached d.model_key d.replica_id d n t ev.stored.0 in
    let kept : Evictable n'.cache ds = record {
      stored = rw uc.1 (Stored-drop d ds n.cache t ev.separate.0 ev.stored.1);
      separate = ev.separate.1;
    } in
    let (n'', e', v) = uncache_all-Uncached ds n' uc.0.table kept in
    (
      n'',
      rw (e, ◌>>=◌) e',
      Uncached-trans n n' n'' d.size_bytes (sum_of (λ x. x.size_bytes) ds) uc.0 v,
    )
