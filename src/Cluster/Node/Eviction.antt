-- ===== src/Cluster/Node/Eviction.antt =====
-- node.py: what `evict` does to a HOT replica.
use ndif.Prelude.{
  ℕ, ◌+◌, ◌≤◌, ◌≡◌, refl, Option, none, some, List, ◌⊎◌, inl, inr, map, All, arith, Bool-cases,
  if◌then◌else◌, true,
}
use ndif.Prelude.Int.{pos, pos_part, neg_part, ◌-ℤ◌, -ℤ_parts}
use ndif.Prelude.Results.{Returns, ◌>>=◌}
use ndif.Evaluator.{ModelKey}
use ndif.Cluster.Resources.{Gpu, plus, allocate_cpu}
use ndif.Cluster.Resources.Charges.{charged, release_lem}
use ndif.Cluster.Deployment.{Deployment, ReplicaId, Classes, cacheable}
use ndif.Cluster.Replicas.{Replicas, find, drop, put}
use ndif.Cluster.Replicas.Weights.{IsTable, total-put}
use ndif.Cluster.Replicas.Entries.{same_key, find-drop, find-put, drop-IsTable, put-IsTable}
use ndif.Cluster.Node.{Node, Excluded, find_cache_evictions, demote, demoted, with_gpus, evict_hot}
use ndif.Cluster.Node.Caching.{find_cache_evictions-Evictable}
use ndif.Cluster.Node.Uncaching.{Uncached, uncache_all-Uncached}
use ndif.Cluster.Node.Books.{
  layout, layout-charged, IsCovered, sign, released-Cards, released-IsCovered,
}
use ndif.Cluster.Node.Invariant.{Inv, IsSolvent, Named, Disjoint, size_weight}

-- The replica left the cards; the node is as sound as before.
pub record Evicted (n : Node) (mk : ModelKey) (rid : ReplicaId) (n' : Node) : Type 0 where
  pub inv : Inv n'
  pub solvent : IsSolvent n → IsSolvent n'
  pub same_id : n'.id ≡ n.id
  pub same_layout : layout n'.gpu_resources.gpus ≡ layout n.gpu_resources.gpus
  pub hot : n'.deployments ≡ drop mk rid n.deployments
  pub warm :
      (mk' : ModelKey) (rid' : ReplicaId) (d : Deployment)
      → find mk' rid' n'.cache ≡ some d
      → (same_key mk rid mk' rid' ≡ true) ⊎ (find mk' rid' n.cache ≡ some d)

drop-Named :
    (mk : ModelKey) (rid : ReplicaId) (r : Replicas) → IsTable r → Named r → Named (drop mk rid r)
drop-Named mk rid r t n mk' rid' d h = n mk' rid' d (ground (arith, find-drop mk mk' rid rid' r t))

module _ (n : Node) (inv : Inv n) (mk : ModelKey) (rid : ReplicaId) (d : Deployment)
    (e : find mk rid n.deployments ≡ some d) where
  abbrev freed_gpus : List Gpu
  freed_gpus = map (charged plus d.gpus) n.gpu_resources.gpus

  abbrev released : Node
  released = record n { gpu_resources = record (n.gpu_resources) { gpus = freed_gpus } }

  released-solvent : IsSolvent n → All IsCovered freed_gpus
  released-solvent s = released-IsCovered d.gpus n.gpu_resources.gpus s.gpus

  -- Removed outright.
  pub removed-Evicted :
      Evicted n mk rid (record released { deployments = drop mk rid n.deployments })
  removed-Evicted = record {
    inv = record {
      hot_table = drop-IsTable mk rid n.deployments inv.hot_table;
      warm_table = inv.warm_table;
      disjoint = λ mk' rid' d' h.
          inv.disjoint mk' rid' d'
            (ground (arith, find-drop mk mk' rid rid' n.deployments inv.hot_table));
      hot_named = drop-Named mk rid n.deployments inv.hot_table inv.hot_named;
      warm_named = inv.warm_named;
      cards = released-Cards mk rid d n.gpu_resources.gpus n.deployments inv.hot_table e inv.cards;
      cpu_balanced = inv.cpu_balanced;
    };
    solvent = λ s. record { gpus = released-solvent s; cpu = s.cpu };
    same_id = refl;
    same_layout = layout-charged plus d.gpus n.gpu_resources.gpus;
    hot = refl;
    warm = λ mk' rid' d' h. inr h;
  }

  -- Demoted, after WARM replicas of `freed` bytes made room.
  module _ (now freed : ℕ) (n' : Node) (u : Uncached released freed n')
      (room : d.size_bytes + neg_part n.cpu_resources.available_memory_bytes
        ≤ pos_part n.cpu_resources.available_memory_bytes + freed) where
    abbrev parked : Node
    parked = record n' {
      deployments = drop mk rid n'.deployments;
      cpu_resources = allocate_cpu d.size_bytes n'.cpu_resources;
      cache = put mk rid (demoted n'.id rid d now) n'.cache;
    }

    absent : find mk rid n'.cache ≡ none
    absent = u.gone mk rid (inv.disjoint mk rid d e)

    parked-Disjoint :
        Disjoint (drop mk rid n.deployments) (put mk rid (demoted n'.id rid d now) n'.cache)
    parked-Disjoint mk' rid' d' h = ground (
      arith,
      find-drop mk mk' rid rid' n.deployments inv.hot_table,
      find-put mk mk' rid rid' n'.cache (demoted n'.id rid d now),
      inv.disjoint mk' rid' d',
      u.gone mk' rid',
    )

    parked-Named : Named (put mk rid (demoted n'.id rid d now) n'.cache)
    parked-Named mk' rid' d' h = ground (
      arith,
      find-put mk mk' rid rid' n'.cache (demoted n'.id rid d now),
      inv.hot_named mk rid d e,
      u.shrinks mk' rid' d',
      inv.warm_named mk' rid' d',
    )

    parked-Inv : Inv parked
    parked-Inv = record {
      hot_table = rw u.same_hot (drop-IsTable mk rid n.deployments inv.hot_table);
      warm_table = put-IsTable mk rid (demoted n'.id rid d now) n'.cache u.table;
      disjoint = rw u.same_hot parked-Disjoint;
      hot_named = rw u.same_hot (drop-Named mk rid n.deployments inv.hot_table inv.hot_named);
      warm_named = parked-Named;
      cards =
          rw (u.same_gpus, u.same_hot)
            (released-Cards mk rid d n.gpu_resources.gpus n.deployments inv.hot_table e inv.cards);
      cpu_balanced = omega (
        arith,
        inv.cpu_balanced,
        u.lighter,
        u.given_back,
        u.same_memory,
        total-put size_weight mk rid (demoted n'.id rid d now) n'.cache absent,
        -ℤ_parts n'.cpu_resources.available_memory_bytes (pos d.size_bytes),
      );
    }

    parked-warm :
        (mk' : ModelKey) (rid' : ReplicaId) (d' : Deployment)
        → find mk' rid' (put mk rid (demoted n'.id rid d now) n'.cache) ≡ some d'
        → (same_key mk rid mk' rid' ≡ true) ⊎ (find mk' rid' n.cache ≡ some d')
    parked-warm mk' rid' d' h = elim (Bool-cases (same_key mk rid mk' rid')) [
      | inl e ↦ inl e
      | inr e ↦ inr (
          u.shrinks mk' rid' d'
            (ground (arith, find-put mk mk' rid rid' n'.cache (demoted n'.id rid d now))))
    ]

    parked-Evicted : Evicted n mk rid parked
    parked-Evicted = record {
      inv = parked-Inv;
      solvent = λ s. record {
        gpus = rw u.same_gpus (released-solvent s);
        cpu = omega (
          arith,
          s.cpu,
          room,
          u.given_back,
          -ℤ_parts n'.cpu_resources.available_memory_bytes (pos d.size_bytes),
          sign (n'.cpu_resources.available_memory_bytes -ℤ pos d.size_bytes),
        );
      };
      same_id = u.same_id;
      same_layout = rw u.same_gpus (layout-charged plus d.gpus n.gpu_resources.gpus);
      hot = rw u.same_hot;
      warm = parked-warm;
    }

  -- Whatever `find_cache_evictions` answered.
  demote-Evicted :
      (now : ℕ) (exclude : Excluded) (found : Option (List Deployment))
      → ((picked : List Deployment)
          → found ≡ some picked
          → find_cache_evictions released d.size_bytes exclude ≡ some picked)
      → Returns (demote mk rid d now found released) (Evicted n mk rid)
  unfolding demote
  demote-Evicted now exclude none h = (_, refl, removed-Evicted)
  demote-Evicted now exclude (some picked) h =
      let (can, room) =
        find_cache_evictions-Evictable exclude released d.size_bytes picked inv.warm_table
          inv.warm_named (h picked refl) in
      let (n', ok_eq, u) = uncache_all-Uncached picked released inv.warm_table can in
      (parked now _ n' u room, rw (ok_eq, ◌>>=◌), parked-Evicted now _ n' u room)

  asked : Classes → Excluded → Option (List Deployment)
  asked classes exclude =
      if cacheable classes d then find_cache_evictions released d.size_bytes exclude else none

  asked_lem :
      (classes : Classes) (exclude : Excluded) (picked : List Deployment)
      → asked classes exclude ≡ some picked
      → find_cache_evictions released d.size_bytes exclude ≡ some picked
  unfolding asked
  asked_lem classes exclude picked h = elim (Bool-cases (cacheable classes d)) [
    | inl c ↦ rw c at h
    | inr c ↦ let wrong : none ≡ some picked = rw c at h in absurd (ground arith)
  ]

  evict_hot-demote :
      (classes : Classes) (now : ℕ) (exclude : Excluded)
      → evict_hot classes now exclude mk rid n
        ≡ demote mk rid d now (asked classes exclude) released
  unfolding evict_hot with_gpus asked
  evict_hot-demote classes now exclude =
      rw
        (
          e,
          release_lem d.gpus n.gpu_resources.gpus inv.cards.distinct (inv.cards.seated mk rid d e),
        )
        refl

  -- A HOT replica of a sound node can be evicted; it leaves the cards and the node stays sound.
  pub evict_hot-Evicted :
      (classes : Classes) (now : ℕ) (exclude : Excluded)
      → Returns (evict_hot classes now exclude mk rid n) (Evicted n mk rid)
  evict_hot-Evicted classes now exclude =
      rw (evict_hot-demote classes now exclude)
        (demote-Evicted now exclude (asked classes exclude) (asked_lem classes exclude))
