-- ===== src/Cluster/Node/Caching.antt =====
-- node.py: `find_cache_evictions` and the WARM evictions that it leads to.
use ndif.Prelude.{
  ℕ, ◌+◌, ◌≤◌, ◌≡◌, Bool, true, false, some, List, [], ◌∷◌, map, All, sum_of, arith, Bool-cases,
  Option-cases, ◌⊎◌, leb→le, inl, inr,
}
use ndif.Prelude.Int.{ℤ, pos, pos_part, neg_part, ◌-ℤ◌, leb_ℤ, int_laws, -ℤ_parts}
use ndif.Prelude.Sort.{insert, sort, sort-All, insert-All}
use ndif.Cluster.Deployment.{Deployment}
use ndif.Cluster.Resources.{minus}
use ndif.Cluster.Replicas.{Replicas, find, entries, Entry}
use ndif.Cluster.Replicas.Weights.{IsTable}
use ndif.Cluster.Replicas.Entries.{same_key}
use ndif.Cluster.Replicas.Listing.{Apart, Found, entries-Found, entries-Apart}
use ndif.Cluster.Node.{Node, Excluded, mem, smaller, pick, deployment_of, find_cache_evictions}
use ndif.Cluster.Node.Invariant.{Named}

-- The replica is stored under its own names.
abbrev pub Stored : Replicas → Deployment → Type 0
Stored r d = find d.model_key d.replica_id r ≡ some d

abbrev pub same_replica : Deployment → Deployment → Bool
same_replica d e = same_key d.model_key d.replica_id e.model_key e.replica_id

-- The replicas are told apart by their names.
abbrev pub Separate : List Deployment → Type 0
Separate [] = Unit {0}
Separate (d ∷ ds) = All (λ e. same_replica d e ≡ false) ds × Separate ds

-- A list of WARM replicas that can be evicted one after the other.
pub record Evictable (cache : Replicas) (ds : List Deployment) : Type 0 where
  pub stored : All (Stored cache) ds
  pub separate : Separate ds

cached-Stored :
    (r : Replicas) (es : List Entry)
    → Named r
    → All (Found r) es
    → All (Stored r) (map deployment_of es)
cached-Stored r [] n f = tt
cached-Stored r (e ∷ es) n f =
    (ground (arith, n e.key e.rid e.deployment f.0, f.0), cached-Stored r es n f.1)

-- Keys and names are the same thing of a stored entry.
separate_from :
    (r : Replicas) (e : Entry) (es : List Entry)
    → Named r
    → Found r e
    → All (Found r) es
    → All (λ f. same_key e.key e.rid f.key f.rid ≡ false) es
    → All (λ d. same_replica e.deployment d ≡ false) (map deployment_of es)
separate_from r e [] n g f a = tt
separate_from r e (x ∷ xs) n g f a =
    let one = n e.key e.rid e.deployment g in
    let other = n x.key x.rid x.deployment f.0 in
    (ground (arith, one, other, a.0), separate_from r e xs n g f.1 a.1)

cached-Separate :
    (r : Replicas) (es : List Entry)
    → Named r
    → All (Found r) es
    → Apart es
    → Separate (map deployment_of es)
cached-Separate r [] n f a = tt
cached-Separate r (e ∷ es) n f a =
    (separate_from r e es n f.0 f.1 a.0, cached-Separate r es n f.1 a.1)

insert-Separate :
    (d : Deployment) (ds : List Deployment)
    → All (λ e. same_replica d e ≡ false) ds
    → Separate ds
    → Separate (insert smaller d ds)
unfolding insert
insert-Separate d [] a s = (tt, tt)
insert-Separate d (e ∷ ds) a s = elim (Bool-cases (smaller e d)) [
  | inl b ↦ rw b (
    insert-All smaller (λ f. same_replica e f ≡ false) d ds (ground (arith, a.0)) s.0,
    insert-Separate d ds a.1 s.1,
  )
  | inr b ↦ rw b (a, s)
]

sort-Separate : (ds : List Deployment) → Separate ds → Separate (sort smaller ds)
unfolding sort
sort-Separate [] s = tt
sort-Separate (d ∷ ds) s =
    insert-Separate d (sort smaller ds) (sort-All smaller (λ e. same_replica d e ≡ false) ds s.0)
      (sort-Separate ds s.1)

-- The three ways in which a listed replica leads to an answer.
abbrev Picks : Excluded → ℤ → Deployment → List Deployment → List Deployment → Type 0
Picks exclude needed d ds picked =
    ((mem d.model_key exclude ≡ true) × (pick exclude needed ds ≡ some picked))
    ⊎ ((mem d.model_key exclude ≡ false)
        × (leb_ℤ (minus needed d.size_bytes) (pos 0) ≡ true)
        × (picked ≡ d ∷ []))
    ⊎ ((rest : List Deployment) × (mem d.model_key exclude ≡ false)
        × (pick exclude (minus needed d.size_bytes) ds ≡ some rest)
        × (picked ≡ d ∷ rest))

pick_cases :
    (exclude : Excluded) (needed : ℤ) (d : Deployment) (ds picked : List Deployment)
    → pick exclude needed (d ∷ ds) ≡ some picked
    → Picks exclude needed d ds picked
unfolding pick
pick_cases exclude needed d ds picked h = elim (Bool-cases (mem d.model_key exclude)) [
  | inl e ↦ inl (e, ground arith)
  | inr e ↦ elim (Bool-cases (leb_ℤ (minus needed d.size_bytes) (pos 0))) [
    | inl f ↦ inr (inl (e, f, ground arith))
    | inr f ↦ elim (Option-cases (pick exclude (minus needed d.size_bytes) ds)) [
      | inl g ↦ absurd (ground arith)
      | inr (rest, g) ↦ inr (inr (rest, e, g, ground arith))
    ]
  ]
]

module _ (exclude : Excluded) where
  -- What is picked was listed.
  pick-All {κ} :
      (P : Deployment → Type κ) (needed : ℤ) (ds picked : List Deployment)
      → All P ds
      → pick exclude needed ds ≡ some picked
      → All P picked
  unfolding pick
  pick-All P needed [] picked a h = absurd (ground arith)
  pick-All P needed (d ∷ ds) picked a h = elim (pick_cases exclude needed d ds picked h) [
    | inl (e, g) ↦ pick-All P needed ds picked a.1 g
    | inr (inl (e, f, g)) ↦ rw g (a.0, tt)
    | inr (inr (rest, e, g, k)) ↦ rw k (a.0, pick-All P (minus needed d.size_bytes) ds rest a.1 g)
  ]

  pick-Separate :
      (needed : ℤ) (ds picked : List Deployment)
      → Separate ds
      → pick exclude needed ds ≡ some picked
      → Separate picked
  unfolding pick
  pick-Separate needed [] picked s h = absurd (ground arith)
  pick-Separate needed (d ∷ ds) picked s h = elim (pick_cases exclude needed d ds picked h) [
    | inl (e, g) ↦ pick-Separate needed ds picked s.1 g
    | inr (inl (e, f, g)) ↦ rw g (tt, tt)
    | inr (inr (rest, e, g, k)) ↦ rw k (
      pick-All (λ x. same_replica d x ≡ false) (minus needed d.size_bytes) ds rest s.0 g,
      pick-Separate (minus needed d.size_bytes) ds rest s.1 g,
    )
  ]

  -- What is picked covers what was needed.
  pick-covers :
      (needed : ℤ) (ds picked : List Deployment)
      → pick exclude needed ds ≡ some picked
      → pos_part needed ≤ neg_part needed + sum_of (λ d. d.size_bytes) picked
  unfolding pick sum_of
  pick-covers needed [] picked h = absurd (ground arith)
  pick-covers needed (d ∷ ds) picked h = elim (pick_cases exclude needed d ds picked h) [
    | inl (e, g) ↦ pick-covers needed ds picked g
    | inr (inl (e, f, g)) ↦
        rw g (omega (int_laws, leb→le _ _ f, -ℤ_parts needed (pos d.size_bytes)))
    | inr (inr (rest, e, g, k)) ↦ rw k (
        omega (
          arith,
          pick-covers (minus needed d.size_bytes) ds rest g,
          -ℤ_parts needed (pos d.size_bytes),
        ))
  ]

  -- For a cache whose replicas stand once and under their own names, the list that
  -- `find_cache_evictions` answers with names stored replicas, each once, and the memory left and
  -- their sizes together cover the size asked for.
  pub find_cache_evictions-Evictable :
      (node : Node) (size : ℕ) (picked : List Deployment)
      → IsTable node.cache
      → Named node.cache
      → find_cache_evictions node size exclude ≡ some picked
      → Evictable node.cache picked
        × (size + neg_part node.cpu_resources.available_memory_bytes
            ≤ pos_part node.cpu_resources.available_memory_bytes
              + sum_of (λ d. d.size_bytes) picked)
  unfolding find_cache_evictions sum_of
  find_cache_evictions-Evictable node size picked t n h =
      let available = node.cpu_resources.available_memory_bytes in
      let listed = map deployment_of (entries node.cache) in
      let found = entries-Found node.cache t in
      elim (Bool-cases (leb_ℤ (pos size -ℤ available) (pos 0))) [
        | inl e ↦
            let none_needed : [] ≡ picked = ground arith in
            rw (← none_needed) (
              record { stored = tt; separate = tt },
              omega (arith, leb→le _ _ e, -ℤ_parts (pos size) available),
            )
        | inr e ↦
            let picks : pick exclude (pos size -ℤ available) (sort smaller listed) ≡ some picked =
              ground arith in
            (
              record {
                stored =
                    pick-All (Stored node.cache) _ (sort smaller listed) picked
                      (sort-All smaller (Stored node.cache) listed
                        (cached-Stored node.cache (entries node.cache) n found))
                      picks;
                separate =
                    pick-Separate _ (sort smaller listed) picked
                      (sort-Separate listed (
                        cached-Separate node.cache (entries node.cache) n found
                          (entries-Apart node.cache t)))
                      picks;
              },
              omega (
                arith,
                pick-covers (pos size -ℤ available) (sort smaller listed) picked picks,
                -ℤ_parts (pos size) available,
              ),
            )
      ]
