-- ===== src/Cluster/Placement/Room.antt =====
-- node.py: the room on a candidate's cards, once its evictions are made.
use ndif.Prelude.{
  ℕ, ◌+◌, ◌≤◌, ◌≡◌, ◌≢◌, refl, sym, Bool, true, inl, inr, some, List, [], ◌∷◌, All, All_imp,
  All_zip, keep-All, keep-passes, keep, leb→le, arith,
}
use ndif.Prelude.Dict.{Dict, Unique, set, set-All, set-Unique}
use ndif.Prelude.Int.{pos, pos_part, neg_part, -ℤ_parts}
use ndif.Prelude.Sort.{sort, sort-All, sum_of-sort}
use ndif.Cluster.Resources.{Gpu, fits, fitting, less_available}
use ndif.Cluster.Resources.Charges.{Distinct, IsCard}
use ndif.Cluster.Replicas.{Key, Replicas, entries}
use ndif.Cluster.Replicas.Weights.{total}
use ndif.Cluster.Replicas.Listing.{total-entries}
use ndif.Cluster.Node.{Node, Excluded}
use ndif.Cluster.Node.Invariant.{on}
use ndif.Cluster.Node.Clearing.{inside}
use ndif.Cluster.Placement.{Plan, book, occupants, plan_gpu, fewer_bytes, gpu_plans}
use ndif.Cluster.Placement.Keys.{Within}
use ndif.Cluster.Placement.Freed.{going, free_up_enough, sum_of-occupants}
use ndif.Cluster.Placement.Victims.{Planned, plan_gpu-Planned, gpu_plans-All}

-- The cards of index `i` have `bytes` left once the listed replicas are gone.
abbrev pub RoomFor : List Key → Replicas → List Gpu → ℕ → ℕ → Type 0
RoomFor evictions hot gpus bytes i =
    All
      (λ g.
        g.index ≡ i
        → bytes + neg_part g.available_memory_bytes
          ≤ pos_part g.available_memory_bytes + total (inside evictions (on i)) hot)
      gpus

-- A card is known by its index.
abbrev Own : List Gpu → Gpu → Type 0
Own gpus gpu = All (λ g. g.index ≡ gpu.index → g ≡ gpu) gpus

Distinct-Own : (gpus : List Gpu) → Distinct gpus → All (Own gpus) gpus
Distinct-Own [] d = tt
Distinct-Own (x ∷ xs) d = (
  (
    λ e. refl,
    All_imp (λ g. g.index ≢ x.index) (λ g. g.index ≡ x.index → g ≡ x) xs (λ g n e. absurd (n e))
        d.0,
  ),
  All_imp (λ g. (g.index ≢ x.index) × Own xs g) (Own (x ∷ xs)) xs
      (λ g p. (λ e. absurd (p.0 (sym e)), p.1))
      (All_zip (λ g. g.index ≢ x.index) (Own xs) xs d.0 (Distinct-Own xs d.1)),
)

all-IsCard : (gpus : List Gpu) → All (λ g. IsCard g.index gpus) gpus
all-IsCard [] = tt
all-IsCard (x ∷ xs) = (
  inl refl,
  All_imp (λ g. IsCard g.index xs) (λ g. IsCard g.index (x ∷ xs)) xs (λ g c. inr c) (all-IsCard xs),
)

-- What is booked is the same amount on each of the listed cards.
pub book-All :
    (P : ℕ → Type 0) (bytes : ℕ) (is : List ℕ) (d : Dict ℕ)
    → All P is
    → All (λ e. (e.1 ≡ bytes) × P e.0) d
    → All (λ e. (e.1 ≡ bytes) × P e.0) (book bytes is d)
unfolding book
book-All P bytes [] d a b = b
book-All P bytes (i ∷ is) d a b =
    book-All P bytes is (set i bytes d) a.1
      (set-All (λ e. (e.1 ≡ bytes) × P e.0) i bytes d (refl, a.0) b)

pub book-Unique : (bytes : ℕ) (is : List ℕ) (d : Dict ℕ) → Unique d → Unique (book bytes is d)
unfolding book
book-Unique bytes [] d u = u
book-Unique bytes (i ∷ is) d u = book-Unique bytes is (set i bytes d) (set-Unique i bytes d u)

module _ (evictions : List Key) (node : Node) (bytes : ℕ) where
  abbrev hot : Replicas
  hot = node.deployments

  abbrev gpus : List Gpu
  gpus = node.gpu_resources.gpus

  abbrev Roomy : Gpu → Type 0
  Roomy gpu =
      bytes + neg_part gpu.available_memory_bytes
      ≤ pos_part gpu.available_memory_bytes + total (inside evictions (on gpu.index)) hot

  room_at : (gpu : Gpu) → Own gpus gpu → Roomy gpu → RoomFor evictions hot gpus bytes gpu.index
  room_at gpu own r =
      All_imp (λ g. g.index ≡ gpu.index → g ≡ gpu)
        (λ g.
          g.index ≡ gpu.index
          → bytes + neg_part g.available_memory_bytes
            ≤ pos_part g.available_memory_bytes + total (inside evictions (on gpu.index)) hot)
        gpus (λ g f e. rw (f e) r) own

  -- A plan whose evictions are made leaves room on its card.
  plan-Roomy :
      (now : ℕ) (pinned : Bool) (exclude : Excluded) (gpu : Gpu) (plan : Plan)
      → Planned bytes gpu (occupants node now pinned exclude gpu.index (entries hot)) plan
      → Within evictions plan.keys
      → Roomy gpu
  plan-Roomy now pinned exclude gpu plan p w =
      let listed = occupants node now pinned exclude gpu.index (entries hot) in
      let parts = -ℤ_parts (pos bytes) gpu.available_memory_bytes in
      elim p.1 [
        | inl (e, k) ↦ omega (arith, leb→le _ _ e, parts)
        | inr (e, k) ↦ omega (
          arith,
          parts,
          free_up_enough evictions _ 0 (sort fewer_bytes listed) plan.keys k w,
          sum_of-sort fewer_bytes (going evictions) listed,
          sum_of-occupants evictions node now pinned exclude gpu.index (entries hot),
          total-entries (inside evictions (on gpu.index)) hot,
        )
      ]

  abbrev pub Usable : ℕ → Type 0
  Usable i = IsCard i gpus × RoomFor evictions hot gpus bytes i

  -- Every plan is of a card of the node, which has room once the plan's evictions are made.
  pub gpu_plans-Usable :
      (now : ℕ) (pinned : Bool) (exclude : Excluded)
      → Distinct gpus
      → All
          (λ plan. Within evictions plan.keys → Usable plan.gpu)
          (gpu_plans node now pinned exclude bytes gpus)
  gpu_plans-Usable now pinned exclude d =
      gpu_plans-All node now pinned exclude (λ plan. Within evictions plan.keys → Usable plan.gpu)
        bytes gpus
        (All_imp (λ gpu. Own gpus gpu × IsCard gpu.index gpus)
          (λ gpu.
            (plan : Plan)
            → plan_gpu bytes gpu (occupants node now pinned exclude gpu.index (entries hot))
              ≡ some plan
            → Within evictions plan.keys
            → Usable plan.gpu)
          gpus
          (λ gpu p plan h w.
            let q =
              plan_gpu-Planned bytes gpu (occupants node now pinned exclude gpu.index (entries hot))
                plan h in
            rw q.0 (p.1, room_at gpu p.0 (plan-Roomy now pinned exclude gpu plan q w)))
          (All_zip (Own gpus) (λ gpu. IsCard gpu.index gpus) gpus (Distinct-Own gpus d)
            (all-IsCard gpus)))

  -- The cards that fit as they are.
  pub fitting-Usable : Distinct gpus → All (λ gpu. Usable gpu.index) (fitting bytes gpus)
  unfolding fitting
  fitting-Usable d =
      sort-All less_available (λ gpu. Usable gpu.index) (keep (fits bytes) gpus)
        (All_imp (λ gpu. (Own gpus gpu × IsCard gpu.index gpus) × (fits bytes gpu ≡ true))
          (λ gpu. Usable gpu.index) (keep (fits bytes) gpus)
          (λ gpu p. (p.0.1, room_at gpu p.0.0 (omega (arith, leb→le _ _ p.1))))
          (All_zip (λ gpu. Own gpus gpu × IsCard gpu.index gpus) (λ gpu. fits bytes gpu ≡ true)
            (keep (fits bytes) gpus)
            (keep-All (λ gpu. Own gpus gpu × IsCard gpu.index gpus) (fits bytes) gpus
              (All_zip (Own gpus) (λ gpu. IsCard gpu.index gpus) gpus (Distinct-Own gpus d)
                (all-IsCard gpus)))
            (keep-passes (fits bytes) gpus)))
