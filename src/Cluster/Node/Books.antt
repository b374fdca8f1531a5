-- ===== src/Cluster/Node/Books.antt =====
-- node.py: the books of the cards, as memory is given back and booked.
use ndif.Prelude.{
  ℕ, ◌≡◌, refl, ap, ◌⊎◌, inl, inr, none, some, List, [], ◌∷◌, map, All, All_imp, All-map,
  Bool-cases, arith,
}
use ndif.Prelude.Dict.{Dict}
use ndif.Prelude.Int.{ℤ, pos, negsuc, pos_part, neg_part, ◌+ℤ◌, +ℤ_parts, -ℤ_parts}
use ndif.Evaluator.{ModelKey}
use ndif.Cluster.Resources.{Gpu, minus, plus}
use ndif.Cluster.Resources.Charges.{charge, charged, Fitted, map-Distinct, map-Fitted}
use ndif.Cluster.Deployment.{Deployment, ReplicaId}
use ndif.Cluster.Replicas.{Replicas, find, drop, put}
use ndif.Cluster.Replicas.Weights.{IsTable, total-drop, total-put}
use ndif.Cluster.Replicas.Entries.{same_key, find-drop, find-put}
use ndif.Cluster.Node.Invariant.{Cards, IsBalanced, on}

-- One of the two parts of an integer is zero.
pub sign : (a : ℤ) → (pos_part a ≡ 0) ⊎ (neg_part a ≡ 0)
sign (pos n) = inr refl
sign (negsuc n) = inl refl

abbrev pub IsCovered : Gpu → Type 0
IsCovered gpu = neg_part gpu.available_memory_bytes ≡ 0

-- What never changes of the cards.
abbrev pub layout : List Gpu → List (ℕ × ℕ)
layout gpus = map (λ gpu. (gpu.index, gpu.memory_bytes)) gpus

pub layout-charged :
    (op : ℤ → ℕ → ℤ) (allocation : Dict ℕ) (gpus : List Gpu)
    → layout (map (charged op allocation) gpus) ≡ layout gpus
layout-charged op allocation [] = refl
layout-charged op allocation (gpu ∷ gpus) =
    ap (◌∷◌ (gpu.index, gpu.memory_bytes)) (layout-charged op allocation gpus)

module _ (mk : ModelKey) (rid : ReplicaId) (d : Deployment) (gpus : List Gpu) (hot : Replicas) where
  released-IsBalanced :
      (gpu : Gpu)
      → find mk rid hot ≡ some d
      → IsBalanced hot gpu
      → IsBalanced (drop mk rid hot) (charged plus d.gpus gpu)
  released-IsBalanced gpu e b = omega (
    arith,
    total-drop (on gpu.index) mk rid d hot e,
    +ℤ_parts gpu.available_memory_bytes (pos (charge gpu.index d.gpus)),
  )

  -- Giving back what an evicted replica held keeps the books of every card.
  pub released-Cards :
      IsTable hot
      → find mk rid hot ≡ some d
      → Cards gpus hot
      → Cards (map (charged plus d.gpus) gpus) (drop mk rid hot)
  released-Cards t e c = record {
    distinct = map-Distinct (charged plus d.gpus) (λ gpu. refl) gpus c.distinct;
    seated = λ mk' rid' d' h.
        map-Fitted (charged plus d.gpus) (λ gpu. refl) d'.gpus gpus
          (c.seated mk' rid' d' (ground (arith, find-drop mk mk' rid rid' hot t)));
    balanced = All-map (IsBalanced (drop mk rid hot)) (charged plus d.gpus) gpus (
        All_imp (IsBalanced hot) (λ gpu. IsBalanced (drop mk rid hot) (charged plus d.gpus gpu))
          gpus (λ gpu b. released-IsBalanced gpu e b) c.balanced);
  }

  booked-IsBalanced :
      (gpu : Gpu)
      → find mk rid hot ≡ none
      → IsBalanced hot gpu
      → IsBalanced (put mk rid d hot) (charged minus d.gpus gpu)
  booked-IsBalanced gpu e b = omega (
    arith,
    total-put (on gpu.index) mk rid d hot e,
    -ℤ_parts gpu.available_memory_bytes (pos (charge gpu.index d.gpus)),
  )

  -- Booking what a new replica takes keeps the books of every card.
  pub booked-Cards :
      find mk rid hot ≡ none
      → Fitted d.gpus gpus
      → Cards gpus hot
      → Cards (map (charged minus d.gpus) gpus) (put mk rid d hot)
  booked-Cards e f c = record {
    distinct = map-Distinct (charged minus d.gpus) (λ gpu. refl) gpus c.distinct;
    seated = λ mk' rid' d' h.
        map-Fitted (charged minus d.gpus) (λ gpu. refl) d'.gpus gpus
          (elim (Bool-cases (same_key mk rid mk' rid')) [
            | inl s ↦
                let same : d ≡ d' = ground (arith, find-put mk mk' rid rid' hot d) in rw same at f
            | inr s ↦ c.seated mk' rid' d' (ground (arith, find-put mk mk' rid rid' hot d))
          ]);
    balanced = All-map (IsBalanced (put mk rid d hot)) (charged minus d.gpus) gpus (
        All_imp (IsBalanced hot) (λ gpu. IsBalanced (put mk rid d hot) (charged minus d.gpus gpu))
          gpus (λ gpu b. booked-IsBalanced gpu e b) c.balanced);
  }

-- Memory that comes back leaves every card covered.
pub released-IsCovered :
    (allocation : Dict ℕ) (gpus : List Gpu)
    → All IsCovered gpus
    → All IsCovered (map (charged plus allocation) gpus)
released-IsCovered allocation [] c = tt
released-IsCovered allocation (gpu ∷ gpus) c = (
  omega (
    arith,
    sign (gpu.available_memory_bytes +ℤ pos (charge gpu.index allocation)),
    +ℤ_parts gpu.available_memory_bytes (pos (charge gpu.index allocation)),
    c.0,
  ),
  released-IsCovered allocation gpus c.1,
)
