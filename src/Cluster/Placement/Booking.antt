-- ===== src/Cluster/Placement/Booking.antt =====
-- node.py: from a candidate's room to the cards after its evictions.
use native.Mathlib.Nat.{zero-add}
use ndif.Prelude.{
  ℕ, ◌+◌, ◌≤◌, ◌≡◌, refl, ap, ◌⊎◌, inl, inr, none, List, [], ◌∷◌, map, All, All_imp, arith,
  Bool-cases, ◌==◌,
}
use ndif.Prelude.Dict.{Dict, Unique, lookup}
use ndif.Prelude.Int.{pos, pos_part, neg_part, ◌-ℤ◌, -ℤ_parts}
use ndif.Cluster.Resources.{Gpu, minus}
use ndif.Cluster.Resources.Charges.{charge, charged, IsCard, Fitted}
use ndif.Cluster.Replicas.{Key, Replicas}
use ndif.Cluster.Replicas.Weights.{total}
use ndif.Cluster.Node.{Node}
use ndif.Cluster.Node.Books.{layout, IsCovered, sign}
use ndif.Cluster.Node.Clearing.{Cleared, inside, Cleared-total}
use ndif.Cluster.Node.Invariant.{IsBalanced, on}
use ndif.Cluster.Placement.Room.{RoomFor}

abbrev InLayout : ℕ → List (ℕ × ℕ) → Type 0
InLayout i [] = ⊥
InLayout i (c ∷ cs) = (c.0 ≡ i) ⊎ InLayout i cs

to_layout : (i : ℕ) (gpus : List Gpu) → IsCard i gpus → InLayout i (layout gpus)
to_layout i [] c = c
to_layout i (gpu ∷ gpus) (inl e) = inl e
to_layout i (gpu ∷ gpus) (inr c) = inr (to_layout i gpus c)

from_layout : (i : ℕ) (gpus : List Gpu) → InLayout i (layout gpus) → IsCard i gpus
from_layout i [] c = c
from_layout i (gpu ∷ gpus) (inl e) = inl e
from_layout i (gpu ∷ gpus) (inr c) = inr (from_layout i gpus c)

-- Whether an allocation names cards of the node depends on the layout alone.
pub Fitted-layout :
    (allocation : Dict ℕ) (gpus gpus' : List Gpu)
    → layout gpus' ≡ layout gpus
    → Fitted allocation gpus
    → Fitted allocation gpus'
Fitted-layout allocation gpus gpus' e f =
    All_imp (λ x. IsCard x.0 gpus) (λ x. IsCard x.0 gpus') allocation
      (λ x c. from_layout x.0 gpus' (rw e (to_layout x.0 gpus c))) f

-- The room of the cards of index `i`, by their memory and what the HOT replicas hold of them.
abbrev RoomIn : (held back bytes i : ℕ) → List (ℕ × ℕ) → Type 0
RoomIn held back bytes i cs = All (λ c. c.0 ≡ i → bytes + held ≤ c.1 + back) cs

room_in :
    (evictions : List Key) (hot : Replicas) (bytes i : ℕ) (gpus : List Gpu)
    → RoomFor evictions hot gpus bytes i
    → All (IsBalanced hot) gpus
    → RoomIn (total (on i) hot) (total (inside evictions (on i)) hot) bytes i (layout gpus)
room_in evictions hot bytes i [] r b = tt
room_in evictions hot bytes i (gpu ∷ gpus) r b = (
  λ e. omega (arith, r.0 e, b.0, ap (λ j. total (on j) hot) e),
  room_in evictions hot bytes i gpus r.1 b.1,
)

-- A card of index `i` has the bytes left.
abbrev pub HasLeft : ℕ → ℕ → Gpu → Type 0
HasLeft bytes i gpu =
    gpu.index ≡ i
    → bytes + neg_part gpu.available_memory_bytes ≤ pos_part gpu.available_memory_bytes

room_out :
    (hot' : Replicas) (held back bytes i : ℕ) (gpus : List Gpu)
    → total (on i) hot' + back ≤ held
    → RoomIn held back bytes i (layout gpus)
    → All (IsBalanced hot') gpus
    → All (HasLeft bytes i) gpus
room_out hot' held back bytes i [] h r b = tt
room_out hot' held back bytes i (gpu ∷ gpus) h r b = (
  λ e. omega (arith, r.0 e, b.0, h, ap (λ j. total (on j) hot') e),
  room_out hot' held back bytes i gpus h r.1 b.1,
)

-- Once the evictions are made, the cards of index `i` have the bytes left.
pub Cleared-HasLeft :
    (n n' : Node) (evictions : List Key) (bytes i : ℕ)
    → Cleared n evictions n'
    → All (IsBalanced n.deployments) n.gpu_resources.gpus
    → RoomFor evictions n.deployments n.gpu_resources.gpus bytes i
    → All (HasLeft bytes i) n'.gpu_resources.gpus
Cleared-HasLeft n n' evictions bytes i c b r =
    room_out n'.deployments (total (on i) n.deployments)
      (total (inside evictions (on i)) n.deployments) bytes i n'.gpu_resources.gpus
      (Cleared-total n n' evictions (on i) c)
      (rw c.same_layout (room_in evictions n.deployments bytes i n.gpu_resources.gpus r b))
      c.inv.cards.balanced

charge_absent : (i : ℕ) (d : Dict ℕ) → lookup i d ≡ none → charge i d ≡ 0
unfolding charge lookup
charge_absent i [] h = refl
charge_absent i ((j, b) ∷ d) h = ground (arith, charge_absent i d)

-- An allocation takes nothing of a card, or what one of its entries says.
charge_cases :
    (Q : ℕ → ℕ → Type 0) (i : ℕ) (d : Dict ℕ)
    → Unique d
    → All (λ e. Q e.1 e.0) d
    → (charge i d ≡ 0) ⊎ ((b : ℕ) × (charge i d ≡ b) × Q b i)
unfolding charge
charge_cases Q i [] u a = inl refl
charge_cases Q i ((j, b) ∷ d) u a = elim (Bool-cases (j == i)) [
  | inl e ↦
      let same : j ≡ i = ground arith in
      inr (b, ground (arith, charge_absent i d, ap (λ k. lookup k d) same, u.0), rw (← same) a.0)
  | inr e ↦ rw (e, zero-add) (charge_cases Q i d u.1 a.1)
]

-- Booking what fits leaves every card covered.
pub booked-IsCovered :
    (d : Dict ℕ) (gpus : List Gpu)
    → Unique d
    → All (λ e. All (HasLeft e.1 e.0) gpus) d
    → All IsCovered gpus
    → All IsCovered (map (charged minus d) gpus)
booked-IsCovered d [] u a c = tt
booked-IsCovered d (gpu ∷ gpus) u a c =
    let available = gpu.available_memory_bytes in
    let taken = charge gpu.index d in
    let enough : taken + neg_part available ≤ pos_part available =
      elim (charge_cases (λ b i. HasLeft b i gpu) gpu.index d u
        (All_imp (λ e. All (HasLeft e.1 e.0) (gpu ∷ gpus)) (λ e. HasLeft e.1 e.0 gpu) d (λ e p. p.0)
          a)) [ inl e ↦ omega (arith, c.0) | inr (b, e, q) ↦ omega (arith, q refl) ] in
    (
      omega (arith, enough, -ℤ_parts available (pos taken), sign (available -ℤ pos taken)),
      booked-IsCovered d gpus u
          (All_imp (λ e. All (HasLeft e.1 e.0) (gpu ∷ gpus)) (λ e. All (HasLeft e.1 e.0) gpus) d
            (λ e p. p.1) a)
          c.1,
    )
