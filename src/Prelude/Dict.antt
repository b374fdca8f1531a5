-- ===== src/Prelude/Dict.antt =====
-- A Python dict as its list of entries in insertion order: a write to a known key keeps the
-- entry's place, a new key goes to the end.
use Prim.Native.Nat.{ℕ, ◌+◌, ◌≤◌}
use mathlib.Core.Path.{◌≡◌, refl}
use mathlib.Core.Logic.{◌≢◌, inl, inr}
use mathlib.Core.List.{List, [], ◌∷◌}
use mathlib.Core.Option.{Option, none, some}
use native.Mathlib.Omega.{arith}
use ndif.Prelude.Tests.{◌==◌, if◌then◌else◌, Bool-cases}
use ndif.Prelude.Lists.{All}

abbrev pub Dict : Type 0 → Type 0
Dict V = List (ℕ × V)

module _ {V : Type 0} where
  unfoldable pub lookup : ℕ → Dict V → Option V
  lookup k [] = none
  lookup k ((j, v) ∷ d) = if j == k then some v else lookup k d

  unfoldable pub set : ℕ → V → Dict V → Dict V
  set k v [] = (k, v) ∷ []
  set k v ((j, w) ∷ d) = if j == k then (k, v) ∷ d else (j, w) ∷ set k v d

  -- `del d[k]` for a key that is there; no change otherwise.
  unfoldable pub del : ℕ → Dict V → Dict V
  del k [] = []
  del k ((j, w) ∷ d) = if j == k then d else (j, w) ∷ del k d

  -- Every key stands once.
  abbrev pub Unique : Dict V → Type 0
  Unique [] = Unit {0}
  Unique ((k, v) ∷ d) = (lookup k d ≡ none) × Unique d

  -- The sum of a weight over the entries.
  unfoldable pub sum_by : (ℕ → V → ℕ) → Dict V → ℕ
  sum_by w [] = 0
  sum_by w ((k, v) ∷ d) = w k v + sum_by w d

  pub lookup-nil : (k : ℕ) → lookup k [] ≡ none
  unfolding lookup
  lookup-nil k = refl

  pub del-nil : (k : ℕ) → del k [] ≡ []
  unfolding del
  del-nil k = refl

  pub lookup-set :
      (k j : ℕ) (v : V) (d : Dict V)
      → lookup j (set k v d) ≡ (if k == j then some v else lookup j d)
  unfolding lookup set
  lookup-set k j v [] = refl
  lookup-set k j v ((i, w) ∷ d) = ground (arith, lookup-set k j v d)

  pub lookup-del_ne : (k j : ℕ) (d : Dict V) → k ≢ j → lookup j (del k d) ≡ lookup j d
  unfolding lookup del
  lookup-del_ne k j [] h = refl
  lookup-del_ne k j ((i, w) ∷ d) h = ground (arith, lookup-del_ne k j d h)

  pub lookup-del_self : (k : ℕ) (d : Dict V) → Unique d → lookup k (del k d) ≡ none
  unfolding lookup del
  lookup-del_self k [] u = refl
  lookup-del_self k ((i, w) ∷ d) u = ground (arith, lookup-del_self k d u.1)

  pub set-Unique : (k : ℕ) (v : V) (d : Dict V) → Unique d → Unique (set k v d)
  unfolding lookup set
  set-Unique k v [] u = (refl, tt)
  set-Unique k v ((i, w) ∷ d) u = ground (arith, set-Unique k v d u.1, lookup-set k i v d)

  pub del-Unique : (k : ℕ) (d : Dict V) → Unique d → Unique (del k d)
  unfolding lookup del
  del-Unique k [] u = tt
  del-Unique k ((i, w) ∷ d) u = ground (arith, del-Unique k d u.1, lookup-del_ne k i d)

  pub sum_by-set_new :
      (w : ℕ → V → ℕ) (k : ℕ) (v : V) (d : Dict V)
      → lookup k d ≡ none
      → sum_by w (set k v d) ≡ sum_by w d + w k v
  unfolding lookup set sum_by
  sum_by-set_new w k v [] h = omega arith
  sum_by-set_new w k v ((i, x) ∷ d) h = ground (arith, sum_by-set_new w k v d)

  pub sum_by-set_old :
      (w : ℕ → V → ℕ) (k : ℕ) (v x : V) (d : Dict V)
      → lookup k d ≡ some x
      → sum_by w (set k v d) + w k x ≡ sum_by w d + w k v
  unfolding lookup set sum_by
  sum_by-set_old w k v x [] h = ground arith
  sum_by-set_old w k v x ((i, y) ∷ d) h = ground (arith, sum_by-set_old w k v x d)

  pub sum_by-del :
      (w : ℕ → V → ℕ) (k : ℕ) (x : V) (d : Dict V)
      → lookup k d ≡ some x
      → sum_by w (del k d) + w k x ≡ sum_by w d
  unfolding lookup del sum_by
  sum_by-del w k x [] h = ground arith
  sum_by-del w k x ((i, y) ∷ d) h = ground (arith, sum_by-del w k x d)

  -- A weight that is smaller at every entry has a smaller sum.
  pub sum_by_mono :
      (w w' : ℕ → V → ℕ) (d : Dict V)
      → Unique d
      → ((k : ℕ) (v : V) → lookup k d ≡ some v → w k v ≤ w' k v)
      → sum_by w d ≤ sum_by w' d
  unfolding lookup sum_by
  sum_by_mono w w' [] u h = omega arith
  sum_by_mono w w' ((i, y) ∷ d) u h =
      let head : w i y ≤ w' i y = h i y (ground arith) in
      let rest = sum_by_mono w w' d u.1 (λ k v e. h k v (ground (arith, u.0))) in omega arith

  -- A weight that is split in two.
  pub sum_by_split :
      (w u v : ℕ → V → ℕ) (d : Dict V)
      → ((k : ℕ) (x : V) → w k x ≡ u k x + v k x)
      → sum_by w d ≡ sum_by u d + sum_by v d
  unfolding sum_by
  sum_by_split w u v [] h = omega arith
  sum_by_split w u v ((k, x) ∷ d) h = omega (arith, h k x, sum_by_split w u v d h)

  pub set-All {κ} :
      (P : ℕ × V → Type κ) (k : ℕ) (v : V) (d : Dict V) → P (k, v) → All P d → All P (set k v d)
  unfolding set
  set-All P k v [] p a = (p, tt)
  set-All P k v ((j, w) ∷ d) p a = elim (Bool-cases (j == k)) [
    | inl e ↦ rw e (p, a.1)
    | inr e ↦ rw e (a.0, set-All P k v d p a.1)
  ]

-- What holds of every entry holds of a key's value.
pub All-lookup :
    {V : Type 0} (P : ℕ → V → Type 0) (d : Dict V) (i : ℕ) (v : V)
    → All (λ entry. P entry.0 entry.1) d
    → lookup i d ≡ some v
    → P i v
unfolding lookup
All-lookup P [] i v all h = absurd cc
All-lookup P ((j, w) ∷ d) i v all h = elim (Bool-cases (j == i)) [
  | inl e ↦
      let found : some w ≡ some v = rw e at h in
      let same : w ≡ v = cc in let here : j ≡ i = ground arith in rw (same, here) at all.0
  | inr e ↦ All-lookup P d i v all.1 (rw e at h)
]
