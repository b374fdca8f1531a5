-- ===== src/Cluster/Replicas/Weights.antt =====
-- node.py: sums over all replicas, and what each access does to them.
use ndif.Prelude.{
  ℕ, ◌+◌, ◌≤◌, ◌≡◌, sym, ap, ◌∙◌, none, some, [], ◌∷◌, arith, Option-cases, inl, inr,
}
use ndif.Prelude.Dict.{
  Dict, lookup, set, del, lookup-nil, Unique, sum_by, sum_by-set_new, sum_by-set_old, sum_by-del,
  sum_by_mono, sum_by_split,
}
use ndif.Evaluator.{ModelKey}
use ndif.Cluster.Deployment.{Deployment, ReplicaId}
use ndif.Cluster.Replicas.Shapes.{inner_of_old, put_new, put_old, find_new, find_old, drop_old}
use ndif.Cluster.Replicas.{Replicas, find, put, put_back, drop, inner_of}

abbrev pub Weight : Type 0
Weight = ModelKey → ReplicaId → Deployment → ℕ

unfoldable pub total : Weight → Replicas → ℕ
total w = sum_by (λ mk. sum_by (w mk))

-- Model keys and, within each, replica ids stand once.
pub record IsTable (r : Replicas) : Type 0 where
  pub outer : Unique r
  pub inner : (mk : ModelKey) → Unique (inner_of mk r)

module _ (w : Weight) where
  abbrev inner_sum : ModelKey → Dict Deployment → ℕ
  inner_sum mk = sum_by (w mk)

  sum_by-put_back :
      (mk : ModelKey) (ds old : Dict Deployment) (r : Replicas)
      → lookup mk r ≡ some old
      → sum_by inner_sum (put_back mk ds r) + inner_sum mk old
        ≡ sum_by inner_sum r + inner_sum mk ds
  unfolding put_back sum_by
  sum_by-put_back mk [] old r e = omega (arith, sum_by-del inner_sum mk old r e)
  sum_by-put_back mk (d ∷ ds) old r e = sum_by-set_old inner_sum mk (d ∷ ds) old r e

  -- A new replica adds its weight.
  pub total-put :
      (mk : ModelKey) (rid : ReplicaId) (d : Deployment) (r : Replicas)
      → find mk rid r ≡ none
      → total w (put mk rid d r) ≡ total w r + w mk rid d
  unfolding total sum_by
  total-put mk rid d r h = elim (Option-cases (lookup mk r)) [
    | inl e ↦ omega (
      arith,
      ap (sum_by inner_sum) (put_new mk rid r d e),
      sum_by-set_new inner_sum mk (set rid d []) r e,
      sum_by-set_new (w mk) rid d [] (lookup-nil rid),
    )
    | inr (ds, e) ↦
        let new : lookup rid ds ≡ none = sym (find_old mk rid r ds e) ∙ h in
        omega (
          arith,
          ap (sum_by inner_sum) (put_old mk rid r ds e d),
          sum_by-set_old inner_sum mk (set rid d ds) ds r e,
          sum_by-set_new (w mk) rid d ds new,
        )
  ]

  -- A replica that goes takes its weight along.
  pub total-drop :
      (mk : ModelKey) (rid : ReplicaId) (d : Deployment) (r : Replicas)
      → find mk rid r ≡ some d
      → total w (drop mk rid r) + w mk rid d ≡ total w r
  unfolding total
  total-drop mk rid d r h = elim (Option-cases (lookup mk r)) [
    | inl e ↦ absurd (ground (arith, find_new mk rid r e))
    | inr (ds, e) ↦ omega (
      arith,
      ap (sum_by inner_sum) (drop_old mk rid r ds e),
      sum_by-put_back mk (del rid ds) ds r e,
      sum_by-del (w mk) rid d ds (sym (find_old mk rid r ds e) ∙ h),
    )
  ]

-- A weight that is smaller at every replica has a smaller sum.
pub total_mono :
    (w w' : Weight) (r : Replicas)
    → IsTable r
    → ((mk : ModelKey) (rid : ReplicaId) (d : Deployment)
        → find mk rid r ≡ some d
        → w mk rid d ≤ w' mk rid d)
    → total w r ≤ total w' r
unfolding total find
total_mono w w' r t h =
    sum_by_mono (λ mk. sum_by (w mk)) (λ mk. sum_by (w' mk)) r t.outer
      λ mk ds e.
        sum_by_mono (w mk) (w' mk) ds (rw (inner_of_old mk r ds e) at (t.inner mk))
          (λ rid d e'. h mk rid d (ground arith))

pub total_split :
    (w u v : Weight) (r : Replicas)
    → ((mk : ModelKey) (rid : ReplicaId) (d : Deployment) → w mk rid d ≡ u mk rid d + v mk rid d)
    → total w r ≡ total u r + total v r
unfolding total
total_split w u v r h =
    sum_by_split (λ mk. sum_by (w mk)) (λ mk. sum_by (u mk)) (λ mk. sum_by (v mk)) r
      (λ mk ds. sum_by_split (w mk) (u mk) (v mk) ds (h mk))
