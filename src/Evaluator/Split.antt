-- ===== src/Evaluator/Split.antt =====
-- evaluator.py: whether a replica is served tensor-parallel, given the cards it got.
use ndif.Prelude.{ℕ, ◌%◌, ◌≤◌, ◌≡◌, ◌≢◌, Option, some, arith, Option-cases, inl, inr}
use ndif.Evaluator.{
  ModelKey, DtypeName, ActorClass, Hub, ModelEvaluator, CacheEntry, ok, entry, max_tp, tp_degree,
  actor_class,
}
use ndif.Evaluator.Degree.{Degree-tp_degree, tp_degree-none}

-- Where the checkpoint is described and states a limit, the degree that `max_tp` answers with,
-- whatever the override, is at most that limit.
max_tp-le :
    (hub : Hub) (ev : ModelEvaluator) (k : ModelKey) (dtype : Option DtypeName)
    (override : Option ℕ) (e : CacheEntry) (limit degree : ℕ)
    → (entry hub ev k dtype).0 ≡ ok e
    → e.max_tp ≡ some limit
    → (max_tp hub ev k dtype override).0 ≡ some degree
    → degree ≤ limit
unfolding max_tp
max_tp-le hub ev k dtype override e limit degree a b c = ground arith

-- A replica gets a class other than the default only where it is the tensor-parallel class, and
-- only on two cards or more, whose count divides the limit that `max_tp` answers with.
pub actor_class-divides :
    (hub : Hub) (ev : ModelEvaluator) (k : ModelKey) (gpus : ℕ) (default c : ActorClass)
    (dtype : Option DtypeName) (override : Option ℕ)
    → (actor_class hub ev k gpus default dtype override).0 ≡ c
    → default ≢ c
    → (limit : ℕ) × ((max_tp hub ev k dtype override).0 ≡ some limit)
      × (ev.tp_model_actor_class ≡ some c)
      × (2 ≤ gpus)
      × (gpus ≤ limit)
      × (limit % gpus ≡ 0)
unfolding actor_class
actor_class-divides hub ev k gpus default c dtype override h d =
    elim (Option-cases (max_tp hub ev k dtype override).0) [
      | inl e ↦ absurd (ground (arith, tp_degree-none gpus))
      | inr (limit, e) ↦
          let q : tp_degree (some limit) gpus ≡ some gpus = ground arith in
          let o = Degree-tp_degree limit gpus gpus q in
          (limit, e, ground arith, omega (arith, o.1), omega (arith, o.2), o.0.divides)
    ]
