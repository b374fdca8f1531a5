-- ===== src/Tests/Evaluators.antt =====
-- The theorems of evaluator.py at work on a model of 12 attention heads.
use ndif.Prelude.{ℕ, ◌+◌, ◌*◌, ◌%◌, ◌<◌, ◌≤◌, ◌≡◌, refl, none, some, [], arith}
use ndif.Prelude.Dict.{lookup}
use ndif.Evaluator.{
  Hub, ok, unreachable, ModelEvaluator, CacheEntry, bfloat16, tp_degree, entry, padded_size, max_tp,
  actor_class,
}
use ndif.Evaluator.Degree.{Degree, tp_degree-Degree}
use ndif.Evaluator.Sizing.{padded_size_bounds}
use ndif.Evaluator.Split.{actor_class-divides}

abbrev sample_hub : Hub
sample_hub = record { describe_checkpoint = λ k dtype. ok 1000; max_tp_size = λ k. ok (some 12) }

abbrev dark_hub : Hub
dark_hub = record { describe_checkpoint = λ k dtype. unreachable; max_tp_size = λ k. unreachable }

-- A padding of 3/20 and a bias of 7 bytes; class 2 is the tensor-parallel one.
abbrev sample_evaluator : ModelEvaluator
sample_evaluator = record {
  padding_factor = record { num = 3; den = 20 };
  padding_bias = 7;
  tp_model_actor_class = some 2;
  cache = [];
}

abbrev sample_entry : CacheEntry
sample_entry = record { base_size_in_bytes = 1000; dtype = bfloat16; max_tp = some 12 }

tp_degree-Degree_example : Degree 12 5 (tp_degree (some 12) 5)
tp_degree-Degree_example = tp_degree-Degree 12 5

padded_size_bounds_example :
    (1000 * 20 + 1000 * 3 + 7 * 20 ≤ padded_size 1000 (record { num = 3; den = 20 }) 7 * 20)
    × (padded_size 1000 (record { num = 3; den = 20 }) 7 * 20 < 1000 * 20 + 1000 * 3 + 7 * 20 + 20)
padded_size_bounds_example = padded_size_bounds 1000 7 (record { num = 3; den = 20 }) (omega arith)

actor_class-divides_example :
    (limit : ℕ) × ((max_tp sample_hub sample_evaluator 7 none none).0 ≡ some limit)
    × (sample_evaluator.tp_model_actor_class ≡ some 2)
    × (2 ≤ 4)
    × (4 ≤ limit)
    × (limit % 4 ≡ 0)
unfolding actor_class max_tp entry lookup tp_degree
actor_class-divides_example =
    actor_class-divides sample_hub sample_evaluator 7 4 1 2 none none refl
      (λ e. absurd (omega arith))
