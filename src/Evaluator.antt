-- ===== src/Evaluator.antt =====
-- services/ray/deployments/controller/cluster/evaluator.py: what placement asks about a model.
-- What nnsight answers about a checkpoint comes as an argument, `Hub`, of each call.
pub mod Degree
pub mod Sizing
pub mod Split
use ndif.Prelude.{
  ℕ, zero, suc, ◌+◌, ◌-◌, ◌*◌, ◌/◌, ◌%◌, min, Bool, true, false, Option, none, some, ltb, ◌==◌,
  if◌then◌else◌,
}
use ndif.Prelude.Dict.{Dict, lookup, set}

-- A model key or a dtype name: the code compares them for equality only.
abbrev pub ModelKey : Type 0
ModelKey = ℕ

abbrev pub DtypeName : Type 0
DtypeName = ℕ

abbrev pub ActorClass : Type 0
ActorClass = ℕ

-- `for degree in range(degree, limit + 1)`: the rounds left stand first.
first_divisor : ℕ → ℕ → ℕ → Option ℕ
first_divisor zero limit degree = none
first_divisor (suc rounds) limit degree =
    let rest = first_divisor rounds limit (degree + 1) in
    if limit % degree == 0 then some degree else rest

unfoldable pub tp_degree : Option ℕ → ℕ → Option ℕ
unfolding first_divisor
tp_degree none gpus = none
tp_degree (some limit) gpus =
    if ltb gpus 2 then none else first_divisor (limit + 1 - gpus) limit gpus

pub record CacheEntry : Type 0 where
  pub base_size_in_bytes : ℕ
  pub dtype : DtypeName
  pub max_tp : Option ℕ

-- What a question about a checkpoint brings back: an answer, `CheckpointUnreachable`, or another
-- exception.
pub data Answer {ℓ} (A : Type ℓ) : Type ℓ where
  ok : A → Answer A
  unreachable failed : Answer A

-- `Remotable.describe_checkpoint(...).size_bytes` and `Remotable.max_tp_size(...)`.
pub record Hub : Type 0 where
  pub describe_checkpoint : ModelKey → DtypeName → Answer ℕ
  pub max_tp_size : ModelKey → Answer (Option ℕ)

-- An exact factor `num / den`, in place of the float.
pub record Factor : Type 0 where
  pub num : ℕ
  pub den : ℕ

pub record ModelEvaluator : Type 0 where
  pub padding_factor : Factor
  pub padding_bias : ℕ
  pub tp_model_actor_class : Option ActorClass
  pub cache : Dict CacheEntry

-- "bfloat16"
abbrev pub bfloat16 : DtypeName
bfloat16 = 16

abbrev pub dtype_name : Option DtypeName → DtypeName
dtype_name none = bfloat16
dtype_name (some dtype) = dtype

compute_entry : Hub → ModelKey → DtypeName → Answer CacheEntry
compute_entry hub model_key resolved = elim (hub.describe_checkpoint model_key resolved) [
  | ok size_bytes ↦ elim (hub.max_tp_size model_key) [
    | ok max_tp ↦ ok (record { base_size_in_bytes = size_bytes; dtype = resolved; max_tp = max_tp })
    | unreachable ↦ unreachable
    | failed ↦ failed
  ]
  | unreachable ↦ unreachable
  | failed ↦ failed
]

-- Only a computed entry is stored.
store_entry : ModelEvaluator → ModelKey → Answer CacheEntry → Answer CacheEntry × ModelEvaluator
store_entry evaluator model_key (ok e) =
    (ok e, record evaluator { cache = set model_key e evaluator.cache })
store_entry evaluator model_key unreachable = (unreachable, evaluator)
store_entry evaluator model_key failed = (failed, evaluator)

refresh : Hub → ModelEvaluator → ModelKey → DtypeName → Answer CacheEntry × ModelEvaluator
unfolding compute_entry store_entry
refresh hub evaluator model_key resolved =
    store_entry evaluator model_key (compute_entry hub model_key resolved)

-- `_entry`
unfoldable pub entry :
    Hub → ModelEvaluator → ModelKey → Option DtypeName → Answer CacheEntry × ModelEvaluator
unfolding refresh
entry hub evaluator model_key dtype =
    let resolved = dtype_name dtype in
    elim (lookup model_key evaluator.cache) [
      | none ↦ refresh hub evaluator model_key resolved
      | some cached ↦
          if cached.dtype == resolved
          then (ok cached, evaluator)
          else refresh hub evaluator model_key resolved
    ]

abbrev pub value_or {ℓ} : {A : Type ℓ} → Option A → A → A
value_or none default = default
value_or (some a) default = a

-- `math.ceil(a / b)` for a positive b.
unfoldable pub ceil_div : ℕ → ℕ → ℕ
ceil_div a b = (a + (b - 1)) / b

-- `math.ceil(base_size + base_size * padding + bias)`
unfoldable pub padded_size : ℕ → Factor → ℕ → ℕ
unfolding ceil_div
padded_size base_size padding bias =
    base_size + bias + ceil_div (base_size * padding.num) padding.den

abbrev base_of : Answer CacheEntry → Answer ℕ
base_of (ok e) = ok e.base_size_in_bytes
base_of unreachable = unreachable
base_of failed = failed

abbrev map_answer : (ℕ → ℕ) → Answer ℕ → Answer ℕ
map_answer f (ok n) = ok (f n)
map_answer f unreachable = unreachable
map_answer f failed = failed

-- `__call__`: an exception is returned, not raised.
unfoldable pub size_of :
    Hub
    → ModelEvaluator
    → ModelKey
    → Option Factor
    → Option DtypeName
    → Option ℕ
    → Option ℕ
    → Answer ℕ × ModelEvaluator
unfolding entry padded_size
size_of hub evaluator model_key padding_factor dtype size_bytes padding_bias =
    let padding = value_or padding_factor evaluator.padding_factor in
    let bias = value_or padding_bias evaluator.padding_bias in
    let (described, after) = entry hub evaluator model_key dtype in
    elim size_bytes [
      | none ↦ (map_answer (λ base. padded_size base padding bias) (base_of described), after)
      | some given ↦ (ok (padded_size given padding bias), after)
    ]

abbrev pub tp_enabled : ModelEvaluator → Bool
tp_enabled evaluator = elim evaluator.tp_model_actor_class [ none ↦ false | some _ ↦ true ]

-- What an override makes of the checkpoint's own limit: a cap, never a widening.
capped : Option ℕ → Option ℕ → Option ℕ
capped limit none = limit
capped none (some cap) = some cap
capped (some limit) (some cap) = some (min cap limit)

-- The end of `max_tp`, from the answer about the checkpoint.
max_tp_from : Option ℕ → Answer CacheEntry → Option ℕ
unfolding capped
max_tp_from override (ok e) = capped e.max_tp override
max_tp_from override unreachable = override
max_tp_from override failed = override

abbrev pub is_zero : Option ℕ → Bool
is_zero none = false
is_zero (some n) = n == 0

unfoldable pub max_tp :
    Hub → ModelEvaluator → ModelKey → Option DtypeName → Option ℕ → Option ℕ × ModelEvaluator
unfolding entry max_tp_from
max_tp hub evaluator model_key dtype override =
    if tp_enabled evaluator
    then if is_zero override
      then (none, evaluator)
      else (let (answer, after) = entry hub evaluator model_key dtype in
          (max_tp_from override answer, after))
    else (none, evaluator)

-- `prefetch` warms the cache and swallows every failure.
unfoldable pub prefetch : Hub → ModelEvaluator → ModelKey → Option DtypeName → ModelEvaluator
unfolding entry
prefetch hub evaluator model_key dtype = (entry hub evaluator model_key dtype).1

abbrev pub is_some_of : Option ℕ → ℕ → Bool
is_some_of none n = false
is_some_of (some m) n = m == n

unfoldable pub actor_class :
    Hub
    → ModelEvaluator
    → ModelKey
    → ℕ
    → ActorClass
    → Option DtypeName
    → Option ℕ
    → ActorClass × ModelEvaluator
actor_class hub evaluator model_key gpus default dtype override =
    elim evaluator.tp_model_actor_class [
      | none ↦ (default, evaluator)
      | some tp_class ↦
          if ltb gpus 2
          then (default, evaluator)
          else let (limit, after) = max_tp hub evaluator model_key dtype override in
            (if is_some_of (tp_degree limit gpus) gpus then tp_class else default, after)
    ]
