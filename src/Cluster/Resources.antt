-- ===== src/Cluster/Resources.antt =====
-- node.py: GPU, GPUResources and CPUResources. Memory that is left may fall below zero in the
-- code, so it is an integer here.
pub mod Charges
use ndif.Prelude.{
  ℕ, suc, ◌+◌, ◌≡◌, Bool, Option, none, some, List, [], ◌∷◌, map, length, keep, ltb, ◌==◌,
  if◌then◌else◌,
}
use ndif.Prelude.Dict.{Dict}
use ndif.Prelude.Int.{ℤ, pos, ◌+ℤ◌, ◌-ℤ◌, leb_ℤ}
use ndif.Prelude.Sort.{sort}
use ndif.Evaluator.{ceil_div}

pub record Gpu : Type 0 where
  pub index : ℕ
  pub memory_bytes : ℕ
  pub available_memory_bytes : ℤ

abbrev pub fits : ℕ → Gpu → Bool
fits model_size_bytes gpu = leb_ℤ (pos model_size_bytes) gpu.available_memory_bytes

-- `GPUResources.memory_bytes`: that of the first card.
abbrev pub memory_bytes : List Gpu → ℕ
memory_bytes [] = 0
memory_bytes (gpu ∷ gpus) = gpu.memory_bytes

-- `none` is the ValueError "GPU memory bytes is 0".
unfoldable pub required : ℕ → List Gpu → Option ℕ
required model_size_in_bytes gpus =
    if memory_bytes gpus == 0 then none else some (ceil_div model_size_in_bytes (memory_bytes gpus))

abbrev pub less_available : Gpu → Gpu → Bool
less_available a b =
    if leb_ℤ b.available_memory_bytes a.available_memory_bytes then Bool.false else Bool.true

-- Best fit: the card with the least memory left stands first.
unfoldable pub fitting : ℕ → List Gpu → List Gpu
fitting model_size_bytes gpus = sort less_available (keep (fits model_size_bytes) gpus)

-- `gpu_map[idx].available_memory_bytes = change(...)`; of equal indices the dict keeps the last.
-- `none` is a KeyError.
unfoldable pub adjust : (ℤ → ℤ) → ℕ → List Gpu → Option (List Gpu)
adjust change idx [] = none
adjust change idx (gpu ∷ gpus) = elim (adjust change idx gpus) [
  | some gpus' ↦ some (gpu ∷ gpus')
  | none ↦
      if gpu.index == idx
      then some (record gpu { available_memory_bytes = change gpu.available_memory_bytes } ∷ gpus)
      else none
]

-- The loop over `allocation.items()`.
unfoldable pub adjust_all : (ℤ → ℕ → ℤ) → Dict ℕ → List Gpu → Option (List Gpu)
adjust_all op [] gpus = some gpus
adjust_all op ((idx, bytes) ∷ allocation) gpus =
    elim (adjust (λ available. op available bytes) idx gpus) [
      | none ↦ none
      | some gpus' ↦ adjust_all op allocation gpus'
    ]

abbrev pub minus : ℤ → ℕ → ℤ
minus available bytes = available -ℤ pos bytes

abbrev pub plus : ℤ → ℕ → ℤ
plus available bytes = available +ℤ pos bytes

abbrev pub allocate : Dict ℕ → List Gpu → Option (List Gpu)
allocate = adjust_all minus

abbrev pub release : Dict ℕ → List Gpu → Option (List Gpu)
release = adjust_all plus

pub record GpuResources : Type 0 where
  pub gpu_type : ℕ
  pub gpus : List Gpu

-- `available_memory_bytes` starts at `memory_bytes`, the node's memory scaled down by the cache
-- percentage.
pub record CpuResources : Type 0 where
  pub memory_bytes : ℕ
  pub available_memory_bytes : ℤ

abbrev pub allocate_cpu : ℕ → CpuResources → CpuResources
allocate_cpu size cpu = record cpu {
  available_memory_bytes = minus cpu.available_memory_bytes size;
}

abbrev pub release_cpu : ℕ → CpuResources → CpuResources
release_cpu size cpu = record cpu { available_memory_bytes = plus cpu.available_memory_bytes size }
