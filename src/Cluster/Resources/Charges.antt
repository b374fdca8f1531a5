-- ===== src/Cluster/Resources/Charges.antt =====
-- `allocate` and `release` as one pass over the cards.
use ndif.Prelude.{
  ℕ, ◌+◌, ◌≡◌, ◌≢◌, refl, sym, ap, none, some, List, [], ◌∷◌, map, All, All_imp, ◌∙◌, ◌⊎◌, inl, inr,
  ◌==◌, if◌then◌else◌, arith,
}
use ndif.Prelude.Dict.{Dict}
use ndif.Prelude.Int.{ℤ, int_laws}
use ndif.Cluster.Resources.{Gpu, adjust, adjust_all, allocate, release, minus, plus}

-- What an allocation takes of card `i`.
unfoldable pub charge : ℕ → Dict ℕ → ℕ
charge i [] = 0
charge i ((idx, bytes) ∷ allocation) = (if idx == i then bytes else 0) + charge i allocation

-- Every card has an index of its own.
abbrev pub Distinct : List Gpu → Type 0
Distinct [] = Unit {0}
Distinct (gpu ∷ gpus) = All (λ other. other.index ≢ gpu.index) gpus × Distinct gpus

-- A card of this index is there.
abbrev pub IsCard : ℕ → List Gpu → Type 0
IsCard i [] = ⊥
IsCard i (gpu ∷ gpus) = (gpu.index ≡ i) ⊎ IsCard i gpus

-- Every index of the allocation is a card's.
abbrev pub Fitted : Dict ℕ → List Gpu → Type 0
Fitted allocation gpus = All (λ entry. IsCard entry.0 gpus) allocation

abbrev pub charged : (ℤ → ℕ → ℤ) → Dict ℕ → Gpu → Gpu
charged op allocation gpu = record gpu {
  available_memory_bytes = op gpu.available_memory_bytes (charge gpu.index allocation);
}

module _ (f : Gpu → Gpu) (same : (gpu : Gpu) → (f gpu).index ≡ gpu.index) where
  pub All-index :
      (i : ℕ) (gpus : List Gpu)
      → All (λ other. other.index ≢ i) gpus
      → All (λ other. other.index ≢ i) (map f gpus)
  All-index i [] a = tt
  All-index i (gpu ∷ gpus) a = (rw (same gpu) a.0, All-index i gpus a.1)

  pub map-Distinct : (gpus : List Gpu) → Distinct gpus → Distinct (map f gpus)
  map-Distinct [] d = tt
  map-Distinct (gpu ∷ gpus) d =
      (rw (same gpu) (All-index gpu.index gpus d.0), map-Distinct gpus d.1)

  pub map-IsCard : (i : ℕ) (gpus : List Gpu) → IsCard i gpus → IsCard i (map f gpus)
  map-IsCard i [] c = c
  map-IsCard i (gpu ∷ gpus) (inl e) = inl (same gpu ∙ e)
  map-IsCard i (gpu ∷ gpus) (inr c) = inr (map-IsCard i gpus c)

  pub map-Fitted :
      (allocation : Dict ℕ) (gpus : List Gpu)
      → Fitted allocation gpus
      → Fitted allocation (map f gpus)
  map-Fitted allocation gpus =
      All_imp (λ entry. IsCard entry.0 gpus) (λ entry. IsCard entry.0 (map f gpus)) allocation
        (λ entry. map-IsCard entry.0 gpus)

-- One card written.
abbrev touch : (ℤ → ℤ) → ℕ → Gpu → Gpu
touch change idx gpu =
    if gpu.index == idx
    then record gpu { available_memory_bytes = change gpu.available_memory_bytes }
    else gpu

touch-index : (change : ℤ → ℤ) (idx : ℕ) (gpu : Gpu) → (touch change idx gpu).index ≡ gpu.index
touch-index change idx gpu = ground arith

-- A card among the others is none of the excluded index.
IsCard-ne :
    (i j : ℕ) (gpus : List Gpu) → All (λ other. other.index ≢ i) gpus → IsCard j gpus → i ≢ j
IsCard-ne i j [] a c = absurd c
IsCard-ne i j (gpu ∷ gpus) a (inl e) = λ p. a.0 (e ∙ sym p)
IsCard-ne i j (gpu ∷ gpus) a (inr c) = IsCard-ne i j gpus a.1 c

module _ (change : ℤ → ℤ) (idx : ℕ) where
  map-touch_absent :
      (gpus : List Gpu) → All (λ other. other.index ≢ idx) gpus → map (touch change idx) gpus ≡ gpus
  map-touch_absent [] a = refl
  map-touch_absent (gpu ∷ gpus) a = ground (arith, map-touch_absent gpus a.1, a.0)

  adjust_absent :
      (gpus : List Gpu) → All (λ other. other.index ≢ idx) gpus → adjust change idx gpus ≡ none
  unfolding adjust
  adjust_absent [] a = refl
  adjust_absent (gpu ∷ gpus) a = ground (arith, adjust_absent gpus a.1, a.0)

  adjust_lem :
      (gpus : List Gpu)
      → Distinct gpus
      → IsCard idx gpus
      → adjust change idx gpus ≡ some (map (touch change idx) gpus)
  unfolding adjust
  adjust_lem [] d c = absurd c
  adjust_lem (gpu ∷ gpus) d (inl e) =
      let others : All (λ other. other.index ≢ idx) gpus = rw e at d.0 in
      ground (arith, adjust_absent gpus others, map-touch_absent gpus others)
  adjust_lem (gpu ∷ gpus) d (inr c) =
      ground (arith, adjust_lem gpus d.1 c, IsCard-ne gpu.index idx gpus d.0 c)

module _ (op : ℤ → ℕ → ℤ) (op-zero : (a : ℤ) → op a 0 ≡ a)
    (op-op : (a : ℤ) (x y : ℕ) → op (op a x) y ≡ op a (x + y)) where
  charged_nil : (gpus : List Gpu) → map (charged op []) gpus ≡ gpus
  unfolding charge
  charged_nil [] = refl
  charged_nil (gpu ∷ gpus) = ground (arith, charged_nil gpus, op-zero gpu.available_memory_bytes)

  charged_cons :
      (idx bytes : ℕ) (allocation : Dict ℕ) (gpus : List Gpu)
      → map (charged op allocation) (map (touch (λ a. op a bytes) idx) gpus)
        ≡ map (charged op ((idx, bytes) ∷ allocation)) gpus
  unfolding charge
  charged_cons idx bytes allocation [] = refl
  charged_cons idx bytes allocation (gpu ∷ gpus) = ground (
    arith,
    charged_cons idx bytes allocation gpus,
    op-op gpu.available_memory_bytes bytes (charge gpu.index allocation),
  )

  pub adjust_all_lem :
      (allocation : Dict ℕ) (gpus : List Gpu)
      → Distinct gpus
      → Fitted allocation gpus
      → adjust_all op allocation gpus ≡ some (map (charged op allocation) gpus)
  unfolding adjust_all
  adjust_all_lem [] gpus d f = ap some (sym (charged_nil gpus))
  adjust_all_lem ((idx, bytes) ∷ allocation) gpus d f =
      let change = λ (a : ℤ). op a bytes in
      let same = touch-index change idx in
      ground (
        arith,
        adjust_lem change idx gpus d f.0,
        adjust_all_lem allocation (map (touch change idx) gpus)
            (map-Distinct (touch change idx) same gpus d)
            (map-Fitted (touch change idx) same allocation gpus f.1),
        charged_cons idx bytes allocation gpus,
      )

minus-minus : (a : ℤ) (x y : ℕ) → minus (minus a x) y ≡ minus a (x + y)
minus-minus a x y = omega int_laws

plus-plus : (a : ℤ) (x y : ℕ) → plus (plus a x) y ≡ plus a (x + y)
plus-plus a x y = omega int_laws

-- With distinct cards that all know the allocation's indices, booking it succeeds and takes of
-- every card what the allocation names for it.
pub allocate_lem :
    (allocation : Dict ℕ) (gpus : List Gpu)
    → Distinct gpus
    → Fitted allocation gpus
    → allocate allocation gpus ≡ some (map (charged minus allocation) gpus)
allocate_lem = adjust_all_lem minus (λ a. omega int_laws) minus-minus

-- The same of giving it back.
pub release_lem :
    (allocation : Dict ℕ) (gpus : List Gpu)
    → Distinct gpus
    → Fitted allocation gpus
    → release allocation gpus ≡ some (map (charged plus allocation) gpus)
release_lem = adjust_all_lem plus (λ a. omega int_laws) plus-plus
