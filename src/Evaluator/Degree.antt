-- ===== src/Evaluator/Degree.antt =====
-- evaluator.py: `tp_degree` and the degree that it looks for.
use native.Mathlib.Decide.{ℕ_discrete, dec_lt}
use ndif.Prelude.{
  ℕ, zero, suc, ◌+◌, ◌-◌, ◌%◌, ◌≤◌, ◌<◌, ◌≡◌, ◌≢◌, refl, ap, inl, inr, Option, none, some, arith,
  ltb, ◌==◌, ltb→lt, ==_iff, Bool-cases,
}
use ndif.Evaluator.{first_divisor, tp_degree}

-- A degree that works for at least `low` cards, none below it.
pub record IsLeastDivisor (limit low degree : ℕ) : Type 0 where
  pub enough : low ≤ degree
  pub divides : limit % degree ≡ 0
  pub least : (e : ℕ) → low ≤ e → e < degree → limit % e ≢ 0

-- The loop from `low`: what it answers on each outcome.
abbrev Search : ℕ → ℕ → ℕ → Option ℕ → Type 0
Search rounds limit low (some degree) = IsLeastDivisor limit low degree × (degree < low + rounds)
Search rounds limit low none = (e : ℕ) → low ≤ e → e < low + rounds → limit % e ≢ 0

widen :
    (limit low bound : ℕ)
    → limit % low ≢ 0
    → ((e : ℕ) → low + 1 ≤ e → e < bound → limit % e ≢ 0)
    → (e : ℕ) → low ≤ e
    → e < bound
    → limit % e ≢ 0
widen limit low bound first rest e h k = elim (ℕ_discrete low e) [
  | yes p ↦ rw p at first
  | no p ↦ rest e (omega arith) k
]

widen-Outcome :
    (rounds limit low : ℕ) (r : Option ℕ)
    → limit % low ≢ 0
    → Search rounds limit (low + 1) r
    → Search (suc rounds) limit low r
widen-Outcome rounds limit low none first o =
    λ e h k. widen limit low (low + suc rounds) first (λ e' h' k'. o e' h' (omega arith)) e h k
widen-Outcome rounds limit low (some d) first o = (
  record {
    enough = omega (arith, o.0.enough);
    divides = o.0.divides;
    least = widen limit low d first o.0.least;
  },
  omega (arith, o.1),
)

first_divisor-Outcome :
    (rounds limit low : ℕ) → Search rounds limit low (first_divisor rounds limit low)
unfolding first_divisor
first_divisor-Outcome zero limit low = λ e h k. absurd (omega arith)
first_divisor-Outcome (suc rounds) limit low = elim (Bool-cases (limit % low == 0)) [
  | inl hit ↦ rw hit (
    record {
      enough = omega arith;
      divides = (==_iff _ _).0 hit;
      least = λ e h k. absurd (omega arith);
    },
    omega arith,
  )
  | inr miss ↦ rw miss (
      widen-Outcome rounds limit low (first_divisor rounds limit (low + 1)) (ground arith)
        (first_divisor-Outcome rounds limit (low + 1)))
]

-- What `tp_degree` promises of each answer.
abbrev pub Degree : ℕ → ℕ → Option ℕ → Type 0
Degree limit gpus (some degree) = IsLeastDivisor limit gpus degree × (2 ≤ gpus) × (degree ≤ limit)
Degree limit gpus none = (e : ℕ) → 2 ≤ gpus → gpus ≤ e → e ≤ limit → limit % e ≢ 0

Degree-of-Outcome :
    (limit gpus : ℕ) (r : Option ℕ)
    → 2 ≤ gpus
    → Search (limit + 1 - gpus) limit gpus r
    → Degree limit gpus r
Degree-of-Outcome limit gpus none h o = λ e _ k m. o e k (omega arith)
Degree-of-Outcome limit gpus (some d) h o = (o.0, h, omega (arith, o.0.enough, o.1))

-- Given a model that shards at most `limit` ways and a number of cards, `tp_degree` answers with
-- the least divisor of the limit that is at least the number of cards, for two cards or more; it
-- answers `None` only where one card is enough or no divisor of the limit is that large.
pub tp_degree-Degree : (limit gpus : ℕ) → Degree limit gpus (tp_degree (some limit) gpus)
unfolding tp_degree
tp_degree-Degree limit gpus = elim (Bool-cases (ltb gpus 2)) [
  | inl one ↦ rw one (λ e h k m. absurd (omega (arith, ltb→lt gpus 2 one)))
  | inr more ↦ rw more (
      Degree-of-Outcome limit gpus (first_divisor (limit + 1 - gpus) limit gpus) (ground arith)
        (first_divisor-Outcome (limit + 1 - gpus) limit gpus))
]

Degree-self :
    (limit gpus : ℕ) (r : Option ℕ)
    → 2 ≤ gpus
    → gpus ≤ limit
    → limit % gpus ≡ 0
    → Degree limit gpus r
    → r ≡ some gpus
Degree-self limit gpus none h k z o = absurd (o gpus h (omega arith) k z)
Degree-self limit gpus (some d) h k z o = elim (dec_lt gpus d) [
  | yes below ↦ absurd (o.0.least gpus (omega arith) below z)
  | no reached ↦ ap some (omega (arith, o.0.enough))
]

-- A count of at least two cards that divides the limit is accepted as it is.
pub tp_degree_self :
    (limit gpus : ℕ)
    → 2 ≤ gpus
    → gpus ≤ limit
    → limit % gpus ≡ 0
    → tp_degree (some limit) gpus ≡ some gpus
tp_degree_self limit gpus h k z =
    Degree-self limit gpus (tp_degree (some limit) gpus) h k z (tp_degree-Degree limit gpus)

rewrite-Degree :
    (limit gpus d : ℕ) (r : Option ℕ)
    → r ≡ some d
    → Degree limit gpus r
    → Degree limit gpus (some d)
rewrite-Degree limit gpus d r e o = rw e at o

pub Degree-tp_degree :
    (limit gpus d : ℕ) → tp_degree (some limit) gpus ≡ some d → Degree limit gpus (some d)
Degree-tp_degree limit gpus d e =
    rewrite-Degree limit gpus d (tp_degree (some limit) gpus) e (tp_degree-Degree limit gpus)

-- Rounding a count up to a degree is done once: the degree is then accepted as it is.
tp_degree_idem :
    (limit gpus d : ℕ) → tp_degree (some limit) gpus ≡ some d → tp_degree (some limit) d ≡ some d
tp_degree_idem limit gpus d e =
    let o = Degree-tp_degree limit gpus d e in
    tp_degree_self limit d (omega (arith, o.0.enough, o.1)) o.2 o.0.divides

pub tp_degree-none : (gpus : ℕ) → tp_degree none gpus ≡ none
unfolding tp_degree
tp_degree-none gpus = refl
