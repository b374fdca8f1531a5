-- ===== src/Evaluator/Sizing.antt =====
-- evaluator.py: the size that placement works with, and the memo behind it.
use ndif.Prelude.{ℕ, ◌+◌, ◌*◌, ◌≤◌, ◌<◌, ◌≡◌, Option, arith}
use ndif.Prelude.Dict.{lookup-set}
use ndif.Evaluator.{
  ModelKey, DtypeName, Hub, Factor, ModelEvaluator, CacheEntry, ok, entry, ceil_div, padded_size,
}

-- The quotient rounded up is the least number that covers the dividend.
pub ceil_div_bounds : (a b : ℕ) → 0 < b → (a ≤ ceil_div a b * b) × (ceil_div a b * b < a + b)
unfolding ceil_div
ceil_div_bounds a b h = grind arith

-- With a positive denominator, the padded size covers the weights, their padding and the flat
-- bias, and misses the exact sum by less than a byte.
pub padded_size_bounds :
    (base bias : ℕ) (f : Factor)
    → 0 < f.den
    → (base * f.den + base * f.num + bias * f.den ≤ padded_size base f bias * f.den)
      × (padded_size base f bias * f.den < base * f.den + base * f.num + bias * f.den + f.den)
unfolding padded_size ceil_div
padded_size_bounds base bias f h = grind (arith, ceil_div_bounds (base * f.num) f.den h)

-- An answer that was stored is given again, whatever the hub then says.
entry_memo :
    (hub later : Hub) (ev ev' : ModelEvaluator) (k : ModelKey) (dtype : Option DtypeName)
    (e : CacheEntry)
    → entry hub ev k dtype ≡ (ok e, ev')
    → entry later ev' k dtype ≡ (ok e, ev')
unfolding entry
entry_memo hub later ev ev' k dtype e h = ground (arith, lookup-set k k e ev.cache)
