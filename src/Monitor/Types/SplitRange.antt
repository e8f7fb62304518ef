-- ===== src/Monitor/Types/SplitRange.antt =====
-- SplitBlockRange ends, and hands every block of the range to exactly one query of bounded size.
use tokenbridge_monitor.Base.{
  ℕ, zero, suc, ◌+◌, ◌-◌, ◌≤◌, ◌<◌, ◌≡◌, refl, ◌⊎◌, inl, inr, some, List, [], ◌∷◌, arith, leb,
  if◌then◌else◌, uint_mod, add_uint, Bool-cases, leb→le, le→leb, ◌&&◌,
}
use tokenbridge_monitor.Monitor.Types.{BlocksRange, batch_to_block, split_loop, split_block_range}

-- The ranges follow one another from `from` to `to` with no gap, each of 1 to `max` blocks.
abbrev pub Tiles : ℕ → ℕ → ℕ → List BlocksRange → Type 0
Tiles max from to [] = to < from
Tiles max from to (r ∷ rs) =
    (r.from ≡ from)
    × (r.from ≤ r.to)
    × (r.to ≤ to)
    × (r.to < r.from + max)
    × Tiles max (r.to + 1) to rs

-- How many of the ranges a block lies in.
abbrev pub hits : ℕ → List BlocksRange → ℕ
hits b [] = 0
hits b (r ∷ rs) = (if leb r.from b && leb b r.to then 1 else 0) + hits b rs

Tiles-restart :
    (max f g to : ℕ) (rs : List BlocksRange)
    → (f ≡ g) ⊎ ((to < f) × (to < g))
    → Tiles max f to rs
    → Tiles max g to rs
Tiles-restart max f g to [] h t = omega arith
Tiles-restart max f g to (r ∷ rs) h t = (omega arith, t.1, t.2, t.3, t.4)

-- Where the last sum does not wrap, the end of a batch is the smaller of two bounds.
batch_to_block_bounds :
    (from to max : ℕ)
    → 0 < max
    → to + max < uint_mod
    → from ≤ to
    → (from ≤ batch_to_block from to max)
      × (batch_to_block from to max ≤ to)
      × (batch_to_block from to max < from + max)
      × ((from + max ≡ batch_to_block from to max + 1)
          ⊎ ((to < from + max) × (to < batch_to_block from to max + 1)))
unfolding batch_to_block
batch_to_block_bounds from to max p h l = ground arith

split_loop-suc :
    (fuel from to max : ℕ) (rs : List BlocksRange)
    → from ≤ to
    → to + max < uint_mod
    → split_loop fuel (from + max) to max ≡ some rs
    → split_loop (suc fuel) from to max
      ≡ some (record { from = from; to = batch_to_block from to max } ∷ rs)
unfolding split_loop
split_loop-suc fuel from to max rs l h e =
    let next : add_uint from max ≡ from + max = omega arith in rw (le→leb from to l, next, e)

split_loop-Tiles :
    (fuel from to max : ℕ)
    → 0 < max
    → to + max < uint_mod
    → to + 1 - from < fuel
    → (rs : List BlocksRange) × (split_loop fuel from to max ≡ some rs) × Tiles max from to rs
unfolding split_loop
split_loop-Tiles zero from to max p h l = absurd (omega arith)
split_loop-Tiles (suc fuel) from to max p h l = elim (Bool-cases (leb from to)) [
  | inr stop ↦ ([], rw stop, ground arith)
  | inl more ↦
      let bounds = batch_to_block_bounds from to max p h (leb→le from to more) in
      let (rs, e, t) = split_loop-Tiles fuel (from + max) to max p h (omega arith) in
      (
        record { from = from; to = batch_to_block from to max } ∷ rs,
        split_loop-suc fuel from to max rs (leb→le from to more) h e,
        (refl, bounds.0, bounds.1, bounds.2, Tiles-restart max _ _ to rs bounds.3 t),
      )
]

hits-Tiles :
    (max from to b : ℕ) (rs : List BlocksRange)
    → Tiles max from to rs
    → hits b rs ≡ (if leb from b && leb b to then 1 else 0)
hits-Tiles max from to b [] t = ground arith
hits-Tiles max from to b (r ∷ rs) t = ground (arith, hits-Tiles max (r.to + 1) to b rs t.4)

-- SplitBlockRange ends and returns consecutive ranges that start at `from`, end at `to`, and hold
-- 1 to `max` blocks each, provided that `max` is not 0 and `to + max` does not pass 2^64.
pub split_block_range-Tiles :
    (from to max : ℕ)
    → 0 < max
    → to + max < uint_mod
    → (rs : List BlocksRange) × (split_block_range from to max ≡ some rs) × Tiles max from to rs
unfolding split_block_range
split_block_range-Tiles from to max p h =
    split_loop-Tiles (suc (to + 1 - from)) from to max p h (omega arith)

-- Under the same conditions each block from `from` to `to` lies in exactly one of the ranges that
-- SplitBlockRange returns, and every other block in none.
pub hits-split_block_range :
    (from to max : ℕ)
    → 0 < max
    → to + max < uint_mod
    → (rs : List BlocksRange) × (split_block_range from to max ≡ some rs)
      × ((b : ℕ) → hits b rs ≡ (if leb from b && leb b to then 1 else 0))
hits-split_block_range from to max p h =
    let (rs, e, t) = split_block_range-Tiles from to max p h in
    (rs, e, λ b. hits-Tiles max from to b rs t)
