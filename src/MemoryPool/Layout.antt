-- ===== src/MemoryPool/Layout.antt =====
-- The byte layout of a `MemoryPool`: the block size and the addresses that it owns.
use hftperformance.Prelude.{ℕ, ◌+◌, ◌-◌, ◌*◌, ◌/◌, ◌%◌, ◌≤◌, ◌<◌, ◌≡◌, ◌↔◌, true, arith}
use native.Mathlib.Nat.{mul-mod_left}
use hftperformance.MemoryPool.{aligned_size, owns}

mul_lt : (i n k : ℕ) → i < n → 0 < k → i * k < n * k
mul_lt i n k h p = grind arith

-- For a positive alignment the block size is a multiple of it, holds the object, and wastes less than
-- one alignment.
pub aligned_size_bounds :
    (size alignment : ℕ)
    → 0 < alignment
    → (aligned_size size alignment % alignment ≡ 0)
      × (size ≤ aligned_size size alignment)
      × (aligned_size size alignment < size + alignment)
unfolding aligned_size
aligned_size_bounds size alignment h = (mul-mod_left _ alignment, ground arith, ground arith)

-- For a positive block size, `owns` accepts exactly the addresses at which one of the blocks starts.
pub owns_iff :
    (start size capacity ptr : ℕ)
    → 0 < size
    → (owns start size capacity ptr ≡ true) ↔ ((i : ℕ) × (i < capacity) × (ptr ≡ start + i * size))
unfolding owns
owns_iff start size capacity ptr h = (
  λ e. ((ptr - start) / size, grind arith, grind arith),
  λ w. ground (arith, mul-mod_left w.0 size, mul_lt w.0 capacity size w.1 h, w.2),
)
