-- ===== src/MemoryPool.antt =====
-- src/core/memory_pool.hpp, `MemoryPool`: a fixed number of blocks with a free list threaded
-- through the free ones.
-- A block is named by its index: block i starts at `storage_ + i * ALIGNED_SIZE`. `next` is what the
-- `FreeNode` of each block holds; what a live block holds is the client's and is not kept here.
pub mod FreeList
pub mod Layout
use hftperformance.Prelude.{
  ℕ, zero, suc, ◌+◌, ◌-◌, ◌*◌, ◌/◌, ◌%◌, ◌^◌, Bool, false, ◌||◌, Option, none, some, ltb, update,
  leb, ◌==◌, if◌then◌else◌,
}

pub record MemoryPool : Type 0 where
  pub capacity : ℕ
  pub next : ℕ → Option ℕ
  pub free_head : Option ℕ
  pub allocated_count : ℕ

-- The constructor's loop: `rounds` blocks from `i` on are still to be linked behind `current`.
unfoldable pub link_blocks : ℕ → ℕ → ℕ → (ℕ → Option ℕ) → ℕ → Option ℕ
link_blocks zero i current next = update next current none
link_blocks (suc rounds) i current next =
    link_blocks rounds (i + 1) i (update next current (some i))

-- The constructor; `Capacity > 0` is a static assertion.
unfoldable pub make_pool : ℕ → MemoryPool
make_pool capacity = record {
  capacity = capacity;
  next = link_blocks (capacity - 1) 1 0 (λ _. none);
  free_head = some 0;
  allocated_count = 0;
}

-- `allocate`: `none` stands for the null pointer.
unfoldable pub allocate : MemoryPool → Option ℕ × MemoryPool
allocate p = elim p.free_head [
  | none ↦ (none, p)
  | some block ↦ (
    some block,
    record p { free_head = p.next block; allocated_count = (p.allocated_count + 1) % 2 ^ 64 },
  )
]

-- `deallocate`, at a pointer of this pool, which its assertion demands.
unfoldable pub deallocate : Option ℕ → MemoryPool → MemoryPool
deallocate none p = p
deallocate (some block) p = record p {
  next = update p.next block p.free_head;
  free_head = some block;
  allocated_count = (p.allocated_count + 2 ^ 64 - 1) % 2 ^ 64;
}

-- `ALIGNED_SIZE`
unfoldable pub aligned_size : ℕ → ℕ → ℕ
aligned_size size alignment = (size + alignment - 1) / alignment * alignment

-- `owns`, at byte addresses: `start` is `storage_.get()`, `size` is `ALIGNED_SIZE`.
unfoldable pub owns : ℕ → ℕ → ℕ → ℕ → Bool
owns start size capacity ptr =
    if ltb ptr start || leb (start + capacity * size) ptr then false else (ptr - start) % size == 0

unfoldable pub available : MemoryPool → ℕ
available p = (p.capacity + 2 ^ 64 - p.allocated_count) % 2 ^ 64

unfoldable pub empty : MemoryPool → Bool
empty p = p.allocated_count == 0

unfoldable pub full : MemoryPool → Bool
full p = p.allocated_count == p.capacity
