-- ===== src/MemoryPool/FreeList.antt =====
-- The free list of a `MemoryPool`, as the list of the blocks that it runs through.
use hftperformance.Prelude.{
  ℕ, zero, suc, ◌+◌, ◌-◌, ◌^◌, ◌<◌, ◌≡◌, refl, List, [], ◌∷◌, Option, none, some, arith, length,
  All, NotIn, Distinct, update, update_self, update_ne, ◌⊎◌, inl, inr,
}
use hftperformance.MemoryPool.{MemoryPool, link_blocks, make_pool, allocate, deallocate}

-- From `h` the links run through exactly `xs`.
abbrev pub Chain : (ℕ → Option ℕ) → Option ℕ → List ℕ → Type 0
Chain next h [] = h ≡ none
Chain next h (x ∷ xs) = (h ≡ some x) × Chain next (next x) xs

pub record IsFreeList (p : MemoryPool) (xs : List ℕ) : Type 0 where
  pub chain : Chain p.next p.free_head xs
  pub distinct : Distinct xs
  pub within : All (λ x. x < p.capacity) xs
  pub counted : length xs + p.allocated_count ≡ p.capacity
  pub small : p.capacity < 2 ^ 64

Chain-update :
    (next : ℕ → Option ℕ) (n : ℕ) (v h : Option ℕ) (xs : List ℕ)
    → NotIn n xs
    → Chain next h xs
    → Chain (update next n v) h xs
Chain-update next n v h [] ni c = c
Chain-update next n v h (x ∷ xs) ni c =
    (c.0, rw (update_ne next v ni.0) (Chain-update next n v (next x) xs ni.1 c.1))

taken : MemoryPool → ℕ → MemoryPool
taken p x = record p { free_head = p.next x; allocated_count = p.allocated_count + 1 }

allocate-some :
    (p : MemoryPool) (x : ℕ)
    → p.free_head ≡ some x
    → p.allocated_count + 1 < 2 ^ 64
    → allocate p ≡ (some x, taken p x)
unfolding allocate taken
allocate-some p x e h = ground arith

taken-IsFreeList :
    (p : MemoryPool) (x : ℕ) (ys : List ℕ) → IsFreeList p (x ∷ ys) → IsFreeList (taken p x) ys
unfolding taken
taken-IsFreeList p x ys v = record {
  chain = v.chain.1;
  distinct = v.distinct.1;
  within = v.within.1;
  counted = omega (arith, v.counted);
  small = v.small;
}

-- An allocation from a right free list fails when it is empty, and then changes nothing; otherwise it
-- hands out the first free block and leaves the others free.
pub allocate-IsFreeList :
    (p : MemoryPool) (xs : List ℕ)
    → IsFreeList p xs
    → ((xs ≡ []) × (allocate p ≡ (none, p)))
      ⊎ ((x : ℕ) × (ys : List ℕ) × (q : MemoryPool) × (xs ≡ x ∷ ys)
          × (allocate p ≡ (some x, q))
          × IsFreeList q ys)
unfolding allocate
allocate-IsFreeList p [] v = inl (refl, ground (arith, v.chain))
allocate-IsFreeList p (x ∷ ys) v = inr (
  x,
  ys,
  taken p x,
  refl,
  allocate-some p x v.chain.0 (omega (arith, v.counted, v.small)),
  taken-IsFreeList p x ys v,
)

-- A block of the pool that is not free, given back while the count is positive, becomes the first
-- free one.
pub deallocate-IsFreeList :
    (p : MemoryPool) (x : ℕ) (xs : List ℕ)
    → IsFreeList p xs
    → x < p.capacity
    → NotIn x xs
    → 0 < p.allocated_count
    → IsFreeList (deallocate (some x) p) (x ∷ xs)
unfolding deallocate
deallocate-IsFreeList p x xs v hx ni h = record {
  chain = (
    refl,
    rw (update_self p.next x p.free_head)
        (Chain-update p.next x p.free_head p.free_head xs ni v.chain),
  );
  distinct = (ni, v.distinct);
  within = (hx, v.within);
  counted = omega (arith, v.counted, v.small);
  small = v.small;
}

-- The blocks i, …, i + rounds.
abbrev pub from_to : ℕ → ℕ → List ℕ
from_to i zero = i ∷ []
from_to i (suc rounds) = i ∷ from_to (i + 1) rounds

above : (i j rounds : ℕ) → i < j → NotIn i (from_to j rounds)
above i j zero h = (λ e. omega arith, tt)
above i j (suc rounds) h = (λ e. omega arith, above i (j + 1) rounds (omega arith))

from_to-Distinct : (i rounds : ℕ) → Distinct (from_to i rounds)
from_to-Distinct i zero = (tt, tt)
from_to-Distinct i (suc rounds) =
    (above i (i + 1) rounds (omega arith), from_to-Distinct (i + 1) rounds)

from_to-within : (i rounds n : ℕ) → i + rounds < n → All (λ x. x < n) (from_to i rounds)
from_to-within i zero n h = (omega arith, tt)
from_to-within i (suc rounds) n h = (omega arith, from_to-within (i + 1) rounds n (omega arith))

length-from_to : (i rounds : ℕ) → length (from_to i rounds) ≡ rounds + 1
length-from_to i zero = refl
length-from_to i (suc rounds) = omega (arith, length-from_to (i + 1) rounds)

-- The loop does not write below the block that it links.
link_blocks-below :
    (rounds i current n : ℕ) (next : ℕ → Option ℕ)
    → n < current
    → current < i
    → link_blocks rounds i current next n ≡ next n
unfolding link_blocks
link_blocks-below zero i current n next h k = ground arith
link_blocks-below (suc rounds) i current n next h k =
    ground (arith, link_blocks-below rounds (i + 1) i n (update next current (some i)))

link_blocks-Chain :
    (rounds current : ℕ) (next : ℕ → Option ℕ)
    → Chain (link_blocks rounds (current + 1) current next) (some current) (from_to current rounds)
unfolding link_blocks
link_blocks-Chain zero current next = (refl, ground arith)
link_blocks-Chain (suc rounds) current next =
    (refl, rw same (link_blocks-Chain rounds (current + 1) next'))
  where
    next' : ℕ → Option ℕ
    next' = update next current (some (current + 1))

    same : link_blocks rounds (current + 1 + 1) (current + 1) next' current ≡ some (current + 1)
    same = ground (arith, link_blocks-below rounds (current + 1 + 1) (current + 1) current next')

-- A new pool of at least one and less than 2 ^ 64 blocks has all its blocks free, in order.
pub make_pool-IsFreeList :
    (capacity : ℕ)
    → 0 < capacity
    → capacity < 2 ^ 64
    → IsFreeList (make_pool capacity) (from_to 0 (capacity - 1))
unfolding make_pool
make_pool-IsFreeList capacity h small = record {
  chain = link_blocks-Chain (capacity - 1) 0 (λ _. none);
  distinct = from_to-Distinct 0 (capacity - 1);
  within = from_to-within 0 (capacity - 1) capacity (omega arith);
  counted = omega (arith, length-from_to 0 (capacity - 1));
  small = small;
}

pub capacity-allocate : (p : MemoryPool) → (allocate p).1.capacity ≡ p.capacity
unfolding allocate
capacity-allocate p = ground arith
