-- ===== src/SpscQueue.antt =====
-- src/core/lockfree_queue.hpp, `SPSCQueue`: the ring of `capacity` slots, one of which stays empty.
-- `capacity` is a power of two, so that `& MASK` is the remainder by it. A slot that holds no element has
-- any contents. The atomic accesses of one call are one step; the calls of the producer and of the
-- consumer come in any order.
pub mod Ring
pub mod Refine
use hftperformance.Prelude.{
  ℕ, ◌+◌, ◌-◌, ◌%◌, Bool, true, false, Option, none, some, update, ◌==◌, if◌then◌else◌,
}

pub record SpscQueue {ℓ} (A : Type ℓ) : Type ℓ where
  pub capacity : ℕ
  pub buffer : ℕ → A
  pub head : ℕ
  pub tail : ℕ
  pub cached_head : ℕ
  pub cached_tail : ℕ

-- The constructor, on raw storage.
unfoldable pub make_queue {ℓ} : {A : Type ℓ} → ℕ → (ℕ → A) → SpscQueue A
make_queue capacity raw = record {
  capacity = capacity;
  buffer = raw;
  head = 0;
  tail = 0;
  cached_head = 0;
  cached_tail = 0;
}

-- `increment`
unfoldable pub increment : ℕ → ℕ → ℕ
increment capacity index = (index + 1) % capacity

-- The test for a full queue, which reads `head_` only when the cached one says full.
unfoldable pub refresh_head {ℓ} : {A : Type ℓ} → SpscQueue A → SpscQueue A
unfolding increment
refresh_head q =
    if increment q.capacity q.tail == q.cached_head then record q { cached_head = q.head } else q

-- `try_push`
unfoldable pub try_push {ℓ} : {A : Type ℓ} → A → SpscQueue A → Bool × SpscQueue A
unfolding increment refresh_head
try_push value q =
    let next_tail = increment q.capacity q.tail in
    let seen = refresh_head q in
    if next_tail == seen.cached_head
    then (false, seen)
    else (true, record seen { buffer = update q.buffer q.tail value; tail = next_tail })

-- The test for an empty queue, which reads `tail_` only when the cached one says empty.
unfoldable pub refresh_tail {ℓ} : {A : Type ℓ} → SpscQueue A → SpscQueue A
refresh_tail q = if q.head == q.cached_tail then record q { cached_tail = q.tail } else q

-- `try_pop`
unfoldable pub try_pop {ℓ} : {A : Type ℓ} → SpscQueue A → Option A × SpscQueue A
unfolding increment refresh_tail
try_pop q =
    let seen = refresh_tail q in
    if q.head == seen.cached_tail
    then (none, seen)
    else (some (q.buffer q.head), record seen { head = increment q.capacity q.head })

-- `front`
unfoldable pub front {ℓ} : {A : Type ℓ} → SpscQueue A → Option A
front q = if q.head == q.tail then none else some (q.buffer q.head)

-- `empty`
unfoldable pub empty {ℓ} : {A : Type ℓ} → SpscQueue A → Bool
empty q = q.head == q.tail
