-- ===== src/SpscQueue/Refine.antt =====
-- The ring is a bounded first-in first-out queue of `capacity - 1` elements, and the cached indices do
-- not show.
use hftperformance.Prelude.{
  ℕ, ◌+◌, ◌-◌, ◌<◌, ◌≤◌, ◌≡◌, ◌↔◌, refl, ◌∙◌, ap, List, [], ◌∷◌, ◌++◌, Option, none, some, Bool,
  true, false, arith, if◌then◌else◌, ◌==◌, length, length-append, update, inl, inr, Bool-cases,
}
use mathlib.Core.Path.{ap₂}
use hftperformance.SpscQueue.{
  SpscQueue, make_queue, increment, refresh_head, try_push, refresh_tail, try_pop,
}
use hftperformance.SpscQueue.Ring.{slot, increment-slot, slot-slot, Holds, Holds-push}

-- The ring holds `xs`. The consumer's cached tail has seen the first `ahead` of them, and the producer's
-- cached head has missed the last `behind` pops.
pub record IsRing {ℓ} {A : Type ℓ} (q : SpscQueue A) (xs : List A) : Type ℓ where
  pub ahead : ℕ
  pub behind : ℕ
  pub in_range : q.head < q.capacity
  pub tail_at : q.tail ≡ slot q.capacity q.head (length xs)
  pub holds : Holds q.buffer q.capacity q.head xs
  pub seen_tail : q.cached_tail ≡ slot q.capacity q.head ahead
  pub not_ahead : ahead ≤ length xs
  pub seen_head : q.head ≡ slot q.capacity q.cached_head behind
  pub cached_in_range : q.cached_head < q.capacity
  pub room : behind + length xs + 1 ≤ q.capacity

-- A new ring of at least two slots is empty.
pub make_queue-IsRing {ℓ} :
    {A : Type ℓ} (capacity : ℕ) (raw : ℕ → A) → 2 ≤ capacity → IsRing (make_queue capacity raw) []
unfolding make_queue
make_queue-IsRing capacity raw h = record {
  ahead = 0;
  behind = 0;
  in_range = omega arith;
  tail_at = ground arith;
  holds = tt;
  seen_tail = ground arith;
  not_ahead = omega arith;
  seen_head = ground arith;
  cached_in_range = omega arith;
  room = omega arith;
}

-- The ring after the producer, and after the consumer, has read the other's index again.
producer_looks {ℓ} :
    {A : Type ℓ} (q : SpscQueue A) (xs : List A)
    → IsRing q xs
    → IsRing (record q { cached_head = q.head }) xs
producer_looks q xs v = record {
  ahead = v.ahead;
  behind = 0;
  in_range = v.in_range;
  tail_at = v.tail_at;
  holds = v.holds;
  seen_tail = v.seen_tail;
  not_ahead = v.not_ahead;
  seen_head = ground (arith, v.in_range);
  cached_in_range = v.in_range;
  room = omega (arith, v.room);
}

consumer_looks {ℓ} :
    {A : Type ℓ} (q : SpscQueue A) (xs : List A)
    → IsRing q xs
    → IsRing (record q { cached_tail = q.tail }) xs
consumer_looks q xs v = record {
  ahead = length xs;
  behind = v.behind;
  in_range = v.in_range;
  tail_at = v.tail_at;
  holds = v.holds;
  seen_tail = v.tail_at;
  not_ahead = omega arith;
  seen_head = v.seen_head;
  cached_in_range = v.cached_in_range;
  room = v.room;
}

module _ {ℓ} {A : Type ℓ} (q : SpscQueue A) (xs : List A) (v : IsRing q xs) where
  next_tail : increment q.capacity q.tail ≡ slot q.capacity q.head (length xs + 1)
  next_tail =
      increment-slot q.capacity q.tail (ground (arith, v.tail_at, v.in_range, v.room))
      ∙ ground (arith, v.tail_at, v.in_range, v.room)

  full_cached :
      (increment q.capacity q.tail == q.cached_head) ≡ false → v.behind + length xs + 1 < q.capacity
  full_cached e = ground (arith, e, next_tail, v.in_range, v.room, v.seen_head, v.cached_in_range)

  full_head : ((increment q.capacity q.tail == q.head) ≡ true) ↔ (length xs + 1 ≡ q.capacity)
  full_head = ground (arith, next_tail, v.in_range, v.room)

  empty_tail : ((q.head == q.tail) ≡ true) ↔ (length xs ≡ 0)
  empty_tail = ground (arith, v.tail_at, v.in_range, v.room)

  empty_cached : (q.head == q.cached_tail) ≡ false → 0 < v.ahead
  empty_cached e = ground (arith, e, v.seen_tail, v.in_range)

  -- The write of an element and of the tail.
  pushed : A → SpscQueue A
  pushed x = record q { buffer = update q.buffer q.tail x; tail = increment q.capacity q.tail }

  pushed-IsRing : (x : A) → v.behind + length xs + 1 < q.capacity → IsRing (pushed x) (xs ++ x ∷ [])
  unfolding pushed
  pushed-IsRing x r = record {
    ahead = v.ahead;
    behind = v.behind;
    in_range = v.in_range;
    tail_at = next_tail ∙ ground (arith, length-append xs (x ∷ []));
    holds =
        rw (v.tail_at)
          (Holds-push q.buffer q.capacity q.head xs x v.in_range (omega (arith, r)) v.holds);
    seen_tail = v.seen_tail;
    not_ahead = omega (arith, v.not_ahead, length-append xs (x ∷ []));
    seen_head = v.seen_head;
    cached_in_range = v.cached_in_range;
    room = omega (arith, r, length-append xs (x ∷ []));
  }

  -- The move of the head behind the first element.
  popped : SpscQueue A
  popped = record q { head = increment q.capacity q.head }

module _ {ℓ} {A : Type ℓ} (q : SpscQueue A) (x : A) (xs : List A) (v : IsRing q (x ∷ xs)) where
  popped-IsRing : 0 < v.ahead → IsRing (popped q (x ∷ xs) v) xs
  unfolding popped
  popped-IsRing h = rw (increment-slot q.capacity q.head v.in_range) (record {
    ahead = v.ahead - 1;
    behind = v.behind + 1;
    in_range = ground (arith, v.in_range);
    tail_at = ground (
      arith,
      v.tail_at,
      slot-slot q.capacity q.head 1 (length xs) v.in_range (omega (arith, v.room)),
    );
    holds = v.holds.1;
    seen_tail = ground (
      arith,
      v.seen_tail,
      slot-slot q.capacity q.head 1 (v.ahead - 1) v.in_range
          (omega (arith, v.room, v.not_ahead, h)),
      h,
    );
    not_ahead = omega (arith, v.not_ahead, h);
    seen_head = ground (arith, v.seen_head, v.cached_in_range, v.room);
    cached_in_range = v.cached_in_range;
    room = omega (arith, v.room);
  })

-- A bounded first-in first-out queue, of less than `capacity` elements.
unfoldable pub fifo_push {ℓ} : {A : Type ℓ} → ℕ → A → List A → Bool × List A
fifo_push capacity x xs = if length xs + 1 == capacity then (false, xs) else (true, xs ++ x ∷ [])

unfoldable pub fifo_pop {ℓ} : {A : Type ℓ} → List A → Option A × List A
fifo_pop [] = (none, [])
fifo_pop (x ∷ xs) = (some x, xs)

-- The ring of the result of a call, and that its answer is right.
pub record Agrees {ℓ κ} {A : Type ℓ} {B : Type κ} (capacity : ℕ) (r : B × SpscQueue A)
    (s : B × List A) : Type (ℓ ⊔ κ) where
  pub answer : r.0 ≡ s.0
  pub ring : IsRing r.1 s.1
  pub keeps : r.1.capacity ≡ capacity

module _ {ℓ} {A : Type ℓ} (q : SpscQueue A) where
  pub try_push-Agrees :
      (x : A) (xs : List A)
      → IsRing q xs
      → Agrees q.capacity (try_push x q) (fifo_push q.capacity x xs)
  unfolding try_push fifo_push refresh_head pushed
  try_push-Agrees x xs v = elim (Bool-cases (increment q.capacity q.tail == q.cached_head)) [
    | inr e ↦
        let some_room = full_cached q xs v e in
        let not_full : (length xs + 1 == q.capacity) ≡ false = ground (arith, some_room) in
        rw (e, e, not_full)
          (record { answer = refl; ring = pushed-IsRing q xs v x some_room; keeps = refl })
    | inl e ↦ elim (Bool-cases (increment q.capacity q.tail == q.head)) [
      | inl f ↦
          let full : (length xs + 1 == q.capacity) ≡ true =
            ground (arith, (full_head q xs v).0 f) in
          rw (e, f, full) (record { answer = refl; ring = producer_looks q xs v; keeps = refl })
      | inr f ↦
          let not_full : (length xs + 1 == q.capacity) ≡ false =
            ground (arith, full_head q xs v, f) in
          rw (e, f, not_full)
            (record {
              answer = refl;
              ring =
                  pushed-IsRing (record q { cached_head = q.head }) xs (producer_looks q xs v) x
                    (ground (arith, not_full, v.room));
              keeps = refl;
            })
    ]
  ]

  pub try_pop-Agrees : (xs : List A) → IsRing q xs → Agrees q.capacity (try_pop q) (fifo_pop xs)
  unfolding try_pop fifo_pop refresh_tail popped
  try_pop-Agrees [] v =
      let none_left : (q.head == q.tail) ≡ true = (empty_tail q [] v).1 refl in
      elim (Bool-cases (q.head == q.cached_tail)) [
        | inl e ↦
            rw (e, none_left) (record { answer = refl; ring = consumer_looks q [] v; keeps = refl })
        | inr e ↦ absurd (omega (arith, empty_cached q [] v e, v.not_ahead))
      ]
  try_pop-Agrees (x ∷ xs) v =
      let some_left : (q.head == q.tail) ≡ false = ground (arith, empty_tail q (x ∷ xs) v) in
      let first : some (q.buffer q.head) ≡ some x = ap some (v.holds.0) in
      elim (Bool-cases (q.head == q.cached_tail)) [
        | inl e ↦
            rw (e, some_left)
              (record {
                answer = first;
                ring =
                    popped-IsRing (record q { cached_tail = q.tail }) x xs
                      (consumer_looks q (x ∷ xs) v) (ground arith);
                keeps = refl;
              })
        | inr e ↦
            rw (e, e)
              (record {
                answer = first;
                ring = popped-IsRing q x xs v (empty_cached q (x ∷ xs) v e);
                keeps = refl;
              })
      ]

-- A call of the producer or of the consumer, and what it returns.
pub data Call {ℓ} (A : Type ℓ) : Type ℓ where
  push_of : A → Call A
  pop_of : Call A

pub data Answer {ℓ} (A : Type ℓ) : Type ℓ where
  pushed_is : Bool → Answer A
  popped_is : Option A → Answer A

-- The answers to calls in the given order: of the ring, and of the bounded queue.
unfoldable pub answers {ℓ} : {A : Type ℓ} → List (Call A) → SpscQueue A → List (Answer A)
answers [] q = []
answers (push_of x ∷ calls) q = let r = try_push x q in pushed_is r.0 ∷ answers calls r.1
answers (pop_of ∷ calls) q = let r = try_pop q in popped_is r.0 ∷ answers calls r.1

unfoldable pub fifo_answers {ℓ} : {A : Type ℓ} → ℕ → List (Call A) → List A → List (Answer A)
fifo_answers capacity [] xs = []
fifo_answers capacity (push_of x ∷ calls) xs =
    let r = fifo_push capacity x xs in pushed_is r.0 ∷ fifo_answers capacity calls r.1
fifo_answers capacity (pop_of ∷ calls) xs =
    let r = fifo_pop xs in popped_is r.0 ∷ fifo_answers capacity calls r.1

answers-fifo_answers {ℓ} :
    {A : Type ℓ} (calls : List (Call A)) (q : SpscQueue A) (xs : List A)
    → IsRing q xs
    → answers calls q ≡ fifo_answers q.capacity calls xs
unfolding answers fifo_answers
answers-fifo_answers [] q xs v = refl
answers-fifo_answers (push_of x ∷ calls) q xs v =
    let r = try_push-Agrees q x xs v in
    ap₂ (λ a rest. pushed_is a ∷ rest) r.answer
      (answers-fifo_answers calls _ _ r.ring
        ∙ ap (λ c. fifo_answers c calls (fifo_push q.capacity x xs).1) r.keeps)
answers-fifo_answers (pop_of ∷ calls) q xs v =
    let r = try_pop-Agrees q xs v in
    ap₂ (λ a rest. popped_is a ∷ rest) r.answer
      (answers-fifo_answers calls _ _ r.ring
        ∙ ap (λ c. fifo_answers c calls (fifo_pop xs).1) r.keeps)

-- Whatever the order of the producer's and the consumer's calls on a new ring of at least two slots, all
-- answers are those of a first-in first-out queue that refuses an element when it holds `capacity - 1`.
pub answers-make_queue {ℓ} :
    {A : Type ℓ} (capacity : ℕ) (raw : ℕ → A) (calls : List (Call A))
    → 2 ≤ capacity
    → answers calls (make_queue capacity raw) ≡ fifo_answers capacity calls []
unfolding make_queue
answers-make_queue capacity raw calls h =
    answers-fifo_answers calls (make_queue capacity raw) [] (make_queue-IsRing capacity raw h)
