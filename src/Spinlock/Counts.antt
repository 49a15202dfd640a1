-- ===== src/Spinlock/Counts.antt =====
-- `RWSpinlock`: its word counts the readers and shows the writer, and what steps keep this.
use hftperformance.Prelude.{
  ℕ, zero, suc, ◌+◌, ◌*◌, ◌-◌, ◌%◌, ◌^◌, ◌≤◌, ◌<◌, ◌≡◌, ◌≢◌, ◌⊎◌, refl, sym, ap, ◌∙◌, Bool, not,
  ◌&&◌, ◌==◌, ltb, arith, inl, inr, Bool-cases, update, update_ne, subst,
}
use hftperformance.Spinlock.Shared.{
  Shared, out, read_seen, reading, write_seen, draining, writing, writer_bit, swap, no_sharers,
}

-- How many readers, and how many owners of the writer bit, a thread stands for.
abbrev pub readers : Shared → ℕ
readers reading = 1
readers _ = 0

abbrev pub owners : Shared → ℕ
owners draining = 1
owners writing = 1
owners _ = 0

abbrev pub Seen : Shared → ℕ → Type 0
Seen (read_seen s) c = s ≡ c
Seen (write_seen s) c = s ≡ c
Seen _ c = ⊥

module _ (weight : Shared → ℕ) where
  -- The sum over the first `n` threads.
  pub sum_of : ℕ → (ℕ → Shared) → ℕ
  sum_of zero f = 0
  sum_of (suc n) f = weight (f n) + sum_of n f

  sum_of-outside :
      (n : ℕ) (f : ℕ → Shared) (i : ℕ) (p : Shared) → n ≤ i → sum_of n (update f i p) ≡ sum_of n f
  unfolding sum_of
  sum_of-outside zero f i p h = refl
  sum_of-outside (suc n) f i p h =
      let apart : n ≢ i = λ same. omega (arith, same) in
      omega (arith, ap weight (update_ne f p apart), sum_of-outside n f i p (omega arith))

  sum_of-update :
      (n : ℕ) (f : ℕ → Shared) (i : ℕ) (p : Shared)
      → i < n
      → weight (f i) + sum_of n (update f i p) ≡ weight p + sum_of n f
  unfolding sum_of
  sum_of-update zero f i p h = absurd (omega arith)
  sum_of-update (suc n) f i p h = elim (Bool-cases (n == i)) [
    | inl e ↦
        let same : n ≡ i = ground (arith, e) in
        let put : update f i p n ≡ p = rw e refl in
        omega (
          arith,
          ap weight put,
          ap (λ k. weight (f k)) same,
          sum_of-outside n f i p (omega (arith, same)),
        )
    | inr e ↦
        let apart : n ≢ i = λ same. ground (arith, e, same) in
        let below : i < n = ground (arith, e, h) in
        omega (arith, ap weight (update_ne f p apart), sum_of-update n f i p below)
  ]

  pub sum_of-part : (n : ℕ) (f : ℕ → Shared) (i : ℕ) → i < n → weight (f i) ≤ sum_of n f
  unfolding sum_of
  sum_of-part zero f i h = absurd (omega arith)
  sum_of-part (suc n) f i h = elim (Bool-cases (n == i)) [
    | inl e ↦ let same : n ≡ i = ground (arith, e) in omega (arith, ap (λ k. weight (f k)) same)
    | inr e ↦ let below : i < n = ground (arith, e, h) in omega (arith, sum_of-part n f i below)
  ]

  sum_of-two :
      (n : ℕ) (f : ℕ → Shared) (i j : ℕ) → i < j → j < n → weight (f i) + weight (f j) ≤ sum_of n f
  unfolding sum_of
  sum_of-two zero f i j lt h = absurd (omega arith)
  sum_of-two (suc n) f i j lt h = elim (Bool-cases (n == j)) [
    | inl e ↦
        let same : n ≡ j = ground (arith, e) in
        omega (arith, ap (λ k. weight (f k)) same, sum_of-part n f i (omega (arith, same)))
    | inr e ↦ let below : j < n = ground (arith, e, h) in omega (arith, sum_of-two n f i j lt below)
  ]

readers_few : (q : Shared) → readers q ≤ 1
readers_few reading = omega arith
readers_few _ = omega arith

sum_of-few : (n : ℕ) (f : ℕ → Shared) → sum_of readers n f ≤ n
unfolding sum_of
sum_of-few zero f = omega arith
sum_of-few (suc n) f = omega (arith, readers_few (f n), sum_of-few n f)

-- The word counts the readers and has the writer bit when a thread owns it; there is one owner at most, and it
-- writes only when there are no readers.
pub record IsCounted (n word : ℕ) (f : ℕ → Shared) : Type 0 where
  pub counts : word ≡ sum_of readers n f + writer_bit * sum_of owners n f
  pub one_owner : sum_of owners n f ≤ 1
  pub seen : (j c : ℕ) → Seen (f j) c → c < writer_bit
  pub drained : (j : ℕ) → j < n → f j ≡ writing → word % writer_bit ≡ 0

-- Where a thread is after a step of thread `i`.
after_update :
    (f : ℕ → Shared) (i : ℕ) (p : Shared) (j : ℕ)
    → ((j ≡ i) × (update f i p j ≡ p)) ⊎ ((j ≢ i) × (update f i p j ≡ f j))
after_update f i p j = elim (Bool-cases (j == i)) [
  | inl e ↦ inl (ground (arith, e), rw e refl)
  | inr e ↦ inr ((λ same. ground (arith, e, same)), rw e refl)
]

module _ (n word : ℕ) (f : ℕ → Shared) (small : n < writer_bit) (v : IsCounted n word f) where
  -- A thread goes on to `p` and the word to `word'`.
  pub IsCounted-move :
      (word' i : ℕ) (p : Shared)
      → i < n
      → word' + readers (f i) + writer_bit * owners (f i) ≡ word + readers p + writer_bit * owners p
      → owners p + sum_of owners n f ≤ 1 + owners (f i)
      → ((c : ℕ) → Seen p c → c < writer_bit)
      → (p ≡ writing → word' % writer_bit ≡ 0)
      → ((j : ℕ) → j ≢ i → j < n → f j ≡ writing → word' % writer_bit ≡ 0)
      → IsCounted n word' (update f i p)
  IsCounted-move word' i p inside balance one see mine others = record {
    counts = omega (
      arith,
      sum_of-update readers n f i p inside,
      sum_of-update owners n f i p inside,
      balance,
      v.counts,
    );
    one_owner = omega (arith, sum_of-update owners n f i p inside, one);
    seen = λ j c h. elim (after_update f i p j) [
      | inl (_, now) ↦ see c (subst (λ q. Seen q c) now h)
      | inr (_, now) ↦ v.seen j c (subst (λ q. Seen q c) now h)
    ];
    drained = λ j lt h. elim (after_update f i p j) [
      | inl (_, now) ↦ mine (sym now ∙ h)
      | inr (differs, now) ↦ others j differs lt (sym now ∙ h)
    ];
  }

  pub few : sum_of readers n f < writer_bit
  few = omega (arith, sum_of-few n f, small)

  an_owner : (j : ℕ) → j < n → f j ≡ writing → 1 ≤ sum_of owners n f
  an_owner j lt h = omega (arith, sum_of-part owners n f j lt, ap owners h)

  module _ (i : ℕ) (inside : i < n) (q : Shared) (at : f i ≡ q) where
    -- A step that leaves the word, from and to a place that does not count.
    pub quiet :
        (p : Shared)
        → readers q + owners q ≡ 0
        → readers p + owners p ≡ 0
        → ((c : ℕ) → Seen p c → c < writer_bit)
        → p ≢ writing
        → IsCounted n word (update f i p)
    quiet p before after see apart =
        IsCounted-move word i p inside (omega (arith, ap readers at, ap owners at, before, after))
          (omega (arith, after, v.one_owner)) see (λ h. absurd (apart h))
          (λ j differs lt h. v.drained j lt h)

    pub enters_reading :
        readers q + owners q ≡ 0
        → word < writer_bit
        → IsCounted n ((word + 1) % 2 ^ 32) (update f i reading)
    enters_reading before low =
        IsCounted-move ((word + 1) % 2 ^ 32) i reading inside
          (omega (arith, ap readers at, ap owners at, before, low)) (omega (arith, v.one_owner))
          (λ c h. absurd h) (λ h. cc h)
          (λ j differs lt h. absurd (omega (arith, an_owner j lt h, v.counts, low)))

    pub sets_bit :
        (p : Shared)
        → readers q + owners q ≡ 0
        → readers p ≡ 0
        → owners p ≡ 1
        → word < writer_bit
        → ((c : ℕ) → Seen p c → c < writer_bit)
        → (p ≡ writing → (word + writer_bit) % writer_bit ≡ 0)
        → IsCounted n (word + writer_bit) (update f i p)
    sets_bit p before none_read owns low see mine =
        IsCounted-move (word + writer_bit) i p inside
          (omega (arith, ap readers at, ap owners at, before, none_read, owns))
          (omega (arith, v.counts, low, owns)) see mine
          (λ j differs lt h. absurd (omega (arith, an_owner j lt h, v.counts, low)))

    pub swaps :
        (fails : Bool) (seen : ℕ) (p : Shared) (word' : ℕ)
        → readers q + owners q ≡ 0
        → (word ≡ seen → IsCounted n word' (update f i p))
        → IsCounted n (swap fails seen word p word').1 (update f i (swap fails seen word p word').0)
    unfolding swap
    swaps fails seen p word' before goes = elim (Bool-cases (word == seen && not fails)) [
      | inl e ↦ rw e (goes (ground (arith, e)))
      | inr e ↦ rw e (quiet out before refl (λ c h. absurd h) (λ h. cc h))
    ]

  pub leaves_reading :
      (i : ℕ) → i < n → f i ≡ reading → IsCounted n ((word + 2 ^ 32 - 1) % 2 ^ 32) (update f i out)
  leaves_reading i inside at =
      let one : 1 ≤ sum_of readers n f =
        omega (arith, sum_of-part readers n f i inside, ap readers at) in
      IsCounted-move ((word + 2 ^ 32 - 1) % 2 ^ 32) i out inside
        (omega (arith, ap readers at, ap owners at, one, few, v.counts, v.one_owner))
        (omega (arith, v.one_owner)) (λ c h. absurd h) (λ h. cc h)
        (λ j differs lt h.
          absurd (omega (arith, v.drained j lt h, one, few, v.counts, v.one_owner)))

  pub lone_writer : (i j : ℕ) → i < n → j < n → f i ≡ writing → f j ≡ writing → j ≢ i → ⊥
  lone_writer i j inside lt at h differs = elim (Bool-cases (ltb i j)) [
    | inl e ↦ omega (
      arith,
      v.one_owner,
      sum_of-two owners n f i j (ground (arith, e)) lt,
      ap owners at,
      ap owners h,
    )
    | inr e ↦ omega (
      arith,
      v.one_owner,
      sum_of-two owners n f j i (ground (arith, e, differs)) inside,
      ap owners at,
      ap owners h,
    )
  ]

  pub leaves_writing :
      (i : ℕ) → i < n → f i ≡ writing → IsCounted n (word % writer_bit) (update f i out)
  leaves_writing i inside at =
      let one : 1 ≤ sum_of owners n f = an_owner i inside at in
      IsCounted-move (word % writer_bit) i out inside
        (omega (arith, ap readers at, ap owners at, one, few, v.counts, v.one_owner))
        (omega (arith, v.one_owner)) (λ c h. absurd h) (λ h. cc h)
        (λ j differs lt h. absurd (lone_writer i j inside lt at h differs))

sum_of-out : (weight : Shared → ℕ) (n : ℕ) → weight out ≡ 0 → sum_of weight n (λ i. out) ≡ 0
unfolding sum_of
sum_of-out weight zero h = refl
sum_of-out weight (suc n) h = omega (arith, h, sum_of-out weight n h)

pub no_sharers-IsCounted : (n : ℕ) → IsCounted n no_sharers.word no_sharers.thread
no_sharers-IsCounted n = record {
  counts = omega (arith, sum_of-out readers n refl, sum_of-out owners n refl);
  one_owner = omega (arith, sum_of-out owners n refl);
  seen = λ j c h. absurd h;
  drained = λ j lt h. refl;
}
