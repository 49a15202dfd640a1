-- ===== src/Spinlock/Sharing.antt =====
-- `RWSpinlock`: a writer excludes all readers and writers.
use hftperformance.Prelude.{
  ℕ, ◌+◌, ◌%◌, ◌^◌, ◌<◌, ◌≡◌, ◌⊎◌, refl, sym, ap, Bool, false, List, [], ◌∷◌, ◌==◌, ltb, arith, inl,
  inr, Bool-cases, update, subst, All,
}
use hftperformance.Spinlock.Shared.{
  RwCall, call_shared, call_lock, call_try_lock, Shared, out, read_seen, reading, write_seen,
  draining, writing, writer_bit, rw_step, Sharers, run_rw, no_sharers,
}
use hftperformance.Spinlock.Counts.{
  readers, owners, Seen, sum_of-part, IsCounted, IsCounted-move, few, quiet, enters_reading,
  sets_bit, swaps, leaves_reading, leaves_writing, lone_writer, no_sharers-IsCounted,
}

-- Any step of a thread among the first `n` keeps the count.
step-IsCounted :
    (n : ℕ) (call : RwCall) (fails : Bool) (q : Shared) (word : ℕ) (f : ℕ → Shared) (i : ℕ)
    → n < writer_bit
    → i < n
    → f i ≡ q
    → IsCounted n word f
    → IsCounted n (rw_step call fails q word).1 (update f i (rw_step call fails q word).0)
unfolding rw_step
step-IsCounted n call_shared fails out word f i small lt at v =
    elim (Bool-cases (ltb word writer_bit)) [
      | inl e ↦ rw e (
          quiet n word f small v i lt out at (read_seen word) refl refl
            (λ c h. ground (arith, e, h)) (λ h. cc h))
      | inr e ↦
          rw e (quiet n word f small v i lt out at out refl refl (λ c h. absurd h) (λ h. cc h))
    ]
step-IsCounted n call_lock fails out word f i small lt at v =
    elim (Bool-cases (ltb word writer_bit)) [
      | inl e ↦ rw e (
          quiet n word f small v i lt out at (write_seen word) refl refl
            (λ c h. ground (arith, e, h)) (λ h. cc h))
      | inr e ↦
          rw e (quiet n word f small v i lt out at out refl refl (λ c h. absurd h) (λ h. cc h))
    ]
step-IsCounted n call_try_lock fails out word f i small lt at v =
    swaps n word f small v i lt out at false 0 writing writer_bit refl (λ zero_word.
      subst (λ w. IsCounted n w (update f i writing)) (omega (arith, zero_word))
        (sets_bit n word f small v i lt out at writing refl refl refl (omega (arith, zero_word))
          (λ c h. absurd h) (λ h. omega (arith, zero_word))))
step-IsCounted n call fails (read_seen seen) word f i small lt at v =
    let low : seen < writer_bit = v.seen i seen (subst (λ q. Seen q seen) (sym at) refl) in
    swaps n word f small v i lt (read_seen seen) at fails seen reading ((word + 1) % 2 ^ 32) refl
      (λ same.
        enters_reading n word f small v i lt (read_seen seen) at refl (omega (arith, same, low)))
step-IsCounted n call fails (write_seen seen) word f i small lt at v =
    let low : seen < writer_bit = v.seen i seen (subst (λ q. Seen q seen) (sym at) refl) in
    swaps n word f small v i lt (write_seen seen) at fails seen draining (word + writer_bit) refl
      (λ same.
        sets_bit n word f small v i lt (write_seen seen) at draining refl refl refl
          (omega (arith, same, low)) (λ c h. absurd h) (λ h. cc h))
step-IsCounted n call fails draining word f i small lt at v =
    elim (Bool-cases (word % writer_bit == 0)) [
      | inl e ↦ rw e (
          IsCounted-move n word f small v word i writing lt
            (omega (arith, ap readers at, ap owners at)) (omega (arith, v.one_owner, ap owners at))
            (λ c h. absurd h) (λ h. ground (arith, e)) (λ j differs k h. v.drained j k h))
      | inr e ↦ rw e (
          IsCounted-move n word f small v word i draining lt
            (omega (arith, ap readers at, ap owners at)) (omega (arith, v.one_owner, ap owners at))
            (λ c h. absurd h) (λ h. cc h) (λ j differs k h. v.drained j k h))
    ]
step-IsCounted n call fails reading word f i small lt at v = leaves_reading n word f small v i lt at
step-IsCounted n call fails writing word f i small lt at v = leaves_writing n word f small v i lt at

run_rw-IsCounted :
    (n : ℕ) (schedule : List (ℕ × RwCall × Bool)) (s : Sharers)
    → n < writer_bit
    → All (λ e. e.0 < n) schedule
    → IsCounted n s.word s.thread
    → IsCounted n (run_rw schedule s).word (run_rw schedule s).thread
unfolding run_rw
run_rw-IsCounted n [] s small h v = v
run_rw-IsCounted n ((i, call, fails) ∷ schedule) s small h v =
    run_rw-IsCounted n schedule _ small h.1
      (step-IsCounted n call fails (s.thread i) s.word s.thread i small h.0 refl v)

-- For every schedule of fewer than 2 ^ 31 threads on a new lock: while a thread has it for writing, no other
-- thread has it for reading or for writing.
pub run_rw-exclusive :
    (n : ℕ) (schedule : List (ℕ × RwCall × Bool)) (i j : ℕ)
    → n < 2 ^ 31
    → All (λ e. e.0 < n) schedule
    → i < n
    → j < n
    → (run_rw schedule no_sharers).thread i ≡ writing
    → ((run_rw schedule no_sharers).thread j ≡ reading)
      ⊎ ((run_rw schedule no_sharers).thread j ≡ writing)
    → i ≡ j
run_rw-exclusive n schedule i j small h hi hj writes other =
    let f : ℕ → Shared = (run_rw schedule no_sharers).thread in
    let word : ℕ = (run_rw schedule no_sharers).word in
    let v : IsCounted n word f =
      run_rw-IsCounted n schedule no_sharers small h (no_sharers-IsCounted n) in
    elim other [
      | inl reads ↦ absurd (
          omega (
            arith,
            v.drained i hi writes,
            v.counts,
            v.one_owner,
            few n word f small v,
            sum_of-part readers n f j hj,
            ap readers reads,
          ))
      | inr also ↦ elim (Bool-cases (i == j)) [
        | inl e ↦ ground (arith, e)
        | inr e ↦
            absurd
              (lone_writer n word f small v i j hi hj writes also (λ same. ground (arith, e, same)))
      ]
    ]
