-- ===== src/Spinlock/Exclusion.antt =====
-- `Spinlock`: at most one thread holds the lock, and it is locked exactly when one does.
use hftperformance.Prelude.{
  ℕ, ◌≡◌, ◌≢◌, ◌⊎◌, ◌↔◌, refl, sym, ◌∙◌, Bool, true, false, List, [], ◌∷◌, ◌==◌, arith, inl, inr,
  Bool-cases, update, update_self, update_ne, if◌then◌else◌, subst,
}
use hftperformance.Spinlock.{
  Call, lock, try_lock, Spinning, outside, spinning, claiming, trying, holding, exchange, spin_step,
  Spinners, run_spin, no_spinners,
}

abbrev pub Holds : Spinners → ℕ → Type 0
Holds s i = s.thread i ≡ holding

-- Either the lock is free and nobody holds it, or one thread does and no other.
pub data IsExclusive (s : Spinners) : Type 0 where
  free : s.locked ≡ false → ((i : ℕ) → s.thread i ≢ holding) → IsExclusive s
  held : (k : ℕ) → s.locked ≡ true → Holds s k → ((i : ℕ) → Holds s i → i ≡ k) → IsExclusive s

abbrev moved : Spinners → ℕ → Spinning → Bool → Spinners
moved s i p b = record { locked = b; thread = update s.thread i p }

-- Where a thread is after a step of thread `i`.
thread-moved :
    (s : Spinners) (i : ℕ) (p : Spinning) (b : Bool) (j : ℕ)
    → ((j ≡ i) × ((moved s i p b).thread j ≡ p))
      ⊎ ((j ≢ i) × ((moved s i p b).thread j ≡ s.thread j))
thread-moved s i p b j = elim (Bool-cases (j == i)) [
  | inl e ↦ inl (ground (arith, e), rw e refl)
  | inr e ↦ inr ((λ same. ground (arith, e, same)), rw e refl)
]

-- A step that does not end in the critical section, of a thread that is not in it, and leaves the lock.
stays :
    (s : Spinners) (i : ℕ) (p : Spinning)
    → p ≢ holding
    → s.thread i ≢ holding
    → IsExclusive s
    → IsExclusive (moved s i p s.locked)
stays s i p out before (free unlocked nobody) = free unlocked (λ j.
    elim (thread-moved s i p s.locked j) [
      | inl (_, now) ↦ λ h. out (sym now ∙ h)
      | inr (_, now) ↦ λ h. nobody j (sym now ∙ h)
    ])
stays s i p out before (held k locked here alone) =
    let other : k ≢ i = λ same. before (subst (λ n. s.thread n ≡ holding) same here) in
    held k locked (update_ne s.thread p other ∙ here) (λ j. elim (thread-moved s i p s.locked j) [
      | inl (_, now) ↦ λ h. absurd (out (sym now ∙ h))
      | inr (_, now) ↦ λ h. alone j (sym now ∙ h)
    ])

-- A thread that finds the lock free takes it.
takes :
    (s : Spinners) (i : ℕ) → s.locked ≡ false → IsExclusive s → IsExclusive (moved s i holding true)
takes s i unlocked (free _ nobody) = held i refl (update_self s.thread i holding) (λ j.
    elim (thread-moved s i holding true j) [
      | inl (same, _) ↦ λ h. same
      | inr (_, now) ↦ λ h. absurd (nobody j (sym now ∙ h))
    ])
takes s i unlocked (held k locked here alone) = absurd (cc (unlocked, locked))

leaves : (s : Spinners) (i : ℕ) → Holds s i → IsExclusive s → IsExclusive (moved s i outside false)
leaves s i mine (free _ nobody) = absurd (nobody i mine)
leaves s i mine (held k locked here alone) = free refl (λ j.
    elim (thread-moved s i outside false j) [
      | inl (_, now) ↦ λ h. cc (now, h)
      | inr (differs, now) ↦ λ h. differs (alone j (sym now ∙ h) ∙ sym (alone i mine))
    ])

abbrev with_lock : Bool → (ℕ → Spinning) → Spinners
with_lock b f = record { locked = b; thread = f }

claims :
    (b : Bool) (f : ℕ → Spinning) (i : ℕ) (p : Spinning)
    → p ≢ holding
    → f i ≢ holding
    → IsExclusive (with_lock b f)
    → IsExclusive (with_lock true (update f i (exchange p b)))
unfolding exchange
claims false f i p out before v = takes (with_lock false f) i refl v
claims true f i p out before v = stays (with_lock true f) i p out before v

looks :
    (b : Bool) (f : ℕ → Spinning) (i : ℕ) (p q : Spinning)
    → p ≢ holding
    → q ≢ holding
    → f i ≢ holding
    → IsExclusive (with_lock b f)
    → IsExclusive (with_lock b (update f i (if b then p else q)))
looks false f i p q outp outq before v = stays (with_lock false f) i q outq before v
looks true f i p q outp outq before v = stays (with_lock true f) i p outp before v

step-IsExclusive :
    (call : Call) (q : Spinning) (b : Bool) (f : ℕ → Spinning) (i : ℕ)
    → f i ≡ q
    → IsExclusive (with_lock b f)
    → IsExclusive (with_lock (spin_step call q b).1 (update f i (spin_step call q b).0))
unfolding spin_step
step-IsExclusive lock outside b f i at v = claims b f i spinning (λ h. cc h) (λ h. cc (at, h)) v
step-IsExclusive try_lock outside b f i at v =
    looks b f i outside trying (λ h. cc h) (λ h. cc h) (λ h. cc (at, h)) v
step-IsExclusive call spinning b f i at v =
    looks b f i spinning claiming (λ h. cc h) (λ h. cc h) (λ h. cc (at, h)) v
step-IsExclusive call claiming b f i at v = claims b f i spinning (λ h. cc h) (λ h. cc (at, h)) v
step-IsExclusive call trying b f i at v = claims b f i outside (λ h. cc h) (λ h. cc (at, h)) v
step-IsExclusive call holding b f i at v = leaves (with_lock b f) i at v

run_spin-IsExclusive :
    (schedule : List (ℕ × Call)) (s : Spinners) → IsExclusive s → IsExclusive (run_spin schedule s)
unfolding run_spin
run_spin-IsExclusive [] s v = v
run_spin-IsExclusive ((i, call) ∷ schedule) s v =
    run_spin-IsExclusive schedule _ (step-IsExclusive call (s.thread i) s.locked s.thread i refl v)

no_spinners-IsExclusive : IsExclusive no_spinners
no_spinners-IsExclusive = free refl (λ i h. cc h)

-- For every schedule of any threads that call `lock` and `try_lock` on a new lock and unlock it: two threads that
-- hold it are one, and it is locked exactly when a thread holds it.
pub run_spin-exclusive :
    (schedule : List (ℕ × Call))
    → ((i j : ℕ)
        → Holds (run_spin schedule no_spinners) i
        → Holds (run_spin schedule no_spinners) j
        → i ≡ j)
      × (((run_spin schedule no_spinners).locked ≡ true)
          ↔ ((i : ℕ) × Holds (run_spin schedule no_spinners) i))
run_spin-exclusive schedule =
    read (run_spin-IsExclusive schedule no_spinners no_spinners-IsExclusive)
  where
    read :
        {s : Spinners}
        → IsExclusive s
        → ((i j : ℕ) → Holds s i → Holds s j → i ≡ j) × ((s.locked ≡ true) ↔ ((i : ℕ) × Holds s i))
    read (free unlocked nobody) = (
      (λ i j h _. absurd (nobody i h)),
      ((λ e. absurd (cc (e, unlocked))), λ p. absurd (nobody p.0 p.1)),
    )
    read (held k locked here alone) =
        ((λ i j hi hj. alone i hi ∙ sym (alone j hj)), ((λ _. (k, here)), λ _. locked))
