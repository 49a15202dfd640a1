-- ===== src/Tests/Locks.antt =====
-- The spin locks on short schedules.
use hftperformance.Prelude.{ℕ, Bool, false, inr, true, ◌↔◌, ◌≡◌, ◌<◌, refl, List, [], ◌∷◌, arith}
use hftperformance.Spinlock.{
  Call, lock, holding, Spinning, run_spin, no_spinners, spin_step, exchange, run_tickets,
  ticket_step, take_ticket,
}
use hftperformance.Spinlock.Shared.{RwCall, call_shared, call_lock, swap, rw_step, run_rw}
use hftperformance.Spinlock.Sharing.{run_rw-exclusive}
use hftperformance.Spinlock.Exclusion.{Holds, run_spin-exclusive}
use hftperformance.Spinlock.Tickets.{run_tickets-fair}

-- The second thread spins while the first holds the lock.
abbrev schedule : List (ℕ × Call)
schedule = (1, lock) ∷ (2, lock) ∷ (2, lock) ∷ []

first_holds : (run_spin schedule no_spinners).thread 1 ≡ holding
unfolding run_spin spin_step exchange
first_holds = refl

second_spins : (run_spin schedule no_spinners).thread 2 ≡ Spinning.spinning
unfolding run_spin spin_step exchange
second_spins = refl

run_spin-exclusive_example :
    ((i j : ℕ)
      → Holds (run_spin schedule no_spinners) i
      → Holds (run_spin schedule no_spinners) j
      → i ≡ j)
    × (((run_spin schedule no_spinners).locked ≡ true)
        ↔ ((i : ℕ) × Holds (run_spin schedule no_spinners) i))
run_spin-exclusive_example = run_spin-exclusive schedule

-- The second thread comes first, and the first waits.
abbrev two_customers : List (ℕ × Call)
two_customers = (2, lock) ∷ (1, lock) ∷ (1, lock) ∷ (2, lock) ∷ []

run_tickets-fair_example : 0 < 1
unfolding run_tickets ticket_step take_ticket
run_tickets-fair_example =
    run_tickets-fair two_customers 2 1 0 1 (omega arith) refl refl
      (λ same. absurd (omega (arith, same)))

-- The second thread reads and is done, then the first writes.
abbrev sharers : List (ℕ × RwCall × Bool)
sharers =
    (1, call_shared, false)
    ∷ (1, call_shared, false)
    ∷ (0, call_lock, false)
    ∷ (0, call_lock, false)
    ∷ (1, call_shared, false)
    ∷ (0, call_lock, false)
    ∷ []

abbrev writer : ℕ
writer = 0

run_rw-exclusive_example : writer ≡ writer
unfolding run_rw rw_step swap
run_rw-exclusive_example =
    run_rw-exclusive 2 sharers writer writer (omega arith)
      (omega arith, (omega arith, (omega arith, (omega arith, (omega arith, (omega arith, tt))))))
      (omega arith) (omega arith) refl (inr refl)
