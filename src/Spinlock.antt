-- ===== src/Spinlock.antt =====
-- src/core/spinlock.hpp: `Spinlock` and `TicketSpinlock` under any interleaving of their threads.
-- A step is one atomic operation of one thread; a thread is a number, and its program counter says where in
-- `lock` or `try_lock` it is. Pauses between the operations are steps of the others. A thread that holds the
-- lock unlocks it with its next step.
pub mod Exclusion
pub mod Shared
pub mod Counts
pub mod Sharing
pub mod Fair
pub mod Tickets
use hftperformance.Prelude.{
  ℕ, ◌+◌, ◌%◌, ◌^◌, Bool, true, false, List, [], ◌∷◌, ◌==◌, if◌then◌else◌, update,
}

-- What a thread that is outside calls next.
pub data Call : Type 0 where
  lock : Call
  try_lock : Call

-- Where a thread is in `Spinlock`: `spinning` before the load of `lock_slow`, `claiming` before its exchange,
-- `trying` before the exchange of `try_lock`.
pub data Spinning : Type 0 where
  outside : Spinning
  spinning : Spinning
  claiming : Spinning
  trying : Spinning
  holding : Spinning

-- `exchange(true)`: where the thread goes if the lock was free, and if it was not.
unfoldable pub exchange : Spinning → Bool → Spinning
exchange failed locked = if locked then failed else holding

-- `Spinlock::lock`, `lock_slow`, `try_lock` and `unlock`, one atomic operation on `locked_`.
unfoldable pub spin_step : Call → Spinning → Bool → Spinning × Bool
unfolding exchange
spin_step lock outside locked = (exchange spinning locked, true)
spin_step try_lock outside locked = (if locked then outside else trying, locked)
spin_step call spinning locked = (if locked then spinning else claiming, locked)
spin_step call claiming locked = (exchange spinning locked, true)
spin_step call trying locked = (exchange outside locked, true)
spin_step call holding locked = (outside, false)

pub record Spinners : Type 0 where
  pub locked : Bool
  pub thread : ℕ → Spinning

-- A schedule: whose step is next, and what it calls if it is outside.
unfoldable pub run_spin : List (ℕ × Call) → Spinners → Spinners
unfolding spin_step
run_spin [] s = s
run_spin ((i, call) ∷ schedule) s =
    let (where_to, locked) = spin_step call (s.thread i) s.locked in
    run_spin schedule (record { locked = locked; thread = update s.thread i where_to })

abbrev pub no_spinners : Spinners
no_spinners = record { locked = false; thread = λ i. outside }

-- `TicketSpinlock`
pub record TicketSpinlock : Type 0 where
  pub next_ticket : ℕ
  pub now_serving : ℕ

-- Where a thread is in `TicketSpinlock`: `looked` after the load of `now_serving_` in `try_lock`, `buying`
-- before its exchange of `next_ticket_`. A thread that holds the lock is shown with its ticket.
pub data Queueing : Type 0 where
  away : Queueing
  waiting : ℕ → Queueing
  looked : ℕ → Queueing
  buying : ℕ → Queueing
  serving : ℕ → Queueing

-- `fetch_add(1)`
unfoldable pub take_ticket : TicketSpinlock → TicketSpinlock
take_ticket l = record l { next_ticket = (l.next_ticket + 1) % 2 ^ 64 }

unfoldable pub serve_next : TicketSpinlock → TicketSpinlock
serve_next l = record l { now_serving = (l.now_serving + 1) % 2 ^ 64 }

-- `TicketSpinlock::lock`, `try_lock` and `unlock`, one atomic operation.
unfoldable pub ticket_step : Call → Queueing → TicketSpinlock → Queueing × TicketSpinlock
unfolding take_ticket serve_next
ticket_step lock away l = (waiting l.next_ticket, take_ticket l)
ticket_step try_lock away l = (looked l.now_serving, l)
ticket_step call (waiting t) l = (if l.now_serving == t then serving t else waiting t, l)
ticket_step call (looked current) l = (if current == l.next_ticket then buying current else away, l)
ticket_step call (buying next) l =
    if l.next_ticket == next then (serving next, take_ticket l) else (away, l)
ticket_step call (serving t) l = (away, serve_next l)

pub record Customers : Type 0 where
  pub desk : TicketSpinlock
  pub thread : ℕ → Queueing

unfoldable pub run_tickets : List (ℕ × Call) → Customers → Customers
unfolding ticket_step
run_tickets [] s = s
run_tickets ((i, call) ∷ schedule) s =
    let (where_to, desk) = ticket_step call (s.thread i) s.desk in
    run_tickets schedule (record { desk = desk; thread = update s.thread i where_to })

abbrev pub no_customers : Customers
no_customers = record { desk = record { next_ticket = 0; now_serving = 0 }; thread = λ i. away }
