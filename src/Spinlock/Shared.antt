-- ===== src/Spinlock/Shared.antt =====
-- src/core/spinlock.hpp: `RWSpinlock` under any interleaving of its threads, an atomic operation as one step.
-- A thread that goes round a waiting loop of `lock_shared` or `lock` is shown as `out` again.
use hftperformance.Prelude.{
  ℕ, ◌+◌, ◌-◌, ◌%◌, ◌^◌, Bool, false, not, ◌&&◌, List, [], ◌∷◌, ◌==◌, ltb, update, if◌then◌else◌,
}

pub data RwCall : Type 0 where
  call_shared : RwCall
  call_lock : RwCall
  call_try_lock : RwCall

-- Where a thread is: `read_seen` and `write_seen` after the load, with what it read; `draining` with the writer
-- bit set and readers to wait for.
pub data Shared : Type 0 where
  out : Shared
  read_seen : ℕ → Shared
  reading : Shared
  write_seen : ℕ → Shared
  draining : Shared
  writing : Shared

-- `WRITER_BIT`
abbrev pub writer_bit : ℕ
writer_bit = 2 ^ 31

-- A compare-and-swap, which may also fail for no reason.
unfoldable pub swap : Bool → ℕ → ℕ → Shared → ℕ → Shared × ℕ
swap fails seen word next word' = if word == seen && not fails then (next, word') else (out, word)

-- `lock_shared`, `try_lock_shared`, `unlock_shared`, `lock`, `try_lock` and `unlock`, one atomic operation on
-- `state_`.
unfoldable pub rw_step : RwCall → Bool → Shared → ℕ → Shared × ℕ
unfolding swap
rw_step call_shared fails out word = (if ltb word writer_bit then read_seen word else out, word)
rw_step call_lock fails out word = (if ltb word writer_bit then write_seen word else out, word)
rw_step call_try_lock fails out word = swap false 0 word writing writer_bit
rw_step call fails (read_seen seen) word = swap fails seen word reading ((word + 1) % 2 ^ 32)
rw_step call fails (write_seen seen) word = swap fails seen word draining (word + writer_bit)
rw_step call fails draining word = (if word % writer_bit == 0 then writing else draining, word)
rw_step call fails reading word = (out, (word + 2 ^ 32 - 1) % 2 ^ 32)
rw_step call fails writing word = (out, word % writer_bit)

pub record Sharers : Type 0 where
  pub word : ℕ
  pub thread : ℕ → Shared

unfoldable pub run_rw : List (ℕ × RwCall × Bool) → Sharers → Sharers
unfolding rw_step
run_rw [] s = s
run_rw ((i, call, fails) ∷ schedule) s =
    let (where_to, word) = rw_step call fails (s.thread i) s.word in
    run_rw schedule (record { word = word; thread = update s.thread i where_to })

abbrev pub no_sharers : Sharers
no_sharers = record { word = 0; thread = λ i. out }
