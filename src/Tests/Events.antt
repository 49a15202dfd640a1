-- ===== src/Tests/Events.antt =====
-- Two threads that record events in turn.
use hftperformance.Prelude.{◌≡◌, true, List, [], ◌∷◌, arith}
use hftperformance.Prelude.Int.{pos}
use hftperformance.Timestamps.{Step, registers, records, no_buffers, run_steps, aggregate}
use hftperformance.Timestamps.Order.{log, aggregate-run_steps}

abbrev two_threads : List Step
two_threads =
    registers
    ∷ registers
    ∷ records 1 0 (pos 10) 7
    ∷ records 0 1 (pos 11) 7
    ∷ records 1 2 (pos 12) 7
    ∷ []

aggregate-run_steps_example :
    aggregate true (run_steps 1 two_threads no_buffers) ≡ log 1 two_threads no_buffers
aggregate-run_steps_example = aggregate-run_steps 1 two_threads (omega arith)
