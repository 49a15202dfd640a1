-- ===== src/Tests/Queue.antt =====
-- Calls on a ring of four slots: three elements fit, and the ring goes round.
use hftperformance.Prelude.{ℕ, ◌≡◌, ◌⊎◌, refl, List, [], ◌∷◌, ◌++◌, none, some, true, false, arith}
use hftperformance.SpscQueue.{make_queue, try_push, try_pop}
use hftperformance.SpscQueue.Refine.{
  Call, push_of, pop_of, pushed_is, popped_is, answers, fifo_answers, answers-make_queue,
}
use hftperformance.MpscQueue
use hftperformance.MpscQueue.{
  Step, exchanges, links, pops, make_mpsc, push_exchange, push_link, run_mpsc,
}
use hftperformance.MpscQueue.Chain.{values, IsChain}
use hftperformance.MpscQueue.Fifo.{pushes, run_mpsc-make_mpsc, try_pop-quiet}

abbrev raw : ℕ → ℕ
raw n = 0

abbrev round_calls : List (Call ℕ)
round_calls =
    push_of 1
    ∷ push_of 2
    ∷ push_of 3
    ∷ push_of 4
    ∷ pop_of
    ∷ push_of 5
    ∷ pop_of
    ∷ pop_of
    ∷ pop_of
    ∷ pop_of
    ∷ []

answers_round :
    answers round_calls (make_queue 4 raw)
    ≡ pushed_is true
      ∷ pushed_is true
      ∷ pushed_is true
      ∷ pushed_is false
      ∷ popped_is (some 1)
      ∷ pushed_is true
      ∷ popped_is (some 2)
      ∷ popped_is (some 3)
      ∷ popped_is (some 5)
      ∷ popped_is none
      ∷ []
unfolding answers try_push try_pop make_queue
answers_round = refl

answers-make_queue_example : answers round_calls (make_queue 4 raw) ≡ fifo_answers 4 round_calls []
answers-make_queue_example = answers-make_queue 4 raw round_calls (omega arith)

-- Two producers whose pushes overlap, and a consumer.
abbrev overlap : List (Step ℕ)
overlap = exchanges 5 ∷ exchanges 6 ∷ links 1 ∷ pops ∷ links 0 ∷ pops ∷ []

run_mpsc-make_mpsc_example :
    (nodes : List ℕ) × ((run_mpsc overlap (make_mpsc 9)).0
        ++ values (run_mpsc overlap (make_mpsc 9)).1 nodes
      ≡ pushes overlap)
    × IsChain (run_mpsc overlap (make_mpsc 9)).1 nodes
run_mpsc-make_mpsc_example = run_mpsc-make_mpsc overlap 9

overlap_quiet : (n : ℕ) → (run_mpsc overlap (make_mpsc 9)).1.pending n ≡ none
unfolding run_mpsc make_mpsc push_exchange push_link MpscQueue.try_pop
overlap_quiet n = ground arith

try_pop-quiet_example :
    ((((MpscQueue.try_pop (run_mpsc overlap (make_mpsc 9)).1).0 ≡ none)
        × ((run_mpsc overlap (make_mpsc 9)).0 ≡ pushes overlap))
      ⊎ ((x : ℕ) × (later : List ℕ) × ((MpscQueue.try_pop (run_mpsc overlap (make_mpsc 9)).1).0
            ≡ some x)
          × ((run_mpsc overlap (make_mpsc 9)).0 ++ x ∷ later ≡ pushes overlap)))
try_pop-quiet_example = try_pop-quiet overlap 9 overlap_quiet
