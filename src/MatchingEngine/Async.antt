-- ===== src/MatchingEngine/Async.antt =====
-- `AsyncMatchingEngine`: for any order of the client's and the worker's steps, the requests are handled in
-- the order of their submission.
use hftperformance.Prelude.{
  ℕ, ◌≤◌, ◌≡◌, refl, sym, ap, ◌∙◌, Bool, true, List, [], ◌∷◌, none, some, subst, if◌then◌else◌,
}
use mathlib.Core.Path.{ap₂}
use hftperformance.SpscQueue.{make_queue, try_pop}
use hftperformance.SpscQueue.Refine.{
  IsRing, make_queue-IsRing, fifo_push, fifo_pop, try_push-Agrees, try_pop-Agrees,
}
use hftperformance.MatchingEngine.Request.{OrderRequest}
use hftperformance.MatchingEngine.{
  MatchingEngine, Clock, process_request, AsyncMatchingEngine, submit, run_once, serve_one,
}

-- A step of the client, or of the worker with its readings of the clock.
pub data Turn : Type 0 where
  client : OrderRequest → Turn
  worker : Clock → Turn

-- The system after some turns: what `submit` answered, and the state.
unfoldable pub take_turns : List Turn → AsyncMatchingEngine → List Bool × AsyncMatchingEngine
unfolding submit run_once
take_turns [] a = ([], a)
take_turns (client r ∷ turns) a =
    let (pushed, a') = submit r a in let rest = take_turns turns a' in (pushed ∷ rest.0, rest.1)
take_turns (worker clock ∷ turns) a = take_turns turns (run_once clock a)

-- The same with a plain queue of waiting requests, of less than `capacity`.
unfoldable pub serve :
    ℕ → List Turn → List OrderRequest → MatchingEngine → List Bool × MatchingEngine
unfolding fifo_push process_request
serve capacity [] waiting e = ([], e)
serve capacity (client r ∷ turns) waiting e =
    let (pushed, waiting') = fifo_push capacity r waiting in
    let rest = serve capacity turns waiting' e in (pushed ∷ rest.0, rest.1)
serve capacity (worker clock ∷ turns) [] e = serve capacity turns [] e
serve capacity (worker clock ∷ turns) (r ∷ waiting) e =
    serve capacity turns waiting (process_request clock r e).1

run_once-running :
    (clock : Clock) (a : AsyncMatchingEngine)
    → a.running ≡ true
    → run_once clock a ≡ serve_one clock a
unfolding run_once
run_once-running clock a on = ap (λ c. if c then serve_one clock a else a) on

serve_one-none :
    (clock : Clock) (a : AsyncMatchingEngine)
    → (try_pop a.request_queue).0 ≡ none
    → serve_one clock a ≡ record a { request_queue = (try_pop a.request_queue).1 }
unfolding serve_one
serve_one-none clock a e = rw (serve_one, e) refl

serve_one-some :
    (clock : Clock) (a : AsyncMatchingEngine) (r : OrderRequest)
    → (try_pop a.request_queue).0 ≡ some r
    → serve_one clock a ≡ record a {
      request_queue = (try_pop a.request_queue).1;
      engine = (process_request clock r a.engine).1;
    }
unfolding serve_one
serve_one-some clock a r e = rw (serve_one, e) refl

-- Two results that agree.
abbrev Same : List Bool × AsyncMatchingEngine → List Bool × MatchingEngine → Type 0
Same x y = (x.0 ≡ y.0) × (x.1.engine ≡ y.1)

take_turns-serve :
    (turns : List Turn) (a : AsyncMatchingEngine) (waiting : List OrderRequest)
    → a.running ≡ true
    → IsRing a.request_queue waiting
    → Same (take_turns turns a) (serve a.request_queue.capacity turns waiting a.engine)
unfolding take_turns serve submit fifo_pop
take_turns-serve [] a waiting on v = (refl, refl)
take_turns-serve (client r ∷ turns) a waiting on v =
    let pushed = try_push-Agrees a.request_queue r waiting v in
    let rest =
      take_turns-serve turns (submit r a).1 (fifo_push a.request_queue.capacity r waiting).1 on
        pushed.ring in
    (
      ap₂ (λ b bs. b ∷ bs) pushed.answer
          (rest.0
            ∙ ap (λ c. (serve c turns (fifo_push a.request_queue.capacity r waiting).1 a.engine).0)
                pushed.keeps),
      rest.1
          ∙ ap (λ c. (serve c turns (fifo_push a.request_queue.capacity r waiting).1 a.engine).1)
              pushed.keeps,
    )
take_turns-serve (worker clock ∷ turns) a [] on v =
    let popped = try_pop-Agrees a.request_queue [] v in
    let rest =
      take_turns-serve turns (record a { request_queue = (try_pop a.request_queue).1 }) [] on
        popped.ring in
    subst (λ s. Same (take_turns turns s) (serve a.request_queue.capacity turns [] a.engine))
      (sym (run_once-running clock a on ∙ serve_one-none clock a popped.answer))
      (subst
        (λ c.
          Same (take_turns turns (record a { request_queue = (try_pop a.request_queue).1 }))
            (serve c turns [] a.engine))
        popped.keeps rest)
take_turns-serve (worker clock ∷ turns) a (r ∷ waiting) on v =
    let popped = try_pop-Agrees a.request_queue (r ∷ waiting) v in
    let handled : AsyncMatchingEngine = record a {
      request_queue = (try_pop a.request_queue).1;
      engine = (process_request clock r a.engine).1;
    } in
    let rest = take_turns-serve turns handled waiting on popped.ring in
    subst
      (λ s. Same (take_turns turns s) (serve a.request_queue.capacity turns waiting handled.engine))
      (sym (run_once-running clock a on ∙ serve_one-some clock a r popped.answer))
      (subst (λ c. Same (take_turns turns handled) (serve c turns waiting handled.engine))
        popped.keeps rest)

-- The requests that were accepted, as far as the worker came, in the order of their submission: for any order
-- of the client's and the running worker's steps over a new ring of at least two slots, the answers of
-- `submit` and the engine are those of a first-in first-out queue in front of `process_request`.
pub take_turns-make_queue :
    (turns : List Turn) (capacity : ℕ) (raw : ℕ → OrderRequest) (e : MatchingEngine)
    → 2 ≤ capacity
    → ((take_turns turns
          (record { engine = e; request_queue = make_queue capacity raw; running = true })).0
        ≡ (serve capacity turns [] e).0)
      × ((take_turns turns (record {
        engine = e;
        request_queue = make_queue capacity raw;
        running = true;
      })).1.engine
          ≡ (serve capacity turns [] e).1)
unfolding make_queue
take_turns-make_queue turns capacity raw e h =
    take_turns-serve turns
      (record { engine = e; request_queue = make_queue capacity raw; running = true }) [] refl
      (make_queue-IsRing capacity raw h)
