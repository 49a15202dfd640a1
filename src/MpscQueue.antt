-- ===== src/MpscQueue.antt =====
-- src/core/lockfree_queue.hpp, `MPSCQueue`: a linked queue with many producers and one consumer.
-- A node is its number, and `new` gives a number that has not been used. `push` is two steps of its
-- producer, the exchange of the tail and the store of the link, between which other threads may
-- take steps; `pending` has, at the node that the exchange returned, the node that is still to be
-- linked. The memory orderings are taken to be sequentially consistent.
pub mod Chain
pub mod Fifo
use hftperformance.Prelude.{
  ℕ, suc, Bool, true, false, List, [], ◌∷◌, ◌++◌, Option, none, some, update,
}

pub record MpscQueue {ℓ} (A : Type ℓ) : Type ℓ where
  pub head : ℕ
  pub tail : ℕ
  pub next : ℕ → Option ℕ
  pub slot : ℕ → A
  pub pending : ℕ → Option ℕ
  pub deleted : ℕ → Bool
  pub unused : ℕ

module _ {ℓ} {A : Type ℓ} where
  -- The constructor, with the dummy node 0.
  unfoldable pub make_mpsc : A → MpscQueue A
  make_mpsc raw = record {
    head = 0;
    tail = 0;
    next = λ n. none;
    slot = λ n. raw;
    pending = λ n. none;
    deleted = λ n. false;
    unused = 1;
  }

  -- `push`, up to the exchange
  unfoldable pub push_exchange : A → MpscQueue A → MpscQueue A
  push_exchange value q = record q {
    tail = q.unused;
    next = update q.next q.unused none;
    slot = update q.slot q.unused value;
    pending = update q.pending q.tail (some q.unused);
    unused = suc q.unused;
  }

  -- `push`, from the exchange on, by the producer to whom it returned `prev`
  unfoldable pub push_link : ℕ → MpscQueue A → MpscQueue A
  push_link prev q = elim (q.pending prev) [
    | none ↦ q
    | some node ↦ record q {
      next = update q.next prev (some node);
      pending = update q.pending prev none;
    }
  ]

  -- `try_pop`
  unfoldable pub try_pop : MpscQueue A → Option A × MpscQueue A
  try_pop q = elim (q.next q.head) [
    | none ↦ (none, q)
    | some node ↦
        (some (q.slot node), record q { head = node; deleted = update q.deleted q.head true })
  ]

  -- `empty`
  unfoldable pub empty : MpscQueue A → Bool
  empty q = elim (q.next q.head) [ none ↦ true | some _ ↦ false ]

-- A step of a thread.
pub data Step {ℓ} (A : Type ℓ) : Type ℓ where
  exchanges : A → Step A
  links : ℕ → Step A
  pops : Step A

module _ {ℓ} {A : Type ℓ} where
  abbrev pub and_more : Option A → List A → List A
  and_more none xs = xs
  and_more (some x) xs = x ∷ xs

  -- A schedule of steps: what has been popped, and the queue.
  unfoldable pub run_mpsc : List (Step A) → MpscQueue A → List A × MpscQueue A
  unfolding push_exchange push_link try_pop
  run_mpsc [] q = ([], q)
  run_mpsc (exchanges x ∷ steps) q = run_mpsc steps (push_exchange x q)
  run_mpsc (links prev ∷ steps) q = run_mpsc steps (push_link prev q)
  run_mpsc (pops ∷ steps) q =
      let (got, q') = try_pop q in
      let (popped, q'') = run_mpsc steps q' in (and_more got popped, q'')
