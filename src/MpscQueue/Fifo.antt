-- ===== src/MpscQueue/Fifo.antt =====
-- What the consumer of an `MPSCQueue` gets, under any interleaving of the producers' steps.
use hftperformance.Prelude.{
  ℕ, ◌≡◌, refl, sym, ◌∙◌, ap, subst, ◌⊎◌, inl, inr, List, [], ◌∷◌, ◌++◌, none, some,
}
use mathlib.Core.List.{append_assoc, append-nil}
use hftperformance.MpscQueue.Chain.{
  values, IsChain, NotIn-unused, make_mpsc-IsChain, values-exchange, exchange-IsChain,
  taken-IsChain, values-taken, push_link-IsChain,
}
use hftperformance.MpscQueue.{
  MpscQueue, make_mpsc, push_exchange, push_link, try_pop, Step, exchanges, links, pops, and_more,
  run_mpsc,
}

module _ {ℓ} {A : Type ℓ} where
  -- What `try_pop` does to a right queue: it takes the oldest value, or finds no link and does nothing.
  try_pop_cases :
      (q : MpscQueue A) (ys : List ℕ)
      → IsChain q ys
      → ((try_pop q ≡ (none, q)) × ((ys ≡ []) ⊎ ((y : ℕ) × (q.pending q.head ≡ some y))))
        ⊎ ((y : ℕ) × (zs : List ℕ) × (ys ≡ y ∷ zs)
            × ((try_pop q).0 ≡ some (q.slot y))
            × IsChain (try_pop q).1 zs
            × (values (try_pop q).1 zs ≡ values q zs))
  unfolding try_pop
  try_pop_cases q [] v = inl (rw (try_pop, v.chain.1) refl, inl refl)
  try_pop_cases q (y ∷ zs) v = elim (v.chain.0) [
    | inr (n, p) ↦ inl (rw (try_pop, n) refl, inr (y, p))
    | inl (n, p) ↦ inr (
      y,
      zs,
      refl,
      rw (try_pop, n) refl,
      rw (try_pop, n) (taken-IsChain q y zs v n),
      rw (try_pop, n) (values-taken q y zs v n zs),
    )
  ]

  -- The values of a schedule's pushes, in the order of their exchanges.
  abbrev pub pushes : List (Step A) → List A
  pushes [] = []
  pushes (exchanges x ∷ steps) = x ∷ pushes steps
  pushes (links prev ∷ steps) = pushes steps
  pushes (pops ∷ steps) = pushes steps

  -- What a run leaves: a right queue, whose values are those that were pushed but not popped, in order.
  pub record Ran (q : MpscQueue A) (ys : List ℕ) (steps : List (Step A)) : Type ℓ where
    pub nodes : List ℕ
    pub is_chain : IsChain (run_mpsc steps q).1 nodes
    pub order :
        (run_mpsc steps q).0 ++ values (run_mpsc steps q).1 nodes ≡ values q ys ++ pushes steps

  run_mpsc-Ran :
      (steps : List (Step A)) (q : MpscQueue A) (ys : List ℕ) → IsChain q ys → Ran q ys steps
  unfolding run_mpsc
  run_mpsc-Ran [] q ys v = record {
    nodes = ys;
    is_chain = v;
    order = sym (append-nil (values q ys));
  }
  run_mpsc-Ran (exchanges x ∷ steps) q ys v =
      let r =
        run_mpsc-Ran steps (push_exchange x q) (ys ++ q.unused ∷ []) (exchange-IsChain x q ys v) in
      record {
        nodes = r.nodes;
        is_chain = r.is_chain;
        order =
            r.order
            ∙ ap (λ vs. vs ++ pushes steps)
                (values-exchange x q ys (NotIn-unused q.unused ys v.used.1))
            ∙ append_assoc (values q ys) (x ∷ []) (pushes steps);
      }
  run_mpsc-Ran (links prev ∷ steps) q ys v =
      let (chain, same) = push_link-IsChain prev q ys v in
      let r = run_mpsc-Ran steps (push_link prev q) ys chain in
      record {
        nodes = r.nodes;
        is_chain = r.is_chain;
        order = r.order ∙ ap (λ vs. vs ++ pushes steps) same;
      }
  run_mpsc-Ran (pops ∷ steps) q ys v = elim (try_pop_cases q ys v) [
    | inl (e, _) ↦
        let r = run_mpsc-Ran steps q ys v in
        record {
          nodes = r.nodes;
          is_chain = subst (λ u. IsChain (run_mpsc steps u.1).1 r.nodes) (sym e) r.is_chain;
          order =
              ap (λ u. and_more u.0 (run_mpsc steps u.1).0 ++ values (run_mpsc steps u.1).1 r.nodes)
                e
              ∙ r.order;
        }
    | inr (y, zs, split, got, chain, same) ↦
        let r = run_mpsc-Ran steps (try_pop q).1 zs chain in
        record {
          nodes = r.nodes;
          is_chain = r.is_chain;
          order =
              ap
                (λ u.
                  and_more u (run_mpsc steps (try_pop q).1).0
                  ++ values (run_mpsc steps (try_pop q).1).1 r.nodes)
                got
              ∙ ap (λ vs. q.slot y ∷ vs) (r.order ∙ ap (λ vs. vs ++ pushes steps) same)
              ∙ ap (λ ns. values q ns ++ pushes steps) (sym split);
        }
  ]

  -- Whatever the interleaving of the producers' and the consumer's steps on a new MPSCQueue: what has been
  -- popped, with what is still linked behind the head, is what has been pushed, in the order of the
  -- exchanges; no node of the queue is deleted, nor one into which a producer has still to store a link.
  pub run_mpsc-make_mpsc :
      (steps : List (Step A)) (raw : A)
      → (nodes : List ℕ) × ((run_mpsc steps (make_mpsc raw)).0
            ++ values (run_mpsc steps (make_mpsc raw)).1 nodes
          ≡ pushes steps)
        × IsChain (run_mpsc steps (make_mpsc raw)).1 nodes
  run_mpsc-make_mpsc steps raw =
      let r = run_mpsc-Ran steps (make_mpsc raw) [] (make_mpsc-IsChain raw) in
      (r.nodes, r.order, r.is_chain)

  -- After any schedule that leaves no push half done, `try_pop` gives the oldest value that has been pushed
  -- and not popped, and nothing only when there is none.
  pub try_pop-quiet :
      (steps : List (Step A)) (raw : A)
      → ((n : ℕ) → (run_mpsc steps (make_mpsc raw)).1.pending n ≡ none)
      → (((try_pop (run_mpsc steps (make_mpsc raw)).1).0 ≡ none)
          × ((run_mpsc steps (make_mpsc raw)).0 ≡ pushes steps))
        ⊎ ((x : A) × (later : List A) × ((try_pop (run_mpsc steps (make_mpsc raw)).1).0 ≡ some x)
            × ((run_mpsc steps (make_mpsc raw)).0 ++ x ∷ later ≡ pushes steps))
  try_pop-quiet steps raw quiet =
      let (nodes, order, chain) = run_mpsc-make_mpsc steps raw in
      let q : MpscQueue A = (run_mpsc steps (make_mpsc raw)).1 in
      let popped : List A = (run_mpsc steps (make_mpsc raw)).0 in
      elim (try_pop_cases q nodes chain) [
        | inl (e, inl nil) ↦ inl (
          ap (λ r. r.0) e,
          sym (append-nil popped) ∙ ap (λ ns. popped ++ values q ns) (sym nil) ∙ order,
        )
        | inl (e, inr (y, waits)) ↦ absurd (cc (waits, quiet q.head))
        | inr (y, zs, split, got, _, _) ↦
            inr (q.slot y, values q zs, got, ap (λ ns. popped ++ values q ns) (sym split) ∙ order)
      ]
