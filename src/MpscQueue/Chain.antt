-- ===== src/MpscQueue/Chain.antt =====
-- The chain of nodes of an `MPSCQueue`, and what each step does to it.
use hftperformance.Prelude.{
  ℕ, suc, ◌<◌, ◌≤◌, ◌≡◌, ◌≢◌, refl, sym, ◌∙◌, ap, subst, ◌⊎◌, inl, inr, true, false, List, [], ◌∷◌,
  ◌++◌, none, some, arith, All, NotIn, Distinct, NotIn-append, All-append, update, update_self,
  update_ne, Option-cases,
}
use native.Mathlib.Decide.{ℕ_discrete}
use hftperformance.MpscQueue.{MpscQueue, make_mpsc, push_exchange, push_link}

pub NotIn-unused : (n : ℕ) (ys : List ℕ) → All (λ k. k < n) ys → NotIn n ys
NotIn-unused n [] h = tt
NotIn-unused n (y ∷ ys) h = ((λ e. omega (arith, e, h.0)), NotIn-unused n ys h.1)

All_suc : (n : ℕ) (ys : List ℕ) → All (λ k. k < n) ys → All (λ k. k < suc n) (ys ++ n ∷ [])
All_suc n [] h = (omega arith, tt)
All_suc n (y ∷ ys) h = (omega (arith, h.0), All_suc n ys h.1)

Distinct-last : (n : ℕ) (ys : List ℕ) → Distinct ys → NotIn n ys → Distinct (ys ++ n ∷ [])
Distinct-last n [] d h = (tt, tt)
Distinct-last n (y ∷ ys) d h =
    (NotIn-append y ys (n ∷ []) d.0 ((λ e. h.0 (sym e)), tt), Distinct-last n ys d.1 h.1)

module _ {ℓ} {A : Type ℓ} where
  -- From node `x` on, the nodes `ys` follow in the order of their exchanges; the link to the next is there
  -- or still pending.
  abbrev pub Chain : MpscQueue A → ℕ → List ℕ → Type 0
  Chain q x [] = (q.tail ≡ x) × (q.next x ≡ none) × (q.pending x ≡ none)
  Chain q x (y ∷ ys) =
      (((q.next x ≡ some y) × (q.pending x ≡ none)) ⊎ ((q.next x ≡ none) × (q.pending x ≡ some y)))
      × Chain q y ys

  -- The values of the nodes.
  abbrev pub values : MpscQueue A → List ℕ → List A
  values q [] = []
  values q (y ∷ ys) = q.slot y ∷ values q ys

  -- The queue holds the nodes `ys` behind its head. No node of it, nor a node with a pending link, is
  -- deleted.
  pub record IsChain (q : MpscQueue A) (ys : List ℕ) : Type 0 where
    pub chain : Chain q q.head ys
    pub distinct : Distinct (q.head ∷ ys)
    pub used : All (λ n. n < q.unused) (q.head ∷ ys)
    pub alive : All (λ n. q.deleted n ≡ false) (q.head ∷ ys)
    pub fresh : (n : ℕ) → q.unused ≤ n → (q.deleted n ≡ false) × (q.pending n ≡ none)
    pub safe : (n k : ℕ) → q.pending n ≡ some k → q.deleted n ≡ false

  pub make_mpsc-IsChain : (raw : A) → IsChain (make_mpsc raw) []
  unfolding make_mpsc
  make_mpsc-IsChain raw = record {
    chain = (refl, refl, refl);
    distinct = (tt, tt);
    used = (omega arith, tt);
    alive = (refl, tt);
    fresh = λ n h. (refl, refl);
    safe = λ n k e. refl;
  }

  module _ (value : A) (q : MpscQueue A) where
    abbrev pushed : MpscQueue A
    pushed = push_exchange value q

    pub values-exchange :
        (ys : List ℕ)
        → NotIn q.unused ys
        → values pushed (ys ++ q.unused ∷ []) ≡ values q ys ++ value ∷ []
    unfolding push_exchange
    values-exchange [] h = ap (λ v. v ∷ []) (update_self q.slot q.unused value)
    values-exchange (y ∷ ys) h =
        ap (λ v. v ∷ values pushed (ys ++ q.unused ∷ [])) (update_ne q.slot value h.0)
        ∙ ap (λ vs. q.slot y ∷ vs) (values-exchange ys h.1)

    -- The tail is the last node of the chain.
    tail_ne : (x y : ℕ) (ys : List ℕ) → Chain q y ys → NotIn x (y ∷ ys) → x ≢ q.tail
    tail_ne x y [] c h = λ e. h.0 (sym (c.0) ∙ sym e)
    tail_ne x y (z ∷ ys) c h = tail_ne x z ys c.1 h.1

    -- The chain grows by the new node, behind a pending link.
    Chain-exchange :
        (x : ℕ) (ys : List ℕ)
        → Chain q x ys
        → Distinct (x ∷ ys)
        → All (λ n. n < q.unused) (x ∷ ys)
        → q.pending q.unused ≡ none
        → Chain pushed x (ys ++ q.unused ∷ [])
    unfolding push_exchange
    Chain-exchange x [] c d u f = (
      inr (
        update_ne q.next none (λ e. omega (arith, e, u.0)) ∙ c.1,
        subst (λ k. update q.pending q.tail (some q.unused) k ≡ some q.unused) c.0
            (update_self q.pending q.tail (some q.unused)),
      ),
      (
        refl,
        update_self q.next q.unused none,
        update_ne q.pending (some q.unused) (λ e. omega (arith, e, c.0, u.0)) ∙ f,
      ),
    )
    Chain-exchange x (y ∷ ys) c d u f =
        let same_next = update_ne q.next {n = q.unused} {m = x} none (λ e. omega (arith, e, u.0)) in
        let same_pending =
          update_ne q.pending {n = q.tail} {m = x} (some q.unused) (tail_ne x y ys c.1 d.0) in
        (
          elim (c.0) [
            | inl (n, p) ↦ inl (same_next ∙ n, same_pending ∙ p)
            | inr (n, p) ↦ inr (same_next ∙ n, same_pending ∙ p)
          ],
          Chain-exchange y ys c.1 d.1 u.1 f,
        )

    pub exchange-IsChain : (ys : List ℕ) → IsChain q ys → IsChain pushed (ys ++ q.unused ∷ [])
    unfolding push_exchange
    exchange-IsChain ys v =
        let new = v.fresh q.unused (omega arith) in
        record {
          chain = Chain-exchange q.head ys v.chain v.distinct v.used new.1;
          distinct =
              Distinct-last q.unused (q.head ∷ ys) v.distinct
                (NotIn-unused q.unused (q.head ∷ ys) v.used);
          used = All_suc q.unused (q.head ∷ ys) v.used;
          alive =
              All-append (λ n. q.deleted n ≡ false) (q.head ∷ ys) (q.unused ∷ []) v.alive
                (new.0, tt);
          fresh = λ n h. (
            (v.fresh n (omega (arith, h))).0,
            update_ne q.pending (some q.unused)
                  (λ e. tail_used q.head ys v.chain v.used n (omega (arith, h)) (sym e))
                ∙ (v.fresh n (omega (arith, h))).1,
          );
          safe = λ n k e. elim (ℕ_discrete n q.tail) [
            | yes at ↦
                subst (λ m. q.deleted m ≡ false) (sym at) (tail_alive q.head ys v.chain v.alive)
            | no ne ↦ v.safe n k (sym (update_ne q.pending (some q.unused) ne) ∙ e)
          ];
        }
      where
        tail_used :
            (x : ℕ) (zs : List ℕ)
            → Chain q x zs
            → All (λ n. n < q.unused) (x ∷ zs)
            → (n : ℕ) → q.unused ≤ n
            → q.tail ≢ n
        tail_used x [] c u n h e = omega (arith, c.0, u.0, h, e)
        tail_used x (z ∷ zs) c u n h e = tail_used z zs c.1 u.1 n h e

        tail_alive :
            (x : ℕ) (zs : List ℕ)
            → Chain q x zs
            → All (λ n. q.deleted n ≡ false) (x ∷ zs)
            → q.deleted q.tail ≡ false
        tail_alive x [] c u = subst (λ m. q.deleted m ≡ false) (sym (c.0)) u.0
        tail_alive x (z ∷ zs) c u = tail_alive z zs c.1 u.1

  -- The store of a link completes the push.
  module _ (q : MpscQueue A) (prev node : ℕ) (waits : q.pending prev ≡ some node) where
    abbrev linked : MpscQueue A
    linked = record q {
      next = update q.next prev (some node);
      pending = update q.pending prev none;
    }

    Chain-link : (x : ℕ) (ys : List ℕ) → Chain q x ys → Chain linked x ys
    Chain-link x [] c =
        let ne : x ≢ prev = λ e. cc (ap q.pending e, c.2, waits) in
        (c.0, update_ne q.next (some node) ne ∙ c.1, update_ne q.pending none ne ∙ c.2)
    Chain-link x (y ∷ ys) c = (
      elim (ℕ_discrete x prev) [
        | yes e ↦ elim (c.0) [
          | inl (n, p) ↦ absurd (cc (ap q.pending e, p, waits))
          | inr (n, p) ↦
              let is : some node ≡ some y = sym waits ∙ ap q.pending (sym e) ∙ p in
              inl (
                ap (update q.next prev (some node)) e ∙ update_self q.next prev (some node) ∙ is,
                ap (update q.pending prev none) e ∙ update_self q.pending prev none,
              )
        ]
        | no ne ↦ elim (c.0) [
          | inl (n, p) ↦ inl (update_ne q.next (some node) ne ∙ n, update_ne q.pending none ne ∙ p)
          | inr (n, p) ↦ inr (update_ne q.next (some node) ne ∙ n, update_ne q.pending none ne ∙ p)
        ]
      ],
      Chain-link y ys c.1,
    )

    values-link : (ys : List ℕ) → values linked ys ≡ values q ys
    values-link [] = refl
    values-link (y ∷ ys) = ap (λ vs. q.slot y ∷ vs) (values-link ys)

    link-IsChain : (ys : List ℕ) → IsChain q ys → IsChain linked ys
    link-IsChain ys v = record {
      chain = Chain-link q.head ys v.chain;
      distinct = v.distinct;
      used = v.used;
      alive = v.alive;
      fresh = λ n h. (
        (v.fresh n h).0,
        elim (ℕ_discrete n prev) [
          | yes e ↦ ap (update q.pending prev none) e ∙ update_self q.pending prev none
          | no ne ↦ update_ne q.pending none ne ∙ (v.fresh n h).1
        ],
      );
      safe = λ n k e. elim (ℕ_discrete n prev) [
        | yes at ↦ v.safe n node (ap q.pending at ∙ waits)
        | no ne ↦ v.safe n k (sym (update_ne q.pending none ne) ∙ e)
      ];
    }

  -- Taking the oldest node out: the dummy node is deleted, and this one takes its place.
  module _ (q : MpscQueue A) (y : ℕ) (ys : List ℕ) (v : IsChain q (y ∷ ys))
      (there : q.next q.head ≡ some y) where
    abbrev taken : MpscQueue A
    taken = record q { head = y; deleted = update q.deleted q.head true }

    Chain-taken : (x : ℕ) (zs : List ℕ) → Chain q x zs → Chain taken x zs
    Chain-taken x [] c = c
    Chain-taken x (z ∷ zs) c = (c.0, Chain-taken z zs c.1)

    pub values-taken : (zs : List ℕ) → values taken zs ≡ values q zs
    values-taken [] = refl
    values-taken (z ∷ zs) = ap (λ vs. q.slot z ∷ vs) (values-taken zs)

    alive_still :
        (zs : List ℕ)
        → NotIn q.head zs
        → All (λ n. q.deleted n ≡ false) zs
        → All (λ n. update q.deleted q.head true n ≡ false) zs
    alive_still [] h a = tt
    alive_still (z ∷ zs) h a = (update_ne q.deleted true h.0 ∙ a.0, alive_still zs h.1 a.1)

    head_done : q.pending q.head ≡ none
    head_done = elim (v.chain.0) [ inl (n, p) ↦ p | inr (n, p) ↦ absurd (cc (n, there)) ]

    pub taken-IsChain : IsChain taken ys
    taken-IsChain = record {
      chain = Chain-taken y ys v.chain.1;
      distinct = v.distinct.1;
      used = v.used.1;
      alive = alive_still (y ∷ ys) v.distinct.0 v.alive.1;
      fresh = λ n h. (
        update_ne q.deleted true (λ e. omega (arith, e, v.used.0, h)) ∙ (v.fresh n h).0,
        (v.fresh n h).1,
      );
      safe = λ n k e. update_ne q.deleted true (λ same. cc (head_done, e)) ∙ v.safe n k e;
    }

  pub push_link-IsChain :
      (prev : ℕ) (q : MpscQueue A) (ys : List ℕ)
      → IsChain q ys
      → IsChain (push_link prev q) ys × (values (push_link prev q) ys ≡ values q ys)
  unfolding push_link
  push_link-IsChain prev q ys v = elim (Option-cases (q.pending prev)) [
    | inl e ↦ rw (push_link, e) (v, refl)
    | inr (node, e) ↦
        rw (push_link, e) (link-IsChain q prev node e ys v, values-link q prev node e ys)
  ]
