-- ===== src/OrderBook/Matching/Step.antt =====
-- The body of the inner loop: it either fills the front order and removes it, or ends the want.
use hftperformance.Prelude.{
  ℕ, ◌≡◌, refl, sym, ◌∙◌, ap, subst, ◌≢◌, List, [], ◌∷◌, ◌++◌, Bool, true, false, arith, All, NotIn,
  NotIn-append_left, Bool-cases, inl, inr,
}
use hftperformance.Prelude.Int.{
  ℤ, pos, ◌+ℤ◌, ◌-ℤ◌, ◌≤ℤ◌, ◌<ℤ◌, min_ℤ_cases, int_laws, le_or_lt, -ℤ_self,
}
use hftperformance.Types.{Side}
use hftperformance.Order.{Order, remaining_quantity, is_filled, is_active}
use hftperformance.Order.Fill.{is_filled_iff, fill_status}
use hftperformance.PriceLevel.{Store, PriceLevel, update_quantity, remove_order}
use hftperformance.PriceLevel.Queue.{IsQueue}
use hftperformance.PriceLevel.Unlink.{remove_order_ne, order-remove_order}
use hftperformance.PriceLevel.Remove.{pop_front_cases, remove_order-IsQueue}
use hftperformance.OrderBook.Matching.{Desk, execute, retire, match_front}
use hftperformance.OrderBook.Matching.Accounts.{
  id_of, IsAccounted, IsAccounted-store, retire-IsAccounted,
}
use hftperformance.OrderBook.Matching.Trade.{
  remaining_at, traded, SameTerms, execute-aggressor, execute-passive, execute_ne, execute-rest,
  execute-remaining, execute-SameTerms, execute-IsQueue, store-retire,
}
use hftperformance.OrderBook.Matching.Level.{Rests, AtLevel}
use hftperformance.OrderBook.Matching.Told.{
  Note, notes, told_deals, deal_of, Tells, execute-Tells, reports-retire,
}

-- An order on its way through the book: nothing is filled too far, and it is active while anything
-- remains.
pub record IsLive (o : Order) : Type 0 where
  pub not_over : pos 0 ≤ℤ remaining_quantity o
  pub active : pos 0 <ℤ remaining_quantity o → is_active o ≡ true

-- What a stretch of the loop leaves alone: the terms of all orders, and all nodes but the
-- aggressor's and those at `xs`.
pub record Keeps (a : ℕ) (xs : List ℕ) (d e : Desk) : Type 0 where
  pub terms : (m : ℕ) → SameTerms (d.store m).order (e.store m).order
  pub lives : IsLive (d.store a).order → IsLive (e.store a).order
  pub frame : (m : ℕ) → m ≢ a → NotIn m xs → e.store m ≡ d.store m

-- The outcome of one body: the front order is filled and gone, or the want is.
pub data Outcome (reporting : Bool) (side : Side) (price : ℤ) (a p : ℕ) (others : List ℕ) (d : Desk)
    (ys free : List ℕ) (level' : PriceLevel) (d' : Desk) : Type 0 where
  filled :
      remaining_at d.store p ≤ℤ remaining_at d.store a
      → AtLevel side price a others level' d' ys (p ∷ free)
      → remaining_at d'.store a ≡ remaining_at d.store a -ℤ remaining_at d.store p
      → d'.volume_matched ≡ d.volume_matched +ℤ remaining_at d.store p
      → Tells reporting
          (id_of d.store a)
          (deal_of d.store p price (remaining_at d.store p) ∷ [])
          d
          d'
      → Outcome reporting side price a p others d ys free level' d'
  partial :
      remaining_at d.store a <ℤ remaining_at d.store p
      → AtLevel side price a others level' d' (p ∷ ys) free
      → remaining_at d'.store a ≡ pos 0
      → remaining_at d'.store p ≡ remaining_at d.store p -ℤ remaining_at d.store a
      → d'.volume_matched ≡ d.volume_matched +ℤ remaining_at d.store a
      → Tells reporting
          (id_of d.store a)
          (deal_of d.store p price (remaining_at d.store a) ∷ [])
          d
          d'
      → Outcome reporting side price a p others d ys free level' d'

module _ (reporting : Bool) (time : ℤ) (side : Side) (price : ℤ) (a p : ℕ) (others : List ℕ)
    (level : PriceLevel) (d : Desk) (ys free : List ℕ)
    (v : AtLevel side price a others level d (p ∷ ys) free)
    (want : pos 0 <ℤ remaining_at d.store a) where
  abbrev traded_desk : Desk
  traded_desk = execute reporting time a p d

  abbrev traded_level : PriceLevel
  traded_level = update_quantity (traded d.store a p) level

  abbrev popped : PriceLevel × Store
  popped = remove_order p traded_level traded_desk.store

  ne : a ≢ p
  ne = λ e. v.accounts.distinct.0.0 (sym e)

  apart_queue : NotIn a (p ∷ ys)
  apart_queue = NotIn-append_left a (p ∷ ys) others v.accounts.distinct.0

  traded-IsQueue : IsQueue traded_desk.store traded_level (p ∷ ys)
  traded-IsQueue = execute-IsQueue reporting time a p d level ys apart_queue v.queue

  ids : (m : ℕ) → id_of traded_desk.store m ≡ id_of d.store m
  ids m = (execute-SameTerms reporting time a p d ne m).order_id

  traded-accounts : IsAccounted traded_desk (a ∷ p ∷ ys ++ others) free
  traded-accounts =
      IsAccounted-store d traded_desk _ free (execute-rest reporting time a p d).0
        (execute-rest reporting time a p d).1 ids v.accounts

  traded_whole :
      remaining_at d.store p ≤ℤ remaining_at d.store a → traded d.store a p ≡ remaining_at d.store p
  traded_whole h = elim (min_ℤ_cases (remaining_at d.store a) (remaining_at d.store p)) [
    | inl (e, le) ↦ e ∙ omega int_laws
    | inr (e, lt) ↦ e
  ]

  traded_part :
      remaining_at d.store a <ℤ remaining_at d.store p → traded d.store a p ≡ remaining_at d.store a
  traded_part h = elim (min_ℤ_cases (remaining_at d.store a) (remaining_at d.store p)) [
    | inl (e, le) ↦ e
    | inr (e, lt) ↦ absurd (omega arith)
  ]

  left_over : remaining_at traded_desk.store p ≡ remaining_at d.store p -ℤ traded d.store a p
  left_over = (execute-remaining reporting time a p d ne).1

  left_want : remaining_at traded_desk.store a ≡ remaining_at d.store a -ℤ traded d.store a p
  left_want = (execute-remaining reporting time a p d ne).0

  filled_le :
      is_filled (traded_desk.store p).order ≡ true
      → remaining_at d.store p ≤ℤ remaining_at d.store a
  filled_le h =
      let none_left : remaining_at d.store p -ℤ traded d.store a p ≤ℤ pos 0 =
        subst (λ k. k ≤ℤ pos 0) left_over ((is_filled_iff (traded_desk.store p).order).0 h) in
      elim (min_ℤ_cases (remaining_at d.store a) (remaining_at d.store p)) [
        | inl (e, le) ↦
            let none_left' : remaining_at d.store p -ℤ remaining_at d.store a ≤ℤ pos 0 =
              subst (λ k. remaining_at d.store p -ℤ k ≤ℤ pos 0) e none_left in
            omega int_laws
        | inr (e, lt) ↦ omega arith
      ]

  partial_lt :
      is_filled (traded_desk.store p).order ≡ false
      → remaining_at d.store a <ℤ remaining_at d.store p
  partial_lt h = elim (le_or_lt (remaining_at d.store p) (remaining_at d.store a)) [
    | inl le ↦
        let none_left : remaining_at traded_desk.store p ≤ℤ pos 0 =
          rw (left_over, traded_whole le, -ℤ_self) (omega arith) in
        let done = (is_filled_iff (traded_desk.store p).order).1 none_left in
        let clash : ⊥ = cc (h, done) in absurd clash
    | inr lt ↦ lt
  ]

  y_resting :
      (y : ℕ) (e : Desk)
      → (e.store y).order ≡ (traded_desk.store y).order
      → traded_desk.store y ≡ d.store y
      → Rests side price (d.store y).order
      → Rests side price (e.store y).order
  y_resting y e f g r = subst (λ o. Rests side price o) (sym (f ∙ ap (λ n. n.order) g)) r

  ys_resting :
      (e : Desk)
      → ((m : ℕ) → (e.store m).order ≡ (traded_desk.store m).order)
      → (zs : List ℕ) → NotIn a zs
      → NotIn p zs
      → All (λ n. Rests side price (d.store n).order) zs
      → All (λ n. Rests side price (e.store n).order) zs
  ys_resting e f [] ha hp r = tt
  ys_resting e f (z ∷ zs) ha hp r = (
    y_resting z e (f z) (execute_ne reporting time a p d z ha.0 hp.0) r.0,
    ys_resting e f zs ha.1 hp.1 r.1,
  )

  -- A front order that is not filled still rests.
  front_resting :
      remaining_at d.store a <ℤ remaining_at d.store p
      → Rests side price (traded_desk.store p).order
  front_resting lt = record {
    at_price = terms.price ∙ v.resting.0.at_price;
    at_side = terms.side ∙ v.resting.0.at_side;
    active =
        rw (execute-passive reporting time a p d ne)
          ((fill_status time _ (d.store p).order).1 more);
    remains = subst (λ k. pos 0 <ℤ k) (sym left_over) more;
  }
    where
      terms : SameTerms (d.store p).order (traded_desk.store p).order
      terms = execute-SameTerms reporting time a p d ne p

      more : pos 0 <ℤ remaining_at d.store p -ℤ traded d.store a p
      more = rw (traded_part lt) (omega int_laws)

  popped_orders : (m : ℕ) → (popped.1 m).order ≡ (traded_desk.store m).order
  popped_orders = order-remove_order p traded_level traded_desk.store

  filled_desk : Desk
  filled_desk = retire p (record traded_desk { store = popped.1 })

  match_front-filled :
      is_filled (traded_desk.store p).order ≡ true
      → match_front reporting time a p (level, d) ≡ (popped.0, filled_desk)
  unfolding match_front filled_desk
  match_front-filled e =
      rw (e, (pop_front_cases traded_level traded_desk.store).1 p traded-IsQueue.head)

  match_front-partial :
      is_filled (traded_desk.store p).order ≡ false
      → match_front reporting time a p (level, d) ≡ (traded_level, traded_desk)
  unfolding match_front
  match_front-partial e = rw e

  filled_store : filled_desk.store ≡ popped.1
  unfolding filled_desk
  filled_store = (store-retire p (record traded_desk { store = popped.1 })).0

  filled-AtLevel : AtLevel side price a others popped.0 filled_desk ys (p ∷ free)
  unfolding filled_desk
  filled-AtLevel = record {
    queue =
        rw filled_store
          (remove_order-IsQueue p traded_level traded_desk.store [] ys traded-IsQueue);
    resting = rw filled_store (
        ys_resting (record d { store = popped.1 }) popped_orders ys apart_queue.1 v.queue.distinct.0
          v.resting.1);
    accounts =
        retire-IsAccounted (record traded_desk { store = popped.1 }) p (a ∷ []) (ys ++ others) free
          (IsAccounted-store traded_desk (record traded_desk { store = popped.1 }) _ free refl refl
            (λ m. ap (λ o. o.order_id) (popped_orders m)) traded-accounts);
  }

  partial-AtLevel :
      remaining_at d.store a <ℤ remaining_at d.store p
      → AtLevel side price a others traded_level traded_desk (p ∷ ys) free
  partial-AtLevel lt = record {
    queue = traded-IsQueue;
    resting = (
      front_resting lt,
      ys_resting traded_desk (λ m. refl) ys apart_queue.1 v.queue.distinct.0 v.resting.1,
    );
    accounts = traded-accounts;
  }

  order_filled : (m : ℕ) → (filled_desk.store m).order ≡ (traded_desk.store m).order
  order_filled m = rw filled_store (popped_orders m)

  volume_filled : filled_desk.volume_matched ≡ d.volume_matched +ℤ traded d.store a p
  unfolding filled_desk
  volume_filled =
      (store-retire p (record traded_desk { store = popped.1 })).1
      ∙ (execute-rest reporting time a p d).2

  traded-Tells :
      (qty : ℤ)
      → traded d.store a p ≡ qty
      → Tells reporting (id_of d.store a) (deal_of d.store p price qty ∷ []) d traded_desk
  traded-Tells qty e =
      execute-Tells time a p d reporting ne
      ∙ ap (λ x. told x (traded d.store a p)) v.resting.0.at_price
      ∙ ap (λ q. told price q) e
    where
      told : ℤ → ℤ → List Note
      told x q =
          notes d.reports ++ told_deals reporting (id_of d.store a) (deal_of d.store p x q ∷ [])

  filled-Tells :
      remaining_at d.store p ≤ℤ remaining_at d.store a
      → Tells reporting
          (id_of d.store a)
          (deal_of d.store p price (remaining_at d.store p) ∷ [])
          d
          filled_desk
  unfolding filled_desk
  filled-Tells le =
      ap notes (reports-retire p (record traded_desk { store = popped.1 }))
      ∙ traded-Tells (remaining_at d.store p) (traded_whole le)

  -- The body of the inner loop, on both its branches.
  pub match_front-Outcome :
      Outcome reporting side price a p others d ys free
        (match_front reporting time a p (level, d)).0
        (match_front reporting time a p (level, d)).1
  match_front-Outcome = elim (Bool-cases (is_filled (traded_desk.store p).order)) [
    | inl e ↦ rw (match_front-filled e) (
        filled (filled_le e) filled-AtLevel
          (ap remaining_quantity (order_filled a)
            ∙ left_want
            ∙ ap (λ k. remaining_at d.store a -ℤ k) (traded_whole (filled_le e)))
          (volume_filled ∙ ap (λ k. d.volume_matched +ℤ k) (traded_whole (filled_le e)))
          (filled-Tells (filled_le e)))
    | inr e ↦ rw (match_front-partial e) (
        partial (partial_lt e) (partial-AtLevel (partial_lt e))
          (left_want
            ∙ ap (λ k. remaining_at d.store a -ℤ k) (traded_part (partial_lt e))
            ∙ -ℤ_self (remaining_at d.store a))
          (left_over ∙ ap (λ k. remaining_at d.store p -ℤ k) (traded_part (partial_lt e)))
          ((execute-rest reporting time a p d).2
            ∙ ap (λ k. d.volume_matched +ℤ k) (traded_part (partial_lt e)))
          (traded-Tells (remaining_at d.store a) (traded_part (partial_lt e))))
  ]

  traded_le : traded d.store a p ≤ℤ remaining_at d.store a
  traded_le = elim (min_ℤ_cases (remaining_at d.store a) (remaining_at d.store p)) [
    | inl (e, le) ↦ rw e (omega arith)
    | inr (e, lt) ↦ rw e (omega arith)
  ]

  traded-IsLive : IsLive (traded_desk.store a).order
  traded-IsLive = record {
    not_over = rw left_want (omega (int_laws, traded_le));
    active = λ h.
        rw (execute-aggressor reporting time a p d ne)
          ((fill_status time _ (d.store a).order).1 (subst (λ k. pos 0 <ℤ k) left_want h));
  }

  traded-Keeps : Keeps a (p ∷ ys) d traded_desk
  traded-Keeps = record {
    terms = execute-SameTerms reporting time a p d ne;
    lives = λ h. traded-IsLive;
    frame = λ m ha hm. execute_ne reporting time a p d m ha (λ e. hm.0 (sym e));
  }

  filled-Keeps : Keeps a (p ∷ ys) d filled_desk
  filled-Keeps = record {
    terms = λ m.
        subst (λ o. SameTerms (d.store m).order o) (sym (order_filled m)) (traded-Keeps.terms m);
    lives = λ h. subst IsLive (sym (order_filled a)) traded-IsLive;
    frame = λ m ha hm.
        ap (λ s. s m) filled_store
        ∙ remove_order_ne p traded_level traded_desk.store [] ys m traded-IsQueue hm
        ∙ traded-Keeps.frame m ha hm;
  }

  pub match_front-Keeps : Keeps a (p ∷ ys) d (match_front reporting time a p (level, d)).1
  match_front-Keeps = elim (Bool-cases (is_filled (traded_desk.store p).order)) [
    | inl e ↦ rw (match_front-filled e) filled-Keeps
    | inr e ↦ rw (match_front-partial e) traded-Keeps
  ]

  -- The orders behind the front one are as they were.
  pub match_front-behind :
      (y : ℕ)
      → NotIn y (a ∷ p ∷ [])
      → ((match_front reporting time a p (level, d)).1.store y).order ≡ (d.store y).order
  match_front-behind y h = elim (Bool-cases (is_filled (traded_desk.store p).order)) [
    | inl e ↦ rw (match_front-filled e) (order_filled y ∙ same)
    | inr e ↦ rw (match_front-partial e) same
  ]
    where
      same : (traded_desk.store y).order ≡ (d.store y).order
      same =
          ap (λ n. n.order)
            (execute_ne reporting time a p d y (λ e. h.0 (sym e)) (λ e. h.1.0 (sym e)))
