-- ===== src/OrderBook/Matching/Trade.antt =====
-- One trade of the inner loop: what it does to the two orders, to the level and to the counters.
use hftperformance.Prelude.{
  ℕ, ◌+◌, ◌%◌, ◌^◌, ◌≡◌, refl, sym, ◌∙◌, ap, ◌≢◌, List, [], ◌∷◌, none, Bool, arith, NotIn, subst,
}
use hftperformance.Prelude.Int.{ℤ, ◌+ℤ◌, ◌-ℤ◌, min_ℤ, int_laws}
use native.Mathlib.Decide.{ℕ_discrete}
use hftperformance.Order.{Order, remaining_quantity, fill}
use hftperformance.Order.Fill.{remaining-fill}
use hftperformance.PriceLevel.{Store, PriceLevel, update_quantity}
use hftperformance.PriceLevel.Links.{Links-congr, Agree}
use hftperformance.PriceLevel.Queue.{IsQueue, sum_remaining-Agree}
use hftperformance.OrderBook.Matching.{Desk, execute, retire}

-- What remains of the order at a node.
abbrev pub remaining_at : Store → ℕ → ℤ
remaining_at s n = remaining_quantity (s n).order

-- The quantity of a trade.
abbrev pub traded : Store → ℕ → ℕ → ℤ
traded s aggressor passive = min_ℤ (remaining_at s aggressor) (remaining_at s passive)

-- A fill leaves the terms of an order alone.
pub record SameTerms (o p : Order) : Type 0 where
  pub order_id : p.order_id ≡ o.order_id
  pub price : p.price ≡ o.price
  pub quantity : p.quantity ≡ o.quantity
  pub side : p.side ≡ o.side
  pub type : p.type ≡ o.type
  pub client_id : p.client_id ≡ o.client_id

pub SameTerms-refl : (o : Order) → SameTerms o o
SameTerms-refl o = record {
  order_id = refl;
  price = refl;
  quantity = refl;
  side = refl;
  type = refl;
  client_id = refl;
}

pub SameTerms-trans : (o p q : Order) → SameTerms o p → SameTerms p q → SameTerms o q
SameTerms-trans o p q h k = record {
  order_id = k.order_id ∙ h.order_id;
  price = k.price ∙ h.price;
  quantity = k.quantity ∙ h.quantity;
  side = k.side ∙ h.side;
  type = k.type ∙ h.type;
  client_id = k.client_id ∙ h.client_id;
}

fill-SameTerms : (time qty : ℤ) (o : Order) → SameTerms o (fill time qty o)
unfolding fill
fill-SameTerms time qty o = record {
  order_id = refl;
  price = refl;
  quantity = refl;
  side = refl;
  type = refl;
  client_id = refl;
}

pub store-retire :
    (n : ℕ) (d : Desk)
    → ((retire n d).store ≡ d.store) × ((retire n d).volume_matched ≡ d.volume_matched)
unfolding retire
store-retire n d = (refl, refl)

module _ (reporting : Bool) (time : ℤ) (a p : ℕ) (d : Desk) where
  pub execute-aggressor :
      a ≢ p
      → ((execute reporting time a p d).store a).order
        ≡ fill time (traded d.store a p) (d.store a).order
  unfolding execute
  execute-aggressor ne = ground arith

  pub execute-passive :
      a ≢ p
      → ((execute reporting time a p d).store p).order
        ≡ fill time (traded d.store a p) (d.store p).order
  unfolding execute
  execute-passive ne = ground arith

  pub execute_ne : (m : ℕ) → m ≢ a → m ≢ p → (execute reporting time a p d).store m ≡ d.store m
  unfolding execute
  execute_ne m ha hp = ground arith

  pub execute-links :
      (m : ℕ)
      → (((execute reporting time a p d).store m).prev ≡ (d.store m).prev)
        × (((execute reporting time a p d).store m).next ≡ (d.store m).next)
  unfolding execute
  execute-links m = (ground arith, ground arith)

  pub execute-rest :
      ((execute reporting time a p d).order_index ≡ d.order_index)
      × ((execute reporting time a p d).order_pool ≡ d.order_pool)
      × ((execute reporting time a p d).volume_matched ≡ d.volume_matched +ℤ traded d.store a p)
      × ((execute reporting time a p d).trades_matched ≡ (d.trades_matched + 1) % 2 ^ 64)
  unfolding execute
  execute-rest = (refl, refl, refl, refl)

  pub execute-remaining :
      a ≢ p
      → (remaining_at (execute reporting time a p d).store a
          ≡ remaining_at d.store a -ℤ traded d.store a p)
        × (remaining_at (execute reporting time a p d).store p
            ≡ remaining_at d.store p -ℤ traded d.store a p)
  execute-remaining ne = (
    ap remaining_quantity (execute-aggressor ne) ∙ remaining-fill time _ _,
    ap remaining_quantity (execute-passive ne) ∙ remaining-fill time _ _,
  )

  pub execute-SameTerms :
      a ≢ p → (m : ℕ) → SameTerms (d.store m).order ((execute reporting time a p d).store m).order
  execute-SameTerms ne m = elim (ℕ_discrete m a) [
    | yes e ↦
        subst (λ k. SameTerms (d.store k).order ((execute reporting time a p d).store k).order)
          (sym e) (rw (execute-aggressor ne) (fill-SameTerms time _ (d.store a).order))
    | no ha ↦ elim (ℕ_discrete m p) [
      | yes e ↦
          subst (λ k. SameTerms (d.store k).order ((execute reporting time a p d).store k).order)
            (sym e) (rw (execute-passive ne) (fill-SameTerms time _ (d.store p).order))
      | no hp ↦ rw (execute_ne m ha hp) (SameTerms-refl (d.store m).order)
    ]
  ]

  pub execute-Agree :
      (ys : List ℕ)
      → NotIn a ys
      → NotIn p ys
      → Agree d.store (execute reporting time a p d).store ys
  execute-Agree [] ha hp = tt
  execute-Agree (y ∷ ys) ha hp = (execute_ne y ha.0 hp.0, execute-Agree ys ha.1 hp.1)

  -- A trade with the front order keeps the level's queue and its counters right.
  pub execute-IsQueue :
      (level : PriceLevel) (ys : List ℕ)
      → NotIn a (p ∷ ys)
      → IsQueue d.store level (p ∷ ys)
      → IsQueue
          (execute reporting time a p d).store
          (update_quantity (traded d.store a p) level)
          (p ∷ ys)
  unfolding update_quantity
  execute-IsQueue level ys h v = record {
    head = v.head;
    tail = v.tail;
    links =
        Links-congr d.store (execute reporting time a p d).store execute-links none (p ∷ ys) none
          v.links;
    distinct = v.distinct;
    total =
        rw
          (
            (execute-remaining (λ e. h.0 (sym e))).1,
            sum_remaining-Agree d.store (execute reporting time a p d).store ys
                (execute-Agree ys h.1 v.distinct.0),
            v.total,
          )
          (omega int_laws);
    counted = v.counted;
    small = v.small;
  }
