-- ===== src/Order/Priority.antt =====
-- src/matching/order.hpp, `OrderPriorityCompare`: the order that it gives to orders of one side.
use hftperformance.Prelude.{◌≡◌, true, false, arith, ◌⊎◌, ◌↔◌}
use hftperformance.Prelude.Int.{◌<ℤ◌}
use hftperformance.Types.{Side, buy, sell}
use hftperformance.Order.{Order, order_priority_compare}

-- Price-time priority of two orders of one side: `x` comes after `y`. A better bid is a higher one, a
-- better ask a lower one, and at one price the earlier order is the better.
abbrev pub ComesAfter : Side → Order → Order → Type 0
ComesAfter buy x y = (x.price <ℤ y.price) ⊎ ((x.price ≡ y.price) × (y.entry_time <ℤ x.entry_time))
ComesAfter sell x y = (y.price <ℤ x.price) ⊎ ((x.price ≡ y.price) × (y.entry_time <ℤ x.entry_time))

compare_side :
    (side : Side) (x y : Order)
    → x.side ≡ side
    → (order_priority_compare x y ≡ true) ↔ ComesAfter side x y
unfolding order_priority_compare
compare_side buy x y hx = ground (arith, hx)
compare_side sell x y hx = ground (arith, hx)

-- `OrderPriorityCompare` puts the first of two orders of one side below the second exactly when it comes
-- after it by price-time priority. So it is a strict weak order on the orders of one side: no order is
-- below itself, it is transitive, and two orders neither of which is below the other have the same
-- price and entry time.
pub order_priority_compare-IsStrictWeak :
    (side : Side) (x y z : Order)
    → x.side ≡ side
    → y.side ≡ side
    → z.side ≡ side
    → ((order_priority_compare x y ≡ true) ↔ ComesAfter side x y)
      × (order_priority_compare x x ≡ false)
      × (order_priority_compare x y ≡ true
          → order_priority_compare y z ≡ true
          → order_priority_compare x z ≡ true)
      × (order_priority_compare x y ≡ false
          → order_priority_compare y x ≡ false
          → (x.price ≡ y.price) × (x.entry_time ≡ y.entry_time))
unfolding order_priority_compare
order_priority_compare-IsStrictWeak buy x y z hx hy hz = (
  compare_side buy x y hx,
  ground arith,
  λ p q. ground arith,
  λ p q. (ground arith, ground arith),
)
order_priority_compare-IsStrictWeak sell x y z hx hy hz = (
  compare_side sell x y hx,
  ground arith,
  λ p q. ground arith,
  λ p q. (ground arith, ground arith),
)
