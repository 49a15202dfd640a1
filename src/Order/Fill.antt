-- ===== src/Order/Fill.antt =====
-- What a fill does to an order.
use hftperformance.Prelude.{◌≡◌, ◌↔◌, true, arith}
use hftperformance.Prelude.Int.{ℤ, pos, ◌-ℤ◌, ◌≤ℤ◌, ◌<ℤ◌, int_laws, +ℤ_parts, -ℤ_parts}
use hftperformance.Order.{Order, remaining_quantity, is_filled, is_active, fill}

pub remaining-fill :
    (time qty : ℤ) (o : Order) → remaining_quantity (fill time qty o) ≡ remaining_quantity o -ℤ qty
unfolding remaining_quantity fill
remaining-fill time qty o = omega int_laws

-- An order counts as filled exactly when nothing remains of it.
pub is_filled_iff : (o : Order) → (is_filled o ≡ true) ↔ (remaining_quantity o ≤ℤ pos 0)
unfolding is_filled remaining_quantity
is_filled_iff o = ground (arith, -ℤ_parts o.quantity o.filled_quantity)

-- After a fill, an order is active exactly when more remained of it than was filled.
pub fill_status :
    (time qty : ℤ) (o : Order)
    → (is_active (fill time qty o) ≡ true) ↔ (pos 0 <ℤ remaining_quantity o -ℤ qty)
unfolding is_active fill remaining_quantity
fill_status time qty o = ground (
  arith,
  -ℤ_parts o.quantity o.filled_quantity,
  -ℤ_parts (o.quantity -ℤ o.filled_quantity) qty,
  +ℤ_parts o.filled_quantity qty,
)
