-- ===== src/Order.antt =====
-- src/matching/order.hpp: the order, its mutators, execution reports and the id generator.
-- `now()` is the argument `time`: within one call of an operation the clock reads one value.
-- The reserved `flags` and the padding are left out: nothing reads them.
pub mod Fill
pub mod Priority
use hftperformance.Prelude.{ℕ, ◌+◌, ◌%◌, ◌^◌, Bool, true, false, if◌then◌else◌}
use hftperformance.Prelude.Int.{ℤ, pos, ◌+ℤ◌, ◌-ℤ◌, ltb_ℤ, leb_ℤ, eqb_ℤ}
use hftperformance.Types.{Side, OrderType, OrderStatus, ExecutionType}

-- `struct Order`
pub record Order : Type 0 where
  pub order_id : ℕ
  pub price : ℤ
  pub quantity : ℤ
  pub filled_quantity : ℤ
  pub side : Side
  pub type : OrderType
  pub status : OrderStatus
  pub entry_time : ℤ
  pub update_time : ℤ
  pub client_id : ℕ
  pub sequence_num : ℕ

-- The constructor of `Order`.
unfoldable pub make_order : ℤ → ℕ → Side → OrderType → ℤ → ℤ → ℕ → Order
make_order time id s t p q client = record {
  order_id = id;
  price = p;
  quantity = q;
  filled_quantity = pos 0;
  side = s;
  type = t;
  status = OrderStatus.new;
  entry_time = time;
  update_time = time;
  client_id = client;
  sequence_num = 0;
}

unfoldable pub remaining_quantity : Order → ℤ
remaining_quantity o = o.quantity -ℤ o.filled_quantity

unfoldable pub is_filled : Order → Bool
is_filled o = leb_ℤ o.quantity o.filled_quantity

status_active : OrderStatus → Bool
status_active OrderStatus.new = true
status_active OrderStatus.partially_filled = true
status_active _ = false

unfoldable pub is_active : Order → Bool
unfolding status_active
is_active o = status_active o.status

-- `Order::fill`
unfoldable pub fill : ℤ → ℤ → Order → Order
fill time qty o = record o {
  filled_quantity = o.filled_quantity +ℤ qty;
  update_time = time;
  status =
      if leb_ℤ o.quantity (o.filled_quantity +ℤ qty)
      then OrderStatus.filled
      else OrderStatus.partially_filled;
}

-- `Order::cancel`
unfoldable pub cancel : ℤ → Order → Order
cancel time o = record o { status = OrderStatus.cancelled; update_time = time }

-- `Order::reject`
unfoldable pub reject : ℤ → Order → Order
reject time o = record o { status = OrderStatus.rejected; update_time = time }

-- `OrderPriorityCompare`: true if `lhs` has the lower priority.
unfoldable pub order_priority_compare : Order → Order → Bool
order_priority_compare lhs rhs =
    if eqb_ℤ lhs.price rhs.price then ltb_ℤ rhs.entry_time lhs.entry_time else by_price lhs.side
  where
    by_price : Side → Bool
    by_price Side.buy = ltb_ℤ lhs.price rhs.price
    by_price Side.sell = ltb_ℤ rhs.price lhs.price

-- `OrderIdGenerator` is its `next_id_`; `next` returns the old value, and `fetch_add` wraps.
unfoldable pub next_order_id : ℕ → ℕ × ℕ
next_order_id next_id = (next_id, (next_id + 1) % 2 ^ 64)

-- `struct ExecutionReport`
pub record ExecutionReport : Type 0 where
  pub order_id : ℕ
  pub contra_order_id : ℕ
  pub execution_price : ℤ
  pub execution_quantity : ℤ
  pub side : Side
  pub exec_type : ExecutionType
  pub order_status : OrderStatus
  pub timestamp : ℤ
  pub client_id : ℕ
  pub leaves_quantity : ℤ
  pub cumulative_quantity : ℤ

unfoldable pub make_trade : ℤ → Order → Order → ℤ → ℤ → ExecutionReport
make_trade time order contra price qty = record {
  order_id = order.order_id;
  contra_order_id = contra.order_id;
  execution_price = price;
  execution_quantity = qty;
  side = order.side;
  exec_type = ExecutionType.trade;
  order_status = order.status;
  timestamp = time;
  client_id = order.client_id;
  leaves_quantity = remaining_quantity order -ℤ qty;
  cumulative_quantity = order.filled_quantity +ℤ qty;
}

unfoldable pub make_new : ℤ → Order → ExecutionReport
make_new time order = record {
  order_id = order.order_id;
  contra_order_id = 0;
  execution_price = order.price;
  execution_quantity = pos 0;
  side = order.side;
  exec_type = ExecutionType.new;
  order_status = OrderStatus.new;
  timestamp = time;
  client_id = order.client_id;
  leaves_quantity = order.quantity;
  cumulative_quantity = pos 0;
}

unfoldable pub make_cancel : ℤ → Order → ExecutionReport
make_cancel time order = record {
  order_id = order.order_id;
  contra_order_id = 0;
  execution_price = order.price;
  execution_quantity = pos 0;
  side = order.side;
  exec_type = ExecutionType.cancelled;
  order_status = OrderStatus.cancelled;
  timestamp = time;
  client_id = order.client_id;
  leaves_quantity = pos 0;
  cumulative_quantity = order.filled_quantity;
}
