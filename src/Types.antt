-- ===== src/Types.antt =====
-- src/core/types.hpp: the trading types that the other components share.
-- A `Price`, `Quantity` or `Timestamp` (int64_t) is a ℤ, an `OrderId` (uint64_t) a number below 2 ^ 64.
pub mod Symbol
use hftperformance.Prelude.{ℕ}
use hftperformance.Prelude.Int.{ℤ, ◌+ℤ◌, ◌-ℤ◌, half_ℤ}

-- `INVALID_ORDER_ID`
abbrev pub invalid_order_id : ℕ
invalid_order_id = 0

-- `enum class Side`
pub data Side : Type 0 where
  buy sell : Side

unfoldable pub opposite : Side → Side
opposite buy = sell
opposite sell = buy

-- `enum class OrderType`
pub data OrderType : Type 0 where
  limit market stop_limit immediate_or_cancel fill_or_kill post_only : OrderType

-- `enum class OrderStatus`
pub data OrderStatus : Type 0 where
  new partially_filled filled cancelled rejected expired : OrderStatus

-- `enum class ExecutionType`
pub data ExecutionType : Type 0 where
  new trade cancelled replaced rejected : ExecutionType

-- `struct Quote`
pub record Quote : Type 0 where
  pub bid_price : ℤ
  pub ask_price : ℤ
  pub bid_quantity : ℤ
  pub ask_quantity : ℤ
  pub timestamp : ℤ

-- `Quote::spread`
unfoldable pub quote_spread : Quote → ℤ
quote_spread q = q.ask_price -ℤ q.bid_price

-- `Quote::mid_price`
unfoldable pub quote_mid_price : Quote → ℤ
quote_mid_price q = half_ℤ (q.bid_price +ℤ q.ask_price)
