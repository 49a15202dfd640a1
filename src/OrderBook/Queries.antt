-- ===== src/OrderBook/Queries.antt =====
-- src/matching/order_book.hpp, the queries of the book. They change nothing.
pub mod Views
pub mod Stale
use hftperformance.Prelude.{ℕ, zero, suc, ◌+◌, ◌%◌, ◌^◌, List, [], ◌∷◌, Option, none, some, length}
use hftperformance.Prelude.Int.{ℤ, pos, ◌+ℤ◌, ◌-ℤ◌, half_ℤ}
use hftperformance.Types.{Quote}
use hftperformance.Order.{Order}
use hftperformance.PriceLevel.{PriceLevel}
use hftperformance.OrderBook.Maps.{LevelMap, find_node}
use hftperformance.OrderBook.{OrderBook}

-- `get_order`
unfoldable pub get_order : ℕ → OrderBook → Option Order
get_order order_id b = elim (find_node order_id b.order_index) [
  | none ↦ none
  | some node ↦ some (b.store node).order
]

-- `begin()->first`, if there is an entry.
abbrev pub first_price : LevelMap → Option ℤ
first_price [] = none
first_price ((price, _) ∷ m) = some price

-- `best_bid` and `best_ask`
unfoldable pub best_bid : OrderBook → Option ℤ
best_bid b = first_price b.bids

unfoldable pub best_ask : OrderBook → Option ℤ
best_ask b = first_price b.asks

-- `get_quote`, of the first entries.
quote_of : ℤ → LevelMap → LevelMap → Option Quote
quote_of time [] asks = none
quote_of time (e ∷ bids) [] = none
quote_of time ((bid_price, bid) ∷ bids) ((ask_price, ask) ∷ asks) = some (record {
  bid_price = bid_price;
  ask_price = ask_price;
  bid_quantity = bid.total_quantity;
  ask_quantity = ask.total_quantity;
  timestamp = time;
})

unfoldable pub get_quote : ℤ → OrderBook → Option Quote
unfolding quote_of
get_quote time b = quote_of time b.bids b.asks

-- `Level` and `Depth`
pub record Level : Type 0 where
  pub price : ℤ
  pub quantity : ℤ
  pub order_count : ℕ

pub record Depth : Type 0 where
  pub bids : List Level
  pub asks : List Level

-- `get_depth`: the loop over one side.
unfoldable pub first_levels : ℕ → LevelMap → List Level
first_levels zero m = []
first_levels (suc n) [] = []
first_levels (suc n) ((price, level) ∷ m) =
    record { price = price; quantity = level.total_quantity; order_count = level.order_count }
    ∷ first_levels n m

unfoldable pub get_depth : ℕ → OrderBook → Depth
unfolding first_levels
get_depth n b = record { bids = first_levels n b.bids; asks = first_levels n b.asks }

-- `spread` and `mid_price`
both : (ℤ → ℤ → ℤ) → Option ℤ → Option ℤ → Option ℤ
both f (some bid) (some ask) = some (f bid ask)
both f _ _ = none

unfoldable pub spread : OrderBook → Option ℤ
unfolding both best_bid best_ask
spread b = both (λ bid ask. ask -ℤ bid) (best_bid b) (best_ask b)

unfoldable pub mid_price : OrderBook → Option ℤ
unfolding both best_bid best_ask
mid_price b = both (λ bid ask. half_ℤ (bid +ℤ ask)) (best_bid b) (best_ask b)

-- `OrderBookStats` and `get_stats`
pub record OrderBookStats : Type 0 where
  pub bid_levels : ℕ
  pub ask_levels : ℕ
  pub total_orders : ℕ
  pub total_bid_quantity : ℤ
  pub total_ask_quantity : ℤ
  pub trades_matched : ℕ
  pub volume_matched : ℤ

abbrev pub sum_levels : LevelMap → ℤ
sum_levels [] = pos 0
sum_levels ((_, level) ∷ m) = level.total_quantity +ℤ sum_levels m

unfoldable pub get_stats : OrderBook → OrderBookStats
get_stats b = record {
  bid_levels = length b.bids;
  ask_levels = length b.asks;
  total_orders = length b.order_index;
  total_bid_quantity = sum_levels b.bids;
  total_ask_quantity = sum_levels b.asks;
  trades_matched = b.trades_matched;
  volume_matched = b.volume_matched;
}
