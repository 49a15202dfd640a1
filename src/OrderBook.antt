-- ===== src/OrderBook.antt =====
-- src/matching/order_book.hpp: the limit order book of one instrument.
-- `bids_` and `asks_` are lists of levels in the map's order, best price first; `order_index_` is an
-- association list; the nodes live in one store, and `order_pool_` says which are in use.
-- `reporting` says whether a callback is given. `reports` is what callbacks have received so far, in
-- order; a callback does not call back into the book.
pub mod Maps
pub mod Matching
pub mod Insert
pub mod Add
pub mod Book
pub mod Entry
pub mod Settle
pub mod Executed
pub mod Submit
pub mod Ids
pub mod Queries
pub mod Locate
pub mod Remove
pub mod Withdraw
pub mod Cancel
pub mod Modify
use hftperformance.Prelude.{
  ℕ, ◌+◌, Bool, true, false, ◌&&◌, List, [], ◌∷◌, ◌++◌, Option, none, some, length, update,
  if◌then◌else◌,
}
use hftperformance.Prelude.Int.{ℤ, pos, ◌+ℤ◌, ltb_ℤ, eqb_ℤ}
use hftperformance.Types.{
  Side, buy, sell, OrderType, post_only, limit, market, stop_limit, immediate_or_cancel,
  fill_or_kill,
}
use hftperformance.Order.{
  Order, ExecutionReport, make_order, remaining_quantity, is_active, cancel, reject, make_new,
  make_cancel,
}
use hftperformance.MemoryPool.{MemoryPool, make_pool, allocate, deallocate}
use hftperformance.PriceLevel.{OrderNode, Store, set_order, PriceLevel, remove_order, empty}
use hftperformance.PriceLevel
use Maps.{
  LevelMap, before, find_level, set_level, emplace_level, erase_level, find_node, set_node,
  erase_node,
}
use Matching.{Desk, retire, match_levels}

pub record OrderBook : Type 0 where
  pub symbol : List ℕ
  pub bids : LevelMap
  pub asks : LevelMap
  pub desk : Desk
  pub open desk use *

-- `MAX_ORDERS`
abbrev pub max_orders : ℕ
max_orders = 1_000_000

-- The constructor, for a pool of `capacity` nodes and any contents of the raw storage.
unfoldable pub make_book : ℕ → Store → List ℕ → OrderBook
make_book capacity raw symbol = record {
  symbol = symbol;
  bids = [];
  asks = [];
  desk = record {
    store = raw;
    order_index = [];
    order_pool = make_pool capacity;
    trades_matched = 0;
    volume_matched = pos 0;
    reports = [];
  };
}

-- The levels of a side, and a write of them.
abbrev pub levels : Side → OrderBook → LevelMap
levels buy b = b.bids
levels sell b = b.asks

abbrev pub with_levels : Side → LevelMap → OrderBook → OrderBook
with_levels buy m b = record b { bids = m }
with_levels sell m b = record b { asks = m }

-- `if (exec_callback) exec_callback(report)`
unfoldable pub report : Bool → ExecutionReport → OrderBook → OrderBook
report reporting r b = record b {
  desk = record (b.desk) { reports = b.reports ++ (if reporting then r ∷ [] else []) };
}

-- `match_buy_order`
unfoldable pub match_buy_order : Bool → ℤ → ℕ → OrderBook → OrderBook
match_buy_order reporting time aggressor b =
    let (asks', desk') =
      match_levels reporting time buy aggressor (length b.asks + 1) b.asks b.desk in
    record b { asks = asks'; desk = desk' }

-- `match_sell_order`
unfoldable pub match_sell_order : Bool → ℤ → ℕ → OrderBook → OrderBook
match_sell_order reporting time aggressor b =
    let (bids', desk') =
      match_levels reporting time sell aggressor (length b.bids + 1) b.bids b.desk in
    record b { bids = bids'; desk = desk' }

-- `match_order`
unfoldable pub match_order : Bool → ℤ → ℕ → OrderBook → OrderBook
unfolding match_buy_order match_sell_order
match_order reporting time aggressor b = dispatch (b.store aggressor).order.side
  where
    dispatch : Side → OrderBook
    dispatch buy = match_buy_order reporting time aggressor b
    dispatch sell = match_sell_order reporting time aggressor b

-- The level at a price gets a node: `try_emplace` and `PriceLevel::add_order`.
unfoldable pub add_to_levels : Side → ℕ → LevelMap → Store → LevelMap × Store
add_to_levels side node m s =
    let price = (s node).order.price in
    let m' = emplace_level side price m in
    elim (find_level price m') [
      | none ↦ (m', s)
      | some level ↦
          let (level', s') = PriceLevel.add_order node level s in (set_level price level' m', s')
    ]

-- The level at the node's price loses the node, and goes if it is empty then.
unfoldable pub remove_from_levels : ℕ → LevelMap → Store → LevelMap × Store
remove_from_levels node m s =
    let price = (s node).order.price in
    elim (find_level price m) [
      | none ↦ (m, s)
      | some level ↦
          let (level', s') = remove_order node level s in
          (if empty level' then erase_level price m else set_level price level' m, s')
    ]

-- `add_to_book`
unfoldable pub add_to_book : ℕ → OrderBook → OrderBook
add_to_book node b =
    let side = (b.store node).order.side in
    let (m, s) = add_to_levels side node (levels side b) b.store in
    with_levels side m (record b { desk = record (b.desk) { store = s } })

-- `remove_from_book`
unfoldable pub remove_from_book : ℕ → OrderBook → OrderBook
remove_from_book node b =
    let side = (b.store node).order.side in
    let (m, s) = remove_from_levels node (levels side b) b.store in
    with_levels side m (record b { desk = record (b.desk) { store = s } })

unfoldable pub is_post_only : OrderType → Bool
is_post_only post_only = true
is_post_only _ = false

-- `add_order` after the matching: the rest goes into the book, a filled order goes away.
unfoldable pub settle : ℕ → OrderBook → OrderBook
settle node b =
    let o = (b.store node).order in
    if ltb_ℤ (pos 0) (remaining_quantity o) && is_active o
    then add_to_book node b
    else if eqb_ℤ (remaining_quantity o) (pos 0)
    then record b { desk = retire node b.desk }
    else b

-- `add_order` from the allocated node on.
unfoldable pub enter : Bool → ℤ → Order → ℕ → OrderBook → OrderBook
unfolding is_post_only
enter reporting time order node b =
    let indexed = record b {
      desk = record (b.desk) {
        store = update b.store node (record { order = order; prev = none; next = none });
        order_index = set_node order.order_id node b.order_index;
      };
    } in
    let announced = report reporting (make_new time order) indexed in
    let matched =
      if is_post_only order.type then announced else match_order reporting time node announced in
    settle node matched

-- `add_order`
unfoldable pub add_order : Bool → ℤ → Order → OrderBook → Bool × OrderBook
add_order reporting time order b =
    let (got, pool) = allocate b.order_pool in
    elim got [
      | none ↦ (false, report reporting (make_cancel time (reject time order)) b)
      | some node ↦ (
        true,
        enter reporting time order node (record b { desk = record (b.desk) { order_pool = pool } }),
      )
    ]

-- `cancel_order` of a node that the index has.
unfoldable pub cancel_node : Bool → ℤ → ℕ → ℕ → OrderBook → OrderBook
cancel_node reporting time order_id node b =
    let cancelled = cancel time (b.store node).order in
    let marked = record b { desk = record (b.desk) { store = set_order b.store node cancelled } } in
    let taken = remove_from_book node (report reporting (make_cancel time cancelled) marked) in
    record taken {
      desk = record (taken.desk) {
        order_index = erase_node order_id taken.order_index;
        order_pool = deallocate (some node) taken.order_pool;
      };
    }

-- `cancel_order`
unfoldable pub cancel_order : Bool → ℤ → ℕ → OrderBook → Bool × OrderBook
cancel_order reporting time order_id b = elim (find_node order_id b.order_index) [
  | none ↦ (false, b)
  | some node ↦ (true, cancel_node reporting time order_id node b)
]

-- `update_level_quantity` does nothing.
unfoldable pub update_level_quantity : Side → ℤ → OrderBook → OrderBook
update_level_quantity side price b = b

-- `modify_order` of a node that the index has.
unfoldable pub modify_node : Bool → ℤ → ℕ → ℕ → ℤ → ℤ → OrderBook → Bool × OrderBook
modify_node reporting time order_id node new_price new_quantity b =
    let order = (b.store node).order in
    let reduced = record order { quantity = order.filled_quantity +ℤ new_quantity } in
    let replaced =
      add_order reporting time
        (make_order time order_id order.side order.type new_price new_quantity order.client_id)
        (cancel_order false time order_id b).1 in
    if eqb_ℤ new_price order.price && ltb_ℤ new_quantity (remaining_quantity order)
    then (
      true,
      update_level_quantity order.side order.price
          (record b { desk = record (b.desk) { store = set_order b.store node reduced } }),
    )
    else replaced

-- `modify_order`
unfoldable pub modify_order : Bool → ℤ → ℕ → ℤ → ℤ → OrderBook → Bool × OrderBook
modify_order reporting time order_id new_price new_quantity b =
    elim (find_node order_id b.order_index) [
      | none ↦ (false, b)
      | some node ↦ modify_node reporting time order_id node new_price new_quantity b
    ]

-- `clear` returns every indexed node to the pool and empties the maps; the statistics stay.
unfoldable pub destroy_all : List (ℕ × ℕ) → MemoryPool → MemoryPool
destroy_all [] p = p
destroy_all ((_, node) ∷ index) p = destroy_all index (deallocate (some node) p)

unfoldable pub clear : OrderBook → OrderBook
unfolding destroy_all
clear b = record b {
  bids = [];
  asks = [];
  desk = record (b.desk) { order_index = []; order_pool = destroy_all b.order_index b.order_pool };
}
