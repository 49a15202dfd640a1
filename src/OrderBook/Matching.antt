-- ===== src/OrderBook/Matching.antt =====
-- src/matching/order_book.hpp, `match_buy_order` and `match_sell_order`.
-- The two functions differ in the side and in the test that ends them; the rest is one text here.
-- A loop takes fuel: one more than the orders of a level, and than the levels of a side.
pub mod Reference
pub mod Accounts
pub mod Trade
pub mod Told
pub mod Level
pub mod Step
pub mod Loop
pub mod Ladder
pub mod Sweep
use hftperformance.Prelude.{
  ℕ, zero, suc, ◌+◌, ◌%◌, ◌^◌, Bool, true, false, not, ◌&&◌, List, [], ◌∷◌, ◌++◌, Option, none,
  some, length, if◌then◌else◌,
}
use hftperformance.Prelude.Int.{ℤ, pos, ◌+ℤ◌, ltb_ℤ, min_ℤ}
use hftperformance.Types.{Side, buy, sell}
use hftperformance.Order.{Order, ExecutionReport, remaining_quantity, is_filled, fill, make_trade}
use hftperformance.MemoryPool.{MemoryPool, deallocate}
use hftperformance.PriceLevel.{
  Store, set_order, PriceLevel, front, pop_front, update_quantity, empty,
}
use hftperformance.OrderBook.Maps.{LevelMap, OrderIndex, erase_node}

-- What the loops share: the nodes, the index, the pool, the two counters, and the reports so far.
pub record Desk : Type 0 where
  pub store : Store
  pub order_index : OrderIndex
  pub order_pool : MemoryPool
  pub trades_matched : ℕ
  pub volume_matched : ℤ
  pub reports : List ExecutionReport

-- `order_index_.erase` and `order_pool_.destroy`.
unfoldable pub retire : ℕ → Desk → Desk
retire node d = record d {
  order_index = erase_node (d.store node).order.order_id d.order_index;
  order_pool = deallocate (some node) d.order_pool;
}

-- The body of the inner loop up to the counters, for a front order `passive`.
unfoldable pub execute : Bool → ℤ → ℕ → ℕ → Desk → Desk
execute reporting time aggressor passive d = record d {
  store = after;
  trades_matched = (d.trades_matched + 1) % 2 ^ 64;
  volume_matched = d.volume_matched +ℤ qty;
  reports = d.reports ++ (if reporting then sent else []);
}
  where
    qty : ℤ
    qty =
        min_ℤ (remaining_quantity (d.store aggressor).order)
          (remaining_quantity (d.store passive).order)

    exec_price : ℤ
    exec_price = (d.store passive).order.price

    half_way : Store
    half_way = set_order d.store aggressor (fill time qty (d.store aggressor).order)

    after : Store
    after = set_order half_way passive (fill time qty (half_way passive).order)

    sent : List ExecutionReport
    sent =
        make_trade time (after aggressor).order (after passive).order exec_price qty
        ∷ make_trade time (after passive).order (after aggressor).order exec_price qty
        ∷ []

-- The body of the inner loop: the trade, and the removal of a filled front order.
unfoldable pub match_front : Bool → ℤ → ℕ → ℕ → PriceLevel × Desk → PriceLevel × Desk
match_front reporting time aggressor passive (level, d) =
    let qty =
      min_ℤ (remaining_quantity (d.store aggressor).order)
        (remaining_quantity (d.store passive).order) in
    let d1 = execute reporting time aggressor passive d in
    let level1 = update_quantity qty level in
    let popped = pop_front level1 d1.store in
    if is_filled (d1.store passive).order
    then (popped.1, retire passive (record d1 { store = popped.2 }))
    else (level1, d1)

-- `!level.empty() && aggressor->order.remaining_quantity() > 0`
unfoldable pub level_goes_on : ℕ → PriceLevel × Desk → Bool
level_goes_on aggressor (level, d) =
    not (empty level) && ltb_ℤ (pos 0) (remaining_quantity (d.store aggressor).order)

-- The inner loop. A null front ends it; the test rules that out.
unfoldable pub match_level : Bool → ℤ → ℕ → ℕ → PriceLevel × Desk → PriceLevel × Desk
match_level reporting time aggressor zero st = st
match_level reporting time aggressor (suc fuel) st = elim (level_goes_on aggressor st) [
  | false ↦ st
  | true ↦ elim (front st.0) [
    | none ↦ st
    | some passive ↦
        match_level reporting time aggressor fuel (match_front reporting time aggressor passive st)
  ]
]

-- The test that breaks the outer loop: the prices do not cross.
unfoldable pub no_cross : Side → ℤ → ℤ → Bool
no_cross buy price best_price = ltb_ℤ price best_price
no_cross sell price best_price = ltb_ℤ best_price price

-- The outer loop of the order of side `side`, over the levels of the opposite side.
unfoldable pub match_levels : Bool → ℤ → Side → ℕ → ℕ → LevelMap → Desk → LevelMap × Desk
match_levels reporting time side aggressor zero levels d = (levels, d)
match_levels reporting time side aggressor (suc fuel) [] d = ([], d)
match_levels reporting time side aggressor (suc fuel) ((best_price, level) ∷ rest) d =
    elim (ltb_ℤ (pos 0) (remaining_quantity (d.store aggressor).order)) [
      | false ↦ ((best_price, level) ∷ rest, d)
      | true ↦ elim (no_cross side (d.store aggressor).order.price best_price) [
        | true ↦ ((best_price, level) ∷ rest, d)
        | false ↦
            let (level', d') =
              match_level reporting time aggressor (level.order_count + 1) (level, d) in
            match_levels reporting time side aggressor fuel
              (if empty level' then rest else (best_price, level') ∷ rest) d'
      ]
    ]
