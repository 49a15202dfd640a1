-- ===== src/Tests/Submit.antt =====
-- The scenario of tests/test_order_book.cpp: two bids at one price, and a sell that takes both in part.
use hftperformance.Prelude.{none, ◌⊎◌, sym, some, ◌≡◌, ◌↔◌, ◌≢◌, arith, refl, [], true, false}
use hftperformance.Prelude.Int.{pos, ◌-ℤ◌, ◌+ℤ◌}
use hftperformance.Types.{buy, sell, limit}
use hftperformance.Order.{Order, make_order, remaining_quantity, is_active}
use hftperformance.OrderBook.{
  is_post_only, OrderBook, make_book, report, match_order, match_buy_order, add_to_levels,
  add_to_book, settle, enter, add_order,
}
use hftperformance.MemoryPool.{make_pool, link_blocks, allocate}
use hftperformance.OrderBook.Maps.{set_node}
use hftperformance.OrderBook.Matching.{match_levels}
use hftperformance.OrderBook.Maps.{find_node}
use hftperformance.OrderBook.Book.{IsBook, make_book-IsBook}
use hftperformance.OrderBook.Executed.{Executed}
use hftperformance.OrderBook.Submit.{IsNew, add_order-IsBook, add_order-Executed}
use hftperformance.OrderBook.Matching.Ladder.{view_side}
use hftperformance.OrderBook.Queries.{get_depth, get_stats}
use hftperformance.OrderBook.Queries.Views.{summary, sum_side, get_depth-summary}
use hftperformance.OrderBook.{modify_order}
use hftperformance.OrderBook.Matching.Trade.{remaining_at}
use hftperformance.OrderBook.Queries.{get_quote}
use hftperformance.OrderBook.Queries.Stale.{modify_order_stale}
use hftperformance.PriceLevel
use hftperformance.PriceLevel.{make_level}
use hftperformance.OrderBook.Maps.{find_level, set_level, emplace_level}
use hftperformance.Prelude.{ℕ}
use hftperformance.Prelude.Int.{◌<ℤ◌}
use hftperformance.OrderBook.{cancel_order}
use hftperformance.OrderBook.Withdraw.{Cancelled}
use hftperformance.OrderBook.Cancel.{cancel_order-Cancelled}
use hftperformance.OrderBook.Modify.{reduces}
use hftperformance.Tests.Book.{blank, start}

abbrev bid : Order
bid = make_order (pos 7) 1 buy limit (pos 100) (pos 10) 1

abbrev ask : Order
ask = make_order (pos 8) 2 sell limit (pos 99) (pos 25) 1

abbrev pub resting : OrderBook
resting = (add_order true (pos 7) bid start).1

ask_type : is_post_only ask.type ≡ false
unfolding make_order is_post_only
ask_type = refl

start-IsBook : IsBook start
start-IsBook = make_book-IsBook 4 blank [] (omega arith) (omega arith)

bid-IsNew : IsNew bid start
unfolding make_order ◌-ℤ◌ ◌+ℤ◌ make_book find_node is_active remaining_quantity
bid-IsNew = record { remains = omega arith; active = refl; unused = refl }

ask-IsNew : IsNew ask resting
unfolding make_order ◌-ℤ◌ ◌+ℤ◌ make_book make_pool link_blocks allocate add_order enter report
    match_order match_buy_order match_levels settle add_to_book add_to_levels find_node set_node
    is_active remaining_quantity
ask-IsNew = record { remains = omega arith; active = refl; unused = refl }

resting-IsBook : IsBook resting
resting-IsBook = (add_order-IsBook true (pos 7) bid start start-IsBook bid-IsNew).0

add_order-IsBook_example :
    IsBook (add_order true (pos 8) ask resting).1
    × (((add_order true (pos 8) ask resting).0 ≡ false) ↔ (resting-IsBook.free ≡ []))
add_order-IsBook_example = add_order-IsBook true (pos 8) ask resting resting-IsBook ask-IsNew

resting_free : resting-IsBook.free ≢ []
unfolding make_order ◌-ℤ◌ ◌+ℤ◌ make_book make_pool link_blocks allocate add_order enter report
    match_order match_buy_order match_levels settle add_to_book add_to_levels is_active
    remaining_quantity
resting_free e =
    let refused : (add_order true (pos 8) ask resting).0 ≡ false =
      (add_order-IsBook true (pos 8) ask resting resting-IsBook ask-IsNew).1.1 e in
    cc refused

add_order-Executed_example :
    ((add_order true (pos 8) ask resting).0 ≡ true)
    × Executed true ask resting resting-IsBook (add_order true (pos 8) ask resting).1
add_order-Executed_example =
    add_order-Executed true (pos 8) ask resting resting-IsBook ask-IsNew resting_free ask_type

get_depth-summary_example :
    ((get_depth 5 resting).bids
      ≡ summary 5 (view_side resting.store resting.bids resting-IsBook.bid_nodes))
    × ((get_depth 5 resting).asks
        ≡ summary 5 (view_side resting.store resting.asks resting-IsBook.ask_nodes))
    × ((get_stats resting).total_bid_quantity
        ≡ sum_side (view_side resting.store resting.bids resting-IsBook.bid_nodes))
    × ((get_stats resting).total_ask_quantity
        ≡ sum_side (view_side resting.store resting.asks resting-IsBook.ask_nodes))
get_depth-summary_example = get_depth-summary 5 resting resting-IsBook

-- Where the resting bid is, and what it says.
resting_bid :
    (find_node 1 resting.order_index ≡ some 0)
    × (pos 100 ≡ (resting.store 0).order.price)
    × (pos 4 <ℤ remaining_at resting.store 0)
unfolding make_order ◌-ℤ◌ ◌+ℤ◌ make_book make_pool link_blocks allocate add_order enter report
    match_order match_buy_order match_levels settle add_to_book add_to_levels find_node set_node
    is_active remaining_quantity PriceLevel.add_order find_level set_level emplace_level make_level
resting_bid = (refl, refl, omega arith)

modify_order_stale_example :
    let r = modify_order true (pos 9) 1 (pos 100) (pos 4) resting in
    (r.0 ≡ true)
    × (remaining_at r.1.store 0 ≡ pos 4)
    × ((n : ℕ) → get_depth n r.1 ≡ get_depth n resting)
    × (get_quote (pos 9) r.1 ≡ get_quote (pos 9) resting)
    × (get_stats r.1 ≡ get_stats resting)
modify_order_stale_example =
    modify_order_stale true (pos 9) 1 0 (pos 100) (pos 4) resting resting_bid.0 resting_bid.1
      resting_bid.2

cancel_order-Cancelled_example :
    ((find_node 1 resting.order_index ≡ none)
      × (cancel_order true (pos 9) 1 resting ≡ (false, resting)))
    ⊎ ((node : ℕ) × (find_node 1 resting.order_index ≡ some node)
        × ((cancel_order true (pos 9) 1 resting).0 ≡ true)
        × Cancelled 1 node resting resting-IsBook (cancel_order true (pos 9) 1 resting).1)
cancel_order-Cancelled_example = cancel_order-Cancelled true (pos 9) 1 resting resting-IsBook

-- Another price than that of the resting bid.
not_reduced : reduces (pos 101) (pos 4) resting 0 ≡ false
not_reduced = rw (sym (resting_bid.1)) refl
