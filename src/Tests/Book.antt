-- ===== src/Tests/Book.antt =====
-- The scenarios of tests/test_order_book.cpp, on a pool of four nodes.
use hftperformance.Prelude.{ℕ, [], none, true}
use hftperformance.Prelude.Int.{pos}
use hftperformance.Types.{Side, buy, sell, limit}
use hftperformance.Order.{make_order}
use hftperformance.PriceLevel.{Store}
use hftperformance.OrderBook.{OrderBook, make_book, add_order}

abbrev pub blank : Store
blank n = record {
  order = make_order (pos 0) 0 buy limit (pos 0) (pos 0) 0;
  prev = none;
  next = none;
}

abbrev pub start : OrderBook
start = make_book 4 blank []

abbrev put : ℕ → Side → ℕ → ℕ → OrderBook → OrderBook
put id side price qty b =
    (add_order true (pos 7) (make_order (pos 7) id side limit (pos price) (pos qty) 1) b).1

abbrev matched : OrderBook
matched = put 3 sell 99 25 (put 2 buy 100 20 (put 1 buy 100 10 start))
