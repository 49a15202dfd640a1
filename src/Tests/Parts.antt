-- ===== src/Tests/Parts.antt =====
-- The theorems on the parts of the book at concrete inputs.
use hftperformance.Prelude.{
  ℕ, ◌+◌, ◌%◌, ◌<◌, ◌≤◌, ◌≡◌, List, [], ◌∷◌, none, some, true, false, refl, arith, if◌then◌else◌,
  ◌↔◌, ◌==◌, ◌++◌,
}
use hftperformance.Prelude.Int.{pos, ◌+ℤ◌, ◌-ℤ◌}
use hftperformance.Types.{buy, sell, limit}
use hftperformance.Order.{Order, make_order, ExecutionReport, order_priority_compare}
use hftperformance.OrderBook.Matching.{Desk, execute}
use hftperformance.OrderBook.Matching.Accounts.{id_of}
use hftperformance.OrderBook.Matching.Trade.{remaining_at, traded}
use hftperformance.OrderBook.Matching.Told.{execute-reports}
use hftperformance.Order.Priority.{ComesAfter, order_priority_compare-IsStrictWeak}
use hftperformance.MemoryPool.{MemoryPool, make_pool, deallocate, aligned_size}
use hftperformance.MemoryPool.FreeList.{IsFreeList, make_pool-IsFreeList, deallocate-IsFreeList}
use hftperformance.MemoryPool.Layout.{aligned_size_bounds}
use hftperformance.PriceLevel.{Store, PriceLevel, make_level, add_order, remove_order}
use hftperformance.PriceLevel.Queue.{IsQueue, make_level-IsQueue, add_order-IsQueue}
use hftperformance.PriceLevel.Remove.{remove_order-IsQueue}
use hftperformance.Tests.Book.{blank}

-- A level with node 3 in it, and then with node 2 behind it.
abbrev one : PriceLevel × Store
one = add_order 3 (make_level (pos 100)) blank

abbrev two : PriceLevel × Store
two = add_order 2 one.0 one.1

one-IsQueue : IsQueue one.1 one.0 (3 ∷ [])
one-IsQueue =
    add_order-IsQueue 3 (make_level (pos 100)) blank [] (make_level-IsQueue blank (pos 100)) tt
      (omega arith)

two-IsQueue : IsQueue two.1 two.0 (3 ∷ 2 ∷ [])
two-IsQueue =
    add_order-IsQueue 2 one.0 one.1 (3 ∷ []) one-IsQueue (λ e. omega arith, tt) (omega arith)

remove_order-IsQueue_example :
    IsQueue (remove_order 2 two.0 two.1).1 (remove_order 2 two.0 two.1).0 (3 ∷ [])
remove_order-IsQueue_example = remove_order-IsQueue 2 two.0 two.1 (3 ∷ []) [] two-IsQueue

-- The nodes of that level, and the blocks of a pool of three.
abbrev nodes : List ℕ
nodes = 3 ∷ 2 ∷ []

abbrev blocks : List ℕ
blocks = 0 ∷ 1 ∷ 2 ∷ []

three-IsFreeList : IsFreeList (make_pool 3) (0 ∷ 1 ∷ 2 ∷ [])
three-IsFreeList = make_pool-IsFreeList 3 (omega arith) (omega arith)

-- A pool of two blocks with block 1 in use.
abbrev used : MemoryPool
used = record { capacity = 2; next = λ n. none; free_head = some 0; allocated_count = 1 }

used-IsFreeList : IsFreeList used (0 ∷ [])
used-IsFreeList = record {
  chain = (refl, refl);
  distinct = (tt, tt);
  within = (omega arith, tt);
  counted = refl;
  small = omega arith;
}

deallocate-IsFreeList_example : IsFreeList (deallocate (some 1) used) (1 ∷ 0 ∷ [])
deallocate-IsFreeList_example =
    deallocate-IsFreeList used 1 (0 ∷ []) used-IsFreeList (omega arith) (λ e. omega arith, tt)
      (omega arith)

aligned_size_bounds_example :
    (aligned_size 72 64 % 64 ≡ 0) × (72 ≤ aligned_size 72 64) × (aligned_size 72 64 < 72 + 64)
aligned_size_bounds_example = aligned_size_bounds 72 64 (omega arith)

-- Two bids, the second better and later, and one at the price of the first and later still.
abbrev bid : ℕ → ℕ → Order
bid price time = make_order (pos time) 1 buy limit (pos price) (pos 10) 1

-- A desk with a bid and an ask.
abbrev desk : Desk
desk = record {
  store = λ n. record {
    order = make_order (pos 7) n (if n == 0 then buy else sell) limit (pos 100) (pos (10 + n)) 1;
    prev = none;
    next = none;
  };
  order_index = [];
  order_pool = used;
  trades_matched = 0;
  volume_matched = pos 0;
  reports = [];
}

execute-reports_example :
    let qty = traded desk.store 0 5 in
    (taker : ExecutionReport) × (maker : ExecutionReport) × ((execute true (pos 9) 0 5 desk).reports
      ≡ [] ++ (taker ∷ (maker ∷ [])))
    × (taker.order_id ≡ id_of desk.store 0)
    × (maker.order_id ≡ id_of desk.store 5)
    × (taker.leaves_quantity ≡ remaining_at desk.store 0 -ℤ qty -ℤ qty)
    × (taker.cumulative_quantity ≡ (desk.store 0).order.filled_quantity +ℤ qty +ℤ qty)
    × (maker.leaves_quantity ≡ remaining_at desk.store 5 -ℤ qty -ℤ qty)
    × (maker.cumulative_quantity ≡ (desk.store 5).order.filled_quantity +ℤ qty +ℤ qty)
execute-reports_example = execute-reports (pos 9) 0 5 desk (λ e. omega (arith, e))

order_priority_compare-IsStrictWeak_example :
    ((order_priority_compare (bid 100 9) (bid 100 7) ≡ true)
      ↔ ComesAfter buy (bid 100 9) (bid 100 7))
    × (order_priority_compare (bid 100 9) (bid 100 9) ≡ false)
    × (order_priority_compare (bid 100 9) (bid 100 7) ≡ true
        → order_priority_compare (bid 100 7) (bid 101 8) ≡ true
        → order_priority_compare (bid 100 9) (bid 101 8) ≡ true)
    × (order_priority_compare (bid 100 9) (bid 100 7) ≡ false
        → order_priority_compare (bid 100 7) (bid 100 9) ≡ false
        → ((bid 100 9).price ≡ (bid 100 7).price)
          × ((bid 100 9).entry_time ≡ (bid 100 7).entry_time))
unfolding make_order
order_priority_compare-IsStrictWeak_example =
    order_priority_compare-IsStrictWeak buy (bid 100 9) (bid 100 7) (bid 101 8) refl refl refl
