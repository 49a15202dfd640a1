-- ===== src/MatchingEngine/Sound.antt =====
-- What requests of all kinds keep: the books of the engine are right, and the numbers to come unused.
use hftperformance.Prelude.{
  ℕ, ◌+◌, ◌^◌, ◌<◌, ◌≡◌, ◌≢◌, refl, sym, subst, some, false, arith, inl, inr, Bool, Option-cases,
}
use hftperformance.Prelude.Int.{ℤ, pos, ◌<ℤ◌}
use hftperformance.Types.Symbol.{Symbol, symbol_view}
use hftperformance.PriceLevel.{Store}
use hftperformance.OrderBook.{OrderBook, max_orders, make_book}
use hftperformance.OrderBook.Maps.{find_node}
use hftperformance.OrderBook.Book.{IsBook, make_book-IsBook}
use hftperformance.OrderBook.Cancel.{cancel_order-IsBook}
use hftperformance.OrderBook.Modify.{reduces, modify_order-IsBook}
use hftperformance.MatchingEngine.Request.{OrderRequest, RequestType}
use hftperformance.MatchingEngine.{
  MatchingEngine, Clock, get_book, add_instrument, cancel_order, modify_order, process_request,
  make_engine, reset_stats,
}
use hftperformance.MatchingEngine.Books.{
  AllBooks, AllBooks-find, AllBooks-set, cancel_order-books, modify_order-books,
}
use hftperformance.MatchingEngine.Requests.{IsFresh, process_request-IsFresh, submit_order-IsBook}

-- No order of the book that the modification names is merely reduced at its price.
abbrev pub Replaces : Symbol → ℕ → ℤ → ℤ → MatchingEngine → Type 0
Replaces symbol order_id price quantity e =
    (b : OrderBook) (node : ℕ)
    → get_book symbol e ≡ some b
    → find_node order_id b.order_index ≡ some node
    → reduces price quantity b node ≡ false

module _ (clock : Clock) (e : MatchingEngine) (right : AllBooks IsBook e.books) where
  cancel_order-AllBooks :
      (symbol : Symbol) (order_id : ℕ)
      → AllBooks IsBook (cancel_order clock.during symbol order_id e).1.books
  unfolding get_book
  cancel_order-AllBooks symbol order_id =
      elim ((cancel_order-books clock.during symbol order_id e).1) [
        | inl same ↦ subst (AllBooks IsBook) (sym same) right
        | inr (b, found, books) ↦
            let is_book : IsBook b =
              AllBooks-find IsBook (symbol_view symbol) b e.books found right in
            subst (AllBooks IsBook) (sym books) (
              AllBooks-set IsBook (symbol_view symbol) _ e.books
                (cancel_order-IsBook e.reporting clock.during order_id b is_book) right)
      ]

  modify_order-AllBooks :
      (symbol : Symbol) (order_id : ℕ) (price quantity : ℤ)
      → pos 0 <ℤ quantity
      → Replaces symbol order_id price quantity e
      → AllBooks IsBook (modify_order clock.during symbol order_id price quantity e).1.books
  unfolding get_book
  modify_order-AllBooks symbol order_id price quantity positive replaces =
      elim ((modify_order-books clock.during symbol order_id price quantity e).1) [
        | inl same ↦ subst (AllBooks IsBook) (sym same) right
        | inr (b, found, books) ↦
            let is_book : IsBook b =
              AllBooks-find IsBook (symbol_view symbol) b e.books found right in
            subst (AllBooks IsBook) (sym books) (
              AllBooks-set IsBook (symbol_view symbol) _ e.books
                (modify_order-IsBook e.reporting clock.during order_id price quantity b is_book
                  positive (λ node at. replaces b node found at))
                right)
      ]

  process_request-AllBooks :
      (r : OrderRequest)
      → IsFresh e
      → (r.request_type ≢ RequestType.cancel_order → pos 0 <ℤ r.quantity)
      → (r.request_type ≡ RequestType.modify_order
          → Replaces r.symbol r.order_id r.price r.quantity e)
      → AllBooks IsBook (process_request clock r e).1.books
  unfolding process_request
  process_request-AllBooks r fresh positive replaces = by_type r.request_type refl
    where
      by_type :
          (t : RequestType)
          → r.request_type ≡ t
          → AllBooks IsBook (process_request clock r e).1.books
      by_type RequestType.new_order h =
          rw (process_request, h)
            (submit_order-IsBook clock r.symbol r.side r.order_type r.price r.quantity r.client_id e
              fresh right (positive (λ k. cc (h, k))))
      by_type RequestType.cancel_order h =
          rw (process_request, h) (cancel_order-AllBooks r.symbol r.order_id)
      by_type RequestType.modify_order h =
          rw (process_request, h)
            (modify_order-AllBooks r.symbol r.order_id r.price r.quantity
              (positive (λ k. cc (h, k))) (replaces h))

-- The engines that a run can lead to from a new one: instruments are added and requests handled, whose
-- quantities are positive and of which none reduces an order at its price, before the counter wraps.
pub data Reachable : MatchingEngine → Type 0 where
  started : (reporting : Bool) → Reachable (make_engine reporting)
  added :
      {e : MatchingEngine} (raw : Store) (symbol : Symbol)
      → Reachable e
      → Reachable (add_instrument raw symbol e).1
  handled :
      {e : MatchingEngine} (clock : Clock) (r : OrderRequest)
      → Reachable e
      → e.next_id + 1 < 2 ^ 64
      → (r.request_type ≢ RequestType.cancel_order → pos 0 <ℤ r.quantity)
      → (r.request_type ≡ RequestType.modify_order
          → Replaces r.symbol r.order_id r.price r.quantity e)
      → Reachable (process_request clock r e).1
  stats_reset : {e : MatchingEngine} → Reachable e → Reachable (reset_stats e)

add_instrument-IsBook :
    (raw : Store) (symbol : Symbol) (e : MatchingEngine)
    → IsFresh e
    → AllBooks IsBook e.books
    → IsFresh (add_instrument raw symbol e).1
      × AllBooks IsBook (add_instrument raw symbol e).1.books
unfolding add_instrument make_book find_node
add_instrument-IsBook raw symbol e fresh right = elim (Option-cases (get_book symbol e)) [
  | inl k ↦
      rw (add_instrument, k)
        (
          ((λ j above. refl), fresh),
          (make_book-IsBook max_orders raw symbol (omega arith) (omega arith), right),
        )
  | inr (b, k) ↦ rw (add_instrument, k) (fresh, right)
]

-- In every engine that a run can lead to, all books are right and no book has an order under a number
-- still to be given out.
pub Reachable-IsBook : {e : MatchingEngine} → Reachable e → IsFresh e × AllBooks IsBook e.books
unfolding reset_stats
Reachable-IsBook (started reporting) = (tt, tt)
Reachable-IsBook (added {e} raw symbol r) =
    let (fresh, right) = Reachable-IsBook r in add_instrument-IsBook raw symbol e fresh right
Reachable-IsBook (handled {e} clock q r room positive replaces) =
    let (fresh, right) = Reachable-IsBook r in
    (
      process_request-IsFresh clock q e room fresh,
      process_request-AllBooks clock e right q fresh positive replaces,
    )
Reachable-IsBook (stats_reset r) = Reachable-IsBook r
