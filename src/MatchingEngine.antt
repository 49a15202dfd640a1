-- ===== src/MatchingEngine.antt =====
-- src/matching/matching_engine.hpp: the engine over the books of all instruments, and its asynchronous
-- wrapper. `books_` is an association list from symbol texts to books. The clock is an argument, and so
-- is the raw storage of a new book's pool. The reports of an instrument stand in its book.
pub mod Request
pub mod Books
pub mod Requests
pub mod Sound
pub mod Async
use hftperformance.Prelude.{
  ℕ, ◌+◌, ◌-◌, ◌^◌, ◌%◌, Bool, true, false, List, [], ◌∷◌, ◌++◌, Option, none, some, if◌then◌else◌,
}
use hftperformance.Prelude.Int.{ℤ, pos, ◌+ℤ◌, ◌-ℤ◌, ltb_ℤ}
use hftperformance.Prelude.Text.{same_text}
use hftperformance.Types.{Side, buy, OrderType, limit, Quote}
use hftperformance.Types.Symbol.{Symbol, symbol_view}
use hftperformance.Order.{Order, make_order, next_order_id}
use hftperformance.PriceLevel.{Store}
use hftperformance.OrderBook
use hftperformance.OrderBook.{OrderBook, make_book, max_orders, add_order}
use hftperformance.OrderBook.Queries
use Request.{OrderRequest, RequestType}
use hftperformance.SpscQueue.{SpscQueue, make_queue, try_push, try_pop}

-- `EngineStats`
pub record EngineStats : Type 0 where
  pub orders_received : ℕ
  pub orders_matched : ℕ
  pub orders_cancelled : ℕ
  pub orders_rejected : ℕ
  pub total_volume : ℤ
  pub total_latency_ns : ℤ
  pub min_latency_ns : ℤ
  pub max_latency_ns : ℤ

abbrev pub no_stats : EngineStats
no_stats = record {
  orders_received = 0;
  orders_matched = 0;
  orders_cancelled = 0;
  orders_rejected = 0;
  total_volume = pos 0;
  total_latency_ns = pos 0;
  min_latency_ns = pos (2 ^ 63 - 1);
  max_latency_ns = pos 0;
}

abbrev pub BookMap : Type 0
BookMap = List (List ℕ × OrderBook)

-- `MatchingEngine`; `reporting` says whether a callback is set.
pub record MatchingEngine : Type 0 where
  pub books : BookMap
  pub next_id : ℕ
  pub reporting : Bool
  pub stats : EngineStats
  pub latency_samples : List ℤ

-- `find` of the map, a write through what it found, and `try_emplace`.
unfoldable pub find_book : List ℕ → BookMap → Option OrderBook
find_book name [] = none
find_book name ((n, b) ∷ m) = if same_text n name then some b else find_book name m

unfoldable pub set_book : List ℕ → OrderBook → BookMap → BookMap
set_book name b [] = []
set_book name b ((n, c) ∷ m) = if same_text n name then (n, b) ∷ m else (n, c) ∷ set_book name b m

-- `get_book`
unfoldable pub get_book : Symbol → MatchingEngine → Option OrderBook
unfolding find_book
get_book symbol e = find_book (symbol_view symbol) e.books

-- `add_instrument`
unfoldable pub add_instrument : Store → Symbol → MatchingEngine → Bool × MatchingEngine
unfolding get_book
add_instrument raw symbol e = elim (get_book symbol e) [
  | some _ ↦ (false, e)
  | none ↦
      (true, record e { books = (symbol_view symbol, make_book max_orders raw symbol) ∷ e.books })
]

-- The engine with another book in the place of one, and other statistics.
abbrev pub with_book : Symbol → OrderBook → MatchingEngine → MatchingEngine
with_book symbol b e = record e { books = set_book (symbol_view symbol) b e.books }

abbrev pub count_received : MatchingEngine → MatchingEngine
count_received e = record e {
  stats = record (e.stats) { orders_received = (e.stats.orders_received + 1) % 2 ^ 64 };
}

abbrev pub count_rejected : MatchingEngine → MatchingEngine
count_rejected e = record e {
  stats = record (e.stats) { orders_rejected = (e.stats.orders_rejected + 1) % 2 ^ 64 };
}

abbrev pub count_cancelled : MatchingEngine → MatchingEngine
count_cancelled e = record e {
  stats = record (e.stats) { orders_cancelled = (e.stats.orders_cancelled + 1) % 2 ^ 64 };
}

-- `update_latency_stats`
unfoldable pub update_latency_stats : ℤ → MatchingEngine → MatchingEngine
update_latency_stats latency e = record e {
  stats = record (e.stats) {
    total_latency_ns = e.stats.total_latency_ns +ℤ latency;
    min_latency_ns =
        if ltb_ℤ latency e.stats.min_latency_ns then latency else e.stats.min_latency_ns;
    max_latency_ns =
        if ltb_ℤ e.stats.max_latency_ns latency then latency else e.stats.max_latency_ns;
  };
  latency_samples = e.latency_samples ++ latency ∷ [];
}

-- The readings of the clock in a call: at its start, in the book, and at its end.
pub record Clock : Type 0 where
  pub started : ℤ
  pub during : ℤ
  pub finished : ℤ

-- `submit_order` from the book that was found on.
unfoldable pub place_order :
    Clock → Symbol → Side → OrderType → ℤ → ℤ → ℕ → OrderBook → MatchingEngine → ℕ × MatchingEngine
unfolding update_latency_stats
place_order clock symbol side type price quantity client_id book e =
    let (order_id, next_id) = next_order_id e.next_id in
    let order = make_order clock.during order_id side type price quantity client_id in
    let (accepted, book') = add_order e.reporting clock.during order book in
    let placed = with_book symbol book' (record e { next_id = next_id }) in
    if accepted
    then (order_id, update_latency_stats (clock.finished -ℤ clock.started) placed)
    else (0, count_rejected placed)

-- `submit_order`
unfoldable pub submit_order :
    Clock → Symbol → Side → OrderType → ℤ → ℤ → ℕ → MatchingEngine → ℕ × MatchingEngine
unfolding get_book place_order
submit_order clock symbol side type price quantity client_id e =
    elim (get_book symbol (count_received e)) [
      | none ↦ (0, count_rejected (count_received e))
      | some book ↦
          place_order clock symbol side type price quantity client_id book (count_received e)
    ]

-- `cancel_order`
unfoldable pub cancel_order : ℤ → Symbol → ℕ → MatchingEngine → Bool × MatchingEngine
unfolding get_book
cancel_order time symbol order_id e = elim (get_book symbol e) [
  | none ↦ (false, e)
  | some book ↦
      let (cancelled, book') = OrderBook.cancel_order e.reporting time order_id book in
      let done = with_book symbol book' e in
      (cancelled, if cancelled then count_cancelled done else done)
]

-- `modify_order`
unfoldable pub modify_order : ℤ → Symbol → ℕ → ℤ → ℤ → MatchingEngine → Bool × MatchingEngine
unfolding get_book
modify_order time symbol order_id price quantity e = elim (get_book symbol e) [
  | none ↦ (false, e)
  | some book ↦
      let (modified, book') =
        OrderBook.modify_order e.reporting time order_id price quantity book in
      (modified, with_book symbol book' e)
]

-- `process_request`
unfoldable pub process_request : Clock → OrderRequest → MatchingEngine → ℕ × MatchingEngine
unfolding submit_order cancel_order modify_order
process_request clock r e = elim r.request_type [
  | RequestType.new_order ↦
      submit_order clock r.symbol r.side r.order_type r.price r.quantity r.client_id e
  | RequestType.cancel_order ↦
      let (cancelled, e') = cancel_order clock.during r.symbol r.order_id e in
      (if cancelled then r.order_id else 0, e')
  | RequestType.modify_order ↦
      let (modified, e') = modify_order clock.during r.symbol r.order_id r.price r.quantity e in
      (if modified then r.order_id else 0, e')
]

-- `clear` and `reset_stats`
unfoldable pub clear_books : BookMap → BookMap
clear_books [] = []
clear_books ((n, b) ∷ m) = (n, OrderBook.clear b) ∷ clear_books m

unfoldable pub clear : MatchingEngine → MatchingEngine
unfolding clear_books
clear e = record e { books = clear_books e.books }

unfoldable pub reset_stats : MatchingEngine → MatchingEngine
reset_stats e = record e { stats = no_stats; latency_samples = [] }

-- `get_quote`
unfoldable pub get_quote : ℤ → Symbol → MatchingEngine → Option Quote
unfolding get_book
get_quote time symbol e = elim (get_book symbol e) [
  | none ↦ none
  | some book ↦ Queries.get_quote time book
]

-- The constructor, and `OrderIdGenerator`'s first id.
abbrev pub make_engine : Bool → MatchingEngine
make_engine reporting = record {
  books = [];
  next_id = 1;
  reporting = reporting;
  stats = no_stats;
  latency_samples = [];
}

-- `AsyncMatchingEngine`: the engine, the ring of requests and the flag.
pub record AsyncMatchingEngine : Type 0 where
  pub engine : MatchingEngine
  pub request_queue : SpscQueue OrderRequest
  pub running : Bool

-- `submit`, on the client's thread
unfoldable pub submit : OrderRequest → AsyncMatchingEngine → Bool × AsyncMatchingEngine
submit request a =
    let (pushed, queue) = try_push request a.request_queue in
    (pushed, record a { request_queue = queue })

-- A round of the loop of `run`, on the worker's thread
unfoldable pub serve_one : Clock → AsyncMatchingEngine → AsyncMatchingEngine
unfolding process_request
serve_one clock a =
    let (request, queue) = try_pop a.request_queue in
    elim request [
      | none ↦ record a { request_queue = queue }
      | some r ↦ record a { request_queue = queue; engine = (process_request clock r a.engine).1 }
    ]

unfoldable pub run_once : Clock → AsyncMatchingEngine → AsyncMatchingEngine
unfolding serve_one
run_once clock a = let served = serve_one clock a in if a.running then served else a
