-- ===== src/Tests/Engine.antt =====
-- The matching engine over two instruments, on short runs.
use hftperformance.Prelude.{◌≡◌, refl, true, List, [], ◌∷◌, arith}
use hftperformance.Prelude.Int.{pos}
use hftperformance.Prelude.Text.{codes, same_text, same_text_iff}
use hftperformance.Types.{buy, limit}
use hftperformance.Types.Symbol.{Symbol, symbol_view}
use hftperformance.SpscQueue.{make_queue}
use hftperformance.OrderBook.{make_book}
use hftperformance.OrderBook.Maps.{find_node}
use hftperformance.OrderBook.Book.{IsBook}
use hftperformance.MatchingEngine.Request.{OrderRequest, make_new}
use hftperformance.MatchingEngine.{MatchingEngine, Clock, get_book, make_engine, process_request}
use hftperformance.MatchingEngine.Books.{AllBooks}
use hftperformance.MatchingEngine.Requests.{IsFresh, process_request-other}
use hftperformance.MatchingEngine.Async.{
  Turn, client, worker, take_turns, serve, take_turns-make_queue,
}
use hftperformance.MatchingEngine.{add_instrument}
use hftperformance.MatchingEngine.Sound.{Reachable, started, added, handled, Reachable-IsBook}
use hftperformance.Tests.Book.{blank, start}

abbrev first_symbol : Symbol
first_symbol = 65 ∷ 66 ∷ 0 ∷ []

abbrev second_symbol : Symbol
second_symbol = 67 ∷ 0 ∷ []

abbrev two_books : MatchingEngine
two_books = record (make_engine true) { books = (codes "AB", start) ∷ (codes "C", start) ∷ [] }

abbrev clock : Clock
clock = record { started = pos 3; during = pos 4; finished = pos 6 }

abbrev bid_request : OrderRequest
bid_request = make_new (pos 2) first_symbol buy limit (pos 100) (pos 10) 1

process_request-other_example :
    get_book second_symbol (process_request clock bid_request two_books).1
    ≡ get_book second_symbol two_books
unfolding make_new symbol_view same_text
process_request-other_example =
    process_request-other clock bid_request second_symbol two_books
      (λ e. cc ((same_text_iff (67 ∷ []) (65 ∷ 66 ∷ [])).1 e))

two_books-IsFresh : IsFresh two_books
unfolding make_book find_node
two_books-IsFresh = ((λ j above. refl), ((λ j above. refl), tt))

-- An engine with one instrument that has handled a bid.
bid_handled :
    Reachable
      (process_request clock bid_request (add_instrument blank first_symbol (make_engine true)).1).1
unfolding make_new add_instrument
bid_handled =
    handled clock bid_request (added blank first_symbol (started true)) (omega arith)
      (λ e. omega arith) (λ e. cc)

Reachable-IsBook_example :
    IsFresh
      (process_request clock bid_request (add_instrument blank first_symbol (make_engine true)).1).1
    × AllBooks IsBook
        (process_request clock bid_request
          (add_instrument blank first_symbol (make_engine true)).1).1.books
Reachable-IsBook_example = Reachable-IsBook bid_handled

abbrev turns : List Turn
turns = client bid_request ∷ worker clock ∷ []

take_turns-make_queue_example :
    ((take_turns turns (record {
      engine = two_books;
      request_queue = make_queue 4 (λ n. bid_request);
      running = true;
    })).0
      ≡ (serve 4 turns [] two_books).0)
    × ((take_turns turns (record {
      engine = two_books;
      request_queue = make_queue 4 (λ n. bid_request);
      running = true;
    })).1.engine
        ≡ (serve 4 turns [] two_books).1)
take_turns-make_queue_example =
    take_turns-make_queue turns 4 (λ n. bid_request) two_books (omega arith)
