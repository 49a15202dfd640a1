-- ===== src/Lib.antt =====
-- A model of the HFTPerformance trading system, and what has been proved of it.
--
-- The program is a low-latency exchange: orders come in, a limit order book per instrument matches
-- them by price and time, and execution reports and market data go out. The book is built from a
-- memory pool of nodes, price levels that link nodes into queues, and an index from order ids to
-- nodes. The development models these parts, from the bottom up:
--
-- * Types (src/core/types.hpp): sides, order types and states, quotes, the sixteen-byte symbol.
-- * Order (src/matching/order.hpp): `Order` with fill, cancel and reject, the priority comparator
--   `OrderPriorityCompare`, the id generator, and the execution reports.
-- * MemoryPool (src/core/memory_pool.hpp): `MemoryPool`. A block is its number, the free list a
--   function from blocks to next blocks; `owns` and `ALIGNED_SIZE` work on addresses. One thread.
-- * PriceLevel (src/matching/price_level.hpp): `OrderNode` and `PriceLevel`. Nodes live in a store, a
--   function from block numbers; the prev and next pointers are optional numbers, so that aliasing is
--   kept: the book and a level read and write the same node. PriceLevel/Queue, Unlink and Remove
--   show that the pointers represent a queue.
-- * OrderBook (src/matching/order_book.hpp): `add_order`, `cancel_order`, `modify_order` and `clear`,
--   the matching loops (OrderBook/Matching), and the maps (OrderBook/Maps): a `std::map` of levels is
--   the list of its entries in the comparator's order, the index an association list.
--   OrderBook/Matching/Reference says what matching promises, over plain queues of quantities;
--   OrderBook/Matching/Level to Sweep show that the loops on linked nodes do this, and
--   OrderBook/Matching/Told what reports they send.
--   OrderBook/Book has the invariant of the book; OrderBook/Insert, Add, Entry, Settle, Executed and
--   Submit show that `add_order` keeps it, OrderBook/Locate, Remove, Withdraw, Cancel and Modify that
--   `cancel_order` and a replacing `modify_order` do. OrderBook/Queries has the queries.
-- * SpscQueue (src/core/lockfree_queue.hpp): `SPSCQueue`, the ring between one producer and one
--   consumer with the indices that each side caches. SpscQueue/Refine shows that it is a bounded queue.
-- * MpscQueue (src/core/lockfree_queue.hpp): `MPSCQueue`, where `push` is two steps; MpscQueue/Chain has
--   its invariant and MpscQueue/Fifo what runs give.
-- * Timestamps (src/core/timestamp_buffer.hpp): `ThreadLocalTimestampBuffer`, `TimestampBufferManager` and
--   the pairing of `TimestampAnalyzer`; Timestamps/Order is about aggregation.
-- * WebSocket (src/protocol/websocket_handler.cpp): frames (WebSocket), and `WebSocketHandler`
--   (WebSocket/Handler) with its states, its receive loop and its send queue, an SpscQueue. WebSocket/
--   RoundTrip and Prefix are about frames, Handler/Stream about the receive loop, Handler/States and
--   Reach about connections. The operating system's answers and the random keys are arguments.
--
-- * Fix (src/protocol/fix_message.hpp, fix_parser.cpp): `FixMessage`, `FixMessageBuilder`, and the
--   messages of orders and reports. Fix/Digits is about decimal numbers, RoundTrip about fields,
--   Checksum and Build about whole messages, Orders and Reports about those of the program.
-- * Rest (src/protocol/rest_handler.hpp, rest_handler.cpp): `HttpRequest`, `HttpResponse` and
--   `HttpParser` (Rest), the string maps and the number readers (Rest/Text), `Route` and `HttpRouter`
--   (Rest/Router), `HttpServer` (Rest/Server), the JSON texts (Rest/Json). A `std::string_view` of a string
--   that is gone is a value of its own, and reading it has no result. Rest/Patterns and Routes are about
--   routing, Lines, Messages, Lengths and Requests about parsing, Decode about encoded texts, Failures
--   about the server. The operating system's answers are arguments.
-- * MatchingEngine (src/matching/matching_engine.hpp): `MatchingEngine` over the books of all
--   instruments, and `AsyncMatchingEngine`, whose requests come through an SpscQueue.
--   MatchingEngine/Sound follows runs of the engine from its start.
-- * Spinlock (src/core/spinlock.hpp): `Spinlock`, `TicketSpinlock` and, in Spinlock/Shared,
--   `RWSpinlock`, as threads that take atomic steps in any order.
--
-- Prelude has Boolean tests, integers over the native numbers, lists, stores, shuffles and text; Tests
-- has runs and examples.
--
-- Bounds and fuel. Prices and quantities are integers without a bound: the sums of the program are
-- taken not to leave int64_t. Counters of type size_t and uint64_t wrap at 2 ^ 64. The inner matching
-- loop has fuel for one more round than the level has orders, the outer one for one more than the
-- side has levels; each round of either removes an order or a level, or is the last, and the loops
-- are shown to end by their own tests. The loops of the HTTP parser and of the routes take a character in
-- each round, and have fuel for the length of the text. The loop of the FIX parser takes a byte at least
-- in each round; running out of fuel is a result of its own, which fuel for the bytes rules out.
--
-- Callbacks. An execution callback is a list of the reports sent so far; it is assumed not to call
-- back into the book. A call on the ring is one step: the memory orderings are not modelled, and the
-- producer's and the consumer's calls come in any order. One operation of the book reads the clock once:
-- `now()` is an argument.
--
-- Locks. The atomic operations of the locks are taken to be sequentially consistent, and the counters
-- of a TicketSpinlock not to wrap: a schedule has fewer than 2 ^ 64 steps.
--
-- Not modelled: the latency statistics beyond the samples of the engine,
-- the market data, the strategy and the exchange simulator; prices printed and read with a
-- decimal point, which go through floating point; and the socket wrappers, thread placement, the
-- command-line programs and the benchmarks, which have little logic beyond the calls they make.
pub mod Prelude
pub mod Types
pub mod Order
pub mod MemoryPool
pub mod PriceLevel
pub mod OrderBook
pub mod MatchingEngine
pub mod SpscQueue
pub mod MpscQueue
pub mod Spinlock
pub mod Timestamps
pub mod WebSocket
pub mod Fix
pub mod Rest
mod Tests
