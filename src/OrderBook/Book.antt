-- ===== src/OrderBook/Book.antt =====
-- The invariant of the book, and that of a book with an order in flight.
use hftperformance.Prelude.{
  ℕ, ◌<◌, ◌^◌, ◌≡◌, refl, sym, ◌∙◌, ap, subst, List, [], ◌∷◌, ◌++◌, none, some, arith, NotIn, All,
  In, ◌==◌, ==_iff, inl, inr, concat, Bool-cases, Apart-symm, update, update_ne, NotIn-of_In,
}
use hftperformance.Prelude.Int.{ℤ}
use hftperformance.Types.{Side, buy, sell}
use hftperformance.Order.{Order}
use hftperformance.MemoryPool.{MemoryPool, make_pool, allocate}
use hftperformance.MemoryPool.FreeList.{IsFreeList, make_pool-IsFreeList, capacity-allocate}
use hftperformance.PriceLevel.{Store}
use hftperformance.PriceLevel.Unlink.{Apart-uncons}
use hftperformance.OrderBook.Maps.{LevelMap, OrderIndex, find_node, set_node, find_node-set_node}
use hftperformance.OrderBook.Matching.{Desk}
use hftperformance.OrderBook.Matching.Accounts.{id_of, IsAccounted}
use hftperformance.OrderBook.Matching.Step.{IsLive}
use hftperformance.OrderBook.Matching.Reference.{Resting}
use hftperformance.OrderBook.Matching.Ladder.{IsSide, view_side}
use hftperformance.OrderBook.{OrderBook, make_book}

-- Both sides are sorted and all their levels right; the index holds exactly the resting orders, and
-- the pool has all other nodes free.
pub record IsBook (b : OrderBook) : Type 0 where
  pub bid_nodes : List (List ℕ)
  pub ask_nodes : List (List ℕ)
  pub free : List ℕ
  pub is_bids : IsSide b.store buy b.bids bid_nodes
  pub is_asks : IsSide b.store sell b.asks ask_nodes
  pub accounts : IsAccounted b.desk (concat bid_nodes ++ concat ask_nodes) free

-- The order at node `a` is in the index and not yet, or not any more, on a side.
pub record InFlight (a : ℕ) (b : OrderBook) : Type 0 where
  pub bid_nodes : List (List ℕ)
  pub ask_nodes : List (List ℕ)
  pub free : List ℕ
  pub is_bids : IsSide b.store buy b.bids bid_nodes
  pub is_asks : IsSide b.store sell b.asks ask_nodes
  pub accounts : IsAccounted b.desk (a ∷ concat bid_nodes ++ concat ask_nodes) free
  pub lives : IsLive (b.store a).order

-- The levels that an order of a side meets, and these as the reference sees them.
abbrev pub facing : Side → OrderBook → LevelMap
facing buy b = b.asks
facing sell b = b.bids

abbrev pub seen : Side → OrderBook → List (List ℕ) → List (List ℕ) → List (ℤ × List Resting)
seen buy b bid_nodes ask_nodes = view_side b.store b.asks ask_nodes
seen sell b bid_nodes ask_nodes = view_side b.store b.bids bid_nodes

-- A new book over a pool of at least one and less than 2 ^ 64 nodes satisfies the invariant.
pub make_book-IsBook :
    (capacity : ℕ) (raw : Store) (symbol : List ℕ)
    → 0 < capacity
    → capacity < 2 ^ 64
    → IsBook (make_book capacity raw symbol)
unfolding make_book make_pool find_node
make_book-IsBook capacity raw symbol h small = record {
  bid_nodes = [];
  ask_nodes = [];
  free = _;
  is_bids = tt;
  is_asks = tt;
  accounts = record {
    is_free = make_pool-IsFreeList capacity h small;
    distinct = tt;
    apart = tt;
    within = tt;
    no_leak = refl;
    sound = λ id n f. absurd (cc f);
    complete = λ n i. absurd i;
  };
}

-- The index and the store after a new order has been put at a free node.
abbrev pub entered : Desk → MemoryPool → ℕ → Order → Desk
entered d pool node order = record d {
  store = update d.store node (record { order = order; prev = none; next = none });
  order_index = set_node order.order_id node d.order_index;
  order_pool = pool;
}

entered_sound :
    (s : Store) (m : OrderIndex) (node : ℕ) (order : Order) (live : List ℕ) (j n : ℕ)
    → ((id n : ℕ) → find_node id m ≡ some n → In n live × (id_of s n ≡ id))
    → NotIn node live
    → find_node j (set_node order.order_id node m) ≡ some n
    → In n (node ∷ live)
      × (id_of (update s node (record { order = order; prev = none; next = none })) n ≡ j)
entered_sound s m node order live j n sound ni f = elim (Bool-cases (j == order.order_id)) [
  | inl e ↦
      let hit : some node ≡ some n =
        ground (arith, find_node-set_node order.order_id node j m, f, e) in
      let here : node ≡ n = cc hit in (inl here, ground (arith, here, e))
  | inr e ↦
      let old : find_node j m ≡ some n =
        ground (arith, find_node-set_node order.order_id node j m, f, e) in
      let was = sound j n old in
      (
        inr was.0,
        ap (λ o. o.order.order_id) (update_ne s _ (NotIn-of_In n node live was.0 ni)) ∙ was.1,
      )
]

entered_complete :
    (s : Store) (m : OrderIndex) (node : ℕ) (order : Order) (live : List ℕ) (n : ℕ)
    → ((n : ℕ) → In n live → find_node (id_of s n) m ≡ some n)
    → NotIn node live
    → find_node order.order_id m ≡ none
    → In n (node ∷ live)
    → find_node
        (id_of (update s node (record { order = order; prev = none; next = none })) n)
        (set_node order.order_id node m)
      ≡ some n
entered_complete s m node order live n complete ni new (inl e) =
    ground (arith, e, find_node-set_node order.order_id node order.order_id m)
entered_complete s m node order live n complete ni new (inr i) =
    elim (Bool-cases (id_of s n == order.order_id)) [
      | inl e ↦
          let same : id_of s n ≡ order.order_id = (==_iff _ _).0 e in
          let both : some n ≡ none = sym (complete n i) ∙ ap (λ k. find_node k m) same ∙ new in
          absurd (cc both)
      | inr e ↦
          let there =
            update_ne s (record { order = order; prev = none; next = none })
              (NotIn-of_In n node live i ni) in
          ground
            (arith, there, e, complete n i, find_node-set_node order.order_id node (id_of s n) m)
    ]

-- A new order at a node from the pool, under an id that is not in use, is accounted for.
pub entered-IsAccounted :
    (d : Desk) (pool : MemoryPool) (node : ℕ) (order : Order) (live free : List ℕ)
    → IsAccounted d live (node ∷ free)
    → allocate d.order_pool ≡ (some node, pool)
    → IsFreeList pool free
    → find_node order.order_id d.order_index ≡ none
    → IsAccounted (entered d pool node order) (node ∷ live) free
entered-IsAccounted d pool node order live free v got next new = record {
  is_free = next;
  distinct = (ni, v.distinct);
  apart = (v.is_free.distinct.0, Apart-uncons live free node v.apart);
  within = subst (λ c. All (λ n. n < c) (node ∷ live)) (sym cap) (v.is_free.within.0, v.within);
  no_leak = omega (arith, v.no_leak, v.is_free.counted, next.counted, cap);
  sound = λ j n f. entered_sound d.store d.order_index node order live j n v.sound ni f;
  complete = λ n i. entered_complete d.store d.order_index node order live n v.complete ni new i;
}
  where
    ni : NotIn node live
    ni = (Apart-symm live (node ∷ free) v.apart).0

    cap : pool.capacity ≡ d.order_pool.capacity
    cap = sym (ap (λ r. r.1.capacity) got) ∙ capacity-allocate d.order_pool
