-- ===== src/OrderBook/Withdraw.antt =====
-- src/matching/order_book.hpp, `cancel_order` of an order on either side: what it does with the book.
use hftperformance.Prelude.{
  ℕ, ◌≡◌, refl, sym, ◌∙◌, ap, subst, ◌≢◌, List, [], ◌∷◌, ◌++◌, none, some, Bool, arith, In,
  All-middle, All-apart, concat, Apart, Apart-symm, Distinct, Distinct-append_left,
  Distinct-append_right, Distinct-append_apart, update_self, if◌then◌else◌,
}
use mathlib.Core.List.{append_assoc}
use hftperformance.Prelude.Int.{ℤ}
use hftperformance.Types.{Side, buy, sell}
use hftperformance.Order.{make_cancel, Order, cancel, remaining_quantity}
use hftperformance.MemoryPool.{deallocate}
use hftperformance.PriceLevel.{Store, set_order}
use hftperformance.OrderBook.Maps.{LevelMap, find_node, erase_node, find_node-erase_node}
use hftperformance.OrderBook.Matching.{Desk, retire}
use hftperformance.OrderBook.Matching.Accounts.{
  id_of, IsAccounted, IsAccounted-store, retire-IsAccounted,
}
use hftperformance.OrderBook.Matching.Level.{Rests}
use hftperformance.OrderBook.Matching.Ladder.{IsSide, IsSide-Agree}
use hftperformance.OrderBook.Locate.{locate}
use hftperformance.OrderBook.Remove.{SameAmount, Removed, remove_from_levels-Removed}
use hftperformance.OrderBook.Book.{IsBook}
use hftperformance.OrderBook.{OrderBook, report, remove_from_levels, remove_from_book, cancel_node}

-- The nodes of a right book, the bids before the asks, each side in the order of priority.
abbrev pub resting_nodes : (b : OrderBook) → IsBook b → List ℕ
resting_nodes b v = concat v.bid_nodes ++ concat v.ask_nodes

-- What a cancel has done: the book is right, the node of the order is the first free one, the other
-- resting orders keep their places, and only the order's own id is free now.
pub record Cancelled (order_id node : ℕ) (b : OrderBook) (v : IsBook b) (b' : OrderBook)
    : Type 0 where
  pub book : IsBook b'
  pub pre : List ℕ
  pub post : List ℕ
  pub was : resting_nodes b v ≡ pre ++ node ∷ post
  pub others : resting_nodes b' book ≡ pre ++ post
  pub freed : book.free ≡ node ∷ v.free
  pub gone : find_node order_id b'.order_index ≡ none
  pub kept : (j : ℕ) → j ≢ order_id → find_node j b'.order_index ≡ find_node j b.order_index
  pub volume : b'.volume_matched ≡ b.volume_matched

cancel-SameAmount : (time : ℤ) (o : Order) → SameAmount o (cancel time o)
unfolding cancel remaining_quantity
cancel-SameAmount time o = record { price = refl; remaining = refl; order_id = refl }

-- The order of a node on a side is for that side.
at_side :
    (s : Store) (side : Side) (node : ℕ) (m : LevelMap) (xss : List (List ℕ))
    → IsSide s side m xss
    → Distinct (concat xss)
    → In node (concat xss)
    → (s node).order.side ≡ side
at_side s side node m xss w d i =
    let l = locate s side node m xss w d i in
    (All-middle (λ n. Rests side (s node).order.price (s n).order) l.left l.right node
      l.is_level.resting).at_side

-- The node is taken out of the index and freed.
freed-IsAccounted :
    (d e : Desk) (node order_id : ℕ) (live live' pre post free : List ℕ)
    → IsAccounted d live free
    → live ≡ pre ++ node ∷ post
    → live' ≡ pre ++ post
    → e.order_index ≡ d.order_index
    → e.order_pool ≡ d.order_pool
    → ((n : ℕ) → id_of e.store n ≡ id_of d.store n)
    → id_of d.store node ≡ order_id
    → IsAccounted
        (record e {
          order_index = erase_node order_id e.order_index;
          order_pool = deallocate (some node) e.order_pool;
        })
        live'
        (node ∷ free)
unfolding retire
freed-IsAccounted d e node order_id live live' pre post free v was now hi hp hs is_id =
    subst
      (λ k.
        IsAccounted
          (record e {
            order_index = erase_node k e.order_index;
            order_pool = deallocate (some node) e.order_pool;
          })
          live' (node ∷ free))
      (hs node ∙ is_id)
      (subst (λ ys. IsAccounted (retire node e) ys (node ∷ free)) (sym now)
        (retire-IsAccounted e node pre post free
          (subst (λ ys. IsAccounted e ys free) was (IsAccounted-store d e live free hi hp hs v))))

module _ (reporting : Bool) (time : ℤ) (order_id node : ℕ) (b : OrderBook) (v : IsBook b)
    (is_id : id_of b.store node ≡ order_id) where
  abbrev after_mark : Store
  after_mark = set_order b.store node (cancel time (b.store node).order)

  mark_side : (after_mark node).order.side ≡ (b.store node).order.side
  unfolding cancel
  mark_side = ap (λ n. n.order.side) (update_self b.store node _)

  erased : find_node order_id (erase_node order_id b.order_index) ≡ none
  erased = ground (arith, find_node-erase_node order_id order_id b.order_index)

  unerased :
      (j : ℕ)
      → j ≢ order_id
      → find_node j (erase_node order_id b.order_index) ≡ find_node j b.order_index
  unerased j h = ground (arith, find_node-erase_node order_id j b.order_index, h)

  -- The desk with the cancel reported and the nodes as given.
  abbrev noted : Store → Desk
  noted u = record (b.desk) {
    store = u;
    reports =
        b.reports
        ++ (if reporting then make_cancel time (cancel time (b.store node).order) ∷ [] else []);
  }

  abbrev sides_apart : Apart (concat v.bid_nodes) (concat v.ask_nodes)
  sides_apart = Distinct-append_apart (concat v.bid_nodes) (concat v.ask_nodes) v.accounts.distinct

  pub cancel_bid :
      In node (concat v.bid_nodes)
      → Cancelled order_id node b v (cancel_node reporting time order_id node b)
  unfolding cancel_node remove_from_book report
  cancel_bid i =
      rw (mark_side ∙ at_side b.store buy node b.bids v.bid_nodes v.is_bids distinct i) (record {
        book = record {
          bid_nodes = g.without.queues;
          ask_nodes = v.ask_nodes;
          free = node ∷ v.free;
          is_bids = g.without.is_side;
          is_asks =
              IsSide-Agree b.store taken sell b.asks v.ask_nodes
                (All-apart (λ n. taken n ≡ b.store n) (concat v.bid_nodes) (concat v.ask_nodes)
                  g.frame (Apart-symm (concat v.bid_nodes) (concat v.ask_nodes) sides_apart))
                v.is_asks;
          accounts =
              freed-IsAccounted b.desk (noted taken) node order_id _ _ g.pre
                (g.post ++ concat v.ask_nodes) v.free v.accounts was now refl refl g.ids is_id;
        };
        pre = g.pre;
        post = g.post ++ concat v.ask_nodes;
        was = was;
        others = now;
        freed = refl;
        gone = erased;
        kept = unerased;
        volume = refl;
      })
    where
      distinct : Distinct (concat v.bid_nodes)
      distinct = Distinct-append_left (concat v.bid_nodes) (concat v.ask_nodes) v.accounts.distinct

      taken : Store
      taken = (remove_from_levels node b.bids after_mark).1

      g :
          Removed b.store
            (remove_from_levels node b.bids after_mark).1
            buy
            node
            (remove_from_levels node b.bids after_mark).0
            v.bid_nodes
      g =
          remove_from_levels-Removed b.store buy node (cancel time (b.store node).order)
            (cancel-SameAmount time (b.store node).order) b.bids v.bid_nodes v.is_bids distinct i

      was : resting_nodes b v ≡ g.pre ++ node ∷ (g.post ++ concat v.ask_nodes)
      was =
          ap (λ ys. ys ++ concat v.ask_nodes) g.around
          ∙ append_assoc g.pre (node ∷ g.post) (concat v.ask_nodes)

      now : concat g.without.queues ++ concat v.ask_nodes ≡ g.pre ++ (g.post ++ concat v.ask_nodes)
      now =
          ap (λ ys. ys ++ concat v.ask_nodes) g.without.nodes
          ∙ append_assoc g.pre g.post (concat v.ask_nodes)

  pub cancel_ask :
      In node (concat v.ask_nodes)
      → Cancelled order_id node b v (cancel_node reporting time order_id node b)
  unfolding cancel_node remove_from_book report
  cancel_ask i =
      rw (mark_side ∙ at_side b.store sell node b.asks v.ask_nodes v.is_asks distinct i) (record {
        book = record {
          bid_nodes = v.bid_nodes;
          ask_nodes = g.without.queues;
          free = node ∷ v.free;
          is_bids =
              IsSide-Agree b.store taken buy b.bids v.bid_nodes
                (All-apart (λ n. taken n ≡ b.store n) (concat v.ask_nodes) (concat v.bid_nodes)
                  g.frame sides_apart)
                v.is_bids;
          is_asks = g.without.is_side;
          accounts =
              freed-IsAccounted b.desk (noted taken) node order_id _ _ (concat v.bid_nodes ++ g.pre)
                g.post v.free v.accounts was now refl refl g.ids is_id;
        };
        pre = concat v.bid_nodes ++ g.pre;
        post = g.post;
        was = was;
        others = now;
        freed = refl;
        gone = erased;
        kept = unerased;
        volume = refl;
      })
    where
      distinct : Distinct (concat v.ask_nodes)
      distinct = Distinct-append_right (concat v.bid_nodes) (concat v.ask_nodes) v.accounts.distinct

      taken : Store
      taken = (remove_from_levels node b.asks after_mark).1

      g :
          Removed b.store
            (remove_from_levels node b.asks after_mark).1
            sell
            node
            (remove_from_levels node b.asks after_mark).0
            v.ask_nodes
      g =
          remove_from_levels-Removed b.store sell node (cancel time (b.store node).order)
            (cancel-SameAmount time (b.store node).order) b.asks v.ask_nodes v.is_asks distinct i

      was : resting_nodes b v ≡ (concat v.bid_nodes ++ g.pre) ++ node ∷ g.post
      was =
          ap (λ ys. concat v.bid_nodes ++ ys) g.around
          ∙ sym (append_assoc (concat v.bid_nodes) g.pre (node ∷ g.post))

      now : concat v.bid_nodes ++ concat g.without.queues ≡ (concat v.bid_nodes ++ g.pre) ++ g.post
      now =
          ap (λ ys. concat v.bid_nodes ++ ys) g.without.nodes
          ∙ sym (append_assoc (concat v.bid_nodes) g.pre g.post)
