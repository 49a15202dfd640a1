-- ===== src/OrderBook/Submit.antt =====
-- src/matching/order_book.hpp, `add_order` as a whole: what it does with the order and with the book.
use hftperformance.Prelude.{
  ℕ, ◌≡◌, ◌↔◌, refl, sym, subst, ap, ◌∙◌, ◌≢◌, List, [], ◌∷◌, ◌++◌, none, some, Bool, true, false,
  arith, NotIn, NotIn-append_left, NotIn-append_right, if◌then◌else◌, inl, inr, concat, Apart-symm,
  update, update_self,
}
use hftperformance.Prelude.Int.{ℤ, pos, ◌<ℤ◌}
use hftperformance.Types.{Side, buy, sell}
use hftperformance.Order.{Order, remaining_quantity, is_active, make_new, make_cancel, reject}
use hftperformance.MemoryPool.{MemoryPool, allocate}
use hftperformance.MemoryPool.FreeList.{IsFreeList, allocate-IsFreeList}
use hftperformance.PriceLevel.{OrderNode}
use hftperformance.PriceLevel.Links.{Agree, Agree-update}
use hftperformance.OrderBook.Maps.{find_node}
use hftperformance.OrderBook.Matching.Accounts.{IsAccounted, IsAccounted-store}
use hftperformance.OrderBook.Matching.Step.{IsLive}
use hftperformance.OrderBook.Matching.Ladder.{IsSide-Agree, view_side-Agree}
use hftperformance.OrderBook.Book.{IsBook, seen, entered, entered-IsAccounted}
use hftperformance.OrderBook.Entry.{Matched, match_order-Matched}
use hftperformance.OrderBook.Executed.{told_new, Executed, Ready, executed}
use hftperformance.OrderBook.Settle.{Settled, settle-Settled}
use hftperformance.OrderBook.{
  OrderBook, report, is_post_only, match_order, settle, enter, add_order,
}
use hftperformance.OrderBook.Matching.Told.{notes, notes-append}

-- What an order needs to be taken: something to trade, and an id that no order of the book has.
pub record IsNew (order : Order) (b : OrderBook) : Type 0 where
  pub remains : pos 0 <ℤ remaining_quantity order
  pub active : is_active order ≡ true
  pub unused : find_node order.order_id b.order_index ≡ none

-- The node of a new order.
abbrev pub fresh_node : Order → OrderNode
fresh_node order = record { order = order; prev = none; next = none }

-- The book with the order indexed and announced.
abbrev pub announced : Bool → ℤ → Order → ℕ → MemoryPool → OrderBook → OrderBook
announced reporting time order node pool b =
    report reporting (make_new time order) (record b { desk = entered b.desk pool node order })

module _ (reporting : Bool) (time : ℤ) (order : Order) (b : OrderBook) (v : IsBook b)
    (w : IsNew order b) where
  module _ (node : ℕ) (pool : MemoryPool) (free : List ℕ) (first : v.free ≡ node ∷ free)
      (got : allocate b.order_pool ≡ (some node, pool)) (next : IsFreeList pool free) where
    accounted : IsAccounted b.desk (concat v.bid_nodes ++ concat v.ask_nodes) (node ∷ free)
    accounted =
        subst (λ xs. IsAccounted b.desk (concat v.bid_nodes ++ concat v.ask_nodes) xs) first
          v.accounts

    not_in : NotIn node (concat v.bid_nodes ++ concat v.ask_nodes)
    not_in = (Apart-symm (concat v.bid_nodes ++ concat v.ask_nodes) (node ∷ free) accounted.apart).0

    bids-Agree : Agree b.store (update b.store node (fresh_node order)) (concat v.bid_nodes)
    bids-Agree =
        Agree-update b.store node (fresh_node order) (concat v.bid_nodes)
          (NotIn-append_left node (concat v.bid_nodes) (concat v.ask_nodes) not_in)

    asks-Agree : Agree b.store (update b.store node (fresh_node order)) (concat v.ask_nodes)
    asks-Agree =
        Agree-update b.store node (fresh_node order) (concat v.ask_nodes)
          (NotIn-append_right node (concat v.bid_nodes) (concat v.ask_nodes) not_in)

    announced-Ready : Ready reporting node order b v (announced reporting time order node pool b)
    unfolding report make_new
    announced-Ready = record {
      flight = record {
        bid_nodes = v.bid_nodes;
        ask_nodes = v.ask_nodes;
        free = free;
        is_bids = IsSide-Agree b.store _ buy b.bids v.bid_nodes bids-Agree v.is_bids;
        is_asks = IsSide-Agree b.store _ sell b.asks v.ask_nodes asks-Agree v.is_asks;
        accounts =
            IsAccounted-store (entered b.desk pool node order) _ _ free refl refl (λ n. refl)
              (entered-IsAccounted b.desk pool node order _ free accounted got next w.unused);
        lives =
            subst (λ n. IsLive n.order) (sym (update_self b.store node (fresh_node order)))
              (record { not_over = omega (arith, w.remains); active = λ h. w.active });
      };
      same = λ side. same_seen side;
      here = ap (λ n. n.order) (update_self b.store node (fresh_node order));
      volume = refl;
      told = told_announced reporting;
    }
      where
        told_announced :
            (told : Bool)
            → notes (announced told time order node pool b).reports
              ≡ notes b.reports ++ told_new told order
        told_announced false = notes-append b.reports []
        told_announced true = notes-append b.reports (make_new time order ∷ [])

        same_seen :
            (side : Side)
            → seen side (announced reporting time order node pool b) v.bid_nodes v.ask_nodes
              ≡ seen side b v.bid_nodes v.ask_nodes
        same_seen buy = view_side-Agree b.store _ b.asks v.ask_nodes asks-Agree
        same_seen sell = view_side-Agree b.store _ b.bids v.bid_nodes bids-Agree

    announced_side :
        ((announced reporting time order node pool b).store node).order.side ≡ order.side
    announced_side = ap (λ o. o.side) announced-Ready.here

    matched :
        Matched reporting order.side node
          (announced reporting time order node pool b)
          announced-Ready.flight
          (match_order reporting time node (announced reporting time order node pool b))
    matched =
        match_order-Matched reporting time node _ announced-Ready.flight order.side announced_side

    settled :
        Settled order.side node _ matched.flight (
          settle node
            (match_order reporting time node (announced reporting time order node pool b)))
    settled = settle-Settled node _ matched.flight order.side (matched.terms.side ∙ announced_side)

    enter-Executed :
        is_post_only order.type ≡ false
        → Executed reporting order b v (
            enter reporting time order node
              (record b { desk = record (b.desk) { order_pool = pool } }))
    unfolding enter
    enter-Executed h =
        rw h (executed reporting order b v node _ _ _ announced-Ready matched settled)

    settled_IsBook :
        (post_only : Bool)
        → IsBook (
            settle node (
              if post_only
              then announced reporting time order node pool b
              else match_order reporting time node (announced reporting time order node pool b)))
    settled_IsBook true =
        (settle-Settled node _ announced-Ready.flight order.side announced_side).book
    settled_IsBook false = settled.book

    enter-IsBook : IsBook (
        enter reporting time order node (record b { desk = record (b.desk) { order_pool = pool } }))
    unfolding enter
    enter-IsBook = settled_IsBook (is_post_only order.type)

  full_pool :
      allocate b.order_pool ≡ (none, b.order_pool)
      → add_order reporting time order b
        ≡ (false, report reporting (make_cancel time (reject time order)) b)
  unfolding add_order
  full_pool got = ground (arith, got)

  pub free_pool :
      (node : ℕ) (pool : MemoryPool)
      → allocate b.order_pool ≡ (some node, pool)
      → add_order reporting time order b ≡ (
        true,
        enter reporting time order node (record b { desk = record (b.desk) { order_pool = pool } }),
      )
  unfolding add_order
  free_pool node pool got = ground (arith, got)

  -- Adding an active order with something remaining, under an id that is not in use, keeps the book
  -- right: the sides stay sorted, their queues linked, counted and summed up, the index has exactly
  -- the resting orders, and no node of the pool is lost. The order is refused exactly when the pool
  -- has no free node.
  pub add_order-IsBook :
      IsBook (add_order reporting time order b).1
      × (((add_order reporting time order b).0 ≡ false) ↔ (v.free ≡ []))
  unfolding report
  add_order-IsBook = elim (allocate-IsFreeList b.order_pool v.free v.accounts.is_free) [
    | inl (full, got) ↦ rw (full_pool got) (
      record {
        bid_nodes = v.bid_nodes;
        ask_nodes = v.ask_nodes;
        free = v.free;
        is_bids = v.is_bids;
        is_asks = v.is_asks;
        accounts = IsAccounted-store b.desk _ _ v.free refl refl (λ n. refl) v.accounts;
      },
      ((λ e. full), (λ e. refl)),
    )
    | inr (node, free, pool, first, got, next) ↦
        rw (free_pool node pool got)
          (enter-IsBook node pool free first got next, ((λ e. cc), (λ e. cc)))
  ]

  -- An active order with something remaining, not post-only, under an id that is not in use, is executed
  -- by price-time priority when the pool has a free node: `add_order` accepts it, the order's deals and
  -- what they leave of it and of the other side are those of `take_levels`, the matched volume grows by
  -- the deals, what is left rests under the order's id or, if nothing is left, the id is free, and if
  -- something is left it does not cross the other side. If reports are sent, they are its
  -- acknowledgement and then, deal by deal, one trade report for it and one for the resting order, each
  -- with the ids of the two, the price and the quantity of the deal; else none is sent.
  pub add_order-Executed :
      v.free ≢ []
      → is_post_only order.type ≡ false
      → ((add_order reporting time order b).0 ≡ true)
        × Executed reporting order b v (add_order reporting time order b).1
  add_order-Executed some_free h =
      elim (allocate-IsFreeList b.order_pool v.free v.accounts.is_free) [
        | inl (full, got) ↦ absurd (some_free full)
        | inr (node, free, pool, first, got, next) ↦
            rw (free_pool node pool got) (refl, enter-Executed node pool free first got next h)
      ]
