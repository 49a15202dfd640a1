-- ===== src/OrderBook/Settle.antt =====
-- src/matching/order_book.hpp, `add_order`: what happens to the order after the matching.
use hftperformance.Prelude.{
  none, some, ℕ, ◌+◌, ◌<◌, ◌^◌, ◌≡◌, refl, ap, [], ◌∷◌, ◌++◌, arith, NotIn-append_left,
  NotIn-append_right, length, length-append, inl, inr, concat, Apart, Apart-symm,
  Distinct-append_left, Distinct-append_right, Distinct-append_apart,
}
use hftperformance.Prelude.Shuffle.{Shuffle-right, Shuffle-left, Shuffle-middle, after}
use hftperformance.Prelude.Int.{pos, ◌≤ℤ◌, ◌<ℤ◌, le_or_lt}
use hftperformance.Types.{Side, buy, sell}
use hftperformance.Order.{remaining_quantity}
use hftperformance.OrderBook.Maps.{find_node, erase_node, find_node-erase_node}
use hftperformance.OrderBook.Matching.{retire}
use hftperformance.OrderBook.Matching.Accounts.{
  id_of, IsAccounted-store, IsAccounted-Shuffle, retire-IsAccounted,
}
use hftperformance.OrderBook.Matching.Trade.{remaining_at}
use hftperformance.OrderBook.Matching.Level.{Rests}
use hftperformance.OrderBook.Matching.Ladder.{IsSide-Agree, view_side-Agree}
use hftperformance.PriceLevel.Links.{Agree}
use hftperformance.OrderBook.Insert.{Agree-apart}
use hftperformance.OrderBook.Add.{Added, add_to_levels-Added, length-nodes_at}
use hftperformance.OrderBook.Book.{IsBook, InFlight, facing, seen}
use hftperformance.OrderBook.{OrderBook, add_to_levels, add_to_book, settle}

-- What `settle` has done with the order at node `a` after matching: it rests or is gone, and the other
-- side is as before.
pub record Settled (side : Side) (a : ℕ) (b : OrderBook) (v : InFlight a b) (b' : OrderBook)
    : Type 0 where
  pub book : IsBook b'
  pub unmoved : facing side b' ≡ facing side b
  pub same : seen side b' book.bid_nodes book.ask_nodes ≡ seen side b v.bid_nodes v.ask_nodes
  pub volume : b'.volume_matched ≡ b.volume_matched
  pub reports : b'.reports ≡ b.reports
  pub rests :
      pos 0 <ℤ remaining_at b.store a
      → (find_node (id_of b.store a) b'.order_index ≡ some a)
        × (remaining_at b'.store a ≡ remaining_at b.store a)
  pub gone : remaining_at b.store a ≤ℤ pos 0 → find_node (id_of b.store a) b'.order_index ≡ none

module _ (a : ℕ) (b : OrderBook) (v : InFlight a b) where
  abbrev bids_apart : Apart (concat v.bid_nodes) (concat v.ask_nodes)
  bids_apart = Distinct-append_apart (concat v.bid_nodes) (concat v.ask_nodes) v.accounts.distinct.1

  few : length (concat v.bid_nodes) + length (concat v.ask_nodes) + 1 < 2 ^ 64
  few = omega (
    arith,
    length-append (concat v.bid_nodes) (concat v.ask_nodes),
    v.accounts.no_leak,
    v.accounts.is_free.counted,
    v.accounts.is_free.small,
  )

  rests :
      (side : Side)
      → (b.store a).order.side ≡ side
      → pos 0 <ℤ remaining_quantity (b.store a).order
      → Rests side (b.store a).order.price (b.store a).order
  rests side e h = record { at_price = refl; at_side = e; active = v.lives.active h; remains = h }

  add_bid-Settled :
      (b.store a).order.side ≡ buy
      → pos 0 <ℤ remaining_quantity (b.store a).order
      → Settled buy a b v (add_to_book a b)
  unfolding add_to_book
  add_bid-Settled e h = rw e (record {
    book = record {
      bid_nodes = g.queues;
      ask_nodes = v.ask_nodes;
      free = v.free;
      is_bids = g.is_side;
      is_asks = IsSide-Agree b.store _ sell b.asks v.ask_nodes agree v.is_asks;
      accounts = IsAccounted-Shuffle _ v.free (Shuffle-right (concat v.ask_nodes) g.shuffled) (
          IsAccounted-store b.desk _ _ v.free refl refl (λ n. ap (λ o. o.order_id) (g.orders n))
            v.accounts);
    };
    unmoved = refl;
    same = view_side-Agree b.store _ b.asks v.ask_nodes agree;
    volume = refl;
    reports = refl;
    rests = λ k. (v.accounts.complete a (inl refl), ap remaining_quantity (g.orders a));
    gone = λ k. absurd (omega (arith, h, k));
  })
    where
      g :
          Added b.store
            (add_to_levels buy a b.bids b.store).1
            buy
            a
            b.bids
            (add_to_levels buy a b.bids b.store).0
            v.bid_nodes
      g =
          add_to_levels-Added b.store buy a b.bids v.bid_nodes v.is_bids (rests buy e h)
            (NotIn-append_left a (concat v.bid_nodes) (concat v.ask_nodes) v.accounts.distinct.0)
            (Distinct-append_left (concat v.bid_nodes) (concat v.ask_nodes) v.accounts.distinct.1)
            (omega (
              arith,
              few,
              length-nodes_at b.store buy a b.bids v.bid_nodes v.is_bids
                  (length (concat v.bid_nodes)) (omega arith),
            ))

      agree : Agree b.store (add_to_levels buy a b.bids b.store).1 (concat v.ask_nodes)
      agree =
          Agree-apart b.store (add_to_levels buy a b.bids b.store).1 a (concat v.bid_nodes) g.frame
            (concat v.ask_nodes)
            (NotIn-append_right a (concat v.bid_nodes) (concat v.ask_nodes) v.accounts.distinct.0)
            (Apart-symm (concat v.bid_nodes) (concat v.ask_nodes) bids_apart)

  add_ask-Settled :
      (b.store a).order.side ≡ sell
      → pos 0 <ℤ remaining_quantity (b.store a).order
      → Settled sell a b v (add_to_book a b)
  unfolding add_to_book
  add_ask-Settled e h = rw e (record {
    book = record {
      bid_nodes = v.bid_nodes;
      ask_nodes = g.queues;
      free = v.free;
      is_bids = IsSide-Agree b.store _ buy b.bids v.bid_nodes agree v.is_bids;
      is_asks = g.is_side;
      accounts =
          IsAccounted-Shuffle _ v.free
            (after (Shuffle-middle a (concat v.bid_nodes) (concat v.ask_nodes))
              (Shuffle-left (concat v.bid_nodes) g.shuffled))
            (IsAccounted-store b.desk _ _ v.free refl refl (λ n. ap (λ o. o.order_id) (g.orders n))
              v.accounts);
    };
    unmoved = refl;
    same = view_side-Agree b.store _ b.bids v.bid_nodes agree;
    volume = refl;
    reports = refl;
    rests = λ k. (v.accounts.complete a (inl refl), ap remaining_quantity (g.orders a));
    gone = λ k. absurd (omega (arith, h, k));
  })
    where
      g :
          Added b.store
            (add_to_levels sell a b.asks b.store).1
            sell
            a
            b.asks
            (add_to_levels sell a b.asks b.store).0
            v.ask_nodes
      g =
          add_to_levels-Added b.store sell a b.asks v.ask_nodes v.is_asks (rests sell e h)
            (NotIn-append_right a (concat v.bid_nodes) (concat v.ask_nodes) v.accounts.distinct.0)
            (Distinct-append_right (concat v.bid_nodes) (concat v.ask_nodes) v.accounts.distinct.1)
            (omega (
              arith,
              few,
              length-nodes_at b.store sell a b.asks v.ask_nodes v.is_asks
                  (length (concat v.ask_nodes)) (omega arith),
            ))

      agree : Agree b.store (add_to_levels sell a b.asks b.store).1 (concat v.bid_nodes)
      agree =
          Agree-apart b.store (add_to_levels sell a b.asks b.store).1 a (concat v.ask_nodes) g.frame
            (concat v.bid_nodes)
            (NotIn-append_left a (concat v.bid_nodes) (concat v.ask_nodes) v.accounts.distinct.0)
            bids_apart

  pub settle-rests : pos 0 <ℤ remaining_quantity (b.store a).order → settle a b ≡ add_to_book a b
  unfolding settle
  settle-rests h = ground (arith, h, v.lives.active h)

  pub settle-gone :
      remaining_quantity (b.store a).order ≤ℤ pos 0
      → settle a b ≡ record b { desk = retire a b.desk }
  unfolding settle
  settle-gone h = ground (arith, h, v.lives.not_over)

  erased : find_node (id_of b.store a) (erase_node (id_of b.store a) b.order_index) ≡ none
  erased = ground (arith, find_node-erase_node (id_of b.store a) (id_of b.store a) b.order_index)

  seen-retire :
      (side : Side)
      → seen side (record b { desk = retire a b.desk }) v.bid_nodes v.ask_nodes
        ≡ seen side b v.bid_nodes v.ask_nodes
  unfolding retire
  seen-retire buy = refl
  seen-retire sell = refl

  facing-retire : (side : Side) → facing side (record b { desk = retire a b.desk }) ≡ facing side b
  facing-retire buy = refl
  facing-retire sell = refl

  retired-Settled :
      (side : Side)
      → remaining_at b.store a ≤ℤ pos 0
      → Settled side a b v (record b { desk = retire a b.desk })
  unfolding retire
  retired-Settled side h = record {
    book = record {
      bid_nodes = v.bid_nodes;
      ask_nodes = v.ask_nodes;
      free = a ∷ v.free;
      is_bids = v.is_bids;
      is_asks = v.is_asks;
      accounts =
          retire-IsAccounted b.desk a [] (concat v.bid_nodes ++ concat v.ask_nodes) v.free
            v.accounts;
    };
    unmoved = facing-retire side;
    same = seen-retire side;
    volume = refl;
    reports = refl;
    rests = λ k. absurd (omega (arith, h, k));
    gone = λ k. erased;
  }

  added-Settled :
      (side : Side)
      → (b.store a).order.side ≡ side
      → pos 0 <ℤ remaining_at b.store a
      → Settled side a b v (add_to_book a b)
  added-Settled buy e h = add_bid-Settled e h
  added-Settled sell e h = add_ask-Settled e h

  -- `settle` of the order in flight keeps the book right.
  pub settle-Settled :
      (side : Side) → (b.store a).order.side ≡ side → Settled side a b v (settle a b)
  settle-Settled side e = elim (le_or_lt (remaining_at b.store a) (pos 0)) [
    | inl h ↦ rw (settle-gone h) (retired-Settled side h)
    | inr h ↦ rw (settle-rests h) (added-Settled side e h)
  ]
