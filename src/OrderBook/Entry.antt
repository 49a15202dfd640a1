-- ===== src/OrderBook/Entry.antt =====
-- src/matching/order_book.hpp, `match_order`: what matching does with an order in flight, on either side.
use hftperformance.Prelude.{
  ℕ, ◌+◌, ◌≡◌, sym, ◌∙◌, subst, List, Bool, arith, NotIn-append_left, NotIn-append_right, length,
  inl, inr, ◌⊎◌, concat, Apart-symm, Distinct-append_apart,
}
use hftperformance.Prelude.Shuffle.{skip, Shuffle-comm}
use hftperformance.Prelude.Int.{ℤ, ◌+ℤ◌}
use hftperformance.Types.{Side, buy, sell}
use hftperformance.OrderBook.Matching.{match_levels}
use hftperformance.OrderBook.Matching.Reference.{Deal, take_levels, sum_deals}
use hftperformance.OrderBook.Matching.Trade.{SameTerms, remaining_at}
use hftperformance.OrderBook.Matching.Accounts.{IsAccounted-Shuffle}
use hftperformance.OrderBook.Matching.Ladder.{IsSide-Agree}
use hftperformance.OrderBook.Matching.Told.{Tells}
use hftperformance.OrderBook.Matching.Sweep.{Ends, Swept, match_levels-Swept, Agree-Keeps}
use hftperformance.OrderBook.Book.{InFlight, facing, seen}
use hftperformance.OrderBook.{OrderBook, match_buy_order, match_sell_order, match_order}

-- What the loops do for an order in flight on each side.
pub Swept-buy :
    (reporting : Bool) (time : ℤ) (a : ℕ) (b : OrderBook) (v : InFlight a b)
    → Swept reporting buy sell a
        (concat v.bid_nodes)
        b.asks
        b.desk
        v.ask_nodes
        (match_levels reporting time buy a (length b.asks + 1) b.asks b.desk)
Swept-buy reporting time a b v =
    match_levels-Swept reporting time buy sell a (concat v.bid_nodes) (length b.asks + 1) b.asks
      b.desk v.ask_nodes v.free (omega arith) v.is_asks
      (IsAccounted-Shuffle b.desk v.free
        (skip a (Shuffle-comm (concat v.bid_nodes) (concat v.ask_nodes))) v.accounts)

pub Swept-sell :
    (reporting : Bool) (time : ℤ) (a : ℕ) (b : OrderBook) (v : InFlight a b)
    → Swept reporting sell buy a
        (concat v.ask_nodes)
        b.bids
        b.desk
        v.bid_nodes
        (match_levels reporting time sell a (length b.bids + 1) b.bids b.desk)
Swept-sell reporting time a b v =
    match_levels-Swept reporting time sell buy a (concat v.ask_nodes) (length b.bids + 1) b.bids
      b.desk v.bid_nodes v.free (omega arith) v.is_bids v.accounts

-- What matching has done with the order at node `a`, of the given side: it has taken from the other
-- side what price-time priority gives it, and stopped when nothing is wanted or nothing crosses.
pub record Matched (reporting : Bool) (side : Side) (a : ℕ) (b : OrderBook) (v : InFlight a b)
    (b' : OrderBook) : Type 0 where
  pub flight : InFlight a b'
  pub deals : List Deal
  pub takes :
      take_levels side
        (b.store a).order.price
        (remaining_at b.store a)
        (seen side b v.bid_nodes v.ask_nodes)
      ≡ (remaining_at b'.store a, seen side b' flight.bid_nodes flight.ask_nodes, deals)
  pub volume : b'.volume_matched ≡ b.volume_matched +ℤ sum_deals deals
  pub terms : SameTerms (b.store a).order (b'.store a).order
  pub told : Tells reporting (b.store a).order.order_id deals b.desk b'.desk
  pub ends : Ends side (b.store a).order.price (remaining_at b'.store a) (facing side b')

match_buy_order-Matched :
    (reporting : Bool) (time : ℤ) (a : ℕ) (b : OrderBook) (v : InFlight a b)
    → Matched reporting buy a b v (match_buy_order reporting time a b)
unfolding match_buy_order
match_buy_order-Matched reporting time a b v = record {
  flight = record {
    bid_nodes = v.bid_nodes;
    ask_nodes = s.left;
    free = s.free;
    is_bids =
        IsSide-Agree b.store _ buy b.bids v.bid_nodes
          (Agree-Keeps a (concat v.ask_nodes) (concat v.bid_nodes) b.desk _ s.keeps
            (NotIn-append_left a (concat v.bid_nodes) (concat v.ask_nodes) v.accounts.distinct.0)
            (Distinct-append_apart (concat v.bid_nodes) (concat v.ask_nodes) v.accounts.distinct.1))
          v.is_bids;
    is_asks = s.is_side;
    accounts =
        IsAccounted-Shuffle _ s.free (skip a (Shuffle-comm (concat s.left) (concat v.bid_nodes)))
          s.accounts;
    lives = s.keeps.lives v.lives;
  };
  deals = s.deals;
  takes = s.takes;
  volume = s.volume;
  terms = s.keeps.terms a;
  told = s.told;
  ends = s.ends;
}
  where
    s :
        Swept reporting buy sell a
          (concat v.bid_nodes)
          b.asks
          b.desk
          v.ask_nodes
          (match_levels reporting time buy a (length b.asks + 1) b.asks b.desk)
    s = Swept-buy reporting time a b v

match_sell_order-Matched :
    (reporting : Bool) (time : ℤ) (a : ℕ) (b : OrderBook) (v : InFlight a b)
    → Matched reporting sell a b v (match_sell_order reporting time a b)
unfolding match_sell_order
match_sell_order-Matched reporting time a b v = record {
  flight = record {
    bid_nodes = s.left;
    ask_nodes = v.ask_nodes;
    free = s.free;
    is_bids = s.is_side;
    is_asks =
        IsSide-Agree b.store _ sell b.asks v.ask_nodes
          (Agree-Keeps a (concat v.bid_nodes) (concat v.ask_nodes) b.desk _ s.keeps
            (NotIn-append_right a (concat v.bid_nodes) (concat v.ask_nodes) v.accounts.distinct.0)
            (Apart-symm (concat v.bid_nodes) (concat v.ask_nodes) (
              Distinct-append_apart (concat v.bid_nodes) (concat v.ask_nodes)
                v.accounts.distinct.1)))
          v.is_asks;
    accounts = s.accounts;
    lives = s.keeps.lives v.lives;
  };
  deals = s.deals;
  takes = s.takes;
  volume = s.volume;
  terms = s.keeps.terms a;
  told = s.told;
  ends = s.ends;
}
  where
    s :
        Swept reporting sell buy a
          (concat v.ask_nodes)
          b.bids
          b.desk
          v.bid_nodes
          (match_levels reporting time sell a (length b.bids + 1) b.bids b.desk)
    s = Swept-sell reporting time a b v

pub match_order_cases :
    (reporting : Bool) (time : ℤ) (a : ℕ) (b : OrderBook)
    → (((b.store a).order.side ≡ buy)
        × (match_order reporting time a b ≡ match_buy_order reporting time a b))
      ⊎ (((b.store a).order.side ≡ sell)
          × (match_order reporting time a b ≡ match_sell_order reporting time a b))
unfolding match_order
match_order_cases reporting time a b = ground arith

pub match_order-Matched :
    (reporting : Bool) (time : ℤ) (a : ℕ) (b : OrderBook) (v : InFlight a b) (side : Side)
    → (b.store a).order.side ≡ side
    → Matched reporting side a b v (match_order reporting time a b)
match_order-Matched reporting time a b v side e = elim (match_order_cases reporting time a b) [
  | inl (f, q) ↦ rw q (
      subst (λ k. Matched reporting k a b v (match_buy_order reporting time a b)) (sym f ∙ e)
        (match_buy_order-Matched reporting time a b v))
  | inr (f, q) ↦ rw q (
      subst (λ k. Matched reporting k a b v (match_sell_order reporting time a b)) (sym f ∙ e)
        (match_sell_order-Matched reporting time a b v))
]
