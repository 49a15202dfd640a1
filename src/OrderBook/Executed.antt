-- ===== src/OrderBook/Executed.antt =====
-- src/matching/order_book.hpp, `add_order`: what it has done with an order that it matches, and how the
-- announcement, the matching and what follows it come to that.
use hftperformance.Prelude.{
  ℕ, ◌≡◌, sym, subst, ap, ◌∙◌, List, [], ◌∷◌, ◌++◌, none, some, Bool, true, false,
}
use hftperformance.Prelude.Int.{ℤ, pos, ◌<ℤ◌, ◌≤ℤ◌, ◌+ℤ◌}
use mathlib.Core.Path.{ap₂}
use mathlib.Core.List.{append_assoc}
use hftperformance.Types.{Side, ExecutionType}
use hftperformance.Order.{Order, remaining_quantity}
use hftperformance.OrderBook.Maps.{find_node}
use hftperformance.OrderBook.Book.{IsBook, InFlight, facing, seen}
use hftperformance.OrderBook.Entry.{Matched}
use hftperformance.OrderBook.Settle.{Settled}
use hftperformance.OrderBook.{OrderBook}
use hftperformance.OrderBook.Matching.Reference.{Deal, take_levels, sum_deals}
use hftperformance.OrderBook.Matching.Trade.{remaining_at}
use hftperformance.OrderBook.Matching.Sweep.{Ends}
use hftperformance.OrderBook.Matching.Told.{Note, notes, told_deals}

-- The acknowledgement of an order as it is told, if anything is.
abbrev pub told_new : Bool → Order → List Note
told_new false order = []
told_new true order =
    record {
      exec_type = ExecutionType.new;
      order_id = order.order_id;
      contra_order_id = 0;
      execution_price = order.price;
      execution_quantity = pos 0;
    }
    ∷ []

-- The result of `add_order` for an order that is not post-only: the order has taken from the other side
-- exactly what price-time priority gives it up to its limit; the reports sent are its acknowledgement
-- and then those of its deals, two for each; what is left of it rests in the book under its id, or
-- nothing is left and the id is free again; and the order does not cross what is left of the other
-- side.
pub record Executed (reporting : Bool) (order : Order) (b : OrderBook) (v : IsBook b)
    (b' : OrderBook) : Type 0 where
  pub book : IsBook b'
  pub left : ℤ
  pub deals : List Deal
  pub takes :
      take_levels order.side order.price
        (remaining_quantity order)
        (seen order.side b v.bid_nodes v.ask_nodes)
      ≡ (left, seen order.side b' book.bid_nodes book.ask_nodes, deals)
  pub volume : b'.volume_matched ≡ b.volume_matched +ℤ sum_deals deals
  pub told :
      notes b'.reports
      ≡ notes b.reports ++ (told_new reporting order ++ told_deals reporting order.order_id deals)
  pub rests :
      pos 0 <ℤ left
      → (n : ℕ) × (find_node order.order_id b'.order_index ≡ some n)
        × (remaining_at b'.store n ≡ left)
  pub gone : left ≤ℤ pos 0 → find_node order.order_id b'.order_index ≡ none
  pub ends : Ends order.side order.price left (facing order.side b')

-- The announced book is right, with the order in flight, and the sides as before.
pub record Ready (reporting : Bool) (node : ℕ) (order : Order) (b : OrderBook) (v : IsBook b)
    (b' : OrderBook) : Type 0 where
  pub flight : InFlight node b'
  pub same :
      (side : Side)
      → seen side b' flight.bid_nodes flight.ask_nodes ≡ seen side b v.bid_nodes v.ask_nodes
  pub here : (b'.store node).order ≡ order
  pub volume : b'.volume_matched ≡ b.volume_matched
  pub told : notes b'.reports ≡ notes b.reports ++ told_new reporting order

pub executed :
    (reporting : Bool) (order : Order) (b : OrderBook) (v : IsBook b) (node : ℕ)
    (b1 b2 b3 : OrderBook) (r : Ready reporting node order b v b1)
    (m : Matched reporting order.side node b1 r.flight b2)
    → Settled order.side node b2 m.flight b3
    → Executed reporting order b v b3
executed reporting order b v node b1 b2 b3 r m s = record {
  book = s.book;
  left = remaining_at b2.store node;
  deals = m.deals;
  takes =
      ap
        (λ o.
          take_levels order.side o.price (remaining_quantity o)
            (seen order.side b v.bid_nodes v.ask_nodes))
        (sym r.here)
      ∙ ap (λ w. take_levels order.side (b1.store node).order.price (remaining_at b1.store node) w)
          (sym (r.same order.side))
      ∙ m.takes
      ∙ ap (λ w. (remaining_at b2.store node, w, m.deals)) (sym s.same);
  volume = s.volume ∙ m.volume ∙ ap (λ x. x +ℤ sum_deals m.deals) r.volume;
  told =
      ap notes s.reports
      ∙ m.told
      ∙ ap₂ (λ ns id. ns ++ told_deals reporting id m.deals) r.told (ap (λ o. o.order_id) r.here)
      ∙ append_assoc (notes b.reports) (told_new reporting order)
          (told_deals reporting order.order_id m.deals);
  rests = λ h.
      (node, ap (λ k. find_node k b3.order_index) (sym same_id) ∙ (s.rests h).0, (s.rests h).1);
  gone = λ h. ap (λ k. find_node k b3.order_index) (sym same_id) ∙ s.gone h;
  ends =
      subst (λ l. Ends order.side order.price (remaining_at b2.store node) l) (sym s.unmoved)
        (subst (λ o. Ends order.side o.price (remaining_at b2.store node) (facing order.side b2))
          r.here m.ends);
}
  where
    same_id : (b2.store node).order.order_id ≡ order.order_id
    same_id = m.terms.order_id ∙ ap (λ o. o.order_id) r.here
