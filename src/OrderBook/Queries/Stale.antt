-- ===== src/OrderBook/Queries/Stale.antt =====
-- src/matching/order_book.hpp, `modify_order` in place: the totals of the level do not follow.
use hftperformance.Prelude.{ℕ, ◌≡◌, refl, ◌∙◌, ap, some, Bool, true, arith, update_self}
use hftperformance.Prelude.Int.{ℤ, ◌+ℤ◌, ◌-ℤ◌, ◌<ℤ◌, ltb_ℤ, eqb_ℤ, int_laws}
use hftperformance.Order.{remaining_quantity}
use hftperformance.PriceLevel.{set_order}
use hftperformance.OrderBook.Maps.{find_node}
use hftperformance.OrderBook.Matching.Trade.{remaining_at}
use hftperformance.OrderBook.Queries.{get_depth, get_stats, get_quote}
use hftperformance.OrderBook.{OrderBook, modify_order, modify_node, update_level_quantity}

-- The book with the quantity of the order at `node` set so that `q` remains.
abbrev reduced : ℕ → ℤ → OrderBook → OrderBook
reduced node q b = record b {
  desk = record (b.desk) {
    store =
        set_order b.store node
          (record ((b.store node).order) { quantity = (b.store node).order.filled_quantity +ℤ q });
  };
}

modify_node_in_place :
    (reporting : Bool) (time : ℤ) (order_id node : ℕ) (p q : ℤ) (b : OrderBook)
    → eqb_ℤ p (b.store node).order.price ≡ true
    → ltb_ℤ q (remaining_at b.store node) ≡ true
    → modify_node reporting time order_id node p q b ≡ (true, reduced node q b)
unfolding modify_node update_level_quantity
modify_node_in_place reporting time order_id node p q b e h = rw (e, h) refl

modify_order_at :
    (reporting : Bool) (time : ℤ) (order_id node : ℕ) (p q : ℤ) (b : OrderBook)
    → find_node order_id b.order_index ≡ some node
    → modify_order reporting time order_id p q b ≡ modify_node reporting time order_id node p q b
unfolding modify_order
modify_order_at reporting time order_id node p q b f = ground (arith, f)

remaining_reduced :
    (node : ℕ) (q : ℤ) (b : OrderBook) → remaining_at (reduced node q b).store node ≡ q
unfolding remaining_quantity
remaining_reduced node q b =
    ap (λ n. n.order.quantity -ℤ n.order.filled_quantity)
      (update_self b.store node (record (b.store node) {
        order = record ((b.store node).order) {
          quantity = (b.store node).order.filled_quantity +ℤ q;
        };
      }))
    ∙ omega int_laws

-- A reduction of an indexed order at its own price is accepted and leaves the order with the new
-- quantity remaining, but the depth, the quote and the statistics are what they were.
pub modify_order_stale :
    (reporting : Bool) (time : ℤ) (order_id node : ℕ) (new_price new_quantity : ℤ) (b : OrderBook)
    → find_node order_id b.order_index ≡ some node
    → new_price ≡ (b.store node).order.price
    → new_quantity <ℤ remaining_at b.store node
    → let r = modify_order reporting time order_id new_price new_quantity b in
      (r.0 ≡ true)
      × (remaining_at r.1.store node ≡ new_quantity)
      × ((n : ℕ) → get_depth n r.1 ≡ get_depth n b)
      × (get_quote time r.1 ≡ get_quote time b)
      × (get_stats r.1 ≡ get_stats b)
unfolding get_depth get_quote get_stats
modify_order_stale reporting time order_id node new_price new_quantity b f p q =
    rw
      (
        modify_order_at reporting time order_id node new_price new_quantity b f,
        modify_node_in_place reporting time order_id node new_price new_quantity b
            (ground (arith, p)) (ground (arith, q)),
      )
      (refl, remaining_reduced node new_quantity b, λ n. refl, refl, refl)
