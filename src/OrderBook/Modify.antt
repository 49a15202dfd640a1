-- ===== src/OrderBook/Modify.antt =====
-- src/matching/order_book.hpp, `modify_order` where it replaces the order by a new one.
use hftperformance.Prelude.{
  ℕ, ◌≡◌, refl, sym, subst, none, some, Bool, false, ◌&&◌, inl, inr, Option-cases,
}
use hftperformance.Prelude.Int.{ℤ, pos, ◌<ℤ◌, -ℤ_zero, ltb_ℤ, eqb_ℤ}
use hftperformance.Order.{make_order, is_active, remaining_quantity}
use hftperformance.OrderBook.Maps.{find_node}
use hftperformance.OrderBook.Book.{IsBook}
use hftperformance.OrderBook.Submit.{IsNew, add_order-IsBook}
use hftperformance.OrderBook.Cancel.{cancel_order-Cancelled, cancel_order-IsBook}
use hftperformance.OrderBook.{OrderBook, cancel_order, modify_node, modify_order}

-- The modification reduces the order at the node in place, which keeps its priority.
abbrev pub reduces : ℤ → ℤ → OrderBook → ℕ → Bool
reduces price quantity b node =
    eqb_ℤ price (b.store node).order.price
    && ltb_ℤ quantity (remaining_quantity (b.store node).order)

module _ (reporting : Bool) (time : ℤ) (order_id : ℕ) (price quantity : ℤ) (b : OrderBook) where
  replacement-IsNew :
      (node : ℕ) (c : OrderBook)
      → pos 0 <ℤ quantity
      → find_node order_id c.order_index ≡ none
      → IsNew
          (make_order time order_id
            (b.store node).order.side
            (b.store node).order.type
            price
            quantity
            (b.store node).order.client_id)
          c
  unfolding make_order is_active remaining_quantity
  replacement-IsNew node c positive unused = record {
    remains = subst (λ q. pos 0 <ℤ q) (sym (-ℤ_zero quantity)) positive;
    active = refl;
    unused = unused;
  }

  -- Cancelling always leaves the id unused.
  unused_after :
      IsBook b → find_node order_id (cancel_order false time order_id b).1.order_index ≡ none
  unused_after v = elim (cancel_order-Cancelled false time order_id b v) [
    | inl (e, same) ↦ rw same e
    | inr (node, e, done, c) ↦ c.gone
  ]

  -- Modifying an order to another price, or to no smaller a quantity, which is positive, keeps the book
  -- right: the order is cancelled and a new one added under its id.
  pub modify_order-IsBook :
      IsBook b
      → pos 0 <ℤ quantity
      → ((node : ℕ)
          → find_node order_id b.order_index ≡ some node
          → reduces price quantity b node ≡ false)
      → IsBook (modify_order reporting time order_id price quantity b).1
  unfolding modify_order modify_node
  modify_order-IsBook v positive other = elim (Option-cases (find_node order_id b.order_index)) [
    | inl e ↦ rw (modify_order, e) v
    | inr (node, e) ↦
        rw (modify_order, e, modify_node, other node e)
          (add_order-IsBook reporting time _ (cancel_order false time order_id b).1
            (cancel_order-IsBook false time order_id b v)
            (replacement-IsNew node (cancel_order false time order_id b).1 positive
              (unused_after v))).0
  ]
