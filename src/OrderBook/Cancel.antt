-- ===== src/OrderBook/Cancel.antt =====
-- src/matching/order_book.hpp, `cancel_order`: what it does with the order and with the book.
use hftperformance.Prelude.{
  ℕ, ◌≡◌, ap, none, some, Bool, true, false, arith, In-append_cases, inl, inr, ◌⊎◌, concat,
  Option-cases,
}
use hftperformance.Prelude.Int.{ℤ}
use hftperformance.OrderBook.Maps.{find_node}
use hftperformance.OrderBook.Book.{IsBook}
use hftperformance.OrderBook.{OrderBook, cancel_node, cancel_order}
use hftperformance.OrderBook.Withdraw.{Cancelled, cancel_bid, cancel_ask}

module _ (reporting : Bool) (time : ℤ) (order_id : ℕ) (b : OrderBook) where
  unknown_id :
      find_node order_id b.order_index ≡ none → cancel_order reporting time order_id b ≡ (false, b)
  unfolding cancel_order
  unknown_id e = ground (arith, e)

  known_id :
      (node : ℕ)
      → find_node order_id b.order_index ≡ some node
      → cancel_order reporting time order_id b ≡ (true, cancel_node reporting time order_id node b)
  unfolding cancel_order
  known_id node e = ground (arith, e)

  -- On a right book, `cancel_order` of an id that no order has returns false and changes nothing. Of an
  -- id that an order has, it returns true and takes exactly that order out: the book is right again,
  -- its other orders stand in the same order of priority, the order's node is free, its id and no other
  -- is free, and the matched volume is as before.
  pub cancel_order-Cancelled :
      (v : IsBook b)
      → ((find_node order_id b.order_index ≡ none)
          × (cancel_order reporting time order_id b ≡ (false, b)))
        ⊎ ((node : ℕ) × (find_node order_id b.order_index ≡ some node)
            × ((cancel_order reporting time order_id b).0 ≡ true)
            × Cancelled order_id node b v (cancel_order reporting time order_id b).1)
  cancel_order-Cancelled v = elim (Option-cases (find_node order_id b.order_index)) [
    | inl e ↦ inl (e, unknown_id e)
    | inr (node, e) ↦
        let (i, is_id) = v.accounts.sound order_id node e in
        inr (
          node,
          e,
          ap (λ r. r.0) (known_id node e),
          rw (known_id node e)
              (elim (In-append_cases node (concat v.bid_nodes) (concat v.ask_nodes) i) [
                | inl h ↦ cancel_bid reporting time order_id node b v is_id h
                | inr h ↦ cancel_ask reporting time order_id node b v is_id h
              ]),
        )
  ]

  pub cancel_order-IsBook : IsBook b → IsBook (cancel_order reporting time order_id b).1
  cancel_order-IsBook v = elim (cancel_order-Cancelled v) [
    | inl (e, same) ↦ rw same v
    | inr (node, e, done, c) ↦ c.book
  ]
