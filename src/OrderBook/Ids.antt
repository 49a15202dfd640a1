-- ===== src/OrderBook/Ids.antt =====
-- Which ids the index of a book can have after an operation: those it had, and that of a new order.
use hftperformance.Prelude.{
  ℕ, ◌+◌, zero, suc, ◌≡◌, ◌≢◌, refl, ap, ◌∙◌, length, Bool, false, [], ◌∷◌, none, arith, ◌&&◌, inl,
  inr, Bool-cases, Option-cases,
}
use hftperformance.Prelude.Int.{ℤ, pos, ltb_ℤ, eqb_ℤ}
use hftperformance.Types.{Side, buy, sell}
use hftperformance.Order.{Order, remaining_quantity, is_filled, is_active, make_order}
use hftperformance.MemoryPool.{allocate}
use hftperformance.PriceLevel.{PriceLevel, front}
use hftperformance.OrderBook.Maps.{
  LevelMap, OrderIndex, find_node, set_node, erase_node, find_node-set_node, find_node-erase_node,
}
use hftperformance.OrderBook.Matching.{
  Desk, retire, execute, match_front, level_goes_on, match_level, no_cross, match_levels,
}
use hftperformance.OrderBook.{
  OrderBook, report, match_buy_order, match_sell_order, match_order, add_to_book, with_levels,
  settle, enter, is_post_only, add_order, remove_from_book, cancel_node, cancel_order, modify_node,
  modify_order, update_level_quantity,
}

-- The index has no order of that id.
abbrev pub NoId : ℕ → OrderIndex → Type 0
NoId j m = find_node j m ≡ none

NoId-erase : (j id : ℕ) (m : OrderIndex) → NoId j m → NoId j (erase_node id m)
NoId-erase j id m h = ground (arith, find_node-erase_node id j m, h)

NoId-set : (j id n : ℕ) (m : OrderIndex) → j ≢ id → NoId j m → NoId j (set_node id n m)
NoId-set j id n m differs h = ground (arith, find_node-set_node id n j m, differs, h)

side_holds {κ} :
    (P : OrderBook → Type κ) (s : Side) (a b : OrderBook)
    → P a
    → P b
    → P (elim s [ buy ↦ a | sell ↦ b ])
side_holds P buy a b ha hb = ha
side_holds P sell a b ha hb = hb

order_index-with_levels :
    (s : Side) (m : LevelMap) (b : OrderBook) → (with_levels s m b).order_index ≡ b.order_index
order_index-with_levels buy m b = refl
order_index-with_levels sell m b = refl

module _ (j : ℕ) (reporting : Bool) (time : ℤ) where
  NoId-retire : (node : ℕ) (d : Desk) → NoId j d.order_index → NoId j (retire node d).order_index
  unfolding retire
  NoId-retire node d h = NoId-erase j _ d.order_index h

  NoId-match_front :
      (aggressor passive : ℕ) (st : PriceLevel × Desk)
      → NoId j st.1.order_index
      → NoId j (match_front reporting time aggressor passive st).1.order_index
  unfolding match_front execute
  NoId-match_front aggressor passive (level, d) h =
      let d1 = execute reporting time aggressor passive d in
      elim (Bool-cases (is_filled (d1.store passive).order)) [
        | inl e ↦ rw (match_front, e) (NoId-retire passive (record d1 { store = _ }) h)
        | inr e ↦ rw (match_front, e) h
      ]

  NoId-match_level :
      (aggressor fuel : ℕ) (st : PriceLevel × Desk)
      → NoId j st.1.order_index
      → NoId j (match_level reporting time aggressor fuel st).1.order_index
  unfolding match_level
  NoId-match_level aggressor zero st h = h
  NoId-match_level aggressor (suc fuel) st h = elim (Bool-cases (level_goes_on aggressor st)) [
    | inl e ↦ elim (Option-cases (front st.0)) [
      | inl f ↦ rw (match_level, e, f) h
      | inr (passive, f) ↦
          rw (match_level, e, f)
            (NoId-match_level aggressor fuel _ (NoId-match_front aggressor passive st h))
    ]
    | inr e ↦ rw (match_level, e) h
  ]

  NoId-match_levels :
      (side : Side) (aggressor fuel : ℕ) (m : LevelMap) (d : Desk)
      → NoId j d.order_index
      → NoId j (match_levels reporting time side aggressor fuel m d).1.order_index
  unfolding match_levels
  NoId-match_levels side aggressor zero m d h = h
  NoId-match_levels side aggressor (suc fuel) [] d h = h
  NoId-match_levels side aggressor (suc fuel) ((price, level) ∷ m) d h =
      elim (Bool-cases (ltb_ℤ (pos 0) (remaining_quantity (d.store aggressor).order))) [
        | inr e ↦ rw (match_levels, e) h
        | inl e ↦ elim (Bool-cases (no_cross side (d.store aggressor).order.price price)) [
          | inl f ↦ rw (match_levels, e, f) h
          | inr f ↦
              rw (match_levels, e, f)
                (NoId-match_levels side aggressor fuel _ _
                  (NoId-match_level aggressor (level.order_count + 1) (level, d) h))
        ]
      ]

  NoId-match_order :
      (node : ℕ) (b : OrderBook)
      → NoId j b.order_index
      → NoId j (match_order reporting time node b).order_index
  unfolding match_order match_buy_order match_sell_order
  NoId-match_order node b h =
      side_holds (λ r. NoId j r.order_index) (b.store node).order.side
        (match_buy_order reporting time node b) (match_sell_order reporting time node b)
        (NoId-match_levels buy node (length b.asks + 1) b.asks b.desk h)
        (NoId-match_levels sell node (length b.bids + 1) b.bids b.desk h)

  NoId-add_to_book :
      (node : ℕ) (b : OrderBook) → NoId j b.order_index → NoId j (add_to_book node b).order_index
  unfolding add_to_book
  NoId-add_to_book node b h =
      ap (find_node j) (order_index-with_levels (b.store node).order.side _ _) ∙ h

  NoId-settle :
      (node : ℕ) (b : OrderBook) → NoId j b.order_index → NoId j (settle node b).order_index
  unfolding settle
  NoId-settle node b h =
      let o : Order = (b.store node).order in
      elim (Bool-cases (ltb_ℤ (pos 0) (remaining_quantity o) && is_active o)) [
        | inl e ↦ rw (settle, e) (NoId-add_to_book node b h)
        | inr e ↦ elim (Bool-cases (eqb_ℤ (remaining_quantity o) (pos 0))) [
          | inl f ↦ rw (settle, e, f) (NoId-retire node b.desk h)
          | inr f ↦ rw (settle, e, f) h
        ]
      ]

  NoId-enter :
      (order : Order) (node : ℕ) (b : OrderBook)
      → j ≢ order.order_id
      → NoId j b.order_index
      → NoId j (enter reporting time order node b).order_index
  unfolding enter report
  NoId-enter order node b differs h =
      let indexed : NoId j (set_node order.order_id node b.order_index) =
        NoId-set j order.order_id node b.order_index differs h in
      elim (Bool-cases (is_post_only order.type)) [
        | inl e ↦ rw (enter, e) (NoId-settle node _ indexed)
        | inr e ↦ rw (enter, e) (NoId-settle node _ (NoId-match_order node _ indexed))
      ]

  -- Adding an order
  pub NoId-add_order :
      (order : Order) (b : OrderBook)
      → j ≢ order.order_id
      → NoId j b.order_index
      → NoId j (add_order reporting time order b).1.order_index
  unfolding add_order report
  NoId-add_order order b differs h = elim (Option-cases (allocate b.order_pool).0) [
    | inl e ↦ rw (add_order, e) h
    | inr (node, e) ↦
        rw (add_order, e)
          (NoId-enter order node (record b { desk = record (b.desk) { order_pool = _ } }) differs h)
  ]

  NoId-remove_from_book :
      (node : ℕ) (b : OrderBook)
      → NoId j b.order_index
      → NoId j (remove_from_book node b).order_index
  unfolding remove_from_book
  NoId-remove_from_book node b h =
      ap (find_node j) (order_index-with_levels (b.store node).order.side _ _) ∙ h

  -- Cancelling
  pub NoId-cancel_order :
      (order_id : ℕ) (b : OrderBook)
      → NoId j b.order_index
      → NoId j (cancel_order reporting time order_id b).1.order_index
  unfolding cancel_order cancel_node report
  NoId-cancel_order order_id b h = elim (Option-cases (find_node order_id b.order_index)) [
    | inl e ↦ rw (cancel_order, e) h
    | inr (node, e) ↦
        rw (cancel_order, e) (NoId-erase j order_id _ (NoId-remove_from_book node _ h))
  ]

-- Modifying: the order that replaces the old one has its id.
pub NoId-modify_order :
    (j : ℕ) (reporting : Bool) (time : ℤ) (order_id : ℕ) (price quantity : ℤ) (b : OrderBook)
    → NoId j b.order_index
    → NoId j (modify_order reporting time order_id price quantity b).1.order_index
unfolding modify_order modify_node update_level_quantity make_order
NoId-modify_order j reporting time order_id price quantity b h =
    elim (Option-cases (find_node order_id b.order_index)) [
      | inl e ↦ rw (modify_order, e) h
      | inr (node, e) ↦
          let differs : j ≢ order_id = λ same. cc (e, h, same) in
          let order : Order = (b.store node).order in
          elim (Bool-cases (eqb_ℤ price order.price && ltb_ℤ quantity (remaining_quantity order))) [
            | inl f ↦ rw (modify_order, e, modify_node, f) h
            | inr f ↦
                rw (modify_order, e, modify_node, f)
                  (NoId-add_order j reporting time
                    (make_order time order_id order.side order.type price quantity order.client_id)
                    (cancel_order false time order_id b).1 differs
                    (NoId-cancel_order j false time order_id b h))
          ]
    ]
