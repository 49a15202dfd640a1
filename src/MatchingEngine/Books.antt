-- ===== src/MatchingEngine/Books.antt =====
-- The table of books: an operation on one instrument leaves the books of the others alone.
use hftperformance.Prelude.{
  ℕ, ◌≡◌, ◌≢◌, refl, sym, ◌∙◌, false, List, [], ◌∷◌, none, some, arith, ◌⊎◌, ◌+◌, ◌%◌, ◌^◌, subst,
  inl, inr, Bool-cases, Option-cases, All,
}
use hftperformance.Prelude.Int.{ℤ}
use hftperformance.Prelude.Text.{same_text, same_text_iff, same_text-ne}
use hftperformance.Types.{Side, OrderType}
use hftperformance.Types.Symbol.{Symbol, symbol_view}
use hftperformance.Order.{Order, make_order, next_order_id}
use hftperformance.OrderBook.{OrderBook}
use hftperformance.OrderBook
use hftperformance.MatchingEngine.{
  MatchingEngine, BookMap, Clock, find_book, set_book, get_book, count_received, place_order,
  submit_order, cancel_order, modify_order, update_latency_stats,
}

-- A write of one book is seen at its name alone.
pub find-set_book_other :
    (name other : List ℕ) (b : OrderBook) (m : BookMap)
    → other ≢ name
    → find_book other (set_book name b m) ≡ find_book other m
unfolding find_book set_book
find-set_book_other name other b [] differs = refl
find-set_book_other name other b ((n, c) ∷ m) differs = elim (Bool-cases (same_text n name)) [
  | inl e ↦
      let apart : same_text n other ≡ false =
        same_text-ne n other (λ same. differs (sym same ∙ (same_text_iff n name).0 e)) in
      rw (set_book, e, find_book, apart) refl
  | inr e ↦
      let later : find_book other (set_book name b m) ≡ find_book other m =
        find-set_book_other name other b m differs in
      rw (set_book, e, find_book, later) refl
]

pub find-set_book :
    (name : List ℕ) (b c : OrderBook) (m : BookMap)
    → find_book name m ≡ some c
    → find_book name (set_book name b m) ≡ some b
unfolding find_book set_book
find-set_book name b c [] h = absurd (cc h)
find-set_book name b c ((n, d) ∷ m) h = elim (Bool-cases (same_text n name)) [
  | inl e ↦ rw (set_book, e, find_book, e) refl
  | inr e ↦
      let later : find_book name m ≡ some c = ground (arith, e, h) in
      rw (set_book, e, find_book, e) (find-set_book name b c m later)
]

module _ {κ} (P : OrderBook → Type κ) where
  -- All books have the property.
  abbrev pub AllBooks : BookMap → Type κ
  AllBooks m = All (λ nb. P nb.1) m

  pub AllBooks-find :
      (name : List ℕ) (b : OrderBook) (m : BookMap) → find_book name m ≡ some b → AllBooks m → P b
  unfolding find_book
  AllBooks-find name b [] e h = absurd (cc e)
  AllBooks-find name b ((n, c) ∷ m) e h = elim (Bool-cases (same_text n name)) [
    | inl k ↦
        let first : find_book name ((n, c) ∷ m) ≡ some c = rw (find_book, k) refl in
        subst P (cc (first, e)) h.0
    | inr k ↦
        let later : find_book name ((n, c) ∷ m) ≡ find_book name m = rw (find_book, k) refl in
        AllBooks-find name b m (sym later ∙ e) h.1
  ]

  pub AllBooks-set :
      (name : List ℕ) (b : OrderBook) (m : BookMap)
      → P b
      → AllBooks m
      → AllBooks (set_book name b m)
  unfolding set_book
  AllBooks-set name b [] hb h = tt
  AllBooks-set name b ((n, c) ∷ m) hb h = elim (Bool-cases (same_text n name)) [
    | inl e ↦ rw (set_book, e) (hb, h.1)
    | inr e ↦ rw (set_book, e) (h.0, AllBooks-set name b m hb h.1)
  ]

module _ (clock : Clock) (symbol : Symbol) (side : Side) (type : OrderType) (price quantity : ℤ)
    (client_id : ℕ) where
  -- The order that `submit_order` makes, and its book after it.
  abbrev pub placed_order : MatchingEngine → Order
  placed_order e = make_order clock.during e.next_id side type price quantity client_id

  abbrev pub placed_book : OrderBook → MatchingEngine → OrderBook
  placed_book b e = (OrderBook.add_order e.reporting clock.during (placed_order e) b).1

  pub place_order-books :
      (b : OrderBook) (e : MatchingEngine)
      → ((place_order clock symbol side type price quantity client_id b e).1.books
          ≡ set_book (symbol_view symbol) (placed_book b e) e.books)
        × ((place_order clock symbol side type price quantity client_id b e).1.next_id
            ≡ (e.next_id + 1) % 2 ^ 64)
  unfolding place_order update_latency_stats next_order_id
  place_order-books b e =
      elim (Bool-cases (OrderBook.add_order e.reporting clock.during (placed_order e) b).0) [
        | inl k ↦ rw (place_order, k) (refl, refl)
        | inr k ↦ rw (place_order, k) (refl, refl)
      ]

  -- Without a book, the books and the ids stay; with one, it takes the order.
  pub submit_order-books :
      (e : MatchingEngine)
      → ((get_book symbol e ≡ none)
          × ((submit_order clock symbol side type price quantity client_id e).1.books ≡ e.books)
          × ((submit_order clock symbol side type price quantity client_id e).1.next_id
              ≡ e.next_id))
        ⊎ ((b : OrderBook) × (get_book symbol e ≡ some b)
            × ((submit_order clock symbol side type price quantity client_id e).1.books
                ≡ set_book (symbol_view symbol) (placed_book b e) e.books)
            × ((submit_order clock symbol side type price quantity client_id e).1.next_id
                ≡ (e.next_id + 1) % 2 ^ 64))
  unfolding submit_order get_book
  submit_order-books e = elim (Option-cases (get_book symbol e)) [
    | inl k ↦ inl (k, rw (submit_order, k) refl, rw (submit_order, k) refl)
    | inr (b, k) ↦
        let placed = place_order-books b (count_received e) in
        inr (b, k, rw (submit_order, k) placed.0, rw (submit_order, k) placed.1)
  ]

pub cancel_order-books :
    (time : ℤ) (symbol : Symbol) (order_id : ℕ) (e : MatchingEngine)
    → ((cancel_order time symbol order_id e).1.next_id ≡ e.next_id)
      × (((cancel_order time symbol order_id e).1.books ≡ e.books)
          ⊎ ((b : OrderBook) × (get_book symbol e ≡ some b)
              × ((cancel_order time symbol order_id e).1.books
                  ≡ set_book
                      (symbol_view symbol)
                      (OrderBook.cancel_order e.reporting time order_id b).1
                      e.books)))
unfolding cancel_order get_book
cancel_order-books time symbol order_id e = elim (Option-cases (get_book symbol e)) [
  | inl k ↦ rw (cancel_order, k) (refl, inl refl)
  | inr (b, k) ↦ elim (Bool-cases (OrderBook.cancel_order e.reporting time order_id b).0) [
    | inl c ↦ rw (cancel_order, k, c) (refl, inr (b, refl, refl))
    | inr c ↦ rw (cancel_order, k, c) (refl, inr (b, refl, refl))
  ]
]

pub modify_order-books :
    (time : ℤ) (symbol : Symbol) (order_id : ℕ) (price quantity : ℤ) (e : MatchingEngine)
    → ((modify_order time symbol order_id price quantity e).1.next_id ≡ e.next_id)
      × (((modify_order time symbol order_id price quantity e).1.books ≡ e.books)
          ⊎ ((b : OrderBook) × (get_book symbol e ≡ some b)
              × ((modify_order time symbol order_id price quantity e).1.books
                  ≡ set_book
                      (symbol_view symbol)
                      (OrderBook.modify_order e.reporting time order_id price quantity b).1
                      e.books)))
unfolding modify_order get_book
modify_order-books time symbol order_id price quantity e = elim (Option-cases (get_book symbol e)) [
  | inl k ↦ rw (modify_order, k) (refl, inl refl)
  | inr (b, k) ↦ rw (modify_order, k) (refl, inr (b, refl, refl))
]
