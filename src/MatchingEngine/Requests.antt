-- ===== src/MatchingEngine/Requests.antt =====
-- `process_request`: which book it may change, and which order numbers it may bring in.
use hftperformance.Prelude.{
  ℕ, ◌+◌, ◌%◌, ◌^◌, ◌<◌, ◌≤◌, ◌≡◌, ◌≢◌, ◌⊎◌, refl, sym, ap, ◌∙◌, some, arith, inl, inr, All-imp,
  subst,
}
use hftperformance.Prelude.Int.{ℤ, pos, ◌<ℤ◌, -ℤ_zero}
use hftperformance.Types.{Side, OrderType}
use hftperformance.Types.Symbol.{Symbol, symbol_view}
use hftperformance.Order.{make_order, is_active, remaining_quantity}
use hftperformance.OrderBook.{OrderBook}
use hftperformance.OrderBook.Book.{IsBook}
use hftperformance.OrderBook.Submit.{IsNew, add_order-IsBook}
use hftperformance.OrderBook.Ids.{NoId, NoId-add_order, NoId-cancel_order, NoId-modify_order}
use hftperformance.MatchingEngine.Request.{OrderRequest, RequestType}
use hftperformance.MatchingEngine.{
  MatchingEngine, Clock, find_book, set_book, get_book, submit_order, cancel_order, modify_order,
  process_request,
}
use hftperformance.MatchingEngine.Books.{
  find-set_book_other, AllBooks, AllBooks-find, AllBooks-set, submit_order-books,
  cancel_order-books, modify_order-books, placed_order,
}

-- The books after a call for one instrument: as they were, or its book is another, in which no order number
-- is new but, if it was given out, the next one.
abbrev pub Writes : Symbol → MatchingEngine → MatchingEngine → Type 0
Writes symbol e e' =
    (e'.books ≡ e.books)
    ⊎ ((b : OrderBook) × (b' : OrderBook) × (get_book symbol e ≡ some b)
        × (e'.books ≡ set_book (symbol_view symbol) b' e.books)
        × ((j : ℕ)
            → (j ≢ e.next_id) ⊎ (e'.next_id ≡ e.next_id)
            → NoId j b.order_index
            → NoId j b'.order_index))

-- The next order number after it.
abbrev pub Counts : MatchingEngine → MatchingEngine → Type 0
Counts e e' = (e'.next_id ≡ e.next_id) ⊎ (e'.next_id ≡ (e.next_id + 1) % 2 ^ 64)

module _ (clock : Clock) (e : MatchingEngine) where
  submit_order-Writes :
      (symbol : Symbol) (side : Side) (type : OrderType) (price quantity : ℤ) (client_id : ℕ)
      → Writes symbol e (submit_order clock symbol side type price quantity client_id e).1
        × Counts e (submit_order clock symbol side type price quantity client_id e).1
  unfolding make_order
  submit_order-Writes symbol side type price quantity client_id =
      elim (submit_order-books clock symbol side type price quantity client_id e) [
        | inl (none_there, same, id) ↦ (inl same, inl id)
        | inr (b, found, books, id) ↦ (
          inr (
            b,
            _,
            found,
            books,
            λ j new h. elim new [
              | inl differs ↦ NoId-add_order j e.reporting clock.during _ b differs h
              | inr same ↦ absurd (omega (arith, id, same))
            ],
          ),
          inr id,
        )
      ]

  cancel_order-Writes :
      (time : ℤ) (symbol : Symbol) (order_id : ℕ)
      → Writes symbol e (cancel_order time symbol order_id e).1
        × Counts e (cancel_order time symbol order_id e).1
  cancel_order-Writes time symbol order_id =
      let r = cancel_order-books time symbol order_id e in
      (
        elim (r.1) [
          | inl same ↦ inl same
          | inr (b, found, books) ↦
              inr (b, _, found, books, λ j new h. NoId-cancel_order j e.reporting time order_id b h)
        ],
        inl r.0,
      )

  modify_order-Writes :
      (time : ℤ) (symbol : Symbol) (order_id : ℕ) (price quantity : ℤ)
      → Writes symbol e (modify_order time symbol order_id price quantity e).1
        × Counts e (modify_order time symbol order_id price quantity e).1
  modify_order-Writes time symbol order_id price quantity =
      let r = modify_order-books time symbol order_id price quantity e in
      (
        elim (r.1) [
          | inl same ↦ inl same
          | inr (b, found, books) ↦ inr (
            b,
            _,
            found,
            books,
            λ j new h. NoId-modify_order j e.reporting time order_id price quantity b h,
          )
        ],
        inl r.0,
      )

  process_request-Writes :
      (r : OrderRequest)
      → Writes r.symbol e (process_request clock r e).1 × Counts e (process_request clock r e).1
  unfolding process_request
  process_request-Writes r = by_type r.request_type refl
    where
      by_type :
          (t : RequestType)
          → r.request_type ≡ t
          → Writes r.symbol e (process_request clock r e).1 × Counts e (process_request clock r e).1
      by_type RequestType.new_order h =
          rw (process_request, h)
            (submit_order-Writes r.symbol r.side r.order_type r.price r.quantity r.client_id)
      by_type RequestType.cancel_order h =
          rw (process_request, h) (cancel_order-Writes clock.during r.symbol r.order_id)
      by_type RequestType.modify_order h =
          rw (process_request, h)
            (modify_order-Writes clock.during r.symbol r.order_id r.price r.quantity)

-- Handling a request for one instrument leaves the books of all others as they were.
pub process_request-other :
    (clock : Clock) (r : OrderRequest) (other : Symbol) (e : MatchingEngine)
    → symbol_view other ≢ symbol_view r.symbol
    → get_book other (process_request clock r e).1 ≡ get_book other e
unfolding get_book
process_request-other clock r other e differs = elim (process_request-Writes clock e r).0 [
  | inl same ↦ ap (find_book (symbol_view other)) same
  | inr (b, b', found, books, _) ↦
      ap (find_book (symbol_view other)) books
      ∙ find-set_book_other (symbol_view r.symbol) (symbol_view other) b' e.books differs
]

-- No book has an order under a number that is still to be given out.
abbrev pub IsFresh : MatchingEngine → Type 0
IsFresh e = AllBooks (λ b. (j : ℕ) → e.next_id ≤ j → NoId j b.order_index) e.books

-- Requests of all kinds keep the numbers to be given out unused, as long as the counter does not wrap.
pub process_request-IsFresh :
    (clock : Clock) (r : OrderRequest) (e : MatchingEngine)
    → e.next_id + 1 < 2 ^ 64
    → IsFresh e
    → IsFresh (process_request clock r e).1
unfolding get_book
process_request-IsFresh clock r e room h =
    let e' : MatchingEngine = (process_request clock r e).1 in
    let writes = process_request-Writes clock e r in
    let P : OrderBook → Type 0 = λ b. (j : ℕ) → e'.next_id ≤ j → NoId j b.order_index in
    let grows : e.next_id ≤ e'.next_id = elim (writes.1) [
      | inl same ↦ omega (arith, same)
      | inr one_more ↦ omega (arith, one_more, room)
    ] in
    let kept : AllBooks P e.books =
      All-imp _ _ (λ nb old j above. old j (omega (arith, grows, above))) e.books h in
    elim (writes.0) [
      | inl same ↦ subst (AllBooks P) (sym same) kept
      | inr (b, b', found, books, fresh) ↦
          let new : P b' = λ j above.
            fresh j
              (elim (writes.1) [
                | inl same ↦ inr same
                | inr one_more ↦ inl (λ at. omega (arith, one_more, room, at, above))
              ])
              (AllBooks-find P (symbol_view r.symbol) b e.books found kept j above) in
          subst (AllBooks P) (sym books) (AllBooks-set P (symbol_view r.symbol) b' e.books new kept)
    ]

make_order-IsNew :
    (time : ℤ) (id : ℕ) (side : Side) (type : OrderType) (price quantity : ℤ) (client_id : ℕ)
    (b : OrderBook)
    → pos 0 <ℤ quantity
    → NoId id b.order_index
    → IsNew (make_order time id side type price quantity client_id) b
unfolding make_order is_active remaining_quantity
make_order-IsNew time id side type price quantity client_id b positive unused = record {
  remains = subst (λ q. pos 0 <ℤ q) (sym (-ℤ_zero quantity)) positive;
  active = refl;
  unused = unused;
}

-- Submitting an order of a positive quantity keeps every book right, when they are right and the numbers to
-- be given out are unused.
pub submit_order-IsBook :
    (clock : Clock) (symbol : Symbol) (side : Side) (type : OrderType) (price quantity : ℤ)
    (client_id : ℕ) (e : MatchingEngine)
    → IsFresh e
    → AllBooks IsBook e.books
    → pos 0 <ℤ quantity
    → AllBooks IsBook (submit_order clock symbol side type price quantity client_id e).1.books
unfolding get_book make_order
submit_order-IsBook clock symbol side type price quantity client_id e fresh right positive =
    elim (submit_order-books clock symbol side type price quantity client_id e) [
      | inl (none_there, same, _) ↦ subst (AllBooks IsBook) (sym same) right
      | inr (b, found, books, _) ↦
          let unused : NoId e.next_id b.order_index =
            AllBooks-find (λ c. (j : ℕ) → e.next_id ≤ j → NoId j c.order_index) (symbol_view symbol)
              b e.books found fresh e.next_id (omega arith) in
          let new : IsNew (placed_order clock symbol side type price quantity client_id e) b =
            make_order-IsNew clock.during e.next_id side type price quantity client_id b positive
              unused in
          let is_book : IsBook b =
            AllBooks-find IsBook (symbol_view symbol) b e.books found right in
          subst (AllBooks IsBook) (sym books) (
            AllBooks-set IsBook (symbol_view symbol) _ e.books
              (add_order-IsBook e.reporting clock.during _ b is_book new).0 right)
    ]
