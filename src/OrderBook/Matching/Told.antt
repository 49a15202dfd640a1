-- ===== src/OrderBook/Matching/Told.antt =====
-- What the matching tells the clients: the type, ids, price and quantity of the reports that it sends.
use hftperformance.Prelude.{ℕ, ◌≡◌, ◌≢◌, refl, sym, ◌∙◌, ap, List, [], ◌∷◌, ◌++◌, Bool, true, false}
use mathlib.Core.Path.{ap₂}
use mathlib.Core.List.{append_assoc, append-nil}
use hftperformance.Prelude.Int.{ℤ, ◌+ℤ◌, ◌-ℤ◌}
use hftperformance.Types.{ExecutionType}
use hftperformance.Order.{ExecutionReport, fill, make_trade}
use hftperformance.PriceLevel.{Store}
use hftperformance.OrderBook.Matching.{Desk, execute, retire}
use hftperformance.OrderBook.Matching.Reference.{Deal}
use hftperformance.OrderBook.Matching.Accounts.{id_of}
use hftperformance.OrderBook.Matching.Trade.{
  remaining_at, traded, execute-SameTerms, execute-remaining, execute-aggressor, execute-passive,
}

-- A report without what it says of the order's progress and of the client.
pub record Note : Type 0 where
  pub exec_type : ExecutionType
  pub order_id : ℕ
  pub contra_order_id : ℕ
  pub execution_price : ℤ
  pub execution_quantity : ℤ

abbrev pub note : ExecutionReport → Note
note r = record {
  exec_type = r.exec_type;
  order_id = r.order_id;
  contra_order_id = r.contra_order_id;
  execution_price = r.execution_price;
  execution_quantity = r.execution_quantity;
}

abbrev pub notes : List ExecutionReport → List Note
notes [] = []
notes (r ∷ rs) = note r ∷ notes rs

-- A deal as it is told to one of its two orders.
abbrev pub deal_note : ℕ → ℕ → Deal → Note
deal_note id contra t = record {
  exec_type = ExecutionType.trade;
  order_id = id;
  contra_order_id = contra;
  execution_price = t.price;
  execution_quantity = t.quantity;
}

-- The deals of the order `taker`, each told to it and then to the resting order, if anything is told.
abbrev pub told_deals : Bool → ℕ → List Deal → List Note
told_deals false taker ts = []
told_deals true taker [] = []
told_deals true taker (t ∷ ts) =
    deal_note taker t.maker t ∷ (deal_note t.maker taker t ∷ told_deals true taker ts)

pub notes-append : (rs ss : List ExecutionReport) → notes (rs ++ ss) ≡ notes rs ++ notes ss
notes-append [] ss = refl
notes-append (r ∷ rs) ss = ap (λ ns. note r ∷ ns) (notes-append rs ss)

told_deals-nil : (reporting : Bool) (taker : ℕ) → told_deals reporting taker [] ≡ []
told_deals-nil false taker = refl
told_deals-nil true taker = refl

told_deals-append :
    (reporting : Bool) (taker : ℕ) (ts us : List Deal)
    → told_deals reporting taker (ts ++ us)
      ≡ told_deals reporting taker ts ++ told_deals reporting taker us
told_deals-append false taker ts us = refl
told_deals-append true taker [] us = refl
told_deals-append true taker (t ∷ ts) us =
    ap (λ ns. deal_note taker t.maker t ∷ (deal_note t.maker taker t ∷ ns))
      (told_deals-append true taker ts us)

-- Between `d` and `e` the deals, and no more, have been told.
abbrev pub Tells : Bool → ℕ → List Deal → Desk → Desk → Type 0
Tells reporting taker ts d e = notes e.reports ≡ notes d.reports ++ told_deals reporting taker ts

pub Tells-refl : (reporting : Bool) (taker : ℕ) (d : Desk) → Tells reporting taker [] d d
Tells-refl reporting taker d =
    sym (append-nil (notes d.reports))
    ∙ ap (λ ns. notes d.reports ++ ns) (sym (told_deals-nil reporting taker))

pub Tells-trans :
    (reporting : Bool) (taker next : ℕ) (ts us : List Deal) (d e f : Desk)
    → next ≡ taker
    → Tells reporting taker ts d e
    → Tells reporting next us e f
    → Tells reporting taker (ts ++ us) d f
Tells-trans reporting taker next ts us d e f same h k =
    k
    ∙ ap₂ (λ ns id. ns ++ told_deals reporting id us) h same
    ∙ append_assoc (notes d.reports) (told_deals reporting taker ts) (told_deals reporting taker us)
    ∙ ap (λ ns. notes d.reports ++ ns) (sym (told_deals-append reporting taker ts us))

-- The deal of one body of the inner loop.
abbrev pub deal_of : Store → ℕ → ℤ → ℤ → Deal
deal_of s passive price qty = record { maker = id_of s passive; price = price; quantity = qty }

module _ (time : ℤ) (a p : ℕ) (d : Desk) where
  -- The body of the inner loop tells its deal, at the price of the resting order.
  pub execute-Tells :
      (reporting : Bool)
      → a ≢ p
      → Tells reporting
          (id_of d.store a)
          (deal_of d.store p (d.store p).order.price (traded d.store a p) ∷ [])
          d
          (execute reporting time a p d)
  unfolding execute make_trade
  execute-Tells false ne = notes-append d.reports []
  execute-Tells true ne =
      notes-append d.reports _
      ∙ ap₂
          (λ taker maker.
            notes d.reports
            ++ (deal_note taker maker
                  (deal_of d.store p (d.store p).order.price (traded d.store a p))
                ∷ (deal_note maker taker
                      (deal_of d.store p (d.store p).order.price (traded d.store a p))
                    ∷ [])))
          (execute-SameTerms true time a p d ne a).order_id
          (execute-SameTerms true time a p d ne p).order_id

pub reports-retire : (n : ℕ) (d : Desk) → (retire n d).reports ≡ d.reports
unfolding retire
reports-retire n d = refl

-- With reports sent, a trade of two different orders sends one report for each, and both count the trade
-- twice: what they say is left is what remained before less twice the quantity, and what they say is
-- done is what was filled before and twice the quantity.
pub execute-reports :
    (time : ℤ) (a p : ℕ) (d : Desk)
    → a ≢ p
    → let qty = traded d.store a p in
      (taker : ExecutionReport) × (maker : ExecutionReport) × ((execute true time a p d).reports
        ≡ d.reports ++ (taker ∷ (maker ∷ [])))
      × (taker.order_id ≡ id_of d.store a)
      × (maker.order_id ≡ id_of d.store p)
      × (taker.leaves_quantity ≡ remaining_at d.store a -ℤ qty -ℤ qty)
      × (taker.cumulative_quantity ≡ (d.store a).order.filled_quantity +ℤ qty +ℤ qty)
      × (maker.leaves_quantity ≡ remaining_at d.store p -ℤ qty -ℤ qty)
      × (maker.cumulative_quantity ≡ (d.store p).order.filled_quantity +ℤ qty +ℤ qty)
unfolding execute make_trade fill
execute-reports time a p d ne = (
  _,
  _,
  refl,
  (execute-SameTerms true time a p d ne a).order_id,
  (execute-SameTerms true time a p d ne p).order_id,
  ap (λ r. r -ℤ traded d.store a p) (execute-remaining true time a p d ne).0,
  ap (λ o. o.filled_quantity +ℤ traded d.store a p) (execute-aggressor true time a p d ne),
  ap (λ r. r -ℤ traded d.store a p) (execute-remaining true time a p d ne).1,
  ap (λ o. o.filled_quantity +ℤ traded d.store a p) (execute-passive true time a p d ne),
)
