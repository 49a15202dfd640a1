-- ===== src/OrderBook/Matching/Reference.antt =====
-- What matching promises: price-time priority, stated over plain queues of resting quantities.
-- No node, list link, index or pool occurs here.
use hftperformance.Prelude.{ℕ, ◌≡◌, Bool, ◌&&◌, List, [], ◌∷◌, ◌++◌, if◌then◌else◌}
use hftperformance.Prelude.Int.{ℤ, pos, ◌+ℤ◌, ◌-ℤ◌, ltb_ℤ, leb_ℤ, int_laws}
use hftperformance.Types.{Side, buy, sell}

-- A resting order: its id and what remains of it.
pub record Resting : Type 0 where
  pub id : ℕ
  pub open_quantity : ℤ

-- A trade of the incoming order with a resting one.
pub record Deal : Type 0 where
  pub maker : ℕ
  pub price : ℤ
  pub quantity : ℤ

-- An incoming order that still wants `want` meets the queue at one price: the oldest order first,
-- each filled whole while it does not exceed the want.
unfoldable pub take_queue : ℤ → ℤ → List Resting → ℤ × List Resting × List Deal
take_queue price want [] = (want, [], [])
take_queue price want (r ∷ rest) =
    let next = take_queue price (want -ℤ r.open_quantity) rest in
    if ltb_ℤ (pos 0) want
    then (if leb_ℤ r.open_quantity want
        then (
          next.0,
          next.1,
          record { maker = r.id; price = price; quantity = r.open_quantity } ∷ next.2,
        )
        else (
          pos 0,
          record r { open_quantity = r.open_quantity -ℤ want } ∷ rest,
          record { maker = r.id; price = price; quantity = want } ∷ [],
        ))
    else (want, r ∷ rest, [])

abbrev pub sum_deals : List Deal → ℤ
sum_deals [] = pos 0
sum_deals (t ∷ ts) = t.quantity +ℤ sum_deals ts

abbrev pub sum_open : List Resting → ℤ
sum_open [] = pos 0
sum_open (r ∷ rs) = r.open_quantity +ℤ sum_open rs

-- A limit of a buyer or a seller admits a price.
unfoldable pub crosses : Side → ℤ → ℤ → Bool
crosses buy limit price = leb_ℤ price limit
crosses sell limit price = leb_ℤ limit price

-- The levels are met best price first, each only when the ones before it are used up.
unfoldable pub take_levels :
    Side → ℤ → ℤ → List (ℤ × List Resting) → ℤ × List (ℤ × List Resting) × List Deal
take_levels side limit want [] = (want, [], [])
take_levels side limit want ((price, queue) ∷ rest) =
    let here = take_queue price want queue in
    let later = take_levels side limit here.0 rest in
    if ltb_ℤ (pos 0) want && crosses side limit price
    then (elim here.1 [
      | [] ↦ (later.0, later.1, here.2 ++ later.2)
      | r ∷ rs ↦ (here.0, (price, r ∷ rs) ∷ rest, here.2)
    ])
    else (want, (price, queue) ∷ rest, [])

pub sum_deals-append : (ts us : List Deal) → sum_deals (ts ++ us) ≡ sum_deals ts +ℤ sum_deals us
sum_deals-append [] us = omega int_laws
sum_deals-append (t ∷ ts) us = rw (sum_deals-append ts us) (omega int_laws)
