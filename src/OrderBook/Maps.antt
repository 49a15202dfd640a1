-- ===== src/OrderBook/Maps.antt =====
-- src/matching/order_book.hpp: the containers of the book and what the code uses of them.
-- A `std::map` of price levels is its list of entries in the comparator's order; the
-- `std::unordered_map` of the index is an association list.
use hftperformance.Prelude.{
  ℕ, ◌≡◌, arith, Bool, List, [], ◌∷◌, Option, none, some, ◌==◌, if◌then◌else◌,
}
use hftperformance.Prelude.Int.{ℤ, ltb_ℤ, eqb_ℤ}
use hftperformance.Types.{Side, buy, sell}
use hftperformance.PriceLevel.{PriceLevel, make_level}

abbrev pub LevelMap : Type 0
LevelMap = List (ℤ × PriceLevel)

abbrev pub OrderIndex : Type 0
OrderIndex = List (ℕ × ℕ)

-- `std::greater<Price>` for the bids, `std::less<Price>` for the asks.
unfoldable pub before : Side → ℤ → ℤ → Bool
before buy a b = ltb_ℤ b a
before sell a b = ltb_ℤ a b

-- `find`
unfoldable pub find_level : ℤ → LevelMap → Option PriceLevel
find_level p [] = none
find_level p ((q, l) ∷ m) = if eqb_ℤ q p then some l else find_level p m

-- A write through the iterator of the entry at a price.
unfoldable pub set_level : ℤ → PriceLevel → LevelMap → LevelMap
set_level p v [] = []
set_level p v ((q, l) ∷ m) = if eqb_ℤ q p then (q, v) ∷ m else (q, l) ∷ set_level p v m

-- `try_emplace(price, price)`: an entry that is there stays.
unfoldable pub emplace_level : Side → ℤ → LevelMap → LevelMap
emplace_level side p [] = (p, make_level p) ∷ []
emplace_level side p ((q, l) ∷ m) =
    if eqb_ℤ q p
    then (q, l) ∷ m
    else if before side p q
    then (p, make_level p) ∷ (q, l) ∷ m
    else (q, l) ∷ emplace_level side p m

-- `erase`
unfoldable pub erase_level : ℤ → LevelMap → LevelMap
erase_level p [] = []
erase_level p ((q, l) ∷ m) = if eqb_ℤ q p then m else (q, l) ∷ erase_level p m

-- `find`, `operator[]` with a write, and `erase` of the index.
unfoldable pub find_node : ℕ → OrderIndex → Option ℕ
find_node id [] = none
find_node id ((j, n) ∷ m) = if j == id then some n else find_node id m

unfoldable pub set_node : ℕ → ℕ → OrderIndex → OrderIndex
set_node id n [] = (id, n) ∷ []
set_node id n ((j, k) ∷ m) = if j == id then (id, n) ∷ m else (j, k) ∷ set_node id n m

unfoldable pub erase_node : ℕ → OrderIndex → OrderIndex
erase_node id [] = []
erase_node id ((j, n) ∷ m) = let rest = erase_node id m in if j == id then rest else (j, n) ∷ rest

-- A write of the index is seen at its key alone.
pub find_node-set_node :
    (id n j : ℕ) (m : OrderIndex)
    → find_node j (set_node id n m) ≡ (if j == id then some n else find_node j m)
unfolding find_node set_node
find_node-set_node id n j [] = ground arith
find_node-set_node id n j ((k, v) ∷ m) = ground (arith, find_node-set_node id n j m)

pub find_node-erase_node :
    (id j : ℕ) (m : OrderIndex)
    → find_node j (erase_node id m) ≡ (if j == id then none else find_node j m)
unfolding find_node erase_node
find_node-erase_node id j [] = ground arith
find_node-erase_node id j ((k, v) ∷ m) = ground (arith, find_node-erase_node id j m)
