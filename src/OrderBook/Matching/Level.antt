-- ===== src/OrderBook/Matching/Level.antt =====
-- The situation in which the inner loop runs at one price level.
use hftperformance.Prelude.{ℕ, ◌≡◌, List, [], ◌∷◌, ◌++◌, true, All}
use hftperformance.Prelude.Int.{ℤ, pos, ◌<ℤ◌}
use hftperformance.Types.{Side}
use hftperformance.Order.{Order, remaining_quantity, is_active}
use hftperformance.PriceLevel.{Store, PriceLevel}
use hftperformance.PriceLevel.Queue.{IsQueue}
use hftperformance.OrderBook.Matching.{Desk}
use hftperformance.OrderBook.Matching.Accounts.{IsAccounted}
use hftperformance.OrderBook.Matching.Reference.{Resting}

-- A level's queue as the reference sees it.
abbrev pub resting_of : Order → Resting
resting_of o = record { id = o.order_id; open_quantity = remaining_quantity o }

abbrev pub view : Store → List ℕ → List Resting
view s [] = []
view s (n ∷ ns) = resting_of (s n).order ∷ view s ns

-- An order that rests in the book: at its level's price and side, active, with something remaining.
pub record Rests (side : Side) (price : ℤ) (o : Order) : Type 0 where
  pub at_price : o.price ≡ price
  pub at_side : o.side ≡ side
  pub active : is_active o ≡ true
  pub remains : pos 0 <ℤ remaining_quantity o

-- The situation of the inner loop: the aggressor `a` is no node of the level, which holds the queue
-- `xs`; the nodes in use are the aggressor's, the level's and `others`.
pub record AtLevel (side : Side) (price : ℤ) (a : ℕ) (others : List ℕ) (level : PriceLevel)
    (d : Desk) (xs free : List ℕ) : Type 0 where
  pub queue : IsQueue d.store level xs
  pub resting : All (λ n. Rests side price (d.store n).order) xs
  pub accounts : IsAccounted d (a ∷ xs ++ others) free
