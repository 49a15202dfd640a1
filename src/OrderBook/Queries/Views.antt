-- ===== src/OrderBook/Queries/Views.antt =====
-- What the queries report of a right book: the resting orders, with their quantities summed up.
use hftperformance.Prelude.{
  ℕ, zero, suc, ◌≡◌, refl, subst, ◌∙◌, ap, List, [], ◌∷◌, some, true, false, arith, length, All,
  All-append, concat,
}
use hftperformance.Prelude.Int.{ℤ, pos, ◌+ℤ◌, ◌≤ℤ◌}
use hftperformance.Types.{Side, buy, sell}
use hftperformance.PriceLevel.{Store}
use hftperformance.PriceLevel.Queue.{sum_remaining}
use hftperformance.OrderBook.Maps.{LevelMap, before}
use hftperformance.OrderBook.Matching.Reference.{Resting, sum_open}
use hftperformance.OrderBook.Matching.Level.{Rests, view}
use hftperformance.OrderBook.Matching.Ladder.{IsSide, view_side}
use hftperformance.OrderBook.Book.{IsBook}
use hftperformance.OrderBook.Queries.{
  Level, first_levels, get_depth, sum_levels, get_stats, best_bid, best_ask, first_price,
}
use hftperformance.OrderBook.{OrderBook}

-- The first `n` prices with the number and the total quantity of the orders that rest there.
unfoldable pub summary : ℕ → List (ℤ × List Resting) → List Level
summary zero q = []
summary (suc n) [] = []
summary (suc n) ((price, rs) ∷ q) =
    record { price = price; quantity = sum_open rs; order_count = length rs } ∷ summary n q

-- The total quantity of all orders that rest on a side.
abbrev pub sum_side : List (ℤ × List Resting) → ℤ
sum_side [] = pos 0
sum_side ((_, rs) ∷ q) = sum_open rs +ℤ sum_side q

sum_open-view : (s : Store) (xs : List ℕ) → sum_open (view s xs) ≡ sum_remaining s xs
sum_open-view s [] = refl
sum_open-view s (x ∷ xs) = ground (arith, sum_open-view s xs)

length-view : (s : Store) (xs : List ℕ) → length (view s xs) ≡ length xs
length-view s [] = refl
length-view s (x ∷ xs) = ground (arith, length-view s xs)

first_levels-view :
    (s : Store) (side : Side) (n : ℕ) (m : LevelMap) (xss : List (List ℕ))
    → IsSide s side m xss
    → first_levels n m ≡ summary n (view_side s m xss)
unfolding first_levels summary
first_levels-view s side zero m xss w = refl
first_levels-view s side (suc n) [] xss w = refl
first_levels-view s side (suc n) (e ∷ m) [] w = absurd w
first_levels-view s side (suc n) ((price, l) ∷ m) (xs ∷ xss) w = ground (
  arith,
  first_levels-view s side n m xss w.2,
  w.0.queue.total,
  w.0.queue.counted,
  sum_open-view s xs,
  length-view s xs,
)

sum_levels-view :
    (s : Store) (side : Side) (m : LevelMap) (xss : List (List ℕ))
    → IsSide s side m xss
    → sum_levels m ≡ sum_side (view_side s m xss)
sum_levels-view s side [] xss w = refl
sum_levels-view s side (e ∷ m) [] w = absurd w
sum_levels-view s side ((price, l) ∷ m) (xs ∷ xss) w =
    ground (arith, sum_levels-view s side m xss w.2, w.0.queue.total, sum_open-view s xs)

-- In a right book, the depth shows for the first prices of each side how many orders rest there and
-- their total quantity, and the statistics the total quantity of each side.
pub get_depth-summary :
    (n : ℕ) (b : OrderBook) (v : IsBook b)
    → ((get_depth n b).bids ≡ summary n (view_side b.store b.bids v.bid_nodes))
      × ((get_depth n b).asks ≡ summary n (view_side b.store b.asks v.ask_nodes))
      × ((get_stats b).total_bid_quantity ≡ sum_side (view_side b.store b.bids v.bid_nodes))
      × ((get_stats b).total_ask_quantity ≡ sum_side (view_side b.store b.asks v.ask_nodes))
unfolding get_depth get_stats
get_depth-summary n b v = (
  first_levels-view b.store buy n b.bids v.bid_nodes v.is_bids,
  first_levels-view b.store sell n b.asks v.ask_nodes v.is_asks,
  sum_levels-view b.store buy b.bids v.bid_nodes v.is_bids,
  sum_levels-view b.store sell b.asks v.ask_nodes v.is_asks,
)

-- All orders of the side have a price that is not before `p`.
level_not_before :
    (s : Store) (side : Side) (p q : ℤ) (xs : List ℕ)
    → before side q p ≡ false
    → All (λ n. Rests side q (s n).order) xs
    → All (λ n. before side (s n).order.price p ≡ false) xs
level_not_before s side p q [] h r = tt
level_not_before s side p q (x ∷ xs) h r =
    (ap (λ k. before side k p) r.0.at_price ∙ h, level_not_before s side p q xs h r.1)

before_asym : (side : Side) (p q : ℤ) → before side p q ≡ true → before side q p ≡ false
unfolding before
before_asym buy p q h = ground arith
before_asym sell p q h = ground arith

before_irrefl : (side : Side) (p : ℤ) → before side p p ≡ false
unfolding before
before_irrefl buy p = ground arith
before_irrefl sell p = ground arith

side_not_before :
    (s : Store) (side : Side) (p : ℤ) (m : LevelMap) (xss : List (List ℕ))
    → All (λ e. before side e.0 p ≡ false) m
    → IsSide s side m xss
    → All (λ n. before side (s n).order.price p ≡ false) (concat xss)
side_not_before s side p [] [] h w = tt
side_not_before s side p [] (xs ∷ xss) h w = absurd w
side_not_before s side p (e ∷ m) [] h w = absurd w
side_not_before s side p ((q, l) ∷ m) (xs ∷ xss) h w =
    All-append _ xs (concat xss) (level_not_before s side p q xs h.0 w.0.resting)
      (side_not_before s side p m xss h.1 w.2)

all_behind :
    (side : Side) (p : ℤ) (m : LevelMap)
    → All (λ e. before side p e.0 ≡ true) m
    → All (λ e. before side e.0 p ≡ false) m
all_behind side p [] a = tt
all_behind side p ((q, l) ∷ m) a = (before_asym side p q a.0, all_behind side p m a.1)

first_price-best :
    (s : Store) (side : Side) (p : ℤ) (m : LevelMap) (xss : List (List ℕ))
    → IsSide s side m xss
    → first_price m ≡ some p
    → All (λ n. before side (s n).order.price p ≡ false) (concat xss)
first_price-best s side p [] xss w e = absurd (cc e)
first_price-best s side p ((q, l) ∷ m) [] w e = absurd w
first_price-best s side p ((q, l) ∷ m) (xs ∷ xss) w e =
    let same : q ≡ p = cc e in
    subst (λ k. All (λ n. before side (s n).order.price k ≡ false) (concat (xs ∷ xss))) same
      (side_not_before s side q ((q, l) ∷ m) (xs ∷ xss)
        (before_irrefl side q, all_behind side q m w.1) w)

bid_le : (p q : ℤ) → before buy q p ≡ false → q ≤ℤ p
unfolding before
bid_le p q h = ground arith

ask_le : (p q : ℤ) → before sell q p ≡ false → p ≤ℤ q
unfolding before
ask_le p q h = ground arith

-- In a right book, no resting bid has a higher price than the best bid, and no resting ask a lower one
-- than the best ask, where there is one.
pub best_prices :
    (b : OrderBook) (v : IsBook b)
    → ((p : ℤ) → best_bid b ≡ some p → All (λ n. (b.store n).order.price ≤ℤ p) (concat v.bid_nodes))
      × ((p : ℤ)
          → best_ask b ≡ some p
          → All (λ n. p ≤ℤ (b.store n).order.price) (concat v.ask_nodes))
unfolding best_bid best_ask
best_prices b v = (
  λ p e.
      bids_le p (concat v.bid_nodes)
        (first_price-best b.store buy p b.bids v.bid_nodes v.is_bids e),
  λ p e.
      asks_le p (concat v.ask_nodes)
        (first_price-best b.store sell p b.asks v.ask_nodes v.is_asks e),
)
  where
    bids_le :
        (p : ℤ) (xs : List ℕ)
        → All (λ n. before buy (b.store n).order.price p ≡ false) xs
        → All (λ n. (b.store n).order.price ≤ℤ p) xs
    bids_le p [] a = tt
    bids_le p (x ∷ xs) a = (bid_le p (b.store x).order.price a.0, bids_le p xs a.1)

    asks_le :
        (p : ℤ) (xs : List ℕ)
        → All (λ n. before sell (b.store n).order.price p ≡ false) xs
        → All (λ n. p ≤ℤ (b.store n).order.price) xs
    asks_le p [] a = tt
    asks_le p (x ∷ xs) a = (ask_le p (b.store x).order.price a.0, asks_le p xs a.1)
