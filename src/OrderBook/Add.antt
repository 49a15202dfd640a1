-- ===== src/OrderBook/Add.antt =====
-- `add_to_book` on one side: the new node joins the queue at its price.
use hftperformance.Prelude.{
  ℕ, ◌+◌, ◌<◌, ◌≤◌, ◌^◌, ◌≡◌, refl, sym, subst, ◌≢◌, List, [], ◌∷◌, ◌++◌, arith, NotIn, All,
  All-append, length, length-append, inl, inr, concat, Bool-cases, Distinct,
}
use mathlib.Core.List.{append_assoc}
use hftperformance.Prelude.Shuffle.{Shuffle, same, after, Shuffle-middle, Shuffle-left}
use hftperformance.Prelude.Int.{ℤ, eqb_ℤ}
use hftperformance.Types.{Side}
use hftperformance.PriceLevel.{Store, PriceLevel, make_level}
use hftperformance.PriceLevel
use hftperformance.PriceLevel.Queue.{
  IsQueue, make_level-IsQueue, add_order-IsQueue, add_order_ne, order-add_order,
}
use hftperformance.OrderBook.Maps.{LevelMap, before}
use hftperformance.OrderBook.Matching.Level.{Rests}
use hftperformance.OrderBook.Matching.Ladder.{IsSide}
use hftperformance.OrderBook.Insert.{
  level_at, nodes_at, nodes_with, at_here, find_level-emplace, placed, placed-IsSide,
  NotIn-nodes_at,
}
use hftperformance.OrderBook.{add_to_levels}

-- The queue that the new order joins.
record Joins (s : Store) (side : Side) (p : ℤ) (l : PriceLevel) (xs : List ℕ) : Type 0 where
  queue : IsQueue s l xs
  resting : All (λ n. Rests side p (s n).order) xs

level_at-Joins :
    (s : Store) (side : Side) (p : ℤ) (m : LevelMap) (xss : List (List ℕ))
    → IsSide s side m xss
    → Joins s side p (level_at side p m) (nodes_at side p m xss)
level_at-Joins s side p [] [] w = record { queue = make_level-IsQueue s p; resting = tt }
level_at-Joins s side p [] (xs ∷ xss) w = absurd w
level_at-Joins s side p (e ∷ m) [] w = absurd w
level_at-Joins s side p ((q, l) ∷ m) (xs ∷ xss) w = elim (Bool-cases (eqb_ℤ q p)) [
  | inl e ↦ rw e (record {
    queue = w.0.queue;
    resting =
        subst (λ r. All (λ n. Rests side r (s n).order) xs) (at_here side p q 0 l m xs xss e).2
          w.0.resting;
  })
  | inr n ↦ elim (Bool-cases (before side p q)) [
    | inl b ↦ rw (n, b) (record { queue = make_level-IsQueue s p; resting = tt })
    | inr b ↦ rw (n, b) (level_at-Joins s side p m xss w.2)
  ]
]

Shuffle-with :
    (side : Side) (p : ℤ) (node : ℕ) (s : Store) (m : LevelMap) (xss : List (List ℕ))
    → IsSide s side m xss
    → Shuffle (node ∷ concat xss) (concat (nodes_with side p node m xss))
Shuffle-with side p node s [] [] w = same
Shuffle-with side p node s [] (xs ∷ xss) w = absurd w
Shuffle-with side p node s (e ∷ m) [] w = absurd w
Shuffle-with side p node s ((q, l) ∷ m) (xs ∷ xss) w = elim (Bool-cases (eqb_ℤ q p)) [
  | inl e ↦ rw e (
      subst (λ ys. Shuffle (node ∷ xs ++ concat xss) ys)
        (sym (append_assoc xs (node ∷ []) (concat xss))) (Shuffle-middle node xs (concat xss)))
  | inr n ↦ elim (Bool-cases (before side p q)) [
    | inl b ↦ rw (n, b) same
    | inr b ↦
        rw (n, b)
          (after (Shuffle-middle node xs (concat xss))
            (Shuffle-left xs (Shuffle-with side p node s m xss w.2)))
  ]
]

-- What adding a node at its price has done to a side.
pub record Added (s t : Store) (side : Side) (node : ℕ) (m m' : LevelMap) (xss : List (List ℕ))
    : Type 0 where
  pub queues : List (List ℕ)
  pub is_side : IsSide t side m' queues
  pub shuffled : Shuffle (node ∷ concat xss) (concat queues)
  pub frame : (n : ℕ) → n ≢ node → NotIn n (concat xss) → t n ≡ s n
  pub orders : (n : ℕ) → (t n).order ≡ (s n).order

module _ (s : Store) (side : Side) (node : ℕ) (m : LevelMap) (xss : List (List ℕ)) where
  abbrev price : ℤ
  price = (s node).order.price

  abbrev grown : PriceLevel × Store
  grown = PriceLevel.add_order node (level_at side price m) s

  add_to_levels-placed : add_to_levels side node m s ≡ (placed side price grown.0 m, grown.1)
  unfolding add_to_levels
  add_to_levels-placed = ground (arith, find_level-emplace side price m)

  resting-grown :
      (xs : List ℕ)
      → All (λ n. Rests side price (s n).order) xs
      → All (λ n. Rests side price (grown.1 n).order) xs
  resting-grown [] h = tt
  resting-grown (x ∷ xs) h = (
    subst (λ o. Rests side price o) (sym (order-add_order node (level_at side price m) s x)) h.0,
    resting-grown xs h.1,
  )

  -- A resting order that is added to the book joins the end of the queue at its price; the side
  -- stays sorted and all its levels right.
  pub add_to_levels-Added :
      IsSide s side m xss
      → Rests side price (s node).order
      → NotIn node (concat xss)
      → Distinct (concat xss)
      → length (nodes_at side price m xss) + 1 < 2 ^ 64
      → Added s (add_to_levels side node m s).1 side node m (add_to_levels side node m s).0 xss
  add_to_levels-Added w r h d small = rw add_to_levels-placed (record {
    queues = nodes_with side price node m xss;
    is_side =
        placed-IsSide side price node grown.0 s grown.1 m xss (nodes_at side price m xss) refl w
          (record {
            queue = add_order-IsQueue node _ s _ joins.queue ni small;
            resting =
                All-append _ (nodes_at side price m xss) (node ∷ [])
                  (resting-grown (nodes_at side price m xss) joins.resting)
                  (resting-grown (node ∷ []) (r, tt));
            nonempty = λ e. snoc_ne (nodes_at side price m xss) e;
          })
          (λ n ne ni'. add_order_ne node _ s _ n joins.queue ne ni') h d;
    shuffled = Shuffle-with side price node s m xss w;
    frame = λ n ne ni'.
        add_order_ne node _ s _ n joins.queue ne (NotIn-nodes_at side price m xss n ni');
    orders = order-add_order node (level_at side price m) s;
  })
    where
      joins : Joins s side price (level_at side price m) (nodes_at side price m xss)
      joins = level_at-Joins s side price m xss w

      ni : NotIn node (nodes_at side price m xss)
      ni = NotIn-nodes_at side price m xss node h

      snoc_ne : (xs : List ℕ) → xs ++ node ∷ [] ≢ []
      snoc_ne [] e = cc
      snoc_ne (x ∷ xs) e = cc

  pub length-nodes_at :
      IsSide s side m xss
      → (k : ℕ) → length (concat xss) ≤ k
      → length (nodes_at side price m xss) ≤ k
  length-nodes_at w k h = omega (arith, go m xss)
    where
      go :
          (m' : LevelMap) (yss : List (List ℕ))
          → length (nodes_at side price m' yss) ≤ length (concat yss)
      go [] yss = omega arith
      go (e ∷ m') [] = omega arith
      go ((q, l) ∷ m') (ys ∷ yss) = ground (arith, go m' yss, length-append ys (concat yss))
