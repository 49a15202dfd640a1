-- ===== src/OrderBook/Remove.antt =====
-- src/matching/order_book.hpp, `remove_from_book` on one side, after the order has been marked.
use hftperformance.Prelude.{
  ℕ, ◌≡◌, refl, sym, ◌∙◌, ap, subst, ◌≢◌, List, [], ◌∷◌, ◌++◌, some, true, false, arith, NotIn, In,
  In-middle, All, All-remove, inl, inr, concat, Distinct, Distinct-middle, NotIn-of_In, update_self,
  update_ne, Bool-cases,
}
use hftperformance.Prelude.Int.{ℤ}
use hftperformance.Types.{Side}
use hftperformance.Order.{Order, remaining_quantity}
use hftperformance.PriceLevel.{Store, set_order, PriceLevel, remove_order, empty}
use hftperformance.PriceLevel.Links.{Links-congr}
use hftperformance.PriceLevel.Queue.{IsQueue, sum_remaining, empty-front}
use hftperformance.PriceLevel.Unlink.{order-remove_order, remove_order_ne}
use hftperformance.PriceLevel.Remove.{remove_order-IsQueue}
use hftperformance.OrderBook.Maps.{LevelMap, find_level, set_level, erase_level}
use hftperformance.OrderBook.Matching.Level.{Rests}
use hftperformance.OrderBook.Matching.Ladder.{IsLevel, IsSide}
use hftperformance.OrderBook.Locate.{Located, Without, locate}
use hftperformance.OrderBook.{remove_from_levels}

-- An order with the same price and the same quantities, which may have another status.
pub record SameAmount (o o' : Order) : Type 0 where
  pub price : o'.price ≡ o.price
  pub remaining : remaining_quantity o' ≡ remaining_quantity o
  pub order_id : o'.order_id ≡ o.order_id

-- What taking a marked node out of a side has done.
pub record Removed (s t : Store) (side : Side) (node : ℕ) (m' : LevelMap) (xss : List (List ℕ))
    : Type 0 where
  pub pre : List ℕ
  pub post : List ℕ
  pub around : concat xss ≡ pre ++ node ∷ post
  pub without : Without t side m' pre post
  pub frame : (n : ℕ) → NotIn n (concat xss) → t n ≡ s n
  pub ids : (n : ℕ) → (t n).order.order_id ≡ (s n).order.order_id

remove_from_levels_found :
    (node : ℕ) (t : Store) (m : LevelMap) (l : PriceLevel)
    → find_level (t node).order.price m ≡ some l
    → let (l', u) = remove_order node l t in
      ((empty l' ≡ true) → remove_from_levels node m t ≡ (erase_level (t node).order.price m, u))
      × ((empty l' ≡ false)
          → remove_from_levels node m t ≡ (set_level (t node).order.price l' m, u))
unfolding remove_from_levels
remove_from_levels_found node t m l f =
    (λ e. rw (remove_from_levels, f, e) refl, λ e. rw (remove_from_levels, f, e) refl)

module _ (s : Store) (side : Side) (node : ℕ) (o' : Order) (a : SameAmount (s node).order o') where
  abbrev marked : Store
  marked = set_order s node o'

  marked_links : (n : ℕ) → ((marked n).prev ≡ (s n).prev) × ((marked n).next ≡ (s n).next)
  marked_links n = (ground arith, ground arith)

  marked_remaining : (n : ℕ) → remaining_quantity (marked n).order ≡ remaining_quantity (s n).order
  marked_remaining n = ground (arith, a.remaining)

  marked_ids : (n : ℕ) → (marked n).order.order_id ≡ (s n).order.order_id
  marked_ids n = ground (arith, a.order_id)

  marked_price : (marked node).order.price ≡ (s node).order.price
  marked_price = ap (λ n. n.order.price) (update_self s node _) ∙ a.price

  marked_sum : (xs : List ℕ) → sum_remaining marked xs ≡ sum_remaining s xs
  marked_sum [] = refl
  marked_sum (x ∷ xs) = rw (marked_remaining x, marked_sum xs) refl

  -- Marking keeps a queue.
  marked-IsQueue : (l : PriceLevel) (xs : List ℕ) → IsQueue s l xs → IsQueue marked l xs
  marked-IsQueue l xs v = record {
    head = v.head;
    tail = v.tail;
    links = Links-congr s marked marked_links _ xs _ v.links;
    distinct = v.distinct;
    total = v.total ∙ sym (marked_sum xs);
    counted = v.counted;
    small = v.small;
  }

  module _ (p : ℤ) (l : PriceLevel) (left right : List ℕ)
      (v : IsLevel s side p l (left ++ node ∷ right)) where
    abbrev cut : PriceLevel × Store
    cut = remove_order node l marked

    cut-IsQueue : IsQueue cut.1 cut.0 (left ++ right)
    cut-IsQueue =
        remove_order-IsQueue node l marked left right
          (marked-IsQueue l (left ++ node ∷ right) v.queue)

    -- Only the nodes of the queue are written.
    cut_frame : (n : ℕ) → NotIn n (left ++ node ∷ right) → cut.1 n ≡ s n
    cut_frame n h =
        remove_order_ne node l marked left right n (marked-IsQueue l (left ++ node ∷ right) v.queue)
          h
        ∙ update_ne s _
            (λ e. NotIn-of_In node n (left ++ node ∷ right) (In-middle node left right) h (sym e))

    cut_order : (n : ℕ) → n ≢ node → (cut.1 n).order ≡ (s n).order
    cut_order n h = order-remove_order node l marked n ∙ ap (λ k. k.order) (update_ne s _ h)

    resting-cut :
        (xs : List ℕ)
        → NotIn node xs
        → All (λ n. Rests side p (s n).order) xs
        → All (λ n. Rests side p (cut.1 n).order) xs
    resting-cut [] h r = tt
    resting-cut (x ∷ xs) h r =
        (subst (λ o. Rests side p o) (sym (cut_order x h.0)) r.0, resting-cut xs h.1 r.1)

    cut-resting : All (λ n. Rests side p (cut.1 n).order) (left ++ right)
    cut-resting =
        resting-cut (left ++ right) (Distinct-middle left right node v.queue.distinct)
          (All-remove (λ n. Rests side p (s n).order) left right node v.resting)

  module _ (m : LevelMap) (xss : List (List ℕ)) (w : IsSide s side m xss)
      (d : Distinct (concat xss)) (i : In node (concat xss)) where
    abbrev at : Located s side node (s node).order.price m xss
    at = locate s side node m xss w d i

    abbrev after : PriceLevel × Store
    after = remove_order node at.level marked

    remove_from_levels_cases :
        ((empty after.0 ≡ true)
          → remove_from_levels node m marked ≡ (erase_level (s node).order.price m, after.1))
        × ((empty after.0 ≡ false)
            → remove_from_levels node m marked
              ≡ (set_level (s node).order.price after.0 m, after.1))
    remove_from_levels_cases =
        subst
          (λ p.
            find_level p m ≡ some at.level
            → ((empty after.0 ≡ true)
                → remove_from_levels node m marked ≡ (erase_level p m, after.1))
              × ((empty after.0 ≡ false)
                  → remove_from_levels node m marked ≡ (set_level p after.0 m, after.1)))
          marked_price (remove_from_levels_found node marked m at.level) at.found

    Removed-cut :
        (m' : LevelMap)
        → Without after.1 side m' at.pre at.post
        → Removed s after.1 side node m' xss
    Removed-cut m' k = record {
      pre = at.pre;
      post = at.post;
      around = at.around;
      without = k;
      frame = λ n h.
          cut_frame (s node).order.price at.level at.left at.right at.is_level n (at.inside n h);
      ids = λ n. ap (λ o. o.order_id) (order-remove_order node at.level marked n) ∙ marked_ids n;
    }

    -- A resting order that has been marked is taken out of its queue; the level goes when it was the
    -- last one, and the side stays sorted and all its levels right.
    pub remove_from_levels-Removed :
        Removed s
          (remove_from_levels node m marked).1
          side
          node
          (remove_from_levels node m marked).0
          xss
    remove_from_levels-Removed = elim (Bool-cases (empty after.0)) [
      | inl e ↦
          rw (remove_from_levels_cases.0 e) (Removed-cut _ (at.emptied after.1 frame (is_nil e)))
      | inr e ↦ rw (remove_from_levels_cases.1 e) (
          Removed-cut _ (
            at.kept after.1 after.0 frame (record {
              queue = queue;
              resting = cut-resting (s node).order.price at.level at.left at.right at.is_level;
              nonempty =
                  λ nil. cc (e, (empty-front after.1 after.0 (at.left ++ at.right) queue).1.1 nil);
            })))
    ]
      where
        queue : IsQueue after.1 after.0 (at.left ++ at.right)
        queue = cut-IsQueue (s node).order.price at.level at.left at.right at.is_level

        frame : (n : ℕ) → NotIn n (at.left ++ node ∷ at.right) → after.1 n ≡ s n
        frame = cut_frame (s node).order.price at.level at.left at.right at.is_level

        is_nil : empty after.0 ≡ true → at.left ++ at.right ≡ []
        is_nil = (empty-front after.1 after.0 (at.left ++ at.right) queue).1.0
