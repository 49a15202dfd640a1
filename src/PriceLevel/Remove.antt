-- ===== src/PriceLevel/Remove.antt =====
-- `remove_order` and `pop_front`: what taking a node out does to the queue of a level.
use hftperformance.Prelude.{
  ℕ, ◌+◌, ◌-◌, ◌%◌, ◌^◌, ◌≡◌, refl, sym, ◌∙◌, List, [], ◌∷◌, ◌++◌, Option, none, some, ◌⊎◌, inl,
  inr, arith, length-append, Distinct-remove,
}
use mathlib.Core.List.{append-nil}
use hftperformance.Prelude.Int.{◌-ℤ◌, int_laws}
use hftperformance.Order.{remaining_quantity}
use hftperformance.PriceLevel.{Store, PriceLevel, remove_order, pop_front}
use hftperformance.PriceLevel.Links.{
  first_or, last_or, set_next?, last_or-append, set_next-none_last_ne,
}
use hftperformance.PriceLevel.Queue.{
  sum_remaining, sum_remaining-congr, sum_remaining-append, IsQueue,
}
use hftperformance.PriceLevel.Unlink.{
  order-remove_order, Between, Between-of_IsQueue, remove_order-removed, removed-Links,
}

-- `a` if there is a node on that side, else `b`.
pick : Option ℕ → Option ℕ → Option ℕ → Option ℕ
pick (some _) a b = a
pick none a b = b

-- The new head and tail, by what stands round the node.
ends_cases :
    (node : ℕ) (l : PriceLevel) (s : Store)
    → let t = set_next? s (s node).prev (s node).next in
      ((remove_order node l s).0.head ≡ pick (s node).prev l.head (s node).next)
      × ((remove_order node l s).0.tail ≡ pick (t node).next l.tail (t node).prev)
unfolding remove_order pick
ends_cases node l s = ground arith

last_or-some : (x : ℕ) (xs : List ℕ) → (t : ℕ) × (last_or (some x) xs ≡ some t)
last_or-some x [] = (x, refl)
last_or-some x (y ∷ xs) = last_or-some y xs

head_rule :
    (h : Option ℕ) (node : ℕ) (xs ys : List ℕ)
    → h ≡ first_or none (xs ++ node ∷ ys)
    → pick (last_or none xs) h (first_or none ys) ≡ first_or none (xs ++ ys)
unfolding pick
head_rule h node [] ys e = refl
head_rule h node (x ∷ xs) ys e = ground (arith, (last_or-some x xs).1)

tail_rule :
    (t : Option ℕ) (node : ℕ) (xs ys : List ℕ)
    → t ≡ last_or none (xs ++ node ∷ ys)
    → pick (first_or none ys) t (last_or none xs) ≡ last_or none (xs ++ ys)
unfolding pick
tail_rule t node xs [] e = rw append-nil refl
tail_rule t node xs (y ∷ ys) e =
    e ∙ last_or-append none xs (node ∷ y ∷ ys) ∙ sym (last_or-append none xs (y ∷ ys))

head-remove_order :
    (node : ℕ) (l : PriceLevel) (s : Store) (xs ys : List ℕ)
    → l.head ≡ first_or none (xs ++ node ∷ ys)
    → Between s node xs ys
    → (remove_order node l s).0.head ≡ first_or none (xs ++ ys)
head-remove_order node l s xs ys h b =
    (ends_cases node l s).0 ∙ rw (b.prev, b.next) (head_rule l.head node xs ys h)

tail-remove_order :
    (node : ℕ) (l : PriceLevel) (s : Store) (xs ys : List ℕ)
    → l.tail ≡ last_or none (xs ++ node ∷ ys)
    → Between s node xs ys
    → (remove_order node l s).0.tail ≡ last_or none (xs ++ ys)
tail-remove_order node l s xs ys h b =
    (ends_cases node l s).1
    ∙ rw (b.prev, b.next, same, b.prev, b.next) (tail_rule l.tail node xs ys h)
  where
    same : set_next? s (last_or none xs) (first_or none ys) node ≡ s node
    same = set_next-none_last_ne s (first_or none ys) xs node b.node_left

remove_order_counters :
    (node : ℕ) (l : PriceLevel) (s : Store)
    → ((remove_order node l s).0.total_quantity
        ≡ l.total_quantity -ℤ remaining_quantity (s node).order)
      × ((remove_order node l s).0.order_count ≡ (l.order_count + 2 ^ 64 - 1) % 2 ^ 64)
      × ((remove_order node l s).0.price ≡ l.price)
unfolding remove_order
remove_order_counters node l s = ground arith

sum_remaining-middle :
    (s : Store) (xs ys : List ℕ) (n : ℕ)
    → sum_remaining s (xs ++ n ∷ ys) -ℤ remaining_quantity (s n).order ≡ sum_remaining s (xs ++ ys)
sum_remaining-middle s xs ys n =
    rw (sum_remaining-append s xs (n ∷ ys), sum_remaining-append s xs ys) (omega int_laws)

-- `remove_order` takes a node out of a right queue, from any place, and keeps the others in order; the
-- links, the total quantity and the count are right again.
pub remove_order-IsQueue :
    (node : ℕ) (l : PriceLevel) (s : Store) (xs ys : List ℕ)
    → IsQueue s l (xs ++ node ∷ ys)
    → IsQueue (remove_order node l s).1 (remove_order node l s).0 (xs ++ ys)
remove_order-IsQueue node l s xs ys v = record {
  head = head-remove_order node l s xs ys v.head between;
  tail = tail-remove_order node l s xs ys v.tail between;
  links = rw (remove_order-removed node l s xs ys between) (removed-Links s node xs ys between);
  distinct = Distinct-remove xs ys node v.distinct;
  total =
      rw
        (
          sum_remaining-congr s (remove_order node l s).1 (order-remove_order node l s) (xs ++ ys),
          (remove_order_counters node l s).0,
          v.total,
        )
        (sum_remaining-middle s xs ys node);
  counted = omega (
    arith,
    (remove_order_counters node l s).1,
    v.counted,
    v.small,
    length-append xs (node ∷ ys),
    length-append xs ys,
  );
  small = omega (arith, v.small, length-append xs (node ∷ ys), length-append xs ys);
}
  where
    between : Between s node xs ys
    between = Between-of_IsQueue s node xs ys v.links v.distinct

pub pop_front_cases :
    (l : PriceLevel) (s : Store)
    → ((l.head ≡ none) → pop_front l s ≡ (none, l, s))
      × ((node : ℕ)
          → l.head ≡ some node
          → pop_front l s ≡ (some node, (remove_order node l s).0, (remove_order node l s).1))
unfolding pop_front
pop_front_cases l s = (λ e. ground arith, λ node e. ground arith)

-- On a right queue, `pop_front` returns nothing and changes nothing if it is empty, and otherwise
-- returns the oldest node, which it removes.
pub pop_front-IsQueue :
    (l : PriceLevel) (s : Store) (xs : List ℕ)
    → IsQueue s l xs
    → ((xs ≡ []) × (pop_front l s ≡ (none, l, s)))
      ⊎ ((node : ℕ) × (ys : List ℕ) × (xs ≡ node ∷ ys)
          × (pop_front l s ≡ (some node, (remove_order node l s).0, (remove_order node l s).1))
          × IsQueue (remove_order node l s).1 (remove_order node l s).0 ys)
pop_front-IsQueue l s [] v = inl (refl, (pop_front_cases l s).0 v.head)
pop_front-IsQueue l s (x ∷ ys) v =
    inr (x, ys, refl, (pop_front_cases l s).1 x v.head, remove_order-IsQueue x l s [] ys v)
