-- ===== src/PriceLevel/Queue.antt =====
-- A `PriceLevel` as the FIFO queue of the nodes that it links: what each operation does to it.
use hftperformance.Prelude.{
  ℕ, ◌+◌, ◌^◌, ◌<◌, ◌≡◌, refl, sym, ◌∙◌, ap, ◌≢◌, ◌↔◌, List, [], ◌∷◌, ◌++◌, Option, none, some,
  true, arith, length, length-append, NotIn, Distinct, update, update_self, update_ne, NotIn-append,
}
use hftperformance.Prelude.Int.{ℤ, pos, ◌+ℤ◌, int_laws}
use hftperformance.Order.{remaining_quantity}
use hftperformance.PriceLevel.{Store, PriceLevel, make_level, add_order, front, empty}
use hftperformance.PriceLevel.Links.{
  first_or, last_or, Links, set_next?, Agree, Links-Agree, Agree-update, Links-append,
  set_next-none_last_ne, Links-set_next_none_last,
}

-- What remains of the orders at `xs`, in all.
abbrev pub sum_remaining : Store → List ℕ → ℤ
sum_remaining s [] = pos 0
sum_remaining s (x ∷ xs) = remaining_quantity (s x).order +ℤ sum_remaining s xs

-- The level links exactly the nodes `xs`, oldest first, and its two counters are right.
pub record IsQueue (s : Store) (l : PriceLevel) (xs : List ℕ) : Type 0 where
  pub head : l.head ≡ first_or none xs
  pub tail : l.tail ≡ last_or none xs
  pub links : Links s none xs none
  pub distinct : Distinct xs
  pub total : l.total_quantity ≡ sum_remaining s xs
  pub counted : l.order_count ≡ length xs
  pub small : length xs < 2 ^ 64

pub sum_remaining-congr :
    (s t : Store)
    → ((m : ℕ) → (t m).order ≡ (s m).order)
    → (xs : List ℕ) → sum_remaining t xs ≡ sum_remaining s xs
sum_remaining-congr s t h [] = refl
sum_remaining-congr s t h (x ∷ xs) = rw (h x, sum_remaining-congr s t h xs)

pub sum_remaining-Agree :
    (s t : Store) (xs : List ℕ) → Agree s t xs → sum_remaining t xs ≡ sum_remaining s xs
sum_remaining-Agree s t [] h = refl
sum_remaining-Agree s t (x ∷ xs) h = rw (h.0, sum_remaining-Agree s t xs h.1)

pub sum_remaining-append :
    (s : Store) (xs ys : List ℕ)
    → sum_remaining s (xs ++ ys) ≡ sum_remaining s xs +ℤ sum_remaining s ys
sum_remaining-append s [] ys = omega int_laws
sum_remaining-append s (x ∷ xs) ys = rw (sum_remaining-append s xs ys) (omega int_laws)

-- A level is not touched by what happens at other nodes.
pub IsQueue-Agree :
    (s t : Store) (l : PriceLevel) (xs : List ℕ) → Agree s t xs → IsQueue s l xs → IsQueue t l xs
IsQueue-Agree s t l xs a v = record {
  head = v.head;
  tail = v.tail;
  links = Links-Agree s t none xs none a v.links;
  distinct = v.distinct;
  total = v.total ∙ sym (sum_remaining-Agree s t xs a);
  counted = v.counted;
  small = v.small;
}

-- A new level is empty.
pub make_level-IsQueue : (s : Store) (price : ℤ) → IsQueue s (make_level price) []
unfolding make_level
make_level-IsQueue s price = record {
  head = refl;
  tail = refl;
  links = tt;
  distinct = tt;
  total = refl;
  counted = refl;
  small = omega arith;
}

-- `front` is the oldest node, and `empty` says whether there is none.
pub empty-front :
    (s : Store) (l : PriceLevel) (xs : List ℕ)
    → IsQueue s l xs
    → (front l ≡ first_or none xs) × ((empty l ≡ true) ↔ (xs ≡ []))
unfolding front empty
empty-front s l [] v = (v.head, ((λ e. refl), λ e. ground (arith, v.head)))
empty-front s l (x ∷ xs) v = (v.head, ((λ e. absurd (ground (arith, v.head))), λ e. cc))

-- The store after `add_order`: the new node points back at the last one, which points at it.
abbrev linked : ℕ → Store → List ℕ → Store
linked node s xs = update s node (record (s node) { prev = last_or none xs; next = none })

abbrev appended : ℕ → Store → List ℕ → Store
appended node s xs = set_next? (linked node s xs) (last_or none xs) (some node)

add_order-store :
    (node : ℕ) (l : PriceLevel) (s : Store)
    → (add_order node l s).1
      ≡ set_next?
          (update s node (record (s node) { prev = l.tail; next = none }))
          l.tail
          (some node)
unfolding add_order
add_order-store node l s = ground arith

add_order-appended :
    (node : ℕ) (l : PriceLevel) (s : Store) (xs : List ℕ)
    → l.tail ≡ last_or none xs
    → (add_order node l s).1 ≡ appended node s xs
add_order-appended node l s xs e = add_order-store node l s ∙ rw e

-- Adding changes no order.
pub order-add_order :
    (node : ℕ) (l : PriceLevel) (s : Store) (m : ℕ) → ((add_order node l s).1 m).order ≡ (s m).order
unfolding add_order
order-add_order node l s m = ground arith

last_or-snoc : (p : Option ℕ) (xs : List ℕ) (n : ℕ) → last_or p (xs ++ n ∷ []) ≡ some n
last_or-snoc p [] n = refl
last_or-snoc p (x ∷ xs) n = last_or-snoc (some x) xs n

first_or-snoc : (xs : List ℕ) (n : ℕ) → first_or none (xs ++ n ∷ []) ≡ first_or (some n) xs
first_or-snoc [] n = refl
first_or-snoc (x ∷ xs) n = refl

-- `add_order` writes no node but the new one and the last one.
pub add_order_ne :
    (node : ℕ) (l : PriceLevel) (s : Store) (xs : List ℕ) (m : ℕ)
    → IsQueue s l xs
    → m ≢ node
    → NotIn m xs
    → (add_order node l s).1 m ≡ s m
add_order_ne node l s xs m v h ni =
    rw (add_order-appended node l s xs v.tail)
      (set_next-none_last_ne (linked node s xs) (some node) xs m ni ∙ update_ne s _ h)

appended-Links :
    (node : ℕ) (s : Store) (xs : List ℕ)
    → Links s none xs none
    → Distinct xs
    → NotIn node xs
    → Links (appended node s xs) none (xs ++ node ∷ []) none
appended-Links node s xs h d ni =
    Links-append (appended node s xs) none xs (node ∷ []) none
      (Links-set_next_none_last (linked node s xs) none (some node) none xs d
        (Links-Agree s (linked node s xs) none xs none (Agree-update s node _ xs ni) h))
      (ap (λ n. n.prev) at_node, ap (λ n. n.next) at_node, tt)
  where
    at_node : appended node s xs node ≡ record (s node) { prev = last_or none xs; next = none }
    at_node = set_next-none_last_ne (linked node s xs) (some node) xs node ni ∙ update_self s node _

last_or_ne_none : (x : ℕ) (xs : List ℕ) → last_or (some x) xs ≢ none
last_or_ne_none x [] e = cc
last_or_ne_none x (y ∷ xs) e = last_or_ne_none y xs e

head-add_order :
    (node : ℕ) (l : PriceLevel) (s : Store) (xs : List ℕ)
    → l.head ≡ first_or none xs
    → l.tail ≡ last_or none xs
    → (add_order node l s).0.head ≡ first_or none (xs ++ node ∷ [])
unfolding add_order
head-add_order node l s [] h t = ground arith
head-add_order node l s (x ∷ xs) h t = ground (arith, last_or_ne_none x xs)

Distinct-snoc : (xs : List ℕ) (n : ℕ) → Distinct xs → NotIn n xs → Distinct (xs ++ n ∷ [])
Distinct-snoc [] n d h = (tt, tt)
Distinct-snoc (x ∷ xs) n d h =
    (NotIn-append x xs (n ∷ []) d.0 ((λ e. h.0 (sym e)), tt), Distinct-snoc xs n d.1 h.1)

total-add_order :
    (node : ℕ) (l : PriceLevel) (s : Store) (xs : List ℕ)
    → l.total_quantity ≡ sum_remaining s xs
    → l.total_quantity +ℤ remaining_quantity (s node).order
      ≡ sum_remaining (add_order node l s).1 (xs ++ node ∷ [])
total-add_order node l s xs e =
    rw
      (
        sum_remaining-congr s (add_order node l s).1 (order-add_order node l s) (xs ++ node ∷ []),
        sum_remaining-append s xs (node ∷ []),
        e,
      )
      (omega int_laws)

-- `add_order` puts a node that is not in the queue at its end, while the count stays below 2 ^ 64; the
-- links, the total quantity and the count are right again.
pub add_order-IsQueue :
    (node : ℕ) (l : PriceLevel) (s : Store) (xs : List ℕ)
    → IsQueue s l xs
    → NotIn node xs
    → length xs + 1 < 2 ^ 64
    → IsQueue (add_order node l s).1 (add_order node l s).0 (xs ++ node ∷ [])
unfolding add_order
add_order-IsQueue node l s xs v ni small = record {
  head = head-add_order node l s xs v.head v.tail;
  tail = ground (arith, last_or-snoc none xs node);
  links =
      rw (add_order-appended node l s xs v.tail) (appended-Links node s xs v.links v.distinct ni);
  distinct = Distinct-snoc xs node v.distinct ni;
  total = total-add_order node l s xs v.total;
  counted = ground (arith, v.counted, length-append xs (node ∷ []));
  small = omega (arith, length-append xs (node ∷ []), small);
}
