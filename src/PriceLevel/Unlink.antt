-- ===== src/PriceLevel/Unlink.antt =====
-- `remove_order`: its writes, and the links that it leaves.
use hftperformance.Prelude.{
  ℕ, ◌≡◌, sym, ◌∙◌, List, [], ◌∷◌, ◌++◌, Option, none, some, arith, NotIn, Distinct, Apart, update,
  update_ne, NotIn-append, NotIn-append_left, NotIn-append_right, Distinct-append_left,
  Distinct-append_right, Distinct-append_apart, Apart-symm, Distinct-middle,
}
use hftperformance.PriceLevel.{Store, PriceLevel, unlink_prev, unlink_next, uncount, remove_order}
use hftperformance.PriceLevel.Links.{
  first_or, last_or, Links, set_next?, set_prev?, Agree, Links-Agree, Agree-update, Links-append,
  Links-append_left, Links-append_right, set_prev-first_ne, set_next-none_last_ne,
  Links-set_next_none_last, Links-set_prev_first,
}
use hftperformance.PriceLevel.Queue.{IsQueue}

-- The three writes of `remove_order`, at a node between `xs` and `ys`.
abbrev skipped : Store → List ℕ → List ℕ → Store
skipped s xs ys =
    set_prev? (set_next? s (last_or none xs) (first_or none ys)) (first_or none ys)
      (last_or none xs)

abbrev removed : ℕ → Store → List ℕ → List ℕ → Store
removed node s xs ys =
    update (skipped s xs ys) node (record (skipped s xs ys node) { prev = none; next = none })

-- The level and the store after the first conditional.
remove_order-store :
    (node : ℕ) (l : PriceLevel) (s : Store)
    → let s1 = set_next? s (s node).prev (s node).next in
      let s2 = set_prev? s1 (s1 node).next (s1 node).prev in
      (remove_order node l s).1 ≡ update s2 node (record (s2 node) { prev = none; next = none })
unfolding remove_order
remove_order-store node l s = ground arith

order-unlink_prev :
    (node : ℕ) (l : PriceLevel) (s : Store) (m : ℕ)
    → ((unlink_prev node l s).1 m).order ≡ (s m).order
unfolding unlink_prev
order-unlink_prev node l s m = ground arith

order-unlink_next :
    (node : ℕ) (l : PriceLevel) (s : Store) (m : ℕ)
    → ((unlink_next node l s).1 m).order ≡ (s m).order
unfolding unlink_next
order-unlink_next node l s m = ground arith

order-clear_links :
    (node : ℕ) (s : Store) (m : ℕ)
    → (update s node (record (s node) { prev = none; next = none }) m).order ≡ (s m).order
order-clear_links node s m = ground arith

-- Removing changes no order.
pub order-remove_order :
    (node : ℕ) (l : PriceLevel) (s : Store) (m : ℕ)
    → ((remove_order node l s).1 m).order ≡ (s m).order
unfolding remove_order
order-remove_order node l s m =
    let r1 = unlink_prev node (uncount node l s) s in
    let r2 = unlink_next node r1.0 r1.1 in
    order-clear_links node r2.1 m
    ∙ order-unlink_next node r1.0 r1.1 m
    ∙ order-unlink_prev node (uncount node l s) s m

-- A node between `xs` and `ys`, and the two segments round it.
pub record Between (s : Store) (node : ℕ) (xs ys : List ℕ) : Type 0 where
  pub prev : (s node).prev ≡ last_or none xs
  pub next : (s node).next ≡ first_or none ys
  pub left : Links s none xs (some node)
  pub right : Links s (some node) ys none
  pub node_left : NotIn node xs
  pub node_right : NotIn node ys
  pub distinct_left : Distinct xs
  pub distinct_right : Distinct ys
  pub apart : Apart xs ys

pub Apart-uncons : (xs ys : List ℕ) (n : ℕ) → Apart xs (n ∷ ys) → Apart xs ys
Apart-uncons [] ys n a = tt
Apart-uncons (x ∷ xs) ys n a = (a.0.1, Apart-uncons xs ys n a.1)

pub Between-of_IsQueue :
    (s : Store) (node : ℕ) (xs ys : List ℕ)
    → Links s none (xs ++ node ∷ ys) none
    → Distinct (xs ++ node ∷ ys)
    → Between s node xs ys
Between-of_IsQueue s node xs ys h d = record {
  prev = (Links-append_right s none xs (node ∷ ys) none h).0;
  next = (Links-append_right s none xs (node ∷ ys) none h).1;
  left = Links-append_left s none xs (node ∷ ys) none h;
  right = (Links-append_right s none xs (node ∷ ys) none h).2;
  node_left = NotIn-append_left node xs ys (Distinct-middle xs ys node d);
  node_right = (Distinct-append_right xs (node ∷ ys) d).0;
  distinct_left = Distinct-append_left xs (node ∷ ys) d;
  distinct_right = (Distinct-append_right xs (node ∷ ys) d).1;
  apart = Apart-uncons xs ys node (Distinct-append_apart xs (node ∷ ys) d);
}

pub remove_order-removed :
    (node : ℕ) (l : PriceLevel) (s : Store) (xs ys : List ℕ)
    → Between s node xs ys
    → (remove_order node l s).1 ≡ removed node s xs ys
remove_order-removed node l s xs ys b =
    remove_order-store node l s ∙ rw (b.prev, b.next, same, b.prev, b.next)
  where
    same : set_next? s (last_or none xs) (first_or none ys) node ≡ s node
    same = set_next-none_last_ne s (first_or none ys) xs node b.node_left

Agree-skip_left :
    (s : Store) (v : Option ℕ) (xs ys : List ℕ)
    → Apart ys xs
    → Agree s (set_next? s (last_or none xs) v) ys
Agree-skip_left s v xs [] a = tt
Agree-skip_left s v xs (y ∷ ys) a =
    (set_next-none_last_ne s v xs y a.0, Agree-skip_left s v xs ys a.1)

Agree-skip_right :
    (s : Store) (v : Option ℕ) (xs ys : List ℕ)
    → Apart xs ys
    → Agree s (set_prev? s (first_or none ys) v) xs
Agree-skip_right s v [] ys a = tt
Agree-skip_right s v (x ∷ xs) ys a =
    (set_prev-first_ne s v ys x a.0, Agree-skip_right s v xs ys a.1)

skipped_ne :
    (s : Store) (xs ys : List ℕ) (m : ℕ) → NotIn m xs → NotIn m ys → skipped s xs ys m ≡ s m
skipped_ne s xs ys m hx hy =
    set_prev-first_ne _ (last_or none xs) ys m hy
    ∙ set_next-none_last_ne s (first_or none ys) xs m hx

-- `remove_order` writes only the node and its neighbours.
pub remove_order_ne :
    (node : ℕ) (l : PriceLevel) (s : Store) (xs ys : List ℕ) (m : ℕ)
    → IsQueue s l (xs ++ node ∷ ys)
    → NotIn m (xs ++ node ∷ ys)
    → (remove_order node l s).1 m ≡ s m
remove_order_ne node l s xs ys m v h =
    rw (remove_order-removed node l s xs ys (Between-of_IsQueue s node xs ys v.links v.distinct)) (
      update_ne (skipped s xs ys) _ (λ e. (NotIn-append_right m xs (node ∷ ys) h).0 (sym e))
      ∙ skipped_ne s xs ys m (NotIn-append_left m xs (node ∷ ys) h)
          (NotIn-append_right m xs (node ∷ ys) h).1)

skipped-left :
    (s : Store) (node : ℕ) (xs ys : List ℕ)
    → Between s node xs ys
    → Links (skipped s xs ys) none xs (first_or none ys)
skipped-left s node xs ys b =
    Links-Agree _ (skipped s xs ys) none xs _ (Agree-skip_right _ (last_or none xs) xs ys b.apart)
      (Links-set_next_none_last s none (first_or none ys) (some node) xs b.distinct_left b.left)

skipped-right :
    (s : Store) (node : ℕ) (xs ys : List ℕ)
    → Between s node xs ys
    → Links (skipped s xs ys) (last_or none xs) ys none
skipped-right s node xs ys b =
    Links-set_prev_first _ (some node) (last_or none xs) none ys b.distinct_right (
      Links-Agree s _ (some node) ys none
        (Agree-skip_left s (first_or none ys) xs ys (Apart-symm xs ys b.apart)) b.right)

pub removed-Links :
    (s : Store) (node : ℕ) (xs ys : List ℕ)
    → Between s node xs ys
    → Links (removed node s xs ys) none (xs ++ ys) none
removed-Links s node xs ys b =
    Links-Agree (skipped s xs ys) (removed node s xs ys) none (xs ++ ys) none
      (Agree-update (skipped s xs ys) node _ (xs ++ ys)
        (NotIn-append node xs ys b.node_left b.node_right))
      (Links-append (skipped s xs ys) none xs ys none (skipped-left s node xs ys b)
        (skipped-right s node xs ys b))
