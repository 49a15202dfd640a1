-- ===== src/OrderBook/Locate.antt =====
-- The place of a resting order on a side: its level, its neighbours, and the side without it.
use hftperformance.Prelude.{
  ℕ, ◌≡◌, sym, ◌∙◌, ap, subst, List, [], ◌∷◌, ◌++◌, some, true, false, arith, NotIn, In,
  NotIn-append_left, NotIn-append_right, In-append_cases, All, All_of_In, All-apart, inl, inr,
  concat, Apart, Apart-symm, Distinct, Distinct-append_right, Distinct-append_apart,
}
use mathlib.Core.List.{append_assoc}
use hftperformance.Prelude.Int.{ℤ, eqb_ℤ}
use hftperformance.Types.{Side, buy, sell}
use hftperformance.PriceLevel.{Store, PriceLevel}
use hftperformance.PriceLevel.Links.{Agree}
use hftperformance.OrderBook.Maps.{LevelMap, before, find_level, set_level, erase_level}
use hftperformance.OrderBook.Matching.Level.{Rests}
use hftperformance.OrderBook.Matching.Ladder.{IsLevel, IsSide, IsSide-Agree, IsLevel-Agree}

-- An entry of a list, with what stands before and behind it.
pub In-split : (n : ℕ) (xs : List ℕ) → In n xs → (ys : List ℕ) × (zs : List ℕ) × (xs ≡ ys ++ n ∷ zs)
In-split n [] i = absurd i
In-split n (x ∷ xs) (inl e) = ([], xs, ap (λ k. k ∷ xs) e)
In-split n (x ∷ xs) (inr i) = let (ys, zs, e) = In-split n xs i in (x ∷ ys, zs, ap (λ ws. x ∷ ws) e)

before_ne : (side : Side) (p q : ℤ) → before side q p ≡ true → eqb_ℤ q p ≡ false
unfolding before
before_ne buy p q h = ground arith
before_ne sell p q h = ground arith

module _ (P : ℤ → Type 0) (p : ℤ) where
  all-set_level :
      (v : PriceLevel) (m : LevelMap) → All (λ e. P e.0) m → All (λ e. P e.0) (set_level p v m)
  unfolding set_level
  all-set_level v [] h = tt
  all-set_level v ((q, l) ∷ m) h = ground (arith, h.0, h.1, all-set_level v m h.1)

  all-erase_level : (m : LevelMap) → All (λ e. P e.0) m → All (λ e. P e.0) (erase_level p m)
  unfolding erase_level
  all-erase_level [] h = tt
  all-erase_level ((q, l) ∷ m) h = ground (arith, h.0, h.1, all-erase_level m h.1)

-- The side `m` with the queues of the nodes `pre ++ post`.
pub record Without (u : Store) (side : Side) (m : LevelMap) (pre post : List ℕ) : Type 0 where
  pub queues : List (List ℕ)
  pub is_side : IsSide u side m queues
  pub nodes : concat queues ≡ pre ++ post

-- The node stands at price `p` in the queue of `level`, between `left` and `right`, and among all nodes
-- of the side between `pre` and `post`. Whatever changes at the nodes of that queue only and leaves
-- a right level, or an empty one, leaves the side right without the node.
pub record Located (s : Store) (side : Side) (node : ℕ) (p : ℤ) (m : LevelMap) (xss : List (List ℕ))
    : Type 0 where
  pub level : PriceLevel
  pub left : List ℕ
  pub right : List ℕ
  pub pre : List ℕ
  pub post : List ℕ
  pub found : find_level p m ≡ some level
  pub is_level : IsLevel s side p level (left ++ node ∷ right)
  pub beyond : (q : ℤ) → All (λ e. before side q e.0 ≡ true) m → before side q p ≡ true
  pub around : concat xss ≡ pre ++ node ∷ post
  pub inside : (n : ℕ) → NotIn n (concat xss) → NotIn n (left ++ node ∷ right)
  pub kept :
      (u : Store) (l : PriceLevel)
      → ((n : ℕ) → NotIn n (left ++ node ∷ right) → u n ≡ s n)
      → IsLevel u side p l (left ++ right)
      → Without u side (set_level p l m) pre post
  pub emptied :
      (u : Store)
      → ((n : ℕ) → NotIn n (left ++ node ∷ right) → u n ≡ s n)
      → left ++ right ≡ []
      → Without u side (erase_level p m) pre post

module _ (s : Store) (side : Side) (node : ℕ) (q : ℤ) (l : PriceLevel) (m : LevelMap)
    (xss : List (List ℕ)) where
  -- The node is in the first level.
  Located-here :
      (left right : List ℕ)
      → IsSide s side ((q, l) ∷ m) ((left ++ node ∷ right) ∷ xss)
      → Distinct ((left ++ node ∷ right) ++ concat xss)
      → Located s side node q ((q, l) ∷ m) ((left ++ node ∷ right) ∷ xss)
  unfolding find_level set_level erase_level
  Located-here left right w d = record {
    level = l;
    left = left;
    right = right;
    pre = left;
    post = right ++ concat xss;
    found = ground arith;
    is_level = w.0;
    beyond = λ r h. h.0;
    around = append_assoc left (node ∷ right) (concat xss);
    inside = λ n h. NotIn-append_left n (left ++ node ∷ right) (concat xss) h;
    kept = λ u v f g.
        subst (λ k. Without u side k left (right ++ concat xss)) (sym (at_head v))
          (record {
            queues = (left ++ right) ∷ xss;
            is_side = (g, w.1, tail_right u f);
            nodes = append_assoc left right (concat xss);
          });
    emptied = λ u f e.
        subst (λ k. Without u side k left (right ++ concat xss)) (sym gone)
          (record {
            queues = xss;
            is_side = tail_right u f;
            nodes = ap (λ ys. ys ++ concat xss) (sym e) ∙ append_assoc left right (concat xss);
          });
  }
    where
      at_head : (v : PriceLevel) → set_level q v ((q, l) ∷ m) ≡ (q, v) ∷ m
      at_head v = ground arith

      gone : erase_level q ((q, l) ∷ m) ≡ m
      gone = ground arith

      tail_right :
          (u : Store) → ((n : ℕ) → NotIn n (left ++ node ∷ right) → u n ≡ s n) → IsSide u side m xss
      tail_right u f =
          IsSide-Agree s u side m xss
            (All-apart (λ n. u n ≡ s n) (left ++ node ∷ right) (concat xss) f
              (Apart-symm (left ++ node ∷ right) (concat xss)
                (Distinct-append_apart (left ++ node ∷ right) (concat xss) d)))
            w.2

  -- The node is behind the first level.
  Located-behind :
      (p : ℤ) (xs : List ℕ)
      → IsSide s side ((q, l) ∷ m) (xs ∷ xss)
      → Distinct (xs ++ concat xss)
      → Located s side node p m xss
      → Located s side node p ((q, l) ∷ m) (xs ∷ xss)
  unfolding find_level set_level erase_level
  Located-behind p xs w d r = record {
    level = r.level;
    left = r.left;
    right = r.right;
    pre = xs ++ r.pre;
    post = r.post;
    found = ground (arith, other, r.found);
    is_level = r.is_level;
    beyond = λ t h. r.beyond t h.1;
    around = ap (λ ys. xs ++ ys) r.around ∙ sym (append_assoc xs r.pre (node ∷ r.post));
    inside = λ n h. r.inside n (NotIn-append_right n xs (concat xss) h);
    kept = λ u v f g.
        subst (λ k. Without u side k (xs ++ r.pre) r.post) (sym (set_behind v))
          (grown u (set_level p v m) f (all-set_level (λ k. before side q k ≡ true) p v m w.1)
            (r.kept u v f g));
    emptied = λ u f e.
        subst (λ k. Without u side k (xs ++ r.pre) r.post) (sym erase_behind)
          (grown u (erase_level p m) f (all-erase_level (λ k. before side q k ≡ true) p m w.1)
            (r.emptied u f e));
  }
    where
      other : eqb_ℤ q p ≡ false
      other = before_ne side p q (r.beyond q w.1)

      set_behind : (v : PriceLevel) → set_level p v ((q, l) ∷ m) ≡ (q, l) ∷ set_level p v m
      set_behind v = ground (arith, other)

      erase_behind : erase_level p ((q, l) ∷ m) ≡ (q, l) ∷ erase_level p m
      erase_behind = ground (arith, other)

      head_apart : Apart xs (concat xss)
      head_apart = Distinct-append_apart xs (concat xss) d

      agree :
          (u : Store) → ((n : ℕ) → NotIn n (r.left ++ node ∷ r.right) → u n ≡ s n) → Agree s u xs
      agree u f = All-apart (λ n. u n ≡ s n) (concat xss) xs (λ n h. f n (r.inside n h)) head_apart

      grown :
          (u : Store) (m' : LevelMap)
          → ((n : ℕ) → NotIn n (r.left ++ node ∷ r.right) → u n ≡ s n)
          → All (λ e. before side q e.0 ≡ true) m'
          → Without u side m' r.pre r.post
          → Without u side ((q, l) ∷ m') (xs ++ r.pre) r.post
      grown u m' f a k = record {
        queues = xs ∷ k.queues;
        is_side = (IsLevel-Agree s u side q l xs (agree u f) w.0, a, k.is_side);
        nodes = ap (λ ys. xs ++ ys) k.nodes ∙ sym (append_assoc xs r.pre r.post);
      }

-- Every node of a right side is located, at the price of its order.
pub locate :
    (s : Store) (side : Side) (node : ℕ) (m : LevelMap) (xss : List (List ℕ))
    → IsSide s side m xss
    → Distinct (concat xss)
    → In node (concat xss)
    → Located s side node (s node).order.price m xss
locate s side node m [] w d i = absurd i
locate s side node [] (xs ∷ xss) w d i = absurd w
locate s side node ((q, l) ∷ m) (xs ∷ xss) w d i = elim (In-append_cases node xs (concat xss) i) [
  | inl here ↦
      let (left, right, e) = In-split node xs here in
      let at_q : q ≡ (s node).order.price =
        sym (All_of_In (λ n. Rests side q (s n).order) node xs here w.0.resting).at_price in
      subst (λ p. Located s side node p ((q, l) ∷ m) (xs ∷ xss)) at_q
        (subst (λ ys. Located s side node q ((q, l) ∷ m) (ys ∷ xss)) (sym e)
          (Located-here s side node q l m xss left right
            (subst (λ ys. IsSide s side ((q, l) ∷ m) (ys ∷ xss)) e w)
            (subst (λ ys. Distinct (ys ++ concat xss)) e d)))
  | inr behind ↦
      Located-behind s side node q l m xss (s node).order.price xs w d
        (locate s side node m xss w.2 (Distinct-append_right xs (concat xss) d) behind)
]
