-- ===== src/OrderBook/Insert.antt =====
-- Adding a node to a side of the book: `try_emplace` and `PriceLevel::add_order`.
use hftperformance.Prelude.{
  ℕ, ◌≡◌, sym, ◌∙◌, subst, ◌≢◌, List, [], ◌∷◌, ◌++◌, some, true, false, arith, NotIn,
  NotIn-append_left, NotIn-append_right, All, if◌then◌else◌, inl, inr, concat, Bool-cases, Apart,
  Distinct, Distinct-append_right, Distinct-append_apart, Apart-symm,
}
use hftperformance.Prelude.Int.{ℤ, eqb_ℤ}
use hftperformance.Types.{Side, buy, sell}
use hftperformance.PriceLevel.{Store, PriceLevel, make_level}
use hftperformance.PriceLevel.Links.{Agree}
use hftperformance.OrderBook.Maps.{LevelMap, before, find_level, set_level, emplace_level}
use hftperformance.OrderBook.Matching.Ladder.{IsLevel, IsSide, IsSide-Agree, IsLevel-Agree}

-- The level that a new order at price `p` joins, and the nodes that it holds.
abbrev pub level_at : Side → ℤ → LevelMap → PriceLevel
level_at side p [] = make_level p
level_at side p ((q, l) ∷ m) =
    if eqb_ℤ q p then l else if before side p q then make_level p else level_at side p m

abbrev pub nodes_at : Side → ℤ → LevelMap → List (List ℕ) → List ℕ
nodes_at side p [] xss = []
nodes_at side p (e ∷ m) [] = []
nodes_at side p ((q, l) ∷ m) (xs ∷ xss) =
    if eqb_ℤ q p then xs else if before side p q then [] else nodes_at side p m xss

-- The queues of the side with `node` added at price `p`.
abbrev pub nodes_with : Side → ℤ → ℕ → LevelMap → List (List ℕ) → List (List ℕ)
nodes_with side p node [] xss = (node ∷ []) ∷ []
nodes_with side p node (e ∷ m) [] = []
nodes_with side p node ((q, l) ∷ m) (xs ∷ xss) =
    if eqb_ℤ q p
    then (xs ++ node ∷ []) ∷ xss
    else if before side p q
    then (node ∷ []) ∷ xs ∷ xss
    else xs ∷ nodes_with side p node m xss

pub find_level-emplace :
    (side : Side) (p : ℤ) (m : LevelMap)
    → find_level p (emplace_level side p m) ≡ some (level_at side p m)
unfolding find_level emplace_level
find_level-emplace side p [] = ground arith
find_level-emplace side p ((q, l) ∷ m) = ground (arith, find_level-emplace side p m)

-- A price that is neither the one of an entry nor before it stands behind it.
before_total :
    (side : Side) (p q : ℤ) → eqb_ℤ q p ≡ false → before side p q ≡ false → before side q p ≡ true
unfolding before
before_total buy p q h k = ground arith
before_total sell p q h k = ground arith

before_trans :
    (side : Side) (p q r : ℤ)
    → before side p q ≡ true
    → before side q r ≡ true
    → before side p r ≡ true
unfolding before
before_trans buy p q r h k = ground arith
before_trans sell p q r h k = ground arith

all_before_trans :
    (side : Side) (p q : ℤ) (m : LevelMap)
    → before side p q ≡ true
    → All (λ e. before side q e.0 ≡ true) m
    → All (λ e. before side p e.0 ≡ true) m
all_before_trans side p q [] h a = tt
all_before_trans side p q ((r, l) ∷ m) h a =
    (before_trans side p q r h a.0, all_before_trans side p q m h a.1)

-- The map with the level `v` put at price `p`, where `try_emplace` makes room for it.
abbrev pub placed : Side → ℤ → PriceLevel → LevelMap → LevelMap
placed side p v m = set_level p v (emplace_level side p m)

module _ (side : Side) (p : ℤ) (v : PriceLevel) where
  placed-nil : placed side p v [] ≡ (p, v) ∷ []
  unfolding set_level emplace_level
  placed-nil = ground arith

  module _ (q : ℤ) (l : PriceLevel) (m : LevelMap) where
    placed-here : eqb_ℤ q p ≡ true → placed side p v ((q, l) ∷ m) ≡ (q, v) ∷ m
    unfolding set_level emplace_level
    placed-here e = ground (arith, e)

    placed-before :
        eqb_ℤ q p ≡ false
        → before side p q ≡ true
        → placed side p v ((q, l) ∷ m) ≡ (p, v) ∷ (q, l) ∷ m
    unfolding set_level emplace_level
    placed-before e b = ground (arith, e, b)

    placed-behind :
        eqb_ℤ q p ≡ false
        → before side p q ≡ false
        → placed side p v ((q, l) ∷ m) ≡ (q, l) ∷ placed side p v m
    unfolding set_level emplace_level
    placed-behind e b = ground (arith, e, b)

-- An entry at `p` stands where everything in front of the side and of `p` is in front of it.
all_before-placed :
    (side : Side) (p q : ℤ) (v : PriceLevel) (m : LevelMap)
    → before side q p ≡ true
    → All (λ e. before side q e.0 ≡ true) m
    → All (λ e. before side q e.0 ≡ true) (placed side p v m)
all_before-placed side p q v [] h a = rw (placed-nil side p v) (h, tt)
all_before-placed side p q v ((r, l) ∷ m) h a = elim (Bool-cases (eqb_ℤ r p)) [
  | inl e ↦ rw (placed-here side p v r l m e) a
  | inr n ↦ elim (Bool-cases (before side p r)) [
    | inl b ↦ rw (placed-before side p v r l m n b) (h, a)
    | inr b ↦ rw (placed-behind side p v r l m n b) (a.0, all_before-placed side p q v m h a.1)
  ]
]

pub NotIn-nodes_at :
    (side : Side) (p : ℤ) (m : LevelMap) (xss : List (List ℕ)) (n : ℕ)
    → NotIn n (concat xss)
    → NotIn n (nodes_at side p m xss)
NotIn-nodes_at side p [] xss n h = tt
NotIn-nodes_at side p (e ∷ m) [] n h = tt
NotIn-nodes_at side p ((q, l) ∷ m) (xs ∷ xss) n h = ground (
  arith,
  NotIn-append_left n xs (concat xss) h,
  NotIn-nodes_at side p m xss n (NotIn-append_right n xs (concat xss) h),
)

Apart-within : (xs ys zs : List ℕ) → ((n : ℕ) → NotIn n ys → NotIn n zs) → Apart xs ys → Apart xs zs
Apart-within [] ys zs f a = tt
Apart-within (x ∷ xs) ys zs f a = (f x a.0, Apart-within xs ys zs f a.1)

pub Agree-apart :
    (s t : Store) (node : ℕ) (zs : List ℕ)
    → ((n : ℕ) → n ≢ node → NotIn n zs → t n ≡ s n)
    → (ys : List ℕ) → NotIn node ys
    → Apart ys zs
    → Agree s t ys
Agree-apart s t node zs f [] h a = tt
Agree-apart s t node zs f (y ∷ ys) h a = (f y h.0 a.0, Agree-apart s t node zs f ys h.1 a.1)

-- The nodes at the price and the new queues, in the three cases.
module _ (side : Side) (p q : ℤ) (node : ℕ) (l : PriceLevel) (m : LevelMap) (xs : List ℕ)
    (xss : List (List ℕ)) where
  pub at_here :
      eqb_ℤ q p ≡ true
      → (nodes_at side p ((q, l) ∷ m) (xs ∷ xss) ≡ xs)
        × (nodes_with side p node ((q, l) ∷ m) (xs ∷ xss) ≡ (xs ++ node ∷ []) ∷ xss)
        × (q ≡ p)
  at_here e = (ground (arith, e), ground (arith, e), ground (arith, e))

  pub at_before :
      eqb_ℤ q p ≡ false
      → before side p q ≡ true
      → (nodes_at side p ((q, l) ∷ m) (xs ∷ xss) ≡ [])
        × (nodes_with side p node ((q, l) ∷ m) (xs ∷ xss) ≡ (node ∷ []) ∷ xs ∷ xss)
  at_before e b = (ground (arith, e, b), ground (arith, e, b))

  pub at_behind :
      eqb_ℤ q p ≡ false
      → before side p q ≡ false
      → (nodes_at side p ((q, l) ∷ m) (xs ∷ xss) ≡ nodes_at side p m xss)
        × (nodes_with side p node ((q, l) ∷ m) (xs ∷ xss) ≡ xs ∷ nodes_with side p node m xss)
  at_behind e b = (ground (arith, e, b), ground (arith, e, b))

Apart-nil_right : (xs : List ℕ) → Apart xs []
Apart-nil_right [] = tt
Apart-nil_right (x ∷ xs) = (tt, Apart-nil_right xs)

module _ (side : Side) (p : ℤ) (node : ℕ) (v : PriceLevel) (s t : Store) where
  -- The side with the grown level in its place is right again. `zs` are the nodes at the price.
  pub placed-IsSide :
      (m : LevelMap) (xss : List (List ℕ)) (zs : List ℕ)
      → nodes_at side p m xss ≡ zs
      → IsSide s side m xss
      → IsLevel t side p v (zs ++ node ∷ [])
      → ((n : ℕ) → n ≢ node → NotIn n zs → t n ≡ s n)
      → NotIn node (concat xss)
      → Distinct (concat xss)
      → IsSide t side (placed side p v m) (nodes_with side p node m xss)
  placed-IsSide [] [] zs z w g f h d =
      rw (placed-nil side p v)
        (subst (λ ys. IsLevel t side p v (ys ++ node ∷ [])) (sym z) g, tt, tt)
  placed-IsSide [] (xs ∷ xss) zs z w g f h d = absurd w
  placed-IsSide (e ∷ m) [] zs z w g f h d = absurd w
  placed-IsSide ((q, l) ∷ m) (xs ∷ xss) zs z w g f h d = elim (Bool-cases (eqb_ℤ q p)) [
    | inl e ↦
        let (z', nw, pq) = at_here side p q node l m xs xss e in
        let zx : zs ≡ xs = sym z ∙ z' in
        subst (λ ys. IsSide t side (placed side p v ((q, l) ∷ m)) ys) (sym nw)
          (rw (placed-here side p v q l m e) (
            subst (λ r. IsLevel t side r v (xs ++ node ∷ [])) (sym pq)
                (subst (λ ys. IsLevel t side p v (ys ++ node ∷ [])) zx g),
            w.1,
            IsSide-Agree s t side m xss
                (Agree-apart s t node zs f (concat xss) (NotIn-append_right node xs (concat xss) h)
                  (subst (λ ys. Apart (concat xss) ys) (sym zx)
                    (Apart-symm xs (concat xss) (Distinct-append_apart xs (concat xss) d))))
                w.2,
          ))
    | inr n ↦ elim (Bool-cases (before side p q)) [
      | inl b ↦
          let (z', nw) = at_before side p q node l m xs xss n b in
          let zx : zs ≡ [] = sym z ∙ z' in
          subst (λ ys. IsSide t side (placed side p v ((q, l) ∷ m)) ys) (sym nw)
            (rw (placed-before side p v q l m n b) (
              subst (λ ys. IsLevel t side p v (ys ++ node ∷ [])) zx g,
              (b, all_before_trans side p q m b w.1),
              IsSide-Agree s t side ((q, l) ∷ m) (xs ∷ xss)
                  (Agree-apart s t node zs f (concat (xs ∷ xss)) h (
                    subst (λ ys. Apart (concat (xs ∷ xss)) ys) (sym zx)
                      (Apart-nil_right (concat (xs ∷ xss)))))
                  w,
            ))
      | inr b ↦
          let (z', nw) = at_behind side p q node l m xs xss n b in
          let zx : zs ≡ nodes_at side p m xss = sym z ∙ z' in
          subst (λ ys. IsSide t side (placed side p v ((q, l) ∷ m)) ys) (sym nw)
            (rw (placed-behind side p v q l m n b) (
              IsLevel-Agree s t side q l xs
                  (Agree-apart s t node zs f xs (NotIn-append_left node xs (concat xss) h) (
                    Apart-within xs (concat xss) zs
                      (λ k hk. subst (λ ys. NotIn k ys) (sym zx) (NotIn-nodes_at side p m xss k hk))
                      (Distinct-append_apart xs (concat xss) d)))
                  w.0,
              all_before-placed side p q v m (before_total side p q n b) w.1,
              placed-IsSide m xss zs (sym zx) w.2 g f (NotIn-append_right node xs (concat xss) h)
                  (Distinct-append_right xs (concat xss) d),
            ))
    ]
  ]
