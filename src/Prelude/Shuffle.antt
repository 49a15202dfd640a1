-- ===== src/Prelude/Shuffle.antt =====
-- Rearrangements of lists of numbers, and what they keep.
use Prim.Native.Nat.{ℕ, suc}
use mathlib.Core.Path.{◌≡◌, refl, sym, ◌∙◌, ap, subst}
use mathlib.Core.Logic.{inl, inr}
use mathlib.Core.List.{List, [], ◌∷◌, ◌++◌, append-nil}
use hftperformance.Prelude.Lists.{length, All, In, NotIn, Distinct, Apart}

pub data Shuffle : List ℕ → List ℕ → Type 0 where
  same : {xs : List ℕ} → Shuffle xs xs
  skip : {xs ys : List ℕ} (x : ℕ) → Shuffle xs ys → Shuffle (x ∷ xs) (x ∷ ys)
  flip : {xs : List ℕ} (x y : ℕ) → Shuffle (x ∷ y ∷ xs) (y ∷ x ∷ xs)
  after : {xs ys zs : List ℕ} → Shuffle xs ys → Shuffle ys zs → Shuffle xs zs

pub Shuffle-symm : {xs ys : List ℕ} → Shuffle xs ys → Shuffle ys xs
Shuffle-symm same = same
Shuffle-symm (skip x s) = skip x (Shuffle-symm s)
Shuffle-symm (flip x y) = flip y x
Shuffle-symm (after s t) = after (Shuffle-symm t) (Shuffle-symm s)

pub Shuffle-middle : (x : ℕ) (xs ys : List ℕ) → Shuffle (x ∷ xs ++ ys) (xs ++ x ∷ ys)
Shuffle-middle x [] ys = same
Shuffle-middle x (y ∷ xs) ys = after (flip x y) (skip y (Shuffle-middle x xs ys))

pub Shuffle-comm : (xs ys : List ℕ) → Shuffle (xs ++ ys) (ys ++ xs)
Shuffle-comm [] ys = subst (λ zs. Shuffle ys zs) (sym (append-nil ys)) same
Shuffle-comm (x ∷ xs) ys = after (skip x (Shuffle-comm xs ys)) (Shuffle-middle x ys xs)

pub Shuffle-left : (zs : List ℕ) {xs ys : List ℕ} → Shuffle xs ys → Shuffle (zs ++ xs) (zs ++ ys)
Shuffle-left [] s = s
Shuffle-left (z ∷ zs) s = skip z (Shuffle-left zs s)

pub Shuffle-right : {xs ys : List ℕ} (zs : List ℕ) → Shuffle xs ys → Shuffle (xs ++ zs) (ys ++ zs)
Shuffle-right zs same = same
Shuffle-right zs (skip x s) = skip x (Shuffle-right zs s)
Shuffle-right zs (flip x y) = flip x y
Shuffle-right zs (after s t) = after (Shuffle-right zs s) (Shuffle-right zs t)

pub In-Shuffle : (n : ℕ) {xs ys : List ℕ} → Shuffle xs ys → In n xs → In n ys
In-Shuffle n same i = i
In-Shuffle n (skip x s) (inl e) = inl e
In-Shuffle n (skip x s) (inr i) = inr (In-Shuffle n s i)
In-Shuffle n (flip x y) (inl e) = inr (inl e)
In-Shuffle n (flip x y) (inr (inl e)) = inl e
In-Shuffle n (flip x y) (inr (inr i)) = inr (inr i)
In-Shuffle n (after s t) i = In-Shuffle n t (In-Shuffle n s i)

pub All-shuffle {κ} : (P : ℕ → Type κ) {xs ys : List ℕ} → Shuffle xs ys → All P xs → All P ys
All-shuffle P same h = h
All-shuffle P (skip x s) h = (h.0, All-shuffle P s h.1)
All-shuffle P (flip x y) h = (h.1.0, (h.0, h.1.1))
All-shuffle P (after s t) h = All-shuffle P t (All-shuffle P s h)

pub NotIn-Shuffle : (n : ℕ) {xs ys : List ℕ} → Shuffle xs ys → NotIn n xs → NotIn n ys
NotIn-Shuffle n same h = h
NotIn-Shuffle n (skip x s) h = (h.0, NotIn-Shuffle n s h.1)
NotIn-Shuffle n (flip x y) h = (h.1.0, (h.0, h.1.1))
NotIn-Shuffle n (after s t) h = NotIn-Shuffle n t (NotIn-Shuffle n s h)

pub Apart-shuffle : (zs : List ℕ) {xs ys : List ℕ} → Shuffle xs ys → Apart xs zs → Apart ys zs
Apart-shuffle zs same h = h
Apart-shuffle zs (skip x s) h = (h.0, Apart-shuffle zs s h.1)
Apart-shuffle zs (flip x y) h = (h.1.0, (h.0, h.1.1))
Apart-shuffle zs (after s t) h = Apart-shuffle zs t (Apart-shuffle zs s h)

pub Distinct-Shuffle : {xs ys : List ℕ} → Shuffle xs ys → Distinct xs → Distinct ys
Distinct-Shuffle same d = d
Distinct-Shuffle (skip x s) d = (NotIn-Shuffle x s d.0, Distinct-Shuffle s d.1)
Distinct-Shuffle (flip x y) d = (((λ e. d.0.0 (sym e)), d.1.0), (d.0.1, d.1.1))
Distinct-Shuffle (after s t) d = Distinct-Shuffle t (Distinct-Shuffle s d)

pub length-Shuffle : {xs ys : List ℕ} → Shuffle xs ys → length ys ≡ length xs
length-Shuffle same = refl
length-Shuffle (skip x s) = ap suc (length-Shuffle s)
length-Shuffle (flip x y) = refl
length-Shuffle (after s t) = length-Shuffle t ∙ length-Shuffle s
