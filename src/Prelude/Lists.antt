-- ===== src/Prelude/Lists.antt =====
-- Lists measured by native numbers, and predicates on lists by recursion.
use Prim.Native.Nat.{ℕ, suc, ◌+◌}
use mathlib.Core.Path.{◌≡◌, refl, sym, subst, ◌∙◌}
use mathlib.Core.Logic.{◌≢◌, ◌⊎◌, inl, inr}
use mathlib.Core.List.{List, [], ◌∷◌, ◌++◌}
use mathlib.Core.Option.{Option, none, some}
use native.Mathlib.Omega.{arith}

module _ {ℓ} {A : Type ℓ} where
  abbrev pub length : List A → ℕ
  length [] = 0
  length (x ∷ xs) = suc (length xs)

  abbrev pub head? : List A → Option A
  head? [] = none
  head? (x ∷ xs) = some x

  pub length-append : (xs ys : List A) → length (xs ++ ys) ≡ length xs + length ys
  length-append [] ys = omega arith
  length-append (x ∷ xs) ys = omega (arith, length-append xs ys)

module _ {ℓ κ} {A : Type ℓ} where
  abbrev pub All : (A → Type κ) → List A → Type κ
  All P [] = Unit
  All P (x ∷ xs) = P x × All P xs

  pub All-append : (P : A → Type κ) (xs ys : List A) → All P xs → All P ys → All P (xs ++ ys)
  All-append P [] ys hx hy = hy
  All-append P (x ∷ xs) ys hx hy = (hx.0, All-append P xs ys hx.1 hy)

  pub All-append_left : (P : A → Type κ) (xs ys : List A) → All P (xs ++ ys) → All P xs
  All-append_left P [] ys h = tt
  All-append_left P (x ∷ xs) ys h = (h.0, All-append_left P xs ys h.1)

  pub All-append_right : (P : A → Type κ) (xs ys : List A) → All P (xs ++ ys) → All P ys
  All-append_right P [] ys h = h
  All-append_right P (x ∷ xs) ys h = All-append_right P xs ys h.1

module _ {ℓ κ ι} {A : Type ℓ} where
  pub All-imp :
      (P : A → Type κ) (Q : A → Type ι)
      → ((a : A) → P a → Q a)
      → (xs : List A) → All P xs
      → All Q xs
  All-imp P Q f [] h = tt
  All-imp P Q f (x ∷ xs) h = (f x h.0, All-imp P Q f xs h.1)

-- No entry of the list is `n`.
abbrev pub NotIn : ℕ → List ℕ → Type 0
NotIn n [] = Unit
NotIn n (x ∷ xs) = (x ≢ n) × NotIn n xs

-- No entry occurs twice.
abbrev pub Distinct : List ℕ → Type 0
Distinct [] = Unit
Distinct (x ∷ xs) = NotIn x xs × Distinct xs

-- Two lists have no entry in common.
abbrev pub Apart : List ℕ → List ℕ → Type 0
Apart [] ys = Unit
Apart (x ∷ xs) ys = NotIn x ys × Apart xs ys

pub NotIn-append : (n : ℕ) (xs ys : List ℕ) → NotIn n xs → NotIn n ys → NotIn n (xs ++ ys)
NotIn-append n [] ys hx hy = hy
NotIn-append n (x ∷ xs) ys hx hy = (hx.0, NotIn-append n xs ys hx.1 hy)

pub NotIn-append_left : (n : ℕ) (xs ys : List ℕ) → NotIn n (xs ++ ys) → NotIn n xs
NotIn-append_left n [] ys h = tt
NotIn-append_left n (x ∷ xs) ys h = (h.0, NotIn-append_left n xs ys h.1)

pub NotIn-append_right : (n : ℕ) (xs ys : List ℕ) → NotIn n (xs ++ ys) → NotIn n ys
NotIn-append_right n [] ys h = h
NotIn-append_right n (x ∷ xs) ys h = NotIn-append_right n xs ys h.1

pub Distinct-append_left : (xs ys : List ℕ) → Distinct (xs ++ ys) → Distinct xs
Distinct-append_left [] ys h = tt
Distinct-append_left (x ∷ xs) ys h = (NotIn-append_left x xs ys h.0, Distinct-append_left xs ys h.1)

pub Distinct-append_right : (xs ys : List ℕ) → Distinct (xs ++ ys) → Distinct ys
Distinct-append_right [] ys h = h
Distinct-append_right (x ∷ xs) ys h = Distinct-append_right xs ys h.1

pub Distinct-append_apart : (xs ys : List ℕ) → Distinct (xs ++ ys) → Apart xs ys
Distinct-append_apart [] ys h = tt
Distinct-append_apart (x ∷ xs) ys h =
    (NotIn-append_right x xs ys h.0, Distinct-append_apart xs ys h.1)

pub Distinct-append :
    (xs ys : List ℕ) → Distinct xs → Distinct ys → Apart xs ys → Distinct (xs ++ ys)
Distinct-append [] ys hx hy a = hy
Distinct-append (x ∷ xs) ys hx hy a =
    (NotIn-append x xs ys hx.0 a.0, Distinct-append xs ys hx.1 hy a.1)

pub Apart-cons : (x : ℕ) (xs ys : List ℕ) → NotIn x xs → Apart xs ys → Apart xs (x ∷ ys)
Apart-cons x [] ys h a = tt
Apart-cons x (y ∷ xs) ys h a = ((λ e. h.0 (sym e), a.0), Apart-cons x xs ys h.1 a.1)

Apart-nil : (xs : List ℕ) → Apart xs []
Apart-nil [] = tt
Apart-nil (x ∷ xs) = (tt, Apart-nil xs)

pub Apart-symm : (xs ys : List ℕ) → Apart xs ys → Apart ys xs
Apart-symm [] ys a = Apart-nil ys
Apart-symm (x ∷ xs) ys a = Apart-cons x ys xs a.0 (Apart-symm xs ys a.1)

pub Apart-append_left : (xs ys zs : List ℕ) → Apart (xs ++ ys) zs → Apart xs zs
Apart-append_left [] ys zs a = tt
Apart-append_left (x ∷ xs) ys zs a = (a.0, Apart-append_left xs ys zs a.1)

pub Apart-append_right : (xs ys zs : List ℕ) → Apart (xs ++ ys) zs → Apart ys zs
Apart-append_right [] ys zs a = a
Apart-append_right (x ∷ xs) ys zs a = Apart-append_right xs ys zs a.1

pub Apart-append : (xs ys zs : List ℕ) → Apart xs zs → Apart ys zs → Apart (xs ++ ys) zs
Apart-append [] ys zs ax ay = ay
Apart-append (x ∷ xs) ys zs ax ay = (ax.0, Apart-append xs ys zs ax.1 ay)

-- What holds of every number outside `xs` holds of the entries of a list apart from it.
pub All-apart {κ} :
    (P : ℕ → Type κ) (xs ys : List ℕ) → ((n : ℕ) → NotIn n xs → P n) → Apart ys xs → All P ys
All-apart P xs [] f a = tt
All-apart P xs (y ∷ ys) f a = (f y a.0, All-apart P xs ys f a.1)

-- `n` is an entry of the list.
abbrev pub In : ℕ → List ℕ → Type 0
In n [] = ⊥
In n (x ∷ xs) = (x ≡ n) ⊎ In n xs

pub In-append_left : (n : ℕ) (xs ys : List ℕ) → In n xs → In n (xs ++ ys)
In-append_left n [] ys h = absurd h
In-append_left n (x ∷ xs) ys (inl e) = inl e
In-append_left n (x ∷ xs) ys (inr h) = inr (In-append_left n xs ys h)

pub In-append_right : (n : ℕ) (xs ys : List ℕ) → In n ys → In n (xs ++ ys)
In-append_right n [] ys h = h
In-append_right n (x ∷ xs) ys h = inr (In-append_right n xs ys h)

pub In-append_cases : (n : ℕ) (xs ys : List ℕ) → In n (xs ++ ys) → In n xs ⊎ In n ys
In-append_cases n [] ys h = inr h
In-append_cases n (x ∷ xs) ys (inl e) = inl (inl e)
In-append_cases n (x ∷ xs) ys (inr h) = elim (In-append_cases n xs ys h) [
  | inl h' ↦ inl (inr h')
  | inr h' ↦ inr h'
]

-- An entry other than the one taken out is still there.
pub In-remove : (n p : ℕ) (xs ys : List ℕ) → In n (xs ++ p ∷ ys) → p ≢ n → In n (xs ++ ys)
In-remove n p [] ys (inl e) h = absurd (h e)
In-remove n p [] ys (inr i) h = i
In-remove n p (x ∷ xs) ys (inl e) h = inl e
In-remove n p (x ∷ xs) ys (inr i) h = inr (In-remove n p xs ys i h)

pub In-middle : (p : ℕ) (xs ys : List ℕ) → In p (xs ++ p ∷ ys)
In-middle p [] ys = inl refl
In-middle p (x ∷ xs) ys = inr (In-middle p xs ys)

pub NotIn-of_In : (n m : ℕ) (xs : List ℕ) → In n xs → NotIn m xs → n ≢ m
NotIn-of_In n m [] i h = absurd i
NotIn-of_In n m (x ∷ xs) (inl e) h = λ e'. h.0 (e ∙ e')
NotIn-of_In n m (x ∷ xs) (inr i) h = NotIn-of_In n m xs i h.1

pub All_of_In {κ} : (P : ℕ → Type κ) (n : ℕ) (xs : List ℕ) → In n xs → All P xs → P n
All_of_In P n [] i h = absurd i
All_of_In P n (x ∷ xs) (inl e) h = subst P e h.0
All_of_In P n (x ∷ xs) (inr i) h = All_of_In P n xs i h.1

pub All_from_In {κ} : (P : ℕ → Type κ) (xs : List ℕ) → ((n : ℕ) → In n xs → P n) → All P xs
All_from_In P [] f = tt
All_from_In P (x ∷ xs) f = (f x (inl refl), All_from_In P xs (λ n i. f n (inr i)))

-- In a list without repetition, the other entries differ from the one in the middle.
pub Distinct-middle : (xs ys : List ℕ) (n : ℕ) → Distinct (xs ++ n ∷ ys) → NotIn n (xs ++ ys)
Distinct-middle [] ys n d = d.0
Distinct-middle (x ∷ xs) ys n d =
    ((λ e. (NotIn-append_right x xs (n ∷ ys) d.0).0 (sym e)), Distinct-middle xs ys n d.1)

pub NotIn-remove : (n p : ℕ) (xs ys : List ℕ) → NotIn n (xs ++ p ∷ ys) → NotIn n (xs ++ ys)
NotIn-remove n p [] ys h = h.1
NotIn-remove n p (x ∷ xs) ys h = (h.0, NotIn-remove n p xs ys h.1)

pub Distinct-remove : (xs ys : List ℕ) (n : ℕ) → Distinct (xs ++ n ∷ ys) → Distinct (xs ++ ys)
Distinct-remove [] ys n d = d.1
Distinct-remove (x ∷ xs) ys n d = (NotIn-remove x n xs ys d.0, Distinct-remove xs ys n d.1)

pub All-remove {κ} :
    (P : ℕ → Type κ) (xs ys : List ℕ) (n : ℕ) → All P (xs ++ n ∷ ys) → All P (xs ++ ys)
All-remove P [] ys n h = h.1
All-remove P (x ∷ xs) ys n h = (h.0, All-remove P xs ys n h.1)

pub All-middle {κ} : (P : ℕ → Type κ) (xs ys : List ℕ) (n : ℕ) → All P (xs ++ n ∷ ys) → P n
All-middle P [] ys n h = h.0
All-middle P (x ∷ xs) ys n h = All-middle P xs ys n h.1

pub Apart-middle : (xs ys zs : List ℕ) (n : ℕ) → Apart (xs ++ n ∷ ys) zs → NotIn n zs
Apart-middle [] ys zs n h = h.0
Apart-middle (x ∷ xs) ys zs n h = Apart-middle xs ys zs n h.1

pub Apart-remove : (xs ys zs : List ℕ) (n : ℕ) → Apart (xs ++ n ∷ ys) zs → Apart (xs ++ ys) zs
Apart-remove [] ys zs n h = h.1
Apart-remove (x ∷ xs) ys zs n h = (h.0, Apart-remove xs ys zs n h.1)

pub length-middle {ℓ} :
    {A : Type ℓ} (xs ys : List A) (n : A) → length (xs ++ n ∷ ys) ≡ length (xs ++ ys) + 1
length-middle [] ys n = omega arith
length-middle (x ∷ xs) ys n = omega (arith, length-middle xs ys n)

abbrev pub concat {ℓ} : {A : Type ℓ} → List (List A) → List A
concat [] = []
concat (xs ∷ xss) = xs ++ concat xss

pub List-cases {ℓ} :
    {A : Type ℓ} (xs : List A) → (xs ≡ []) ⊎ ((x : A) × (ys : List A) × (xs ≡ x ∷ ys))
List-cases [] = inl refl
List-cases (x ∷ ys) = inr (x, ys, refl)
