-- ===== src/OrderBook/Matching/Ladder.antt =====
-- One side of the book: its levels in the map's order, each with the queue that it links.
use hftperformance.Prelude.{ℕ, ◌≡◌, refl, ◌≢◌, List, [], ◌∷◌, ◌++◌, true, All, concat}
use mathlib.Core.Path.{ap₂}
use hftperformance.Prelude.Int.{ℤ}
use hftperformance.Types.{Side}
use hftperformance.PriceLevel.{Store, PriceLevel}
use hftperformance.PriceLevel.Links.{Agree}
use hftperformance.PriceLevel.Queue.{IsQueue, IsQueue-Agree}
use hftperformance.OrderBook.Maps.{LevelMap, before}
use hftperformance.OrderBook.Matching.Reference.{Resting}
use hftperformance.OrderBook.Matching.Level.{resting_of, view, Rests}

-- A level of the book: a queue of orders that rest at its price, and not an empty one.
pub record IsLevel (s : Store) (side : Side) (price : ℤ) (l : PriceLevel) (xs : List ℕ)
    : Type 0 where
  pub queue : IsQueue s l xs
  pub resting : All (λ n. Rests side price (s n).order) xs
  pub nonempty : xs ≢ []

-- The prices fall for the bids and rise for the asks, strictly.
abbrev pub IsSide : Store → Side → LevelMap → List (List ℕ) → Type 0
IsSide s side [] [] = Unit
IsSide s side [] (xs ∷ xss) = ⊥
IsSide s side (e ∷ m) [] = ⊥
IsSide s side ((price, l) ∷ m) (xs ∷ xss) =
    IsLevel s side price l xs × All (λ e. before side price e.0 ≡ true) m × IsSide s side m xss

-- A side as the reference sees it.
abbrev pub view_side : Store → LevelMap → List (List ℕ) → List (ℤ × List Resting)
view_side s [] xss = []
view_side s (e ∷ m) [] = []
view_side s ((price, l) ∷ m) (xs ∷ xss) = (price, view s xs) ∷ view_side s m xss

pub Agree-append_left : (s t : Store) (xs ys : List ℕ) → Agree s t (xs ++ ys) → Agree s t xs
Agree-append_left s t [] ys a = tt
Agree-append_left s t (x ∷ xs) ys a = (a.0, Agree-append_left s t xs ys a.1)

pub Agree-append_right : (s t : Store) (xs ys : List ℕ) → Agree s t (xs ++ ys) → Agree s t ys
Agree-append_right s t [] ys a = a
Agree-append_right s t (x ∷ xs) ys a = Agree-append_right s t xs ys a.1

resting-agree :
    (s t : Store) (side : Side) (price : ℤ) (xs : List ℕ)
    → Agree s t xs
    → All (λ n. Rests side price (s n).order) xs
    → All (λ n. Rests side price (t n).order) xs
resting-agree s t side price [] a r = tt
resting-agree s t side price (x ∷ xs) a r = (rw (a.0) r.0, resting-agree s t side price xs a.1 r.1)

pub view-Agree : (s t : Store) (xs : List ℕ) → Agree s t xs → view t xs ≡ view s xs
view-Agree s t [] a = refl
view-Agree s t (x ∷ xs) a = ap₂ (λ n vs. resting_of n.order ∷ vs) a.0 (view-Agree s t xs a.1)

pub IsLevel-Agree :
    (s t : Store) (side : Side) (price : ℤ) (l : PriceLevel) (xs : List ℕ)
    → Agree s t xs
    → IsLevel s side price l xs
    → IsLevel t side price l xs
IsLevel-Agree s t side price l xs a v = record {
  queue = IsQueue-Agree s t l xs a v.queue;
  resting = resting-agree s t side price xs a v.resting;
  nonempty = v.nonempty;
}

-- A side is not touched by what happens at other nodes.
pub IsSide-Agree :
    (s t : Store) (side : Side) (m : LevelMap) (xss : List (List ℕ))
    → Agree s t (concat xss)
    → IsSide s side m xss
    → IsSide t side m xss
IsSide-Agree s t side [] [] a v = tt
IsSide-Agree s t side [] (xs ∷ xss) a v = v
IsSide-Agree s t side (e ∷ m) [] a v = v
IsSide-Agree s t side ((price, l) ∷ m) (xs ∷ xss) a v = (
  IsLevel-Agree s t side price l xs (Agree-append_left s t xs (concat xss) a) v.0,
  v.1,
  IsSide-Agree s t side m xss (Agree-append_right s t xs (concat xss) a) v.2,
)

pub view_side-Agree :
    (s t : Store) (m : LevelMap) (xss : List (List ℕ))
    → Agree s t (concat xss)
    → view_side t m xss ≡ view_side s m xss
view_side-Agree s t [] xss a = refl
view_side-Agree s t (e ∷ m) [] a = refl
view_side-Agree s t ((price, l) ∷ m) (xs ∷ xss) a =
    ap₂ (λ vs ws. (price, vs) ∷ ws) (view-Agree s t xs (Agree-append_left s t xs (concat xss) a))
      (view_side-Agree s t m xss (Agree-append_right s t xs (concat xss) a))
