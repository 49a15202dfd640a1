-- ===== src/PriceLevel/Links.antt =====
-- Doubly linked segments of nodes in the store, and the writes that take a node out of one.
use hftperformance.Prelude.{
  ℕ, ◌≡◌, refl, sym, ◌∙◌, ap, List, [], ◌∷◌, ◌++◌, Option, none, some, All, NotIn, Distinct, update,
  update_self, update_ne,
}
use hftperformance.PriceLevel.{OrderNode, Store, set_next, set_prev}

-- The first and the last entry, or what stands behind and before an empty segment.
abbrev pub first_or : Option ℕ → List ℕ → Option ℕ
first_or q [] = q
first_or q (x ∷ xs) = some x

abbrev pub last_or : Option ℕ → List ℕ → Option ℕ
last_or p [] = p
last_or p (x ∷ xs) = last_or (some x) xs

-- The nodes `xs` are linked both ways, with `p` before and `q` behind them.
abbrev pub Links : Store → Option ℕ → List ℕ → Option ℕ → Type 0
Links s p [] q = Unit
Links s p (x ∷ xs) q = ((s x).prev ≡ p) × ((s x).next ≡ first_or q xs) × Links s (some x) xs q

-- Writes through a pointer that is known to be valid if it is not null.
abbrev pub set_next? : Store → Option ℕ → Option ℕ → Store
set_next? s none v = s
set_next? s (some t) v = set_next s t v

abbrev pub set_prev? : Store → Option ℕ → Option ℕ → Store
set_prev? s none v = s
set_prev? s (some t) v = set_prev s t v

-- The two stores hold the same nodes at `xs`.
abbrev pub Agree : Store → Store → List ℕ → Type 0
Agree s t xs = All (λ m. t m ≡ s m) xs

pub Links-Agree :
    (s t : Store) (p : Option ℕ) (xs : List ℕ) (q : Option ℕ)
    → Agree s t xs
    → Links s p xs q
    → Links t p xs q
Links-Agree s t p [] q a h = tt
Links-Agree s t p (x ∷ xs) q a h =
    (ap (λ n. n.prev) a.0 ∙ h.0, ap (λ n. n.next) a.0 ∙ h.1, Links-Agree s t (some x) xs q a.1 h.2)

pub Agree-update :
    (s : Store) (n : ℕ) (v : OrderNode) (xs : List ℕ) → NotIn n xs → Agree s (update s n v) xs
Agree-update s n v [] h = tt
Agree-update s n v (x ∷ xs) h = (update_ne s v h.0, Agree-update s n v xs h.1)

pub Agree-refl : (s : Store) (xs : List ℕ) → Agree s s xs
Agree-refl s [] = tt
Agree-refl s (x ∷ xs) = (refl, Agree-refl s xs)

first_or-append :
    (q : Option ℕ) (xs ys : List ℕ) → first_or q (xs ++ ys) ≡ first_or (first_or q ys) xs
first_or-append q [] ys = refl
first_or-append q (x ∷ xs) ys = refl

pub last_or-append :
    (p : Option ℕ) (xs ys : List ℕ) → last_or p (xs ++ ys) ≡ last_or (last_or p xs) ys
last_or-append p [] ys = refl
last_or-append p (x ∷ xs) ys = last_or-append (some x) xs ys

pub Links-append :
    (s : Store) (p : Option ℕ) (xs ys : List ℕ) (q : Option ℕ)
    → Links s p xs (first_or q ys)
    → Links s (last_or p xs) ys q
    → Links s p (xs ++ ys) q
Links-append s p [] ys q hx hy = hy
Links-append s p (x ∷ xs) ys q hx hy =
    (hx.0, hx.1 ∙ sym (first_or-append q xs ys), Links-append s (some x) xs ys q hx.2 hy)

pub Links-append_left :
    (s : Store) (p : Option ℕ) (xs ys : List ℕ) (q : Option ℕ)
    → Links s p (xs ++ ys) q
    → Links s p xs (first_or q ys)
Links-append_left s p [] ys q h = tt
Links-append_left s p (x ∷ xs) ys q h =
    (h.0, h.1 ∙ first_or-append q xs ys, Links-append_left s (some x) xs ys q h.2)

pub Links-append_right :
    (s : Store) (p : Option ℕ) (xs ys : List ℕ) (q : Option ℕ)
    → Links s p (xs ++ ys) q
    → Links s (last_or p xs) ys q
Links-append_right s p [] ys q h = h
Links-append_right s p (x ∷ xs) ys q h = Links-append_right s (some x) xs ys q h.2

-- A write at the last node of `xs` is not seen elsewhere.
pub set_next-last_ne :
    (s : Store) (p v : Option ℕ) (x : ℕ) (xs : List ℕ) (m : ℕ)
    → NotIn m (x ∷ xs)
    → set_next? s (last_or p (x ∷ xs)) v m ≡ s m
set_next-last_ne s p v x [] m h = update_ne s _ (λ e. h.0 (sym e))
set_next-last_ne s p v x (y ∷ xs) m h = set_next-last_ne s (some x) v y xs m h.1

-- Nor is the write of `prev` at the first node.
pub set_prev-first_ne :
    (s : Store) (v : Option ℕ) (xs : List ℕ) (m : ℕ)
    → NotIn m xs
    → set_prev? s (first_or none xs) v m ≡ s m
set_prev-first_ne s v [] m h = refl
set_prev-first_ne s v (x ∷ xs) m h = update_ne s _ (λ e. h.0 (sym e))

pub set_next-none_last_ne :
    (s : Store) (v : Option ℕ) (xs : List ℕ) (m : ℕ)
    → NotIn m xs
    → set_next? s (last_or none xs) v m ≡ s m
set_next-none_last_ne s v [] m h = refl
set_next-none_last_ne s v (x ∷ xs) m h = set_next-last_ne s none v x xs m h

-- Writing `next` at the last node changes what stands behind the segment.
pub Links-set_next_last :
    (s : Store) (p v q : Option ℕ) (x : ℕ) (xs : List ℕ)
    → Distinct (x ∷ xs)
    → Links s p (x ∷ xs) q
    → Links (set_next? s (last_or none (x ∷ xs)) v) p (x ∷ xs) v
Links-set_next_last s p v q x [] d h =
    (ap (λ n. n.prev) (update_self s x _) ∙ h.0, ap (λ n. n.next) (update_self s x _), tt)
Links-set_next_last s p v q x (y ∷ xs) d h = (
  ap (λ n. n.prev) same ∙ h.0,
  ap (λ n. n.next) same ∙ h.1,
  Links-set_next_last s (some x) v q y xs d.1 h.2,
)
  where
    same : set_next? s (last_or none (x ∷ y ∷ xs)) v x ≡ s x
    same = set_next-last_ne s (some x) v y xs x d.0

pub Links-set_next_none_last :
    (s : Store) (p v q : Option ℕ) (xs : List ℕ)
    → Distinct xs
    → Links s p xs q
    → Links (set_next? s (last_or none xs) v) p xs v
Links-set_next_none_last s p v q [] d h = tt
Links-set_next_none_last s p v q (x ∷ xs) d h = Links-set_next_last s p v q x xs d h

-- Writing `prev` at the first node changes what stands before the segment.
pub Links-set_prev_first :
    (s : Store) (p v q : Option ℕ) (xs : List ℕ)
    → Distinct xs
    → Links s p xs q
    → Links (set_prev? s (first_or none xs) v) v xs q
Links-set_prev_first s p v q [] d h = tt
Links-set_prev_first s p v q (x ∷ xs) d h = (
  ap (λ n. n.prev) (update_self s x _),
  ap (λ n. n.next) (update_self s x _) ∙ h.1,
  Links-Agree s _ (some x) xs q (Agree-update s x _ xs d.0) h.2,
)

-- Only the links matter of what the nodes hold.
pub Links-congr :
    (s t : Store)
    → ((m : ℕ) → ((t m).prev ≡ (s m).prev) × ((t m).next ≡ (s m).next))
    → (p : Option ℕ) (xs : List ℕ) (q : Option ℕ) → Links s p xs q
    → Links t p xs q
Links-congr s t f p [] q h = tt
Links-congr s t f p (x ∷ xs) q h =
    ((f x).0 ∙ h.0, (f x).1 ∙ h.1, Links-congr s t f (some x) xs q h.2)
