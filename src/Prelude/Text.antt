-- ===== src/Prelude/Text.antt =====
-- Strings as lists of bytes: literals, equality, and the searches that the parsers use.
use Prim.Native.Char.{code}
use Prim.Native.String.{String}
use Prim.Native.Nat.{ℕ}
use mathlib.Core.Path.{◌≡◌, refl}
use mathlib.Core.Logic.{◌≢◌, ◌↔◌, inl, inr}
use mathlib.Core.Bool.{Bool, true, false, ◌&&◌}
use mathlib.Core.List.{List, [], ◌∷◌, ◌++◌}
use mathlib.Core.Option.{Option, none, some}
use native.Mathlib.Omega.{arith}
use hftperformance.Prelude.Tests.{◌==◌, if◌then◌else◌, Bool-cases}
use hftperformance.Prelude.Lists.{All}

-- The bytes of an ASCII literal.
abbrev pub codes : String → List ℕ
codes String.[] = []
codes (String.◌∷◌ c s) = code c ∷ codes s

-- `==` of two strings.
unfoldable pub same_text : List ℕ → List ℕ → Bool
same_text [] [] = true
same_text [] (y ∷ ys) = false
same_text (x ∷ xs) [] = false
same_text (x ∷ xs) (y ∷ ys) = x == y && same_text xs ys

pub same_text_iff : (xs ys : List ℕ) → (same_text xs ys ≡ true) ↔ (xs ≡ ys)
unfolding same_text
same_text_iff [] [] = (λ e. refl, λ e. refl)
same_text_iff [] (y ∷ ys) = (λ e. cc, λ e. cc)
same_text_iff (x ∷ xs) [] = (λ e. cc, λ e. cc)
same_text_iff (x ∷ xs) (y ∷ ys) = ground (arith, same_text_iff xs ys)

pub same_text-ne : (xs ys : List ℕ) → xs ≢ ys → same_text xs ys ≡ false
same_text-ne xs ys differs = elim (Bool-cases (same_text xs ys)) [
  | inl e ↦ absurd (differs ((same_text_iff xs ys).0 e))
  | inr e ↦ e
]

-- `find` of a character: what stands before its first place, and what behind it.
unfoldable pub cut_at : ℕ → List ℕ → Option (List ℕ × List ℕ)
cut_at c [] = none
cut_at c (x ∷ xs) =
    let rest = cut_at c xs in
    if x == c
    then some ([], xs)
    else elim rest [ none ↦ none | some (front, back) ↦ some (x ∷ front, back) ]

-- `xs` without the string `s` at its front.
unfoldable pub strip : List ℕ → List ℕ → Option (List ℕ)
strip [] xs = some xs
strip (c ∷ s) [] = none
strip (c ∷ s) (x ∷ xs) = if x == c then strip s xs else none

-- `find` of a non-empty string: what stands before its first place, and what behind it.
unfoldable pub cut : List ℕ → List ℕ → Option (List ℕ × List ℕ)
cut s [] = none
cut s (x ∷ xs) = elim (strip s (x ∷ xs)) [
  | some back ↦ some ([], back)
  | none ↦ elim (cut s xs) [ none ↦ none | some (front, back) ↦ some (x ∷ front, back) ]
]

-- No character of the string is `c`.
abbrev pub Free : ℕ → List ℕ → Type 0
Free c xs = All (λ x. x ≢ c) xs

pub cut_at-append : (c : ℕ) (xs ys : List ℕ) → Free c xs → cut_at c (xs ++ c ∷ ys) ≡ some (xs, ys)
unfolding cut_at
cut_at-append c [] ys h = ground arith
cut_at-append c (x ∷ xs) ys h = ground (arith, h.0, cut_at-append c xs ys h.1)

pub cut_at-none : (c : ℕ) (xs : List ℕ) → Free c xs → cut_at c xs ≡ none
unfolding cut_at
cut_at-none c [] h = refl
cut_at-none c (x ∷ xs) h = ground (arith, h.0, cut_at-none c xs h.1)

pub Free-of_cut : (c : ℕ) (xs : List ℕ) → cut_at c xs ≡ none → Free c xs
unfolding cut_at
Free-of_cut c [] e = tt
Free-of_cut c (x ∷ xs) e =
    let apart : x ≢ c = λ same. ground (arith, same, e) in
    (apart, Free-of_cut c xs (ground (arith, apart, e)))

-- What is found is split there, and the front has no such character.
pub cut_at_parts :
    (c : ℕ) (xs front back : List ℕ)
    → cut_at c xs ≡ some (front, back)
    → (xs ≡ front ++ c ∷ back) × Free c front
unfolding cut_at
cut_at_parts c [] front back e = absurd (cc e)
cut_at_parts c (x ∷ xs) [] back e = (ground (arith, e), tt)
cut_at_parts c (x ∷ xs) (y ∷ front) back e =
    let inner : cut_at c xs ≡ some (front, back) = ground (arith, e) in
    let parts = cut_at_parts c xs front back inner in
    (ground (arith, e, parts.0), (ground (arith, e), parts.1))
