-- ===== src/Fix/Digits.antt =====
-- Decimal numbers of FIX messages: what `to_chars` prints, `from_chars` reads.
use hftperformance.Prelude.{
  ℕ, zero, suc, ◌+◌, ◌*◌, ◌-◌, ◌/◌, ◌%◌, ◌^◌, ◌<◌, ◌≡◌, refl, ap, ◌∙◌, true, false, List, [], ◌∷◌,
  ◌++◌, some, ltb, leb, suc, arith, Bool-cases, inl, inr, All-append, ◌≢◌, subst, sym, length, ◌≤◌,
  length-append,
}
use mathlib.Core.List.{append_assoc, append-nil}
use hftperformance.Prelude.Text.{Free}
use hftperformance.Prelude.Int.{ℤ, pos, negsuc}
use hftperformance.Fix.Numbers.{
  is_digit, read_digits, starts_digit, from_chars, show_digits, show_ℕ, show_ℤ, show_three,
  pad_three,
}

-- What is printed is read back.
read_digits_digit :
    (acc d n : ℕ) (rest : List ℕ)
    → d < 10
    → acc * 10 + d ≡ n
    → read_digits acc ((48 + d) ∷ rest) ≡ read_digits n rest
unfolding read_digits
read_digits_digit acc d n rest h e =
    let value : acc * 10 + (48 + d - 48) ≡ n = omega (arith, e) in ground (arith, value)

show_digits_few : (fuel n : ℕ) → ltb n 10 ≡ true → show_digits (suc fuel) n ≡ (48 + n) ∷ []
unfolding show_digits
show_digits_few fuel n e = rw e refl

show_digits_more :
    (fuel n : ℕ)
    → ltb n 10 ≡ false
    → show_digits (suc fuel) n ≡ show_digits fuel (n / 10) ++ (48 + n % 10) ∷ []
unfolding show_digits
show_digits_more fuel n e = rw e refl

pub read-show_digits :
    (fuel n : ℕ) (rest : List ℕ)
    → n < 10 ^ fuel
    → read_digits 0 (show_digits fuel n ++ rest) ≡ read_digits n rest
unfolding show_digits
read-show_digits zero n rest h = ap (λ k. read_digits k rest) (omega arith)
read-show_digits (suc fuel) n rest h = elim (Bool-cases (ltb n 10)) [
  | inl e ↦
      rw (show_digits_few fuel n e) (read_digits_digit 0 n n rest (ground (arith, e)) (omega arith))
  | inr e ↦
      let last : List ℕ = (48 + n % 10) ∷ rest in
      let front : read_digits 0 (show_digits fuel (n / 10) ++ last) ≡ read_digits (n / 10) last =
        read-show_digits fuel (n / 10) last (omega arith) in
      rw
        (
          show_digits_more fuel n e,
          append_assoc (show_digits fuel (n / 10)) ((48 + n % 10) ∷ []) rest,
          front,
        )
        (read_digits_digit (n / 10) (n % 10) n rest (omega arith) (omega arith))
]

-- The text of a number starts with a digit, and has only digits.
starts_digit-append : (xs ys : List ℕ) → starts_digit xs ≡ true → starts_digit (xs ++ ys) ≡ true
starts_digit-append [] ys h = absurd (cc h)
starts_digit-append (x ∷ xs) ys h = h

starts_digit-show_digits :
    (fuel n : ℕ) → n < 10 ^ suc fuel → starts_digit (show_digits (suc fuel) n) ≡ true
starts_digit-show_digits zero n h =
    let few : ltb n 10 ≡ true = ground (arith, h) in
    rw (show_digits_few 0 n few) (ground (arith, few))
starts_digit-show_digits (suc fuel) n h = elim (Bool-cases (ltb n 10)) [
  | inl e ↦ rw (show_digits_few (suc fuel) n e) (ground (arith, e))
  | inr e ↦
      let front : starts_digit (show_digits (suc fuel) (n / 10)) ≡ true =
        starts_digit-show_digits fuel (n / 10) (omega arith) in
      rw (show_digits_more (suc fuel) n e)
        (starts_digit-append (show_digits (suc fuel) (n / 10)) ((48 + n % 10) ∷ []) front)
]

pub Free-show_digits : (c fuel n : ℕ) → is_digit c ≡ false → Free c (show_digits fuel n)
unfolding show_digits
Free-show_digits c zero n h = tt
Free-show_digits c (suc fuel) n h = elim (Bool-cases (ltb n 10)) [
  | inl e ↦ rw (show_digits_few fuel n e) (λ same. ground (arith, e, same), tt)
  | inr e ↦ rw (show_digits_more fuel n e) (
      All-append (λ x. x ≢ c) _ _ (Free-show_digits c fuel (n / 10) h)
        (λ same. ground (arith, same), tt))
]

-- What `from_chars` does at a digit.
from_chars_digits :
    (bound n : ℕ) (s : List ℕ)
    → starts_digit s ≡ true
    → read_digits 0 s ≡ n
    → n < bound
    → from_chars bound s ≡ some (pos n)
unfolding from_chars
from_chars_digits bound n [] d e h = absurd (cc d)
from_chars_digits bound n (c ∷ s) d e h =
    let low : ltb (read_digits 0 (c ∷ s)) bound ≡ true = ground (arith, e, h) in
    ground (arith, d, low, e)

-- A printed number is read back, in its range.
pub read-show_ℕ : (n : ℕ) → n < 10 ^ 20 → read_digits 0 (show_ℕ n) ≡ n
unfolding show_ℕ read_digits
read-show_ℕ n small =
    subst (λ s. read_digits 0 s ≡ n) (append-nil (show_digits 20 n))
      (read-show_digits 20 n [] small)

pub starts_digit-show_ℕ : (n : ℕ) → n < 10 ^ 20 → starts_digit (show_ℕ n) ≡ true
unfolding show_ℕ
starts_digit-show_ℕ n small = starts_digit-show_digits 19 n small

pub Free-show_ℕ : (c n : ℕ) → is_digit c ≡ false → Free c (show_ℕ n)
unfolding show_ℕ
Free-show_ℕ c n h = Free-show_digits c 20 n h

pub from_chars-show_ℕ :
    (bound n : ℕ) → n < bound → n < 10 ^ 20 → from_chars bound (show_ℕ n) ≡ some (pos n)
from_chars-show_ℕ bound n h small =
    from_chars_digits bound n (show_ℕ n) (starts_digit-show_ℕ n small) (read-show_ℕ n small) h

-- The values of a signed type with the bound `bound`.
abbrev pub InRange : ℕ → ℤ → Type 0
InRange bound (pos n) = n < bound
InRange bound (negsuc n) = n < bound

from_chars_minus :
    (bound n : ℕ) (s : List ℕ)
    → starts_digit s ≡ true
    → read_digits 0 s ≡ suc n
    → n < bound
    → from_chars bound (b'-' ∷ s) ≡ some (negsuc n)
unfolding from_chars
from_chars_minus bound n s d e h =
    let low : leb (read_digits 0 s) bound ≡ true = ground (arith, e, h) in ground (arith, d, low, e)

pub from_chars-show_ℤ :
    (bound : ℕ) (i : ℤ) → bound < 10 ^ 19 → InRange bound i → from_chars bound (show_ℤ i) ≡ some i
unfolding show_ℤ
from_chars-show_ℤ bound (pos n) few h = from_chars-show_ℕ bound n h (omega arith)
from_chars-show_ℤ bound (negsuc n) few h =
    from_chars_minus bound n (show_ℕ (suc n)) (starts_digit-show_ℕ (suc n) (omega arith))
      (read-show_ℕ (suc n) (omega arith)) h

pub Free-show_ℤ : (c : ℕ) (i : ℤ) → is_digit c ≡ false → c ≢ b'-' → Free c (show_ℤ i)
unfolding show_ℤ
Free-show_ℤ c (pos n) h differs = Free-show_ℕ c n h
Free-show_ℤ c (negsuc n) h differs = ((λ same. differs (sym same)), Free-show_ℕ c (suc n) h)

-- Zeros in front of a number do not change it.
read_zero : (s : List ℕ) → read_digits 0 (b'0' ∷ s) ≡ read_digits 0 s
read_zero s = read_digits_digit 0 0 0 s (omega arith) (omega arith)

pad_three_cases :
    (P : List ℕ → Type 0) (n : ℕ) (text : List ℕ)
    → (n < 10 → P (b'0' ∷ b'0' ∷ text))
    → (n < 100 → P (b'0' ∷ text))
    → P text
    → P (pad_three n text)
pad_three_cases P n text two one all = elim (Bool-cases (ltb n 10)) [
  | inl e ↦ rw e (two (ground (arith, e)))
  | inr e ↦ elim (Bool-cases (ltb n 100)) [
    | inl k ↦ rw (e, k) (one (ground (arith, k)))
    | inr k ↦ rw (e, k) all
  ]
]

show_three_cases :
    (P : List ℕ → Type 0) (n : ℕ)
    → (n < 10 → P (b'0' ∷ b'0' ∷ show_ℕ n))
    → (n < 100 → P (b'0' ∷ show_ℕ n))
    → P (show_ℕ n)
    → P (show_three n)
unfolding show_three
show_three_cases P n two one all = pad_three_cases P n (show_ℕ n) two one all

pub from_chars-show_three :
    (bound n : ℕ) → n < bound → n < 10 ^ 20 → from_chars bound (show_three n) ≡ some (pos n)
from_chars-show_three bound n h small =
    let value : read_digits 0 (show_ℕ n) ≡ n = read-show_ℕ n small in
    let one : read_digits 0 (b'0' ∷ show_ℕ n) ≡ n = read_zero (show_ℕ n) ∙ value in
    show_three_cases (λ s. from_chars bound s ≡ some (pos n)) n
      (λ _.
        from_chars_digits bound n (b'0' ∷ b'0' ∷ show_ℕ n) refl (read_zero (b'0' ∷ show_ℕ n) ∙ one)
          h)
      (λ _. from_chars_digits bound n (b'0' ∷ show_ℕ n) refl one h)
      (from_chars-show_ℕ bound n h small)

pub Free-show_three : (c n : ℕ) → is_digit c ≡ false → Free c (show_three n)
Free-show_three c n h =
    let all : Free c (show_ℕ n) = Free-show_ℕ c n h in
    let zero_free : b'0' ≢ c = λ same. ground (arith, h, same) in
    show_three_cases (Free c) n (λ _. (zero_free, (zero_free, all))) (λ _. (zero_free, all)) all

-- A number with few digits has a short text.
length-show_digits : (fuel k n : ℕ) → n < 10 ^ k → 0 < k → length (show_digits fuel n) ≤ k
unfolding show_digits
length-show_digits zero k n h p = omega arith
length-show_digits (suc fuel) zero n h p = absurd (omega arith)
length-show_digits (suc fuel) (suc zero) n h p =
    rw (show_digits_few fuel n (ground (arith, h))) (omega arith)
length-show_digits (suc fuel) (suc (suc k)) n h p = elim (Bool-cases (ltb n 10)) [
  | inl e ↦ rw (show_digits_few fuel n e) (omega arith)
  | inr e ↦ rw (show_digits_more fuel n e) (
      omega (
        arith,
        length-append (show_digits fuel (n / 10)) ((48 + n % 10) ∷ []),
        length-show_digits fuel (suc k) (n / 10) (omega arith) (omega arith),
      ))
]

length-show_ℕ : (k n : ℕ) → n < 10 ^ k → 0 < k → length (show_ℕ n) ≤ k
unfolding show_ℕ
length-show_ℕ k n h p = length-show_digits 20 k n h p

pub length-show_three : (n : ℕ) → n < 10 ^ 7 → length (show_three n) ≤ 7
length-show_three n h =
    show_three_cases (λ s. length s ≤ 7) n
      (λ few. omega (arith, length-show_ℕ 1 n few (omega arith)))
      (λ few. omega (arith, length-show_ℕ 2 n few (omega arith)))
      (length-show_ℕ 7 n h (omega arith))
