-- ===== src/Fix/Numbers.antt =====
-- `std::from_chars` and `std::to_chars` of decimal integers, and the `%03` formats.
use hftperformance.Prelude.{
  ℕ, zero, suc, ◌+◌, ◌*◌, ◌-◌, ◌/◌, ◌%◌, Bool, false, ◌&&◌, List, [], ◌∷◌, ◌++◌, Option, none, some,
  ltb, leb, ◌==◌, if◌then◌else◌,
}
use hftperformance.Prelude.Int.{ℤ, pos, negsuc}

abbrev pub is_digit : ℕ → Bool
is_digit c = leb b'0' c && leb c b'9'

-- The digits at the front, read behind `acc`.
unfoldable pub read_digits : ℕ → List ℕ → ℕ
read_digits acc [] = acc
read_digits acc (c ∷ s) =
    let rest = read_digits (acc * 10 + (c - 48)) s in if is_digit c then rest else acc

abbrev pub starts_digit : List ℕ → Bool
starts_digit [] = false
starts_digit (c ∷ _) = is_digit c

-- `from_chars` of a signed type whose values are at least -`bound` and below `bound`: it reads the
-- number at the front and ignores what follows; `none` stands for no number, or one out of range.
unfoldable pub from_chars : ℕ → List ℕ → Option ℤ
unfolding read_digits
from_chars bound [] = none
from_chars bound (c ∷ s) =
    if c == b'-'
    then (if starts_digit s && leb (read_digits 0 s) bound
        then some (negative (read_digits 0 s))
        else none)
    else if is_digit c && ltb (read_digits 0 (c ∷ s)) bound
    then some (pos (read_digits 0 (c ∷ s)))
    else none
  where
    negative : ℕ → ℤ
    negative zero = pos 0
    negative (suc n) = negsuc n

-- The decimal digits, with fuel for their number.
unfoldable pub show_digits : ℕ → ℕ → List ℕ
show_digits zero n = []
show_digits (suc fuel) n =
    let front = show_digits fuel (n / 10) in
    if ltb n 10 then (48 + n) ∷ [] else front ++ (48 + n % 10) ∷ []

-- `to_chars` of a number below 10 ^ 20.
unfoldable pub show_ℕ : ℕ → List ℕ
unfolding show_digits
show_ℕ n = show_digits 20 n

unfoldable pub show_ℤ : ℤ → List ℕ
unfolding show_ℕ
show_ℤ (pos n) = show_ℕ n
show_ℤ (negsuc n) = b'-' ∷ show_ℕ (suc n)

-- `%03d`
abbrev pub pad_three : ℕ → List ℕ → List ℕ
pad_three n text = if ltb n 10 then b'0' ∷ b'0' ∷ text else if ltb n 100 then b'0' ∷ text else text

unfoldable pub show_three : ℕ → List ℕ
unfolding show_ℕ
show_three n = pad_three n (show_ℕ n)
