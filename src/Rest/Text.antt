-- ===== src/Rest/Text.antt =====
-- src/protocol/rest_handler.cpp: the string maps, `std::stoul`, `std::strtol` and `::tolower` as the parser uses
-- them, and `url_decode`.
use hftperformance.Prelude.{
  ℕ, ◌+◌, ◌*◌, ◌-◌, ◌%◌, ◌^◌, Bool, true, false, ◌&&◌, ◌||◌, List, [], ◌∷◌, Option, none, some, map,
  ltb, leb, ◌==◌, if◌then◌else◌,
}
use hftperformance.Prelude.Text.{same_text}
use hftperformance.Fix.Numbers.{is_digit, read_digits, starts_digit}

-- A `std::unordered_map` of strings. The list stands for the order in which the container goes through
-- its entries.
abbrev pub TextMap : Type 0
TextMap = List (List ℕ × List ℕ)

-- `find`, and `operator[]` with a write.
unfoldable pub find_text : List ℕ → TextMap → Option (List ℕ)
find_text name [] = none
find_text name ((k, v) ∷ m) = if same_text k name then some v else find_text name m

unfoldable pub set_text : List ℕ → List ℕ → TextMap → TextMap
set_text name value [] = (name, value) ∷ []
set_text name value ((k, v) ∷ m) =
    if same_text k name then (name, value) ∷ m else (k, v) ∷ set_text name value m

-- `::tolower` of an ASCII string
abbrev pub lower : ℕ → ℕ
lower c = if leb b'A' c && leb c b'Z' then c + 32 else c

unfoldable pub to_lower : List ℕ → List ℕ
to_lower s = map lower s

-- `std::isspace`
abbrev pub is_space : ℕ → Bool
is_space c = c == b' ' || (leb 9 c && leb c 13)

abbrev pub skip_spaces : List ℕ → List ℕ
skip_spaces [] = []
skip_spaces (c ∷ s) = let rest = skip_spaces s in if is_space c then rest else c ∷ s

-- `std::stoul` in base ten: blanks and a sign go first, and `-` negates modulo 2 ^ 64. Without a digit,
-- or from 2 ^ 64 on, it throws.
abbrev pub unsigned_of : Bool → List ℕ → Option ℕ
unsigned_of negated s =
    if starts_digit s && ltb (read_digits 0 s) (2 ^ 64)
    then some (if negated then (2 ^ 64 - read_digits 0 s) % 2 ^ 64 else read_digits 0 s)
    else none

abbrev pub after_sign : List ℕ → Option ℕ
after_sign [] = none
after_sign (c ∷ s) =
    if c == b'-'
    then unsigned_of true s
    else if c == b'+'
    then unsigned_of false s
    else unsigned_of false (c ∷ s)

unfoldable pub stoul : List ℕ → Option ℕ
stoul s = after_sign (skip_spaces s)

-- `std::strtol` in base sixteen, of two characters, as the byte that the cast to `char` leaves.
abbrev pub hex_value : ℕ → Option ℕ
hex_value c =
    if is_digit c
    then some (c - 48)
    else if leb b'A' c && leb c b'F'
    then some (c - 55)
    else if leb b'a' c && leb c b'f'
    then some (c - 87)
    else none

abbrev pub hex_digit_or_zero : ℕ → ℕ
hex_digit_or_zero c = elim (hex_value c) [ none ↦ 0 | some v ↦ v ]

unfoldable pub hex_byte : ℕ → ℕ → ℕ
hex_byte a b =
    if a == b'-'
    then (256 - hex_digit_or_zero b) % 256
    else if a == b'+' || is_space a
    then hex_digit_or_zero b
    else elim (hex_value a) [
      | none ↦ 0
      | some v ↦ elim (hex_value b) [ none ↦ v | some w ↦ v * 16 + w ]
    ]

-- `url_decode`
unfoldable pub url_decode : List ℕ → List ℕ
url_decode [] = []
url_decode (c ∷ []) = (if c == b'+' then b' ' else c) ∷ []
url_decode (c ∷ a ∷ []) = (if c == b'+' then b' ' else c) ∷ (if a == b'+' then b' ' else a) ∷ []
url_decode (c ∷ a ∷ b ∷ s) =
    let coded = url_decode s in
    let plain = url_decode (a ∷ b ∷ s) in
    if c == b'%' then hex_byte a b ∷ coded else (if c == b'+' then b' ' else c) ∷ plain
