-- ===== src/WebSocket/Bytes.antt =====
-- Byte strings: prefixes, numbers in network order, and `^` on bytes.
use Prim.Native.Nat.{bit_xor}
use hftperformance.Prelude.{
  ℕ, zero, suc, ◌+◌, ◌*◌, ◌/◌, ◌%◌, ◌^◌, ◌<◌, ◌≤◌, ◌≡◌, refl, ap, Bool, true, false, if◌then◌else◌,
  List, [], ◌∷◌, ◌++◌, Option, none, some, length, ◌==◌, ==_iff, arith,
}

module _ {ℓ} {A : Type ℓ} where
  abbrev pub take : ℕ → List A → List A
  take n [] = []
  take zero (x ∷ xs) = []
  take (suc n) (x ∷ xs) = x ∷ take n xs

  abbrev pub drop : ℕ → List A → List A
  drop zero xs = xs
  drop (suc n) [] = []
  drop (suc n) (x ∷ xs) = drop n xs

  abbrev pub get_or : List A → ℕ → A → A
  get_or [] i v = v
  get_or (x ∷ xs) zero v = x
  get_or (x ∷ xs) (suc i) v = get_or xs i v

  pub take-append : (xs ys : List A) → take (length xs) (xs ++ ys) ≡ xs
  take-append [] [] = refl
  take-append [] (y ∷ ys) = refl
  take-append (x ∷ xs) ys = ap (λ zs. x ∷ zs) (take-append xs ys)

  pub take-append_le : (n : ℕ) (xs ys : List A) → n ≤ length xs → take n (xs ++ ys) ≡ take n xs
  take-append_le zero [] [] h = refl
  take-append_le zero [] (y ∷ ys) h = refl
  take-append_le zero (x ∷ xs) ys h = refl
  take-append_le (suc n) [] ys h = absurd (omega arith)
  take-append_le (suc n) (x ∷ xs) ys h = ap (λ zs. x ∷ zs) (take-append_le n xs ys (omega arith))

  pub drop-append : (xs ys : List A) → drop (length xs) (xs ++ ys) ≡ ys
  drop-append [] ys = refl
  drop-append (x ∷ xs) ys = drop-append xs ys

  pub drop-append_le :
      (n : ℕ) (xs ys : List A) → n ≤ length xs → drop n (xs ++ ys) ≡ drop n xs ++ ys
  drop-append_le zero xs ys h = refl
  drop-append_le (suc n) [] ys h = absurd (omega arith)
  drop-append_le (suc n) (x ∷ xs) ys h = drop-append_le n xs ys (omega arith)

  pub length-drop : (n : ℕ) (xs : List A) → n ≤ length xs → length (drop n xs) + n ≡ length xs
  length-drop zero xs h = omega arith
  length-drop (suc n) [] h = absurd (omega arith)
  length-drop (suc n) (x ∷ xs) h = omega (arith, length-drop n xs)

-- The first `n` bytes as one number, behind `acc`.
unfoldable pub read_be : ℕ → ℕ → List ℕ → Option (ℕ × List ℕ)
read_be zero acc bytes = some (acc, bytes)
read_be (suc n) acc [] = none
read_be (suc n) acc (b ∷ bytes) = read_be n (acc * 256 + b) bytes

-- The lowest `n` bytes of a number, highest first.
unfoldable pub to_be : ℕ → ℕ → List ℕ
to_be zero v = []
to_be (suc n) v = v / 256 ^ n % 256 ∷ to_be n v

pub length-to_be : (n v : ℕ) → length (to_be n v) ≡ n
unfolding to_be
length-to_be zero v = refl
length-to_be (suc n) v = omega (arith, length-to_be n v)

pub read_be-to_be_two :
    (v : ℕ) (rest : List ℕ) → v < 65536 → read_be 2 0 (to_be 2 v ++ rest) ≡ some (v, rest)
unfolding read_be to_be
read_be-to_be_two v rest h = ap (λ w. some (w, rest)) (omega arith)

pub read_be-to_be_eight :
    (v : ℕ) (rest : List ℕ) → v < 2 ^ 64 → read_be 8 0 (to_be 8 v ++ rest) ≡ some (v, rest)
unfolding read_be to_be
read_be-to_be_eight v rest h = ap (λ w. some (w, rest)) (omega arith)

-- A test of all bytes by running it on each.
every : (ℕ → Bool) → ℕ → Bool
every test zero = true
every test (suc last) = let others = every test last in if test last then others else false

every-at :
    (test : ℕ → Bool) (count byte : ℕ) → byte < count → every test count ≡ true → test byte ≡ true
unfolding every
every-at test zero byte inside passed = absurd (omega arith)
every-at test (suc last) byte inside passed = ground (arith, every-at test last byte)

masks_undone : ℕ → Bool
masks_undone key = every (λ byte. bit_xor (bit_xor byte key) key == byte) 256

all_masks : every masks_undone 256 ≡ true
unfolding every masks_undone
all_masks = refl

-- Masking a byte twice gives it back.
pub xor_twice : (x k : ℕ) → x < 256 → k < 256 → bit_xor (bit_xor x k) k ≡ x
unfolding masks_undone
xor_twice x k hx hk =
    let column : masks_undone k ≡ true = every-at masks_undone 256 k hk all_masks in
    (==_iff _ x).0 (every-at _ 256 x hx column)
