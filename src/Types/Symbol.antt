-- ===== src/Types/Symbol.antt =====
-- src/core/types.hpp, the symbol utilities: a `Symbol` is sixteen bytes, of which the last is 0.
use hftperformance.Prelude.{
  ℕ, zero, suc, ◌≤◌, ◌≡◌, refl, ap, ◌≢◌, List, [], ◌∷◌, arith, ◌==◌, if◌then◌else◌, length, All,
}

abbrev pub Symbol : Type 0
Symbol = List ℕ

-- `Symbol sym{}` and the `memcpy` of at most `room` bytes: what is not copied stays 0.
unfoldable pub fill_symbol : ℕ → List ℕ → List ℕ
fill_symbol zero str = 0 ∷ []
fill_symbol (suc room) [] = 0 ∷ fill_symbol room []
fill_symbol (suc room) (c ∷ str) = c ∷ fill_symbol room str

-- `make_symbol`: `len = min(str.size(), sym.size() - 1)`.
unfoldable pub make_symbol : List ℕ → Symbol
unfolding fill_symbol
make_symbol str = fill_symbol 15 str

-- `symbol_view`: `std::string_view(const char*)` ends before the first 0.
unfoldable pub symbol_view : Symbol → List ℕ
symbol_view [] = []
symbol_view (c ∷ sym) = if c == 0 then [] else c ∷ symbol_view sym

length-fill_symbol : (room : ℕ) (str : List ℕ) → length (fill_symbol room str) ≡ suc room
unfolding fill_symbol
length-fill_symbol zero str = refl
length-fill_symbol (suc room) [] = ap suc (length-fill_symbol room [])
length-fill_symbol (suc room) (c ∷ str) = ap suc (length-fill_symbol room str)

view-fill_nil : (room : ℕ) → symbol_view (fill_symbol room []) ≡ []
unfolding symbol_view fill_symbol
view-fill_nil zero = refl
view-fill_nil (suc room) = refl

view-fill :
    (room : ℕ) (str : List ℕ)
    → length str ≤ room
    → All (λ c. c ≢ 0) str
    → symbol_view (fill_symbol room str) ≡ str
unfolding symbol_view fill_symbol
view-fill room [] h nz = view-fill_nil room
view-fill zero (c ∷ str) h nz = absurd (omega arith)
view-fill (suc room) (c ∷ str) h nz = ground (arith, view-fill room str (omega arith) nz.1, nz.0)

-- A name of at most fifteen bytes, none of them 0, makes a sixteen-byte symbol whose view is the
-- name again.
pub symbol_view-make_symbol :
    (str : List ℕ)
    → length str ≤ 15
    → All (λ c. c ≢ 0) str
    → (length (make_symbol str) ≡ 16) × (symbol_view (make_symbol str) ≡ str)
unfolding make_symbol
symbol_view-make_symbol str h nz = (length-fill_symbol 15 str, view-fill 15 str h nz)
