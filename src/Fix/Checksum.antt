-- ===== src/Fix/Checksum.antt =====
-- The trailer of a FIX message, `CheckSum(10)`: `build` writes it and `verify_checksum` accepts it.
use hftperformance.Prelude.{
  ℕ, ◌<◌, ◌≡◌, ◌≢◌, ◌^◌, refl, sym, ap, ◌∙◌, true, List, [], ◌∷◌, ◌++◌, none, some, All, All-append,
  arith, subst,
}
use mathlib.Core.List.{append-nil}
use hftperformance.Prelude.Int.{ℤ, pos}
use hftperformance.Prelude.Text.{Free, codes, strip}
use hftperformance.Fix.{
  delimiter, Fields, FixMessage, find_field, set_field, parse, get_field, field_text,
  calculate_checksum, before_last, verify_checksum, seal,
}
use hftperformance.Fix.Numbers.{show_digits, show_ℕ, show_three, from_chars}
use hftperformance.Fix.Digits.{from_chars-show_three, Free-show_three}
use hftperformance.Fix.RoundTrip.{FieldList, IsField, render, render-append, set_all, parse-render}

-- What was put in a map is found in it.
find-set_field :
    (tag : ℤ) (value : List ℕ) (m : Fields) → find_field tag (set_field tag value m) ≡ some value
unfolding find_field set_field
find-set_field tag value [] = ground arith
find-set_field tag value ((t, v) ∷ m) = ground (arith, find-set_field tag value m)

set_all-append : (fs gs : FieldList) (m : Fields) → set_all (fs ++ gs) m ≡ set_all gs (set_all fs m)
unfolding set_all
set_all-append [] gs m = refl
set_all-append ((tag, value) ∷ fs) gs m = set_all-append fs gs (set_field (pos tag) value m)

-- The last place of `10=` is that of the trailer.
strip_trailer-none : (xs : List ℕ) → Free b'=' xs → strip (codes "10=") xs ≡ none
unfolding strip
strip_trailer-none [] h = refl
strip_trailer-none (x ∷ []) h = ground arith
strip_trailer-none (x ∷ y ∷ []) h = ground arith
strip_trailer-none (x ∷ y ∷ z ∷ xs) h = ground (arith, h.1.1.0)

before_last-none : (xs : List ℕ) → Free b'=' xs → before_last (codes "10=") xs ≡ none
unfolding before_last
before_last-none [] h = refl
before_last-none (x ∷ xs) h = rw (before_last-none xs h.1, strip_trailer-none (x ∷ xs) h) refl

before_last-append :
    (s xs ys front : List ℕ)
    → before_last s ys ≡ some front
    → before_last s (xs ++ ys) ≡ some (xs ++ front)
unfolding before_last
before_last-append s [] ys front e = e
before_last-append s (x ∷ xs) ys front e = rw (before_last-append s xs ys front e) refl

before_last-trailer :
    (bytes text : List ℕ)
    → Free b'=' text
    → before_last (codes "10=") (bytes ++ (codes "10=" ++ text)) ≡ some bytes
unfolding before_last strip
before_last-trailer bytes text h =
    let here : before_last (codes "10=") (codes "10=" ++ text) ≡ some [] =
      rw (before_last-none text h) refl in
    subst (λ s. before_last (codes "10=") (bytes ++ (codes "10=" ++ text)) ≡ some s)
      (append-nil bytes) (before_last-append (codes "10=") bytes (codes "10=" ++ text) [] here)

sum_below : (bytes : List ℕ) → calculate_checksum bytes < 256
unfolding calculate_checksum
sum_below bytes = omega arith

verify_checksum_parts :
    (m : FixMessage) (field front : List ℕ)
    → get_field (pos 10) m ≡ some field
    → before_last (codes "10=") m.raw_data ≡ some front
    → from_chars (2 ^ 31) field ≡ some (pos (calculate_checksum front))
    → verify_checksum m ≡ true
unfolding verify_checksum
verify_checksum_parts m field front e f g = rw (verify_checksum, e, f, g) (ground arith)

-- The checksum field behind some fields.
abbrev pub with_trailer : FieldList → FieldList
with_trailer fs = fs ++ (10, show_three (calculate_checksum (render fs))) ∷ []

abbrev trailer_text : FieldList → List ℕ
trailer_text fs = show_three (calculate_checksum (render fs))

All-with_trailer : (fs : FieldList) → All IsField fs → All IsField (with_trailer fs)
All-with_trailer fs h =
    All-append IsField fs ((10, trailer_text fs) ∷ []) h
      ((omega arith, Free-show_three delimiter _ refl), tt)

seal-render : (fs : FieldList) → seal (render fs) ≡ render (with_trailer fs)
unfolding seal render field_text show_ℕ show_digits
seal-render fs = sym (
    render-append fs ((10, trailer_text fs) ∷ [])
    ∙ ap (λ s. render fs ++ (codes "10=" ++ s)) (append-nil (trailer_text fs ++ delimiter ∷ [])))

find_trailer :
    (fs : FieldList) (text : List ℕ)
    → find_field (pos 10) (set_all (fs ++ (10, text) ∷ []) []) ≡ some text
unfolding set_all
find_trailer fs text =
    ap (find_field (pos 10)) (set_all-append fs ((10, text) ∷ []) [])
    ∙ find-set_field (pos 10) text (set_all fs [])

last_trailer :
    (fs : FieldList) → before_last (codes "10=") (render (with_trailer fs)) ≡ some (render fs)
unfolding seal
last_trailer fs =
    ap (before_last (codes "10=")) (sym (seal-render fs))
    ∙ before_last-trailer (render fs) (trailer_text fs ++ delimiter ∷ []) (
        All-append (λ x. x ≢ b'=') (trailer_text fs) (delimiter ∷ []) (Free-show_three b'=' _ refl)
          ((λ same. absurd (omega (arith, same))), tt))

verify-with_trailer :
    (fs : FieldList)
    → verify_checksum
        (record { fields = set_all (with_trailer fs) []; raw_data = render (with_trailer fs) })
      ≡ true
unfolding get_field
verify-with_trailer fs =
    let small : calculate_checksum (render fs) < 256 = sum_below (render fs) in
    verify_checksum_parts
      (record { fields = set_all (with_trailer fs) []; raw_data = render (with_trailer fs) })
      (trailer_text fs) (render fs) (find_trailer fs (trailer_text fs)) (last_trailer fs)
      (from_chars-show_three (2 ^ 31) (calculate_checksum (render fs)) (omega (arith, small))
        (omega (arith, small)))

-- A message that ends in the trailer of `build` is parsed to its fields with the checksum behind them,
-- and its checksum is accepted.
pub verify-seal :
    (f : ℕ × List ℕ) (fs : FieldList)
    → All IsField (f ∷ fs)
    → ((parse (seal (render (f ∷ fs)))).0 ≡ true)
      × ((parse (seal (render (f ∷ fs)))).1.fields ≡ set_all (with_trailer (f ∷ fs)) [])
      × (verify_checksum (parse (seal (render (f ∷ fs)))).1 ≡ true)
verify-seal f fs h =
    let read : parse (seal (render (f ∷ fs))) ≡ (
      true,
      record {
        fields = set_all (with_trailer (f ∷ fs)) [];
        raw_data = render (with_trailer (f ∷ fs));
      },
    ) =
      ap parse (seal-render (f ∷ fs))
      ∙ parse-render f (fs ++ (10, trailer_text (f ∷ fs)) ∷ []) (All-with_trailer (f ∷ fs) h) in
    (
      ap (λ r. r.0) read,
      ap (λ r. r.1.fields) read,
      ap (λ r. verify_checksum r.1) read ∙ verify-with_trailer (f ∷ fs),
    )
