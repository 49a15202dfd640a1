-- ===== src/Fix/Build.antt =====
-- `FixMessageBuilder`: what `begin`, `add_field` and `build` make together.
use hftperformance.Prelude.{
  ℕ, ◌+◌, ◌<◌, ◌≤◌, ◌≡◌, ◌^◌, refl, sym, ap, ◌∙◌, true, List, [], ◌∷◌, ◌++◌, length, All, arith,
  subst,
}
use mathlib.Core.List.{append_assoc}
use hftperformance.Prelude.Int.{ℤ}
use hftperformance.Prelude.Text.{cut_at, Free-of_cut, codes, strip, cut}
use hftperformance.Fix.{
  delimiter, FixMessageBuilder, field_text, append_field, add_number, as_signed, begin, put_length,
  first_seven, body_length, seal, build, parse, verify_checksum,
}
use hftperformance.Fix.Numbers.{show_digits, show_ℕ, show_ℤ, show_three}
use hftperformance.Fix.Digits.{Free-show_three, length-show_three}
use hftperformance.Fix.RoundTrip.{FieldList, IsField, render, render-field, set_all}
use hftperformance.Fix.Checksum.{with_trailer, verify-seal}

-- The two fields in front, with the text of the length.
abbrev pub standard : List ℕ → FieldList → FieldList
standard text fs = (8, codes "FIX.4.4") ∷ (9, text) ∷ fs

-- A builder that holds the fields `fs` behind the two in front.
abbrev pub Holds : FixMessageBuilder → FieldList → Type 0
Holds b fs = (b.buffer ≡ render (standard (codes "000") fs)) × (b.body_start ≡ 10)

pub append_field-Holds :
    (tag : ℕ) (value : List ℕ) (b : FixMessageBuilder) (fs : FieldList)
    → Holds b fs
    → Holds (append_field tag value b) (fs ++ (tag, value) ∷ [])
unfolding append_field
append_field-Holds tag value b fs h = (
  ap (λ s. s ++ field_text tag value) h.0
      ∙ sym (render-field (standard (codes "000") fs) tag value),
  h.1,
)

abbrev placed : FixMessageBuilder
placed = record {
  buffer = field_text 8 (codes "FIX.4.4") ++ field_text 9 (codes "000");
  body_start = length (field_text 8 (codes "FIX.4.4"));
}

placed-Holds : Holds placed []
unfolding render field_text show_ℕ show_digits
placed-Holds = (refl, refl)

pub begin-Holds :
    (time : ℤ) (msg_type sender target : List ℕ) (seq_num : ℕ)
    → Holds (begin time msg_type sender target seq_num) (
        (35, msg_type)
        ∷ (49, sender)
        ∷ (56, target)
        ∷ (34, show_ℤ (as_signed seq_num))
        ∷ (52, show_ℤ time)
        ∷ [])
unfolding begin add_number
begin-Holds time msg_type sender target seq_num = append_field-Holds 52 (show_ℤ time) _ _ (
    append_field-Holds 34 (show_ℤ (as_signed seq_num)) _ _ (
      append_field-Holds 56 target _ _
        (append_field-Holds 49 sender _ _ (append_field-Holds 35 msg_type placed [] placed-Holds))))

first_seven_short : (xs : List ℕ) → length xs ≤ 7 → first_seven xs ≡ xs
first_seven_short [] h = refl
first_seven_short (a ∷ []) h = refl
first_seven_short (a ∷ b ∷ []) h = refl
first_seven_short (a ∷ b ∷ c ∷ []) h = refl
first_seven_short (a ∷ b ∷ c ∷ d ∷ []) h = refl
first_seven_short (a ∷ b ∷ c ∷ d ∷ e ∷ []) h = refl
first_seven_short (a ∷ b ∷ c ∷ d ∷ e ∷ f ∷ []) h = refl
first_seven_short (a ∷ b ∷ c ∷ d ∷ e ∷ f ∷ g ∷ []) h = refl
first_seven_short (a ∷ b ∷ c ∷ d ∷ e ∷ f ∷ g ∷ x ∷ xs) h = absurd (omega arith)

length-standard :
    (fs : FieldList) → length (render (standard (codes "000") fs)) ≡ 16 + length (render fs)
unfolding render field_text show_ℕ show_digits
length-standard fs = omega arith

body_length-Holds :
    (b : FixMessageBuilder) (fs : FieldList)
    → Holds b fs
    → length (render fs) < 10 ^ 7
    → body_length b ≡ length (render fs)
unfolding body_length
body_length-Holds b fs h small = omega (arith, ap length h.0, length-standard fs, h.1)

put_length-Holds :
    (text : List ℕ) (fs : FieldList)
    → put_length text (render (standard (codes "000") fs)) ≡ render (standard text fs)
unfolding put_length cut strip render field_text show_ℕ show_digits
put_length-Holds text fs =
    ap (λ s. codes "8=FIX.4.4" ++ (delimiter ∷ codes "9=" ++ s))
      (sym (append_assoc text (delimiter ∷ []) (render fs)))

-- `build` states the length of the fields behind the first two.
pub build-Holds :
    (b : FixMessageBuilder) (fs : FieldList)
    → Holds b fs
    → length (render fs) < 10 ^ 7
    → build b ≡ seal (render (standard (show_three (length (render fs))) fs))
unfolding build
build-Holds b fs h small =
    let text : first_seven (show_three (body_length b)) ≡ show_three (length (render fs)) =
      ap (λ n. first_seven (show_three n)) (body_length-Holds b fs h small)
      ∙ first_seven_short _ (length-show_three (length (render fs)) small) in
    ap seal (
      ap (put_length (first_seven (show_three (body_length b)))) h.0
      ∙ put_length-Holds (first_seven (show_three (body_length b))) fs
      ∙ ap (λ t. render (standard t fs)) text)

-- What `build` makes of a builder is parsed to the same fields, behind the version and the true length
-- of the body and before the checksum; and the checksum is accepted.
pub build-parse :
    (b : FixMessageBuilder) (fs : FieldList)
    → Holds b fs
    → All IsField fs
    → length (render fs) < 10 ^ 7
    → ((parse (build b)).0 ≡ true)
      × ((parse (build b)).1.fields
          ≡ set_all (with_trailer (standard (show_three (length (render fs))) fs)) [])
      × (verify_checksum (parse (build b)).1 ≡ true)
unfolding cut_at
build-parse b fs h valid small =
    let text : List ℕ = show_three (length (render fs)) in
    let version : IsField (8, codes "FIX.4.4") =
      (omega arith, Free-of_cut delimiter (codes "FIX.4.4") refl) in
    let body : IsField (9, text) = (omega arith, Free-show_three delimiter _ refl) in
    subst
      (λ s.
        ((parse s).0 ≡ true)
        × ((parse s).1.fields ≡ set_all (with_trailer (standard text fs)) [])
        × (verify_checksum (parse s).1 ≡ true))
      (sym (build-Holds b fs h small))
      (verify-seal (8, codes "FIX.4.4") ((9, text) ∷ fs) (version, (body, valid)))
