-- ===== src/Fix/RoundTrip.antt =====
-- `FixMessage::parse` on a sequence of fields written by `append_field`.
use hftperformance.Prelude.{
  ℕ, zero, suc, ◌<◌, ◌≤◌, ◌≡◌, ◌^◌, refl, sym, ap, ◌∙◌, true, false, List, [], ◌∷◌, ◌++◌, none,
  some, length, length-append, All, arith, not, Option-cases, inl, inr,
}
use mathlib.Core.List.{append_assoc, append-nil}
use hftperformance.Prelude.Int.{ℤ, pos}
use hftperformance.Prelude.Text.{Free, cut_at, cut_at-append, cut_at_parts}
use hftperformance.Fix.{
  Ending, complete, bad_tag, delimiter, Fields, set_field, value_of, parse_fields, parse,
  finish_parse, is_empty, field_text,
}
use hftperformance.Fix.Numbers.{show_ℕ, from_chars}
use hftperformance.Fix.Digits.{Free-show_ℕ, from_chars-show_ℕ}

abbrev pub FieldList : Type 0
FieldList = List (ℕ × List ℕ)

-- The bytes of some fields.
unfoldable pub render : FieldList → List ℕ
unfolding field_text
render [] = []
render ((tag, value) ∷ fs) = field_text tag value ++ render fs

pub render-append : (fs gs : FieldList) → render (fs ++ gs) ≡ render fs ++ render gs
unfolding render
render-append [] gs = refl
render-append ((tag, value) ∷ fs) gs =
    ap (λ s. field_text tag value ++ s) (render-append fs gs)
    ∙ sym (append_assoc (field_text tag value) (render fs) (render gs))

pub render-field :
    (fs : FieldList) (tag : ℕ) (value : List ℕ)
    → render (fs ++ (tag, value) ∷ []) ≡ render fs ++ field_text tag value
unfolding render
render-field fs tag value =
    render-append fs ((tag, value) ∷ [])
    ∙ ap (λ s. render fs ++ s) (append-nil (field_text tag value))

-- A field that can be written: the tag is an `int`, the value has no delimiter.
abbrev pub IsField : ℕ × List ℕ → Type 0
IsField f = (f.0 < 2 ^ 31) × Free delimiter f.1

-- The map that the fields leave, the last value of a tag first found.
unfoldable pub set_all : FieldList → Fields → Fields
unfolding set_field
set_all [] m = m
set_all ((tag, value) ∷ fs) m = set_all fs (set_field (pos tag) value m)

-- One field at the front of the bytes.
field_text-append :
    (tag : ℕ) (value rest : List ℕ)
    → field_text tag value ++ rest ≡ show_ℕ tag ++ (b'=' ∷ (value ++ delimiter ∷ rest))
unfolding field_text
field_text-append tag value rest =
    append_assoc (show_ℕ tag) (b'=' ∷ (value ++ delimiter ∷ [])) rest
    ∙ ap (λ s. show_ℕ tag ++ (b'=' ∷ s)) (append_assoc value (delimiter ∷ []) rest)

cut_tag :
    (tag : ℕ) (value rest : List ℕ)
    → cut_at b'=' (field_text tag value ++ rest) ≡ some (show_ℕ tag, value ++ delimiter ∷ rest)
cut_tag tag value rest =
    ap (cut_at b'=') (field_text-append tag value rest)
    ∙ cut_at-append b'=' (show_ℕ tag) (value ++ delimiter ∷ rest) (Free-show_ℕ b'=' tag refl)

value_of-field :
    (value rest : List ℕ)
    → Free delimiter value
    → value_of (value ++ delimiter ∷ rest) ≡ (value, rest)
unfolding value_of
value_of-field value rest h = rw (value_of, cut_at-append delimiter value rest h) refl

parse_fields-cut :
    (fuel : ℕ) (bytes tag_text rest value later : List ℕ) (tag : ℤ) (m : Fields)
    → cut_at b'=' bytes ≡ some (tag_text, rest)
    → from_chars (2 ^ 31) tag_text ≡ some tag
    → value_of rest ≡ (value, later)
    → parse_fields (suc fuel) bytes m ≡ parse_fields fuel later (set_field tag value m)
unfolding parse_fields
parse_fields-cut fuel bytes tag_text rest value later tag m e f g = rw (parse_fields, e, f, g) refl

parse_fields-no_tag :
    (fuel : ℕ) (bytes : List ℕ) (m : Fields)
    → cut_at b'=' bytes ≡ none
    → parse_fields (suc fuel) bytes m ≡ (complete, m)
unfolding parse_fields
parse_fields-no_tag fuel bytes m e = rw (parse_fields, e) refl

parse_fields-no_number :
    (fuel : ℕ) (bytes text rest : List ℕ) (m : Fields)
    → cut_at b'=' bytes ≡ some (text, rest)
    → from_chars (2 ^ 31) text ≡ none
    → parse_fields (suc fuel) bytes m ≡ (bad_tag, m)
unfolding parse_fields
parse_fields-no_number fuel bytes text rest m e f = rw (parse_fields, e, f) refl

parse_fields-field :
    (fuel tag : ℕ) (value rest : List ℕ) (m : Fields)
    → IsField (tag, value)
    → parse_fields (suc fuel) (field_text tag value ++ rest) m
      ≡ parse_fields fuel rest (set_field (pos tag) value m)
parse_fields-field fuel tag value rest m h =
    parse_fields-cut fuel _ _ _ value rest (pos tag) m (cut_tag tag value rest)
      (from_chars-show_ℕ (2 ^ 31) tag h.0 (omega (arith, h.0))) (value_of-field value rest h.1)

pub parse_fields-render :
    (fuel : ℕ) (fs : FieldList) (m : Fields)
    → All IsField fs
    → length fs ≤ fuel
    → parse_fields fuel (render fs) m ≡ (complete, set_all fs m)
unfolding parse_fields render set_all cut_at
parse_fields-render zero [] m h le = refl
parse_fields-render zero (f ∷ fs) m h le = absurd (omega arith)
parse_fields-render (suc fuel) [] m h le = refl
parse_fields-render (suc fuel) ((tag, value) ∷ fs) m h le =
    parse_fields-field fuel tag value (render fs) m h.0
    ∙ parse_fields-render fuel fs (set_field (pos tag) value m) h.1 (omega arith)

length-render : (fs : FieldList) → length fs ≤ length (render fs)
unfolding render
length-render [] = omega arith
length-render ((tag, value) ∷ fs) =
    let whole : length (render ((tag, value) ∷ fs))
        ≡ length (show_ℕ tag ++ (b'=' ∷ (value ++ delimiter ∷ render fs))) =
      ap length (field_text-append tag value (render fs)) in
    omega (
      arith,
      whole,
      length-append (show_ℕ tag) (b'=' ∷ (value ++ delimiter ∷ render fs)),
      length-append value (delimiter ∷ render fs),
      length-render fs,
    )

set_field_some : (tag : ℤ) (value : List ℕ) (m : Fields) → is_empty (set_field tag value m) ≡ false
unfolding set_field
set_field_some tag value [] = refl
set_field_some tag value ((t, v) ∷ m) = ground arith

set_all_some : (fs : FieldList) (m : Fields) → is_empty m ≡ false → is_empty (set_all fs m) ≡ false
unfolding set_all
set_all_some [] m h = h
set_all_some ((tag, value) ∷ fs) m h =
    set_all_some fs (set_field (pos tag) value m) (set_field_some (pos tag) value m)

-- Fields that `append_field` writes are read as they are: `parse` succeeds, and the map holds them.
pub parse-render :
    (f : ℕ × List ℕ) (fs : FieldList)
    → All IsField (f ∷ fs)
    → parse (render (f ∷ fs))
      ≡ (true, record { fields = set_all (f ∷ fs) []; raw_data = render (f ∷ fs) })
unfolding parse set_all
parse-render (tag, value) fs h =
    let some_field : is_empty (set_all ((tag, value) ∷ fs) []) ≡ false =
      set_all_some fs (set_field (pos tag) value []) (set_field_some (pos tag) value []) in
    ap (finish_parse (render ((tag, value) ∷ fs)))
      (parse_fields-render _ ((tag, value) ∷ fs) [] h (length-render ((tag, value) ∷ fs)))
    ∙ ap
        (λ e. (
          not e,
          record { fields = set_all ((tag, value) ∷ fs) []; raw_data = render ((tag, value) ∷ fs) },
        ))
        some_field

length-cut :
    (c : ℕ) (bytes front back : List ℕ)
    → cut_at c bytes ≡ some (front, back)
    → length back < length bytes
length-cut c bytes front back e =
    omega (arith, ap length (cut_at_parts c bytes front back e).0, length-append front (c ∷ back))

length-value_of : (bytes : List ℕ) → length (value_of bytes).1 ≤ length bytes
unfolding value_of
length-value_of bytes = elim (Option-cases (cut_at delimiter bytes)) [
  | inl e ↦ rw (value_of, e) (omega arith)
  | inr ((front, back), e) ↦
      rw (value_of, e) (omega (arith, length-cut delimiter bytes front back e))
]

-- A run of the loop of `parse` over the bytes, round by round and without fuel: `result` is how it ends
-- and the fields at the end.
pub data Scan : List ℕ → Fields → Ending × Fields → Type 0 where
  no_more : {bytes : List ℕ} {m : Fields} → cut_at b'=' bytes ≡ none → Scan bytes m (complete, m)
  no_number :
      {bytes text rest : List ℕ} {m : Fields}
      → cut_at b'=' bytes ≡ some (text, rest)
      → from_chars (2 ^ 31) text ≡ none
      → Scan bytes m (bad_tag, m)
  one_field :
      {bytes text rest : List ℕ} {tag : ℤ} {m : Fields} {result : Ending × Fields}
      → cut_at b'=' bytes ≡ some (text, rest)
      → from_chars (2 ^ 31) text ≡ some tag
      → Scan (value_of rest).1 (set_field tag (value_of rest).0 m) result
      → Scan bytes m result

-- With fuel for each byte, the loop of `parse` runs to one of its own ends: no `=` is left or a tag is no
-- number, and each round before that has set one field and gone on behind its value.
pub parse_fields-Scan :
    (fuel : ℕ) (bytes : List ℕ) (m : Fields)
    → length bytes ≤ fuel
    → Scan bytes m (parse_fields fuel bytes m)
unfolding parse_fields cut_at
parse_fields-Scan zero [] m h = no_more refl
parse_fields-Scan zero (_ ∷ _) m h = absurd (omega arith)
parse_fields-Scan (suc fuel) bytes m h = elim (Option-cases (cut_at b'=' bytes)) [
  | inl e ↦ rw (parse_fields-no_tag fuel bytes m e) (no_more e)
  | inr ((text, rest), e) ↦ elim (Option-cases (from_chars (2 ^ 31) text)) [
    | inl f ↦ rw (parse_fields-no_number fuel bytes text rest m e f) (no_number e f)
    | inr (tag, f) ↦
        let shorter : length (value_of rest).1 < length bytes =
          omega (arith, length-value_of rest, length-cut b'=' bytes text rest e) in
        rw (parse_fields-cut fuel bytes text rest _ _ tag m e f refl) (
          one_field e f (
            parse_fields-Scan fuel (value_of rest).1 (set_field tag (value_of rest).0 m)
              (omega arith)))
  ]
]
