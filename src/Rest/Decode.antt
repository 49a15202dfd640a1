-- ===== src/Rest/Decode.antt =====
-- src/protocol/rest_handler.cpp: `url_decode` and `parse_query_string` undo what a client writes.
use hftperformance.Prelude.{
  ℕ, zero, suc, ◌+◌, ◌*◌, ◌/◌, ◌%◌, ◌≤◌, ◌<◌, ◌≡◌, ◌≢◌, refl, sym, ◌∙◌, ap, Bool, false, ◌||◌, List,
  [], ◌∷◌, ◌++◌, none, some, length, length-append, ltb, ◌==◌, ==_iff, arith, inl, inr, Bool-cases,
  All, if◌then◌else◌,
}
use mathlib.Core.Path.{ap₂}
use mathlib.Core.List.{append-nil}
use hftperformance.Prelude.Text.{Free, cut_at, cut_at-append, cut_at-none}
use hftperformance.Rest.Text.{TextMap, set_text, url_decode, hex_byte, hex_value, is_space}
use hftperformance.Rest.{add_pair, parse_query_string}
use hftperformance.Rest.Patterns.{set_all}

-- A hexadecimal digit, and the three characters of an encoded byte.
abbrev pub hex_digit : ℕ → ℕ
hex_digit n = if ltb n 10 then 48 + n else 55 + n

abbrev pub percent : ℕ → List ℕ
percent c = b'%' ∷ hex_digit (c / 16) ∷ hex_digit (c % 16) ∷ []

-- The encoding by a client: some bytes, and those with a meaning, are percent-encoded; blanks become `+`.
abbrev pub url_encode : (ℕ → Bool) → List ℕ → List ℕ
url_encode coded [] = []
url_encode coded (c ∷ s) =
    if coded c || c == b'%' || c == b'+'
    then percent c ++ url_encode coded s
    else if c == b' '
    then b'+' ∷ url_encode coded s
    else c ∷ url_encode coded s

hex_value-digit : (n : ℕ) → n < 16 → hex_value (hex_digit n) ≡ some n
hex_value-digit n h = ground (arith, h)

hex_byte_two :
    (x y v w : ℕ)
    → (x == b'-') ≡ false
    → (x == b'+' || is_space x) ≡ false
    → hex_value x ≡ some v
    → hex_value y ≡ some w
    → hex_byte x y ≡ v * 16 + w
unfolding hex_byte
hex_byte_two x y v w minus blank first second = rw (hex_byte, minus, blank, first, second) refl

hex_byte-digits : (a b : ℕ) → a < 16 → b < 16 → hex_byte (hex_digit a) (hex_digit b) ≡ a * 16 + b
hex_byte-digits a b ha hb =
    hex_byte_two (hex_digit a) (hex_digit b) a b (ground (arith, ha)) (ground (arith, ha))
      (hex_value-digit a ha) (hex_value-digit b hb)

url_decode-percent :
    (a b : ℕ) (s : List ℕ) → url_decode (b'%' ∷ a ∷ b ∷ s) ≡ hex_byte a b ∷ url_decode s
unfolding url_decode
url_decode-percent a b s = refl

-- A character that starts no code stands for itself, or for a blank.
url_decode-plain :
    (c : ℕ) (s : List ℕ)
    → c ≢ b'%'
    → url_decode (c ∷ s) ≡ (if c == b'+' then b' ' else c) ∷ url_decode s
unfolding url_decode
url_decode-plain c [] h = refl
url_decode-plain c (a ∷ []) h = refl
url_decode-plain c (a ∷ b ∷ s) h = ground (arith, h)

-- `url_decode` gives back the bytes that a client has encoded, whichever others it percent-encodes too.
pub url_decode-encode :
    (coded : ℕ → Bool) (s : List ℕ) → All (λ c. c < 256) s → url_decode (url_encode coded s) ≡ s
unfolding url_decode
url_decode-encode coded [] h = refl
url_decode-encode coded (c ∷ s) h =
    let rest : url_decode (url_encode coded s) ≡ s = url_decode-encode coded s h.1 in
    elim (Bool-cases (coded c || c == b'%' || c == b'+')) [
      | inl e ↦
          let byte : c / 16 * 16 + c % 16 ≡ c = omega arith in
          rw e (
            url_decode-percent (hex_digit (c / 16)) (hex_digit (c % 16)) (url_encode coded s)
            ∙ ap₂ (λ k t. k ∷ t)
                (hex_byte-digits (c / 16) (c % 16) (omega (arith, h.0)) (omega arith) ∙ byte) rest)
      | inr e ↦
          let (percent_ne, plus_ne) = plain_ne e in
          elim (Bool-cases (c == b' ')) [
            | inl f ↦
                let blank : c ≡ b' ' = (==_iff _ _).0 f in
                rw (e, f)
                  (url_decode-plain b'+' (url_encode coded s) (λ k. omega arith)
                    ∙ ap₂ (λ k t. k ∷ t) (sym blank) rest)
            | inr f ↦
                let kept : (if c == b'+' then b' ' else c) ≡ c = ground (arith, plus_ne) in
                rw (e, f)
                  (url_decode-plain c (url_encode coded s) percent_ne
                    ∙ ap₂ (λ k t. k ∷ t) kept rest)
          ]
    ]
  where
    plain_ne : (coded c || c == b'%' || c == b'+') ≡ false → (c ≢ b'%') × (c ≢ b'+')
    plain_ne e = (λ k. ground (arith, k, e), λ k. ground (arith, k, e))

-- The text of parameters: names and values with `=` between them, separated by `&`.
abbrev pub query_text : List (List ℕ × List ℕ) → List ℕ
query_text [] = []
query_text ((name, value) ∷ []) = name ++ b'=' ∷ value
query_text ((name, value) ∷ p ∷ ps) = (name ++ b'=' ∷ value) ++ b'&' ∷ query_text (p ∷ ps)

-- A parameter that can be read back.
pub record IsPair (p : List ℕ × List ℕ) : Type 0 where
  pub name : Free b'=' p.0
  pub whole : Free b'&' (p.0 ++ b'=' ∷ p.1)

add_pair-text :
    (name value : List ℕ) (m : TextMap)
    → Free b'=' name
    → add_pair (name ++ b'=' ∷ value) m ≡ set_text name value m
add_pair-text name value m h = rw (add_pair, cut_at-append b'=' name value h) refl

query_last :
    (fuel c : ℕ) (text : List ℕ) (m : TextMap)
    → cut_at b'&' (c ∷ text) ≡ none
    → parse_query_string (suc fuel) (c ∷ text) m ≡ add_pair (c ∷ text) m
unfolding parse_query_string
query_last fuel c text m e = rw (parse_query_string, e) refl

query_more :
    (fuel c : ℕ) (text first rest : List ℕ) (m : TextMap)
    → cut_at b'&' (c ∷ text) ≡ some (first, rest)
    → parse_query_string (suc fuel) (c ∷ text) m ≡ parse_query_string fuel rest (add_pair first m)
unfolding parse_query_string
query_more fuel c text first rest m e = rw (parse_query_string, e) refl

-- The text of a parameter starts with something.
pair_first :
    (name value more : List ℕ)
    → (c : ℕ) × (text : List ℕ) × ((name ++ b'=' ∷ value) ++ more ≡ c ∷ text)
pair_first [] value more = (b'=', value ++ more, refl)
pair_first (c ∷ name) value more = (c, (name ++ b'=' ∷ value) ++ more, refl)

-- `parse_query_string` reads back parameters that are written `name=value` with `&` between them, where no
-- name has `=` or `&` and no value `&`, into the map that holds them, later ones over earlier ones of the
-- same name, with fuel for the length of the text.
pub parse_query_string-text :
    (fuel : ℕ) (ps : List (List ℕ × List ℕ)) (m : TextMap)
    → All IsPair ps
    → length (query_text ps) ≤ fuel
    → parse_query_string fuel (query_text ps) m ≡ set_all ps m
unfolding parse_query_string
parse_query_string-text zero [] m a h = refl
parse_query_string-text (suc fuel) [] m a h = refl
parse_query_string-text zero ((name, value) ∷ []) m a h =
    absurd (omega (arith, h, length-append name (b'=' ∷ value)))
parse_query_string-text (suc fuel) ((name, value) ∷ []) m a h =
    let (c, text, e) = pair_first name value [] in
    let whole : name ++ b'=' ∷ value ≡ c ∷ text = sym (append-nil (name ++ b'=' ∷ value)) ∙ e in
    ap (λ t. parse_query_string (suc fuel) t m) whole
    ∙ query_last fuel c text m
        (ap (cut_at b'&') (sym whole) ∙ cut_at-none b'&' (name ++ b'=' ∷ value) a.0.whole)
    ∙ ap (λ t. add_pair t m) (sym whole)
    ∙ add_pair-text name value m a.0.name
parse_query_string-text zero ((name, value) ∷ p ∷ ps) m a h =
    absurd (omega (arith, h, length-append (name ++ b'=' ∷ value) (b'&' ∷ query_text (p ∷ ps))))
parse_query_string-text (suc fuel) ((name, value) ∷ p ∷ ps) m a h =
    let later : List ℕ = query_text (p ∷ ps) in
    let (c, text, e) = pair_first name value (b'&' ∷ later) in
    ap (λ t. parse_query_string (suc fuel) t m) e
    ∙ query_more fuel c text (name ++ b'=' ∷ value) later m
        (ap (cut_at b'&') (sym e) ∙ cut_at-append b'&' (name ++ b'=' ∷ value) later a.0.whole)
    ∙ ap (parse_query_string fuel later) (add_pair-text name value m a.0.name)
    ∙ parse_query_string-text fuel (p ∷ ps) (set_text name value m) a.1
        (omega (arith, h, length-append (name ++ b'=' ∷ value) (b'&' ∷ later)))
