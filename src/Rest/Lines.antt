-- ===== src/Rest/Lines.antt =====
-- src/protocol/rest_handler.cpp: the lines of a request's header, and how `HttpParser::parse` finds them.
use hftperformance.Prelude.{
  ℕ, zero, suc, ◌+◌, ◌-◌, ◌≤◌, ◌≡◌, ◌≢◌, refl, sym, ◌∙◌, ap, subst, false, List, [], ◌∷◌, ◌++◌,
  Option, none, some, length, length-append, ◌==◌, arith, inl, inr, Option-cases, All,
}
use mathlib.Core.List.{append_assoc, append-nil}
use hftperformance.Prelude.Text.{codes, Free, cut_at-append, cut, strip}
use hftperformance.Rest.Text.{TextMap, set_text}
use hftperformance.Rest.{crlf, header_lines, skip_blanks, add_header, parse_headers}
use hftperformance.Rest.Patterns.{set_all}

-- What stands before the place that is found is longer by `xs`.
abbrev pub behind_front : List ℕ → Option (List ℕ × List ℕ) → Option (List ℕ × List ℕ)
behind_front xs none = none
behind_front xs (some (front, rest)) = some (xs ++ front, rest)

cut_step :
    (s : List ℕ) (x : ℕ) (xs : List ℕ)
    → strip s (x ∷ xs) ≡ none
    → cut s (x ∷ xs) ≡ behind_front (x ∷ []) (cut s xs)
unfolding cut
cut_step s x xs h = elim (Option-cases (cut s xs)) [
  | inl e ↦ rw (cut, h, e) refl
  | inr ((front, rest), e) ↦ rw (cut, h, e) refl
]

cut-cons :
    (c x : ℕ) (s xs : List ℕ)
    → x ≢ c
    → cut (c ∷ s) (x ∷ xs) ≡ behind_front (x ∷ []) (cut (c ∷ s) xs)
unfolding strip
cut-cons c x s xs h =
    cut_step (c ∷ s) x xs (let other : (x == c) ≡ false = ground (arith, h) in rw other refl)

behind_front-append :
    (xs ys : List ℕ) (o : Option (List ℕ × List ℕ))
    → behind_front xs (behind_front ys o) ≡ behind_front (xs ++ ys) o
behind_front-append xs ys none = refl
behind_front-append xs ys (some (front, rest)) =
    ap (λ k. some (k, rest)) (sym (append_assoc xs ys front))

-- A text that starts with `c` is not found at a place without `c`.
cut-Free :
    (c : ℕ) (s line xs : List ℕ)
    → Free c line
    → cut (c ∷ s) (line ++ xs) ≡ behind_front line (cut (c ∷ s) xs)
cut-Free c s [] xs h = behind_front_nil (cut (c ∷ s) xs)
  where
    behind_front_nil : (o : Option (List ℕ × List ℕ)) → o ≡ behind_front [] o
    behind_front_nil none = refl
    behind_front_nil (some p) = refl
cut-Free c s (x ∷ line) xs h =
    cut-cons c x s (line ++ xs) h.0
    ∙ ap (behind_front (x ∷ [])) (cut-Free c s line xs h.1)
    ∙ behind_front-append (x ∷ []) line (cut (c ∷ s) xs)

-- `find` of the end of a line
pub cut-crlf :
    (line rest : List ℕ) → Free 13 line → cut crlf (line ++ (crlf ++ rest)) ≡ some (line, rest)
unfolding cut strip
cut-crlf line rest h =
    cut-Free 13 (10 ∷ []) line (crlf ++ rest) h ∙ ap (λ k. some (k, rest)) (append-nil line)

cut-blank_here : (rest : List ℕ) → cut (crlf ++ crlf) (crlf ++ (crlf ++ rest)) ≡ some ([], rest)
unfolding cut strip
cut-blank_here rest = refl

-- A line's end with another line behind it is not the blank line.
cut-blank_behind :
    (x : ℕ) (xs : List ℕ)
    → x ≢ 13
    → cut (crlf ++ crlf) (crlf ++ (x ∷ xs)) ≡ behind_front crlf (cut (crlf ++ crlf) (x ∷ xs))
unfolding strip
cut-blank_behind x xs h =
    let other : (x == 13) ≡ false = ground (arith, h) in
    cut_step (crlf ++ crlf) 13 (10 ∷ x ∷ xs) (rw other refl)
    ∙ ap (behind_front (13 ∷ [])) (cut_step (crlf ++ crlf) 10 (x ∷ xs) refl)
    ∙ behind_front-append (13 ∷ []) (10 ∷ []) (cut (crlf ++ crlf) (x ∷ xs))

-- The line of a header.
abbrev pub header_line : List ℕ × List ℕ → List ℕ
header_line (name, value) = name ++ codes ": " ++ value

-- The value does not start with a blank.
abbrev pub NoBlank : List ℕ → Type 0
NoBlank [] = Unit
NoBlank (c ∷ s) = c ≢ b' '

-- A header that can be read back: no colon in the name, no blank before the value, no line's end.
pub record IsHeader (h : List ℕ × List ℕ) : Type 0 where
  pub name : Free b':' h.0
  pub value : NoBlank h.1
  pub line : Free 13 (header_line h)

-- The lines up to the blank line, without the end of the last.
abbrev pub front_of : List ℕ → List (List ℕ × List ℕ) → List ℕ
front_of line [] = line
front_of line (h ∷ hs) = line ++ (crlf ++ front_of (header_line h) hs)

pub front_of_lines :
    (line : List ℕ) (hs : List (List ℕ × List ℕ)) (rest : List ℕ)
    → line ++ (crlf ++ (header_lines hs ++ (crlf ++ rest)))
      ≡ front_of line hs ++ (crlf ++ (crlf ++ rest))
unfolding header_lines
front_of_lines line [] rest = refl
front_of_lines line (h ∷ hs) rest =
    ap (λ k. line ++ (crlf ++ k))
      (append_assoc (header_line h ++ crlf) (header_lines hs) (crlf ++ rest)
        ∙ append_assoc (header_line h) crlf (header_lines hs ++ (crlf ++ rest))
        ∙ front_of_lines (header_line h) hs rest)
    ∙ sym (append_assoc line (crlf ++ front_of (header_line h) hs) (crlf ++ (crlf ++ rest)))

-- A header's line does not start with a line's end.
header_line-first :
    (h : List ℕ × List ℕ) (xs : List ℕ)
    → Free 13 (header_line h)
    → (y : ℕ) × (ys : List ℕ) × (header_line h ++ xs ≡ y ∷ ys) × (y ≢ 13)
header_line-first ([], value) xs f = (b':', b' ' ∷ value ++ xs, refl, f.0)
header_line-first (c ∷ name, value) xs f = (c, name ++ codes ": " ++ value ++ xs, refl, f.0)

-- The blank line is found behind the headers.
pub cut-front_of :
    (line : List ℕ) (hs : List (List ℕ × List ℕ)) (rest : List ℕ)
    → Free 13 line
    → All IsHeader hs
    → cut (crlf ++ crlf) (front_of line hs ++ (crlf ++ (crlf ++ rest)))
      ≡ some (front_of line hs, rest)
cut-front_of line [] rest f a =
    cut-Free 13 (10 ∷ crlf) line (crlf ++ (crlf ++ rest)) f
    ∙ ap (behind_front line) (cut-blank_here rest)
    ∙ ap (λ k. some (k, rest)) (append-nil line)
cut-front_of line (h ∷ hs) rest f a =
    let later : List ℕ = front_of (header_line h) hs ++ (crlf ++ (crlf ++ rest)) in
    ap (cut (crlf ++ crlf))
      (append_assoc line (crlf ++ front_of (header_line h) hs) (crlf ++ (crlf ++ rest)))
    ∙ cut-Free 13 (10 ∷ crlf) line (crlf ++ later) f
    ∙ ap (behind_front line) (behind later (starts hs))
    ∙ ap (behind_front line)
        (ap (behind_front crlf) (cut-front_of (header_line h) hs rest a.0.line a.1))
  where
    starts :
        (ks : List (List ℕ × List ℕ))
        → (y : ℕ) × (ys : List ℕ) × (front_of (header_line h) ks ++ (crlf ++ (crlf ++ rest))
            ≡ y ∷ ys)
          × (y ≢ 13)
    starts [] = header_line-first h (crlf ++ (crlf ++ rest)) a.0.line
    starts (k ∷ ks) =
        let (y, ys, e, ne) =
          header_line-first h ((crlf ++ front_of (header_line k) ks) ++ (crlf ++ (crlf ++ rest)))
            a.0.line in
        (
          y,
          ys,
          append_assoc (header_line h) (crlf ++ front_of (header_line k) ks)
                (crlf ++ (crlf ++ rest))
              ∙ e,
          ne,
        )

    behind :
        (xs : List ℕ)
        → ((y : ℕ) × (ys : List ℕ) × (xs ≡ y ∷ ys) × (y ≢ 13))
        → cut (crlf ++ crlf) (crlf ++ xs) ≡ behind_front crlf (cut (crlf ++ crlf) xs)
    behind xs (y, ys, e, ne) =
        subst (λ k. cut (crlf ++ crlf) (crlf ++ k) ≡ behind_front crlf (cut (crlf ++ crlf) k))
          (sym e) (cut-blank_behind y ys ne)

add_header-line :
    (h : List ℕ × List ℕ) (m : TextMap)
    → IsHeader h
    → add_header (header_line h) m ≡ set_text h.0 h.1 m
add_header-line (name, value) m k =
    ap (λ line. add_header line m) (append_assoc name (codes ": ") value) ∙ found
  where
    unskipped : (v : List ℕ) → NoBlank v → skip_blanks (b' ' ∷ v) ≡ v
    unskipped [] n = refl
    unskipped (c ∷ v) n = ground (arith, n)

    found : add_header (name ++ b':' ∷ b' ' ∷ value) m ≡ set_text name value m
    found =
        rw (add_header, cut_at-append b':' name (b' ' ∷ value) k.name, unskipped value k.value) refl

length-header_line : (h : List ℕ × List ℕ) → length (header_line h) ≡ length h.0 + length h.1 + 2
length-header_line (name, value) =
    omega (arith, length-append (name ++ codes ": ") value, length-append name (codes ": "))

parse_headers_step :
    (fuel left : ℕ) (bytes line rest : List ℕ) (m : TextMap)
    → cut crlf bytes ≡ some (line, rest)
    → parse_headers (suc fuel) (suc left) bytes m
      ≡ parse_headers fuel (suc left - (length line + 2)) rest (add_header line m)
unfolding parse_headers
parse_headers_step fuel left bytes line rest m e = rw (parse_headers, e) refl

length-lines :
    (h : List ℕ × List ℕ) (hs : List (List ℕ × List ℕ))
    → length (header_lines (h ∷ hs)) ≡ length (header_line h) + 2 + length (header_lines hs)
unfolding header_lines
length-lines h hs = omega (
  arith,
  length-append (header_line h ++ crlf) (header_lines hs),
  length-append (header_line h) crlf,
)

-- The loop takes all lines up to the blank line.
pub parse_headers-lines :
    (fuel : ℕ) (hs : List (List ℕ × List ℕ)) (rest : List ℕ) (m : TextMap)
    → All IsHeader hs
    → length (header_lines hs) ≤ fuel
    → parse_headers fuel (length (header_lines hs) - 2) (header_lines hs ++ (crlf ++ rest)) m
      ≡ set_all hs m
unfolding parse_headers header_lines
parse_headers-lines zero [] rest m a h = refl
parse_headers-lines (suc fuel) [] rest m a h = refl
parse_headers-lines zero (k ∷ hs) rest m a h = absurd (omega (arith, h, length-lines k hs))
parse_headers-lines (suc fuel) (k ∷ hs) rest m a h =
    let text : List ℕ = header_line k ++ (crlf ++ (header_lines hs ++ (crlf ++ rest))) in
    let left : ℕ = length (header_line k) + length (header_lines hs) - 1 in
    let begins : length (header_lines (k ∷ hs)) - 2 ≡ suc left =
      omega (arith, length-lines k hs, length-header_line k) in
    let goes : suc left - (length (header_line k) + 2) ≡ length (header_lines hs) - 2 =
      omega (arith, length-header_line k) in
    ap (λ n. parse_headers (suc fuel) n (header_lines (k ∷ hs) ++ (crlf ++ rest)) m) begins
    ∙ ap (λ t. parse_headers (suc fuel) (suc left) t m)
        (append_assoc (header_line k ++ crlf) (header_lines hs) (crlf ++ rest)
          ∙ append_assoc (header_line k) crlf (header_lines hs ++ (crlf ++ rest)))
    ∙ parse_headers_step fuel left text (header_line k) (header_lines hs ++ (crlf ++ rest)) m
        (cut-crlf (header_line k) (header_lines hs ++ (crlf ++ rest)) a.0.line)
    ∙ ap
        (λ n.
          parse_headers fuel n (header_lines hs ++ (crlf ++ rest)) (add_header (header_line k) m))
        goes
    ∙ ap
        (λ m'.
          parse_headers fuel (length (header_lines hs) - 2) (header_lines hs ++ (crlf ++ rest)) m')
        (add_header-line k m a.0)
    ∙ parse_headers-lines fuel hs rest (set_text k.0 k.1 m) a.1
        (omega (arith, h, length-lines k hs))
