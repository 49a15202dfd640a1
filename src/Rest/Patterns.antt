-- ===== src/Rest/Patterns.antt =====
-- src/protocol/rest_handler.cpp: what `Route::match` accepts, as a relation of patterns and paths.
use hftperformance.Prelude.{
  ℕ, zero, suc, ◌<◌, ◌≡◌, ◌≢◌, refl, sym, ◌∙◌, ap, subst, true, false, List, [], ◌∷◌, ◌++◌, map,
  length, length-append, ◌==◌, arith, inl, inr, Bool-cases,
}
use native.Mathlib.Decide.{ℕ_discrete}
use hftperformance.Prelude.Text.{Free}
use hftperformance.Rest.Text.{TextMap, set_text}
use hftperformance.Rest.Router.{until_slash, bind, later_names, match_from}

-- The text is at its end or at a slash.
abbrev pub AtSlash : List ℕ → Type 0
AtSlash [] = Unit
AtSlash (c ∷ s) = c ≡ b'/'

-- The path fits the pattern, where the parameters take these values: a colon starts a parameter, whose name
-- and value end before the next slash or at the end; the rest is the same. At the end of the pattern a
-- value is not empty.
pub data Fits : List ℕ → List ℕ → List (List ℕ × List ℕ) → Type 0 where
  done : Fits [] [] []
  same :
      {p q : List ℕ} {bs : List (List ℕ × List ℕ)} (c : ℕ)
      → c ≢ b':'
      → Fits p q bs
      → Fits (c ∷ p) (c ∷ q) bs
  param :
      {p q : List ℕ} {bs : List (List ℕ × List ℕ)} (name value : List ℕ)
      → Free b'/' name
      → Free b'/' value
      → AtSlash p
      → AtSlash q
      → value ++ q ≢ []
      → Fits p q bs
      → Fits (b':' ∷ name ++ p) (value ++ q) ((name, value) ∷ bs)

-- All the values assigned to their names, in order.
abbrev pub set_all : List (List ℕ × List ℕ) → TextMap → TextMap
set_all [] params = params
set_all ((name, value) ∷ bs) params = set_all bs (set_text name value params)

abbrev pub assign : List (List ℕ) → List (List ℕ × List ℕ) → TextMap → TextMap
assign names [] params = params
assign names ((_, value) ∷ bs) params = assign (later_names names) bs (bind names value params)

pub assign_names :
    (bs : List (List ℕ × List ℕ)) (params : TextMap)
    → assign (map (λ b. b.0) bs) bs params ≡ set_all bs params
assign_names [] params = refl
assign_names ((name, value) ∷ bs) params = assign_names bs (set_text name value params)

-- `until_slash` stops before the first slash.
pub until_slash-append :
    (s rest : List ℕ) → Free b'/' s → AtSlash rest → until_slash (s ++ rest) ≡ (s, rest)
unfolding until_slash
until_slash-append [] [] h e = refl
until_slash-append [] (c ∷ rest) h e = ground (arith, e)
until_slash-append (c ∷ s) rest h e = ground (arith, h.0, until_slash-append s rest h.1 e)

until_slash_parts :
    (s : List ℕ)
    → (s ≡ (until_slash s).0 ++ (until_slash s).1)
      × Free b'/' (until_slash s).0
      × AtSlash (until_slash s).1
unfolding until_slash
until_slash_parts [] = (refl, tt, tt)
until_slash_parts (c ∷ s) = elim (Bool-cases (c == b'/')) [
  | inl e ↦ rw e (refl, tt, ground (arith, e))
  | inr e ↦
      let (parts, free, at) = until_slash_parts s in
      rw e (ap (λ k. c ∷ k) parts, (ground (arith, e), free), at)
]

-- The loop goes on in one of these ways.
module _ (fuel c d : ℕ) (p q : List ℕ) (names : List (List ℕ)) (params : TextMap) where
  match_from-param :
      match_from (suc fuel) (b':' ∷ p) (d ∷ q) names params
      ≡ match_from fuel
          (until_slash p).1
          (until_slash (d ∷ q)).1
          (later_names names)
          (bind names (until_slash (d ∷ q)).0 params)
  unfolding match_from until_slash
  match_from-param = refl

  match_from-same :
      c ≢ b':'
      → c ≡ d
      → match_from (suc fuel) (c ∷ p) (d ∷ q) names params ≡ match_from fuel p q names params
  unfolding match_from
  match_from-same h e = ground (arith, h, e)

  match_from-differs :
      c ≢ b':' → c ≢ d → match_from (suc fuel) (c ∷ p) (d ∷ q) names params ≡ (false, params)
  unfolding match_from
  match_from-differs h e = ground (arith, h, e)

-- A fitting path is matched, whatever the names.
pub match_from-Fits :
    (fuel : ℕ) {p q : List ℕ} {bs : List (List ℕ × List ℕ)} (names : List (List ℕ))
    (params : TextMap)
    → Fits p q bs
    → length p < fuel
    → match_from fuel p q names params ≡ (true, assign names bs params)
unfolding match_from
match_from-Fits zero names params f h = absurd (omega arith)
match_from-Fits (suc fuel) names params done h = refl
match_from-Fits (suc fuel) names params (same {p} {q} c ne f) h =
    match_from-same fuel c c p q names params ne refl
    ∙ match_from-Fits fuel names params f (omega arith)
match_from-Fits (suc fuel) names params
      (param {p} {q} {bs} name value free_name free_value at_p at_q some_value f) h =
    go (value ++ q) refl some_value (
      match_from-Fits fuel (later_names names) (bind names value params) f
        (omega (arith, h, length-append name p)))
  where
    go :
        (path : List ℕ)
        → value ++ q ≡ path
        → path ≢ []
        → match_from fuel p q (later_names names) (bind names value params)
          ≡ (true, assign (later_names names) bs (bind names value params))
        → match_from (suc fuel) (b':' ∷ name ++ p) path names params
          ≡ (true, assign (later_names names) bs (bind names value params))
    go [] e ne later = absurd (ne refl)
    go (d ∷ path) e ne later =
        let seg : until_slash (d ∷ path) ≡ (value, q) =
          ap until_slash (sym e) ∙ until_slash-append value q free_value at_q in
        match_from-param fuel b':' d (name ++ p) path names params
        ∙ ap
            (λ u.
              match_from fuel u.1 (until_slash (d ∷ path)).1 (later_names names)
                (bind names (until_slash (d ∷ path)).0 params))
            (until_slash-append name p free_name at_p)
        ∙ ap (λ u. match_from fuel p u.1 (later_names names) (bind names u.0 params)) seg
        ∙ later

-- What is matched fits.
pub Fits-match_from :
    (fuel : ℕ) (p q : List ℕ) (names : List (List ℕ)) (params params' : TextMap)
    → match_from fuel p q names params ≡ (true, params')
    → (bs : List (List ℕ × List ℕ)) × Fits p q bs × (params' ≡ assign names bs params)
unfolding match_from
Fits-match_from zero p q names params params' e = absurd (cc e)
Fits-match_from (suc fuel) [] [] names params params' e = ([], done, ap (λ r. r.1) (sym e))
Fits-match_from (suc fuel) [] (d ∷ q) names params params' e = absurd (cc e)
Fits-match_from (suc fuel) (c ∷ p) [] names params params' e = absurd (cc e)
Fits-match_from (suc fuel) (c ∷ p) (d ∷ q) names params params' e = elim (ℕ_discrete c b':') [
  | yes colon ↦
      let (p_is, free_p, at_p) = until_slash_parts p in
      let (q_is, free_q, at_q) = until_slash_parts (d ∷ q) in
      let some_value : (until_slash (d ∷ q)).0 ++ (until_slash (d ∷ q)).1 ≢ [] =
        λ nil. cc (q_is, nil) in
      let goes : match_from fuel (until_slash p).1 (until_slash (d ∷ q)).1 (later_names names)
            (bind names (until_slash (d ∷ q)).0 params)
          ≡ (true, params') =
        sym (match_from-param fuel b':' d p q names params)
        ∙ ap (λ k. match_from (suc fuel) (k ∷ p) (d ∷ q) names params) (sym colon)
        ∙ e in
      let (bs, f, is) =
        Fits-match_from fuel (until_slash p).1 (until_slash (d ∷ q)).1 (later_names names)
          (bind names (until_slash (d ∷ q)).0 params) params' goes in
      (
        ((until_slash p).0, (until_slash (d ∷ q)).0) ∷ bs,
        subst (λ k. Fits (k ∷ p) (d ∷ q) (((until_slash p).0, (until_slash (d ∷ q)).0) ∷ bs))
            (sym colon)
            (subst (λ k. Fits (b':' ∷ p) k (((until_slash p).0, (until_slash (d ∷ q)).0) ∷ bs))
              (sym q_is)
              (subst
                (λ k.
                  Fits (b':' ∷ k) ((until_slash (d ∷ q)).0 ++ (until_slash (d ∷ q)).1)
                    (((until_slash p).0, (until_slash (d ∷ q)).0) ∷ bs))
                (sym p_is)
                (param (until_slash p).0 (until_slash (d ∷ q)).0 free_p free_q at_p at_q some_value
                  f))),
        is,
      )
  | no plain ↦ elim (ℕ_discrete c d) [
    | yes eq_d ↦
        let (bs, f, is) =
          Fits-match_from fuel p q names params params'
            (sym (match_from-same fuel c d p q names params plain eq_d) ∙ e) in
        (bs, subst (λ k. Fits (c ∷ p) (k ∷ q) bs) eq_d (same c plain f), is)
    | no differs ↦ absurd (cc (match_from-differs fuel c d p q names params plain differs, e))
  ]
]
