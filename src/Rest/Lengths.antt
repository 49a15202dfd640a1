-- ===== src/Rest/Lengths.antt =====
-- src/protocol/rest_handler.cpp, `HttpParser::parse`: what the Content-Length of a request makes of it.
use hftperformance.Prelude.{
  ℕ, suc, ◌+◌, ◌-◌, ◌%◌, ◌^◌, ◌≤◌, ◌<◌, ◌≡◌, ◌≢◌, refl, sym, ◌∙◌, ap, true, false, List, [], ◌∷◌,
  ◌++◌, none, some, length, length-append, ltb, arith, inl, inr, Option-cases, Bool-cases, All,
  if◌then◌else◌,
}
use hftperformance.Prelude.Int.{pos}
use hftperformance.Prelude.Text.{codes, same_text, same_text_iff, same_text-ne, cut_at}
use hftperformance.Fix.Numbers.{starts_digit, read_digits, show_ℕ}
use hftperformance.Fix.Digits.{starts_digit-show_ℕ, read-show_ℕ}
use hftperformance.WebSocket.Bytes.{take, take-append}
use hftperformance.Rest.Text.{TextMap, find_text, set_text, stoul}
use hftperformance.Rest.{HttpRequest, set_target, returns, throws, to_int, finish}
use hftperformance.Rest.Patterns.{set_all}

-- An assignment of another name is not seen.
find-set_text_other :
    (name k v : List ℕ) (m : TextMap)
    → k ≢ name
    → find_text name (set_text k v m) ≡ find_text name m
unfolding find_text set_text
find-set_text_other name k v [] h = rw (same_text-ne k name h) refl
find-set_text_other name k v ((j, w) ∷ m) h = elim (Bool-cases (same_text j k)) [
  | inl e ↦
      let apart : same_text j name ≡ false =
        same_text-ne j name (λ same. h (sym ((same_text_iff j k).0 e) ∙ same)) in
      rw (set_text, e, find_text, apart, same_text-ne k name h) refl
  | inr e ↦
      let later : find_text name (set_text k v m) ≡ find_text name m =
        find-set_text_other name k v m h in
      rw (set_text, e, find_text, later) refl
]

pub find-set_all_other :
    (name : List ℕ) (hs : List (List ℕ × List ℕ)) (m : TextMap)
    → All (λ h. h.0 ≢ name) hs
    → find_text name (set_all hs m) ≡ find_text name m
find-set_all_other name [] m a = refl
find-set_all_other name ((k, v) ∷ hs) m a =
    find-set_all_other name hs (set_text k v m) a.1 ∙ find-set_text_other name k v m a.0

-- `std::stoul` of digits, and of no number.
pub stoul_digits :
    (s : List ℕ)
    → starts_digit s ≡ true
    → read_digits 0 s < 2 ^ 64
    → stoul s ≡ some (read_digits 0 s)
unfolding stoul
stoul_digits [] d h = absurd (cc d)
stoul_digits (c ∷ s) d h = ground (arith, d, h)

pub stoul-show_ℕ : (n : ℕ) → n < 2 ^ 64 → stoul (show_ℕ n) ≡ some n
stoul-show_ℕ n h =
    let small : n < 10 ^ 20 = omega (arith, h) in
    let value : read_digits 0 (show_ℕ n) ≡ n = read-show_ℕ n small in
    stoul_digits (show_ℕ n) (starts_digit-show_ℕ n small) (omega (arith, value, h)) ∙ ap some value

-- The target does not touch the headers and the body.
pub set_target-rest :
    (uri : List ℕ) (r : HttpRequest)
    → ((set_target uri r).headers ≡ r.headers) × ((set_target uri r).body ≡ r.body)
unfolding set_target
set_target-rest uri r = elim (Option-cases (cut_at b'?' uri)) [
  | inl e ↦ rw (set_target, e) (refl, refl)
  | inr (p, e) ↦ rw (set_target, e) (refl, refl)
]

-- The end of `parse` by what the header says.
module _ (header_end : ℕ) (rest : List ℕ) (r : HttpRequest) (text : List ℕ)
    (there : find_text (codes "Content-Length") r.headers ≡ some text) where
  pub finish-throws : stoul text ≡ none → finish header_end rest r ≡ (throws, r)
  unfolding finish
  finish-throws e = rw (finish, there, e) refl

  pub finish-waits :
      (n : ℕ)
      → stoul text ≡ some n
      → header_end + 4 + n < 2 ^ 64
      → length rest < n
      → finish header_end rest r ≡ (returns (pos 0), r)
  unfolding finish
  finish-waits n e small short =
      let waits : ltb (header_end + 4 + length rest) ((header_end + 4 + n) % 2 ^ 64) ≡ true =
        ground (arith, small, short) in
      rw (finish, there, e, waits) refl

  pub finish-body :
      (body more : List ℕ)
      → stoul text ≡ some (length body)
      → header_end + 4 + length body < 2 ^ 31
      → rest ≡ body ++ more
      → r.body ≡ []
      → finish header_end rest r
        ≡ (returns (pos (header_end + 4 + length body)), record r { body = body })
  unfolding finish to_int
  finish-body body more e small is empty =
      let total : (header_end + 4 + length body) % 2 ^ 64 ≡ header_end + 4 + length body =
        omega (arith, small) in
      let there_is : ltb (header_end + 4 + length rest) (header_end + 4 + length body) ≡ false =
        ground (arith, ap length is, length-append body more) in
      let int : to_int (header_end + 4 + length body) ≡ pos (header_end + 4 + length body) =
        ground (arith, small) in
      rw (finish, there, e, total, there_is, int)
        (ap (λ k. (returns (pos (header_end + 4 + length body)), k)) (body_is body is))
    where
      body_is :
          (b : List ℕ)
          → rest ≡ b ++ more
          → (if ltb 0 (length b) then record r { body = take (length b) rest } else r)
            ≡ record r { body = b }
      body_is [] k = ap (λ c. record r { body = c }) empty
      body_is (x ∷ b) k =
          let some_body : ltb 0 (suc (length b)) ≡ true = ground arith in
          rw some_body (
            ap (λ c. record r { body = c })
              (ap (take (length (x ∷ b))) k ∙ take-append (x ∷ b) more))

  -- A length of 2 ^ 64 - k, for a k up to the length of the header, makes the sum wrap.
  pub finish-wraps :
      (k : ℕ)
      → stoul text ≡ some (2 ^ 64 - k)
      → 0 < k
      → k ≤ header_end + 4
      → header_end + 4 < 2 ^ 31
      → finish header_end rest r
        ≡ (returns (pos (header_end + 4 - k)), record r { body = take (2 ^ 64 - k) rest })
  unfolding finish to_int
  finish-wraps k e positive most small =
      let total : (header_end + 4 + (2 ^ 64 - k)) % 2 ^ 64 ≡ header_end + 4 - k =
        omega (arith, small, most, positive) in
      let there_is : ltb (header_end + 4 + length rest) (header_end + 4 - k) ≡ false =
        ground (arith, positive) in
      let int : to_int (header_end + 4 - k) ≡ pos (header_end + 4 - k) = ground (arith, small) in
      let some_body : ltb 0 (2 ^ 64 - k) ≡ true = ground (arith, most, small) in
      rw (finish, there, e, total, there_is, int, some_body) refl
