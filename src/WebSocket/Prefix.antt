-- ===== src/WebSocket/Prefix.antt =====
-- What `parse` does on a part of a frame, and on a frame with more behind it.
use hftperformance.Prelude.{
  ℕ, zero, suc, ◌+◌, ◌*◌, ◌%◌, ◌^◌, ◌<◌, ◌≤◌, ◌≡◌, refl, Bool, true, false, List, [], ◌∷◌, ◌++◌,
  Option, none, some, length, length-append, All, leb, inl, inr, ◌⊎◌, arith, Option-cases,
}
use mathlib.Core.List.{append-nil}
use hftperformance.WebSocket.Bytes.{take-append_le, read_be, to_be, read_be-to_be_eight}
use hftperformance.WebSocket.RoundTrip.{IsByte, IsKey, sent_frame, parse-encode}
use hftperformance.WebSocket.{
  WebSocketOpcode, WebSocketFrame, Parsed, need_more, throws, parsed, parse_payload, parse_mask,
  parse_length, parse, encode,
}

-- The frame and its size do not change with what stands behind it.
payload-append :
    (op : ℕ) (fin : Bool) (hl n : ℕ) (mask : Option (List ℕ)) (rest more : List ℕ)
    (f : WebSocketFrame) (k : ℕ)
    → parse_payload op fin hl n mask rest ≡ parsed f k
    → (hl ≤ k)
      × (k ≤ hl + length rest)
      × (parse_payload op fin hl n mask (rest ++ more) ≡ parsed f k)
unfolding parse_payload
payload-append op fin hl n none rest more f k e =
    ground (arith, e, length-append rest more, take-append_le n rest more)
payload-append op fin hl n (some key) rest more f k e =
    ground (arith, e, length-append rest more, take-append_le n rest more)

mask-append :
    (op : ℕ) (fin masked : Bool) (hl n : ℕ) (rest more : List ℕ) (f : WebSocketFrame) (k : ℕ)
    → parse_mask op fin masked hl n rest ≡ parsed f k
    → (hl ≤ k)
      × (k ≤ hl + length rest)
      × (parse_mask op fin masked hl n (rest ++ more) ≡ parsed f k)
unfolding parse_mask
mask-append op fin true hl n [] more f k e = absurd (cc e)
mask-append op fin true hl n (a ∷ []) more f k e = absurd (cc e)
mask-append op fin true hl n (a ∷ b ∷ []) more f k e = absurd (cc e)
mask-append op fin true hl n (a ∷ b ∷ c ∷ []) more f k e = absurd (cc e)
mask-append op fin true hl n (a ∷ b ∷ c ∷ d ∷ rest) more f k e =
    let r = payload-append op fin (hl + 4) n (some (a ∷ b ∷ c ∷ d ∷ [])) rest more f k e in
    (omega (arith, r.0), omega (arith, r.1), r.2)
mask-append op fin false hl n rest more f k e = payload-append op fin hl n none rest more f k e

read_be-append :
    (n acc : ℕ) (bytes more : List ℕ) (v : ℕ) (rest : List ℕ)
    → read_be n acc bytes ≡ some (v, rest)
    → (n + length rest ≡ length bytes) × (read_be n acc (bytes ++ more) ≡ some (v, rest ++ more))
unfolding read_be
read_be-append zero acc bytes more v rest e = ground (arith, e)
read_be-append (suc n) acc [] more v rest e = absurd (cc e)
read_be-append (suc n) acc (b ∷ bytes) more v rest e =
    let r = read_be-append n (acc * 256 + b) bytes more v rest e in (omega (arith, r.0), r.1)

length-append_cases :
    (op : ℕ) (fin masked : Bool) (n : ℕ) (rest more : List ℕ) (f : WebSocketFrame) (k : ℕ)
    → parse_length op fin masked n rest ≡ parsed f k
    → (2 ≤ k) × (k ≤ 2 + length rest) × (parse_length op fin masked n (rest ++ more) ≡ parsed f k)
unfolding parse_length
length-append_cases op fin masked n rest more f k e = elim (Option-cases (read_be n 0 rest)) [
  | inl q ↦ absurd (ground (arith, e, q))
  | inr ((v, rest'), q) ↦
      let r = read_be-append n 0 rest more v rest' q in
      let known : parse_mask op fin masked (2 + n) v rest' ≡ parsed f k = ground (arith, e, q) in
      let s = mask-append op fin masked (2 + n) v rest' more f k known in
      (omega (arith, s.0), omega (arith, s.1, r.0), ground (arith, r.1, s.2))
]

-- A frame takes at least two bytes and no more than there are, and bytes behind it change nothing.
pub parse-append :
    (bytes more : List ℕ) (f : WebSocketFrame) (k : ℕ)
    → parse bytes ≡ parsed f k
    → (2 ≤ k) × (k ≤ length bytes) × (parse (bytes ++ more) ≡ parsed f k)
unfolding parse
parse-append [] more f k e = absurd (cc e)
parse-append (b0 ∷ []) more f k e = absurd (cc e)
parse-append (b0 ∷ b1 ∷ rest) more f k e = ground (
  arith,
  e,
  length-append_cases (b0 % 16) (leb 128 b0) (leb 128 b1) 2 rest more f k,
  length-append_cases (b0 % 16) (leb 128 b0) (leb 128 b1) 8 rest more f k,
  mask-append (b0 % 16) (leb 128 b0) (leb 128 b1) 2 (b1 % 128) rest more f k,
)

payload_throws :
    (op : ℕ) (fin : Bool) (hl n : ℕ) (mask : Option (List ℕ)) (rest more : List ℕ)
    → hl ≤ 14
    → length (rest ++ more) < 2 ^ 63
    → parse_payload op fin hl n mask rest ≡ throws
    → parse_payload op fin hl n mask (rest ++ more) ≡ throws
unfolding parse_payload
payload_throws op fin hl n none rest more h small e = ground (arith, e, length-append rest more)
payload_throws op fin hl n (some key) rest more h small e =
    ground (arith, e, length-append rest more)

mask_throws :
    (op : ℕ) (fin masked : Bool) (hl n : ℕ) (rest more : List ℕ)
    → hl ≤ 10
    → length (rest ++ more) < 2 ^ 63
    → parse_mask op fin masked hl n rest ≡ throws
    → parse_mask op fin masked hl n (rest ++ more) ≡ throws
unfolding parse_mask
mask_throws op fin true hl n [] more h small e = absurd (cc e)
mask_throws op fin true hl n (a ∷ []) more h small e = absurd (cc e)
mask_throws op fin true hl n (a ∷ b ∷ []) more h small e = absurd (cc e)
mask_throws op fin true hl n (a ∷ b ∷ c ∷ []) more h small e = absurd (cc e)
mask_throws op fin true hl n (a ∷ b ∷ c ∷ d ∷ rest) more h small e =
    payload_throws op fin (hl + 4) n (some (a ∷ b ∷ c ∷ d ∷ [])) rest more (omega arith)
      (omega arith) e
mask_throws op fin false hl n rest more h small e =
    payload_throws op fin hl n none rest more (omega arith) small e

length_throws :
    (op : ℕ) (fin masked : Bool) (n : ℕ) (rest more : List ℕ)
    → n ≤ 8
    → length (rest ++ more) < 2 ^ 63
    → parse_length op fin masked n rest ≡ throws
    → parse_length op fin masked n (rest ++ more) ≡ throws
unfolding parse_length
length_throws op fin masked n rest more h small e = elim (Option-cases (read_be n 0 rest)) [
  | inl q ↦ absurd (ground (arith, e, q))
  | inr ((v, rest'), q) ↦
      let r = read_be-append n 0 rest more v rest' q in
      let known : parse_mask op fin masked (2 + n) v rest' ≡ throws = ground (arith, e, q) in
      let fewer : length (rest' ++ more) < 2 ^ 63 =
        omega (arith, small, r.0, length-append rest more, length-append rest' more) in
      ground (arith, r.1, mask_throws op fin masked (2 + n) v rest' more (omega arith) fewer known)
]

-- Bytes behind a length that makes `parse` throw do not mend it.
parse_throws :
    (bytes more : List ℕ)
    → length (bytes ++ more) < 2 ^ 63
    → parse bytes ≡ throws
    → parse (bytes ++ more) ≡ throws
unfolding parse
parse_throws [] more small e = absurd (cc e)
parse_throws (b0 ∷ []) more small e = absurd (cc e)
parse_throws (b0 ∷ b1 ∷ rest) more small e = ground (
  arith,
  e,
  small,
  length_throws (b0 % 16) (leb 128 b0) (leb 128 b1) 2 rest more,
  length_throws (b0 % 16) (leb 128 b0) (leb 128 b1) 8 rest more,
  mask_throws (b0 % 16) (leb 128 b0) (leb 128 b1) 2 (b1 % 128) rest more,
)

pub Parsed-cases :
    (r : Parsed)
    → (r ≡ need_more) ⊎ (r ≡ throws) ⊎ ((f : WebSocketFrame) × (k : ℕ) × (r ≡ parsed f k))
Parsed-cases need_more = inl refl
Parsed-cases throws = inr (inl refl)
Parsed-cases (parsed f k) = inr (inr (f, k, refl))

-- On every proper part from the front of an encoded frame of fewer than 2 ^ 63 bytes, `parse` asks for
-- more.
pub parse_truncated :
    (op : WebSocketOpcode) (payload : List ℕ) (mask : Option (List ℕ)) (front back : List ℕ) (x : ℕ)
    → IsKey mask
    → All IsByte payload
    → length (encode op payload mask) < 2 ^ 63
    → length payload < 2 ^ 63
    → encode op payload mask ≡ front ++ x ∷ back
    → parse front ≡ need_more
parse_truncated op payload mask front back x hk hp small few e = elim (Parsed-cases (parse front)) [
  | inl q ↦ q
  | inr (inl q) ↦ let t = parse_throws front (x ∷ back) (rw (← e) small) q in absurd (cc (whole, t))
  | inr (inr (f, k, q)) ↦
      let r = parse-append front (x ∷ back) f k q in
      let same : parsed f k ≡ parsed (sent_frame op payload mask) (length (front ++ x ∷ back)) =
        cc (whole, r.2) in
      let sizes : k ≡ length (front ++ x ∷ back) = cc same in
      absurd (omega (arith, r.1, sizes, length-append front (x ∷ back)))
]
  where
    whole :
        parse (front ++ x ∷ back) ≡ parsed (sent_frame op payload mask) (length (front ++ x ∷ back))
    whole = rw (append-nil, e) at (parse-encode op payload mask [] hk hp few)

-- An announced length of 2 ^ 64 - 10 or more makes the sum in the test for a complete frame wrap round:
-- `parse` does not ask for more but tries to make room for the payload, which throws.
pub parse_wraps :
    (b0 v : ℕ) (rest : List ℕ)
    → 2 ^ 64 ≤ v + 10
    → v < 2 ^ 64
    → length rest < 2 ^ 63
    → parse (b0 ∷ 127 ∷ to_be 8 v ++ rest) ≡ throws
unfolding parse parse_length parse_mask parse_payload
parse_wraps b0 v rest h fits small = ground (arith, read_be-to_be_eight v rest fits)
