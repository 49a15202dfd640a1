-- ===== src/WebSocket/RoundTrip.antt =====
-- `parse` reads back what `encode` writes, whatever follows it.
use hftperformance.Prelude.{
  ℕ, zero, suc, ◌+◌, ◌%◌, ◌^◌, ◌<◌, ◌≤◌, ◌≡◌, refl, Bool, true, false, List, [], ◌∷◌, ◌++◌, Option,
  none, some, length, length-append, All, ltb, leb, inl, inr, ◌⊎◌, arith, Bool-cases,
}
use mathlib.Core.List.{append_assoc}
use hftperformance.WebSocket.Bytes.{
  get_or, take-append, length-to_be, read_be-to_be_two, read_be-to_be_eight, xor_twice,
}
use hftperformance.WebSocket.{
  WebSocketOpcode, continuation, text, binary, close, ping, pong, code, WebSocketFrame, parsed,
  apply_mask, parse_payload, parse_mask, parse_length, parse, encode_length, encode,
}

abbrev pub IsByte : ℕ → Type 0
IsByte b = b < 256

get_or-IsByte : (key : List ℕ) (i : ℕ) → All IsByte key → IsByte (get_or key i 0)
get_or-IsByte [] i h = omega arith
get_or-IsByte (k ∷ key) zero h = h.0
get_or-IsByte (k ∷ key) (suc i) h = get_or-IsByte key i h.1

pub length-apply_mask :
    (key : List ℕ) (i : ℕ) (bytes : List ℕ) → length (apply_mask key i bytes) ≡ length bytes
unfolding apply_mask
length-apply_mask key i [] = refl
length-apply_mask key i (b ∷ bytes) = omega (arith, length-apply_mask key (i + 1) bytes)

-- Masking with one key twice gives the bytes back.
pub apply_mask_twice :
    (key : List ℕ) (i : ℕ) (bytes : List ℕ)
    → All IsByte key
    → All IsByte bytes
    → apply_mask key i (apply_mask key i bytes) ≡ bytes
unfolding apply_mask
apply_mask_twice key i [] hk h = refl
apply_mask_twice key i (b ∷ bytes) hk h = ground (
  arith,
  xor_twice b (get_or key (i % 4) 0) h.0 (get_or-IsByte key (i % 4) hk),
  apply_mask_twice key (i + 1) bytes hk h.1,
)

-- The header that `encode_length` writes is read back, for a payload below 2 ^ 63 bytes.
header_read :
    (b0 bit n : ℕ) (body : List ℕ)
    → (bit ≡ 0) ⊎ (bit ≡ 128)
    → n < 2 ^ 63
    → parse (b0 ∷ encode_length bit n ++ body)
      ≡ parse_mask (b0 % 16) (leb 128 b0) (leb 128 bit) (1 + length (encode_length bit n)) n body
unfolding parse encode_length parse_length
header_read b0 bit n body hb h = elim (Bool-cases (ltb n 126)) [
  | inl e ↦ rw e (ground (arith, hb, e))
  | inr e ↦ elim (Bool-cases (ltb n 65536)) [
    | inl f ↦ rw (e, f) (ground (arith, hb, f, read_be-to_be_two n body, length-to_be 2 n))
    | inr f ↦ rw (e, f) (ground (arith, hb, f, read_be-to_be_eight n body, length-to_be 8 n))
  ]
]

code_bits :
    (op : WebSocketOpcode) → ((0x80 + code op) % 16 ≡ code op) × (leb 128 (0x80 + code op) ≡ true)
code_bits continuation = (refl, refl)
code_bits text = (refl, refl)
code_bits binary = (refl, refl)
code_bits close = (refl, refl)
code_bits ping = (refl, refl)
code_bits pong = (refl, refl)

encode_length_bounds :
    (bit n : ℕ) → (1 ≤ length (encode_length bit n)) × (length (encode_length bit n) ≤ 9)
unfolding encode_length
encode_length_bounds bit n = ground (arith, length-to_be 2 n, length-to_be 8 n)

plain_payload :
    (op : ℕ) (hl : ℕ) (payload rest : List ℕ)
    → hl ≤ 14
    → length payload < 2 ^ 63
    → parse_payload op true hl (length payload) none (payload ++ rest)
      ≡ parsed
          (record { opcode = op; fin = true; masked = false; payload = payload })
          (hl + length payload)
unfolding parse_payload
plain_payload op hl payload rest h k =
    ground (arith, length-append payload rest, take-append payload rest)

masked_payload :
    (op : ℕ) (hl : ℕ) (key bytes rest : List ℕ)
    → hl ≤ 14
    → length bytes < 2 ^ 63
    → parse_payload op true hl (length bytes) (some key) (bytes ++ rest)
      ≡ parsed
          (record { opcode = op; fin = true; masked = true; payload = apply_mask key 0 bytes })
          (hl + length bytes)
unfolding parse_payload
masked_payload op hl key bytes rest h k =
    ground (arith, length-append bytes rest, take-append bytes rest)

-- A masking key has four bytes.
abbrev pub IsKey : Option (List ℕ) → Type 0
IsKey none = Unit
IsKey (some key) = (length key ≡ 4) × All IsByte key

abbrev pub is_masked : Option (List ℕ) → Bool
is_masked none = false
is_masked (some key) = true

-- The frame that `encode` is given.
abbrev pub sent_frame : WebSocketOpcode → List ℕ → Option (List ℕ) → WebSocketFrame
sent_frame op payload mask = record {
  opcode = code op;
  fin = true;
  masked = is_masked mask;
  payload = payload;
}

parse-encode_masked :
    (op : WebSocketOpcode) (payload rest : List ℕ) (k0 k1 k2 k3 : ℕ)
    → let key = k0 ∷ k1 ∷ k2 ∷ k3 ∷ [] in
      All IsByte key
      → All IsByte payload
      → length payload < 2 ^ 63
      → parse (encode op payload (some key) ++ rest)
        ≡ parsed (sent_frame op payload (some key)) (length (encode op payload (some key)))
unfolding encode parse_mask
parse-encode_masked op payload rest k0 k1 k2 k3 hk hp small = ground (
  arith,
  header_read (0x80 + code op) 0x80 (length payload) (key ++ apply_mask key 0 payload ++ rest)
      (inr refl) small,
  append_assoc (encode_length 0x80 (length payload)) (key ++ apply_mask key 0 payload) rest,
  code_bits op,
  masked_payload (code op) (1 + length (encode_length 0x80 (length payload)) + 4) key
      (apply_mask key 0 payload) rest,
  length-apply_mask key 0 payload,
  apply_mask_twice key 0 payload hk hp,
  encode_length_bounds 0x80 (length payload),
  length-append (encode_length 0x80 (length payload)) (key ++ apply_mask key 0 payload),
)
  where
    key : List ℕ
    key = k0 ∷ k1 ∷ k2 ∷ k3 ∷ []

parse-encode_plain :
    (op : WebSocketOpcode) (payload rest : List ℕ)
    → length payload < 2 ^ 63
    → parse (encode op payload none ++ rest)
      ≡ parsed (sent_frame op payload none) (length (encode op payload none))
unfolding encode parse_mask
parse-encode_plain op payload rest small = ground (
  arith,
  header_read (0x80 + code op) 0 (length payload) (payload ++ rest) (inl refl) small,
  append_assoc (encode_length 0 (length payload)) payload rest,
  code_bits op,
  plain_payload (code op) (1 + length (encode_length 0 (length payload))) payload rest,
  encode_length_bounds 0 (length payload),
  length-append (encode_length 0 (length payload)) payload,
)

-- `parse` reads back what `encode` wrote, with or without a mask, takes all of its bytes and none of
-- what follows, for a payload of fewer than 2 ^ 63 bytes.
pub parse-encode :
    (op : WebSocketOpcode) (payload : List ℕ) (mask : Option (List ℕ)) (rest : List ℕ)
    → IsKey mask
    → All IsByte payload
    → length payload < 2 ^ 63
    → parse (encode op payload mask ++ rest)
      ≡ parsed (sent_frame op payload mask) (length (encode op payload mask))
parse-encode op payload none rest hk hp small = parse-encode_plain op payload rest small
parse-encode op payload (some (k0 ∷ k1 ∷ k2 ∷ k3 ∷ [])) rest hk hp small =
    parse-encode_masked op payload rest k0 k1 k2 k3 hk.1 hp small
parse-encode op payload (some []) rest hk hp small = absurd (omega arith)
parse-encode op payload (some (k0 ∷ [])) rest hk hp small = absurd (omega arith)
parse-encode op payload (some (k0 ∷ k1 ∷ [])) rest hk hp small = absurd (omega arith)
parse-encode op payload (some (k0 ∷ k1 ∷ k2 ∷ [])) rest hk hp small = absurd (omega arith)
parse-encode op payload (some (k0 ∷ k1 ∷ k2 ∷ k3 ∷ k4 ∷ key)) rest hk hp small =
    absurd (omega arith)
