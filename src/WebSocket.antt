-- ===== src/WebSocket.antt =====
-- src/protocol/websocket_handler.hpp and websocket_handler.cpp: frames and the connection handler.
-- A byte is a number below 256 and a string its bytes; `&`, `|` and the shifts by whole bytes are
-- written as quotients, remainders and sums of disjoint bits.
pub mod Bytes
pub mod RoundTrip
pub mod Prefix
pub mod Handler
use hftperformance.Prelude.{
  ℕ, zero, suc, ◌+◌, ◌*◌, ◌/◌, ◌%◌, ◌^◌, Bool, true, false, List, [], ◌∷◌, ◌++◌, Option, none, some,
  length, ltb, leb, ◌==◌, if◌then◌else◌,
}
use Prim.Native.Nat.{bit_xor}
use Bytes.{take, get_or, read_be, to_be}

-- `enum class WebSocketOpcode`
pub data WebSocketOpcode : Type 0 where
  continuation text binary close ping pong : WebSocketOpcode

abbrev pub code : WebSocketOpcode → ℕ
code continuation = 0x00
code text = 0x01
code binary = 0x02
code close = 0x08
code ping = 0x09
code pong = 0x0a

-- `WebSocketFrame`. The opcode is cast from any four bits.
pub record WebSocketFrame : Type 0 where
  pub opcode : ℕ
  pub fin : Bool
  pub masked : Bool
  pub payload : List ℕ

-- What `parse` does: it returns 0, or the number of bytes that the frame takes, or the resizing of the
-- payload throws since no vector is so long.
pub data Parsed : Type 0 where
  need_more : Parsed
  throws : Parsed
  parsed : WebSocketFrame → ℕ → Parsed

-- `apply_mask`, from index `i` on.
unfoldable pub apply_mask : List ℕ → ℕ → List ℕ → List ℕ
apply_mask mask i [] = []
apply_mask mask i (b ∷ bytes) = bit_xor b (get_or mask (i % 4) 0) ∷ apply_mask mask (i + 1) bytes

-- `parse` from the test for a complete frame on. `rest` is what follows the header, and `mask` the
-- masking key, if there is one. The sum of the test is one of 64 bits.
unfoldable pub parse_payload : ℕ → Bool → ℕ → ℕ → Option (List ℕ) → List ℕ → Parsed
parse_payload opcode fin header_len payload_len mask rest =
    if ltb (header_len + length rest) ((header_len + payload_len) % 2 ^ 64)
    then need_more
    else if ltb (length rest) payload_len
    then throws
    else elim mask [
      | none ↦
          parsed
            (record { opcode = opcode; fin = fin; masked = false; payload = take payload_len rest })
            (header_len + payload_len)
      | some key ↦
          parsed
            (record {
              opcode = opcode;
              fin = fin;
              masked = true;
              payload = apply_mask key 0 (take payload_len rest);
            })
            (header_len + payload_len)
    ]

-- `parse` from the masking key on.
unfoldable pub parse_mask : ℕ → Bool → Bool → ℕ → ℕ → List ℕ → Parsed
unfolding parse_payload
parse_mask opcode fin true header_len payload_len (k0 ∷ k1 ∷ k2 ∷ k3 ∷ rest) =
    parse_payload opcode fin (header_len + 4) payload_len (some (k0 ∷ k1 ∷ k2 ∷ k3 ∷ [])) rest
parse_mask opcode fin true header_len payload_len _ = need_more
parse_mask opcode fin false header_len payload_len rest =
    parse_payload opcode fin header_len payload_len none rest

-- `parse` from an extended length of `n` bytes on.
unfoldable pub parse_length : ℕ → Bool → Bool → ℕ → List ℕ → Parsed
unfolding parse_mask
parse_length opcode fin masked n rest = elim (read_be n 0 rest) [
  | none ↦ need_more
  | some (payload_len, rest') ↦ parse_mask opcode fin masked (2 + n) payload_len rest'
]

-- `WebSocketParser::parse`
unfoldable pub parse : List ℕ → Parsed
unfolding parse_length
parse (b0 ∷ b1 ∷ rest) =
    if b1 % 128 == 126
    then parse_length (b0 % 16) (leb 128 b0) (leb 128 b1) 2 rest
    else if b1 % 128 == 127
    then parse_length (b0 % 16) (leb 128 b0) (leb 128 b1) 8 rest
    else parse_mask (b0 % 16) (leb 128 b0) (leb 128 b1) 2 (b1 % 128) rest
parse _ = need_more

-- The second byte and the extended length that `encode` writes.
unfoldable pub encode_length : ℕ → ℕ → List ℕ
encode_length mask_bit size =
    if ltb size 126
    then (mask_bit + size) ∷ []
    else if ltb size 65536
    then (mask_bit + 126) ∷ to_be 2 size
    else (mask_bit + 127) ∷ to_be 8 size

-- `WebSocketParser::encode`; `mask` is the masking key that the random device gives, if one is asked for.
unfoldable pub encode : WebSocketOpcode → List ℕ → Option (List ℕ) → List ℕ
unfolding encode_length
encode opcode payload none = (0x80 + code opcode) ∷ encode_length 0 (length payload) ++ payload
encode opcode payload (some key) =
    (0x80 + code opcode) ∷ encode_length 0x80 (length payload) ++ (key ++ apply_mask key 0 payload)
