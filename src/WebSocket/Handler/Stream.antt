-- ===== src/WebSocket/Handler/Stream.antt =====
-- The receive loop of `poll`: frames come out whole and in order, however the stream is cut.
use hftperformance.Prelude.{
  ℕ, zero, suc, ◌^◌, ◌<◌, ◌≤◌, ◌≡◌, refl, sym, ap, ◌∙◌, List, [], ◌∷◌, ◌++◌, Option, none, some,
  length, length-append, All, inl, inr, arith,
}
use mathlib.Core.List.{append_assoc}
use hftperformance.WebSocket.Bytes.{drop, drop-append, drop-append_le, length-drop}
use hftperformance.WebSocket.RoundTrip.{IsByte, IsKey, sent_frame, parse-encode}
use hftperformance.WebSocket.Prefix.{parse-append, Parsed-cases}
use hftperformance.WebSocket.{
  WebSocketOpcode, WebSocketFrame, need_more, throws, parsed, parse, encode,
}
use hftperformance.WebSocket.Handler.{WebSocketHandler, Network, handle_frame, drain}

module _ (net : Network) where
  pub drain_more :
      (fuel : ℕ) (bytes : List ℕ) (h : WebSocketHandler)
      → parse bytes ≡ need_more
      → drain net fuel bytes h ≡ (some bytes, h)
  unfolding drain
  drain_more zero bytes h e = refl
  drain_more (suc fuel) bytes h e = rw (e, drain) refl

  pub drain_throws :
      (fuel : ℕ) (bytes : List ℕ) (h : WebSocketHandler)
      → parse bytes ≡ throws
      → drain net (suc fuel) bytes h ≡ (none, h)
  unfolding drain
  drain_throws fuel bytes h e = rw (e, drain) refl

  pub drain_frame :
      (fuel : ℕ) (bytes : List ℕ) (h : WebSocketHandler) (f : WebSocketFrame) (k : ℕ)
      → parse bytes ≡ parsed f k
      → drain net (suc fuel) bytes h ≡ drain net fuel (drop k bytes) (handle_frame net f h)
  unfolding drain
  drain_frame fuel bytes h f k e = rw (e, drain) refl

  parse_nil : (bytes : List ℕ) → length bytes ≤ 0 → parse bytes ≡ need_more
  unfolding parse
  parse_nil [] h = refl
  parse_nil (b ∷ bytes) h = absurd (omega arith)

  -- Fuel for as many rounds as there are bytes is enough: more changes nothing.
  drain_fuel :
      (fuel more : ℕ) (bytes : List ℕ) (h : WebSocketHandler)
      → length bytes ≤ fuel
      → length bytes ≤ more
      → drain net fuel bytes h ≡ drain net more bytes h
  drain_fuel zero more bytes h p q =
      drain_more 0 bytes h (parse_nil bytes p) ∙ sym (drain_more more bytes h (parse_nil bytes p))
  drain_fuel (suc fuel) zero bytes h p q =
      drain_more (suc fuel) bytes h (parse_nil bytes q)
      ∙ sym (drain_more 0 bytes h (parse_nil bytes q))
  drain_fuel (suc fuel) (suc more) bytes h p q = elim (Parsed-cases (parse bytes)) [
    | inl e ↦ drain_more (suc fuel) bytes h e ∙ sym (drain_more (suc more) bytes h e)
    | inr (inl e) ↦ drain_throws fuel bytes h e ∙ sym (drain_throws more bytes h e)
    | inr (inr (f, k, e)) ↦
        let r = parse-append bytes [] f k e in
        let shorter = length-drop k bytes r.1 in
        drain_frame fuel bytes h f k e
        ∙ drain_fuel fuel more (drop k bytes) (handle_frame net f h) (omega (arith, r.0, shorter))
            (omega (arith, r.0, shorter))
        ∙ sym (drain_frame more bytes h f k e)
  ]

  append_more :
      (fuel more : ℕ) (a b rest : List ℕ) (h h' : WebSocketHandler)
      → parse a ≡ need_more
      → length (a ++ b) ≤ more
      → drain net fuel a h ≡ (some rest, h')
      → drain net more (a ++ b) h ≡ drain net (length (rest ++ b)) (rest ++ b) h'
  append_more fuel more a b rest h h' n q e =
      let same : (some a, h) ≡ (some rest, h') = sym (drain_more fuel a h n) ∙ e in
      let left : a ≡ rest = cc (ap (λ r. r.0) same) in
      rw (← left, ← ap (λ r. r.1) same)
        (drain_fuel more (length (a ++ b)) (a ++ b) h q (omega arith))

  -- Bytes that come in two parts are handled as if they came together: what the first part leaves, with
  -- the second part behind it, goes on where the first part stopped. Enough fuel is fuel for all bytes.
  pub drain-append :
      (fuel more : ℕ) (a b rest : List ℕ) (h h' : WebSocketHandler)
      → length a ≤ fuel
      → length (a ++ b) ≤ more
      → drain net fuel a h ≡ (some rest, h')
      → drain net more (a ++ b) h ≡ drain net (length (rest ++ b)) (rest ++ b) h'
  drain-append zero more a b rest h h' p q e =
      append_more zero more a b rest h h' (parse_nil a p) q e
  drain-append (suc fuel) zero a b rest h h' p q e =
      append_more (suc fuel) zero a b rest h h' (parse_nil a (omega (arith, q, length-append a b)))
        q e
  drain-append (suc fuel) (suc more) a b rest h h' p q e = elim (Parsed-cases (parse a)) [
    | inl n ↦ append_more (suc fuel) (suc more) a b rest h h' n q e
    | inr (inl t) ↦ absurd (cc (ap (λ r. r.0) (sym (drain_throws fuel a h t) ∙ e)))
    | inr (inr (f, k, s)) ↦
        let r = parse-append a b f k s in
        let shorter = length-drop k a r.1 in
        drain_frame more (a ++ b) h f k r.2
        ∙ ap (λ bytes. drain net more bytes (handle_frame net f h)) (drop-append_le k a b r.1)
        ∙ drain-append fuel more (drop k a) b rest (handle_frame net f h) h'
            (omega (arith, r.0, shorter))
            (omega (arith, r.0, shorter, q, length-append a b, length-append (drop k a) b))
            (sym (drain_frame fuel a h f k s) ∙ e)
  ]

-- A frame to send: the opcode, the payload and the masking key.
pub record Outgoing : Type 0 where
  pub opcode : WebSocketOpcode
  pub payload : List ℕ
  pub mask : Option (List ℕ)

abbrev pub IsSendable : Outgoing → Type 0
IsSendable m = IsKey m.mask × All IsByte m.payload × (length m.payload < 2 ^ 63)

-- The bytes of frames one behind the other, and what handling them all does.
abbrev pub wire_bytes : List Outgoing → List ℕ
wire_bytes [] = []
wire_bytes (m ∷ ms) = encode m.opcode m.payload m.mask ++ wire_bytes ms

abbrev pub handle_all : Network → List Outgoing → WebSocketHandler → WebSocketHandler
handle_all net [] h = h
handle_all net (m ∷ ms) h =
    handle_all net ms (handle_frame net (sent_frame m.opcode m.payload m.mask) h)

drain_all :
    (net : Network) (fuel : ℕ) (ms : List Outgoing) (tail : List ℕ) (h : WebSocketHandler)
    → All IsSendable ms
    → parse tail ≡ need_more
    → length (wire_bytes ms ++ tail) ≤ fuel
    → drain net fuel (wire_bytes ms ++ tail) h ≡ (some tail, handle_all net ms h)
drain_all net fuel [] tail h v e p = drain_more net fuel tail h e
drain_all net zero (m ∷ ms) tail h v e p =
    let bytes = encode m.opcode m.payload m.mask in
    let rest = wire_bytes ms ++ tail in
    let whole = parse-encode m.opcode m.payload m.mask rest v.0.0 v.0.1 v.0.2 in
    let r = parse-append (bytes ++ rest) [] _ _ whole in
    absurd (omega (arith, r.0, r.1, p, ap length (append_assoc bytes (wire_bytes ms) tail)))
drain_all net (suc fuel) (m ∷ ms) tail h v e p =
    let bytes = encode m.opcode m.payload m.mask in
    let rest = wire_bytes ms ++ tail in
    let whole = parse-encode m.opcode m.payload m.mask rest v.0.0 v.0.1 v.0.2 in
    let r = parse-append (bytes ++ rest) [] _ _ whole in
    ap (λ xs. drain net (suc fuel) xs h) (append_assoc bytes (wire_bytes ms) tail)
    ∙ drain_frame net fuel (bytes ++ rest) h _ (length bytes) whole
    ∙ ap (λ xs. drain net fuel xs (handle_frame net (sent_frame m.opcode m.payload m.mask) h))
        (drop-append bytes rest)
    ∙ drain_all net fuel ms tail (handle_frame net (sent_frame m.opcode m.payload m.mask) h) v.1 e (
        omega (
          arith,
          r.0,
          p,
          length-append bytes rest,
          ap length (append_assoc bytes (wire_bytes ms) tail),
        ))

-- However many frames stand one behind the other in what has been received, with at most the front of
-- another behind them, the loop handles them all, in order, and keeps the rest.
pub drain-wire_bytes :
    (net : Network) (ms : List Outgoing) (tail : List ℕ) (h : WebSocketHandler)
    → All IsSendable ms
    → parse tail ≡ need_more
    → drain net (length (wire_bytes ms ++ tail)) (wire_bytes ms ++ tail) h
      ≡ (some tail, handle_all net ms h)
drain-wire_bytes net ms tail h v e = drain_all net _ ms tail h v e (omega arith)
