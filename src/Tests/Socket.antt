-- ===== src/Tests/Socket.antt =====
-- Frames of a WebSocket connection, and the handler on short runs.
use hftperformance.Prelude.{
  ℕ, ◌≡◌, refl, true, false, List, [], ◌∷◌, ◌++◌, none, some, length, arith, ap, ◌<◌, ◌^◌, ◌-◌,
}
use hftperformance.Prelude.Text.{codes, cut, strip}
use hftperformance.Prelude.Int.{pos}
use hftperformance.SpscQueue.{make_queue}
use hftperformance.WebSocket.Bytes.{to_be}
use hftperformance.WebSocket.{text, ping, need_more, throws, parsed, parse, encode}
use hftperformance.WebSocket.RoundTrip.{sent_frame, parse-encode}
use hftperformance.WebSocket.Prefix.{parse_truncated, parse_wraps}
use hftperformance.WebSocket.Handler.{
  WebSocketHandler, WebSocketMessage, Network, closed, open_state, closing, changed, shut, answered,
  got, connect, poll, close_connection, make_handler, drain, accept, find_key,
}
use hftperformance.WebSocket.Handler.Stream.{
  Outgoing, wire_bytes, handle_all, drain-append, drain-wire_bytes,
}
use hftperformance.WebSocket.Handler.States.{IsSteady, close_open}
use hftperformance.WebSocket.Handler.Reach.{
  Reach, start, next, dial, receive, Reach-IsSteady, accept_no_key,
}

abbrev key : List ℕ
key = 1 ∷ 2 ∷ 3 ∷ 4 ∷ []

abbrev hello : List ℕ
hello = codes "hello"

-- The frame of RFC 6455 for an unmasked text "Hello" in small letters.
encode-hello : encode text hello none ≡ 0x81 ∷ 5 ∷ hello
unfolding encode
encode-hello = refl

parse-encode_example :
    parse (encode text hello (some key) ++ 7 ∷ [])
    ≡ parsed (sent_frame text hello (some key)) (length (encode text hello (some key)))
parse-encode_example =
    parse-encode text hello (some key) (7 ∷ []) (omega arith) (omega arith) (omega arith)

parse_truncated_example : parse (0x81 ∷ 5 ∷ 104 ∷ []) ≡ need_more
parse_truncated_example =
    parse_truncated text hello none (0x81 ∷ 5 ∷ 104 ∷ []) (108 ∷ 108 ∷ 111 ∷ []) 101 tt
      (omega arith) (size_hello) (omega arith) encode-hello
  where
    size_hello : length (encode text hello none) < 2 ^ 63
    size_hello = omega (arith, ap length encode-hello)

parse_wraps_example : parse (0x82 ∷ 127 ∷ to_be 8 (2 ^ 64 - 1) ++ []) ≡ throws
parse_wraps_example = parse_wraps 0x82 (2 ^ 64 - 1) [] (omega arith) (omega arith) (omega arith)

abbrev net : Network
net = record { key = λ n. key; takes_all = λ n. true }

abbrev spare : WebSocketMessage
spare = record { type = text; content = []; timestamp = pos 0 }

abbrev fresh : WebSocketHandler
fresh = make_handler (make_queue 4 (λ n. spare))

abbrev dialled : WebSocketHandler
dialled = (connect (answered 5 (codes "HTTP/1.1 101 OK")) (codes "host") (codes "/") fresh).1

dialled-Reach : Reach net (make_queue 4 (λ n. spare)) dialled
unfolding make_handler
dialled-Reach =
    next start (dial (answered 5 (codes "HTTP/1.1 101 OK")) (codes "host") (codes "/") refl)

Reach-IsSteady_example : IsSteady (poll net (got (0x88 ∷ 0 ∷ [])) dialled).1
Reach-IsSteady_example = Reach-IsSteady (next dialled-Reach (receive (got (0x88 ∷ 0 ∷ []))))

dialled_open : (dialled.state ≡ open_state) × (dialled.fd ≡ some 5)
unfolding connect make_handler cut strip
dialled_open = (refl, refl)

close_open_example : close_connection net dialled ≡ record dialled {
  state = closed;
  fd = none;
  events = dialled.events ++ changed closing ∷ shut 5 ∷ changed closed ∷ [];
}
close_open_example = close_open net dialled 5 dialled_open.0 dialled_open.1

accept_no_key_example :
    let r = accept true 6 (codes "GET / HTTP/1.1") fresh in
    (r.0 ≡ some false) × (r.1.fd ≡ some 6) × (close_connection net r.1 ≡ r.1)
unfolding make_handler find_key cut strip
accept_no_key_example = accept_no_key net true 6 (codes "GET / HTTP/1.1") fresh refl refl

-- The frame comes in two parts, cut inside the payload.
abbrev front_part : List ℕ
front_part = 0x81 ∷ 5 ∷ 104 ∷ []

abbrev back_part : List ℕ
back_part = 101 ∷ 108 ∷ 108 ∷ 111 ∷ []

front_waits : drain net 3 front_part dialled ≡ (some front_part, dialled)
unfolding drain parse
front_waits = refl

drain-append_example :
    drain net 7 (front_part ++ back_part) dialled
    ≡ drain net (length (front_part ++ back_part)) (front_part ++ back_part) dialled
drain-append_example =
    drain-append net 3 7 front_part back_part front_part dialled dialled (omega arith) (omega arith)
      front_waits

abbrev two_frames : List Outgoing
two_frames =
    record { opcode = text; payload = hello; mask = none }
    ∷ record { opcode = ping; payload = []; mask = some key }
    ∷ []

drain-wire_bytes_example :
    drain net
      (length (wire_bytes two_frames ++ 0x81 ∷ []))
      (wire_bytes two_frames ++ 0x81 ∷ [])
      dialled
    ≡ (some (0x81 ∷ []), handle_all net two_frames dialled)
unfolding parse
drain-wire_bytes_example = drain-wire_bytes net two_frames (0x81 ∷ []) dialled (omega arith) refl
