-- ===== src/WebSocket/Handler.antt =====
-- src/protocol/websocket_handler.cpp, `WebSocketHandler`: the connection's state machine.
-- The operating system is an argument: what `send` and `recv` return, and the random masking keys.
-- `events` lists, in order, what the callbacks receive, the bytes given to `send` and the closed
-- descriptors; a callback does not call back into the handler.
pub mod Stream
pub mod States
pub mod Reach
use hftperformance.Prelude.{
  ℕ, zero, suc, ◌+◌, ◌<◌, Bool, true, false, not, ◌&&◌, ◌||◌, List, [], ◌∷◌, ◌++◌, Option, none,
  some, length, ◌==◌, if◌then◌else◌,
}
use hftperformance.Prelude.Int.{ℤ}
use hftperformance.Prelude.Text.{codes, cut}
use hftperformance.SpscQueue.{SpscQueue, try_pop}
use hftperformance.WebSocket.Bytes.{drop}
use hftperformance.WebSocket.{
  WebSocketOpcode, text, binary, close, ping, pong, WebSocketFrame, Parsed, need_more, throws,
  parsed, parse, encode,
}

-- `enum class WebSocketState`
pub data WebSocketState : Type 0 where
  connecting open_state closing closed : WebSocketState

-- `WebSocketMessage`
pub record WebSocketMessage : Type 0 where
  pub type : WebSocketOpcode
  pub content : List ℕ
  pub timestamp : ℤ

pub data Event : Type 0 where
  changed : WebSocketState → Event
  delivered : WebSocketFrame → Event
  failed : List ℕ → Event
  wire : List ℕ → Event
  shut : ℕ → Event

pub record WebSocketHandler : Type 0 where
  pub state : WebSocketState
  pub fd : Option ℕ
  pub partial_frame : List ℕ
  pub send_queue : SpscQueue WebSocketMessage
  pub frames_sent : ℕ
  pub events : List Event

-- The masking key of the frame with a number, and whether `send` takes all its bytes.
pub record Network : Type 0 where
  pub key : ℕ → List ℕ
  pub takes_all : ℕ → Bool

-- What `recv` returns: bytes, nothing for now, or the end or an error.
pub data Received : Type 0 where
  got : List ℕ → Received
  nothing_yet : Received
  ended : Received

-- What becomes of the calls of `connect`.
pub data Dialled : Type 0 where
  no_host no_socket : Dialled
  refused unsent unanswered : ℕ → Dialled
  answered : ℕ → List ℕ → Dialled

unfoldable pub is_connected : WebSocketHandler → Bool
is_connected h = elim h.state [ open_state ↦ true | _ ↦ false ]

abbrev pub emit : Event → WebSocketHandler → WebSocketHandler
emit e h = record h { events = h.events ++ e ∷ [] }

unfoldable pub set_state : WebSocketState → WebSocketHandler → WebSocketHandler
set_state new_state h = emit (changed new_state) (record h { state = new_state })

unfoldable pub report_error : List ℕ → WebSocketHandler → WebSocketHandler
report_error error h = emit (failed error) h

unfoldable pub send_frame :
    Network → WebSocketOpcode → List ℕ → WebSocketHandler → Bool × WebSocketHandler
unfolding is_connected
send_frame net opcode content h =
    if is_connected h
    then (
      net.takes_all h.frames_sent,
      emit (wire (encode opcode content (some (net.key h.frames_sent))))
          (record h { frames_sent = h.frames_sent + 1 }),
    )
    else (false, h)

-- `send_text`, `send_binary` and `send_ping`
unfoldable pub send_text : Network → List ℕ → WebSocketHandler → Bool × WebSocketHandler
send_text net message h = send_frame net text message h

unfoldable pub send_binary : Network → List ℕ → WebSocketHandler → Bool × WebSocketHandler
send_binary net bytes h = send_frame net binary bytes h

unfoldable pub send_ping : Network → WebSocketHandler → Bool × WebSocketHandler
send_ping net h = send_frame net ping [] h

-- `::close(fd_); fd_ = -1`, if there is a descriptor.
unfoldable pub drop_fd : WebSocketHandler → WebSocketHandler
drop_fd h = elim h.fd [ none ↦ h | some n ↦ emit (shut n) (record h { fd = none }) ]

-- `close`
unfoldable pub close_connection : Network → WebSocketHandler → WebSocketHandler
unfolding set_state send_frame drop_fd
close_connection net h = elim h.state [
  | closed ↦ h
  | _ ↦ set_state closed (drop_fd (send_frame net WebSocketOpcode.close [] (set_state closing h)).1)
]

-- `handle_frame`, by the opcode's number.
unfoldable pub handle_frame : Network → WebSocketFrame → WebSocketHandler → WebSocketHandler
unfolding close_connection send_frame
handle_frame net frame h =
    if frame.opcode == 1 || frame.opcode == 2
    then emit (delivered frame) h
    else if frame.opcode == 8
    then close_connection net h
    else if frame.opcode == 9
    then (send_frame net pong frame.payload h).1
    else h

-- The loop of `poll` over the frames in `bytes`; each takes two bytes at least, so fuel for as many rounds
-- as there are bytes is enough. It returns the bytes left, or `none` where `parse` throws.
unfoldable pub drain : Network → ℕ → List ℕ → WebSocketHandler → Option (List ℕ) × WebSocketHandler
drain net zero bytes h = (some bytes, h)
drain net (suc fuel) bytes h = elim (parse bytes) [
  | need_more ↦ (some bytes, h)
  | throws ↦ (none, h)
  | parsed frame consumed ↦ drain net fuel (drop consumed bytes) (handle_frame net frame h)
]

-- The loop of `poll` over the messages to send, with fuel for a full queue.
unfoldable pub flush : Network → ℕ → WebSocketHandler → WebSocketHandler
flush net zero h = h
flush net (suc fuel) h =
    let (message, queue) = try_pop h.send_queue in
    elim message [
      | none ↦ record h { send_queue = queue }
      | some m ↦
          flush net fuel (send_frame net m.type m.content (record h { send_queue = queue })).1
    ]

-- `poll` after `recv`. The result says whether it returned; where `parse` throws, the bytes stay.
unfoldable pub poll_received : Network → Received → WebSocketHandler → Bool × WebSocketHandler
unfolding drain
poll_received net (got bytes) h =
    let joined = h.partial_frame ++ bytes in
    let (left, h') = drain net (length joined) joined (record h { partial_frame = joined }) in
    elim left [
      | none ↦ (false, h')
      | some rest ↦ (true, flush net h'.send_queue.capacity (record h' { partial_frame = rest }))
    ]
poll_received net nothing_yet h = (true, flush net h.send_queue.capacity h)
poll_received net ended h =
    let h' = close_connection net h in (true, flush net h'.send_queue.capacity h')

-- `poll`
unfoldable pub poll : Network → Received → WebSocketHandler → Bool × WebSocketHandler
unfolding poll_received is_connected
poll net received h = if is_connected h then poll_received net received h else (true, h)

-- `make_handshake_request`
unfoldable pub make_handshake_request : List ℕ → List ℕ → List ℕ → List ℕ
make_handshake_request host path key =
    codes "GET "
    ++ path
    ++ codes " HTTP/1.1\r\nHost: "
    ++ host
    ++ codes "\r\nUpgrade: websocket\r\nConnection: Upgrade\r\nSec-WebSocket-Key: "
    ++ key
    ++ codes "\r\nSec-WebSocket-Version: 13\r\n\r\n"

-- The key that `connect` sends, and the one that `compute_accept_key` returns for every key.
abbrev pub sample_key : List ℕ
sample_key = codes "dGhlIHNhbXBsZSBub25jZQ=="

unfoldable pub compute_accept_key : List ℕ → List ℕ
compute_accept_key client_key = sample_key

-- `make_handshake_response`
unfoldable pub make_handshake_response : List ℕ → List ℕ
unfolding compute_accept_key
make_handshake_response key =
    codes
      "HTTP/1.1 101 Switching Protocols\r\nUpgrade: websocket\r\nConnection: Upgrade\r\nSec-WebSocket-Accept: "
    ++ compute_accept_key key
    ++ codes "\r\n\r\n"

-- A connection attempt that ends after the socket was made: `::close`, CLOSED, and the error.
unfoldable pub give_up : ℕ → List ℕ → WebSocketHandler → WebSocketHandler
unfolding set_state report_error
give_up n error h = report_error error (set_state closed (emit (shut n) (record h { fd = none })))

-- `connect`
unfoldable pub connect : Dialled → List ℕ → List ℕ → WebSocketHandler → Bool × WebSocketHandler
unfolding set_state report_error give_up
connect no_host host path h = (false, report_error (codes "Failed to resolve host") h)
connect no_socket host path h =
    (false, report_error (codes "Failed to create socket") (record h { fd = none }))
connect (refused n) host path h =
    (false, give_up n (codes "Failed to connect") (set_state connecting (record h { fd = some n })))
connect (unsent n) host path h = (
  false,
  give_up n (codes "Failed to send handshake") (
      emit (wire (make_handshake_request host path sample_key))
        (set_state connecting (record h { fd = some n }))),
)
connect (unanswered n) host path h = (
  false,
  give_up n (codes "Failed to receive handshake response") (
      emit (wire (make_handshake_request host path sample_key))
        (set_state connecting (record h { fd = some n }))),
)
connect (answered n response) host path h =
    let asked =
      emit (wire (make_handshake_request host path sample_key))
        (set_state connecting (record h { fd = some n })) in
    elim (cut (codes "101") response) [
      | none ↦ (false, give_up n (codes "Invalid handshake response") asked)
      | some _ ↦ (true, set_state open_state asked)
    ]

-- `find_first_not_of(" \t")`
unfoldable pub skip_blank : List ℕ → List ℕ
skip_blank [] = []
skip_blank (c ∷ s) = let rest = skip_blank s in if c == b' ' || c == 9 then rest else c ∷ s

-- The value of `Sec-WebSocket-Key` that `accept` finds: none, one, or `substr` throws since nothing but
-- blanks follows.
pub data KeyFound : Type 0 where
  no_key : KeyFound
  key_throws : KeyFound
  key_is : List ℕ → KeyFound

key_of : List ℕ → KeyFound
key_of [] = key_throws
key_of (c ∷ s) = elim (cut (codes "\r\n") (c ∷ s)) [
  | none ↦ key_is (c ∷ s)
  | some (key, _) ↦ key_is key
]

unfoldable pub find_key : List ℕ → KeyFound
unfolding key_of skip_blank
find_key request = elim (cut (codes "Sec-WebSocket-Key:") request) [
  | none ↦ no_key
  | some (_, back) ↦ key_of (skip_blank back)
]

-- `accept`; `sent` says whether `send` succeeds. The result is `none` where `substr` throws.
unfoldable pub accept : Bool → ℕ → List ℕ → WebSocketHandler → Option Bool × WebSocketHandler
unfolding set_state report_error find_key
accept sent client_fd request h =
    let taken = record h { fd = some client_fd } in
    elim (find_key request) [
      | no_key ↦ (some false, report_error (codes "Missing WebSocket key") taken)
      | key_throws ↦ (none, taken)
      | key_is key ↦
          let answered_h = emit (wire (make_handshake_response key)) taken in
          if sent
          then (some true, set_state open_state answered_h)
          else (some false, report_error (codes "Failed to send handshake response") answered_h)
    ]

-- The constructor, with an empty queue.
unfoldable pub make_handler : SpscQueue WebSocketMessage → WebSocketHandler
make_handler queue = record {
  state = closed;
  fd = none;
  partial_frame = [];
  send_queue = queue;
  frames_sent = 0;
  events = [];
}
