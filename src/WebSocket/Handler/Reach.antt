-- ===== src/WebSocket/Handler/Reach.antt =====
-- The handler under any sequence of calls, and what `accept` does without a key.
use hftperformance.Prelude.{ℕ, ◌≡◌, refl, Bool, true, false, List, some, inl, inr, arith}
use hftperformance.SpscQueue.{SpscQueue}
use hftperformance.WebSocket.{WebSocketOpcode}
use hftperformance.WebSocket.Handler.States.{
  IsSteady, send_frame-IsSteady, close-IsSteady, poll-IsSteady, connect_result, close_closed,
}
use hftperformance.WebSocket.Handler.{
  WebSocketHandler, WebSocketMessage, Network, Dialled, Received, closed, connect, send_frame, poll,
  close_connection, make_handler, accept, find_key, no_key, set_state, report_error,
}

-- One call by the owner. A connection is dialled or accepted only when it is closed, which `connect` and
-- `accept` do not test. An `accept` that fails is no step: it can leave a closed connection with a
-- descriptor.
pub data Step (net : Network) (h : WebSocketHandler) : WebSocketHandler → Type 0 where
  dial :
      (d : Dialled) (host path : List ℕ) → h.state ≡ closed → Step net h (connect d host path h).1
  admit :
      (sent : Bool) (client_fd : ℕ) (request : List ℕ)
      → h.state ≡ closed
      → (accept sent client_fd request h).0 ≡ some true
      → Step net h (accept sent client_fd request h).1
  send : (op : WebSocketOpcode) (content : List ℕ) → Step net h (send_frame net op content h).1
  receive : (r : Received) → Step net h (poll net r h).1
  hang_up : Step net h (close_connection net h)

pub data Reach (net : Network) (queue : SpscQueue WebSocketMessage)
    : WebSocketHandler → Type 0 where
  start : Reach net queue (make_handler queue)
  next : {h h' : WebSocketHandler} → Reach net queue h → Step net h h' → Reach net queue h'

dial-IsSteady :
    (d : Dialled) (host path : List ℕ) (h : WebSocketHandler)
    → h.state ≡ closed
    → IsSteady h
    → IsSteady (connect d host path h).1
dial-IsSteady d host path h s (inr (n, o, f)) = absurd (cc (s, o))
dial-IsSteady d host path h s (inl (c, f)) = elim (connect_result d host path h s f) [
  | inl (r, a, b) ↦ inl (a, b)
  | inr (n, r, a, b) ↦ inr (n, a, b)
]

-- An `accept` that succeeds leaves the connection open with the client's descriptor.
accept-IsSteady :
    (sent : Bool) (client_fd : ℕ) (request : List ℕ) (h : WebSocketHandler)
    → (accept sent client_fd request h).0 ≡ some true
    → IsSteady (accept sent client_fd request h).1
unfolding accept set_state report_error
accept-IsSteady sent client_fd request h e = inr (client_fd, ground (arith, e), ground (arith, e))

Step-IsSteady : {net : Network} {h h' : WebSocketHandler} → Step net h h' → IsSteady h → IsSteady h'
Step-IsSteady {h} (dial d host path s) v = dial-IsSteady d host path h s v
Step-IsSteady {h} (admit sent client_fd request s e) v = accept-IsSteady sent client_fd request h e
Step-IsSteady {net} {h} (send op content) v = send_frame-IsSteady net op content h v
Step-IsSteady {net} {h} (receive r) v = poll-IsSteady net r h v
Step-IsSteady {net} {h} hang_up v = close-IsSteady net h v

-- After any calls of `connect` and successful ones of `accept` on a closed connection, of `send_frame`,
-- `poll` and `close`, whatever the network does and the frames that come in say, the connection is open
-- with a descriptor or closed without one.
pub Reach-IsSteady :
    {net : Network} {queue : SpscQueue WebSocketMessage} {h : WebSocketHandler}
    → Reach net queue h
    → IsSteady h
unfolding make_handler
Reach-IsSteady start = inl (refl, refl)
Reach-IsSteady (next r s) = Step-IsSteady s (Reach-IsSteady r)

-- A request without a key leaves the handler closed but with the client's descriptor, and `close` then
-- does nothing: the descriptor is never closed.
pub accept_no_key :
    (net : Network) (sent : Bool) (client_fd : ℕ) (request : List ℕ) (h : WebSocketHandler)
    → h.state ≡ closed
    → find_key request ≡ no_key
    → let r = accept sent client_fd request h in
      (r.0 ≡ some false) × (r.1.fd ≡ some client_fd) × (close_connection net r.1 ≡ r.1)
unfolding accept
accept_no_key net sent client_fd request h s e = (
  ground (arith, e),
  ground (arith, e),
  close_closed net (accept sent client_fd request h).1 (ground (arith, e, s)),
)
