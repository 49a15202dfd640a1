-- ===== src/WebSocket/Handler/States.antt =====
-- The states of a connection: what the operations keep, and what closing does.
use hftperformance.Prelude.{
  ℕ, zero, suc, ◌≡◌, refl, sym, ◌∙◌, subst, true, false, List, [], ◌∷◌, ◌++◌, Option, none, some,
  inl, inr, ◌⊎◌, arith, Option-cases, length,
}
use mathlib.Core.List.{append_assoc}
use hftperformance.Prelude.Text.{cut, codes}
use hftperformance.SpscQueue.{try_pop}
use hftperformance.WebSocket.{WebSocketOpcode, WebSocketFrame, parse}
use hftperformance.WebSocket.Prefix.{Parsed-cases}
use hftperformance.WebSocket.Handler.Stream.{drain_more, drain_throws, drain_frame}
use hftperformance.WebSocket.Handler.{
  open_state, closing, closed, changed, delivered, shut, WebSocketHandler, WebSocketMessage,
  Network, Received, got, nothing_yet, ended, Dialled, no_host, no_socket, refused, unsent,
  unanswered, answered, send_frame, close_connection, handle_frame, drain, flush, poll_received,
  poll, is_connected, connect,
}

-- Between two calls the connection is open with a descriptor, or closed without one.
abbrev pub IsSteady : WebSocketHandler → Type 0
IsSteady h =
    ((h.state ≡ closed) × (h.fd ≡ none)) ⊎ ((n : ℕ) × (h.state ≡ open_state) × (h.fd ≡ some n))

-- `send_frame` sends only on an open connection, and leaves the state and the descriptor alone.
send_frame_keeps :
    (net : Network) (op : WebSocketOpcode) (content : List ℕ) (h : WebSocketHandler)
    → ((send_frame net op content h).1.state ≡ h.state)
      × ((send_frame net op content h).1.fd ≡ h.fd)
unfolding send_frame
send_frame_keeps net op content h = ground arith

IsSteady-of :
    (h h' : WebSocketHandler) → h'.state ≡ h.state → h'.fd ≡ h.fd → IsSteady h → IsSteady h'
IsSteady-of h h' s f (inl (a, b)) = inl (s ∙ a, f ∙ b)
IsSteady-of h h' s f (inr (n, a, b)) = inr (n, s ∙ a, f ∙ b)

pub send_frame-IsSteady :
    (net : Network) (op : WebSocketOpcode) (content : List ℕ) (h : WebSocketHandler)
    → IsSteady h
    → IsSteady (send_frame net op content h).1
send_frame-IsSteady net op content h v =
    let r = send_frame_keeps net op content h in
    IsSteady-of h (send_frame net op content h).1 r.0 r.1 v

pub close_closed :
    (net : Network) (h : WebSocketHandler) → h.state ≡ closed → close_connection net h ≡ h
unfolding close_connection
close_closed net h e = ground (arith, e)

-- Closing an open connection tells of CLOSING, closes the descriptor and tells of CLOSED. It gives no
-- bytes to `send`: the close frame is asked for when the connection counts as open no more.
pub close_open :
    (net : Network) (h : WebSocketHandler) (n : ℕ)
    → h.state ≡ open_state
    → h.fd ≡ some n
    → close_connection net h ≡ record h {
      state = closed;
      fd = none;
      events = h.events ++ changed closing ∷ shut n ∷ changed closed ∷ [];
    }
unfolding close_connection is_connected
close_open net h n e f = ground (
  arith,
  e,
  f,
  append_assoc h.events (changed closing ∷ []) (shut n ∷ []),
  append_assoc h.events (changed closing ∷ shut n ∷ []) (changed closed ∷ []),
)

pub close-IsSteady :
    (net : Network) (h : WebSocketHandler) → IsSteady h → IsSteady (close_connection net h)
close-IsSteady net h (inl (s, f)) = subst IsSteady (sym (close_closed net h s)) (inl (s, f))
close-IsSteady net h (inr (n, s, f)) =
    subst IsSteady (sym (close_open net h n s f)) (inl (refl, refl))

frame_cases :
    (net : Network) (frame : WebSocketFrame) (h : WebSocketHandler)
    → (handle_frame net frame h ≡ record h { events = h.events ++ delivered frame ∷ [] })
      ⊎ (handle_frame net frame h ≡ close_connection net h)
      ⊎ (handle_frame net frame h ≡ (send_frame net WebSocketOpcode.pong frame.payload h).1)
      ⊎ (handle_frame net frame h ≡ h)
unfolding handle_frame
frame_cases net frame h = ground arith

handle_frame-IsSteady :
    (net : Network) (frame : WebSocketFrame) (h : WebSocketHandler)
    → IsSteady h
    → IsSteady (handle_frame net frame h)
handle_frame-IsSteady net frame h v = elim (frame_cases net frame h) [
  | inl e ↦
      subst IsSteady (sym e)
        (IsSteady-of h (record h { events = h.events ++ delivered frame ∷ [] }) refl refl v)
  | inr (inl e) ↦ subst IsSteady (sym e) (close-IsSteady net h v)
  | inr (inr (inl e)) ↦
      subst IsSteady (sym e) (send_frame-IsSteady net WebSocketOpcode.pong frame.payload h v)
  | inr (inr (inr e)) ↦ subst IsSteady (sym e) v
]

drain-IsSteady :
    (net : Network) (fuel : ℕ) (bytes : List ℕ) (h : WebSocketHandler)
    → IsSteady h
    → IsSteady (drain net fuel bytes h).1
unfolding drain
drain-IsSteady net zero bytes h v = v
drain-IsSteady net (suc fuel) bytes h v = elim (Parsed-cases (parse bytes)) [
  | inl e ↦ subst (λ r. IsSteady r.1) (sym (drain_more net (suc fuel) bytes h e)) v
  | inr (inl e) ↦ subst (λ r. IsSteady r.1) (sym (drain_throws net fuel bytes h e)) v
  | inr (inr (f, k, e)) ↦
      subst (λ r. IsSteady r.1) (sym (drain_frame net fuel bytes h f k e))
        (drain-IsSteady net fuel _ (handle_frame net f h) (handle_frame-IsSteady net f h v))
]

flush_step :
    (net : Network) (fuel : ℕ) (h : WebSocketHandler)
    → let q = try_pop h.send_queue in
      ((flush net (suc fuel) h ≡ record h { send_queue = q.1 }))
      ⊎ ((m : WebSocketMessage) × (flush net (suc fuel) h
            ≡ flush net fuel (send_frame net m.type m.content (record h { send_queue = q.1 })).1))
unfolding flush
flush_step net fuel h = elim (Option-cases (try_pop h.send_queue).0) [
  | inl e ↦ inl (rw (e, flush) refl)
  | inr (m, e) ↦ inr (m, rw (e, flush) refl)
]

flush-IsSteady :
    (net : Network) (fuel : ℕ) (h : WebSocketHandler) → IsSteady h → IsSteady (flush net fuel h)
unfolding flush
flush-IsSteady net zero h v = v
flush-IsSteady net (suc fuel) h v = elim (flush_step net fuel h) [
  | inl e ↦
      subst IsSteady (sym e)
        (IsSteady-of h (record h { send_queue = (try_pop h.send_queue).1 }) refl refl v)
  | inr (m, e) ↦
      let next = record h { send_queue = (try_pop h.send_queue).1 } in
      subst IsSteady (sym e) (
        flush-IsSteady net fuel (send_frame net m.type m.content next).1
          (send_frame-IsSteady net m.type m.content next (IsSteady-of h next refl refl v)))
]

poll_received-IsSteady :
    (net : Network) (received : Received) (h : WebSocketHandler)
    → IsSteady h
    → IsSteady (poll_received net received h).1
unfolding poll_received
poll_received-IsSteady net nothing_yet h v = flush-IsSteady net _ h v
poll_received-IsSteady net ended h v =
    flush-IsSteady net _ (close_connection net h) (close-IsSteady net h v)
poll_received-IsSteady net (got bytes) h v = elim (Option-cases run.0) [
  | inl e ↦ rw (e, poll_received) steady
  | inr (rest, e) ↦
      rw (e, poll_received)
        (flush-IsSteady net _ (record (run.1) { partial_frame = rest })
          (IsSteady-of run.1 (record (run.1) { partial_frame = rest }) refl refl steady))
]
  where
    run : Option (List ℕ) × WebSocketHandler
    run =
        drain net (length (h.partial_frame ++ bytes)) (h.partial_frame ++ bytes)
          (record h { partial_frame = h.partial_frame ++ bytes })

    steady : IsSteady run.1
    steady =
        drain-IsSteady net (length (h.partial_frame ++ bytes)) (h.partial_frame ++ bytes)
          (record h { partial_frame = h.partial_frame ++ bytes })
          (IsSteady-of h (record h { partial_frame = h.partial_frame ++ bytes }) refl refl v)

pub poll-IsSteady :
    (net : Network) (received : Received) (h : WebSocketHandler)
    → IsSteady h
    → IsSteady (poll net received h).1
unfolding poll
poll-IsSteady net received h v = ground (arith, v, poll_received-IsSteady net received h v)

-- Dialling from a closed connection: the result says whether the connection is open.
pub connect_result :
    (dialled : Dialled) (host path : List ℕ) (h : WebSocketHandler)
    → h.state ≡ closed
    → h.fd ≡ none
    → (((connect dialled host path h).0 ≡ false)
        × ((connect dialled host path h).1.state ≡ closed)
        × ((connect dialled host path h).1.fd ≡ none))
      ⊎ ((n : ℕ) × ((connect dialled host path h).0 ≡ true)
          × ((connect dialled host path h).1.state ≡ open_state)
          × ((connect dialled host path h).1.fd ≡ some n))
unfolding connect
connect_result no_host host path h s f = inl (refl, s, f)
connect_result no_socket host path h s f = inl (refl, s, refl)
connect_result (refused n) host path h s f = inl (refl, refl, refl)
connect_result (unsent n) host path h s f = inl (refl, refl, refl)
connect_result (unanswered n) host path h s f = inl (refl, refl, refl)
connect_result (answered n response) host path h s f =
    elim (Option-cases (cut (codes "101") response)) [
      | inl e ↦ inl (ground (arith, e), ground (arith, e), ground (arith, e))
      | inr (parts, e) ↦ inr (n, ground (arith, e), ground (arith, e), ground (arith, e))
    ]
