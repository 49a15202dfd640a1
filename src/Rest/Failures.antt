-- ===== src/Rest/Failures.antt =====
-- src/protocol/rest_handler.cpp, `HttpServer`: what a client gets.
use hftperformance.Prelude.{ℕ, ◌≡◌, ◌≢◌, refl, ◌∙◌, ap, true, false, List, [], ◌∷◌, none, some, All}
use hftperformance.Rest.Text.{stoul}
use hftperformance.Rest.{HttpRequest, no_request, Result, returns, throws, parse}
use hftperformance.Rest.Router.{Route}
use hftperformance.Rest.Lines.{IsHeader}
use hftperformance.Rest.Messages.{message, request_line, IsLine}
use hftperformance.Rest.Requests.{content_length, parse_bad_length}
use hftperformance.Rest.Server.{
  HttpServer, threw, after_parse, handle_connection, conclude, accept_connection, poll,
}

handle_connection-parse :
    (router : List Route) (c : ℕ) (bytes : List ℕ)
    → handle_connection router (c ∷ bytes) ≡ after_parse router (parse (c ∷ bytes) no_request)
unfolding handle_connection
handle_connection-parse router c bytes = refl

poll-running :
    (s : HttpServer) (fd : ℕ) (bytes : List ℕ)
    → s.running ≡ true
    → poll (some (fd, bytes)) s ≡ conclude fd (handle_connection s.router bytes) s
unfolding poll accept_connection
poll-running s fd bytes e = rw (poll, e) refl

after_parse-throws :
    (router : List Route) (r : Result × HttpRequest) → r.0 ≡ throws → after_parse router r ≡ threw
after_parse-throws router (throws, request) e = refl
after_parse-throws router (returns k, request) e = absurd (cc e)

handle_connection-throws :
    (router : List Route) (bytes : List ℕ)
    → bytes ≢ []
    → (parse bytes no_request).0 ≡ throws
    → handle_connection router bytes ≡ threw
handle_connection-throws router [] some_bytes e = absurd (some_bytes refl)
handle_connection-throws router (c ∷ bytes) some_bytes e =
    handle_connection-parse router c bytes
    ∙ after_parse-throws router (parse (c ∷ bytes) no_request) e

-- A request has bytes.
message_ne :
    (method uri version : List ℕ) (hs : List (List ℕ × List ℕ)) (rest : List ℕ)
    → message (request_line method uri version) hs rest ≢ []
message_ne [] uri version hs rest e = cc e
message_ne (m ∷ method) uri version hs rest e = cc e

-- A request whose first header, and no other, is a Content-Length that is no number, with all headers
-- written `Name: value`, ends `poll` of a running server with an exception: nothing is sent, and the
-- client's descriptor is not closed.
pub poll_throws :
    (s : HttpServer) (fd : ℕ) (method uri version text : List ℕ) (hs : List (List ℕ × List ℕ))
    (rest : List ℕ)
    → s.running ≡ true
    → IsLine method uri version
    → All IsHeader ((content_length, text) ∷ hs)
    → All (λ h. h.0 ≢ content_length) hs
    → stoul text ≡ none
    → poll
        (some (fd, message (request_line method uri version) ((content_length, text) ∷ hs) rest))
        s
      ≡ some (false, s)
poll_throws s fd method uri version text hs rest running l a once bad =
    poll-running s fd (message (request_line method uri version) ((content_length, text) ∷ hs) rest)
      running
    ∙ ap (λ k. conclude fd k s)
        (handle_connection-throws s.router
          (message (request_line method uri version) ((content_length, text) ∷ hs) rest)
          (message_ne method uri version ((content_length, text) ∷ hs) rest)
          (parse_bad_length method uri version text hs l a once rest bad))
