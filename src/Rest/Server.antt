-- ===== src/Rest/Server.antt =====
-- src/protocol/rest_handler.cpp, `HttpServer`. What the operating system answers is an argument; `events`
-- lists the bytes sent and the descriptors closed, in order.
use hftperformance.Prelude.{
  ℕ, Bool, true, false, List, [], ◌∷◌, ◌++◌, Option, none, some, length, if◌then◌else◌,
}
use hftperformance.Prelude.Int.{pos, leb_ℤ}
use hftperformance.Prelude.Text.{codes}
use hftperformance.Rest.{
  HttpRequest, no_request, HttpResponse, bad_request, dangling, make_response, json, build, Result,
  returns, throws, parse,
}
use hftperformance.Rest.Router.{Route, route, json_error}

pub data Event : Type 0 where
  sent : ℕ → List ℕ → Event
  shut : ℕ → Event

pub record HttpServer : Type 0 where
  pub port : ℕ
  pub server_fd : Option ℕ
  pub running : Bool
  pub router : List Route
  pub events : List Event

unfoldable pub make_server : ℕ → List Route → HttpServer
make_server port router = record {
  port = port;
  server_fd = none;
  running = false;
  router = router;
  events = [];
}

abbrev pub emit : Event → HttpServer → HttpServer
emit e s = record s { events = s.events ++ e ∷ [] }

-- What becomes of the calls of `start`: the descriptor, and the call that fails.
pub data Opening : Type 0 where
  no_socket : Opening
  unbound not_listening listening : ℕ → Opening

-- `start`
abbrev pub give_back : ℕ → HttpServer → Bool × HttpServer
give_back fd s = (false, emit (shut fd) (record s { server_fd = none }))

unfoldable pub start : Opening → HttpServer → Bool × HttpServer
start no_socket s = (false, record s { server_fd = none })
start (unbound fd) s = give_back fd s
start (not_listening fd) s = give_back fd s
start (listening fd) s = (true, record s { server_fd = some fd; running = true })

-- `stop`
unfoldable pub stop : HttpServer → HttpServer
stop s = elim s.server_fd [
  | none ↦ record s { running = false }
  | some fd ↦ emit (shut fd) (record s { running = false; server_fd = none })
]

-- What `handle_connection` does: nothing, an answer, a read of a string that is gone, or an exception.
pub data Handled : Type 0 where
  silent : Handled
  answer : List ℕ → Handled
  undefined : Handled
  threw : Handled

abbrev pub answer_of : Option (List ℕ) → Handled
answer_of none = undefined
answer_of (some bytes) = answer bytes

-- The answer to a request that is not complete or not valid. The string of its body is gone at the end
-- of the statement that makes it, before `build` reads it: the program sends a page, but with whatever
-- bytes are there then.
unfoldable pub invalid_request : HttpResponse
unfolding json json_error
invalid_request =
    json (dangling (length (json_error (codes "Invalid request") (codes "BAD_REQUEST"))))
      (make_response bad_request)

-- `handle_connection`, for what `recv` returns: nothing stands for 0 bytes or an error.
abbrev pub after_parse : List Route → Result × HttpRequest → Handled
after_parse router (throws, request) = threw
after_parse router (returns parsed, request) =
    if leb_ℤ parsed (pos 0)
    then answer_of (build invalid_request)
    else answer_of (build (route router request).0)

unfoldable pub handle_connection : List Route → List ℕ → Handled
unfolding parse route build invalid_request
handle_connection router [] = silent
handle_connection router (c ∷ bytes) = after_parse router (parse (c ∷ bytes) no_request)

-- `accept_connection` of a client, and what it receives. An exception leaves the descriptor open; after
-- an undefined read nothing is promised, and `none` stands for that.
abbrev pub conclude : ℕ → Handled → HttpServer → Option (Bool × HttpServer)
conclude fd silent s = some (true, emit (shut fd) s)
conclude fd (answer bytes) s = some (true, emit (shut fd) (emit (sent fd bytes) s))
conclude fd threw s = some (false, s)
conclude fd undefined s = none

unfoldable pub accept_connection : Option (ℕ × List ℕ) → HttpServer → Option (Bool × HttpServer)
unfolding handle_connection
accept_connection none s = some (true, s)
accept_connection (some (fd, bytes)) s = conclude fd (handle_connection s.router bytes) s

-- `poll`: whether it returns, rather than throw, and the server.
unfoldable pub poll : Option (ℕ × List ℕ) → HttpServer → Option (Bool × HttpServer)
unfolding accept_connection
poll client s = if s.running then accept_connection client s else some (true, s)

-- `run`, for the clients that come: it ends when the server does not run, or with an exception.
unfoldable pub run : List (Option (ℕ × List ℕ)) → HttpServer → Option (Bool × HttpServer)
unfolding poll
run [] s = some (true, s)
run (client ∷ clients) s = elim (poll client s) [
  | none ↦ none
  | some (false, s') ↦ some (false, s')
  | some (true, s') ↦ run clients s'
]
