-- ===== src/Tests/Http.antt =====
-- Requests to a server with two routes.
use hftperformance.Prelude.{ℕ, ◌-◌, ◌^◌, ◌≡◌, refl, false, true, List, [], ◌∷◌, some, length, arith}
use hftperformance.Prelude.Int.{pos}
use hftperformance.Prelude.Text.{codes, cut_at, Free-of_cut}
use hftperformance.Fix.Numbers.{read_digits}
use hftperformance.WebSocket.Bytes.{take}
use hftperformance.Rest.Text.{TextMap, stoul, url_decode}
use hftperformance.Rest.{
  get, post, HttpRequest, no_request, HttpResponse, ok, alive, make_response, set_body,
  header_lines, parse_query_string, returns, parse,
}
use hftperformance.Rest.Router.{Route, add_route, route_match, make_route}
use hftperformance.Rest.Server.{HttpServer, make_server, start, listening, poll}
use hftperformance.Rest.Patterns.{set_all}
use hftperformance.Rest.Routes.{Serves, route_match-Serves}
use hftperformance.Rest.Lines.{IsHeader}
use hftperformance.Rest.Messages.{message, request_line, IsLine, read_request}
use hftperformance.Rest.Requests.{content_length, parse_waits, parse_negative}
use hftperformance.Rest.Decode.{url_encode, url_decode-encode, query_text, parse_query_string-text}
use hftperformance.Rest.Failures.{poll_throws}

abbrev order_page : HttpRequest → HttpResponse
order_page request = set_body (alive request.path) (make_response ok)

abbrev order_route : Route
order_route = make_route get (codes "/o/:id") order_page

abbrev routes : List Route
routes = add_route get (codes "/o/:id") order_page (add_route post (codes "/o") order_page [])

abbrev server : HttpServer
server = (start (listening 3) (make_server 80 routes)).1

route_match-Serves_example :
    ((bs : List (List ℕ × List ℕ))
      → Serves order_route get (codes "/o/7") bs
      → route_match order_route get (codes "/o/7") [] ≡ (true, set_all bs []))
    × ((params : TextMap)
        → route_match order_route get (codes "/o/7") [] ≡ (true, params)
        → (bs : List (List ℕ × List ℕ)) × Serves order_route get (codes "/o/7") bs
          × (params ≡ set_all bs []))
route_match-Serves_example = route_match-Serves order_route refl get (codes "/o/7") []

top-IsLine : IsLine (codes "GET") (codes "/o/7") (codes "HTTP/1.1")
unfolding cut_at
top-IsLine = record {
  method_free = Free-of_cut b' ' (codes "GET") refl;
  uri_free = Free-of_cut b' ' (codes "/o/7") refl;
  line_free = Free-of_cut 13 (codes "GET /o/7 HTTP/1.1") refl;
}

abbrev top : List ℕ
top = request_line (codes "GET") (codes "/o/7") (codes "HTTP/1.1")

two_IsHeader : IsHeader (content_length, codes "2")
unfolding cut_at
two_IsHeader = record {
  name = Free-of_cut b':' content_length refl;
  value = λ e. omega arith;
  line = Free-of_cut 13 (codes "Content-Length: 2") refl;
}

bad_IsHeader : IsHeader (content_length, codes "x")
unfolding cut_at
bad_IsHeader = record {
  name = Free-of_cut b':' content_length refl;
  value = λ e. omega arith;
  line = Free-of_cut 13 (codes "Content-Length: x") refl;
}

negative_IsHeader : IsHeader (content_length, codes "-5")
unfolding cut_at
negative_IsHeader = record {
  name = Free-of_cut b':' content_length refl;
  value = λ e. omega arith;
  line = Free-of_cut 13 (codes "Content-Length: -5") refl;
}

parse_waits_example :
    (parse (message top ((content_length, codes "2") ∷ []) (codes "h")) no_request).0
    ≡ returns (pos 0)
unfolding stoul read_digits header_lines
parse_waits_example =
    parse_waits (codes "GET") (codes "/o/7") (codes "HTTP/1.1") (codes "2") [] top-IsLine
      (two_IsHeader, tt) tt 2 (codes "h") refl (omega arith) (omega arith)

parse_negative_example :
    parse (message top ((content_length, codes "-5") ∷ []) (codes "hi")) no_request ≡ (
      returns (pos (length (message top ((content_length, codes "-5") ∷ []) []) - 5)),
      record (read_request
          (codes "GET")
          (codes "/o/7")
          ((content_length, codes "-5") ∷ [])
          no_request) { body = take (2 ^ 64 - 5) (codes "hi") },
    )
unfolding stoul read_digits header_lines
parse_negative_example =
    parse_negative (codes "GET") (codes "/o/7") (codes "HTTP/1.1") (codes "-5") [] top-IsLine
      (negative_IsHeader, tt) tt 5 (codes "hi") refl (omega arith) (omega arith) (omega arith)

poll_throws_example :
    poll (some (7, message top ((content_length, codes "x") ∷ []) [])) server ≡ some (false, server)
unfolding stoul start
poll_throws_example =
    poll_throws server 7 (codes "GET") (codes "/o/7") (codes "HTTP/1.1") (codes "x") [] [] refl
      top-IsLine (bad_IsHeader, tt) tt refl

url_decode-encode_example : url_decode (url_encode (λ c. false) (codes "a b+c%")) ≡ codes "a b+c%"
url_decode-encode_example =
    url_decode-encode (λ c. false) (codes "a b+c%")
      (omega arith, (omega arith, (omega arith, (omega arith, (omega arith, (omega arith, tt))))))

-- Two parameters of one name, and one that is empty.
abbrev params : List (List ℕ × List ℕ)
params = (codes "a", codes "1") ∷ (codes "b", []) ∷ (codes "a", codes "2=3") ∷ []

parse_query_string-text_example : parse_query_string 12 (query_text params) [] ≡ set_all params []
unfolding cut_at
parse_query_string-text_example =
    parse_query_string-text 12 params []
      (
        record {
          name = Free-of_cut b'=' (codes "a") refl;
          whole = Free-of_cut b'&' (codes "a=1") refl;
        },
        (
          record {
            name = Free-of_cut b'=' (codes "b") refl;
            whole = Free-of_cut b'&' (codes "b=") refl;
          },
          (
            record {
              name = Free-of_cut b'=' (codes "a") refl;
              whole = Free-of_cut b'&' (codes "a=2=3") refl;
            },
            tt,
          ),
        ),
      )
      (omega arith)

-- A request that the second route is for.
abbrev order_request : HttpRequest
order_request = record no_request { method = get; path = codes "/o/7" }
