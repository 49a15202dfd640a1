-- ===== src/Rest/Messages.antt =====
-- src/protocol/rest_handler.cpp, `HttpParser::parse` on the texts of requests.
use hftperformance.Prelude.{
  ℕ, ◌+◌, ◌-◌, ◌≡◌, refl, ◌∙◌, ap, List, [], ◌∷◌, ◌++◌, some, length, length-append, arith, All,
}
use hftperformance.Prelude.Text.{Free, cut_at, cut_at-append, cut}
use hftperformance.Rest.{
  HttpRequest, crlf, header_lines, parse_method, parse_headers, set_target, finish, parse,
}
use hftperformance.Rest.Patterns.{set_all}
use hftperformance.Rest.Lines.{
  IsHeader, front_of, front_of_lines, cut-crlf, cut-front_of, parse_headers-lines, header_line,
}

-- The text of a request: a line, the headers, a blank line and what stands behind it.
abbrev pub message : List ℕ → List (List ℕ × List ℕ) → List ℕ → List ℕ
message line hs rest = line ++ (crlf ++ (header_lines hs ++ (crlf ++ rest)))

abbrev pub request_line : List ℕ → List ℕ → List ℕ → List ℕ
request_line method uri version = method ++ b' ' ∷ (uri ++ b' ' ∷ version)

-- A request line that can be read back.
pub record IsLine (method uri version : List ℕ) : Type 0 where
  pub method_free : Free b' ' method
  pub uri_free : Free b' ' uri
  pub line_free : Free 13 (request_line method uri version)

-- The request that `parse` has before it looks for the length.
abbrev pub read_request : List ℕ → List ℕ → List (List ℕ × List ℕ) → HttpRequest → HttpRequest
read_request method uri hs r =
    let aimed = set_target uri (record r { method = parse_method method }) in
    record aimed { headers = set_all hs aimed.headers }

parse_steps :
    (r : HttpRequest) (bytes front rest line lines method tail uri version : List ℕ)
    → cut (crlf ++ crlf) bytes ≡ some (front, rest)
    → cut crlf bytes ≡ some (line, lines)
    → cut_at b' ' line ≡ some (method, tail)
    → cut_at b' ' tail ≡ some (uri, version)
    → let aimed = set_target uri (record r { method = parse_method method }) in
      parse bytes r
      ≡ finish (length front) rest (record aimed {
        headers =
            parse_headers (length front) (length front - (length line + 2)) lines aimed.headers;
      })
unfolding parse
parse_steps r bytes front rest line lines method tail uri version e1 e2 e3 e4 =
    rw (parse, e1, e2, e3, e4) refl

pub length-front_of :
    (line : List ℕ) (hs : List (List ℕ × List ℕ))
    → length (front_of line hs) ≡ length line + length (header_lines hs)
unfolding header_lines
length-front_of line [] = omega arith
length-front_of line (h ∷ hs) = omega (
  arith,
  length-append line (crlf ++ front_of (header_line h) hs),
  length-front_of (header_line h) hs,
  length-append (header_line h ++ crlf) (header_lines hs),
  length-append (header_line h) crlf,
)

module _ (method uri version : List ℕ) (hs : List (List ℕ × List ℕ)) (l : IsLine method uri version)
    (a : All IsHeader hs) (r : HttpRequest) where
  abbrev line : List ℕ
  line = request_line method uri version

  -- `parse` reads the line and the headers of a request's text.
  pub parse-message :
      (rest : List ℕ)
      → parse (message line hs rest) r
        ≡ finish (length (front_of line hs)) rest (read_request method uri hs r)
  parse-message rest =
      let aimed : HttpRequest = set_target uri (record r { method = parse_method method }) in
      let left : length (front_of line hs) - (length line + 2) ≡ length (header_lines hs) - 2 =
        omega (arith, length-front_of line hs) in
      parse_steps r (message line hs rest) (front_of line hs) rest line
        (header_lines hs ++ (crlf ++ rest)) method (uri ++ b' ' ∷ version) uri version
        (ap (cut (crlf ++ crlf)) (front_of_lines line hs rest)
          ∙ cut-front_of line hs rest l.line_free a)
        (cut-crlf line (header_lines hs ++ (crlf ++ rest)) l.line_free)
        (cut_at-append b' ' method (uri ++ b' ' ∷ version) l.method_free)
        (cut_at-append b' ' uri version l.uri_free)
      ∙ ap
          (λ n. finish (length (front_of line hs)) rest (record aimed {
            headers =
                parse_headers (length (front_of line hs)) n (header_lines hs ++ (crlf ++ rest))
                  aimed.headers;
          }))
          left
      ∙ ap (λ m. finish (length (front_of line hs)) rest (record aimed { headers = m }))
          (parse_headers-lines (length (front_of line hs)) hs rest aimed.headers a
            (omega (arith, length-front_of line hs)))
