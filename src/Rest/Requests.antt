-- ===== src/Rest/Requests.antt =====
-- src/protocol/rest_handler.cpp, `HttpParser::parse`: whole requests, incomplete ones, and bad lengths.
use hftperformance.Prelude.{
  ℕ, ◌+◌, ◌-◌, ◌^◌, ◌<◌, ◌≡◌, ◌≢◌, refl, sym, ◌∙◌, ap, List, [], ◌∷◌, ◌++◌, none, some, length,
  length-append, arith, All,
}
use hftperformance.Prelude.Int.{pos}
use hftperformance.Prelude.Text.{codes, same_text_iff}
use hftperformance.WebSocket.Bytes.{take}
use hftperformance.Rest.Text.{find_text, set_text, stoul}
use hftperformance.Rest.{HttpRequest, no_request, crlf, parse_method, returns, throws, parse}
use hftperformance.Rest.Patterns.{set_all}
use hftperformance.Rest.Lines.{IsHeader, front_of, front_of_lines}
use hftperformance.Rest.Messages.{message, request_line, IsLine, read_request, parse-message}
use hftperformance.Rest.Lengths.{
  find-set_all_other, set_target-rest, finish-throws, finish-waits, finish-wraps,
}

-- The name of the header.
abbrev pub content_length : List ℕ
content_length = codes "Content-Length"

-- A request whose first header is its length, which no later header gives again; all headers are
-- written `Name: value`.
module _ (method uri version text : List ℕ) (hs : List (List ℕ × List ℕ))
    (l : IsLine method uri version) (a : All IsHeader ((content_length, text) ∷ hs))
    (once : All (λ h. h.0 ≢ content_length) hs) where
  abbrev pub sized : List (List ℕ × List ℕ)
  sized = (content_length, text) ∷ hs

  abbrev pub sized_line : List ℕ
  sized_line = request_line method uri version

  abbrev got : HttpRequest
  got = read_request method uri sized no_request

  abbrev header_end : ℕ
  header_end = length (front_of sized_line sized)

  there : find_text content_length got.headers ≡ some text
  unfolding find_text set_text
  there =
      ap (λ m. find_text content_length (set_all sized m))
        ((set_target-rest uri (record no_request { method = parse_method method })).0)
      ∙ find-set_all_other content_length hs ((content_length, text) ∷ []) once
      ∙ rw ((same_text_iff content_length content_length).1 refl) refl

  -- The length of a request's text.
  length-message :
      (rest : List ℕ) → length (message sized_line sized rest) ≡ header_end + 4 + length rest
  length-message rest =
      ap length (front_of_lines sized_line sized rest)
      ∙ omega (
        arith,
        length-append (front_of sized_line sized) (crlf ++ (crlf ++ rest)),
        length-append crlf (crlf ++ rest),
        length-append crlf rest,
      )

  -- A request whose first header, and no other, is a Content-Length that is no number makes `parse` throw,
  -- whatever stands behind its header.
  pub parse_bad_length :
      (rest : List ℕ)
      → stoul text ≡ none
      → (parse (message sized_line sized rest) no_request).0 ≡ throws
  parse_bad_length rest e =
      ap (λ k. k.0)
        (parse-message method uri version sized l a no_request rest
          ∙ finish-throws header_end rest got text there e)

  -- For a request whose first header, and no other, is its Content-Length, with all headers written
  -- `Name: value`, and whose header and announced body come to fewer than 2 ^ 64 bytes: while fewer bytes of the body are there than announced, `parse`
  -- asks for more.
  pub parse_waits :
      (n : ℕ) (rest : List ℕ)
      → stoul text ≡ some n
      → length rest < n
      → length (message sized_line sized []) + n < 2 ^ 64
      → (parse (message sized_line sized rest) no_request).0 ≡ returns (pos 0)
  parse_waits n rest e short small =
      let room : header_end + 4 + n < 2 ^ 64 = omega (arith, length-message [], small) in
      ap (λ k. k.0)
        (parse-message method uri version sized l a no_request rest
          ∙ finish-waits header_end rest got text there n e room short)

  -- For a request with all headers written `Name: value`, whose first, and no other, is a Content-Length
  -- that reads as 2 ^ 64 - k, as the text of -k does, with k positive and below the length of the header, which is below 2 ^ 31: the
  -- completeness test wraps, and `parse` accepts the request with the first 2 ^ 64 - k bytes that have come
  -- behind the header, be they fewer, as its body, and returns k bytes less than the header has.
  pub parse_negative :
      (k : ℕ) (rest : List ℕ)
      → stoul text ≡ some (2 ^ 64 - k)
      → 0 < k
      → k < length (message sized_line sized [])
      → length (message sized_line sized []) < 2 ^ 31
      → parse (message sized_line sized rest) no_request ≡ (
        returns (pos (length (message sized_line sized []) - k)),
        record (read_request method uri sized no_request) { body = take (2 ^ 64 - k) rest },
      )
  parse_negative k rest e positive most small =
      let empty : length (message sized_line sized []) ≡ header_end + 4 =
        omega (arith, length-message []) in
      parse-message method uri version sized l a no_request rest
      ∙ finish-wraps header_end rest got text there k e positive (omega (arith, empty, most))
          (omega (arith, empty, small))
      ∙ ap (λ n. (returns (pos (n - k)), record got { body = take (2 ^ 64 - k) rest })) (sym empty)
