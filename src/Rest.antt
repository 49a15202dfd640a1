-- ===== src/Rest.antt =====
-- src/protocol/rest_handler.hpp and rest_handler.cpp: HTTP requests and responses, and the request parser.
-- A string is its bytes. The `std::string_view` of a response's body is the bytes that it shows while they
-- are alive; those of its headers are taken to be alive.
pub mod Text
pub mod Router
pub mod Server
pub mod Json
pub mod Patterns
pub mod Routes
pub mod Lines
pub mod Messages
pub mod Lengths
pub mod Requests
pub mod Decode
pub mod Failures
use hftperformance.Prelude.{
  ℕ, zero, suc, ◌+◌, ◌-◌, ◌%◌, ◌^◌, Bool, true, false, List, [], ◌∷◌, ◌++◌, Option, none, some,
  length, ltb, ◌==◌, if◌then◌else◌,
}
use hftperformance.Prelude.Int.{ℤ, pos, negsuc}
use hftperformance.Prelude.Text.{codes, cut_at, cut, same_text}
use hftperformance.Fix.Numbers.{show_ℕ}
use hftperformance.WebSocket.Bytes.{take}
use Text.{TextMap, find_text, set_text, to_lower, stoul}

-- `enum class HttpMethod`
pub data HttpMethod : Type 0 where
  get post put delete options head unknown : HttpMethod

-- `enum class HttpStatus`, and its numbers
pub data HttpStatus : Type 0 where
  ok created no_content bad_request unauthorized forbidden not_found : HttpStatus
  method_not_allowed conflict too_many_requests internal_error service_unavailable : HttpStatus

unfoldable pub status_code : HttpStatus → ℕ
status_code ok = 200
status_code created = 201
status_code no_content = 204
status_code bad_request = 400
status_code unauthorized = 401
status_code forbidden = 403
status_code not_found = 404
status_code method_not_allowed = 405
status_code conflict = 409
status_code too_many_requests = 429
status_code internal_error = 500
status_code service_unavailable = 503

-- `status_text`
unfoldable pub status_text : HttpStatus → List ℕ
status_text ok = codes "OK"
status_text created = codes "Created"
status_text no_content = codes "No Content"
status_text bad_request = codes "Bad Request"
status_text unauthorized = codes "Unauthorized"
status_text forbidden = codes "Forbidden"
status_text not_found = codes "Not Found"
status_text method_not_allowed = codes "Method Not Allowed"
status_text conflict = codes "Conflict"
status_text too_many_requests = codes "Too Many Requests"
status_text internal_error = codes "Internal Server Error"
status_text service_unavailable = codes "Service Unavailable"

-- `struct HttpRequest`
pub record HttpRequest : Type 0 where
  pub method : HttpMethod
  pub path : List ℕ
  pub query_string : List ℕ
  pub body : List ℕ
  pub headers : TextMap
  pub query_params : TextMap
  pub path_params : TextMap

abbrev pub no_request : HttpRequest
no_request = record {
  method = unknown;
  path = [];
  query_string = [];
  body = [];
  headers = [];
  query_params = [];
  path_params = [];
}

-- `get_header`: the first entry whose name is the same but for case.
abbrev pub find_lower : List ℕ → TextMap → Option (List ℕ)
find_lower name [] = none
find_lower name ((k, v) ∷ m) = if same_text (to_lower k) name then some v else find_lower name m

unfoldable pub get_header : List ℕ → HttpRequest → Option (List ℕ)
get_header name r = find_lower (to_lower name) r.headers

-- `get_query_param` and `get_path_param`
unfoldable pub get_query_param : List ℕ → HttpRequest → Option (List ℕ)
get_query_param name r = find_text name r.query_params

unfoldable pub get_path_param : List ℕ → HttpRequest → Option (List ℕ)
get_path_param name r = find_text name r.path_params

-- What a `std::string_view` refers to: bytes that are there, or a string that is gone, with its length.
pub data View : Type 0 where
  alive : List ℕ → View
  dangling : ℕ → View

-- `class HttpResponse`
pub record HttpResponse : Type 0 where
  pub status : HttpStatus
  pub headers : List (List ℕ × List ℕ)
  pub content : View

abbrev pub make_response : HttpStatus → HttpResponse
make_response s = record { status = s; headers = []; content = alive [] }

unfoldable pub set_status : HttpStatus → HttpResponse → HttpResponse
set_status s r = record r { status = s }

unfoldable pub header : List ℕ → List ℕ → HttpResponse → HttpResponse
header name value r = record r { headers = r.headers ++ (name, value) ∷ [] }

unfoldable pub content_type : List ℕ → HttpResponse → HttpResponse
unfolding header
content_type type r = header (codes "Content-Type") type r

unfoldable pub json : View → HttpResponse → HttpResponse
unfolding content_type
json v r = content_type (codes "application/json") (record r { content = v })

unfoldable pub set_body : View → HttpResponse → HttpResponse
set_body v r = record r { content = v }

-- `build`; reading a string that is gone is undefined, which `none` stands for.
abbrev pub crlf : List ℕ
crlf = 13 ∷ 10 ∷ []

unfoldable pub header_lines : List (List ℕ × List ℕ) → List ℕ
header_lines [] = []
header_lines ((name, value) ∷ m) = name ++ codes ": " ++ value ++ crlf ++ header_lines m

unfoldable pub build : HttpResponse → Option (List ℕ)
build r = elim r.content [
  | dangling n ↦ none
  | alive bytes ↦ some (
      codes "HTTP/1.1 "
      ++ show_ℕ (status_code r.status)
      ++ codes " "
      ++ status_text r.status
      ++ crlf
      ++ codes "Connection: keep-alive"
      ++ crlf
      ++ codes "Content-Length: "
      ++ show_ℕ (length bytes)
      ++ crlf
      ++ header_lines r.headers
      ++ crlf
      ++ bytes)
]

-- `parse_method`
unfoldable pub parse_method : List ℕ → HttpMethod
parse_method s =
    if same_text s (codes "GET")
    then get
    else if same_text s (codes "POST")
    then post
    else if same_text s (codes "PUT")
    then put
    else if same_text s (codes "DELETE")
    then delete
    else if same_text s (codes "OPTIONS")
    then options
    else if same_text s (codes "HEAD")
    then head
    else unknown

-- `parse_query_string`; each round takes a byte at least, so fuel for the number of bytes is enough.
abbrev pub add_pair : List ℕ → TextMap → TextMap
add_pair text m = elim (cut_at b'=' text) [ none ↦ m | some (name, value) ↦ set_text name value m ]

unfoldable pub parse_query_string : ℕ → List ℕ → TextMap → TextMap
unfolding set_text
parse_query_string zero query m = m
parse_query_string (suc fuel) [] m = m
parse_query_string (suc fuel) (c ∷ query) m = elim (cut_at b'&' (c ∷ query)) [
  | none ↦ add_pair (c ∷ query) m
  | some (text, rest) ↦ parse_query_string fuel rest (add_pair text m)
]

-- The lines of the header, from `pos` on: `left` is `header_end - pos`, or 0 if that is negative. Each
-- line takes two bytes at least. A line ends before `header_end`, where the characters of a line's end
-- stand, so the search always finds one.
abbrev pub skip_blanks : List ℕ → List ℕ
skip_blanks [] = []
skip_blanks (c ∷ s) = let rest = skip_blanks s in if c == b' ' then rest else c ∷ s

abbrev pub add_header : List ℕ → TextMap → TextMap
add_header line m = elim (cut_at b':' line) [
  | none ↦ m
  | some (name, value) ↦ set_text name (skip_blanks value) m
]

unfoldable pub parse_headers : ℕ → ℕ → List ℕ → TextMap → TextMap
unfolding set_text
parse_headers zero left bytes m = m
parse_headers (suc fuel) zero bytes m = m
parse_headers (suc fuel) (suc left) bytes m = elim (cut crlf bytes) [
  | none ↦ m
  | some (line, rest) ↦ parse_headers fuel (suc left - (length line + 2)) rest (add_header line m)
]

-- What `parse` does: it returns a number, or `std::stoul` throws.
pub data Result : Type 0 where
  returns : ℤ → Result
  throws : Result

-- `static_cast<int>` of a `std::size_t`
unfoldable pub to_int : ℕ → ℤ
to_int n = if ltb (n % 2 ^ 32) (2 ^ 31) then pos (n % 2 ^ 32) else negsuc (2 ^ 32 - 1 - n % 2 ^ 32)

-- The end of `parse`, from the length of the header and what stands behind the blank line.
unfoldable pub finish : ℕ → List ℕ → HttpRequest → Result × HttpRequest
unfolding to_int find_text stoul
finish header_end rest r = elim (find_text (codes "Content-Length") r.headers) [
  | none ↦ (returns (to_int (header_end + 4)), r)
  | some text ↦ elim (stoul text) [
    | none ↦ (throws, r)
    | some content_length ↦
        let total_length = (header_end + 4 + content_length) % 2 ^ 64 in
        if ltb (header_end + 4 + length rest) total_length then (returns (pos 0), r) else (
          returns (to_int total_length),
          if ltb 0 content_length then record r { body = take content_length rest } else r,
        )
  ]
]

-- The target of the request, split at the first question mark.
unfoldable pub set_target : List ℕ → HttpRequest → HttpRequest
unfolding parse_query_string
set_target uri r = elim (cut_at b'?' uri) [
  | none ↦ record r { path = uri }
  | some (path, query) ↦ record r {
    path = path;
    query_string = query;
    query_params = parse_query_string (length query) query r.query_params;
  }
]

-- `parse`: the result and the request, which is changed up to the place of a failure.
unfoldable pub parse : List ℕ → HttpRequest → Result × HttpRequest
unfolding parse_method set_target parse_headers finish
parse bytes r = elim (cut (crlf ++ crlf) bytes) [
  | none ↦ (returns (pos 0), r)
  | some (front, rest) ↦ elim (cut crlf bytes) [
    | none ↦ (returns (negsuc 0), r)
    | some (request_line, lines) ↦ elim (cut_at b' ' request_line) [
      | none ↦ (returns (negsuc 0), r)
      | some (method_text, tail) ↦
          let named = record r { method = parse_method method_text } in
          elim (cut_at b' ' tail) [
            | none ↦ (returns (negsuc 0), named)
            | some (uri, _) ↦
                let aimed = set_target uri named in
                let left = length front - (length request_line + 2) in
                finish (length front) rest
                  (record aimed { headers = parse_headers (length front) left lines aimed.headers })
          ]
    ]
  ]
]
