-- ===== src/Rest/Router.antt =====
-- src/protocol/rest_handler.cpp: routes and their patterns, `Route::match` and `HttpRouter`.
-- A handler is a function of the request: it reads the request and makes a response.
use hftperformance.Prelude.{
  ℕ, zero, suc, ◌+◌, Bool, true, false, List, [], ◌∷◌, ◌++◌, none, some, length, ◌==◌,
  if◌then◌else◌,
}
use hftperformance.Prelude.Text.{codes, cut_at}
use hftperformance.Rest.Text.{TextMap, set_text}
use hftperformance.Rest.{
  HttpMethod, get, post, put, delete, options, head, unknown, not_found, HttpRequest, HttpResponse,
  dangling, make_response, json,
}

abbrev pub RouteHandler : Type 0
RouteHandler = HttpRequest → HttpResponse

-- `struct Route`
pub record Route : Type 0 where
  pub method : HttpMethod
  pub pattern : List ℕ
  pub handler : RouteHandler
  pub param_names : List (List ℕ)

-- What stands before the next slash or the end, and from there on.
unfoldable pub until_slash : List ℕ → List ℕ × List ℕ
until_slash [] = ([], [])
until_slash (c ∷ s) =
    let (segment, rest) = until_slash s in if c == b'/' then ([], c ∷ s) else (c ∷ segment, rest)

-- `m != method`
unfoldable pub same_method : HttpMethod → HttpMethod → Bool
same_method get get = true
same_method post post = true
same_method put put = true
same_method delete delete = true
same_method options options = true
same_method head head = true
same_method unknown unknown = true
same_method _ _ = false

-- The assignment of a value to the next name, if there is one, and the names behind it.
abbrev pub bind : List (List ℕ) → List ℕ → TextMap → TextMap
bind [] value params = params
bind (name ∷ names) value params = set_text name value params

abbrev pub later_names : List (List ℕ) → List (List ℕ)
later_names [] = []
later_names (name ∷ names) = names

-- The loop of `Route::match` on what is left of the pattern and of the path. Each round takes a
-- character of the pattern at least; fuel for one more than its length is enough.
unfoldable pub match_from : ℕ → List ℕ → List ℕ → List (List ℕ) → TextMap → Bool × TextMap
unfolding until_slash set_text
match_from zero pattern path names params = (false, params)
match_from (suc fuel) [] [] names params = (true, params)
match_from (suc fuel) [] (d ∷ path) names params = (false, params)
match_from (suc fuel) (c ∷ pattern) [] names params = (false, params)
match_from (suc fuel) (c ∷ pattern) (d ∷ path) names params = elim (c == b':') [
  | true ↦
      match_from fuel (until_slash (c ∷ pattern)).1 (until_slash (d ∷ path)).1 (later_names names)
        (bind names (until_slash (d ∷ path)).0 params)
  | false ↦ elim (c == d) [
    | true ↦ match_from fuel pattern path names params
    | false ↦ (false, params)
  ]
]

-- `Route::match`: whether the route matches, and the parameters, which a failing route may have changed.
unfoldable pub route_match : Route → HttpMethod → List ℕ → TextMap → Bool × TextMap
unfolding same_method match_from
route_match r m path params =
    if same_method m r.method
    then match_from (length r.pattern + 1) r.pattern path r.param_names params
    else (false, params)

-- The names of the parameters in `add_route`; fuel for the length of the pattern is enough.
unfoldable pub names_of : ℕ → List ℕ → List (List ℕ)
unfolding until_slash
names_of zero pattern = []
names_of (suc fuel) pattern = elim (cut_at b':' pattern) [
  | none ↦ []
  | some (_, rest) ↦ (until_slash rest).0 ∷ names_of fuel (until_slash rest).1
]

abbrev pub make_route : HttpMethod → List ℕ → RouteHandler → Route
make_route method pattern handler = record {
  method = method;
  pattern = pattern;
  handler = handler;
  param_names = names_of (length pattern) pattern;
}

-- `HttpRouter` is its routes, in the order of their registration.
unfoldable pub add_route : HttpMethod → List ℕ → RouteHandler → List Route → List Route
unfolding names_of
add_route method pattern handler routes = routes ++ make_route method pattern handler ∷ []

-- `json_response::error`
unfoldable pub json_error : List ℕ → List ℕ → List ℕ
json_error message code =
    codes "{\"error\":{\"code\":\"" ++ code ++ codes "\",\"message\":\"" ++ message ++ codes "\"}}"

-- The response to a request without a route. Its body shows a string that is gone when it is returned.
unfoldable pub route_not_found : HttpResponse
unfolding json json_error
route_not_found =
    json (dangling (length (json_error (codes "Route not found") (codes "NOT_FOUND"))))
      (make_response not_found)

-- `HttpRouter::route`: the response, and the request with the parameters that the routes have set.
unfoldable pub route : List Route → HttpRequest → HttpResponse × HttpRequest
unfolding route_match route_not_found
route [] request = (route_not_found, request)
route (r ∷ routes) request =
    let (fits, params) = route_match r request.method request.path request.path_params in
    let seen = record request { path_params = params } in
    elim fits [ true ↦ (r.handler seen, seen) | false ↦ route routes seen ]
