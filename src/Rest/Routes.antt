-- ===== src/Rest/Routes.antt =====
-- src/protocol/rest_handler.cpp: `add_route`, `Route::match` and `HttpRouter::route` together.
use hftperformance.Prelude.{
  ℕ, zero, suc, ◌+◌, ◌≤◌, ◌≡◌, ◌≢◌, ◌⊎◌, refl, sym, ◌∙◌, ap, true, false, List, [], ◌∷◌, ◌++◌, map,
  length, length-append, ◌==◌, arith, inl, inr, Bool-cases, Option-cases, All,
}
use hftperformance.Prelude.Text.{cut_at}
use hftperformance.Rest.Text.{TextMap}
use hftperformance.Rest.{HttpMethod, HttpRequest}
use hftperformance.Rest.Router.{
  Route, same_method, match_from, route_match, names_of, route, route_not_found,
}
use hftperformance.Rest.Patterns.{
  Fits, done, same, param, set_all, assign, assign_names, until_slash-append, match_from-Fits,
  Fits-match_from,
}

names_of-skip :
    (fuel c : ℕ) (p : List ℕ) → c ≢ b':' → names_of (suc fuel) (c ∷ p) ≡ names_of (suc fuel) p
unfolding names_of cut_at
names_of-skip fuel c p h =
    let other : (c == b':') ≡ false = ground (arith, h) in
    elim (Option-cases (cut_at b':' p)) [
      | inl e ↦ rw (names_of, cut_at, other, e) refl
      | inr ((front, rest), e) ↦ rw (names_of, cut_at, other, e) refl
    ]

-- `add_route` finds the names of all parameters that `match` meets, in order.
names_of-Fits :
    (fuel : ℕ) {p q : List ℕ} {bs : List (List ℕ × List ℕ)}
    → Fits p q bs
    → length p ≤ fuel
    → names_of fuel p ≡ map (λ b. b.0) bs
unfolding names_of cut_at
names_of-Fits zero done h = refl
names_of-Fits (suc fuel) done h = refl
names_of-Fits zero (same c ne f) h = absurd (omega arith)
names_of-Fits (suc fuel) (same {p} c ne f) h =
    names_of-skip fuel c p ne ∙ names_of-Fits (suc fuel) f (omega arith)
names_of-Fits zero (param name value free_name free_value at_p at_q some_value f) h =
    absurd (omega arith)
names_of-Fits (suc fuel) (param {p} name value free_name free_value at_p at_q some_value f) h =
    ap (λ u. u.0 ∷ names_of fuel u.1) (until_slash-append name p free_name at_p)
    ∙ ap (λ ns. name ∷ ns) (names_of-Fits fuel f (omega (arith, h, length-append name p)))

-- The route is for the method, and the path fits its pattern, with these values.
abbrev pub Serves : Route → HttpMethod → List ℕ → List (List ℕ × List ℕ) → Type 0
Serves r m path bs = (same_method m r.method ≡ true) × Fits r.pattern path bs

-- The route is one that `add_route` makes.
abbrev pub IsMade : Route → Type 0
IsMade r = r.param_names ≡ names_of (length r.pattern) r.pattern

module _ (r : Route) (made : IsMade r) (m : HttpMethod) (path : List ℕ) (params : TextMap) where
  names : (bs : List (List ℕ × List ℕ)) → Fits r.pattern path bs → r.param_names ≡ map (λ b. b.0) bs
  names bs f = made ∙ names_of-Fits (length r.pattern) f (omega arith)

  -- A route that `add_route` makes matches exactly the requests with its method whose path fits its pattern,
  -- and then assigns to each parameter of the pattern, by its name, what stands in its place in the path.
  pub route_match-Serves :
      ((bs : List (List ℕ × List ℕ))
        → Serves r m path bs
        → route_match r m path params ≡ (true, set_all bs params))
      × ((params' : TextMap)
          → route_match r m path params ≡ (true, params')
          → (bs : List (List ℕ × List ℕ)) × Serves r m path bs × (params' ≡ set_all bs params))
  unfolding route_match
  route_match-Serves = (
    λ bs (e, f). rw e (
        match_from-Fits (length r.pattern + 1) r.param_names params f (omega arith)
        ∙ ap (λ ns. (true, assign ns bs params)) (names bs f)
        ∙ ap (λ k. (true, k)) (assign_names bs params)),
    λ params' h. elim (Bool-cases (same_method m r.method)) [
      | inr e ↦
          let fails : route_match r m path params ≡ (false, params) = rw (route_match, e) refl in
          absurd (cc (fails, h))
      | inl e ↦
          let goes : route_match r m path params
              ≡ match_from (length r.pattern + 1) r.pattern path r.param_names params =
            rw (route_match, e) refl in
          let (bs, f, is) =
            Fits-match_from (length r.pattern + 1) r.pattern path r.param_names params params'
              (sym goes ∙ h) in
          (bs, (e, f), is ∙ ap (λ ns. assign ns bs params) (names bs f) ∙ assign_names bs params)
    ],
  )

  -- Whether it matches does not depend on the parameters.
  match_cases :
      ((bs : List (List ℕ × List ℕ)) × Serves r m path bs)
      ⊎ (((bs : List (List ℕ × List ℕ)) → ¬ Serves r m path bs)
          × ((route_match r m path params).0 ≡ false))
  match_cases = elim (Bool-cases (route_match r m path params).0) [
    | inl e ↦
        let (bs, serves, _) =
          route_match-Serves.1 (route_match r m path params).1
            (ap (λ b. (b, (route_match r m path params).1)) e) in
        inl (bs, serves)
    | inr e ↦ inr (λ bs serves. cc (ap (λ k. k.0) (route_match-Serves.0 bs serves), e), e)
  ]

-- The request with other parameters.
abbrev pub with_params : HttpRequest → TextMap → HttpRequest
with_params request params = record request { path_params = params }

-- None of the routes is for the request.
abbrev pub NoneServes : List Route → HttpRequest → Type 0
NoneServes routes request =
    All (λ r. (bs : List (List ℕ × List ℕ)) → ¬ Serves r request.method request.path bs) routes

route_missed :
    (r : Route) (routes : List Route) (request : HttpRequest)
    → (route_match r request.method request.path request.path_params).0 ≡ false
    → route (r ∷ routes) request
      ≡ route routes
          (with_params request (route_match r request.method request.path request.path_params).1)
unfolding route
route_missed r routes request e = rw (route, e) refl

route_hit :
    (r : Route) (routes : List Route) (request : HttpRequest) (params : TextMap)
    → route_match r request.method request.path request.path_params ≡ (true, params)
    → route (r ∷ routes) request
      ≡ (r.handler (with_params request params), with_params request params)
unfolding route
route_hit r routes request params e =
    rw (route, ap (λ k. k.0) e)
      (ap (λ u. (r.handler (with_params request u.1), with_params request u.1)) e)

-- `HttpRouter::route` over routes that `add_route` has made calls the handler of the first route that is for
-- the request, with the values of its path parameters assigned over what earlier routes have left;
-- if there is none, it returns the response for a missing route.
pub route_first :
    (routes : List Route) (request : HttpRequest)
    → All IsMade routes
    → (NoneServes routes request × ((route routes request).0 ≡ route_not_found))
      ⊎ ((early : List Route) × (r : Route) × (late : List Route) × (bs : List (List ℕ × List ℕ))
          × (left : TextMap) × (routes ≡ early ++ r ∷ late)
          × NoneServes early request
          × Serves r request.method request.path bs
          × (route routes request ≡ (
            r.handler (with_params request (set_all bs left)),
            with_params request (set_all bs left),
          )))
unfolding route
route_first [] request made = inl (tt, refl)
route_first (r ∷ routes) request made =
    let m : HttpMethod = request.method in
    let path : List ℕ = request.path in
    let params : TextMap = request.path_params in
    elim (match_cases r made.0 m path params) [
      | inl (bs, serves) ↦ inr (
        [],
        r,
        routes,
        bs,
        params,
        refl,
        tt,
        serves,
        route_hit r routes request (set_all bs params)
            ((route_match-Serves r made.0 m path params).0 bs serves),
      )
      | inr (misses, e) ↦
          elim (route_first routes (with_params request (route_match r m path params).1) made.1) [
            | inl (none_serves, missing) ↦
                inl
                  ((misses, none_serves), ap (λ k. k.0) (route_missed r routes request e) ∙ missing)
            | inr (early, hit, late, bs, left, split, none_serves, serves, result) ↦ inr (
              r ∷ early,
              hit,
              late,
              bs,
              left,
              ap (λ rs. r ∷ rs) split,
              (misses, none_serves),
              serves,
              route_missed r routes request e ∙ result,
            )
          ]
    ]
