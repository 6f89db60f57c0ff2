-- ===== src/BuildApi/Auth.antt =====
-- Which requests `createRouter` of internal/buildapi/server.go answers without authentication.
use automotive_dev_operator.Base.{
  ℕ, String, ◌≡◌, refl, ◌⊎◌, inl, inr, Bool, true, false, not, Bool-cases, List, [], ◌∷◌, ◌==◌,
  eq_iff, if◌then◌else◌, arith, Result, ok, Exec, raise, on_error-ok,
}
use automotive_dev_operator.BuildApi.Types.{Request, Response, plain, failure, moved}
use automotive_dev_operator.BuildApi.Client.{ApiClient, fails_with, is_authenticated}
use automotive_dev_operator.BuildApi.Router.{
  Endpoint, healthz, openapi, no_route, logs_sse, guarded, route_word, route_pair, route_builds,
  route_plain, route, serve_no_route, auth_middleware, operate, serve_endpoint, serve,
}

-- The three requests that need no authentication.
abbrev pub IsPublic : String → List String → Type 0
IsPublic method path =
    (method ≡ "GET")
    × ((path ≡ "v1" ∷ "healthz" ∷ [])
        ⊎ ((path ≡ "v1" ∷ "openapi.yaml" ∷ [])
            ⊎ ((name : String) × (path ≡ "v1" ∷ "builds" ∷ name ∷ "logs" ∷ "sse" ∷ []))))

abbrev is_unguarded : Endpoint → Bool
is_unguarded healthz = true
is_unguarded openapi = true
is_unguarded no_route = false
is_unguarded (logs_sse name) = true
is_unguarded (guarded o) = false

route_word-guarded : (m n w : String) → is_unguarded (route_word m n w) ≡ false
unfolding route_word
route_word-guarded m n w = ground (arith)

route_pair-unguarded :
    (m n w l : String)
    → is_unguarded (route_pair m n w l) ≡ true
    → (m ≡ "GET") × (w ≡ "logs") × (l ≡ "sse")
unfolding route_pair
route_pair-unguarded m n w l h = ground (arith, eq_iff m "GET", eq_iff w "logs", eq_iff l "sse")

route_plain-unguarded :
    (m e : String) (more : List String)
    → is_unguarded (route_plain m e more) ≡ true
    → (m ≡ "GET") × (more ≡ []) × ((e ≡ "healthz") ⊎ (e ≡ "openapi.yaml"))
unfolding route_plain
route_plain-unguarded m e [] h =
    let both : (m ≡ "GET") × ((e ≡ "healthz") ⊎ (e ≡ "openapi.yaml")) =
      ground (arith, eq_iff m "GET", eq_iff e "healthz", eq_iff e "openapi.yaml") in
    (both.0, refl, both.1)
route_plain-unguarded m e (x ∷ more) h = ground (arith)

route_builds-unguarded :
    (m : String) (more : List String)
    → is_unguarded (route_builds m more) ≡ true
    → (m ≡ "GET") × (name : String) × (more ≡ name ∷ "logs" ∷ "sse" ∷ [])
unfolding route_builds
route_builds-unguarded m [] h = ground (arith)
route_builds-unguarded m (n ∷ []) h = ground (arith)
route_builds-unguarded m (n ∷ w ∷ []) h = ground (arith, route_word-guarded m n w)
route_builds-unguarded m (n ∷ w ∷ l ∷ []) h =
    let (get, logs, sse) = route_pair-unguarded m n w l h in (get, n, λ i. n ∷ logs i ∷ sse i ∷ [])
route_builds-unguarded m (n ∷ w ∷ l ∷ x ∷ more) h = ground (arith)

plain-IsPublic :
    (m e : String) (more : List String)
    → (m ≡ "GET") × (more ≡ []) × ((e ≡ "healthz") ⊎ (e ≡ "openapi.yaml"))
    → IsPublic m ("v1" ∷ e ∷ more)
plain-IsPublic m e more (get, none, inl h) = (get, inl (λ i. "v1" ∷ h i ∷ none i))
plain-IsPublic m e more (get, none, inr h) = (get, inr (inl (λ i. "v1" ∷ h i ∷ none i)))

unguarded-IsPublic :
    (m : String) (path : List String) → is_unguarded (route m path) ≡ true → IsPublic m path
unfolding route
unguarded-IsPublic m [] h = ground (arith)
unguarded-IsPublic m (v ∷ []) h = ground (arith)
unguarded-IsPublic m (v ∷ e ∷ more) h = elim (Bool-cases (v == "v1")) [
  | inr no_v ↦ ground (arith)
  | inl is_v ↦ elim (Bool-cases (e == "builds")) [
    | inl is_b ↦
        let (get, name, rest) = route_builds-unguarded m more (rw (is_v, is_b) at h) in
        let v1 = (eq_iff v "v1").0 is_v in
        let builds = (eq_iff e "builds").0 is_b in
        (get, inr (inr (name, λ i. v1 i ∷ builds i ∷ rest i)))
    | inr no_b ↦
        let v1 = (eq_iff v "v1").0 is_v in
        rw v1 (plain-IsPublic m e more (route_plain-unguarded m e more (rw (is_v, no_b) at h)))
  ]
]

module _ (C : ApiClient) where
  open C use {World}

  abbrev pub unauthorized : Response
  unauthorized = record { status = 401; body = failure "unauthorized" }

  abbrev pub not_found : Response
  not_found = record { status = 404; body = plain "404 page not found" }

  auth_middleware-unauthenticated :
      (q : Request) (next : Exec World Response) (w : World)
      → (is_authenticated C q w).0 ≡ ok false
      → auth_middleware C q next w ≡ (ok unauthorized, (is_authenticated C q w).1)
  unfolding auth_middleware
  auth_middleware-unauthenticated q next w h =
      on_error-ok (is_authenticated C q) raise
        (λ allowed. if not allowed then fails_with 401 "unauthorized" else next) w false h

  abbrev pub redirected : String → Response
  redirected method = record { status = if method == "GET" then 301 else 307; body = moved }

  -- The request is refused, or told to ask for another path; no handler runs.
  abbrev pub IsRefusal : Request → String → World → Result Response × World → Type 0
  IsRefusal q method w x =
      (x ≡ (ok unauthorized, (is_authenticated C q w).1))
      ⊎ ((x ≡ (ok not_found, w)) ⊎ (x ≡ (ok (redirected method), w)))

  no_route-IsRefusal :
      (q : Request) (method : String) (path : List String) (w : World)
      → IsRefusal q method w (serve_no_route C method path w)
  unfolding serve_no_route
  no_route-IsRefusal q method path w = elim (Bool-cases (C.redirects_slash method path)) [
    | inl e ↦ inr (inr (rw e refl))
    | inr e ↦ inr (inl (rw e refl))
  ]

  endpoint-IsRefusal :
      (rounds : ℕ) (q : Request) (method : String) (path : List String) (e : Endpoint) (w : World)
      → (is_authenticated C q w).0 ≡ ok false
      → is_unguarded e ≡ false
      → IsRefusal q method w (serve_endpoint C rounds q method path e w)
  unfolding serve_endpoint
  endpoint-IsRefusal rounds q method path healthz w h g = ground (arith)
  endpoint-IsRefusal rounds q method path openapi w h g = ground (arith)
  endpoint-IsRefusal rounds q method path no_route w h g = no_route-IsRefusal q method path w
  endpoint-IsRefusal rounds q method path (logs_sse name) w h g = ground (arith)
  endpoint-IsRefusal rounds q method path (guarded o) w h g =
      inl (auth_middleware-unauthenticated q (operate C rounds q o) w h)

  -- Where the token review does not accept the request, it reaches no handler, unless it is one of
  -- the three public ones: it is answered with 401 after nothing but the review, or, where no route
  -- fits, with 404 or the redirection of a slash at the end of the path.
  pub serve_unauthenticated :
      (rounds : ℕ) (q : Request) (method : String) (path : List String) (w : World)
      → (is_authenticated C q w).0 ≡ ok false
      → IsPublic method path ⊎ IsRefusal q method w (serve C rounds q method path w)
  unfolding serve
  serve_unauthenticated rounds q method path w h =
      elim (Bool-cases (is_unguarded (route method path))) [
        | inl e ↦ inl (unguarded-IsPublic method path e)
        | inr e ↦ inr (endpoint-IsRefusal rounds q method path (route method path) w h e)
      ]
