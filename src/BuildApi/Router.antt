-- ===== src/BuildApi/Router.antt =====
-- `createRouter`, `authMiddleware` and the handlers of `APIServer` in internal/buildapi/server.go.
use automotive_dev_operator.Base.{
  ℕ, String, List, [], ◌∷◌, ◌==◌, if◌then◌else◌, not, ◌&&◌, ◌||◌, Exec, ◌>>=◌,
}
use automotive_dev_operator.BuildApi.Types.{Request, Response, plain, moved}
use automotive_dev_operator.BuildApi.Client.{ApiClient, fails_with, answers, is_authenticated}
use automotive_dev_operator.BuildApi.Create.{create_build}
use automotive_dev_operator.BuildApi.Queries.{list_builds, get_build, get_build_template}
use automotive_dev_operator.BuildApi.Uploads.{upload_files}
use automotive_dev_operator.BuildApi.Artifacts.{
  list_artifacts, stream_artifact_part, stream_default_artifact, stream_artifact_by_filename,
}
use automotive_dev_operator.BuildApi.Logs.{stream_logs}
use automotive_dev_operator.BuildApi.SseLogs.{stream_logs_sse}

-- The operations of the group `/v1/builds`.
pub data Operation : Type 0 where
  create list : Operation
  get logs artifact artifacts template uploads : String → Operation
  artifact_part artifact_file : String → String → Operation

pub data Endpoint : Type 0 where
  healthz openapi no_route : Endpoint
  logs_sse : String → Endpoint
  guarded : Operation → Endpoint

-- The routes of one build that end after a word, and those with one more element.
unfoldable pub route_word : String → String → String → Endpoint
route_word method name word =
    if method == "GET"
    then (if word == "logs"
        then guarded (logs name)
        else if word == "artifact"
        then guarded (artifact name)
        else if word == "artifacts"
        then guarded (artifacts name)
        else if word == "template"
        then guarded (template name)
        else no_route)
    else if (method == "POST") && (word == "uploads")
    then guarded (uploads name)
    else no_route

unfoldable pub route_pair : String → String → String → String → Endpoint
route_pair method name word last =
    if not (method == "GET") || last == ""
    then no_route
    else if (word == "logs") && (last == "sse")
    then logs_sse name
    else if word == "artifacts"
    then guarded (artifact_part name last)
    else if word == "artifact"
    then guarded (artifact_file name last)
    else no_route

-- The routes below `/v1/builds`.
unfoldable pub route_builds : String → List String → Endpoint
unfolding route_word route_pair
route_builds method [] =
    if method == "POST" then guarded create else if method == "GET" then guarded list else no_route
route_builds method (name ∷ []) =
    if (method == "GET") && not (name == "") then guarded (get name) else no_route
route_builds method (name ∷ word ∷ []) = route_word method name word
route_builds method (name ∷ word ∷ last ∷ []) = route_pair method name word last
route_builds method (name ∷ word ∷ last ∷ x ∷ more) = no_route

unfoldable pub route_plain : String → String → List String → Endpoint
route_plain method e [] =
    if not (method == "GET")
    then no_route
    else if e == "healthz"
    then healthz
    else if e == "openapi.yaml"
    then openapi
    else no_route
route_plain method e (x ∷ more) = no_route

-- The route of a method and the elements of a path. A path that ends in a slash has an empty last
-- element, which no parameter of a route takes.
unfoldable pub route : String → List String → Endpoint
unfolding route_builds route_plain
route method [] = no_route
route method (v ∷ []) = no_route
route method (v ∷ e ∷ more) =
    if not (v == "v1")
    then no_route
    else if e == "builds"
    then route_builds method more
    else route_plain method e more

module _ (C : ApiClient) where
  open C use {World}

  unfoldable pub auth_middleware : Request → Exec World Response → Exec World Response
  unfolding is_authenticated
  auth_middleware q next = is_authenticated C q >>= λ allowed.
      if not allowed then fails_with 401 "unauthorized" else next

  -- A number of rounds bounds the loops that follow logs.
  unfoldable pub operate : ℕ → Request → Operation → Exec World Response
  unfolding create_build list_builds get_build get_build_template upload_files list_artifacts
      stream_artifact_part stream_default_artifact stream_artifact_by_filename stream_logs
  operate rounds q create = create_build C q
  operate rounds q list = list_builds C
  operate rounds q (get name) = get_build C name
  operate rounds q (logs name) = stream_logs C rounds name
  operate rounds q (artifact name) = stream_default_artifact C name
  operate rounds q (artifacts name) = list_artifacts C name
  operate rounds q (template name) = get_build_template C name
  operate rounds q (uploads name) = upload_files C name q
  operate rounds q (artifact_part name part) = stream_artifact_part C name part
  operate rounds q (artifact_file name filename) = stream_artifact_by_filename C name filename

  -- A path without a route is redirected to the one with or without a slash at its end, where gin
  -- recommends that.
  unfoldable pub serve_no_route : String → List String → Exec World Response
  serve_no_route method path =
      if C.redirects_slash method path
      then answers (if method == "GET" then 301 else 307) moved
      else answers 404 (plain "404 page not found")

  unfoldable pub serve_endpoint :
      ℕ → Request → String → List String → Endpoint → Exec World Response
  unfolding auth_middleware operate stream_logs_sse serve_no_route
  serve_endpoint rounds q method path healthz = answers 200 (plain "ok")
  serve_endpoint rounds q method path openapi = answers 200 (plain C.openapi)
  serve_endpoint rounds q method path no_route = serve_no_route method path
  serve_endpoint rounds q method path (logs_sse name) = stream_logs_sse C rounds name
  serve_endpoint rounds q method path (guarded o) = auth_middleware q (operate rounds q o)

  unfoldable pub serve : ℕ → Request → String → List String → Exec World Response
  unfolding serve_endpoint route
  serve rounds q method path = serve_endpoint rounds q method path (route method path)
