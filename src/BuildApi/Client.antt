-- ===== src/BuildApi/Client.antt =====
-- What the handlers of internal/buildapi/server.go call: the environment, the clients of
-- Kubernetes, and the objects that they read and make.
use automotive_dev_operator.Base.{
  ℕ, String, StringMap, Bool, false, not, ◌&&◌, Option, List, ◌==◌, if◌then◌else◌, Error, Result,
  Exec, pure, wrapping, on_error, ◌>>=◌, ◌>>◌, gets,
}
use automotive_dev_operator.Kube.{Key}
use automotive_dev_operator.Text.Trim.{trim_space, trim_prefix}
use automotive_dev_operator.OperatorConfig.Types.{OperatorConfig}
use automotive_dev_operator.ImageBuild.Types.{ImageBuild}
use automotive_dev_operator.ImageBuild.Client.{OwnerReference}
use automotive_dev_operator.BuildApi.Types.{Request, Response, Body, failure}

pub record ConfigMap : Type 0 where
  pub name : String
  pub namespace : String
  pub labels : StringMap
  pub owner : Option OwnerReference
  pub data_map : StringMap

-- A secret of type `Opaque`.
pub record Secret : Type 0 where
  pub name : String
  pub namespace : String
  pub labels : StringMap
  pub owner : Option OwnerReference
  pub data_map : StringMap

pub record TokenReview : Type 0 where
  pub authenticated : Bool
  pub username : String

-- A pod with its phase, its containers in order, and those among them that are ready.
pub record ListedPod : Type 0 where
  pub name : String
  pub phase : String
  pub containers : List String
  pub ready : List String

-- A container of a pod.
pub record Place : Type 0 where
  pub namespace : String
  pub pod : String
  pub container : String

-- What a log stream delivers: its chunks, each between two reads, and how it ends: at the end of the
-- log, with an error, or because the client is gone.
pub data LogEnd : Type 0 where
  at_eof cancelled : LogEnd
  broken : Error → LogEnd

pub record LogStream : Type 0 where
  pub chunks : List String
  pub ending : LogEnd

-- The calls that the handlers make, over an unknown state of the world. `create_build` returns the
-- object as the server stored it, and `update_config_map` writes a whole object.
-- `patch_build base m` is `Patch(ctx, m, MergeFrom(base))`. `create_temp` makes a temporary file,
-- `receive` copies a part of the request to it, and `open_file` opens it and asks for its size.
-- `send_archive place command name file` runs a command in a pod on the archive that holds the file
-- under the name, `run` returns the output of a command, and `stream_to_client` sends it to the
-- client and returns what was sent. `list_task_run_pods` selects by the name of a task run, `open_log`
-- follows the log of a container, `write` writes to the response, and `is_gone` says whether the
-- client has left. A time is a number of nanoseconds; `format_time` is RFC 3339, and
-- `openapi` is the embedded document. `redirects_slash method path` says whether gin, for a path that
-- no route of the method takes, recommends the same path with or without a slash at its end.
pub record ApiClient : Type 1 where
  pub World : Type 0
  pub Config : Type 0
  pub getenv : String → World → String
  pub read_namespace_file : Exec World String
  pub in_cluster_config : Exec World Config
  pub config_from_flags : String → Exec World Config
  pub add_automotive_scheme : Exec World (Unit {0})
  pub add_core_scheme : Exec World (Unit {0})
  pub new_client : Config → Exec World (Unit {0})
  pub new_clientset : Config → Exec World (Unit {0})
  pub review_token : String → Exec World TokenReview
  pub get_operator_config : Key → Exec World OperatorConfig
  pub get_build : Key → Exec World ImageBuild
  pub list_builds : String → Exec World (List ImageBuild)
  pub create_build : ImageBuild → Exec World ImageBuild
  pub patch_build : ImageBuild → ImageBuild → Exec World (Unit {0})
  pub get_config_map : Key → Exec World ConfigMap
  pub create_config_map : ConfigMap → Exec World (Unit {0})
  pub update_config_map : ConfigMap → Exec World (Unit {0})
  pub create_secret : Secret → Exec World (Unit {0})
  pub list_pods : String → StringMap → Exec World (List ListedPod)
  pub create_temp : Exec World String
  pub receive : String → Result String → Exec World (Unit {0})
  pub open_file : String → Exec World (Unit {0})
  pub remove_file : String → Exec World (Unit {0})
  pub new_executor : Config → Place → List String → Exec World (Unit {0})
  pub send_archive : Place → List String → String → String → Exec World (Unit {0})
  pub run : Place → List String → Exec World String
  pub stream_to_client : Place → List String → Exec World String
  pub list_task_run_pods : String → String → Exec World (List ListedPod)
  pub get_pod : Key → Exec World ListedPod
  pub open_log : Place → Exec World LogStream
  pub write : String → Exec World (Unit {0})
  pub is_gone : World → Bool
  pub now : World → ℕ
  pub sleep : ℕ → World → World
  pub format_time : ℕ → String
  pub openapi : String
  pub redirects_slash : String → List String → Bool

-- A response with a JSON object that names an error.
abbrev pub fails_with : {W : Type 0} → ℕ → String → Exec W Response
fails_with status text = pure (record { status = status; body = failure text })

abbrev pub answers : {W : Type 0} → ℕ → Body → Exec W Response
answers status body = pure (record { status = status; body = body })

module _ (C : ApiClient) where
  open C use {World, Config}

  -- The part of `resolveNamespace` after the environment.
  unfoldable pub namespace_of_file : Exec World String
  unfolding trim_space
  namespace_of_file =
      on_error C.read_namespace_file (λ e. pure "default")
        (λ data_text. let ns = trim_space data_text in pure (if ns == "" then "default" else ns))

  unfoldable pub resolve_namespace : Exec World String
  unfolding namespace_of_file trim_space
  resolve_namespace = gets (C.getenv "BUILD_API_NAMESPACE") >>= λ value.
      let ns = trim_space value in if ns == "" then namespace_of_file else pure ns

  -- `getRESTConfigFromRequest`; the copy of the configuration only gets a longer timeout.
  unfoldable pub get_rest_config : Exec World Config
  get_rest_config =
      on_error C.in_cluster_config
        (λ e. gets (C.getenv "KUBECONFIG") >>= λ kubeconfig.
          wrapping "failed to build kube config" (C.config_from_flags kubeconfig))
        pure

  unfoldable pub get_client : Exec World (Unit {0})
  unfolding get_rest_config
  get_client = get_rest_config >>= λ cfg.
      wrapping "failed to add automotive scheme" C.add_automotive_scheme
      >> wrapping "failed to add core scheme" C.add_core_scheme
      >> wrapping "failed to create k8s client" (C.new_client cfg)

  -- The token that both readers of the headers take.
  unfoldable pub token_of : Request → String
  unfolding trim_prefix
  token_of q =
      let token = trim_prefix q.authorization "Bearer " in
      if token == "" then q.forwarded_access_token else token

  unfoldable pub review : String → Exec World TokenReview
  unfolding get_rest_config
  review token = get_rest_config >>= λ cfg. C.new_clientset cfg >> C.review_token token

  unfoldable pub is_authenticated : Request → Exec World Bool
  unfolding token_of review trim_space
  is_authenticated q =
      if trim_space (token_of q) == ""
      then pure false
      else on_error (review (token_of q)) (λ e. pure false) (λ r. pure r.authenticated)

  unfoldable pub resolve_requester : Request → Exec World String
  unfolding token_of review trim_space
  resolve_requester q =
      if trim_space (token_of q) == ""
      then pure "unknown"
      else on_error (review (token_of q)) (λ e. pure "unknown")
          (λ r. pure (if r.authenticated && not (r.username == "") then r.username else "unknown"))
