-- ===== src/BuildApi/Answering.antt =====
-- Every handler of artifacts in internal/buildapi/server.go answers.
use automotive_dev_operator.Base.{
  ℕ, String, ◌<>◌, refl, not, ◌==◌, List, [], ◌∷◌, arith, Result, ok, err, is_not_found, Exec,
  branch, raise, pure, ◌>>=◌, Returns, Returns-constant, Returns-if, Returns-on_error,
}
use automotive_dev_operator.Text.Trim.{trim_space}
use automotive_dev_operator.Text.Paths.{base}
use automotive_dev_operator.ImageBuild.Types.{ImageBuild}
use automotive_dev_operator.BuildApi.Types.{FileHeaders, Response, Body, items}
use automotive_dev_operator.BuildApi.Client.{
  ListedPod, Place, ApiClient, fails_with, answers, resolve_namespace, namespace_of_file,
  get_client, get_rest_config,
}
use automotive_dev_operator.BuildApi.Queries.{with_build}
use automotive_dev_operator.BuildApi.Files.{
  is_bad_name, is_allowed, is_missing, size_command, default_headers, named_headers,
}
use automotive_dev_operator.BuildApi.Artifacts.{
  with_clients, with_completed_build, with_output, send_file, send_part, send_whole,
  send_shared_file, list_artifacts, stream_artifact_part, stream_default_artifact,
  stream_artifact_by_filename, fileserver,
}
use automotive_dev_operator.BuildApi.Waiting.{IsAnswer, HasClock, with_artifact_pod-IsAnswer}

module _ {W : Type 0} where
  answers-IsAnswer : (n : ℕ) (b : Body) → Returns {W = W} IsAnswer (answers n b)
  answers-IsAnswer n b = Returns-constant _ (_, refl)

  fails-IsAnswer : (n : ℕ) (s : String) → Returns {W = W} IsAnswer (fails_with n s)
  fails-IsAnswer n s = Returns-constant _ (_, refl)

  -- What follows an action that always returns.
  bind_step :
      {A : Type 0} (x : Result A × W) (k : A → Exec W Response)
      → IsAnswer x.0
      → ((a : A) → Returns IsAnswer (k a))
      → IsAnswer (branch x raise k).0
  bind_step (ok a, w) k h t = (t a).at w
  bind_step (err e, w) k (a, h) t = ground (arith)

  Returns-bind :
      {A : Type 0} (m : Exec W A) (k : A → Exec W Response)
      → Returns IsAnswer m
      → ((a : A) → Returns IsAnswer (k a))
      → Returns IsAnswer (m >>= k)
  Returns-bind m k h t = record { at = λ w. bind_step (m w) k (h.at w) t }

module _ (C : ApiClient) where
  open C use {World, Config}

  namespace_of_file-IsAnswer : Returns IsAnswer (namespace_of_file C)
  unfolding namespace_of_file
  namespace_of_file-IsAnswer =
      Returns-on_error C.read_namespace_file _ _ (λ e. Returns-constant _ (_, refl))
        (λ d. Returns-constant _ (_, refl))

  resolve_namespace-IsAnswer : Returns IsAnswer (resolve_namespace C)
  unfolding resolve_namespace
  resolve_namespace-IsAnswer = record {
    at = λ w.
        let value = trim_space (C.getenv "BUILD_API_NAMESPACE" w) in
        (Returns-if (value == "") (namespace_of_file C) (pure value)
            (λ _. namespace_of_file-IsAnswer) (λ _. Returns-constant (ok value) (value, refl))).at
          w;
  }

  with_build-IsAnswer :
      (ns name : String) (k : ImageBuild → Exec World Response)
      → ((b : ImageBuild) → Returns IsAnswer (k b))
      → Returns IsAnswer (with_build C ns name k)
  unfolding with_build
  with_build-IsAnswer ns name k h =
      Returns-on_error (get_client C) _ _ (λ e. fails-IsAnswer 500 _)
        λ _.
          Returns-on_error (C.get_build (record { namespace = ns; name = name })) _ k
            (λ e.
              Returns-if (is_not_found e) _ _ (λ _. fails-IsAnswer 404 _)
                (λ _. fails-IsAnswer 500 _))
            h

  with_completed_build-IsAnswer :
      (ns name : String) (k : ImageBuild → Exec World Response)
      → ((b : ImageBuild) → Returns IsAnswer (k b))
      → Returns IsAnswer (with_completed_build C ns name k)
  unfolding with_completed_build
  with_completed_build-IsAnswer ns name k h = with_build-IsAnswer ns name _ λ b.
      Returns-if (not (b.status.phase == "Completed")) _ (k b) (λ _. fails-IsAnswer 409 _)
        (λ _. h b)

  with_clients-IsAnswer :
      (k : Config → Exec World Response)
      → ((cfg : Config) → Returns IsAnswer (k cfg))
      → Returns IsAnswer (with_clients C k)
  unfolding with_clients
  with_clients-IsAnswer k h =
      Returns-on_error (get_rest_config C) _ _ (λ e. fails-IsAnswer 500 _)
        λ cfg. Returns-on_error (C.new_clientset cfg) _ _ (λ e. fails-IsAnswer 500 _) (λ _. h cfg)

  with_output-IsAnswer :
      (cfg : Config) (place : Place) (word : String) (command : List String)
      (k : String → Exec World Response)
      → ((out : String) → Returns IsAnswer (k out))
      → Returns IsAnswer (with_output C cfg place word command k)
  unfolding with_output
  with_output-IsAnswer cfg place word command k h =
      Returns-on_error (C.new_executor cfg place command) _ _ (λ e. fails-IsAnswer 500 _)
        λ _. Returns-on_error (C.run place command) _ k (λ e. fails-IsAnswer 500 _) h

  send_file-IsAnswer :
      (place : Place) (path : String) (headers : FileHeaders)
      → Returns IsAnswer (send_file C place path headers)
  unfolding send_file
  send_file-IsAnswer place path headers =
      Returns-on_error (C.stream_to_client place ("cat" ∷ path ∷ [])) _ _
        (λ e. answers-IsAnswer 200 _) (λ sent. answers-IsAnswer 200 _)

  send_whole-IsAnswer :
      (cfg : Config) (place : Place) (path : String) (headers : FileHeaders)
      → Returns IsAnswer (send_whole C cfg place path headers)
  unfolding send_whole
  send_whole-IsAnswer cfg place path headers =
      Returns-on_error (C.new_executor cfg place ("cat" ∷ path ∷ [])) _ _
        (λ e. answers-IsAnswer 200 _) (λ _. send_file-IsAnswer place path headers)

  send_part-IsAnswer :
      (cfg : Config) (place : Place) (path name size : String)
      → Returns IsAnswer (send_part C cfg place path name size)
  unfolding send_part
  send_part-IsAnswer cfg place path name size =
      Returns-on_error (C.new_executor cfg place ("cat" ∷ path ∷ [])) _ _
        (λ e. fails-IsAnswer 500 _) (λ _. send_file-IsAnswer place path _)

  send_shared_file-IsAnswer :
      (cfg : Config) (ns : String) (p : ListedPod) (headers : FileHeaders)
      → Returns IsAnswer (send_shared_file C cfg ns p headers)
  unfolding send_shared_file
  send_shared_file-IsAnswer cfg ns p headers =
      with_output-IsAnswer cfg (fileserver C ns p) "size"
        (size_command "'" ("/workspace/shared/" <> headers.file_name)) _
        λ out.
          Returns-if (is_missing (trim_space out)) (fails_with 404 "file not found") _
            (λ _. fails-IsAnswer 404 _) (λ _. send_whole-IsAnswer cfg _ _ _)

  module _ (K : HasClock C) where
    list_artifacts-IsAnswer : (name : String) → Returns IsAnswer (list_artifacts C name)
    unfolding list_artifacts
    list_artifacts-IsAnswer name =
        Returns-bind (resolve_namespace C) _ resolve_namespace-IsAnswer λ ns.
          with_completed_build-IsAnswer ns name _ λ b. with_artifact_pod-IsAnswer C K ns name _ λ p.
            with_clients-IsAnswer _ λ cfg.
              with_output-IsAnswer cfg (fileserver C ns p) "list" _ _ λ out.
                Returns-if (is_missing (trim_space out)) (answers 200 (items [])) _
                  (λ _. answers-IsAnswer 200 _) (λ _. answers-IsAnswer 200 _)

    stream_artifact_part-IsAnswer :
        (name part : String) → Returns IsAnswer (stream_artifact_part C name part)
    unfolding stream_artifact_part
    stream_artifact_part-IsAnswer name part =
        Returns-bind (resolve_namespace C) _ resolve_namespace-IsAnswer λ ns.
          Returns-if (is_bad_name part) (fails_with 400 "invalid file name") _
            (λ _. fails-IsAnswer 400 _)
            λ _. with_completed_build-IsAnswer ns name _ λ b.
              with_artifact_pod-IsAnswer C K ns name _ λ p. with_clients-IsAnswer _ λ cfg.
                with_output-IsAnswer cfg (fileserver C ns p) "size" _ _ λ out.
                  Returns-if (is_missing (trim_space out))
                    (fails_with 404 "artifact item not found") _ (λ _. fails-IsAnswer 404 _)
                    (λ _. send_part-IsAnswer cfg _ _ _ _)

    stream_default_artifact-IsAnswer :
        (name : String) → Returns IsAnswer (stream_default_artifact C name)
    unfolding stream_default_artifact
    stream_default_artifact-IsAnswer name =
        Returns-bind (resolve_namespace C) _ resolve_namespace-IsAnswer λ ns.
          with_completed_build-IsAnswer ns name _ λ b. with_clients-IsAnswer _ λ cfg.
            with_artifact_pod-IsAnswer C K ns name _
              λ p. send_shared_file-IsAnswer cfg ns p (default_headers b)

    stream_artifact_by_filename-IsAnswer :
        (name filename : String) → Returns IsAnswer (stream_artifact_by_filename C name filename)
    unfolding stream_artifact_by_filename
    stream_artifact_by_filename-IsAnswer name filename =
        Returns-bind (resolve_namespace C) _ resolve_namespace-IsAnswer λ ns.
          Returns-if (is_bad_name filename) (fails_with 400 "invalid file name") _
            (λ _. fails-IsAnswer 400 _)
            λ _. with_completed_build-IsAnswer ns name _ λ b.
              Returns-if (not (is_allowed (trim_space b.status.artifact_file_name) (base filename)))
                (fails_with 403 "file not allowed") _ (λ _. fails-IsAnswer 403 _)
                λ _. with_clients-IsAnswer _ λ cfg.
                  with_artifact_pod-IsAnswer C K ns name _
                    λ p. send_shared_file-IsAnswer cfg ns p (named_headers (base filename))

  -- Each of the four handlers answers: the 62 rounds of the wait are enough, where sleeping takes its
  -- time and the clock does not go back.
  pub artifacts-IsAnswer :
      HasClock C
      → (name file : String) (w : World)
      → IsAnswer (list_artifacts C name w).0
        × IsAnswer (stream_artifact_part C name file w).0
        × IsAnswer (stream_default_artifact C name w).0
        × IsAnswer (stream_artifact_by_filename C name file w).0
  artifacts-IsAnswer K name file w = (
    (list_artifacts-IsAnswer K name).at w,
    (stream_artifact_part-IsAnswer K name file).at w,
    (stream_default_artifact-IsAnswer K name).at w,
    (stream_artifact_by_filename-IsAnswer K name file).at w,
  )
