-- ===== src/BuildApi/Artifacts.antt =====
-- `listArtifacts`, `streamArtifactPart`, `streamDefaultArtifact` and `streamArtifactByFilename` of
-- internal/buildapi/server.go.
use automotive_dev_operator.Base.{
  ℕ, zero, suc, ◌+◌, ◌*◌, String, ◌<>◌, not, Option, none, some, List, [], ◌∷◌, ◌==◌, ltb,
  if◌then◌else◌, error_text, message, Exec, raise, gets, on_error, ◌>>=◌,
}
use automotive_dev_operator.Kube.{second, minute}
use automotive_dev_operator.Text.Trim.{trim_space}
use automotive_dev_operator.Text.Split.{split}
use automotive_dev_operator.Text.Paths.{base}
use automotive_dev_operator.ImageBuild.Types.{ImageBuild}
use automotive_dev_operator.BuildApi.Types.{FileHeaders, Response, items, file, cut_off}
use automotive_dev_operator.BuildApi.Client.{
  ListedPod, Place, ApiClient, fails_with, answers, resolve_namespace, get_rest_config,
}
use automotive_dev_operator.BuildApi.Queries.{with_build}
use automotive_dev_operator.BuildApi.Files.{
  artifact_file_name, artifact_labels, default_headers, first_ready, is_allowed, is_bad_name,
  is_missing, list_command, listed_items, named_headers, size_command, wait_rounds,
}

module _ (C : ApiClient) where
  open C use {World, Config}

  -- The end of a round of the wait: the steps that follow the wait, or a pause and the next round.
  unfoldable pub pod_or_wait :
      ℕ
      → (ListedPod → Exec World Response)
      → Exec World Response
      → Option ListedPod
      → Exec World Response
  pod_or_wait deadline k next (some p) = k p
  pod_or_wait deadline k next none = gets C.now >>= λ t.
      if ltb deadline t then fails_with 503 "artifact pod not ready" else λ w.
      next (C.sleep (2 * second) w)

  -- The loop that waits for the pod. It fails where the rounds run out.
  unfoldable pub wait_for_pod :
      ℕ → String → String → ℕ → (ListedPod → Exec World Response) → Exec World Response
  unfolding first_ready pod_or_wait
  wait_for_pod zero ns name deadline k = raise (message "out of rounds")
  wait_for_pod (suc n) ns name deadline k =
      let next = wait_for_pod n ns name deadline k in
      on_error (C.list_pods ns (artifact_labels name))
        (λ e. fails_with 500 ("error listing artifact pods: " <> error_text e))
        (λ pods. pod_or_wait deadline k next (first_ready pods))

  unfoldable pub with_artifact_pod :
      String → String → (ListedPod → Exec World Response) → Exec World Response
  unfolding wait_for_pod
  with_artifact_pod ns name k =
      gets C.now >>= λ t. wait_for_pod wait_rounds ns name (t + 2 * minute) k

  unfoldable pub with_clients : (Config → Exec World Response) → Exec World Response
  unfolding get_rest_config
  with_clients k =
      on_error (get_rest_config C) (λ e. fails_with 500 ("rest config: " <> error_text e))
        λ cfg.
          on_error (C.new_clientset cfg) (λ e. fails_with 500 ("clientset: " <> error_text e))
            (λ _. k cfg)

  unfoldable pub with_completed_build :
      String → String → (ImageBuild → Exec World Response) → Exec World Response
  unfolding with_build
  with_completed_build ns name k = with_build C ns name λ b.
      if not (b.status.phase == "Completed")
      then fails_with 409 "artifact not available until build completes"
      else k b

  -- The output of a command. The text names the command in the errors.
  unfoldable pub with_output :
      Config → Place → String → List String → (String → Exec World Response) → Exec World Response
  with_output cfg place word command k =
      on_error (C.new_executor cfg place command)
        (λ e. fails_with 500 ("executor (" <> (word <> ("): " <> error_text e))))
        λ _.
          on_error (C.run place command)
            (λ e. fails_with 500 (word <> (" stream: " <> error_text e))) k

  abbrev pub fileserver : String → ListedPod → Place
  fileserver ns p = record { namespace = ns; pod = p.name; container = "fileserver" }

  -- The file itself, once its size is known. An error while it is sent is ignored.
  unfoldable pub send_file : Place → String → FileHeaders → Exec World Response
  send_file place path headers =
      on_error (C.stream_to_client place ("cat" ∷ path ∷ [])) (λ e. answers 200 (file headers ""))
        (λ sent. answers 200 (file headers sent))

  unfoldable pub list_artifacts : String → Exec World Response
  unfolding with_completed_build with_artifact_pod with_clients with_output listed_items
      list_command artifact_file_name resolve_namespace split trim_space
  list_artifacts name = resolve_namespace C >>= λ ns. with_completed_build ns name λ b.
      with_artifact_pod ns name λ p. with_clients λ cfg.
        with_output cfg (fileserver ns p) "list"
          (list_command ("/workspace/shared/" <> (artifact_file_name b <> "-parts")))
          λ out.
            let listing = trim_space out in
            if is_missing listing
            then answers 200 (items [])
            else answers 200 (items (listed_items (split 10 listing)))

  -- The executor of the stream is made before the headers are set.
  unfoldable pub send_part : Config → Place → String → String → String → Exec World Response
  unfolding send_file
  send_part cfg place path name size =
      on_error (C.new_executor cfg place ("cat" ∷ path ∷ []))
        (λ e. fails_with 500 ("executor (stream): " <> error_text e))
        (λ _. send_file place path (record {
          file_name = name;
          size = size;
          content_type = "application/gzip";
          artifact_type = "file";
          compression = "gzip";
        }))

  unfoldable pub stream_artifact_part : String → String → Exec World Response
  unfolding with_completed_build with_artifact_pod with_clients with_output size_command is_bad_name
      artifact_file_name send_part resolve_namespace trim_space
  stream_artifact_part name part = resolve_namespace C >>= λ ns.
      if is_bad_name part
      then fails_with 400 "invalid file name"
      else with_completed_build ns name λ b. with_artifact_pod ns name λ p. with_clients λ cfg.
        let path = "/workspace/shared/" <> (artifact_file_name b <> ("-parts/" <> part)) in
        with_output cfg (fileserver ns p) "size" (size_command "\"" path) λ out.
          let size = trim_space out in
          if is_missing size
          then fails_with 404 "artifact item not found"
          else send_part cfg (fileserver ns p) path part size

  -- The headers are sent before the executor of the stream is made.
  unfoldable pub send_whole : Config → Place → String → FileHeaders → Exec World Response
  unfolding send_file
  send_whole cfg place path headers =
      on_error (C.new_executor cfg place ("cat" ∷ path ∷ []))
        (λ e. answers 200 (cut_off headers ("executor (stream): " <> error_text e)))
        (λ _. send_file place path headers)

  -- The steps that the last two handlers share.
  unfoldable pub send_shared_file : Config → String → ListedPod → FileHeaders → Exec World Response
  unfolding with_output size_command send_whole trim_space
  send_shared_file cfg ns p headers =
      let path = "/workspace/shared/" <> headers.file_name in
      with_output cfg (fileserver ns p) "size" (size_command "'" path) λ out.
        let size = trim_space out in
        if is_missing size
        then fails_with 404 "file not found"
        else send_whole cfg (fileserver ns p) path (record headers { size = size })

  unfoldable pub stream_default_artifact : String → Exec World Response
  unfolding with_completed_build with_artifact_pod with_clients send_shared_file default_headers
      resolve_namespace
  stream_default_artifact name = resolve_namespace C >>= λ ns. with_completed_build ns name λ b.
      with_clients
        λ cfg. with_artifact_pod ns name (λ p. send_shared_file cfg ns p (default_headers b))

  unfoldable pub stream_artifact_by_filename : String → String → Exec World Response
  unfolding with_completed_build with_artifact_pod with_clients send_shared_file is_bad_name
      is_allowed named_headers resolve_namespace base trim_space
  stream_artifact_by_filename name filename = resolve_namespace C >>= λ ns.
      if is_bad_name filename
      then fails_with 400 "invalid file name"
      else with_completed_build ns name λ b.
        if not (is_allowed (trim_space b.status.artifact_file_name) (base filename))
        then fails_with 403 "file not allowed"
        else with_clients λ cfg.
          with_artifact_pod ns name λ p. send_shared_file cfg ns p (named_headers (base filename))
