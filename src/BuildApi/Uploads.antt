-- ===== src/BuildApi/Uploads.antt =====
-- `uploadFiles` and `copyFileToPod` of internal/buildapi/server.go.
use automotive_dev_operator.Base.{
  String, ◌<>◌, StringMap, put, Bool, not, ◌||◌, Option, none, some, List, [], ◌∷◌, ◌==◌,
  if◌then◌else◌, error_text, Result, ok, err, Exec, on_error, ◌>>=◌, ◌>>◌,
}
use automotive_dev_operator.Text.Chars.{has_prefix}
use automotive_dev_operator.Text.Trim.{trim_space}
use automotive_dev_operator.Text.Paths.{clean, base, dir}
use automotive_dev_operator.ImageBuild.Types.{ImageBuild}
use automotive_dev_operator.BuildApi.Types.{Part, Request, Response, uploaded}
use automotive_dev_operator.BuildApi.Client.{
  ListedPod, Place, ApiClient, fails_with, answers, resolve_namespace, get_rest_config,
}
use automotive_dev_operator.BuildApi.Queries.{with_build}

-- The first pod that runs.
unfoldable pub first_running : List ListedPod → Option ListedPod
first_running [] = none
first_running (p ∷ ps) = if p.phase == "Running" then some p else first_running ps

abbrev pub first_container : ListedPod → String
first_container p = elim p.containers [ [] ↦ "" | c ∷ more ↦ c ]

abbrev pub upload_labels : String → StringMap
upload_labels name =
    ("automotive.sdv.cloud.redhat.com/imagebuild-name", name)
    ∷ ("app.kubernetes.io/name", "upload-pod")
    ∷ []

-- Whether a clean destination is turned down.
unfoldable pub is_outside : String → Bool
unfolding has_prefix
is_outside s = has_prefix s ".." || has_prefix s "/"

abbrev pub shared_directory : String
shared_directory = "/workspace/shared/"

unfoldable pub with_uploads_complete : ImageBuild → ImageBuild
with_uploads_complete b = record b {
  meta = record b.meta {
    annotations = put b.meta.annotations "automotive.sdv.cloud.redhat.com/uploads-complete" "true";
  };
}

-- A deferred call runs when the function returns, whichever way that is.
abbrev pub deferring : {W A B : Type 0} → Exec W B → Exec W A → Exec W A
deferring last m w = ((m w).0, (last (m w).1).1)

module _ (C : ApiClient) where
  open C use {World, Config}

  unfoldable pub copy_file_to_pod : Config → Place → String → String → Exec World (Unit {0})
  unfolding base dir
  copy_file_to_pod cfg place local_path pod_path =
      let directory = dir pod_path in
      let command =
        "/bin/sh" ∷ "-c" ∷ ("mkdir -p " <> (directory <> (" && tar -x -C " <> directory))) ∷ [] in
      C.open_file local_path
      >> C.new_clientset cfg
      >> C.new_executor cfg place command
      >> C.send_archive place command (base pod_path) local_path

  -- One file of the form, and then the steps that follow it. The temporary file goes at the end.
  unfoldable pub store_file :
      Config → Place → Result String → String → Exec World Response → Exec World Response
  unfolding copy_file_to_pod
  store_file cfg place content clean_dest rest =
      on_error C.create_temp (λ e. fails_with 500 (error_text e))
        λ tmp. deferring (C.remove_file tmp) (
          on_error (C.receive tmp content) (λ e. fails_with 500 (error_text e))
            λ _.
              on_error (copy_file_to_pod cfg place tmp (shared_directory <> clean_dest))
                (λ e. fails_with 500 ("stream to pod failed: " <> error_text e)) (λ _. rest))

  unfoldable pub store_part : Config → Place → Part → Exec World Response → Exec World Response
  unfolding store_file clean trim_space is_outside
  store_part cfg place p rest =
      let dest = trim_space p.file_name in
      if dest == ""
      then fails_with 400 "missing destination filename"
      else if is_outside (clean dest)
      then fails_with 400 ("invalid destination path: " <> dest)
      else store_file cfg place p.content (clean dest) rest

  -- The loop over the parts, and then the steps that follow it.
  unfoldable pub store_parts :
      Config → Place → List (Result Part) → Exec World Response → Exec World Response
  unfolding store_part
  store_parts cfg place [] last = last
  store_parts cfg place (err e ∷ parts) last = fails_with 400 ("read part: " <> error_text e)
  store_parts cfg place (ok p ∷ parts) last =
      let rest = store_parts cfg place parts last in
      if not (p.form_name == "file") then rest else store_part cfg place p rest

  unfoldable pub mark_complete : ImageBuild → Exec World Response
  unfolding with_uploads_complete
  mark_complete b =
      on_error (C.patch_build b (with_uploads_complete b))
        (λ e. fails_with 500 ("mark complete failed: " <> error_text e)) (λ _. answers 200 uploaded)

  -- The steps once there is a pod.
  unfoldable pub upload_form :
      String → ImageBuild → ListedPod → Result (List (Result Part)) → Exec World Response
  unfolding store_parts mark_complete get_rest_config
  upload_form ns b p (err e) = fails_with 400 ("invalid multipart: " <> error_text e)
  upload_form ns b p (ok parts) =
      on_error (get_rest_config C) (λ e. fails_with 500 ("rest config: " <> error_text e))
        λ cfg.
          store_parts cfg (record { namespace = ns; pod = p.name; container = first_container p })
            parts (mark_complete b)

  unfoldable pub upload_to_first :
      String → Request → ImageBuild → Option ListedPod → Exec World Response
  unfolding upload_form
  upload_to_first ns q b none = fails_with 503 "upload pod not ready"
  upload_to_first ns q b (some p) = upload_form ns b p q.form

  unfoldable pub upload_files : String → Request → Exec World Response
  unfolding with_build first_running upload_to_first resolve_namespace
  upload_files name q = resolve_namespace C >>= λ ns. with_build C ns name λ b.
      on_error (C.list_pods ns (upload_labels name))
        (λ e. fails_with 500 ("error listing upload pods: " <> error_text e))
        (λ pods. upload_to_first ns q b (first_running pods))
