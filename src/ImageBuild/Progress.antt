-- ===== src/ImageBuild/Progress.antt =====
-- `checkBuildProgress` and `updateArtifactInfo` of internal/controller/imagebuild/controller.go.
use automotive_dev_operator.Base.{
  ℕ, ◌*◌, String, ◌<>◌, StringMap, Bool, false, not, ◌&&◌, Option, none, some, [], ◌∷◌, ◌==◌,
  is_some, if◌then◌else◌, message, is_not_found, Exec, pure, raise, gets, on_error, ◌>>=◌, ◌>>◌,
}
use automotive_dev_operator.Kube.{Key, key_of, CtrlResult, done, after, second}
use automotive_dev_operator.ImageBuild.Types.{ImageBuild}
use automotive_dev_operator.ImageBuild.Client.{BuildClient, TaskRun, RouteStatus}
use automotive_dev_operator.ImageBuild.Storage.{sibling, update_status}
use automotive_dev_operator.ImageBuild.Pods.{create_artifact_pod, create_artifact_serving_resources}
use automotive_dev_operator.ImageBuild.TaskRuns.{start_new_build}

unfoldable pub is_task_run_completed : TaskRun → Bool
is_task_run_completed t = is_some t.completion_time

-- The first condition decides.
unfoldable pub is_task_run_successful : TaskRun → Bool
is_task_run_successful t = elim t.conditions [ [] ↦ false | s ∷ more ↦ s == "True" ]

-- The loop over the results: the first file name that is not empty, or the empty text.
unfoldable pub artifact_result : StringMap → String
artifact_result [] = ""
artifact_result ((name, value) ∷ results) =
    if (name == "artifact-filename") && not (value == "") then value else artifact_result results

unfoldable pub file_extension : String → String
file_extension format =
    if format == "image" then ".raw" else if format == "qcow2" then ".qcow2" else "." <> format

-- The name that the artifact gets where the task run gave none.
unfoldable pub default_file_name : ImageBuild → String
unfolding file_extension
default_file_name b =
    b.spec.distro <> ("-" <> (b.spec.target <> file_extension b.spec.export_format))

-- The assignments of the completion.
unfoldable pub completed : String → ℕ → ImageBuild → ImageBuild
completed file now fresh =
    let s = fresh.status in
    record fresh {
      status = record s {
        artifact_file_name = if file == "" then s.artifact_file_name else file;
        phase = "Completed";
        message = "Build completed successfully";
        completion_time = if is_some s.completion_time then s.completion_time else some now;
      };
    }

-- `updateArtifactInfo` changes its copy twice: before it takes the base of the patch, and after.
unfoldable pub with_file_name : ImageBuild → ImageBuild
unfolding default_file_name
with_file_name b =
    if b.status.artifact_file_name == ""
    then record b { status = record b.status { artifact_file_name = default_file_name b } }
    else b

abbrev pub with_artifact_path : ImageBuild → ImageBuild
with_artifact_path b = record b { status = record b.status { artifact_path = "/" } }

abbrev pub with_artifact_url : String → ImageBuild → ImageBuild
with_artifact_url url b = record b { status = record b.status { artifact_url = url } }

-- The first host, or the empty text.
unfoldable pub first_host : RouteStatus → String
first_host r = elim r.hosts [ [] ↦ "" | h ∷ more ↦ h ]

module _ (C : BuildClient) where
  open C use {World}

  abbrev in_five_seconds : Exec World CtrlResult
  in_five_seconds = pure (after (5 * second))

  -- The test of the poll: the route, once it has a host.
  unfoldable pub route_with_host : Key → Exec World (Option RouteStatus)
  route_with_host key =
      on_error (C.get_route key) (λ e. pure none)
        (λ r. pure (if first_host r == "" then none else some r))

  unfoldable pub publish_url : ImageBuild → RouteStatus → Exec World CtrlResult
  publish_url b route =
      if first_host route == ""
      then in_five_seconds
      else on_error (C.builds.get (key_of b.meta)) (λ e. in_five_seconds)
          λ fresh.
            let scheme = if route.has_tls then "https" else "http" in
            let url = scheme <> ("://" <> first_host route) in
            on_error (C.builds.patch_status fresh (with_artifact_url url fresh))
              (λ e. in_five_seconds) (λ _. pure done)

  unfoldable pub expose_artifact : ImageBuild → Exec World CtrlResult
  expose_artifact b =
      on_error (C.poll_route second (30 * second) (route_with_host (sibling b "ado-build-api")))
        (λ e. in_five_seconds) (publish_url b)

  -- The part of `updateArtifactInfo` after its copy got a file name.
  unfoldable pub write_artifact_info : ImageBuild → Exec World CtrlResult
  write_artifact_info base =
      on_error (C.builds.patch_status base (with_artifact_path base)) (λ e. in_five_seconds)
        (λ _.
          if base.spec.expose_route then expose_artifact (with_artifact_path base) else pure done)

  unfoldable pub update_artifact_info : ImageBuild → Exec World CtrlResult
  update_artifact_info b = C.builds.get (key_of b.meta) >>= λ latest.
      if latest.status.pvc_name == ""
      then raise (message "no PVC name found in ImageBuild status")
      else write_artifact_info (with_file_name latest)

  -- The part for a task run that succeeded.
  unfoldable pub serve_artifact : ImageBuild → Exec World (Unit {0})
  serve_artifact b =
      if b.spec.serve_artifact
      then (do
        create_artifact_pod C b
        if b.spec.expose_route then create_artifact_serving_resources C b else pure tt)
      else pure tt

  unfoldable pub complete_build : ImageBuild → TaskRun → Exec World CtrlResult
  complete_build b t = do
    serve_artifact b
    fresh ← C.builds.get (key_of b.meta)
    now ← gets C.now
    on_error (C.builds.patch_status fresh (completed (artifact_result t.results) now fresh))
        (λ e. in_five_seconds)
        (λ _. if b.spec.serve_artifact then update_artifact_info b else pure done)

  unfoldable pub fail_build : ImageBuild → Exec World CtrlResult
  fail_build b =
      on_error (update_status C b "Failed" "Build failed") (λ e. in_five_seconds) (λ _. pure done)

  unfoldable pub judge_task_run : ImageBuild → TaskRun → Exec World CtrlResult
  judge_task_run b t =
      if not (is_task_run_completed t)
      then pure (after (30 * second))
      else if is_task_run_successful t
      then complete_build b t
      else fail_build b

  unfoldable pub check_build_progress : ImageBuild → Exec World CtrlResult
  check_build_progress b =
      on_error (C.get_task_run (sibling b b.status.task_run_name))
        (λ e. if is_not_found e then start_new_build C b else raise e) (judge_task_run b)
