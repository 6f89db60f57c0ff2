-- ===== src/ImageBuild/Controller.antt =====
-- `Reconcile` of internal/controller/imagebuild/controller.go and the handlers of the phases before
-- the completion. The API client is the parameter `C`; logging is left out.
use automotive_dev_operator.Base.{
  ◌*◌, String, Bool, Option, none, some, List, [], ◌∷◌, ◌==◌, get_or_empty, is_some, if◌then◌else◌,
  is_not_found, Exec, pure, raise, on_error, ◌>>=◌, ◌>>◌, wrapping,
}
use automotive_dev_operator.Kube.{Key, key_of, CtrlResult, done, requeue_now, after, second}
use automotive_dev_operator.ImageBuild.Types.{ImageBuild}
use automotive_dev_operator.ImageBuild.Client.{BuildClient, TaskRun}
use automotive_dev_operator.ImageBuild.Storage.{build_label, with_task_run, update_status}
use automotive_dev_operator.ImageBuild.Pods.{create_upload_pod, shutdown_upload_pod}
use automotive_dev_operator.ImageBuild.TaskRuns.{start_new_build}
use automotive_dev_operator.ImageBuild.Progress.{check_build_progress}
use automotive_dev_operator.ImageBuild.Expiry.{handle_completed_state}

abbrev pub uploads_complete_key : String
uploads_complete_key = "automotive.sdv.cloud.redhat.com/uploads-complete"

unfoldable pub uploads_complete : ImageBuild → Bool
uploads_complete b = get_or_empty b.meta.annotations uploads_complete_key == "true"

-- The first task run in the list that is not being deleted.
unfoldable pub first_live : List TaskRun → Option TaskRun
first_live [] = none
first_live (t ∷ ts) = if is_some t.deletion_timestamp then first_live ts else some t

module _ (C : BuildClient) where
  open C use {World}

  -- `if err := r.updateStatus(...); err != nil { retry in 5 seconds }`, or go on at once.
  abbrev pub move_to : ImageBuild → String → String → Exec World CtrlResult
  move_to b phase text =
      on_error (update_status C b phase text) (λ e. pure (after (5 * second)))
        (λ _. pure requeue_now)

  unfoldable pub handle_initial_state : ImageBuild → Exec World CtrlResult
  handle_initial_state b =
      if b.spec.input_files_server
      then (do
        wrapping "failed to create upload server" (create_upload_pod C b)
        move_to b "Uploading" "Waiting for file uploads")
      else move_to b "Building" "Build started"

  unfoldable pub handle_uploading_state : ImageBuild → Exec World CtrlResult
  handle_uploading_state b =
      if uploads_complete b
      then (do
        wrapping "failed to shutdown upload server" (shutdown_upload_pod C b)
        move_to b "Building" "Build started")
      else pure (after (10 * second))

  -- The name of a task run that is there already goes into the status.
  unfoldable pub adopt_task_run : ImageBuild → TaskRun → Exec World CtrlResult
  adopt_task_run b t =
      on_error (C.builds.get (key_of b.meta)) (λ e. pure (after (5 * second)))
        (λ latest.
          on_error (C.builds.patch_status latest (with_task_run t.name latest))
            (λ e. pure (after (5 * second))) (λ _. pure (after (10 * second))))

  unfoldable pub handle_building_state : ImageBuild → Exec World CtrlResult
  handle_building_state b =
      if b.status.task_run_name == ""
      then (do
        runs ←
            wrapping "failed to list existing task runs"
              (C.list_task_runs b.meta.namespace ((build_label, b.meta.name) ∷ []))
        elim (first_live runs) [ none ↦ start_new_build C b | some t ↦ adopt_task_run b t ])
      else check_build_progress C b

  -- The `switch` on the phase.
  unfoldable pub handle_phase : ImageBuild → Exec World CtrlResult
  handle_phase b =
      let phase = b.status.phase in
      if phase == ""
      then handle_initial_state b
      else if phase == "Uploading"
      then handle_uploading_state b
      else if phase == "Building"
      then handle_building_state b
      else if phase == "Completed"
      then handle_completed_state C b
      else pure done

  unfoldable pub reconcile : Key → Exec World CtrlResult
  reconcile key =
      on_error (C.builds.get key) (λ e. if is_not_found e then pure done else raise e) handle_phase
