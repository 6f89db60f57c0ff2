-- ===== src/ImageBuild/Evolution.antt =====
-- The handlers of a build that has not ended, and what they may make of the stored image build.
use automotive_dev_operator.Base.{
  String, ◌≡◌, refl, inl, inr, ◌==◌, Option, none, some, ◌*◌, Error, Exec, raise, on_error,
  wrapping, arith, preserves_branch, Preserves, Preserves-pure, Preserves-raise, Preserves-if,
  Preserves-on_error, Preserves-seq, Preserves-wrapping,
}
use automotive_dev_operator.Kube.{Key, key_of, done, requeue_now, second}
use automotive_dev_operator.ImageBuild.Types.{ImageBuild}
use automotive_dev_operator.ImageBuild.Client.{BuildClient, TaskRun, RouteStatus}
use automotive_dev_operator.ImageBuild.Storage.{sibling, with_phase, with_task_run, update_status}
use automotive_dev_operator.ImageBuild.Pods.{create_upload_pod, shutdown_upload_pod}
use automotive_dev_operator.ImageBuild.TaskRuns.{start_new_build}
use automotive_dev_operator.ImageBuild.Progress.{
  with_file_name, with_artifact_path, with_artifact_url, first_host, route_with_host, publish_url,
  expose_artifact, write_artifact_info,
}
use automotive_dev_operator.ImageBuild.Controller.{
  uploads_complete, move_to, handle_initial_state, handle_uploading_state, adopt_task_run,
}
use automotive_dev_operator.ImageBuild.Server.{IsServer, patched, artifact_merged}
use automotive_dev_operator.ImageBuild.Frame.{Holds, after_read, patch-Holds}
use automotive_dev_operator.ImageBuild.Kept.{alone, shutdown_upload_pod-Kept}
use automotive_dev_operator.ImageBuild.Writes.{create_upload_pod-Stays, start_new_build-Stays}
use automotive_dev_operator.ImageBuild.Lifecycle.{
  Edge, upload, start, uploaded, Evolves, Evolves-SameLife, with_phase-Evolves,
}

module _ (C : BuildClient) (stored : C.World → Key → Option ImageBuild) (L : IsServer C stored)
    (old : ImageBuild) where
  abbrev pub Safe : {A : Type 0} → Exec C.World A → Type 0
  Safe m = Preserves (Holds C stored (key_of old.meta) (Evolves old)) m

  abbrev pub safe_read :
      {A : Type 0} (h : Error → Exec C.World A) (m : ImageBuild → Exec C.World A)
      → ((e : Error) → Safe (h e))
      → ((b : ImageBuild) (w : C.World)
          → key_of b.meta ≡ key_of old.meta
          → stored w (key_of old.meta) ≡ some b
          → Evolves old b
          → Holds C stored (key_of old.meta) (Evolves old) (m b w).1)
      → Safe (on_error (C.builds.get (key_of old.meta)) h m)
  safe_read h m = after_read C stored L (key_of old.meta) (Evolves old) (key_of old.meta) h m refl

  -- A patch of what was read, and what follows it.
  pub patch_then :
      {A : Type 0} (h : Error → Exec C.World A) (n : Exec C.World A) (b m : ImageBuild)
      (w : C.World)
      → stored w (key_of old.meta) ≡ some b
      → Evolves old b
      → Evolves old (patched b m)
      → ((e : Error) → Safe (h e))
      → Safe n
      → Holds C stored
          (key_of old.meta)
          (Evolves old)
          (on_error (C.builds.patch_status b m) h (λ _. n) w).1
  patch_then h n b m w held e e' kh kn =
      preserves_branch (C.builds.patch_status b m w) h (λ _. n)
        (patch-Holds C stored L (key_of old.meta) (Evolves old) b m w held e e') kh (λ _. kn)

  pub update_status-Safe : (p text : String) → Edge old p → Safe (update_status C old p text)
  unfolding update_status with_phase
  update_status-Safe p text edge =
      safe_read raise _ (λ e. Preserves-raise e)
        λ b w key held e.
          patch-Holds C stored L (key_of old.meta) (Evolves old) b (with_phase p text (C.now w) b) w
            held e (with_phase-Evolves old b p text (C.now w) edge e)

  pub move_to-Safe : (p text : String) → Edge old p → Safe (move_to C old p text)
  move_to-Safe p text edge =
      Preserves-on_error (update_status C old p text) _ _ (update_status-Safe p text edge)
        (λ e. Preserves-pure _) (λ _. Preserves-pure requeue_now)

  pub handle_initial_state-Safe : old.status.phase ≡ "" → Safe (handle_initial_state C old)
  unfolding handle_initial_state
  handle_initial_state-Safe e =
      Preserves-if old.spec.input_files_server _ _
        (λ asks.
          Preserves-seq (wrapping "failed to create upload server" (create_upload_pod C old)) _
            (Preserves-wrapping _ (create_upload_pod C old) (
              create_upload_pod-Stays C stored L (key_of old.meta) (Evolves old)
                (Evolves-SameLife old) old refl))
            (move_to-Safe _ _ (upload e asks)))
        (λ none_asked. move_to-Safe _ _ (start e none_asked))

  pub handle_uploading_state-Safe :
      old.status.phase ≡ "Uploading" → Safe (handle_uploading_state C old)
  unfolding handle_uploading_state
  handle_uploading_state-Safe e =
      Preserves-if (uploads_complete old) _ _
        (λ all.
          Preserves-seq (wrapping "failed to shutdown upload server" (shutdown_upload_pod C old)) _
            (Preserves-wrapping _ (shutdown_upload_pod C old)
              (shutdown_upload_pod-Kept C stored L (key_of old.meta) (Evolves old) old))
            (move_to-Safe _ _ (uploaded e all)))
        (λ _. Preserves-pure _)

  pub start_new_build-Safe : Safe (start_new_build C old)
  start_new_build-Safe =
      start_new_build-Stays C stored L (key_of old.meta) (Evolves old) (Evolves-SameLife old) old
        refl

  pub adopt_task_run-Safe : (t : TaskRun) → Safe (adopt_task_run C old t)
  unfolding adopt_task_run
  adopt_task_run-Safe t =
      safe_read _ _ (λ e. Preserves-pure _)
        λ b w key held e.
          patch_then _ _ b (with_task_run t.name b) w held e
            (Evolves-SameLife old b _
              (record {
                meta = refl;
                spec = refl;
                phase = refl;
                start_time = refl;
                completion_time = refl;
              })
              e)
            (λ _. Preserves-pure _) (Preserves-pure _)

  publish_url-Safe :
      (b : ImageBuild) (r : RouteStatus)
      → key_of b.meta ≡ key_of old.meta
      → Safe (publish_url C b r)
  unfolding publish_url
  publish_url-Safe b r at_k =
      Preserves-if (first_host r == "") _ _ (λ _. Preserves-pure _)
        λ _.
          after_read C stored L (key_of old.meta) (Evolves old) (key_of b.meta) _ _ at_k
            (λ e. Preserves-pure _)
            λ c w key held e.
              patch_then _ _ c (with_artifact_url _ c) w held e
                (Evolves-SameLife old c _
                  (record {
                    meta = refl;
                    spec = refl;
                    phase = refl;
                    start_time = refl;
                    completion_time = refl;
                  })
                  e)
                (λ _. Preserves-pure _) (Preserves-pure done)

  route_with_host-Safe : (k : Key) → Safe (route_with_host C k)
  unfolding route_with_host
  route_with_host-Safe k =
      Preserves-on_error (C.get_route k) _ _
        (alone C stored L (key_of old.meta) (Evolves old) (L.get_route k))
        (λ e. Preserves-pure none) (λ r. Preserves-pure _)

  expose_artifact-Safe :
      (b : ImageBuild) → key_of b.meta ≡ key_of old.meta → Safe (expose_artifact C b)
  unfolding expose_artifact
  expose_artifact-Safe b at_k =
      Preserves-on_error
        (C.poll_route second (30 * second) (route_with_host C (sibling b "ado-build-api"))) _ _
        (L.poll_route _ second (30 * second) (route_with_host C (sibling b "ado-build-api"))
          (route_with_host-Safe _))
        (λ e. Preserves-pure _) (λ r. publish_url-Safe b r at_k)

  pub with_file_name-meta : (b : ImageBuild) → (with_file_name b).meta ≡ b.meta
  unfolding with_file_name
  with_file_name-meta b = ground arith

  pub write_artifact_info-Holds :
      (b : ImageBuild) (w : C.World)
      → key_of b.meta ≡ key_of old.meta
      → stored w (key_of old.meta) ≡ some b
      → Evolves old b
      → Holds C stored
          (key_of old.meta)
          (Evolves old)
          (write_artifact_info C (with_file_name b) w).1
  unfolding write_artifact_info
  write_artifact_info-Holds b w at_k held e =
      let base = with_file_name b in
      let at_base : key_of base.meta ≡ key_of old.meta = rw (with_file_name-meta b) at_k in
      let patches : Holds C stored (key_of old.meta) (Evolves old)
          (C.builds.patch_status base (with_artifact_path base) w).1 =
        elim (L.patch_merge w (key_of old.meta) b base (with_artifact_path base) held at_base
          (record {
            meta = refl;
            spec = refl;
            phase = refl;
            start_time = refl;
            completion_time = refl;
          })
          refl refl) [
            | inl h ↦ (b, h, e)
            | inr h ↦ (
              artifact_merged b base (with_artifact_path base),
              h,
              Evolves-SameLife old b _
                  (record {
                    meta = refl;
                    spec = refl;
                    phase = refl;
                    start_time = refl;
                    completion_time = refl;
                  })
                  e,
            )
          ] in
      preserves_branch (C.builds.patch_status base (with_artifact_path base) w) _ _ patches
        (λ _. Preserves-pure _)
        λ _.
          Preserves-if base.spec.expose_route _ _
            (λ _. expose_artifact-Safe (with_artifact_path base) at_base) (λ _. Preserves-pure done)
