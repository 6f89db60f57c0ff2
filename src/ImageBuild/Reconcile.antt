-- ===== src/ImageBuild/Reconcile.antt =====
-- How a stored image build evolves under `Reconcile`, whatever calls fail.
use mathlib.Core.Option.{some-injective}
use automotive_dev_operator.Base.{
  ℕ, ◌≡◌, refl, sym, ◌∙◌, Bool, true, false, not, ◌==◌, eq_iff, Option, none, some, [], ◌∷◌, ◌*◌,
  if◌then◌else◌, Error, message, is_not_found, Result, ok, err, Exec, pure, raise, gets, branch,
  ignoring, wrapping, ◌>>=◌, arith, Preserves-pure, Preserves-raise, Preserves-gets, Preserves-if,
  Preserves-on_error, Preserves-bind, Preserves-seq, Preserves-wrapping, Preserves-ignoring,
}
use automotive_dev_operator.Kube.{Key, key_of, CtrlResult, after, done, second}
use automotive_dev_operator.ImageBuild.Types.{ImageBuild}
use automotive_dev_operator.ImageBuild.Client.{BuildClient, TaskRun, ArtifactKind}
use automotive_dev_operator.ImageBuild.Storage.{build_label, update_status}
use automotive_dev_operator.ImageBuild.Pods.{create_artifact_pod}
use automotive_dev_operator.ImageBuild.TaskRuns.{start_new_build}
use automotive_dev_operator.ImageBuild.Progress.{
  completed, with_file_name, write_artifact_info, update_artifact_info, serve_artifact,
  complete_build, fail_build, judge_task_run, check_build_progress, is_task_run_completed,
  is_task_run_successful, artifact_result,
}
use automotive_dev_operator.ImageBuild.Expiry.{
  expired, delete_artifacts, mark_expired, expire, serve_until, handle_completed_state, is_before,
  remaining, expiry_bits,
}
use automotive_dev_operator.ImageBuild.Controller.{
  first_live, adopt_task_run, handle_building_state, handle_phase, reconcile,
}
use automotive_dev_operator.ImageBuild.Server.{IsServer}
use automotive_dev_operator.ImageBuild.Frame.{Holds}
use automotive_dev_operator.ImageBuild.Kept.{alone, create_artifact_serving_resources-Kept}
use automotive_dev_operator.ImageBuild.Writes.{create_artifact_pod-Stays}
use automotive_dev_operator.ImageBuild.Lifecycle.{
  fail, Evolves, same, Evolves-SameLife, completed-Evolves,
}
use automotive_dev_operator.ImageBuild.Evolution.{
  Safe, safe_read, patch_then, update_status-Safe, handle_initial_state-Safe,
  handle_uploading_state-Safe, start_new_build-Safe, adopt_task_run-Safe, write_artifact_info-Holds,
}

module _ (C : BuildClient) (stored : C.World → Key → Option ImageBuild) (L : IsServer C stored)
    (old : ImageBuild) where
  abbrev Fine : {A : Type 0} → Exec C.World A → Type 0
  Fine m = Safe C stored L old m

  either :
      (c : Bool) (m n : Exec C.World CtrlResult) (w : C.World)
      → Holds C stored (key_of old.meta) (Evolves old) (m w).1
      → Holds C stored (key_of old.meta) (Evolves old) (n w).1
      → Holds C stored (key_of old.meta) (Evolves old) ((if c then m else n) w).1
  either true m n w hm hn = hm
  either false m n w hm hn = hn

  with_file_name-fine :
      (b : ImageBuild) (w : C.World)
      → key_of b.meta ≡ key_of old.meta
      → stored w (key_of old.meta) ≡ some b
      → Evolves old b
      → Holds C stored
          (key_of old.meta)
          (Evolves old)
          ((if b.status.pvc_name == ""
              then raise {A = CtrlResult} (message "no PVC name found in ImageBuild status")
              else write_artifact_info C (with_file_name b))
            w).1
  with_file_name-fine b w at_k held e =
      either (b.status.pvc_name == "") _ _ w (b, held, e)
        (write_artifact_info-Holds C stored L old b w at_k held e)

  update_artifact_info-Fine : Fine (update_artifact_info C old)
  unfolding update_artifact_info
  update_artifact_info-Fine =
      safe_read C stored L old raise _ (λ e. Preserves-raise e) with_file_name-fine

  serve_artifact-Fine : Fine (serve_artifact C old)
  unfolding serve_artifact
  serve_artifact-Fine =
      Preserves-if old.spec.serve_artifact _ _
        (λ _.
          Preserves-seq (create_artifact_pod C old) _
            (create_artifact_pod-Stays C stored L (key_of old.meta) (Evolves old)
              (Evolves-SameLife old) old refl)
            (Preserves-if old.spec.expose_route _ _
              (λ _.
                create_artifact_serving_resources-Kept C stored L (key_of old.meta) (Evolves old)
                  old)
              (λ _. Preserves-pure tt)))
        (λ _. Preserves-pure tt)

  complete_build-Fine :
      (t : TaskRun) → old.status.phase ≡ "Building" → Fine (complete_build C old t)
  unfolding complete_build completed
  complete_build-Fine t building = Preserves-seq (serve_artifact C old) _ serve_artifact-Fine (
      safe_read C stored L old raise _ (λ e. Preserves-raise e)
        λ b w key held e.
          patch_then C stored L old _ _ b (completed (artifact_result t.results) (C.now w) b) w held
            e (completed-Evolves old b (artifact_result t.results) (C.now w) building e)
            (λ _. Preserves-pure _)
            (Preserves-if old.spec.serve_artifact _ _ (λ _. update_artifact_info-Fine)
              (λ _. Preserves-pure done)))

  judge_task_run-Fine :
      (t : TaskRun) → old.status.phase ≡ "Building" → Fine (judge_task_run C old t)
  unfolding judge_task_run fail_build
  judge_task_run-Fine t building =
      Preserves-if (not (is_task_run_completed t)) _ _ (λ _. Preserves-pure _)
        λ _.
          Preserves-if (is_task_run_successful t) _ _ (λ _. complete_build-Fine t building)
            λ _.
              Preserves-on_error (update_status C old "Failed" "Build failed") _ _
                (update_status-Safe C stored L old "Failed" "Build failed" (fail building))
                (λ e. Preserves-pure _) (λ _. Preserves-pure done)

  check_build_progress-Fine : old.status.phase ≡ "Building" → Fine (check_build_progress C old)
  unfolding check_build_progress
  check_build_progress-Fine building =
      Preserves-on_error (C.get_task_run _) _ _
        (alone C stored L (key_of old.meta) (Evolves old) (L.get_task_run _))
        (λ e.
          Preserves-if (is_not_found e) _ _ (λ _. start_new_build-Safe C stored L old)
            (λ _. Preserves-raise e))
        (λ t. judge_task_run-Fine t building)

  pick-Fine :
      (o : Option TaskRun)
      → Fine (elim o [ none ↦ start_new_build C old | some t ↦ adopt_task_run C old t ])
  pick-Fine none = start_new_build-Safe C stored L old
  pick-Fine (some t) = adopt_task_run-Safe C stored L old t

  handle_building_state-Fine : old.status.phase ≡ "Building" → Fine (handle_building_state C old)
  unfolding handle_building_state
  handle_building_state-Fine building =
      let runs = C.list_task_runs old.meta.namespace ((build_label, old.meta.name) ∷ []) in
      Preserves-if (old.status.task_run_name == "") _ _
        (λ _.
          Preserves-bind (wrapping "failed to list existing task runs" runs) _
            (Preserves-wrapping _ runs
              (alone C stored L (key_of old.meta) (Evolves old) (L.list_task_runs _ _)))
            (λ found. pick-Fine (first_live found)))
        (λ _. check_build_progress-Fine building)

  delete-Fine : (a : ArtifactKind) (k : Key) → Fine (ignoring (C.delete_object a k))
  delete-Fine a k =
      Preserves-ignoring (C.delete_object a k)
        (alone C stored L (key_of old.meta) (Evolves old) (L.delete_object a k))

  mark_expired-Fine : Fine (mark_expired C old)
  unfolding mark_expired
  mark_expired-Fine =
      safe_read C stored L old _ _ (λ e. Preserves-pure tt)
        λ b w key held e.
          patch_then C stored L old _ (pure tt) b (expired b) w held e
            (Evolves-SameLife old b _
              (record {
                meta = refl;
                spec = refl;
                phase = refl;
                start_time = refl;
                completion_time = refl;
              })
              e)
            (λ _. Preserves-pure tt) (Preserves-pure tt)

  delete_artifacts-Fine : Fine (delete_artifacts C old)
  unfolding delete_artifacts
  delete_artifacts-Fine = Preserves-seq (ignoring (C.delete_object _ _)) _ (delete-Fine _ _) (
      Preserves-seq (ignoring (C.delete_object _ _)) _ (delete-Fine _ _)
        (Preserves-seq (ignoring (C.delete_object _ _)) _ (delete-Fine _ _) (delete-Fine _ _)))

  expire-Fine : Fine (expire C old)
  unfolding expire
  expire-Fine =
      Preserves-seq (delete_artifacts C old) _ delete_artifacts-Fine
        (Preserves-seq (mark_expired C old) _ mark_expired-Fine (Preserves-pure done))

  serve_until-Fine : (t : ℕ) → Fine (serve_until C old t)
  unfolding serve_until
  serve_until-Fine t = Preserves-bind (gets C.now) _ (Preserves-gets _) λ now.
      Preserves-if (is_before now t (expiry_bits old))
        (gets C.now >>= λ later. pure (after (remaining later t (expiry_bits old)))) _
        (λ _.
          Preserves-bind (gets C.now) _ (Preserves-gets _)
            (λ later. Preserves-pure (after (remaining later t (expiry_bits old)))))
        (λ _. expire-Fine)

  serve-Fine :
      (o : Option ℕ)
      → Fine (elim o [
        | none ↦ pure (after (5 * second))
        | some completion ↦ serve_until C old completion
      ])
  serve-Fine none = Preserves-pure _
  serve-Fine (some t) = serve_until-Fine t

  handle_completed_state-Fine : Fine (handle_completed_state C old)
  unfolding handle_completed_state
  handle_completed_state-Fine =
      Preserves-if old.spec.serve_artifact _ _ (λ _. serve-Fine old.status.completion_time)
        (λ _. Preserves-pure done)

  pub handle_phase-Fine : Fine (handle_phase C old)
  unfolding handle_phase
  handle_phase-Fine =
      let phase = old.status.phase in
      Preserves-if (phase == "") _ _
        (λ e. handle_initial_state-Safe C stored L old ((eq_iff _ _).0 e))
        λ _.
          Preserves-if (phase == "Uploading") _ _
            (λ e. handle_uploading_state-Safe C stored L old ((eq_iff _ _).0 e))
            λ _.
              Preserves-if (phase == "Building") _ _
                (λ e. handle_building_state-Fine ((eq_iff _ _).0 e))
                λ _.
                  Preserves-if (phase == "Completed") _ _ (λ _. handle_completed_state-Fine)
                    (λ _. Preserves-pure done)

module _ (C : BuildClient) (stored : C.World → Key → Option ImageBuild)
    (L : IsServer C stored) where
  unread :
      (e : Error) (w : C.World)
      → ((if is_not_found e then pure done else raise {A = CtrlResult} e) w).1 ≡ w
  unread e w = ground arith

  reconcile_branch :
      (key : Key) (old : ImageBuild) (x : Result ImageBuild × C.World)
      → stored x.1 key ≡ some old
      → ((b : ImageBuild) → x.0 ≡ ok b → (old ≡ b) × (key_of b.meta ≡ key))
      → (new : ImageBuild) × (stored
            (branch x (λ e. if is_not_found e then pure done else raise e) (handle_phase C)).1
            key
          ≡ some new)
        × Evolves old new
  reconcile_branch key old (ok b, w) h read =
      let (e, n) = read b refl in
      rw (e, ← n) ((handle_phase-Fine C stored L b).at w (b, rw (e, ← n) at h, same b))
  reconcile_branch key old (err e, w) h read = (old, rw (unread e w) h, same old)

  pub reconciled-Evolves :
      (key : Key) (old : ImageBuild) (w : C.World)
      → stored w key ≡ some old
      → (new : ImageBuild) × (stored (reconcile C key w).1 key ≡ some new) × Evolves old new
  unfolding reconcile
  reconciled-Evolves key old w h =
      reconcile_branch key old (C.builds.get key w) (L.builds.stored-get w key key ∙ h) (λ i e. (
        some-injective old i (sym h ∙ (L.builds.get-stored w key i e).0),
        (L.builds.get-stored w key i e).1,
      ))
