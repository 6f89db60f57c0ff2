-- ===== src/ImageBuild/Writes.antt =====
-- The operations that write names into a stored image build keep what does not speak of these.
use automotive_dev_operator.Base.{
  String, ◌*◌, Option, ◌<>◌, ◌≡◌, refl, Bool, true, false, ◌==◌, if◌then◌else◌, Result, ok, err,
  Exec, pure, raise, branch, wrapping, ◌>>=◌, ◌>>◌, Preserves, Preserves-pure, Preserves-if,
  Preserves-bind, Preserves-seq, Preserves-wrapping,
}
use automotive_dev_operator.Kube.{Key, key_of, CtrlResult, after, second}
use automotive_dev_operator.OperatorConfig.Types.{BuildConfig}
use automotive_dev_operator.ImageBuild.Types.{ImageBuild}
use automotive_dev_operator.ImageBuild.Client.{BuildClient}
use automotive_dev_operator.ImageBuild.Server.{IsServer}
use automotive_dev_operator.ImageBuild.Frame.{Holds, IsBlind, rewrite_status-Preserves}
use automotive_dev_operator.ImageBuild.Kept.{
  alone, get_or_create_workspace_claim-Kept, pod_runs-Kept, start_pod-Kept,
  create_nginx_config_map-Kept, read_build_config-Kept,
}
use automotive_dev_operator.ImageBuild.Storage.{
  sibling, with_claim, with_task_run, rewrite_status, get_or_create_workspace_claim, record_claim,
  adopt_claim, ensure_named_claim,
}
use automotive_dev_operator.ImageBuild.Pods.{
  pod_runs, upload_pod, artifact_pod, start_pod, create_nginx_config_map, create_upload_pod,
  create_artifact_pod,
}
use automotive_dev_operator.ImageBuild.TaskRuns.{
  build_task_run, read_build_config, create_build_task_run, start_new_build,
}

module _ {W A B : Type 0} where
  seq_bind :
      (x : Result (Unit {0}) × W) (a : A) (m : A → Exec W B)
      → branch (branch x raise (λ _. pure a)) raise m ≡ branch x raise (λ _. m a)
  seq_bind (ok t, w) a m = refl
  seq_bind (err e, w) a m = refl

module _ {W A B D : Type 0} where
  bind_bind :
      (x : Result A × W) (f : A → Exec W B) (m : B → Exec W D)
      → branch (branch x raise f) raise m ≡ branch x raise (λ a. f a >>= m)
  bind_bind (ok a, w) f m = refl
  bind_bind (err e, w) f m = refl

module _ {W A B : Type 0} (P : W → Type 0) where
  Preserves-if_bind :
      (b : Bool) (m n : Exec W A) (f : A → Exec W B)
      → Preserves P (m >>= f)
      → Preserves P (n >>= f)
      → Preserves P ((if b then m else n) >>= f)
  Preserves-if_bind true m n f km kn = km
  Preserves-if_bind false m n f km kn = kn

module _ (C : BuildClient) (stored : C.World → Key → Option ImageBuild) (L : IsServer C stored)
    (k : Key) (Q : ImageBuild → Type 0) (blind : IsBlind Q) (b : ImageBuild)
    (at_k : key_of b.meta ≡ k) where
  abbrev Stays : {A : Type 0} → Exec C.World A → Type 0
  Stays m = Preserves (Holds C stored k Q) m

  record_bind :
      {A : Type 0} (name : String) (m : ImageBuild → Exec C.World A)
      → Stays (m (with_claim name b))
      → Stays (record_claim C b name >>= m)
  unfolding record_claim
  record_bind name m km = record {
    at = λ w h.
        rw
          (seq_bind
            (rewrite_status C b "failed to update ImageBuild status with PVC name" (with_claim name)
              w)
            (with_claim name b) m)
          ((Preserves-seq (rewrite_status C b _ (with_claim name)) (m (with_claim name b))
              (rewrite_status-Preserves C stored L k Q b _ (with_claim name) at_k λ c q.
                blind c _
                  (record {
                    meta = refl;
                    spec = refl;
                    phase = refl;
                    start_time = refl;
                    completion_time = refl;
                  })
                  q)
              km).at
            w h);
  }

  adopt_bind :
      {A : Type 0} (name : String) (m : ImageBuild → Exec C.World A)
      → Stays (m b)
      → Stays (m (with_claim name b))
      → Stays (adopt_claim C b name >>= m)
  unfolding adopt_claim
  adopt_bind name m kb kc =
      Preserves-if_bind _ (b.status.pvc_name == name) _ _ m kb (record_bind name m kc)

  ensure_bind :
      {A : Type 0} (m : ImageBuild → Exec C.World A)
      → Stays (m b)
      → ((name : String) → Stays (m (with_claim name b)))
      → Stays (ensure_named_claim C b >>= m)
  unfolding ensure_named_claim
  ensure_bind m kb kc =
      Preserves-if_bind _ (b.status.pvc_name == "") _ _ m
        (record {
          at = λ w h. rw (bind_bind (get_or_create_workspace_claim C b w) (record_claim C b) m) (
              (Preserves-bind (get_or_create_workspace_claim C b)
                  (λ name. record_claim C b name >>= m)
                  (get_or_create_workspace_claim-Kept C stored L k Q b)
                  (λ name. record_bind name m (kc name))).at
                w h);
        })
        kb

  pub create_upload_pod-Stays : Stays (create_upload_pod C b)
  unfolding create_upload_pod
  create_upload_pod-Stays =
      Preserves-bind (pod_runs C (sibling b (b.meta.name <> "-upload-pod"))) _
        (pod_runs-Kept C stored L k Q _)
        λ runs.
          Preserves-if runs _ _ (λ _. Preserves-pure tt)
            λ _.
              Preserves-bind (get_or_create_workspace_claim C b) _
                (get_or_create_workspace_claim-Kept C stored L k Q b)
                λ name.
                  adopt_bind name (λ b'. start_pod C "upload" (upload_pod b'))
                    (start_pod-Kept C stored L k Q "upload" (upload_pod b))
                    (start_pod-Kept C stored L k Q "upload" (upload_pod (with_claim name b)))

  serve_from-Stays :
      (b' : ImageBuild)
      → Stays (
          wrapping "failed to create nginx config map" (create_nginx_config_map C b') >>= λ nginx.
          start_pod C "artifact" (artifact_pod b' nginx))
  serve_from-Stays b' =
      Preserves-bind (wrapping "failed to create nginx config map" (create_nginx_config_map C b')) _
        (Preserves-wrapping _ (create_nginx_config_map C b')
          (create_nginx_config_map-Kept C stored L k Q b'))
        (λ nginx. start_pod-Kept C stored L k Q "artifact" (artifact_pod b' nginx))

  pub create_artifact_pod-Stays : Stays (create_artifact_pod C b)
  unfolding create_artifact_pod
  create_artifact_pod-Stays =
      Preserves-bind (pod_runs C (sibling b (b.meta.name <> "-artifact-pod"))) _
        (pod_runs-Kept C stored L k Q _)
        λ runs.
          Preserves-if runs _ _ (λ _. Preserves-pure tt)
            λ _.
              ensure_bind
                (λ b'.
                  wrapping "failed to create nginx config map" (create_nginx_config_map C b')
                  >>= λ nginx. start_pod C "artifact" (artifact_pod b' nginx))
                (serve_from-Stays b) (λ name. serve_from-Stays (with_claim name b))

module _ (C : BuildClient) (stored : C.World → Key → Option ImageBuild) (L : IsServer C stored)
    (k : Key) (Q : ImageBuild → Type 0) (blind : IsBlind Q) (b : ImageBuild)
    (at_k : key_of b.meta ≡ k) where
  -- The part of `create_build_task_run` after the claim is known.
  abbrev run_with : Option BuildConfig → ImageBuild → Exec C.World (Unit {0})
  run_with config b' =
      wrapping "failed to create TaskRun" (C.create_task_run (build_task_run b' config)) >>= λ name.
      rewrite_status C b' "failed to update ImageBuild with TaskRun name" (with_task_run name)

  run_with-Stays :
      (config : Option BuildConfig) (b' : ImageBuild)
      → key_of b'.meta ≡ k
      → Preserves (Holds C stored k Q) (run_with config b')
  run_with-Stays config b' e =
      Preserves-bind
        (wrapping "failed to create TaskRun" (C.create_task_run (build_task_run b' config))) _
        (Preserves-wrapping _ (C.create_task_run _) (alone C stored L k Q (L.create_task_run _)))
        λ name. rewrite_status-Preserves C stored L k Q b' _ (with_task_run name) e λ c q.
          blind c _
            (record {
              meta = refl;
              spec = refl;
              phase = refl;
              start_time = refl;
              completion_time = refl;
            })
            q

  create_build_task_run-Stays : Preserves (Holds C stored k Q) (create_build_task_run C b)
  unfolding create_build_task_run
  create_build_task_run-Stays =
      Preserves-bind (read_build_config C) _ (read_build_config-Kept C stored L k Q) λ config.
        ensure_bind C stored L k Q blind b at_k (run_with config) (run_with-Stays config b at_k)
          (λ name. run_with-Stays config (with_claim name b) at_k)

module _ (C : BuildClient) (stored : C.World → Key → Option ImageBuild) (L : IsServer C stored)
    (k : Key) (Q : ImageBuild → Type 0) (blind : IsBlind Q) (b : ImageBuild)
    (at_k : key_of b.meta ≡ k) where
  start_from : ImageBuild → Exec C.World CtrlResult
  start_from b' =
      wrapping "failed to create build task run" (create_build_task_run C b')
      >> pure (after (30 * second))

  start_from-Stays :
      (b' : ImageBuild) → key_of b'.meta ≡ k → Preserves (Holds C stored k Q) (start_from b')
  unfolding start_from
  start_from-Stays b' e =
      Preserves-seq (wrapping "failed to create build task run" (create_build_task_run C b')) _
        (Preserves-wrapping _ (create_build_task_run C b')
          (create_build_task_run-Stays C stored L k Q blind b' e))
        (Preserves-pure _)

  pub start_new_build-Stays : Preserves (Holds C stored k Q) (start_new_build C b)
  unfolding start_new_build start_from
  start_new_build-Stays =
      Preserves-bind
        (wrapping "failed to get or create workspace PVC" (get_or_create_workspace_claim C b)) _
        (Preserves-wrapping _ (get_or_create_workspace_claim C b)
          (get_or_create_workspace_claim-Kept C stored L k Q b))
        λ name.
          adopt_bind C stored L k Q blind b at_k name start_from (start_from-Stays b at_k)
            (start_from-Stays (with_claim name b) at_k)
