-- ===== src/ImageBuild/Kept.antt =====
-- The operations on claims, pods and task runs: what they leave alone in a stored image build.
use automotive_dev_operator.Base.{
  ◌*◌, String, ◌<>◌, StringMap, Bool, false, List, [], ◌∷◌, Option, none, some, ◌==◌, if◌then◌else◌,
  Error, wrap, is_not_found, is_already_exists, Exec, pure, raise, gets, on_error, wrapping,
  Preserves, Preserves-pure, Preserves-raise, Preserves-gets, Preserves-if, Preserves-on_error,
  Preserves-bind, Preserves-seq, Preserves-wrapping,
}
use automotive_dev_operator.Kube.{Key, second, minute}
use automotive_dev_operator.ImageBuild.Types.{ImageBuild}
use automotive_dev_operator.ImageBuild.Client.{BuildClient, Pod}
use automotive_dev_operator.ImageBuild.Server.{IsServer, Frames}
use automotive_dev_operator.ImageBuild.Frame.{Holds, frame}
use automotive_dev_operator.ImageBuild.Storage.{
  build_label, workspace_claim, live_claim, create_workspace_claim, get_or_create_workspace_claim,
  config_key,
}
use automotive_dev_operator.ImageBuild.Pods.{
  app_label, pod_runs, start_pod, create_nginx_config_map, shutdown_upload_pod,
  create_artifact_service, create_artifact_route, serve_pods, create_artifact_serving_resources,
}
use automotive_dev_operator.ImageBuild.TaskRuns.{read_build_config}

module _ (C : BuildClient) (stored : C.World → Key → Option ImageBuild) (L : IsServer C stored)
    (k : Key) (Q : ImageBuild → Type 0) where
  abbrev pub Kept : {A : Type 0} → Exec C.World A → Type 0
  Kept m = Preserves (Holds C stored k Q) m

  abbrev pub alone : {A : Type 0} {m : Exec C.World A} → Frames C stored m → Kept m
  alone {m = m} f = frame C stored L k Q m f

  -- A failure of one kind is passed over.
  tolerate :
      {A : Type 0} (p : Error → Bool) (text : String) (a : A)
      → (e : Error) → Kept (if p e then pure a else raise (wrap text e))
  tolerate p text a e = Preserves-if (p e) _ _ (λ _. Preserves-pure a) (λ _. Preserves-raise _)

  live_claim-Kept : (b : ImageBuild) → Kept (live_claim C b)
  unfolding live_claim
  live_claim-Kept b =
      Preserves-if (b.status.pvc_name == "") _ _ (λ _. Preserves-pure false)
        λ _.
          Preserves-on_error (C.get_claim _) _ _ (alone (L.get_claim _)) (λ _. Preserves-pure false)
            (λ _. Preserves-pure _)

  create_workspace_claim-Kept : (b : ImageBuild) → Kept (create_workspace_claim C b)
  unfolding create_workspace_claim
  create_workspace_claim-Kept b =
      Preserves-bind
        (on_error (C.get_operator_config config_key) (λ e. pure none) (λ c. pure (some c))) _
        (Preserves-on_error _ _ _ (alone (L.get_operator_config _)) (λ _. Preserves-pure none)
          (λ c. Preserves-pure (some c)))
        λ config. Preserves-bind (gets C.now) _ (Preserves-gets _) λ now.
          let claim = workspace_claim b config now in
          Preserves-seq (wrapping "failed to create workspace PVC" (C.create_claim claim)) _
            (Preserves-wrapping _ (C.create_claim claim) (alone (L.create_claim claim)))
            (Preserves-pure claim.name)

  pub get_or_create_workspace_claim-Kept :
      (b : ImageBuild) → Kept (get_or_create_workspace_claim C b)
  unfolding get_or_create_workspace_claim
  get_or_create_workspace_claim-Kept b =
      Preserves-bind (live_claim C b) _ (live_claim-Kept b)
        λ live. Preserves-if live _ _ (λ _. Preserves-pure _) (λ _. create_workspace_claim-Kept b)

  pub pod_runs-Kept : (j : Key) → Kept (pod_runs C j)
  unfolding pod_runs
  pod_runs-Kept j =
      Preserves-on_error (C.get_pod_phase j) _ _ (alone (L.get_pod_phase j))
        (tolerate is_not_found "error checking for existing pod" false)
        (λ phase. Preserves-pure (phase == "Running"))

  pub start_pod-Kept : (what : String) (pod : Pod) → Kept (start_pod C what pod)
  unfolding start_pod
  start_pod-Kept what pod =
      let name : Key = record { namespace = pod.namespace; name = pod.name } in
      let text = "failed to create " <> (what <> " pod") in
      let test =
        on_error (C.get_pod_phase name) (λ e. pure {W = C.World} false)
          (λ phase. pure (phase == "Running")) in
      Preserves-seq
        (on_error (C.create_pod pod)
          (λ e. if is_already_exists e then pure tt else raise (wrap text e)) pure)
        _
        (Preserves-on_error (C.create_pod pod) _ _ (alone (L.create_pod pod))
          (tolerate is_already_exists text tt) Preserves-pure)
        (Preserves-wrapping (what <> " pod not ready") (C.poll (5 * second) (2 * minute) test) (
          L.poll _ (5 * second) (2 * minute) test (
            Preserves-on_error (C.get_pod_phase name) _ _ (alone (L.get_pod_phase name))
              (λ _. Preserves-pure false) (λ phase. Preserves-pure (phase == "Running")))))

  pub create_nginx_config_map-Kept : (b : ImageBuild) → Kept (create_nginx_config_map C b)
  unfolding create_nginx_config_map
  create_nginx_config_map-Kept b =
      Preserves-on_error (C.create_nginx_config_map _) _ _ (alone (L.create_nginx_config_map _))
        (tolerate is_already_exists "failed to create nginx config ConfigMap" _)
        (λ _. Preserves-pure _)

  pub shutdown_upload_pod-Kept : (b : ImageBuild) → Kept (shutdown_upload_pod C b)
  unfolding shutdown_upload_pod
  shutdown_upload_pod-Kept b =
      Preserves-on_error (C.delete_object _ _) _ _ (alone (L.delete_object _ _))
        (tolerate is_not_found "failed to delete upload pod" tt) Preserves-pure

  create_artifact_service-Kept :
      (b : ImageBuild) (labels : StringMap) → Kept (create_artifact_service C b labels)
  unfolding create_artifact_service
  create_artifact_service-Kept b labels =
      Preserves-on_error (C.has_service _) _ _ (alone (L.has_service _))
        (λ e.
          Preserves-if (is_not_found e) _ _
            (λ _.
              Preserves-wrapping "failed to create service" (C.create_service _)
                (alone (L.create_service _)))
            (λ _. Preserves-raise _))
        Preserves-pure

  create_artifact_route-Kept :
      (b : ImageBuild) (labels : StringMap) → Kept (create_artifact_route C b labels)
  unfolding create_artifact_route
  create_artifact_route-Kept b labels =
      Preserves-on_error (C.get_route _) _ _ (alone (L.get_route _))
        (λ e.
          Preserves-if (is_not_found e) _ _
            (λ _.
              Preserves-wrapping "failed to create route" (C.create_route _)
                (alone (L.create_route _)))
            (λ _. Preserves-raise _))
        (λ _. Preserves-pure tt)

  serve_pods-Kept : (b : ImageBuild) (pods : List StringMap) → Kept (serve_pods C b pods)
  unfolding serve_pods
  serve_pods-Kept b [] = Preserves-raise _
  serve_pods-Kept b (labels ∷ more) =
      Preserves-seq (create_artifact_service C b labels) _ (create_artifact_service-Kept b labels)
        (create_artifact_route-Kept b labels)

  pub create_artifact_serving_resources-Kept :
      (b : ImageBuild) → Kept (create_artifact_serving_resources C b)
  unfolding create_artifact_serving_resources
  create_artifact_serving_resources-Kept b =
      let pods =
        C.list_pod_labels b.meta.namespace
          ((app_label, "artifact-pod") ∷ (build_label, b.meta.name) ∷ []) in
      Preserves-bind (wrapping "failed to list artifact pods" pods) _
        (Preserves-wrapping _ pods (alone (L.list_pod_labels _ _))) (serve_pods-Kept b)

  pub read_build_config-Kept : Kept (read_build_config C)
  unfolding read_build_config
  read_build_config-Kept =
      Preserves-on_error (C.get_operator_config config_key) _ _ (alone (L.get_operator_config _))
        (tolerate is_not_found "failed to get OperatorConfig configuration" none)
        (λ _. Preserves-pure _)
