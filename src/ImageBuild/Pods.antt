-- ===== src/ImageBuild/Pods.antt =====
-- The pods that receive and serve files, and what leads to them: `createUploadPod`,
-- `shutdownUploadPod`, `createArtifactPod`, `createNginxConfigMap` and
-- `createArtifactServingResources` of internal/controller/imagebuild/controller.go.
use automotive_dev_operator.Base.{
  ◌*◌, String, ◌<>◌, StringMap, Bool, true, false, List, [], ◌∷◌, ◌==◌, if◌then◌else◌, message,
  is_not_found, is_already_exists, wrap, Exec, pure, raise, on_error, ◌>>=◌, ◌>>◌, wrapping,
}
use automotive_dev_operator.Kube.{Key, second, minute}
use automotive_dev_operator.ImageBuild.Types.{ImageBuild}
use automotive_dev_operator.ImageBuild.Client.{BuildClient, Pod, claim, config_map, ArtifactKind}
use automotive_dev_operator.ImageBuild.Storage.{
  managed_by, build_label, owner_of, sibling, get_or_create_workspace_claim, adopt_claim,
  ensure_named_claim,
}

abbrev pub app_label : String
app_label = "app.kubernetes.io/name"

abbrev pub pod_labels : ImageBuild → String → StringMap
pod_labels b app =
    ("app.kubernetes.io/managed-by", managed_by)
    ∷ (build_label, b.meta.name)
    ∷ (app_label, app)
    ∷ []

abbrev pub server_image : String
server_image = "quay.io/nginx/nginx-unprivileged:latest"

unfoldable pub upload_pod : ImageBuild → Pod
upload_pod b = record {
  name = b.meta.name <> "-upload-pod";
  namespace = b.meta.namespace;
  labels = pod_labels b "upload-pod";
  owner = owner_of b true;
  container = "fileserver";
  image = server_image;
  command = "sleep" ∷ "infinity" ∷ [];
  container_ports = [];
  mounts = record { volume = "workspace"; path = "/workspace/shared"; read_only = false } ∷ [];
  volumes = ("workspace", claim b.status.pvc_name) ∷ [];
}

unfoldable pub artifact_pod : ImageBuild → String → Pod
artifact_pod b nginx = record {
  name = b.meta.name <> "-artifact-pod";
  namespace = b.meta.namespace;
  labels = pod_labels b "artifact-pod";
  owner = owner_of b true;
  container = "fileserver";
  image = server_image;
  command = [];
  container_ports = 8080 ∷ [];
  mounts =
      record { volume = "artifacts"; path = "/workspace/shared"; read_only = true }
      ∷ record { volume = "nginx-config"; path = "/etc/nginx/conf.d"; read_only = true }
      ∷ [];
  volumes = ("artifacts", claim b.status.pvc_name) ∷ ("nginx-config", config_map nginx) ∷ [];
}

module _ (C : BuildClient) where
  open C use {World}

  -- Whether a pod of this name is there and runs; one that is not there does not.
  unfoldable pub pod_runs : Key → Exec World Bool
  pod_runs key =
      on_error (C.get_pod_phase key)
        (λ e.
          if is_not_found e then pure false else raise (wrap "error checking for existing pod" e))
        (λ phase. pure (phase == "Running"))

  -- The creation of a pod, which may be there already, and the wait for it to run.
  unfoldable pub start_pod : String → Pod → Exec World (Unit {0})
  start_pod what pod = do
    on_error (C.create_pod pod)
        (λ e.
          if is_already_exists e
          then pure tt
          else raise (wrap ("failed to create " <> (what <> " pod")) e))
        pure
    wrapping (what <> " pod not ready") (
        C.poll (5 * second) (2 * minute) (
          on_error (C.get_pod_phase (record { namespace = pod.namespace; name = pod.name }))
            (λ e. pure false) (λ phase. pure (phase == "Running"))))

  unfoldable pub create_nginx_config_map : ImageBuild → Exec World String
  create_nginx_config_map b =
      let name = b.meta.name <> "-nginx-config" in
      on_error
        (C.create_nginx_config_map
          (record { name = name; namespace = b.meta.namespace; owner = owner_of b true }))
        (λ e.
          if is_already_exists e
          then pure name
          else raise (wrap "failed to create nginx config ConfigMap" e))
        (λ _. pure name)

  unfoldable pub create_upload_pod : ImageBuild → Exec World (Unit {0})
  create_upload_pod b = do
    runs ← pod_runs (sibling b (b.meta.name <> "-upload-pod"))
    if runs then pure tt else do
      name ← get_or_create_workspace_claim C b
      b' ← adopt_claim C b name
      start_pod "upload" (upload_pod b')

  unfoldable pub shutdown_upload_pod : ImageBuild → Exec World (Unit {0})
  shutdown_upload_pod b =
      on_error (C.delete_object ArtifactKind.pod (sibling b (b.meta.name <> "-upload-pod")))
        (λ e. if is_not_found e then pure tt else raise (wrap "failed to delete upload pod" e)) pure

  unfoldable pub create_artifact_pod : ImageBuild → Exec World (Unit {0})
  create_artifact_pod b = do
    runs ← pod_runs (sibling b (b.meta.name <> "-artifact-pod"))
    if runs then pure tt else do
      b' ← ensure_named_claim C b
      nginx ← wrapping "failed to create nginx config map" (create_nginx_config_map b')
      start_pod "artifact" (artifact_pod b' nginx)

  -- What is there stays; what is not found is created with the labels of the artifact pod.
  unfoldable pub create_artifact_service : ImageBuild → StringMap → Exec World (Unit {0})
  create_artifact_service b labels =
      let name = b.meta.name <> "-artifact-service" in
      on_error (C.has_service (sibling b name))
        (λ e.
          if is_not_found e
          then wrapping "failed to create service" (
              C.create_service (record {
                name = name;
                namespace = b.meta.namespace;
                labels = labels;
                owner = owner_of b true;
                selector = labels;
              }))
          else raise (wrap "failed to check for existing service" e))
        pure

  unfoldable pub create_artifact_route : ImageBuild → StringMap → Exec World (Unit {0})
  create_artifact_route b labels =
      let name = b.meta.name <> "-artifacts" in
      on_error (C.get_route (sibling b name))
        (λ e.
          if is_not_found e
          then wrapping "failed to create route" (
              C.create_route (record {
                name = name;
                namespace = b.meta.namespace;
                labels = labels;
                owner = owner_of b true;
                service = b.meta.name <> "-artifact-service";
              }))
          else raise (wrap "failed to check for existing route" e))
        (λ _. pure tt)

  -- The labels of the first pod in the list.
  unfoldable pub serve_pods : ImageBuild → List StringMap → Exec World (Unit {0})
  serve_pods b [] =
      raise (message ("no existing artifact pod found for ImageBuild " <> b.meta.name))
  serve_pods b (labels ∷ more) = do create_artifact_service b labels; create_artifact_route b labels

  unfoldable pub create_artifact_serving_resources : ImageBuild → Exec World (Unit {0})
  create_artifact_serving_resources b = do
    pods ← wrapping "failed to list artifact pods" (
        C.list_pod_labels b.meta.namespace
          ((app_label, "artifact-pod") ∷ (build_label, b.meta.name) ∷ []))
    serve_pods b pods
