-- ===== src/ImageBuild/TaskRuns.antt =====
-- `createBuildTaskRun` and `startNewBuild` of internal/controller/imagebuild/controller.go.
use automotive_dev_operator.Base.{
  String, ◌<>◌, StringMap, Option, none, some, List, [], ◌∷◌, ◌==◌, if◌then◌else◌, is_not_found,
  wrap, Exec, pure, raise, on_error, ◌>>=◌, ◌>>◌, wrapping, ◌*◌, false,
}
use automotive_dev_operator.Kube.{CtrlResult, after, second}
use automotive_dev_operator.OperatorConfig.Types.{BuildConfig, build_config_of}
use automotive_dev_operator.ImageBuild.Types.{ImageBuild}
use automotive_dev_operator.ImageBuild.Client.{BuildClient, Binding, claim, config_map, TaskRunSpec}
use automotive_dev_operator.ImageBuild.Storage.{
  managed_by, build_label, owner_of, config_key, with_task_run, rewrite_status,
  get_or_create_workspace_claim, adopt_claim, ensure_named_claim,
}

unfoldable pub build_params : ImageBuild → StringMap
build_params b =
    ("target-architecture", b.spec.architecture)
    ∷ ("distro", b.spec.distro)
    ∷ ("target", b.spec.target)
    ∷ ("mode", b.spec.mode)
    ∷ ("export-format", b.spec.export_format)
    ∷ ("automotive-image-builder", b.spec.automotive_image_builder)
    ∷ ("compression", b.spec.compression)
    ∷ []

unfoldable pub build_workspaces : ImageBuild → List (String × Binding)
build_workspaces b =
    ("shared-workspace", claim b.status.pvc_name)
    ∷ ("manifest-config-workspace", config_map b.spec.manifest_config_map)
    ∷ []

-- The runtime class of the build configuration, which that of the image build overrides.
unfoldable pub runtime_class : ImageBuild → Option BuildConfig → Option String
runtime_class b config =
    if b.spec.runtime_class_name == ""
    then elim config [
      | none ↦ none
      | some c ↦ if c.runtime_class_name == "" then none else some c.runtime_class_name
    ]
    else some b.spec.runtime_class_name

unfoldable pub build_task_run : ImageBuild → Option BuildConfig → TaskRunSpec
unfolding build_params build_workspaces runtime_class
build_task_run b config = record {
  generate_name = b.meta.name <> "-build-";
  namespace = b.meta.namespace;
  labels = ("app.kubernetes.io/managed-by", managed_by) ∷ (build_label, b.meta.name) ∷ [];
  owner = owner_of b false;
  build_config = config;
  env_secret_ref = b.spec.env_secret_ref;
  params = build_params b;
  workspaces = build_workspaces b;
  node_architecture = b.spec.architecture;
  runtime_class_name = runtime_class b config;
}

module _ (C : BuildClient) where
  open C use {World}

  -- A missing configuration is none; any other failure to read it is an error.
  unfoldable pub read_build_config : Exec World (Option BuildConfig)
  read_build_config =
      on_error (C.get_operator_config config_key)
        (λ e.
          if is_not_found e
          then pure none
          else raise (wrap "failed to get OperatorConfig configuration" e))
        (λ c. pure (build_config_of c.spec.os_builds))

  unfoldable pub create_build_task_run : ImageBuild → Exec World (Unit {0})
  create_build_task_run b = do
    config ← read_build_config
    b' ← ensure_named_claim C b
    name ← wrapping "failed to create TaskRun" (C.create_task_run (build_task_run b' config))
    rewrite_status C b' "failed to update ImageBuild with TaskRun name" (with_task_run name)

  unfoldable pub start_new_build : ImageBuild → Exec World CtrlResult
  start_new_build b = do
    name ← wrapping "failed to get or create workspace PVC" (get_or_create_workspace_claim C b)
    b' ← adopt_claim C b name
    wrapping "failed to create build task run" (create_build_task_run b')
    pure (after (30 * second))
