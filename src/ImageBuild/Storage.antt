-- ===== src/ImageBuild/Storage.antt =====
-- `updateStatus`, `getOrCreateWorkspacePVC` and the writing of the claim's name into the status, of
-- internal/controller/imagebuild/controller.go.
use Prim.Native.Nat.{◌/◌}
use automotive_dev_operator.Base.{
  ℕ, zero, suc, ◌+◌, ◌%◌, String, ◌<>◌, ltb, Bool, true, false, ◌&&◌, ◌||◌, not, Option, none, some,
  [], ◌∷◌, ◌==◌, is_some, if◌then◌else◌, Exec, pure, gets, on_error, ◌>>=◌, ◌>>◌, wrapping,
}
use automotive_dev_operator.Kube.{Key, key_of, modify_status, second}
use automotive_dev_operator.OperatorConfig.Types.{OperatorConfig}
use automotive_dev_operator.ImageBuild.Types.{ImageBuild}
use automotive_dev_operator.ImageBuild.Client.{BuildClient, OwnerReference, Claim}

-- `fmt.Sprintf("%d", n)`; a number has fewer digits than `n + 1`.
abbrev digit : ℕ → String
digit d =
    if ltb d 1
    then "0"
    else if ltb d 2
    then "1"
    else if ltb d 3
    then "2"
    else if ltb d 4
    then "3"
    else if ltb d 5
    then "4"
    else if ltb d 6
    then "5"
    else if ltb d 7
    then "6"
    else if ltb d 8
    then "7"
    else if ltb d 9
    then "8"
    else "9"

decimal_from : ℕ → ℕ → String → String
decimal_from zero n tail = tail
decimal_from (suc fuel) n tail =
    let text = digit (n % 10) <> tail in
    let rest = decimal_from fuel (n / 10) text in if ltb n 10 then text else rest

unfoldable pub decimal : ℕ → String
unfolding decimal_from
decimal n = decimal_from (n + 1) n ""

-- The assignments of `updateStatus`.
unfoldable pub with_phase : String → String → ℕ → ImageBuild → ImageBuild
with_phase phase text now fresh =
    let s = fresh.status in
    let starts = (phase == "Building") && not (is_some s.start_time) in
    let ends =
      not starts
      && (((phase == "Completed") || (phase == "Failed")) && not (is_some s.completion_time)) in
    record fresh {
      status = record s {
        phase = phase;
        message = text;
        start_time = if starts then some now else s.start_time;
        completion_time = if ends then some now else s.completion_time;
      };
    }

abbrev pub with_claim : String → ImageBuild → ImageBuild
with_claim name b = record b { status = record b.status { pvc_name = name } }

abbrev pub with_task_run : String → ImageBuild → ImageBuild
with_task_run name b = record b { status = record b.status { task_run_name = name } }

abbrev pub managed_by : String
managed_by = "automotive-dev-operator"

abbrev pub build_label : String
build_label = "automotive.sdv.cloud.redhat.com/imagebuild-name"

abbrev pub owner_of : ImageBuild → Bool → OwnerReference
owner_of b block = record {
  api_version = b.meta.api_version;
  kind = b.meta.kind;
  name = b.meta.name;
  uid = b.meta.uid;
  block_owner_deletion = block;
}

abbrev pub sibling : ImageBuild → String → Key
sibling b name = record { namespace = b.meta.namespace; name = name }

abbrev pub config_key : Key
config_key = record { namespace = "automotive-dev-operator-system"; name = "config" }

-- The size that the configuration asks for, or the default.
unfoldable pub storage_size : Option OperatorConfig → String
storage_size none = "8Gi"
storage_size (some c) = elim c.spec.os_builds [
  | none ↦ "8Gi"
  | some o ↦ if o.pvc_size == "" then "8Gi" else o.pvc_size
]

unfoldable pub workspace_claim : ImageBuild → Option OperatorConfig → ℕ → Claim
workspace_claim b config now = record {
  name = b.meta.name <> ("-ws-" <> decimal (now / second));
  namespace = b.meta.namespace;
  labels = ("app.kubernetes.io/managed-by", managed_by) ∷ (build_label, b.meta.name) ∷ [];
  owner = owner_of b true;
  access_mode = "ReadWriteOnce";
  storage = storage_size config;
  storage_class_name = if b.spec.storage_class == "" then none else some b.spec.storage_class;
}

module _ (C : BuildClient) where
  open C use {World}

  unfoldable pub update_status : ImageBuild → String → String → Exec World (Unit {0})
  update_status b phase text = modify_status C.builds C.now (key_of b.meta) (with_phase phase text)

  -- `r.Get` of a fresh copy, an assignment, and `r.Status().Update`.
  unfoldable pub rewrite_status :
      ImageBuild → String → (ImageBuild → ImageBuild) → Exec World (Unit {0})
  rewrite_status b text f = do
    fresh ← wrapping "failed to get fresh ImageBuild" (C.builds.get (key_of b.meta))
    wrapping text (C.update_status fresh (f fresh))

  -- The claim that the status names, where it can be read and is not being deleted.
  unfoldable pub live_claim : ImageBuild → Exec World Bool
  live_claim b =
      if b.status.pvc_name == ""
      then pure false
      else on_error (C.get_claim (sibling b b.status.pvc_name)) (λ e. pure false)
          (λ deletion. pure (not (is_some deletion)))

  unfoldable pub create_workspace_claim : ImageBuild → Exec World String
  create_workspace_claim b = do
    config ← on_error (C.get_operator_config config_key) (λ e. pure none) (λ c. pure (some c))
    now ← gets C.now
    let claim = workspace_claim b config now
    wrapping "failed to create workspace PVC" (C.create_claim claim)
    pure claim.name

  unfoldable pub get_or_create_workspace_claim : ImageBuild → Exec World String
  get_or_create_workspace_claim b = do
    live ← live_claim b
    if live then pure b.status.pvc_name else create_workspace_claim b

  -- The claim's name goes into the stored status and into the handler's copy.
  unfoldable pub record_claim : ImageBuild → String → Exec World ImageBuild
  record_claim b name = do
    rewrite_status b "failed to update ImageBuild status with PVC name" (with_claim name)
    pure (with_claim name b)

  -- `if imageBuild.Status.PVCName != pvcName`
  unfoldable pub adopt_claim : ImageBuild → String → Exec World ImageBuild
  adopt_claim b name = if b.status.pvc_name == name then pure b else record_claim b name

  -- `if imageBuild.Status.PVCName == ""`
  unfoldable pub ensure_named_claim : ImageBuild → Exec World ImageBuild
  ensure_named_claim b =
      if b.status.pvc_name == ""
      then (do name ← get_or_create_workspace_claim b; record_claim b name)
      else pure b
