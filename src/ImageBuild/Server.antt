-- ===== src/ImageBuild/Server.antt =====
-- What the API server is assumed to do with the calls of the reconciler of image builds.
use automotive_dev_operator.Base.{
  ℕ, String, StringMap, ◌≡◌, ◌⊎◌, Bool, ◌==◌, Option, some, if◌then◌else◌, Exec, Preserves,
}
use automotive_dev_operator.Kube.{Key, key_of, IsLawful}
use automotive_dev_operator.ImageBuild.Types.{ImageBuild}
use automotive_dev_operator.ImageBuild.Client.{
  BuildClient, TaskRunSpec, Claim, Pod, NginxConfigMap, Service, Route, RouteStatus, ArtifactKind,
}

-- A status write against the held object writes the status and nothing else.
abbrev pub patched : ImageBuild → ImageBuild → ImageBuild
patched base m = record base { status = m.status }

-- A merge patch against another base sends the fields in which the two objects differ.
abbrev pub merge_text : String → String → String → String
merge_text held base m = if base == m then held else m

abbrev pub artifact_merged : ImageBuild → ImageBuild → ImageBuild → ImageBuild
artifact_merged held base m = record held {
  status = record held.status {
    message = merge_text held.status.message base.status.message m.status.message;
    artifact_path =
        merge_text held.status.artifact_path base.status.artifact_path m.status.artifact_path;
    artifact_file_name =
        merge_text held.status.artifact_file_name base.status.artifact_file_name
          m.status.artifact_file_name;
    artifact_url =
        merge_text held.status.artifact_url base.status.artifact_url m.status.artifact_url;
  };
}

-- The two objects differ at most in the texts about the artifact.
pub record SameLife (b c : ImageBuild) : Type 0 where
  pub meta : c.meta ≡ b.meta
  pub spec : c.spec ≡ b.spec
  pub phase : c.status.phase ≡ b.status.phase
  pub start_time : c.status.start_time ≡ b.status.start_time
  pub completion_time : c.status.completion_time ≡ b.status.completion_time

module _ (C : BuildClient) (stored : C.World → Key → Option ImageBuild) where
  -- The action leaves every stored image build alone.
  pub record Frames {A : Type 0} (m : Exec C.World A) : Type 0 where
    pub at : (w : C.World) (k : Key) → stored (m w).1 k ≡ stored w k

  -- Reads, patches and updates of image builds behave as `Kube.IsLawful` says; an update may have
  -- been made or not. A patch whose two objects differ only in the texts about the artifact sends
  -- those in which they differ. Calls about other objects leave image builds alone, and a poll does
  -- what its test does.
  pub record IsServer : Type 1 where
    pub builds : IsLawful C.builds (λ b. key_of b.meta) patched stored
    pub update_any :
        (w : C.World) (k : Key) (b m : ImageBuild)
        → stored w k ≡ some b
        → (stored (C.update_status b m w).1 k ≡ some b)
          ⊎ (stored (C.update_status b m w).1 k ≡ some (patched b m))
    pub patch_merge :
        (w : C.World) (k : Key) (held b m : ImageBuild)
        → stored w k ≡ some held
        → key_of b.meta ≡ k
        → SameLife b m
        → b.status.pvc_name ≡ m.status.pvc_name
        → b.status.task_run_name ≡ m.status.task_run_name
        → (stored (C.builds.patch_status b m w).1 k ≡ some held)
          ⊎ (stored (C.builds.patch_status b m w).1 k ≡ some (artifact_merged held b m))
    pub get_operator_config : (k : Key) → Frames (C.get_operator_config k)
    pub list_task_runs : (n : String) (l : StringMap) → Frames (C.list_task_runs n l)
    pub get_task_run : (k : Key) → Frames (C.get_task_run k)
    pub create_task_run : (t : TaskRunSpec) → Frames (C.create_task_run t)
    pub get_claim : (k : Key) → Frames (C.get_claim k)
    pub create_claim : (c : Claim) → Frames (C.create_claim c)
    pub get_pod_phase : (k : Key) → Frames (C.get_pod_phase k)
    pub list_pod_labels : (n : String) (l : StringMap) → Frames (C.list_pod_labels n l)
    pub create_pod : (p : Pod) → Frames (C.create_pod p)
    pub create_nginx_config_map : (m : NginxConfigMap) → Frames (C.create_nginx_config_map m)
    pub has_service : (k : Key) → Frames (C.has_service k)
    pub create_service : (s : Service) → Frames (C.create_service s)
    pub get_route : (k : Key) → Frames (C.get_route k)
    pub create_route : (r : Route) → Frames (C.create_route r)
    pub delete_object : (a : ArtifactKind) (k : Key) → Frames (C.delete_object a k)
    pub poll :
        (P : C.World → Type 0) (interval timeout : ℕ) (test : Exec C.World Bool)
        → Preserves P test
        → Preserves P (C.poll interval timeout test)
    pub poll_route :
        (P : C.World → Type 0) (interval timeout : ℕ) (test : Exec C.World (Option RouteStatus))
        → Preserves P test
        → Preserves P (C.poll_route interval timeout test)
