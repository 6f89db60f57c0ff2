-- ===== src/ImageBuild/Types.antt =====
-- The `ImageBuild` resource, api/v1alpha1/imagebuild_types.go. An optional pointer is an `Option`,
-- an `int32` an integer, and `metav1.Time` a number of nanoseconds.
use automotive_dev_operator.Base.{ℕ, ℤ, String, Bool, Option}
use automotive_dev_operator.Kube.{ObjectMeta}

pub record RegistryPublisher : Type 0 where
  pub repository_url : String
  pub secret : String

pub record Publishers : Type 0 where
  pub registry : Option RegistryPublisher

pub record ImageBuildSpec : Type 0 where
  pub distro : String
  pub target : String
  pub architecture : String
  pub export_format : String
  pub mode : String
  pub storage_class : String
  pub automotive_image_builder : String
  pub manifest_config_map : String
  pub publishers : Option Publishers
  pub runtime_class_name : String
  pub serve_artifact : Bool
  pub serve_expiry_hours : ℤ
  pub input_files_server : Bool
  pub expose_route : Bool
  pub env_secret_ref : String
  pub compression : String

pub record ImageBuildStatus : Type 0 where
  pub phase : String
  pub start_time : Option ℕ
  pub completion_time : Option ℕ
  pub message : String
  pub pvc_name : String
  pub artifact_path : String
  pub artifact_file_name : String
  pub task_run_name : String
  pub artifact_url : String

pub record ImageBuild : Type 0 where
  pub meta : ObjectMeta
  pub spec : ImageBuildSpec
  pub status : ImageBuildStatus
