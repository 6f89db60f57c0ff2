-- ===== src/OperatorConfig/Types.antt =====
-- The `OperatorConfig` resource, api/v1alpha1/operatorconfig_types.go, and the `BuildConfig` of
-- internal/common/tasks/tasks.go.
use automotive_dev_operator.Base.{ℤ, String, Bool, Option, none, some}
use automotive_dev_operator.Kube.{ObjectMeta}

pub record OsBuildsConfig : Type 0 where
  pub enabled : Bool
  pub use_memory_volumes : Bool
  pub memory_volume_size : String
  pub pvc_size : String
  pub runtime_class_name : String
  pub serve_expiry_hours : ℤ

pub record OperatorConfigSpec : Type 0 where
  pub web_ui : Bool
  pub os_builds : Option OsBuildsConfig

pub record OperatorConfigStatus : Type 0 where
  pub phase : String
  pub message : String
  pub web_ui_deployed : Bool
  pub os_builds_deployed : Bool

pub record OperatorConfig : Type 0 where
  pub meta : ObjectMeta
  pub spec : OperatorConfigSpec
  pub status : OperatorConfigStatus

pub record BuildConfig : Type 0 where
  pub use_memory_volumes : Bool
  pub memory_volume_size : String
  pub pvc_size : String
  pub runtime_class_name : String
  pub serve_expiry_hours : ℤ

-- The conversion that the reconcilers make.
abbrev to_build_config : OsBuildsConfig → BuildConfig
to_build_config o = record {
  use_memory_volumes = o.use_memory_volumes;
  memory_volume_size = o.memory_volume_size;
  pvc_size = o.pvc_size;
  runtime_class_name = o.runtime_class_name;
  serve_expiry_hours = o.serve_expiry_hours;
}

abbrev pub build_config_of : Option OsBuildsConfig → Option BuildConfig
build_config_of none = none
build_config_of (some o) = some (to_build_config o)
