-- ===== src/ImageBuild/Client.antt =====
-- The objects that the reconciler of internal/controller/imagebuild/controller.go reads and makes,
-- as far as it sets or reads their fields, and the client that it uses.
use automotive_dev_operator.Base.{ℕ, String, StringMap, Bool, Option, List, Exec}
use automotive_dev_operator.Kube.{Key, ObjectClient}
use automotive_dev_operator.OperatorConfig.Types.{OperatorConfig, BuildConfig}
use automotive_dev_operator.ImageBuild.Types.{ImageBuild}

-- `metav1.OwnerReference` with `Controller: true`. A missing `BlockOwnerDeletion` is false.
pub record OwnerReference : Type 0 where
  pub api_version : String
  pub kind : String
  pub name : String
  pub uid : String
  pub block_owner_deletion : Bool

-- A Tekton task run as it is read: its name, whether it is being deleted, the time of completion,
-- the states of its conditions, and its results by name.
pub record TaskRun : Type 0 where
  pub name : String
  pub deletion_timestamp : Option ℕ
  pub completion_time : Option ℕ
  pub conditions : List String
  pub results : StringMap

-- A Tekton task run as it is created. The task is `GenerateBuildAutomotiveImageTask` of the build
-- configuration and the name of the secret with the environment. Workspaces are bound by name to a
-- claim or to a config map.
pub data Binding : Type 0 where
  claim config_map : String → Binding

pub record TaskRunSpec : Type 0 where
  pub generate_name : String
  pub namespace : String
  pub labels : StringMap
  pub owner : OwnerReference
  pub build_config : Option BuildConfig
  pub env_secret_ref : String
  pub params : StringMap
  pub workspaces : List (String × Binding)
  pub node_architecture : String
  pub runtime_class_name : Option String

pub record Claim : Type 0 where
  pub name : String
  pub namespace : String
  pub labels : StringMap
  pub owner : OwnerReference
  pub access_mode : String
  pub storage : String
  pub storage_class_name : Option String

-- A pod with one container, which runs without root as user, group and file group 1000, on 100m
-- to 200m of a processor and 64Mi to 128Mi of memory.
pub record VolumeMount : Type 0 where
  pub volume : String
  pub path : String
  pub read_only : Bool

pub record Pod : Type 0 where
  pub name : String
  pub namespace : String
  pub labels : StringMap
  pub owner : OwnerReference
  pub container : String
  pub image : String
  pub command : List String
  pub container_ports : List ℕ
  pub mounts : List VolumeMount
  pub volumes : List (String × Binding)

-- The config map of the file server, whose one entry `default.conf` is a constant text.
pub record NginxConfigMap : Type 0 where
  pub name : String
  pub namespace : String
  pub owner : OwnerReference

-- A service selects pods by labels, a route leads to a service; both listen on port 8080.
pub record Service : Type 0 where
  pub name : String
  pub namespace : String
  pub labels : StringMap
  pub owner : OwnerReference
  pub selector : StringMap

pub record Route : Type 0 where
  pub name : String
  pub namespace : String
  pub labels : StringMap
  pub owner : OwnerReference
  pub service : String

-- A route as it is read: the hosts of its ingresses, and whether TLS is configured.
pub record RouteStatus : Type 0 where
  pub hosts : List String
  pub has_tls : Bool

pub data ArtifactKind : Type 0 where
  service route pod config_map : ArtifactKind

-- `client.Client` as the reconciler uses it, over an unknown state of the cluster.
-- `update_status base m` is `r.Status().Update(ctx, m)` of an object read as `base`. A claim is read
-- as its deletion time, a pod as its phase, a listed pod as its labels. `create_task_run` returns the
-- generated name. `poll interval timeout test` is `wait.PollUntilContextTimeout`, and `poll_route`
-- the same where the test keeps the route that it read last.
pub record BuildClient : Type 1 where
  pub World : Type 0
  pub builds : ObjectClient World ImageBuild
  pub update_status : ImageBuild → ImageBuild → Exec World (Unit {0})
  pub get_operator_config : Key → Exec World OperatorConfig
  pub list_task_runs : String → StringMap → Exec World (List TaskRun)
  pub get_task_run : Key → Exec World TaskRun
  pub create_task_run : TaskRunSpec → Exec World String
  pub get_claim : Key → Exec World (Option ℕ)
  pub create_claim : Claim → Exec World (Unit {0})
  pub get_pod_phase : Key → Exec World String
  pub list_pod_labels : String → StringMap → Exec World (List StringMap)
  pub create_pod : Pod → Exec World (Unit {0})
  pub create_nginx_config_map : NginxConfigMap → Exec World (Unit {0})
  pub has_service : Key → Exec World (Unit {0})
  pub create_service : Service → Exec World (Unit {0})
  pub get_route : Key → Exec World RouteStatus
  pub create_route : Route → Exec World (Unit {0})
  pub delete_object : ArtifactKind → Key → Exec World (Unit {0})
  pub poll : ℕ → ℕ → Exec World Bool → Exec World (Unit {0})
  pub poll_route : ℕ → ℕ → Exec World (Option RouteStatus) → Exec World RouteStatus
  pub now : World → ℕ
