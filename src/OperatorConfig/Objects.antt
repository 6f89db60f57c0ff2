-- ===== src/OperatorConfig/Objects.antt =====
-- The objects that the operator manages in its namespace, and the client that the reconciler of
-- internal/controller/operatorconfig/controller.go uses.
use automotive_dev_operator.Base.{String, StringMap, Bool, Option, Result, Exec}
use automotive_dev_operator.Kube.{Key}
use automotive_dev_operator.OperatorConfig.Types.{OperatorConfig, BuildConfig}

pub data Kind : Type 0 where
  deployment service route ingress config_map secret task pipeline : Kind

pub record Ref : Type 0 where
  pub kind : Kind
  pub namespace : String
  pub name : String

abbrev pub operator_namespace : String
operator_namespace = "automotive-dev-operator-system"

-- An object in the operator's namespace.
abbrev pub managed : Kind → String → Ref
managed kind name = record { kind = kind; namespace = operator_namespace; name = name }

-- An object that a builder of resources.go or tasks.go makes, by the builder and its arguments. A
-- task or a pipeline also has the label `managed-by` that `deployOSBuilds` sets.
pub data Manifest : Type 0 where
  oauth_secret : String → Manifest
  web_ui_nginx_config_map web_ui_route web_ui_ingress build_api_route build_api_ingress : Manifest
  web_ui_deployment web_ui_service build_api_deployment build_api_service : Bool → Manifest
  build_automotive_image_task : Option BuildConfig → String → String → Manifest
  push_artifact_registry_task tekton_pipeline : String → Manifest

-- The kind and the name that the builder gives its object.
unfoldable pub ref_of : Manifest → Ref
ref_of (oauth_secret name) = managed Kind.secret name
ref_of web_ui_nginx_config_map = managed Kind.config_map "ado-webui-nginx-config"
ref_of web_ui_route = managed Kind.route "ado-webui"
ref_of web_ui_ingress = managed Kind.ingress "ado-webui"
ref_of build_api_route = managed Kind.route "ado-build-api"
ref_of build_api_ingress = managed Kind.ingress "ado-build-api"
ref_of (web_ui_deployment os) = managed Kind.deployment "ado-webui"
ref_of (web_ui_service os) = managed Kind.service "ado-webui"
ref_of (build_api_deployment os) = managed Kind.deployment "ado-build-api"
ref_of (build_api_service os) = managed Kind.service "ado-build-api"
ref_of (build_automotive_image_task cfg env by) = managed Kind.task "build-automotive-image"
ref_of (push_artifact_registry_task by) = managed Kind.task "push-artifact-registry"
ref_of (tekton_pipeline by) = managed Kind.pipeline "automotive-build-pipeline"

-- `client.Client` as the reconciler uses it, over an unknown state of the cluster. `get_object`
-- returns the resource version, and a service account is its annotations.
-- `controllerutil.SetControllerReference` may refuse an owner.
pub record ConfigClient : Type 1 where
  pub World : Type 0
  pub get_config : Key → Exec World OperatorConfig
  pub update_config : OperatorConfig → Exec World (Unit {0})
  pub update_config_status : OperatorConfig → Exec World (Unit {0})
  pub get_object : Ref → Exec World String
  pub create_object : Manifest → Exec World (Unit {0})
  pub update_object : Manifest → String → Exec World (Unit {0})
  pub delete_object : Ref → Exec World (Unit {0})
  pub get_service_account : String → Exec World StringMap
  pub update_service_account : String → StringMap → Exec World (Unit {0})
  pub set_controller_reference : OperatorConfig → Manifest → Result (Unit {0})

-- The state of a reconciler: the cluster, and its field `IsOpenShift`.
pub record State (W : Type 0) : Type 0 where
  pub world : W
  pub is_open_shift : Option Bool

-- A call of the client, which leaves the reconciler's own field alone.
abbrev pub returned : {W A : Type 0} → State W → Result A × W → Result A × State W
returned s (r, w) = (r, record s { world = w })

abbrev pub call : {W A : Type 0} → Exec W A → Exec (State W) A
call m s = returned s (m s.world)
