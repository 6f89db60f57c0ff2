-- ===== src/BuildApi/Objects.antt =====
-- What `createBuild` and `createRegistrySecret` of internal/buildapi/server.go make of a request.
use automotive_dev_operator.Base.{
  zero, suc, ℤ, pos, negsuc, String, ◌<>◌, StringMap, put, Bool, true, false, not, ◌&&◌, ◌||◌,
  Option, none, some, List, [], ◌∷◌, ◌==◌, if◌then◌else◌, message, Result, ok, err,
}
use automotive_dev_operator.Text.Chars.{contains_text}
use automotive_dev_operator.Text.Trim.{trim_space}
use automotive_dev_operator.Text.Split.{join}
use automotive_dev_operator.OperatorConfig.Types.{OperatorConfig}
use automotive_dev_operator.ImageBuild.Types.{ImageBuild}
use automotive_dev_operator.ImageBuild.Client.{OwnerReference}
use automotive_dev_operator.BuildApi.Types.{is_valid, RegistryCredentials, BuildRequest}
use automotive_dev_operator.BuildApi.Client.{ConfigMap, Secret}

abbrev pub or_default : String → String → String
or_default s value = if s == "" then value else s

-- The defaults that come before the checks.
unfoldable pub with_defaults : BuildRequest → BuildRequest
unfolding trim_space
with_defaults q = record q {
  distro = or_default q.distro "cs9";
  target = or_default q.target "qemu";
  architecture = or_default q.architecture "arm64";
  export_format = or_default q.export_format "image";
  mode = or_default q.mode "image";
  compression = if trim_space q.compression == "" then "gzip" else q.compression;
}

-- The checks in their order: the text of the first that fails.
unfoldable pub refusal : BuildRequest → Option String
unfolding is_valid
refusal q =
    if not (q.compression == "lz4") && not (q.compression == "gzip")
    then some "invalid compression: must be lz4 or gzip"
    else if not (is_valid q.distro)
    then some "distro cannot be empty"
    else if not (is_valid q.target)
    then some "target cannot be empty"
    else if not (is_valid q.architecture)
    then some "architecture cannot be empty"
    else if not (is_valid q.export_format)
    then some "exportFormat cannot be empty"
    else if not (is_valid q.mode)
    then some "mode cannot be empty"
    else none

-- The defaults that come after the checks.
unfoldable pub with_file_defaults : BuildRequest → BuildRequest
with_file_defaults q = record q {
  automotive_image_builder =
      or_default q.automotive_image_builder
        "quay.io/centos-sig-automotive/automotive-image-builder:1.0.0";
  manifest_file_name = or_default q.manifest_file_name "manifest.aib.yml";
}

-- An entry with the texts of a list, unless the list is empty.
unfoldable pub put_joined : String → String → List String → StringMap → StringMap
unfolding join
put_joined key sep [] m = m
put_joined key sep (x ∷ more) m = put m key (join sep (x ∷ more))

-- The arguments: an override hides the regular extra ones.
unfoldable pub put_args : List String → List String → StringMap → StringMap
unfolding put_joined
put_args (x ∷ more) extra m = put_joined "aib-override-args.txt" " " (x ∷ more) m
put_args [] extra m = put_joined "aib-extra-args.txt" " " extra m

unfoldable pub manifest_data : BuildRequest → StringMap
unfolding put_args put_joined
manifest_data q = put_args q.aib_override_args q.aib_extra_args (
    put_joined "custom-definitions.env" "\n" q.custom_defs
      ((q.manifest_file_name, q.manifest) ∷ []))

abbrev pub manifest_name : BuildRequest → String
manifest_name q = q.name <> "-manifest"

abbrev made_by_api : StringMap
made_by_api =
    ("app.kubernetes.io/managed-by", "build-api")
    ∷ ("app.kubernetes.io/part-of", "automotive-dev")
    ∷ ("app.kubernetes.io/created-by", "automotive-dev-build-api")
    ∷ []

unfoldable pub manifest_config_map : String → BuildRequest → ConfigMap
unfolding manifest_data
manifest_config_map ns q = record {
  name = manifest_name q;
  namespace = ns;
  labels = put made_by_api "automotive.sdv.cloud.redhat.com/resource-type" "manifest-config";
  owner = none;
  data_map = manifest_data q;
}

-- The entries of the secret, by the type of authentication.
unfoldable pub secret_data : RegistryCredentials → Result StringMap
secret_data c =
    if c.auth_type == "username-password"
    then (if c.registry_url == "" || c.username == "" || c.password == ""
        then err (
            message
              "registry URL, username, and password are required for username-password authentication")
        else ok (
            ("REGISTRY_URL", c.registry_url)
            ∷ ("REGISTRY_USERNAME", c.username)
            ∷ ("REGISTRY_PASSWORD", c.password)
            ∷ []))
    else if c.auth_type == "token"
    then (if c.registry_url == "" || c.token == ""
        then err (message "registry URL and token are required for token authentication")
        else ok (("REGISTRY_URL", c.registry_url) ∷ ("REGISTRY_TOKEN", c.token) ∷ []))
    else if c.auth_type == "docker-config"
    then (if c.docker_config == ""
        then err (message "docker config is required for docker-config authentication")
        else ok (("REGISTRY_AUTH_FILE_CONTENT", c.docker_config) ∷ []))
    else err (message ("unsupported authentication type: " <> c.auth_type))

abbrev pub secret_name : String → String
secret_name build_name = build_name <> "-registry-auth"

unfoldable pub registry_secret : String → String → StringMap → Secret
registry_secret ns build_name entries = record {
  name = secret_name build_name;
  namespace = ns;
  labels =
      put (put made_by_api "automotive.sdv.cloud.redhat.com/resource-type" "registry-auth")
        "automotive.sdv.cloud.redhat.com/build-name" build_name;
  owner = none;
  data_map = entries;
}

abbrev pub is_enabled : Option RegistryCredentials → Bool
is_enabled none = false
is_enabled (some c) = c.enabled

abbrev pub asks_for_secret : BuildRequest → Bool
asks_for_secret q = is_enabled q.registry_credentials

unfoldable pub image_build : String → String → ℤ → String → BuildRequest → ImageBuild
unfolding contains_text
image_build ns requested_by hours secret q = record {
  meta = record {
    api_version = "";
    kind = "";
    name = q.name;
    namespace = ns;
    uid = "";
    labels =
        put
          (put (put made_by_api "automotive.sdv.cloud.redhat.com/distro" q.distro)
            "automotive.sdv.cloud.redhat.com/target" q.target)
          "automotive.sdv.cloud.redhat.com/architecture" q.architecture;
    annotations = ("automotive.sdv.cloud.redhat.com/requested-by", requested_by) ∷ [];
    finalizers = [];
    creation_timestamp = 0;
    deletion_timestamp = none;
  };
  spec = record {
    distro = q.distro;
    target = q.target;
    architecture = q.architecture;
    export_format = q.export_format;
    mode = q.mode;
    storage_class = q.storage_class;
    automotive_image_builder = q.automotive_image_builder;
    manifest_config_map = manifest_name q;
    publishers = none;
    runtime_class_name = "";
    serve_artifact = q.serve_artifact;
    serve_expiry_hours = hours;
    input_files_server = contains_text q.manifest "source_path";
    expose_route = q.serve_artifact;
    env_secret_ref = secret;
    compression = q.compression;
  };
  status = record {
    phase = "";
    start_time = none;
    completion_time = none;
    message = "";
    pvc_name = "";
    artifact_path = "";
    artifact_file_name = "";
    task_run_name = "";
    artifact_url = "";
  };
}

-- `metav1.NewControllerRef`
abbrev pub controller_ref : ImageBuild → OwnerReference
controller_ref b = record {
  api_version = "automotive.sdv.cloud.redhat.com/v1alpha1";
  kind = "ImageBuild";
  name = b.meta.name;
  uid = b.meta.uid;
  block_owner_deletion = true;
}

abbrev pub is_positive : ℤ → Bool
is_positive (pos zero) = false
is_positive (pos (suc n)) = true
is_positive (negsuc n) = false

-- 24 hours, unless the configuration has a positive number.
unfoldable pub configured_hours : OperatorConfig → ℤ
configured_hours cfg = elim cfg.spec.os_builds [
  | none ↦ pos 24
  | some o ↦ if is_positive o.serve_expiry_hours then o.serve_expiry_hours else pos 24
]
