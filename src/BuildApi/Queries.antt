-- ===== src/BuildApi/Queries.antt =====
-- `listBuilds`, `getBuild` and `getBuildTemplate` of internal/buildapi/server.go.
use automotive_dev_operator.Base.{
  ℕ, String, ◌<>◌, StringMap, lookup, get_or_empty, Bool, not, ◌&&◌, ◌||◌, Option, none, some, List,
  [], ◌∷◌, map, ◌==◌, if◌then◌else◌, is_not_found, error_text, Exec, on_error, ◌>>=◌,
}
use automotive_dev_operator.Text.Chars.{has_prefix}
use automotive_dev_operator.Text.Trim.{trim_space, trim, is_quote}
use automotive_dev_operator.Text.Split.{split, split_once}
use automotive_dev_operator.Text.Fields.{fields}
use automotive_dev_operator.ImageBuild.Types.{ImageBuild}
use automotive_dev_operator.BuildApi.Types.{
  BuildResponse, BuildListItem, BuildTemplateResponse, Response, build, builds, template,
}
use automotive_dev_operator.BuildApi.Client.{
  ApiClient, fails_with, answers, resolve_namespace, get_client,
}

abbrev pub requested_by_key : String
requested_by_key = "automotive.sdv.cloud.redhat.com/requested-by"

abbrev format_option : (ℕ → String) → Option ℕ → String
format_option f none = ""
format_option f (some t) = f t

unfoldable pub list_item : (ℕ → String) → ImageBuild → BuildListItem
list_item f b = record {
  name = b.meta.name;
  phase = b.status.phase;
  message = b.status.message;
  requested_by = get_or_empty b.meta.annotations requested_by_key;
  created_at = f b.meta.creation_timestamp;
  start_time = format_option f b.status.start_time;
  completion_time = format_option f b.status.completion_time;
}

unfoldable pub build_response : (ℕ → String) → ImageBuild → BuildResponse
unfolding trim_space
build_response f b = record {
  name = b.meta.name;
  phase = b.status.phase;
  message = b.status.message;
  requested_by = get_or_empty b.meta.annotations requested_by_key;
  artifact_url = b.status.artifact_url;
  artifact_file_name = trim_space b.status.artifact_file_name;
  start_time = format_option f b.status.start_time;
  completion_time = format_option f b.status.completion_time;
}

-- The arguments under a key, if it is there.
unfoldable pub read_args : Option String → List String
unfolding fields trim_space
read_args none = []
read_args (some v) = fields (trim_space v)

unfoldable pub stored_args : StringMap → String → List String
unfolding read_args
stored_args m key = read_args (lookup m key)

unfoldable pub is_special : String → Bool
is_special k =
    k == "custom-definitions.env" || k == "aib-extra-args.txt" || k == "aib-override-args.txt"

-- The loop over the entries, in the order in which Go happens to go through the map.
unfoldable pub find_manifest : StringMap → String × String
unfolding is_special
find_manifest [] = ("manifest.aib.yml", "")
find_manifest ((k, v) ∷ m) = if is_special k then find_manifest m else (k, v)

-- The file that one line of the manifest names, if it does.
unfoldable pub source_file : String → Option String
unfolding has_prefix trim_space trim split_once
source_file line =
    let s = trim_space line in
    if has_prefix s "source:" || has_prefix s "source_path:"
    then elim (split_once 58 s) [
      | none ↦ none
      | some parts ↦
          let p = trim is_quote (trim_space parts.1) in
          if not (p == "") && not (has_prefix p "/") && not (has_prefix p "http")
          then some p
          else none
    ]
    else none

unfoldable pub source_files : List String → List String
unfolding source_file
source_files [] = []
source_files (line ∷ lines) = elim (source_file line) [
  | none ↦ source_files lines
  | some p ↦ p ∷ source_files lines
]

unfoldable pub template_of : ImageBuild → StringMap → BuildTemplateResponse
unfolding stored_args find_manifest source_files split
template_of b entries = record {
  request = record {
    name = b.meta.name;
    manifest = (find_manifest entries).1;
    manifest_file_name = (find_manifest entries).0;
    distro = b.spec.distro;
    target = b.spec.target;
    architecture = b.spec.architecture;
    export_format = b.spec.export_format;
    mode = b.spec.mode;
    automotive_image_builder = b.spec.automotive_image_builder;
    storage_class = "";
    custom_defs = [];
    aib_extra_args = stored_args entries "aib-extra-args.txt";
    aib_override_args = stored_args entries "aib-override-args.txt";
    serve_artifact = b.spec.serve_artifact;
    compression = b.spec.compression;
    registry_credentials = none;
  };
  source_files = source_files (split 10 (find_manifest entries).1);
}

module _ (C : ApiClient) where
  open C use {World}

  unfoldable pub list_builds : Exec World Response
  unfolding list_item resolve_namespace get_client
  list_builds = resolve_namespace C >>= λ ns.
      on_error (get_client C) (λ e. fails_with 500 ("k8s client error: " <> error_text e))
        λ _.
          on_error (C.list_builds ns)
            (λ e. fails_with 500 ("error listing builds: " <> error_text e))
            (λ found. answers 200 (builds (map (list_item C.format_time) found)))

  -- The steps with which the handlers of one build start.
  unfoldable pub with_build :
      String → String → (ImageBuild → Exec World Response) → Exec World Response
  unfolding get_client
  with_build ns name k =
      on_error (get_client C) (λ e. fails_with 500 ("k8s client error: " <> error_text e))
        λ _.
          on_error (C.get_build (record { namespace = ns; name = name }))
            (λ e.
              if is_not_found e
              then fails_with 404 "not found"
              else fails_with 500 ("error fetching build: " <> error_text e))
            k

  unfoldable pub get_build : String → Exec World Response
  unfolding with_build build_response resolve_namespace
  get_build name = resolve_namespace C >>= λ ns.
      with_build ns name (λ b. answers 200 (build (build_response C.format_time b)))

  unfoldable pub get_build_template : String → Exec World Response
  unfolding with_build template_of resolve_namespace
  get_build_template name = resolve_namespace C >>= λ ns. with_build ns name λ b.
      on_error (C.get_config_map (record { namespace = ns; name = b.spec.manifest_config_map }))
        (λ e. fails_with 500 ("error fetching manifest config: " <> error_text e))
        (λ cm. answers 200 (template (template_of b cm.data_map)))
