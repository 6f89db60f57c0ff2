-- ===== src/Tests/Api.antt =====
-- The theorems on the build API at concrete requests.
use automotive_dev_operator.Base.{
  pos, String, ◌≡◌, ◌<>◌, ◌↔◌, Preserves, refl, ◌⊎◌, true, false, some, List, [], ◌∷◌, Result, ok,
  err, message,
}
use automotive_dev_operator.Text.Split.{split, all_but_last}
use automotive_dev_operator.Text.Splitting.{has_code}
use automotive_dev_operator.Text.Trim.{trim_space}
use automotive_dev_operator.Text.Words.{AreWords}
use automotive_dev_operator.Text.Chars.{is_space}
use automotive_dev_operator.Text.Fields.{starts_word}
use automotive_dev_operator.ImageBuild.Types.{ImageBuild}
use automotive_dev_operator.ImageBuild.Controller.{uploads_complete}
use automotive_dev_operator.ImageBuild.Outcome.{build_rounds}
use automotive_dev_operator.Kube.{key_of}
use automotive_dev_operator.Text.Chars.{contains_text}
use automotive_dev_operator.ImageBuild.Pods.{upload_pod, artifact_pod}
use automotive_dev_operator.BuildApi.Types.{BuildRequest, Request, Response, Part}
use automotive_dev_operator.BuildApi.Client.{Place, is_authenticated}
use automotive_dev_operator.BuildApi.Objects.{image_build, manifest_data}
use automotive_dev_operator.BuildApi.Create.{create_build}
use automotive_dev_operator.BuildApi.Queries.{is_special, template_of}
use automotive_dev_operator.BuildApi.Uploads.{
  upload_labels, with_uploads_complete, mark_complete, upload_files, copy_file_to_pod, store_parts,
}
use automotive_dev_operator.Text.Paths.{base, dir}
use automotive_dev_operator.BuildApi.Files.{
  artifact_labels, is_allowed, is_bad_name, default_headers,
}
use automotive_dev_operator.BuildApi.Artifacts.{
  list_artifacts, stream_artifact_part, stream_default_artifact, stream_artifact_by_filename,
}
use automotive_dev_operator.BuildApi.Sse.{without_blank, sent_lines}
use automotive_dev_operator.BuildApi.Lines.{joined, sent_lines_whole}
use automotive_dev_operator.BuildApi.Router.{serve}
use automotive_dev_operator.BuildApi.Auth.{IsPublic, IsRefusal, serve_unauthenticated}
use automotive_dev_operator.BuildApi.Requests.{is_acceptable, Judged, create_build-Judged}
use automotive_dev_operator.BuildApi.Template.{recoverable, template_of-recoverable}
use automotive_dev_operator.BuildApi.Waiting.{IsAnswer}
use automotive_dev_operator.BuildApi.Answering.{artifacts-IsAnswer}
use automotive_dev_operator.BuildApi.Complete.{IsTakenForm, upload_files-IsTakenForm}
use automotive_dev_operator.BuildApi.Inside.{IsInside, KeptInside, store_parts-Preserves}
use automotive_dev_operator.BuildApi.Handover.{Selects, pods_selected, created_build_waits}
use automotive_dev_operator.BuildApi.Names.{default_name_allowed}
use automotive_dev_operator.Tests.BuildServer.{one_build, build_stored, one_build-IsServer}
use automotive_dev_operator.Tests.ApiServer.{
  Cluster, empty_cluster, cluster_client, cluster-HasClock,
}

-- A request for a build with one source file, two arguments and a token for a registry.
abbrev car : BuildRequest
car = record {
  name = "car";
  manifest = "name: car\nsource_path: app.bin\n";
  manifest_file_name = "";
  distro = "";
  target = "";
  architecture = "";
  export_format = "";
  mode = "";
  automotive_image_builder = "";
  storage_class = "fast";
  custom_defs = "a=1" ∷ [];
  aib_extra_args = "--fast" ∷ "-v" ∷ [];
  aib_override_args = [];
  serve_artifact = true;
  compression = "";
  registry_credentials = some (record {
    enabled = true;
    auth_type = "token";
    registry_url = "quay.io";
    username = "";
    password = "";
    token = "secret";
    docker_config = "";
  });
}

abbrev with_token : String → Result BuildRequest → Request
with_token token body = record {
  authorization = token;
  forwarded_access_token = "";
  json = body;
  form = err (message "no form");
}

abbrev post_car : Request
post_car = with_token "Bearer good" (ok car)

abbrev full_car : BuildRequest
full_car = record car {
  distro = "cs9";
  target = "qemu";
  architecture = "arm64";
  export_format = "image";
  mode = "image";
  compression = "gzip";
  automotive_image_builder = "quay.io/centos-sig-automotive/automotive-image-builder:1.0.0";
  manifest_file_name = "manifest.aib.yml";
}

is_denied :
    is_authenticated cluster_client (with_token "Bearer bad" (ok car)) empty_cluster
    ≡ (ok false, empty_cluster)
unfolding is_authenticated
is_denied = refl

serve_unauthenticated_example :
    IsPublic "POST" ("v1" ∷ "builds" ∷ [])
    ⊎ IsRefusal cluster_client (with_token "Bearer bad" (ok car)) "POST" empty_cluster (
        serve cluster_client 1
          (with_token "Bearer bad" (ok car))
          "POST"
          ("v1" ∷ "builds" ∷ [])
          empty_cluster)
serve_unauthenticated_example =
    serve_unauthenticated cluster_client 1 (with_token "Bearer bad" (ok car)) "POST"
      ("v1" ∷ "builds" ∷ []) empty_cluster (λ i. (is_denied i).0)

abbrev log_chunks : List String
log_chunks = "one\ntw" ∷ "o\n\n" ∷ "three\nfo" ∷ []

line_ends :
    (has_code 10 "one\ntw" ≡ true) × (has_code 10 "o\n\n" ≡ true) × (has_code 10 "three\nfo" ≡ true)
unfolding has_code
line_ends = (refl, refl, refl)

sent_lines_whole_example :
    sent_lines "" log_chunks ≡ without_blank (all_but_last (split 10 (joined log_chunks)))
sent_lines_whole_example =
    sent_lines_whole log_chunks (line_ends.0, (line_ends.1, (line_ends.2, tt)))

abbrev log_texts : List String
log_texts = "one" ∷ "two\nthree" ∷ []

create_build-Judged_example :
    Judged cluster_client
      (is_acceptable car)
      empty_cluster
      (create_build cluster_client post_car empty_cluster)
create_build-Judged_example = create_build-Judged cluster_client post_car car empty_cluster refl

abbrev car_build : ImageBuild
car_build = image_build "builds" "jo" (pos 24) "car-registry-auth" full_car

plain_name : is_special full_car.manifest_file_name ≡ false
unfolding is_special
plain_name = refl

word_args : AreWords full_car.aib_extra_args
unfolding starts_word is_space
word_args =
    ((refl, (refl, (refl, (refl, (refl, (refl, (refl, tt))))))), ((refl, (refl, (refl, tt))), tt))

build_named : car_build.meta.name ≡ "car"
unfolding image_build
build_named = refl

template_of-recoverable_example :
    (template_of car_build (manifest_data full_car)).request ≡ recoverable full_car
template_of-recoverable_example =
    template_of-recoverable full_car car_build (manifest_data full_car) "builds" "jo"
      "car-registry-auth" (pos 24) plain_name tt word_args build_named refl (λ k. refl)

artifacts-IsAnswer_example :
    IsAnswer (list_artifacts cluster_client "car" empty_cluster).0
    × IsAnswer (stream_artifact_part cluster_client "car" "a.gz" empty_cluster).0
    × IsAnswer (stream_default_artifact cluster_client "car" empty_cluster).0
    × IsAnswer (stream_artifact_by_filename cluster_client "car" "a.gz" empty_cluster).0
artifacts-IsAnswer_example =
    artifacts-IsAnswer cluster_client cluster-HasClock "car" "a.gz" empty_cluster

abbrev upload_place : Place
upload_place = record { namespace = "builds"; pod = "car-upload-pod"; container = "fileserver" }

abbrev escaping_part : Part
escaping_part = record { form_name = "file"; file_name = "a/../../b"; content = ok "x" }

abbrev plain_part : Part
plain_part = record { form_name = "file"; file_name = "etc/a.conf"; content = ok "x" }

-- The archive was sent for a path inside the shared directory.
abbrev SentInside : List (List String × String) → Type 0
SentInside [] = Unit {0}
SentInside ((command, name) ∷ more) =
    ((path : String) × IsInside path
      × (name ≡ base path)
      × (command
          ≡ "/bin/sh" ∷ "-c" ∷ ("mkdir -p " <> (dir path <> (" && tar -x -C " <> dir path))) ∷ []))
    × SentInside more

cluster-KeptInside : KeptInside cluster_client (λ w. SentInside w.archives) tt upload_place
unfolding copy_file_to_pod
cluster-KeptInside = record {
  create_temp = record { at = λ w i. i };
  receive = λ tmp content. record { at = λ w i. i };
  remove_file = λ tmp. record { at = λ w i. i };
  copy = λ tmp path inside. record { at = λ w i. ((path, inside, refl, refl), i) };
}

store_parts-Preserves_example :
    Preserves
      (λ w. SentInside w.archives)
      (store_parts cluster_client tt upload_place
        (ok plain_part ∷ ok escaping_part ∷ [])
        (mark_complete cluster_client car_build))
unfolding mark_complete
store_parts-Preserves_example =
    store_parts-Preserves cluster_client (λ w. SentInside w.archives) tt upload_place
      cluster-KeptInside (ok plain_part ∷ ok escaping_part ∷ [])
      (mark_complete cluster_client car_build) (record { at = λ w i. i })

-- A cluster with the build, and a form with its source file.
abbrev cluster_with_car : Cluster
cluster_with_car = record empty_cluster { builds = λ k. some car_build }

abbrev post_file : Request
post_file = record post_car {
  form = ok (ok (record { form_name = "file"; file_name = "app.bin"; content = ok "x" }) ∷ []);
}

file_taken :
    (response : Response) × ((upload_files cluster_client "car" post_file cluster_with_car).0
      ≡ ok response)
    × (response.status ≡ 200)
unfolding upload_files
file_taken = (_, refl, refl)

upload_files-IsTakenForm_example : IsTakenForm post_file.form
upload_files-IsTakenForm_example =
    upload_files-IsTakenForm cluster_client "car" post_file cluster_with_car file_taken.0
      file_taken.1 file_taken.2

pods_selected_example :
    (Selects (upload_labels "van") (upload_pod car_build).labels ↔ ("van" ≡ car_build.meta.name))
    × (Selects (artifact_labels "van") (artifact_pod car_build "nginx").labels
        ↔ ("van" ≡ car_build.meta.name))
    × ¬ Selects (upload_labels "van") (artifact_pod car_build "nginx").labels
    × ¬ Selects (artifact_labels "van") (upload_pod car_build).labels
pods_selected_example = pods_selected "van" car_build "nginx"

names_source : contains_text full_car.manifest "source_path" ≡ true
unfolding contains_text
names_source = refl

car_build_new :
    (car_build.spec ≡ (image_build "builds" "jo" (pos 24) "car-registry-auth" full_car).spec)
    × (car_build.status.phase ≡ "")
unfolding image_build
car_build_new = (refl, refl)

car_stored : build_stored car_build (key_of car_build.meta) ≡ some car_build
unfolding image_build
car_stored = refl

created_build_waits_example :
    (new : ImageBuild) × (build_stored
        (build_rounds one_build 3 (key_of car_build.meta) car_build)
        (key_of car_build.meta)
      ≡ some new)
    × ((new.status.phase ≡ "") ⊎ (new.status.phase ≡ "Uploading"))
    × (uploads_complete new ≡ false)
    × (uploads_complete (with_uploads_complete new) ≡ true)
created_build_waits_example =
    created_build_waits one_build build_stored one_build-IsServer "builds" "jo" "car-registry-auth"
      (pos 24) full_car (key_of car_build.meta) car_build car_build names_source car_build_new.0
      refl car_build_new.1 car_stored 3

-- The build at its end, with a file name in its status.
abbrev named_build : ImageBuild
named_build = record car_build {
  status = record car_build.status { artifact_file_name = "cs9-qemu.raw" };
}

trimmed : trim_space "cs9-qemu.raw" ≡ "cs9-qemu.raw"
unfolding trim_space
trimmed = refl

allowed_characters :
    (contains_text (default_headers named_build).file_name "/" ≡ false)
    × (contains_text (default_headers named_build).file_name ".." ≡ false)
unfolding default_headers contains_text image_build
allowed_characters = (refl, refl)

default_name_allowed_example :
    (is_bad_name (default_headers named_build).file_name ≡ false)
    × (is_allowed
          (trim_space named_build.status.artifact_file_name)
          (default_headers named_build).file_name
        ≡ true)
default_name_allowed_example =
    default_name_allowed named_build trimmed refl allowed_characters.0 allowed_characters.1
