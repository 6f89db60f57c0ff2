-- ===== src/BuildApi/Files.antt =====
-- The files that the handlers of artifacts in internal/buildapi/server.go name and describe.
use automotive_dev_operator.Base.{
  ℕ, String, ◌<>◌, StringMap, Bool, not, ◌&&◌, ◌||◌, Option, none, some, List, [], ◌∷◌, ◌==◌,
  contains, if◌then◌else◌,
}
use automotive_dev_operator.Text.Chars.{
  has_prefix, has_suffix, contains_text, has_suffix_lower, contains_lower,
}
use automotive_dev_operator.Text.Trim.{trim_space, trim_suffix}
use automotive_dev_operator.Text.Split.{split_once}
use automotive_dev_operator.Text.Paths.{ext}
use automotive_dev_operator.ImageBuild.Types.{ImageBuild}
use automotive_dev_operator.BuildApi.Types.{FileHeaders}
use automotive_dev_operator.BuildApi.Client.{ListedPod}

unfoldable pub format_extension : String → String
format_extension format =
    if format == "image" then ".raw" else if format == "qcow2" then ".qcow2" else "." <> format

-- The name in the status, or the default where that is blank.
unfoldable pub artifact_file_name : ImageBuild → String
unfolding trim_space format_extension
artifact_file_name b =
    let name = trim_space b.status.artifact_file_name in
    if name == ""
    then b.spec.distro <> ("-" <> (b.spec.target <> format_extension b.spec.export_format))
    else name

unfoldable pub compression_extension : String → String
compression_extension c = if c == "gzip" then ".gz" else if c == "lz4" then ".lz4" else ""

unfoldable pub with_compression : String → String → String
unfolding compression_extension has_suffix
with_compression c name =
    let e = compression_extension c in
    if not (e == "") && not (has_suffix name e) then name <> e else name

unfoldable pub content_type_of : String → String
unfolding has_suffix_lower contains_lower
content_type_of name =
    if has_suffix_lower name ".lz4"
    then "application/x-lz4"
    else if contains_lower name ".tar."
    then (if has_suffix_lower name ".gz" then "application/gzip" else "application/x-lz4")
    else if has_suffix_lower name ".gz"
    then "application/gzip"
    else "application/octet-stream"

unfoldable pub is_bad_name : String → Bool
unfolding contains_text trim_space
is_bad_name name = contains_text name "/" || contains_text name ".." || trim_space name == ""

-- Whether a file of this name may be fetched, where the artifact has the other name.
unfoldable pub is_allowed : String → String → Bool
unfolding has_suffix contains_text has_prefix trim_suffix ext
is_allowed expected name =
    name == expected
    || ((has_suffix name ".gz" || has_suffix name ".lz4")
        && (contains_text name ".tar." || has_prefix name (trim_suffix expected (ext expected))))

abbrev is_ready : ListedPod → Bool
is_ready p = p.phase == "Running" && contains p.ready "fileserver"

unfoldable pub first_ready : List ListedPod → Option ListedPod
first_ready [] = none
first_ready (p ∷ ps) = if is_ready p then some p else first_ready ps

abbrev pub artifact_labels : String → StringMap
artifact_labels name =
    ("app.kubernetes.io/name", "artifact-pod")
    ∷ ("automotive.sdv.cloud.redhat.com/imagebuild-name", name)
    ∷ []

-- The lines `name:size` of the listing.
unfoldable pub listed_items : List String → List (String × String)
unfolding split_once trim_space
listed_items [] = []
listed_items (line ∷ lines) = elim (split_once 58 (trim_space line)) [
  | none ↦ listed_items lines
  | some p ↦ (p.0, trim_space p.1) ∷ listed_items lines
]

unfoldable pub list_command : String → List String
list_command directory =
    "sh"
    ∷ "-c"
    ∷ ("set -e; dir=\""
        <> (directory
            <> "\"; if [ ! -d \"$dir\" ]; then echo MISSING; exit 0; fi; for f in \"$dir\"/*; do [ -f \"$f\" ] || continue; n=$(basename \"$f\"); s=$(wc -c < \"$f\"); printf '%s:%s\\n' \"$n\" \"$s\"; done"))
    ∷ []

-- The command that prints the size of a file, which stands between quotes of one kind.
unfoldable pub size_command : String → String → List String
size_command quote path =
    "sh"
    ∷ "-c"
    ∷ ("if [ -f "
        <> (quote
            <> (path
                <> (quote
                    <> (" ]; then wc -c < "
                        <> (quote <> (path <> (quote <> "; else echo MISSING; fi"))))))))
    ∷ []

abbrev pub is_missing : String → Bool
is_missing text = text == "" || text == "MISSING"

-- The headers of the default artifact, and of a file by its name, before its size is known.
unfoldable pub default_headers : ImageBuild → FileHeaders
unfolding with_compression artifact_file_name content_type_of contains_text
default_headers b =
    let name = with_compression b.spec.compression (artifact_file_name b) in
    record {
      file_name = name;
      size = "";
      content_type = content_type_of name;
      artifact_type = if contains_text name ".tar" then "directory" else "file";
      compression = b.spec.compression;
    }

unfoldable pub named_headers : String → FileHeaders
unfolding content_type_of
named_headers name = record {
  file_name = name;
  size = "";
  content_type = content_type_of name;
  artifact_type = "";
  compression = "";
}

-- Rounds of the wait for the pod; 62 are enough, since each but the last takes two seconds.
abbrev pub wait_rounds : ℕ
wait_rounds = 62
