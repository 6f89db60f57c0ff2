-- ===== src/BuildApi/Types.antt =====
-- The requests and the responses of the build API, internal/buildapi/types.go. The named text
-- types, such as `Distro`, are texts.
use automotive_dev_operator.Base.{
  ℕ, String, ◌<>◌, Bool, not, Option, List, ◌==◌, if◌then◌else◌, Result, ok, err, message,
}
use automotive_dev_operator.Text.Trim.{trim_space}

-- `IsValid` of each of the five text types.
unfoldable pub is_valid : String → Bool
unfolding trim_space
is_valid s = not (trim_space s == "")

-- `ParseDistro` and the four functions like it, which differ in the word of their message.
unfoldable pub parse_value : String → String → Result String
unfolding is_valid
parse_value word s = if is_valid s then ok s else err (message (word <> " cannot be empty"))

unfoldable pub parse_distro : String → Result String
unfolding parse_value
parse_distro s = parse_value "distro" s

unfoldable pub parse_target : String → Result String
unfolding parse_value
parse_target s = parse_value "target" s

unfoldable pub parse_architecture : String → Result String
unfolding parse_value
parse_architecture s = parse_value "architecture" s

unfoldable pub parse_export_format : String → Result String
unfolding parse_value
parse_export_format s = parse_value "exportFormat" s

unfoldable pub parse_mode : String → Result String
unfolding parse_value
parse_mode s = parse_value "mode" s

pub record RegistryCredentials : Type 0 where
  pub enabled : Bool
  pub auth_type : String
  pub registry_url : String
  pub username : String
  pub password : String
  pub token : String
  pub docker_config : String

pub record BuildRequest : Type 0 where
  pub name : String
  pub manifest : String
  pub manifest_file_name : String
  pub distro : String
  pub target : String
  pub architecture : String
  pub export_format : String
  pub mode : String
  pub automotive_image_builder : String
  pub storage_class : String
  pub custom_defs : List String
  pub aib_extra_args : List String
  pub aib_override_args : List String
  pub serve_artifact : Bool
  pub compression : String
  pub registry_credentials : Option RegistryCredentials

pub record BuildResponse : Type 0 where
  pub name : String
  pub phase : String
  pub message : String
  pub requested_by : String
  pub artifact_url : String
  pub artifact_file_name : String
  pub start_time : String
  pub completion_time : String

pub record BuildListItem : Type 0 where
  pub name : String
  pub phase : String
  pub message : String
  pub requested_by : String
  pub created_at : String
  pub start_time : String
  pub completion_time : String

pub record BuildTemplateResponse : Type 0 where
  pub request : BuildRequest
  pub source_files : List String

-- The headers of a file that is sent in pieces: its name, the size that the pod gave, the content
-- type, the type of artifact, and the compression.
pub record FileHeaders : Type 0 where
  pub file_name : String
  pub size : String
  pub content_type : String
  pub artifact_type : String
  pub compression : String

-- What a handler writes: the JSON of an error, of a build and so on, or a file of a pod. With
-- `cut_off` the headers of a file are followed by the JSON of an error.
pub data Body : Type 0 where
  failure : String → Body
  build : BuildResponse → Body
  builds : List BuildListItem → Body
  template : BuildTemplateResponse → Body
  uploaded : Body
  items : List (String × String) → Body
  plain : String → Body
  moved : Body
  file : FileHeaders → String → Body
  cut_off : FileHeaders → String → Body

pub record Response : Type 0 where
  pub status : ℕ
  pub body : Body

-- A part of a form: its name, the name of its file, and its content, whose reading may fail.
pub record Part : Type 0 where
  pub form_name : String
  pub file_name : String
  pub content : Result String

-- What the handlers read of a request besides its path: two headers, and the body as JSON or as the
-- parts of a form, where decoding may fail. A request without a form has no parts to read.
pub record Request : Type 0 where
  pub authorization : String
  pub forwarded_access_token : String
  pub json : Result BuildRequest
  pub form : Result (List (Result Part))
