-- ===== src/Image/Types.antt =====
-- The `Image` resource, api/v1alpha1/image_types.go. An optional pointer is an `Option`, and
-- `metav1.Time` a number of nanoseconds.
use automotive_dev_operator.Base.{ℕ, ℤ, String, StringMap, Option, List}
use automotive_dev_operator.Kube.{ObjectMeta}

pub record ImageSize : Type 0 where
  pub compressed_bytes : Option ℤ
  pub uncompressed_bytes : Option ℤ
  pub virtual_bytes : Option ℤ

pub record RegistryLocation : Type 0 where
  pub url : String
  pub digest : String
  pub secret_ref : String

pub record ImageLocation : Type 0 where
  pub type : String
  pub registry : Option RegistryLocation

pub record ImageMetadata : Type 0 where
  pub created_by : String
  pub source_image_build : String
  pub build_date : Option ℕ
  pub labels : StringMap
  pub annotations : StringMap

pub record ImageSpec : Type 0 where
  pub distro : String
  pub target : String
  pub architecture : String
  pub export_format : String
  pub mode : String
  pub size : Option ImageSize
  pub location : ImageLocation
  pub metadata : Option ImageMetadata
  pub tags : List String
  pub description : String
  pub version : String

-- The fields of `metav1.Condition` that the controller sets.
pub record Condition : Type 0 where
  pub type : String
  pub status : String
  pub reason : String
  pub message : String
  pub last_transition_time : ℕ

pub record ImageStatus : Type 0 where
  pub phase : String
  pub last_verified : Option ℕ
  pub message : String
  pub conditions : List Condition
  pub access_count : ℤ
  pub last_accessed : Option ℕ

pub record Image : Type 0 where
  pub meta : ObjectMeta
  pub spec : ImageSpec
  pub status : ImageStatus
