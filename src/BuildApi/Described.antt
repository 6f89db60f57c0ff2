-- ===== src/BuildApi/Described.antt =====
-- The secret and the build that `createBuild` of internal/buildapi/server.go is to make of a request, by
-- their fields, and that it makes these.
use automotive_dev_operator.Base.{
  ap, ℤ, pos, negsuc, ℕ, zero, suc, if◌then◌else◌, String, ◌<>◌, [], ◌∷◌, lookup, lookup-put, ◌==◌,
  ◌||◌, ◌⊎◌, eq_iff, Bool-cases, ◌≡◌, refl, inl, inr, Option, none, some, StringMap, ok,
}
use automotive_dev_operator.Text.Chars.{contains_text}
use automotive_dev_operator.OperatorConfig.Types.{OperatorConfig, OsBuildsConfig}
use automotive_dev_operator.ImageBuild.Types.{ImageBuild}
use automotive_dev_operator.BuildApi.Types.{RegistryCredentials, BuildRequest}
use automotive_dev_operator.BuildApi.Objects.{
  image_build, secret_data, is_positive, configured_hours,
}

-- The entries of the secret for credentials, by the type of authentication.
pub data IsSecretOf (o : Option RegistryCredentials) (m : StringMap) : Type 0 where
  with_password :
      (c : RegistryCredentials)
      → o ≡ some c
      → c.auth_type ≡ "username-password"
      → m
        ≡ ("REGISTRY_URL", c.registry_url)
          ∷ ("REGISTRY_USERNAME", c.username)
          ∷ ("REGISTRY_PASSWORD", c.password)
          ∷ []
      → IsSecretOf o m
  with_token :
      (c : RegistryCredentials)
      → o ≡ some c
      → c.auth_type ≡ "token"
      → m ≡ ("REGISTRY_URL", c.registry_url) ∷ ("REGISTRY_TOKEN", c.token) ∷ []
      → IsSecretOf o m
  with_file :
      (c : RegistryCredentials)
      → o ≡ some c
      → c.auth_type ≡ "docker-config"
      → m ≡ ("REGISTRY_AUTH_FILE_CONTENT", c.docker_config) ∷ []
      → IsSecretOf o m

-- The build as a client may expect it: the fields of the request, the names of config map and secret,
-- the labels, and who asked for it.
pub record IsBuildOf (q : BuildRequest) (by : String) (hours : ℤ) (secret : String) (b : ImageBuild)
    : Type 0 where
  pub spec : b.spec ≡ record {
    distro = q.distro;
    target = q.target;
    architecture = q.architecture;
    export_format = q.export_format;
    mode = q.mode;
    storage_class = q.storage_class;
    automotive_image_builder = q.automotive_image_builder;
    manifest_config_map = q.name <> "-manifest";
    publishers = none;
    runtime_class_name = "";
    serve_artifact = q.serve_artifact;
    serve_expiry_hours = hours;
    input_files_server = contains_text q.manifest "source_path";
    expose_route = q.serve_artifact;
    env_secret_ref = secret;
    compression = q.compression;
  }
  pub distro : lookup b.meta.labels "automotive.sdv.cloud.redhat.com/distro" ≡ some q.distro
  pub target : lookup b.meta.labels "automotive.sdv.cloud.redhat.com/target" ≡ some q.target
  pub architecture :
      lookup b.meta.labels "automotive.sdv.cloud.redhat.com/architecture" ≡ some q.architecture
  pub requester : b.meta.annotations ≡ ("automotive.sdv.cloud.redhat.com/requested-by", by) ∷ []
  pub phase : b.status.phase ≡ ""

-- A positive number of hours in the operator's configuration.
abbrev pub Configures : OperatorConfig → ℤ → Type 0
Configures cfg hours =
    (o : OsBuildsConfig) × (n : ℕ) × (cfg.spec.os_builds ≡ some o)
    × (o.serve_expiry_hours ≡ pos (suc n))
    × (hours ≡ pos (suc n))

hours_cases :
    (cfg : OperatorConfig) (o : OsBuildsConfig) (z : ℤ)
    → cfg.spec.os_builds ≡ some o
    → o.serve_expiry_hours ≡ z
    → let h = if is_positive z then z else pos 24 in (h ≡ pos 24) ⊎ Configures cfg h
hours_cases cfg o (pos zero) e f = inl refl
hours_cases cfg o (pos (suc n)) e f = inr (o, n, e, f, refl)
hours_cases cfg o (negsuc n) e f = inl refl

configured_cases :
    (cfg : OperatorConfig) (os : Option OsBuildsConfig)
    → cfg.spec.os_builds ≡ os
    → let h : ℤ = elim os [
      | none ↦ pos 24
      | some o ↦ if is_positive o.serve_expiry_hours then o.serve_expiry_hours else pos 24
    ] in
      (h ≡ pos 24) ⊎ Configures cfg h
configured_cases cfg none e = inl refl
configured_cases cfg (some o) e = hours_cases cfg o o.serve_expiry_hours e refl

pub configured_hours_cases :
    (cfg : OperatorConfig) → (configured_hours cfg ≡ pos 24) ⊎ Configures cfg (configured_hours cfg)
unfolding configured_hours
configured_hours_cases cfg = configured_cases cfg cfg.spec.os_builds refl

-- What the server makes of the build that is sent to it is the build of the request.
pub sent-IsBuildOf :
    (ns by secret : String) (hours : ℤ) (q : BuildRequest) (c : ImageBuild)
    → let b = image_build ns by hours secret q in
      c.spec ≡ b.spec
      → c.status ≡ b.status
      → c.meta.annotations ≡ b.meta.annotations
      → c.meta.labels ≡ b.meta.labels
      → IsBuildOf q by hours secret c
unfolding image_build
sent-IsBuildOf ns by secret hours q c spec status annotations labels = record {
  spec = spec;
  distro = rw labels (simp (lookup-put));
  target = rw labels (simp (lookup-put));
  architecture = rw labels (simp (lookup-put));
  requester = annotations;
  phase = ap (λ s. s.phase) status;
}

ok_same : (x y : StringMap) → ok x ≡ ok y → y ≡ x
ok_same x y h = cc

-- What `createRegistrySecret` makes of credentials that it takes.
pub secret_data-IsSecretOf :
    (o : Option RegistryCredentials) (c : RegistryCredentials) (m : StringMap)
    → o ≡ some c
    → secret_data c ≡ ok m
    → IsSecretOf o m
unfolding secret_data
secret_data-IsSecretOf o c m e h = elim (Bool-cases (c.auth_type == "username-password")) [
  | inl p ↦ elim (Bool-cases (c.registry_url == "" || c.username == "" || c.password == "")) [
    | inl x ↦ cc (rw (p, x) at h)
    | inr x ↦
        with_password c e ((eq_iff c.auth_type "username-password").0 p)
          (ok_same _ _ (rw (p, x) at h))
  ]
  | inr p ↦ elim (Bool-cases (c.auth_type == "token")) [
    | inl t ↦ elim (Bool-cases (c.registry_url == "" || c.token == "")) [
      | inl x ↦ cc (rw (p, t, x) at h)
      | inr x ↦ with_token c e ((eq_iff c.auth_type "token").0 t) (ok_same _ _ (rw (p, t, x) at h))
    ]
    | inr t ↦ elim (Bool-cases (c.auth_type == "docker-config")) [
      | inl d ↦ elim (Bool-cases (c.docker_config == "")) [
        | inl x ↦ cc (rw (p, t, d, x) at h)
        | inr x ↦
            with_file c e ((eq_iff c.auth_type "docker-config").0 d)
              (ok_same _ _ (rw (p, t, d, x) at h))
      ]
      | inr d ↦ cc (rw (p, t, d) at h)
    ]
  ]
]
