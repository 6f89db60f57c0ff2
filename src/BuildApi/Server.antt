-- ===== src/BuildApi/Server.antt =====
-- What the handlers of internal/buildapi/server.go may assume of the API server, as far as it holds
-- image builds, config maps and secrets.
use automotive_dev_operator.Base.{◌≡◌, ◌⊎◌, Option, some, ok, Exec}
use automotive_dev_operator.Kube.{Key, key_of}
use automotive_dev_operator.ImageBuild.Types.{ImageBuild}
use automotive_dev_operator.BuildApi.Client.{ConfigMap, Secret, ApiClient}

abbrev pub key_of_map : ConfigMap → Key
key_of_map m = record { namespace = m.namespace; name = m.name }

abbrev pub key_of_secret : Secret → Key
key_of_secret s = record { namespace = s.namespace; name = s.name }

-- What the server holds under a key.
pub record Views (W : Type 0) : Type 0 where
  pub build : W → Key → Option ImageBuild
  pub config_map : W → Key → Option ConfigMap
  pub secret : W → Key → Option Secret

module _ {W : Type 0} (V : Views W) where
  pub record KeepsBuilds {A : Type 0} (m : Exec W A) : Type 0 where
    pub at : (w : W) (k : Key) → V.build (m w).1 k ≡ V.build w k

  pub record KeepsMaps {A : Type 0} (m : Exec W A) : Type 0 where
    pub at : (w : W) (k : Key) → V.config_map (m w).1 k ≡ V.config_map w k

  pub record KeepsSecrets {A : Type 0} (m : Exec W A) : Type 0 where
    pub at : (w : W) (k : Key) → V.secret (m w).1 k ≡ V.secret w k

-- The operator's configuration is only read. What is created is held where the call returned, a
-- build with the metadata that the server adds; what is read is what is held; an update leaves the
-- object that was sent, or the one before where it failed. No call changes objects of other kinds.
pub record IsApi (C : ApiClient) (V : Views C.World) : Type 0 where
  pub config-KeepsBuilds : (k : Key) → KeepsBuilds V (C.get_operator_config k)
  pub config-KeepsMaps : (k : Key) → KeepsMaps V (C.get_operator_config k)
  pub config-KeepsSecrets : (k : Key) → KeepsSecrets V (C.get_operator_config k)
  pub map-KeepsBuilds : (k : Key) → KeepsBuilds V (C.get_config_map k)
  pub map-KeepsMaps : (k : Key) → KeepsMaps V (C.get_config_map k)
  pub map-KeepsSecrets : (k : Key) → KeepsSecrets V (C.get_config_map k)
  pub update-KeepsBuilds : (m : ConfigMap) → KeepsBuilds V (C.update_config_map m)
  pub update-KeepsSecrets : (m : ConfigMap) → KeepsSecrets V (C.update_config_map m)
  pub secret-KeepsMaps : (s : Secret) → KeepsMaps V (C.create_secret s)
  pub build-KeepsMaps : (b : ImageBuild) → KeepsMaps V (C.create_build b)
  pub build-KeepsSecrets : (b : ImageBuild) → KeepsSecrets V (C.create_build b)
  pub map_read :
      (w : C.World) (k : Key) (m : ConfigMap)
      → (C.get_config_map k w).0 ≡ ok m
      → (V.config_map w k ≡ some m) × (key_of_map m ≡ k)
  pub map_created :
      (w : C.World) (m : ConfigMap)
      → (C.create_config_map m w).0 ≡ ok tt
      → V.config_map (C.create_config_map m w).1 (key_of_map m) ≡ some m
  pub map_updated :
      (w : C.World) (m : ConfigMap) (k : Key)
      → (V.config_map (C.update_config_map m w).1 k ≡ V.config_map w k)
        ⊎ ((k ≡ key_of_map m) × (V.config_map (C.update_config_map m w).1 k ≡ some m))
  pub secret_created :
      (w : C.World) (s : Secret)
      → (C.create_secret s w).0 ≡ ok tt
      → V.secret (C.create_secret s w).1 (key_of_secret s) ≡ some s
  pub build_created :
      (w : C.World) (b c : ImageBuild)
      → (C.create_build b w).0 ≡ ok c
      → (V.build (C.create_build b w).1 (key_of b.meta) ≡ some c)
        × (c.spec ≡ b.spec)
        × (c.status ≡ b.status)
        × (c.meta.annotations ≡ b.meta.annotations)
        × (c.meta.labels ≡ b.meta.labels)
        × (key_of c.meta ≡ key_of b.meta)
