-- ===== src/BuildApi/Stored.antt =====
-- What `createBuild` of internal/buildapi/server.go makes, as it is held by the server, and what its
-- owner references leave of it.
use mathlib.Core.Option.{some-injective}
use automotive_dev_operator.Base.{
  ap, Preserves, Preserves-bind, ℤ, pos, String, ◌⊎◌, ◌≡◌, refl, sym, ◌∙◌, inl, inr, Bool, true,
  false, Option, none, some, StringMap, Result, ok, err, Exec, raise, Triple-on_error,
}
use automotive_dev_operator.Kube.{Key}
use automotive_dev_operator.OperatorConfig.Types.{OperatorConfig}
use automotive_dev_operator.ImageBuild.Types.{ImageBuild}
use automotive_dev_operator.BuildApi.Types.{RegistryCredentials, BuildRequest}
use automotive_dev_operator.BuildApi.Client.{ConfigMap, Secret, ApiClient}
use automotive_dev_operator.BuildApi.Server.{key_of_map, Views, KeepsMaps, IsApi}
use automotive_dev_operator.BuildApi.Objects.{
  manifest_name, manifest_data, secret_name, asks_for_secret, controller_ref,
}
use automotive_dev_operator.BuildApi.Create.{set_owner_ref}
use automotive_dev_operator.BuildApi.Described.{IsSecretOf, IsBuildOf, Configures}

module _ {W : Type 0} (V : Views W) where
  -- The config map with these entries is held.
  abbrev pub HoldsData : Key → StringMap → W → Type 0
  HoldsData k entries w = (m : ConfigMap) × (V.config_map w k ≡ some m) × (m.data_map ≡ entries)

  -- The secret for the credentials is held, and nothing owns it.
  abbrev pub HoldsSecret : Key → Option RegistryCredentials → W → Type 0
  HoldsSecret k c w =
      (s : Secret) × (V.secret w k ≡ some s) × (s.owner ≡ none) × IsSecretOf c s.data_map

  abbrev pub HoldsBuild : Key → (ImageBuild → Type 0) → W → Type 0
  HoldsBuild k P w = (b : ImageBuild) × (V.build w k ≡ some b) × P b

abbrev pub build_key : String → BuildRequest → Key
build_key ns q = record { namespace = ns; name = q.name }

abbrev pub manifest_key : String → BuildRequest → Key
manifest_key ns q = record { namespace = ns; name = manifest_name q }

abbrev pub secret_key : String → BuildRequest → Key
secret_key ns q = record { namespace = ns; name = secret_name q.name }

module _ {W : Type 0} (V : Views W) (ns : String) (q : BuildRequest) where
  -- The secret that the build names: the one for the credentials, where the request asks for it.
  abbrev pub NamesSecret : String → Bool → W → Type 0
  NamesSecret secret true w =
      (secret ≡ secret_name q.name) × HoldsSecret V (secret_key ns q) q.registry_credentials w
  NamesSecret secret false w = secret ≡ ""

  abbrev pub HasManifest : W → Type 0
  HasManifest = HoldsData V (manifest_key ns q) (manifest_data q)

  abbrev pub HasInputs : String → W → Type 0
  HasInputs secret w = HasManifest w × NamesSecret secret (asks_for_secret q) w

  -- Build, config map and secret are held, and the build is as the request says, for hours of which
  -- something is known.
  abbrev pub IsStored : String → (ℤ → Type 0) → W → Type 0
  IsStored by Hours w =
      (hours : ℤ) × (secret : String) × (Hours hours
        × (HoldsBuild V (build_key ns q) (IsBuildOf q by hours secret) w × HasInputs secret w))

module _ (C : ApiClient) (V : Views C.World) (L : IsApi C V) where
  open C use {World}

  -- The hours are those of an answer about the operator's configuration, or 24.
  abbrev pub IsExpiry : String → ℤ → Type 0
  IsExpiry ns hours =
      (hours ≡ pos 24)
      ⊎ ((v : World) × (cfg : OperatorConfig) × ((C.get_operator_config
              (record { namespace = ns; name = "config" }) v).0
            ≡ ok cfg)
          × Configures cfg hours)

  abbrev owned_by : ImageBuild → ConfigMap → ConfigMap
  owned_by b m = record m { owner = some (controller_ref b) }

  -- After a read: the entries are held, and so is the config map that was read.
  abbrev ReadOrNot : Key → StringMap → Result ConfigMap → World → Type 0
  ReadOrNot k entries (ok m) w = HoldsData V k entries w × (V.config_map w (key_of_map m) ≡ some m)
  ReadOrNot k entries (err e) w = HoldsData V k entries w

  update_keeps_data :
      (k : Key) (entries : StringMap) (m : ConfigMap) (b : ImageBuild) (w : World)
      → HoldsData V k entries w
      → V.config_map w (key_of_map m) ≡ some m
      → HoldsData V k entries (C.update_config_map (owned_by b m) w).1
  update_keeps_data k entries m b w (held, is_held, same) read =
      elim (L.map_updated w (owned_by b m) k) [
        | inl e ↦ (held, e ∙ is_held, same)
        | inr (key, e) ↦
            let held_read =
              some-injective m held (sym read ∙ (ap (V.config_map w) (sym key) ∙ is_held)) in
            (owned_by b m, e, ap (λ x. x.data_map) held_read ∙ same)
      ]

  pub keeps_data :
      {A : Type 0} (k : Key) (entries : StringMap) (m : Exec World A)
      → KeepsMaps V m
      → Preserves (HoldsData V k entries) m
  keeps_data k entries m keeps = record { at = λ w (h, e, d). (h, keeps.at w k ∙ e, d) }

  read_data :
      (k key : Key) (entries : StringMap) (w : World) (r : Result ConfigMap)
      → (C.get_config_map key w).0 ≡ r
      → HoldsData V k entries (C.get_config_map key w).1
      → ReadOrNot k entries r (C.get_config_map key w).1
  read_data k key entries w (err e) h p = p
  read_data k key entries w (ok m) h p =
      let (held, same_key) = L.map_read w key m h in
      (p, (L.map-KeepsMaps key).at w (key_of_map m) ∙ (ap (V.config_map w) same_key ∙ held))

  pub owner_ref_data :
      (k : Key) (entries : StringMap) (ns name : String) (b : ImageBuild)
      → Preserves (HoldsData V k entries) (set_owner_ref C ns name b)
  unfolding set_owner_ref
  owner_ref_data k entries ns name b =
      let key : Key = record { namespace = ns; name = name } in
      let t =
        Triple-on_error (HoldsData V k entries) (C.get_config_map key) raise
          (λ m. C.update_config_map (owned_by b m)) (ReadOrNot k entries)
          (λ r w. HoldsData V k entries w)
          (record {
            at = λ w p.
                read_data k key entries w _ refl
                  ((keeps_data k entries (C.get_config_map key) (L.map-KeepsMaps key)).at w p);
          })
          (λ e. record { at = λ w p. p })
          (λ m. record { at = λ w (p, read). update_keeps_data k entries m b w p read }) in
      record { at = t.at }

  pub owner_ref_build :
      (k : Key) (held : Option ImageBuild) (ns name : String) (b : ImageBuild)
      → Preserves (λ w. V.build w k ≡ held) (set_owner_ref C ns name b)
  unfolding set_owner_ref
  owner_ref_build k held ns name b =
      let key : Key = record { namespace = ns; name = name } in
      Preserves-bind (C.get_config_map key) _
        (record { at = λ w e. (L.map-KeepsBuilds key).at w k ∙ e })
        (λ m. record { at = λ w e. (L.update-KeepsBuilds (owned_by b m)).at w k ∙ e })

  pub owner_ref_secret :
      (k : Key) (held : Option Secret) (ns name : String) (b : ImageBuild)
      → Preserves (λ w. V.secret w k ≡ held) (set_owner_ref C ns name b)
  unfolding set_owner_ref
  owner_ref_secret k held ns name b =
      let key : Key = record { namespace = ns; name = name } in
      Preserves-bind (C.get_config_map key) _
        (record { at = λ w e. (L.map-KeepsSecrets key).at w k ∙ e })
        (λ m. record { at = λ w e. (L.update-KeepsSecrets (owned_by b m)).at w k ∙ e })
