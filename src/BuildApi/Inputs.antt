-- ===== src/BuildApi/Inputs.antt =====
-- The config map and the secret that `createBuild` of internal/buildapi/server.go makes before the
-- build.
use automotive_dev_operator.Base.{
  ℤ, wrap, not, String, inl, inr, ap, sym, ◌∙◌, ◌≡◌, refl, Bool, true, false, Option, none, some,
  StringMap, if◌then◌else◌, Result, ok, err, pure, raise, ◌>>◌, Triple, Triple-on_error, Triple-if,
  arith, wrapping,
}
use automotive_dev_operator.Kube.{Key}
use automotive_dev_operator.OperatorConfig.Types.{OperatorConfig}
use automotive_dev_operator.BuildApi.Types.{RegistryCredentials, BuildRequest}
use automotive_dev_operator.BuildApi.Client.{ApiClient}
use automotive_dev_operator.BuildApi.Server.{Views, IsApi}
use automotive_dev_operator.BuildApi.Objects.{
  manifest_data, manifest_config_map, secret_name, secret_data, registry_secret, asks_for_secret,
  is_enabled, configured_hours,
}
use automotive_dev_operator.BuildApi.Create.{create_registry_secret, serve_expiry_hours}
use automotive_dev_operator.BuildApi.Stored.{
  HoldsSecret, IsExpiry, manifest_key, secret_key, NamesSecret, HasManifest, HasInputs, keeps_data,
}
use automotive_dev_operator.BuildApi.Described.{
  IsSecretOf, secret_data-IsSecretOf, configured_hours_cases,
}

module _ (C : ApiClient) (V : Views C.World) (L : IsApi C V) where
  open C use {World}

  module _ (ns : String) (q : BuildRequest) where
    -- After the call that creates the config map, and after the secret.
    abbrev pub AfterMap : Result (Unit {0}) → World → Type 0
    AfterMap (ok u) w = (HasManifest V ns q) w
    AfterMap (err e) w = Unit {0}

    abbrev pub AfterSecret : Result String → World → Type 0
    AfterSecret (ok secret) w = HasInputs V ns q secret w
    AfterSecret (err e) w = Unit {0}

    pub map_created :
        (w : World) (r : Result (Unit {0}))
        → (C.create_config_map (manifest_config_map ns q) w).0 ≡ r
        → AfterMap r (C.create_config_map (manifest_config_map ns q) w).1
    unfolding manifest_config_map
    map_created w (err e) h = tt
    map_created w (ok u) h = (manifest_config_map ns q, L.map_created w _ h, refl)

    abbrev AfterCreate : Result (Unit {0}) → World → Type 0
    AfterCreate (ok u) w =
        (HasManifest V ns q) w × HoldsSecret V (secret_key ns q) q.registry_credentials w
    AfterCreate (err e) w = Unit {0}

    secret_created :
        (entries : StringMap) (w : World) (r : Result (Unit {0}))
        → IsSecretOf q.registry_credentials entries
        → (C.create_secret (registry_secret ns q.name entries) w).0 ≡ r
        → (HasManifest V ns q) w
        → AfterCreate r (C.create_secret (registry_secret ns q.name entries) w).1
    unfolding registry_secret
    secret_created entries w (err e) fits h d = tt
    secret_created entries w (ok u) fits h d =
        let s = registry_secret ns q.name entries in
        (
          (keeps_data C V L (manifest_key ns q) (manifest_data q) (C.create_secret s)
                (L.secret-KeepsMaps s)).at
              w d,
          (s, L.secret_created w s h, refl, fits),
        )

    secret_named :
        (asks : Bool) (w : World)
        → asks ≡ true
        → HoldsSecret V (secret_key ns q) q.registry_credentials w
        → NamesSecret V ns q (secret_name q.name) asks w
    secret_named true w e s = (refl, s)
    secret_named false w e s = ground (arith)

    secret_made :
        (entries : StringMap)
        → IsSecretOf q.registry_credentials entries
        → asks_for_secret q ≡ true
        → Triple
            ((HasManifest V ns q))
            (wrapping "failed to create registry secret"
                (C.create_secret (registry_secret ns q.name entries))
              >> pure (secret_name q.name))
            AfterSecret
    secret_made entries fits asks =
        let create = C.create_secret (registry_secret ns q.name entries) in
        Triple-on_error ((HasManifest V ns q)) (wrapping "failed to create registry secret" create)
          raise _ AfterCreate AfterSecret
          (Triple-on_error ((HasManifest V ns q)) create
            (λ e. raise (wrap "failed to create registry secret" e)) pure AfterCreate AfterCreate
            (record { at = λ w d. secret_created entries w _ fits refl d })
            (λ e. record { at = λ w u. tt }) (λ u. record { at = λ w d. d }))
          (λ e. record { at = λ w u. tt })
          (λ u. record { at = λ w (d, s). (d, secret_named (asks_for_secret q) w asks s) })

    secret_data_step :
        (r : Result StringMap)
        → ((m : StringMap) → r ≡ ok m → IsSecretOf q.registry_credentials m)
        → asks_for_secret q ≡ true
        → Triple
            ((HasManifest V ns q))
            (elim r [
              | err e ↦ raise e
              | ok entries ↦
                  wrapping "failed to create registry secret"
                    (C.create_secret (registry_secret ns q.name entries))
                  >> pure (secret_name q.name)
            ])
            AfterSecret
    secret_data_step (err e) fits asks = record { at = λ w d. tt }
    secret_data_step (ok entries) fits asks = secret_made entries (fits entries refl) asks

    credentials_step :
        (c : Option RegistryCredentials)
        → q.registry_credentials ≡ c
        → is_enabled c ≡ true
        → asks_for_secret q ≡ true
        → Triple ((HasManifest V ns q)) (create_registry_secret C ns q.name c) AfterSecret
    unfolding create_registry_secret
    credentials_step none same e asks = ground (arith)
    credentials_step (some c) same e asks =
        Triple-if ((HasManifest V ns q)) (not c.enabled) _ _ AfterSecret (λ f. ground (arith))
          (λ f. secret_data_step (secret_data c) (λ m. secret_data-IsSecretOf _ c m same) asks)

    no_secret : (asks : Bool) (w : World) → asks ≡ false → NamesSecret V ns q "" asks w
    no_secret true w e = ground (arith)
    no_secret false w e = refl

    pub secret_step :
        Triple
          ((HasManifest V ns q))
          (if asks_for_secret q
            then create_registry_secret C ns q.name q.registry_credentials
            else pure "")
          AfterSecret
    secret_step =
        Triple-if ((HasManifest V ns q)) (asks_for_secret q) _ _ AfterSecret
          (λ e. credentials_step q.registry_credentials refl e e)
          (λ e. record { at = λ w d. (d, no_secret (asks_for_secret q) w e) })

    -- After the hours are known.
    abbrev pub AfterHours : Result ℤ → World → Type 0
    AfterHours (ok hours) w = IsExpiry C V L ns hours × (HasManifest V ns q) w
    AfterHours (err e) w = Unit {0}

    abbrev AfterConfig : Result OperatorConfig → World → Type 0
    AfterConfig (ok cfg) w = IsExpiry C V L ns (configured_hours cfg) × (HasManifest V ns q) w
    AfterConfig (err e) w = (HasManifest V ns q) w

    config_read :
        (key : Key) (w : World) (r : Result OperatorConfig)
        → key ≡ record { namespace = ns; name = "config" }
        → (C.get_operator_config key w).0 ≡ r
        → (HasManifest V ns q) (C.get_operator_config key w).1
        → AfterConfig r (C.get_operator_config key w).1
    config_read key w (err e) same h d = d
    config_read key w (ok cfg) same h d = (
      elim (configured_hours_cases cfg) [
        | inl e ↦ inl e
        | inr f ↦ inr (w, cfg, ap (λ k. (C.get_operator_config k w).0) (sym same) ∙ h, f)
      ],
      d,
    )

    pub hours_step : Triple ((HasManifest V ns q)) (serve_expiry_hours C ns) AfterHours
    unfolding serve_expiry_hours
    hours_step =
        let key : Key = record { namespace = ns; name = "config" } in
        Triple-on_error ((HasManifest V ns q)) (C.get_operator_config key) _ _ AfterConfig
          AfterHours
          (record {
            at = λ w d. config_read key w _ refl refl (
                (keeps_data C V L (manifest_key ns q) (manifest_data q) (C.get_operator_config key)
                    (L.config-KeepsMaps key)).at
                  w d);
          })
          (λ e. record { at = λ w d. (inl refl, d) }) (λ cfg. record { at = λ w p. p })
