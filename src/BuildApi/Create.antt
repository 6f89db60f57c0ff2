-- ===== src/BuildApi/Create.antt =====
-- `createBuild`, `createRegistrySecret` and `setOwnerRef` of internal/buildapi/server.go.
use automotive_dev_operator.Base.{
  ℤ, pos, String, ◌<>◌, not, ◌||◌, Option, none, some, ◌==◌, if◌then◌else◌, is_not_found,
  error_text, Result, ok, err, Exec, pure, raise, wrapping, ignoring, on_error, ◌>>=◌, ◌>>◌,
}
use automotive_dev_operator.ImageBuild.Types.{ImageBuild}
use automotive_dev_operator.BuildApi.Types.{
  RegistryCredentials, BuildRequest, Request, Response, build,
}
use automotive_dev_operator.BuildApi.Client.{
  ApiClient, fails_with, answers, resolve_namespace, get_client, resolve_requester,
}
use automotive_dev_operator.BuildApi.Objects.{
  asks_for_secret, configured_hours, controller_ref, image_build, manifest_config_map,
  manifest_name, refusal, registry_secret, secret_data, secret_name, with_defaults,
  with_file_defaults,
}

module _ (C : ApiClient) where
  open C use {World}

  unfoldable pub create_registry_secret :
      String → String → Option RegistryCredentials → Exec World String
  unfolding secret_data registry_secret
  create_registry_secret ns build_name none = pure ""
  create_registry_secret ns build_name (some c) =
      if not c.enabled then pure "" else elim (secret_data c) [
        | err e ↦ raise e
        | ok entries ↦
            wrapping "failed to create registry secret"
              (C.create_secret (registry_secret ns build_name entries))
            >> pure (secret_name build_name)
      ]

  unfoldable pub serve_expiry_hours : String → Exec World ℤ
  unfolding configured_hours
  serve_expiry_hours ns =
      on_error (C.get_operator_config (record { namespace = ns; name = "config" }))
        (λ e. pure (pos 24)) (λ cfg. pure (configured_hours cfg))

  unfoldable pub set_owner_ref : String → String → ImageBuild → Exec World (Unit {0})
  set_owner_ref ns config_map_name owner =
      C.get_config_map (record { namespace = ns; name = config_map_name }) >>= λ cm.
      C.update_config_map (record cm { owner = some (controller_ref owner) })

  -- The steps after the build was created.
  unfoldable pub finish_creation :
      String → String → String → BuildRequest → ImageBuild → Exec World Response
  unfolding set_owner_ref
  finish_creation ns requested_by secret q b = do
    ignoring (set_owner_ref ns (manifest_name q) b)
    if secret == "" then pure tt else ignoring (set_owner_ref ns secret b)
    answers 202 (
        build (record {
          name = q.name;
          phase = "Building";
          message = "Build triggered";
          requested_by = requested_by;
          artifact_url = "";
          artifact_file_name = "";
          start_time = "";
          completion_time = "";
        }))

  unfoldable pub create_image_build :
      String → String → ℤ → String → BuildRequest → Exec World Response
  unfolding image_build finish_creation
  create_image_build ns requested_by hours secret q =
      on_error (C.create_build (image_build ns requested_by hours secret q))
        (λ e. fails_with 500 ("error creating ImageBuild: " <> error_text e))
        (finish_creation ns requested_by secret q)

  -- The steps once it is known that no such build exists.
  unfoldable pub create_objects : String → String → BuildRequest → Exec World Response
  unfolding manifest_config_map serve_expiry_hours create_registry_secret create_image_build
  create_objects ns requested_by q =
      on_error (C.create_config_map (manifest_config_map ns q))
        (λ e. fails_with 500 ("error creating manifest ConfigMap: " <> error_text e))
        λ _. serve_expiry_hours ns >>= λ hours.
          on_error
            (if asks_for_secret q
              then create_registry_secret ns q.name q.registry_credentials
              else pure "")
            (λ e. fails_with 500 ("error creating registry secret: " <> error_text e))
            (λ secret. create_image_build ns requested_by hours secret q)

  unfoldable pub create_unless_exists : String → String → BuildRequest → Exec World Response
  unfolding create_objects
  create_unless_exists ns requested_by q =
      on_error (C.get_build (record { namespace = ns; name = q.name }))
        (λ e.
          if is_not_found e
          then create_objects ns requested_by q
          else fails_with 500 ("error checking existing build: " <> error_text e))
        (λ b. fails_with 409 ("ImageBuild " <> (q.name <> " already exists")))

  -- The steps of a request that passed the checks.
  unfoldable pub create_checked : Request → BuildRequest → Exec World Response
  unfolding create_unless_exists get_client resolve_namespace resolve_requester
  create_checked r q =
      on_error (get_client C) (λ e. fails_with 500 ("k8s client error: " <> error_text e))
        λ _. resolve_namespace C >>= λ ns.
          resolve_requester C r >>= λ requested_by. create_unless_exists ns requested_by q

  -- The steps after the body was decoded, or could not be.
  unfoldable pub create_parsed : Request → Result BuildRequest → Exec World Response
  unfolding with_defaults refusal with_file_defaults create_checked
  create_parsed r (err e) = fails_with 400 ("invalid JSON: " <> error_text e)
  create_parsed r (ok q) =
      if q.name == "" || q.manifest == ""
      then fails_with 400 "name and manifest are required"
      else elim (refusal (with_defaults q)) [
        | some text ↦ fails_with 400 text
        | none ↦ create_checked r (with_file_defaults (with_defaults q))
      ]

  unfoldable pub create_build : Request → Exec World Response
  unfolding create_parsed
  create_build r = create_parsed r r.json
