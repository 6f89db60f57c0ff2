-- ===== src/OperatorConfig/Deploy.antt =====
-- `deployWebUI`, `deployOSBuilds` and what they call, of
-- internal/controller/operatorconfig/controller.go. Logging is left out.
use automotive_dev_operator.Base.{
  String, ◌<>◌, StringMap, get_or_empty, put, Bool, true, false, not, ◌||◌, none, some, List, [],
  ◌∷◌, ◌==◌, if◌then◌else◌, Error, error_text, is_not_found, ok, Exec, pure, raise, on_error, ◌>>=◌,
  ◌>>◌, wrapping, ignoring,
}
use automotive_dev_operator.OperatorConfig.Types.{OperatorConfig, build_config_of}
use automotive_dev_operator.OperatorConfig.Objects.{
  Kind, managed, Manifest, oauth_secret, web_ui_nginx_config_map, web_ui_route, web_ui_ingress,
  build_api_route, build_api_ingress, web_ui_deployment, web_ui_service, build_api_deployment,
  build_api_service, build_automotive_image_task, push_artifact_registry_task, tekton_pipeline,
  ref_of, ConfigClient, State, call,
}

-- `isNoMatchError` of an error that is not nil.
unfoldable pub is_no_match_error : Error → Bool
is_no_match_error e =
    (error_text e == "no matches for kind \"Route\" in version \"route.openshift.io/v1\"")
    || (error_text e == "no matches for kind \"Ingress\" in version \"networking.k8s.io/v1\"")

abbrev pub oauth_secret_names : List String
oauth_secret_names = "ado-webui-oauth-proxy" ∷ "ado-build-api-oauth-proxy" ∷ []

-- The annotations that `updateServiceAccountOAuthAnnotations` wants.
abbrev pub oauth_annotations : StringMap
oauth_annotations =
    (
      "serviceaccounts.openshift.io/oauth-redirectreference.webui",
      "{\"kind\":\"OAuthRedirectReference\",\"apiVersion\":\"v1\",\"reference\":{\"kind\":\"Route\",\"name\":\"ado-webui\"}}",
    )
    ∷ (
      "serviceaccounts.openshift.io/oauth-redirectreference.buildapi",
      "{\"kind\":\"OAuthRedirectReference\",\"apiVersion\":\"v1\",\"reference\":{\"kind\":\"Route\",\"name\":\"ado-build-api\"}}",
    )
    ∷ []

-- The loop over the wanted annotations: the annotations after it, and `updated`.
unfoldable pub merge_annotations : StringMap → StringMap × Bool → StringMap × Bool
merge_annotations [] (have, updated) = (have, updated)
merge_annotations ((k, v) ∷ wanted) (have, updated) =
    merge_annotations wanted
      (if get_or_empty have k == v then (have, updated) else (put have k v, true))

module _ (C : ConfigClient) where
  abbrev pub Action : Type 0 → Type 0
  Action = Exec (State C.World)

  abbrev pub remember : Bool → Action Bool
  remember b s = (ok b, record s { is_open_shift = some b })

  unfoldable pub detect_open_shift : Action Bool
  detect_open_shift s = elim s.is_open_shift [
    | some b ↦ (ok b, s)
    | none ↦
        on_error
          (call (C.get_object (record { kind = Kind.route; namespace = "default"; name = "test" })))
          (λ e. remember (not (is_no_match_error e))) (λ _. remember true) s
  ]

  unfoldable pub create_or_update : Manifest → Action (Unit {0})
  create_or_update m =
      on_error (call (C.get_object (ref_of m)))
        (λ e. if is_not_found e then call (C.create_object m) else raise e)
        (λ version. call (C.update_object m version))

  -- The loop of `ensureOAuthSecrets`.
  unfoldable pub ensure_secrets : List String → Action (Unit {0})
  ensure_secrets [] = pure tt
  ensure_secrets (name ∷ names) = do
    on_error (call (C.get_object (managed Kind.secret name)))
        (λ e.
          if is_not_found e
          then wrapping ("failed to create secret " <> name)
              (call (C.create_object (oauth_secret name)))
          else wrapping ("failed to get secret " <> name) (raise e))
        (λ _. pure tt)
    ensure_secrets names

  unfoldable pub ensure_oauth_secrets : Action (Unit {0})
  unfolding ensure_secrets
  ensure_oauth_secrets = ensure_secrets oauth_secret_names

  unfoldable pub update_service_account_annotations : Action (Unit {0})
  update_service_account_annotations =
      on_error (call (C.get_service_account "ado-controller-manager"))
        (λ e. if is_not_found e then pure tt else wrapping "failed to get ServiceAccount" (raise e))
        λ have.
          let (annotations, updated) = merge_annotations oauth_annotations (have, false) in
          if updated
          then wrapping "failed to update ServiceAccount annotations"
              (call (C.update_service_account "ado-controller-manager" annotations))
          else pure tt

  unfoldable pub deploy_web_ui : Action (Unit {0})
  deploy_web_ui = do
    wrapping "failed to ensure OAuth secrets" ensure_oauth_secrets
    wrapping "failed to update ServiceAccount OAuth annotations" update_service_account_annotations
    wrapping "failed to create/update nginx configmap" (create_or_update web_ui_nginx_config_map)
    os ← detect_open_shift
    wrapping "failed to create/update webui deployment" (create_or_update (web_ui_deployment os))
    wrapping "failed to create/update webui service" (create_or_update (web_ui_service os))
    ignoring (create_or_update web_ui_route)
    ignoring (create_or_update web_ui_ingress)
    wrapping "failed to create/update build-api deployment"
        (create_or_update (build_api_deployment os))
    wrapping "failed to create/update build-api service" (create_or_update (build_api_service os))
    ignoring (create_or_update build_api_route)
    ignoring (create_or_update build_api_ingress)

  -- `createOrUpdateTask` and `createOrUpdatePipeline`, which differ in their texts.
  unfoldable pub create_or_update_tekton : String → Manifest → Action (Unit {0})
  create_or_update_tekton kind m =
      on_error (call (C.get_object (ref_of m)))
        (λ e.
          if is_not_found e
          then call (C.create_object m)
          else wrapping ("failed to get " <> kind) (raise e))
        (λ version. call (C.update_object m version))

  abbrev pub referenced : OperatorConfig → Manifest → Action (Unit {0})
  referenced config m s = (C.set_controller_reference config m, s)

  -- The loop over the tasks.
  unfoldable pub deploy_tasks : OperatorConfig → List Manifest → Action (Unit {0})
  deploy_tasks config [] = pure tt
  deploy_tasks config (m ∷ ms) = do
    wrapping "failed to set controller reference on task" (referenced config m)
    wrapping ("failed to create/update task " <> (ref_of m).name) (create_or_update_tekton "Task" m)
    deploy_tasks config ms

  unfoldable pub deploy_os_builds : OperatorConfig → Action (Unit {0})
  unfolding deploy_tasks
  deploy_os_builds config = do
    let by = config.meta.name
    deploy_tasks config (
        build_automotive_image_task (build_config_of config.spec.os_builds) "" by
        ∷ push_artifact_registry_task by
        ∷ [])
    wrapping "failed to set controller reference on pipeline"
        (referenced config (tekton_pipeline by))
    wrapping "failed to create/update pipeline"
        (create_or_update_tekton "Pipeline" (tekton_pipeline by))
