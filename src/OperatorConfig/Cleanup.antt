-- ===== src/OperatorConfig/Cleanup.antt =====
-- `cleanupWebUI` and `cleanupOSBuilds` of internal/controller/operatorconfig/controller.go.
use automotive_dev_operator.Base.{
  String, ◌<>◌, List, [], ◌∷◌, if◌then◌else◌, is_not_found, pure, raise, on_error, ◌>>◌, wrap,
  ignoring,
}
use automotive_dev_operator.OperatorConfig.Objects.{Kind, Ref, managed, ConfigClient, call}
use automotive_dev_operator.OperatorConfig.Deploy.{Action, oauth_secret_names}

abbrev pub task_names : List String
task_names = "build-automotive-image" ∷ "push-artifact-registry" ∷ []

module _ (C : ConfigClient) where
  -- `if err := r.Delete(ctx, obj); err != nil && !errors.IsNotFound(err) { return ... }`
  abbrev pub delete_or : String → Ref → Action C (Unit {0})
  delete_or text r =
      on_error (call (C.delete_object r))
        (λ e. if is_not_found e then pure tt else raise (wrap text e)) pure

  -- A route, whose deletion may fail: the error is logged at most.
  abbrev pub delete_logged : Ref → Action C (Unit {0})
  delete_logged r = ignoring (call (C.delete_object r))

  -- The loops over names.
  unfoldable pub delete_all : String → Kind → List String → Action C (Unit {0})
  delete_all text kind [] = pure tt
  delete_all text kind (name ∷ names) = do
    delete_or (text <> name) (managed kind name)
    delete_all text kind names

  unfoldable pub cleanup_web_ui : Action C (Unit {0})
  cleanup_web_ui = do
    delete_or "failed to delete webui deployment" (managed Kind.deployment "ado-webui")
    delete_or "failed to delete webui service" (managed Kind.service "ado-webui")
    delete_logged (managed Kind.route "ado-webui")
    delete_or "failed to delete webui ingress" (managed Kind.ingress "ado-webui")
    delete_or "failed to delete nginx configmap" (managed Kind.config_map "ado-webui-nginx-config")
    delete_or "failed to delete build-api deployment" (managed Kind.deployment "ado-build-api")
    delete_or "failed to delete build-api service" (managed Kind.service "ado-build-api")
    delete_logged (managed Kind.route "ado-build-api")
    delete_or "failed to delete build-api ingress" (managed Kind.ingress "ado-build-api")
    delete_all "failed to delete secret " Kind.secret oauth_secret_names

  unfoldable pub cleanup_os_builds : Action C (Unit {0})
  cleanup_os_builds = do
    delete_all "failed to delete task " Kind.task task_names
    delete_or "failed to delete pipeline" (managed Kind.pipeline "automotive-build-pipeline")
