-- ===== src/OperatorConfig/Controller.antt =====
-- `Reconcile` of internal/controller/operatorconfig/controller.go. The handler's copy of the
-- resource and its flag `statusChanged` are passed on explicitly; logging is left out.
use automotive_dev_operator.Base.{
  String, ◌<>◌, Bool, true, false, not, ◌||◌, none, some, List, [], ◌∷◌, ◌++◌, ◌==◌, contains,
  is_some, if◌then◌else◌, Error, error_text, is_not_found, pure, raise, on_error, ◌>>=◌, ◌>>◌,
  ignoring,
}
use automotive_dev_operator.Kube.{Key, CtrlResult, done, requeue_now}
use automotive_dev_operator.OperatorConfig.Types.{OperatorConfig}
use automotive_dev_operator.OperatorConfig.Objects.{ConfigClient, call}
use automotive_dev_operator.OperatorConfig.Deploy.{Action, deploy_web_ui, deploy_os_builds}
use automotive_dev_operator.OperatorConfig.Cleanup.{cleanup_web_ui, cleanup_os_builds}

abbrev pub finalizer_name : String
finalizer_name = "operatorconfig.automotive.sdv.cloud.redhat.com/finalizer"

-- `controllerutil.AddFinalizer` appends a finalizer that is missing; `RemoveFinalizer` drops every
-- occurrence.
abbrev pub with_finalizers : List String → OperatorConfig → OperatorConfig
with_finalizers fs c = record c { meta = record c.meta { finalizers = fs } }

unfoldable pub remove_finalizer : List String → List String
remove_finalizer [] = []
remove_finalizer (f ∷ fs) =
    let rest = remove_finalizer fs in if f == finalizer_name then rest else f ∷ rest

unfoldable pub add_finalizer : OperatorConfig → OperatorConfig
add_finalizer c = with_finalizers (c.meta.finalizers ++ finalizer_name ∷ []) c

-- The handler's copy of the resource, and `statusChanged`.
pub record Progress : Type 0 where
  pub config : OperatorConfig
  pub changed : Bool

-- `config.Spec.OSBuilds != nil && config.Spec.OSBuilds.Enabled`
abbrev pub os_builds_enabled : OperatorConfig → Bool
os_builds_enabled c = elim c.spec.os_builds [ none ↦ false | some o ↦ o.enabled ]

-- What the handler writes into its copy after each of the four outcomes of either part.
unfoldable pub web_ui_failed : Error → Progress → Progress
web_ui_failed e p =
    let s = p.config.status in
    if not (s.phase == "Failed") || s.web_ui_deployed
    then record {
      config = record p.config {
        status = record s {
          phase = "Failed";
          message = "Failed to deploy WebUI: " <> error_text e;
          web_ui_deployed = false;
        };
      };
      changed = true;
    }
    else p

unfoldable pub web_ui_deployed : Progress → Progress
web_ui_deployed p =
    let s = p.config.status in
    if not (s.phase == "Ready") || not s.web_ui_deployed
    then record {
      config = record p.config {
        status = record s {
          phase = "Ready";
          message = "WebUI deployed successfully";
          web_ui_deployed = true;
        };
      };
      changed = true;
    }
    else p

-- A failed cleanup keeps the flags, `text` names the part.
unfoldable pub cleanup_failed : String → Error → Progress → Progress
cleanup_failed text e p =
    let s = p.config.status in
    if not (s.phase == "Failed")
    then record {
      config = record p.config {
        status = record s { phase = "Failed"; message = text <> error_text e };
      };
      changed = true;
    }
    else p

unfoldable pub web_ui_disabled : Progress → Progress
web_ui_disabled p =
    let s = p.config.status in
    if not (s.phase == "Ready") || s.web_ui_deployed
    then record {
      config = record p.config {
        status = record s { phase = "Ready"; message = "WebUI disabled"; web_ui_deployed = false };
      };
      changed = true;
    }
    else p

unfoldable pub os_builds_failed : Error → Progress → Progress
os_builds_failed e p =
    let s = p.config.status in
    if not (s.phase == "Failed") || s.os_builds_deployed
    then record {
      config = record p.config {
        status = record s {
          phase = "Failed";
          message = "Failed to deploy OSBuilds: " <> error_text e;
          os_builds_deployed = false;
        };
      };
      changed = true;
    }
    else p

unfoldable pub os_builds_deployed : Progress → Progress
os_builds_deployed p =
    let s = p.config.status in
    if not s.os_builds_deployed
    then record {
      config = record p.config {
        status = record s {
          os_builds_deployed = true;
          phase = "Ready";
          message = "OSBuilds deployed successfully";
        };
      };
      changed = true;
    }
    else p

unfoldable pub os_builds_removed : Progress → Progress
os_builds_removed p =
    let s = p.config.status in
    if s.os_builds_deployed
    then record {
      config = record p.config { status = record s { os_builds_deployed = false } };
      changed = true;
    }
    else p

module _ (C : ConfigClient) where
  -- `if statusChanged { _ = r.Status().Update(ctx, config) }; return ctrl.Result{}, err`
  abbrev pub fail_with : {A : Type 0} → Error → Progress → Action C A
  fail_with e p =
      (if p.changed then ignoring (call (C.update_config_status p.config)) else pure tt) >> raise e

  unfoldable pub reconcile_web_ui : Progress → Action C Progress
  reconcile_web_ui p =
      if p.config.spec.web_ui
      then on_error (deploy_web_ui C) (λ e. fail_with e (web_ui_failed e p))
          (λ _. pure (web_ui_deployed p))
      else on_error (cleanup_web_ui C)
          (λ e. fail_with e (cleanup_failed "Failed to cleanup WebUI: " e p))
          (λ _. pure (web_ui_disabled p))

  unfoldable pub reconcile_os_builds : Progress → Action C Progress
  reconcile_os_builds p =
      if os_builds_enabled p.config
      then on_error (deploy_os_builds C p.config) (λ e. fail_with e (os_builds_failed e p))
          (λ _. pure (os_builds_deployed p))
      else on_error (cleanup_os_builds C)
          (λ e. fail_with e (cleanup_failed "Failed to cleanup OSBuilds: " e p))
          (λ _. pure (os_builds_removed p))

  -- The end of `Reconcile`.
  unfoldable pub finish : Progress → Action C CtrlResult
  finish p = do if p.changed then call (C.update_config_status p.config) else pure tt; pure done

  -- The branch of `Reconcile` for a resource that is being deleted.
  unfoldable pub handle_deletion : OperatorConfig → Action C CtrlResult
  handle_deletion config = do
    cleanup_web_ui C
    cleanup_os_builds C
    call (C.update_config (with_finalizers (remove_finalizer config.meta.finalizers) config))
    pure done

  unfoldable pub handle_config : OperatorConfig → Action C CtrlResult
  handle_config config =
      if not (contains config.meta.finalizers finalizer_name)
      then (do call (C.update_config (add_finalizer config)); pure requeue_now)
      else if is_some config.meta.deletion_timestamp
      then handle_deletion config
      else do
        p ← reconcile_web_ui (record { config = config; changed = false })
        q ← reconcile_os_builds p
        finish q

  unfoldable pub reconcile : Key → Action C CtrlResult
  reconcile key =
      on_error (call (C.get_config key)) (λ e. if is_not_found e then pure done else raise e)
        handle_config
