-- ===== src/Tests/Deployments.antt =====
-- The theorems on deployments in a cluster that holds nothing at first.
use automotive_dev_operator.Base.{
  ◌≡◌, refl, ◌⊎◌, inl, inr, false, none, List, [], ◌∷◌, api, not_found, ok, err,
}
use automotive_dev_operator.OperatorConfig.Types.{OperatorConfig}
use automotive_dev_operator.OperatorConfig.Objects.{ConfigClient, Ref, State, ref_of}
use automotive_dev_operator.OperatorConfig.Deploy.{
  is_no_match_error, detect_open_shift, create_or_update, ensure_secrets, ensure_oauth_secrets,
  update_service_account_annotations, deploy_web_ui, create_or_update_tekton, deploy_tasks,
  deploy_os_builds,
}
use automotive_dev_operator.OperatorConfig.Presence.{
  IsAdditive, AllPresent, web_ui_required, os_builds_required,
}
use automotive_dev_operator.OperatorConfig.Deployed.{deploy_web_ui_present}
use automotive_dev_operator.OperatorConfig.DeployedTasks.{deploy_os_builds_present}

-- The state is the list of the objects that were made; no object is found, all are made.
abbrev new_cluster : ConfigClient
new_cluster = record {
  World = List Ref;
  get_config = λ k w. (err (api not_found "not found"), w);
  update_config = λ c w. (ok tt, w);
  update_config_status = λ c w. (ok tt, w);
  get_object = λ r w. (err (api not_found "not found"), w);
  create_object = λ m w. (ok tt, ref_of m ∷ w);
  update_object = λ m v w. (ok tt, ref_of m ∷ w);
  delete_object = λ r w. (ok tt, w);
  get_service_account = λ n w. (err (api not_found "not found"), w);
  update_service_account = λ n a w. (ok tt, w);
  set_controller_reference = λ c m. ok tt;
}

abbrev Made : List Ref → Ref → Type 0
Made [] q = ⊥
Made (r ∷ rs) q = (q ≡ r) ⊎ Made rs q

new_cluster-IsAdditive : IsAdditive new_cluster Made
new_cluster-IsAdditive = record {
  get_ok = λ w r v h. cc;
  create_ok = λ w m h. inl refl;
  update_ok = λ w m v h. inl refl;
  present-get = λ w r q p. p;
  present-create = λ w m q p. inr p;
  present-update = λ w m v q p. inr p;
  present-get_service_account = λ w n q p. p;
  present-update_service_account = λ w n a q p. p;
}

abbrev start : State (List Ref)
start = record { world = []; is_open_shift = none }

abbrev config : OperatorConfig
config = record {
  meta = record {
    api_version = "automotive.sdv.cloud.redhat.com/v1alpha1";
    kind = "OperatorConfig";
    name = "config";
    namespace = "automotive-dev-operator-system";
    uid = "1";
    labels = [];
    annotations = [];
    finalizers = [];
    creation_timestamp = 1;
    deletion_timestamp = none;
  };
  spec = record { web_ui = false; os_builds = none };
  status = record { phase = ""; message = ""; web_ui_deployed = false; os_builds_deployed = false };
}

deploy_web_ui_present_example :
    AllPresent Made web_ui_required (deploy_web_ui new_cluster start).1.world
unfolding deploy_web_ui ensure_oauth_secrets ensure_secrets update_service_account_annotations
    create_or_update detect_open_shift is_no_match_error
deploy_web_ui_present_example =
    deploy_web_ui_present new_cluster Made new_cluster-IsAdditive start refl

deploy_os_builds_present_example :
    AllPresent Made os_builds_required (deploy_os_builds new_cluster config start).1.world
unfolding deploy_os_builds deploy_tasks create_or_update_tekton
deploy_os_builds_present_example =
    deploy_os_builds_present new_cluster Made new_cluster-IsAdditive config start refl
