-- ===== src/Tests/Configs.antt =====
-- The theorems on the operator's configuration at concrete resources.
use automotive_dev_operator.Base.{
  ℕ, String, ◌≡◌, refl, ◌⊎◌, inl, inr, true, false, Bool, some, none, [], ◌∷◌, List, Option, api,
  not_found, ok, err,
}
use automotive_dev_operator.Kube.{Key, key_of, done}
use automotive_dev_operator.OperatorConfig.Types.{OperatorConfig}
use automotive_dev_operator.OperatorConfig.Objects.{ConfigClient, Ref, State}
use automotive_dev_operator.OperatorConfig.Cleanup.{delete_all, cleanup_web_ui, cleanup_os_builds}
use automotive_dev_operator.OperatorConfig.Controller.{
  Progress, web_ui_disabled, os_builds_removed, reconcile_web_ui, reconcile_os_builds, reconcile,
  finalizer_name, finish,
}
use automotive_dev_operator.OperatorConfig.Ownership.{IsLawful, AllGone, owned_refs}
use automotive_dev_operator.OperatorConfig.Deletion.{reconcile_deletion_safe}
use automotive_dev_operator.OperatorConfig.Status.{
  IsSettled, IsWritten, fresh, parts-IsSettled, parts_steady,
}
use automotive_dev_operator.Tests.Server.{one_stored, one_get, one_get_ok}

abbrev config_key : OperatorConfig → Key
config_key c = key_of c.meta

-- The resource, and the objects that were deleted.
record Cluster : Type 0 where
  config : OperatorConfig
  deleted : List Ref

abbrev one_config : ConfigClient
one_config = record {
  World = Cluster;
  get_config = λ k w. ((one_get config_key k w.config).0, w);
  update_config = λ c w. (ok tt, record w { config = c });
  update_config_status =
      λ c w. (ok tt, record w { config = record w.config { status = c.status } });
  get_object = λ r w. (err (api not_found "not found"), w);
  create_object = λ m w. (ok tt, w);
  update_object = λ m v w. (ok tt, w);
  delete_object = λ r w. (ok tt, record w { deleted = r ∷ w.deleted });
  get_service_account = λ n w. (ok [], w);
  update_service_account = λ n a w. (ok tt, w);
  set_controller_reference = λ c m. ok tt;
}

abbrev config_stored : Cluster → Key → Option OperatorConfig
config_stored w = one_stored config_key w.config

abbrev Among : List Ref → Ref → Type 0
Among [] q = ⊥
Among (r ∷ rs) q = (q ≡ r) ⊎ Among rs q

abbrev Deleted : Cluster → Ref → Type 0
Deleted w q = Among w.deleted q

one_config-IsLawful : IsLawful one_config config_stored Deleted
one_config-IsLawful = record {
  stored-get = λ w k j. refl;
  get-stored = λ w k c h. (one_get_ok config_key w.config k c h).0;
  stored-delete = λ w r j. refl;
  gone-delete = λ w r q g. inr g;
  delete_ok = λ w r h. inl refl;
  delete_missing = λ w r e h n. inl refl;
  gone-update = λ w c q g. g;
}

abbrev demo_key : Key
demo_key = record { namespace = "automotive-dev-operator-system"; name = "config" }

abbrev demo : Option ℕ → String → Bool → OperatorConfig
demo deletion phase deployed = record {
  meta = record {
    api_version = "automotive.sdv.cloud.redhat.com/v1alpha1";
    kind = "OperatorConfig";
    name = "config";
    namespace = "automotive-dev-operator-system";
    uid = "1";
    labels = [];
    annotations = [];
    finalizers = finalizer_name ∷ [];
    creation_timestamp = 1;
    deletion_timestamp = deletion;
  };
  spec = record { web_ui = false; os_builds = none };
  status = record {
    phase = phase;
    message = "";
    web_ui_deployed = deployed;
    os_builds_deployed = deployed;
  };
}

abbrev leaving : OperatorConfig
leaving = demo (some 9) "Ready" true

abbrev whole : OperatorConfig → State Cluster
whole c = record { world = record { config = c; deleted = [] }; is_open_shift = none }

reconcile_deletion_safe_example :
    let t = (reconcile one_config demo_key (whole leaving)).1.world in
    (config_stored t demo_key ≡ some leaving) ⊎ AllGone Deleted owned_refs t
reconcile_deletion_safe_example =
    reconcile_deletion_safe one_config config_stored Deleted one_config-IsLawful demo_key leaving
      (whole leaving) refl refl refl

abbrev changing : OperatorConfig
changing = demo none "Failed" true

abbrev without_web_ui : Progress
without_web_ui = web_ui_disabled (fresh changing)

abbrev without_both : Progress
without_both = os_builds_removed without_web_ui

parts-IsSettled_example :
    IsSettled without_both.config
    × (without_both.config.spec ≡ changing.spec)
    × (without_both.config.meta ≡ changing.meta)
    × IsWritten one_config changing without_both (whole changing)
unfolding reconcile_web_ui cleanup_web_ui reconcile_os_builds cleanup_os_builds delete_all
    web_ui_disabled os_builds_removed
parts-IsSettled_example =
    parts-IsSettled one_config changing without_web_ui without_both (whole changing)
      (whole changing) (whole changing) refl refl

abbrev untouched : OperatorConfig
untouched = demo none "Ready" false

untouched-IsSettled : IsSettled untouched
untouched-IsSettled = record { ready = refl; web_ui = refl; os_builds = refl }

abbrev unchanged : Progress
unchanged = os_builds_removed (web_ui_disabled (fresh untouched))

parts_steady_example :
    (unchanged.config ≡ untouched)
    × (finish one_config unchanged (whole untouched) ≡ (ok done, whole untouched))
unfolding reconcile_web_ui cleanup_web_ui reconcile_os_builds cleanup_os_builds delete_all
    web_ui_disabled os_builds_removed
parts_steady_example =
    parts_steady one_config untouched (web_ui_disabled (fresh untouched)) unchanged
      (whole untouched) (whole untouched) (whole untouched) untouched-IsSettled refl refl
