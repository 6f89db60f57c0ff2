-- ===== src/Tests/DeletingServer.antt =====
-- The server with one image build, which also remembers what was deleted.
use automotive_dev_operator.Base.{
  ◌≡◌, refl, ◌⊎◌, inl, inr, List, [], ◌∷◌, Option, message, ok, Exec, pure, raise, on_error,
  Preserves-pure, Preserves-raise, Preserves-on_error,
}
use automotive_dev_operator.Kube.{Key, Answers}
use automotive_dev_operator.ImageBuild.Types.{ImageBuild}
use automotive_dev_operator.ImageBuild.Client.{BuildClient, ArtifactKind}
use automotive_dev_operator.ImageBuild.Server.{IsServer}
use automotive_dev_operator.ImageBuild.Removal.{Deletes}
use automotive_dev_operator.Tests.Server.{one_object-Answers}
use automotive_dev_operator.Tests.BuildServer.{
  build_key, merged, one_build, one_build-IsServer, build_stored,
}

pub record Site : Type 0 where
  pub build : ImageBuild
  pub deleted : List (ArtifactKind × Key)

abbrev lifted : {A : Type 0} → Exec ImageBuild A → Exec Site A
lifted m s = ((m s.build).0, record s { build = (m s.build).1 })

abbrev pub deleting_build : BuildClient
deleting_build = record {
  World = Site;
  builds = record {
    get = λ k. lifted (one_build.builds.get k);
    patch_status = λ b m. lifted (one_build.builds.patch_status b m);
  };
  update_status = λ b m. lifted (one_build.update_status b m);
  get_operator_config = λ k. lifted (one_build.get_operator_config k);
  list_task_runs = λ n l. lifted (one_build.list_task_runs n l);
  get_task_run = λ k. lifted (one_build.get_task_run k);
  create_task_run = λ t. lifted (one_build.create_task_run t);
  get_claim = λ k. lifted (one_build.get_claim k);
  create_claim = λ c. lifted (one_build.create_claim c);
  get_pod_phase = λ k. lifted (one_build.get_pod_phase k);
  list_pod_labels = λ n l. lifted (one_build.list_pod_labels n l);
  create_pod = λ p. lifted (one_build.create_pod p);
  create_nginx_config_map = λ m. lifted (one_build.create_nginx_config_map m);
  has_service = λ k. lifted (one_build.has_service k);
  create_service = λ s. lifted (one_build.create_service s);
  get_route = λ k. lifted (one_build.get_route k);
  create_route = λ r. lifted (one_build.create_route r);
  delete_object = λ a k s. (ok tt, record s { deleted = (a, k) ∷ s.deleted });
  poll = λ interval timeout test. on_error test raise (λ b. pure tt);
  poll_route = λ interval timeout test. on_error test raise (λ o. raise (message "timed out"));
  now = λ s. one_build.now s.build;
}

abbrev pub site_stored : Site → Key → Option ImageBuild
site_stored s = build_stored s.build

abbrev Among : List (ArtifactKind × Key) → ArtifactKind × Key → Type 0
Among [] x = ⊥
Among (y ∷ ys) x = (x ≡ y) ⊎ Among ys x

abbrev pub SiteGone : Site → ArtifactKind → Key → Type 0
SiteGone s a k = Among s.deleted (a, k)

pub deleting_build-IsServer : IsServer deleting_build site_stored
deleting_build-IsServer =
    let one = one_build-IsServer in
    record {
      builds = record {
        stored-get = λ w k j. one.builds.stored-get w.build k j;
        get-stored = λ w k a h. one.builds.get-stored w.build k a h;
        patch_ok = λ w k a m h e. one.builds.patch_ok w.build k a m h e;
        patch_any = λ w k a m h. one.builds.patch_any w.build k a m h;
      };
      update_any = λ w k b m h. one.update_any w.build k b m h;
      patch_merge = λ w k held b m h n s p t. one.patch_merge w.build k held b m h n s p t;
      get_operator_config = λ k. record { at = λ w j. refl };
      list_task_runs = λ n l. record { at = λ w j. refl };
      get_task_run = λ k. record { at = λ w j. refl };
      create_task_run = λ t. record { at = λ w j. refl };
      get_claim = λ k. record { at = λ w j. refl };
      create_claim = λ c. record { at = λ w j. refl };
      get_pod_phase = λ k. record { at = λ w j. refl };
      list_pod_labels = λ n l. record { at = λ w j. refl };
      create_pod = λ p. record { at = λ w j. refl };
      create_nginx_config_map = λ m. record { at = λ w j. refl };
      has_service = λ k. record { at = λ w j. refl };
      create_service = λ s. record { at = λ w j. refl };
      get_route = λ k. record { at = λ w j. refl };
      create_route = λ r. record { at = λ w j. refl };
      delete_object = λ a k. record { at = λ w j. refl };
      poll = λ P i t test h.
          Preserves-on_error test raise _ h (λ e. Preserves-raise e) (λ b. Preserves-pure tt);
      poll_route = λ P i t test h.
          Preserves-on_error test raise _ h (λ e. Preserves-raise e) (λ o. Preserves-raise _);
    }

pub deleting_build-Answers : Answers deleting_build.builds site_stored
deleting_build-Answers =
    let one = one_object-Answers build_key merged in
    record {
      reads = λ w k a h. one.reads w.build k a h;
      patches = λ w k a m h. one.patches w.build k a m h;
    }

pub deleting_build-Deletes : Deletes deleting_build SiteGone
deleting_build-Deletes = record {
  deleted = λ w a k. inl refl;
  gone-delete = λ w a c k j g. inr g;
  gone-get = λ w a k j g. g;
  gone-patch = λ w a k b m g. g;
}
