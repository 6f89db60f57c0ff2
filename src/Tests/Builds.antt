-- ===== src/Tests/Builds.antt =====
-- The theorems on image builds at concrete builds.
use automotive_dev_operator.Base.{
  ℕ, ◌+◌, ◌-◌, ◌*◌, ◌≤◌, ◌<◌, String, ◌⊎◌, ◌==◌, ◌≡◌, refl, true, false, pos, some, none, [], ok,
  if◌then◌else◌, arith,
}
use automotive_dev_operator.Kube.{Key, after, hour}
use automotive_dev_operator.ImageBuild.Types.{ImageBuild}
use automotive_dev_operator.ImageBuild.Progress.{update_artifact_info}
use automotive_dev_operator.ImageBuild.Expiry.{expiry_hours, handle_completed_state}
use automotive_dev_operator.ImageBuild.Lifecycle.{IsTimed}
use automotive_dev_operator.ImageBuild.Outcome.{
  Progresses, reconcile-Progresses, reconcile-IsTimed, build_rounds, build_rounds_final,
}
use automotive_dev_operator.ImageBuild.Deadline.{
  handle_completed_state_deadline, handle_completed_state_wraps,
}
use automotive_dev_operator.ImageBuild.FileName.{update_artifact_info_name}
use automotive_dev_operator.ImageBuild.Controller.{reconcile}
use automotive_dev_operator.ImageBuild.Removal.{IsRemoved}
use automotive_dev_operator.Tests.DeletingServer.{
  Site, deleting_build, site_stored, SiteGone, deleting_build-IsServer, deleting_build-Answers,
  deleting_build-Deletes,
}
use automotive_dev_operator.Tests.BuildServer.{one_build, one_build-IsServer, build_stored}

abbrev demo_key : Key
demo_key = record { namespace = "builds"; name = "demo" }

-- A build that serves its artifact for some hours, in some phase.
abbrev demo : String → ℕ → ImageBuild
demo phase hours = record {
  meta = record {
    api_version = "automotive.sdv.cloud.redhat.com/v1alpha1";
    kind = "ImageBuild";
    name = "demo";
    namespace = "builds";
    uid = "1";
    labels = [];
    annotations = [];
    finalizers = [];
    creation_timestamp = 1;
    deletion_timestamp = none;
  };
  spec = record {
    distro = "cs9";
    target = "qemu";
    architecture = "arm64";
    export_format = "image";
    mode = "image";
    storage_class = "";
    automotive_image_builder = "";
    manifest_config_map = "demo-manifest";
    publishers = none;
    runtime_class_name = "";
    serve_artifact = true;
    serve_expiry_hours = pos hours;
    input_files_server = false;
    expose_route = true;
    env_secret_ref = "";
    compression = "";
  };
  status = record {
    phase = phase;
    start_time = some 5;
    completion_time = if phase == "Completed" then some 7 else none;
    message = "";
    pvc_name = "demo-ws-1";
    artifact_path = "";
    artifact_file_name = "";
    task_run_name = "demo-build-1";
    artifact_url = "";
  };
}

abbrev building : ImageBuild
building = demo "Building" 24

abbrev completed : ImageBuild
completed = demo "Completed" 24

reconcile-Progresses_example :
    (new : ImageBuild) × (build_stored (reconcile one_build demo_key building).1 demo_key
      ≡ some new)
    × Progresses building new
reconcile-Progresses_example =
    reconcile-Progresses one_build build_stored one_build-IsServer demo_key building building refl

building-IsTimed : IsTimed building
building-IsTimed = record { started = λ h. refl; ended = λ h. cc }

reconcile-IsTimed_example :
    (new : ImageBuild) × (build_stored (reconcile one_build demo_key building).1 demo_key
      ≡ some new)
    × IsTimed new
reconcile-IsTimed_example =
    reconcile-IsTimed one_build build_stored one_build-IsServer demo_key building building refl
      building-IsTimed

build_rounds_final_example :
    (new : ImageBuild) × (build_stored (build_rounds one_build 3 demo_key completed) demo_key
      ≡ some new)
    × (new.status.phase ≡ "Completed")
    × (new.spec ≡ completed.spec)
build_rounds_final_example =
    build_rounds_final one_build build_stored one_build-IsServer demo_key completed completed refl
      refl 3

abbrev site : ImageBuild → Site
site b = record { build = b; deleted = [] }

abbrev for_an_hour : ImageBuild
for_an_hour = demo "Completed" 1

handle_completed_state_deadline_example :
    ((7_200_000_000_000 < 7 + 1 * hour)
      × (handle_completed_state deleting_build for_an_hour (site for_an_hour)
          ≡ (ok (after (7 + 1 * hour - 7_200_000_000_000)), site for_an_hour)))
    ⊎ ((7 + 1 * hour ≤ 7_200_000_000_000)
        × IsRemoved deleting_build site_stored SiteGone for_an_hour
            (handle_completed_state deleting_build for_an_hour (site for_an_hour)))
unfolding expiry_hours
handle_completed_state_deadline_example =
    handle_completed_state_deadline deleting_build site_stored SiteGone deleting_build-IsServer
      deleting_build-Answers deleting_build-Deletes for_an_hour 7 (site for_an_hour) refl refl refl
      (omega arith) (omega arith)

abbrev for_centuries : ImageBuild
for_centuries = demo "Completed" 2_562_048

handle_completed_state_wraps_example :
    IsRemoved deleting_build site_stored SiteGone for_centuries
      (handle_completed_state deleting_build for_centuries (site for_centuries))
unfolding expiry_hours
handle_completed_state_wraps_example =
    handle_completed_state_wraps deleting_build site_stored SiteGone deleting_build-IsServer
      deleting_build-Answers deleting_build-Deletes for_centuries 7 (site for_centuries) refl refl
      refl (omega arith) (omega arith) (omega arith)

update_artifact_info_name_example :
    (new : ImageBuild) × (build_stored
        (update_artifact_info one_build completed completed).1
        demo_key
      ≡ some new)
    × (new.status.artifact_file_name ≡ "")
update_artifact_info_name_example =
    update_artifact_info_name one_build build_stored one_build-IsServer completed completed
      completed refl

abbrev unnamed : ImageBuild
unnamed = record building { status = record building.status { task_run_name = "" } }
