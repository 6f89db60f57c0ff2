-- ===== src/Tests/BuildServer.antt =====
-- A server with one image build, whose task run has succeeded, and whose calls all return.
use Prim.Native.Nat.{compare, Ordering}
use automotive_dev_operator.Base.{
  ℕ, String, ◌≡◌, refl, sym, inr, Bool, true, false, eq_refl, eq_iff, Option, some, none, [], ◌∷◌,
  if◌then◌else◌, arith, api, not_found, message, ok, Exec, pure, raise, on_error, Preserves,
  Preserves-pure, Preserves-raise, Preserves-on_error,
}
use automotive_dev_operator.Kube.{Key, key_of}
use automotive_dev_operator.ImageBuild.Types.{ImageBuild}
use automotive_dev_operator.ImageBuild.Client.{BuildClient, TaskRun, RouteStatus}
use automotive_dev_operator.ImageBuild.Server.{
  IsServer, SameLife, patched, merge_text, artifact_merged,
}
use automotive_dev_operator.Tests.Server.{
  one_stored, one_object, one_stored_eq, one_stored_at, one_object-IsLawful,
}

abbrev same_time : Option ℕ → Option ℕ → Bool
same_time none none = true
same_time none (some b) = false
same_time (some a) none = false
same_time (some a) (some b) = elim (compare a b) [ Ordering.eq ↦ true | _ ↦ false ]

abbrev merge_time : Option ℕ → Option ℕ → Option ℕ → Option ℕ
merge_time held base m = if same_time base m then held else m

merge_text_self : (a m : String) → merge_text a a m ≡ m
merge_text_self a m = ground (arith, eq_iff a m)

merge_text_same : (held b m : String) → m ≡ b → merge_text held b m ≡ held
merge_text_same held b m e = rw (e, eq_refl b)

merge_time_self : (a m : Option ℕ) → merge_time a a m ≡ m
merge_time_self none none = refl
merge_time_self none (some b) = refl
merge_time_self (some a) none = refl
merge_time_self (some a) (some b) = ground arith

self_time : (held : Option ℕ) (b : ℕ) → merge_time held (some b) (some b) ≡ held
self_time held b = ground arith

merge_time_same : (held b m : Option ℕ) → m ≡ b → merge_time held b m ≡ held
merge_time_same held none m e = rw e
merge_time_same held (some b) m e = rw e (self_time held b)

-- A merge patch of the status, field by field.
abbrev pub merged : ImageBuild → ImageBuild → ImageBuild → ImageBuild
merged held base m = record held {
  status = record {
    phase = merge_text held.status.phase base.status.phase m.status.phase;
    start_time = merge_time held.status.start_time base.status.start_time m.status.start_time;
    completion_time =
        merge_time held.status.completion_time base.status.completion_time m.status.completion_time;
    message = merge_text held.status.message base.status.message m.status.message;
    pvc_name = merge_text held.status.pvc_name base.status.pvc_name m.status.pvc_name;
    artifact_path =
        merge_text held.status.artifact_path base.status.artifact_path m.status.artifact_path;
    artifact_file_name =
        merge_text held.status.artifact_file_name base.status.artifact_file_name
          m.status.artifact_file_name;
    task_run_name =
        merge_text held.status.task_run_name base.status.task_run_name m.status.task_run_name;
    artifact_url =
        merge_text held.status.artifact_url base.status.artifact_url m.status.artifact_url;
  };
}

merged_self : (a m : ImageBuild) → merged a a m ≡ patched a m
merged_self a m i = record a {
  status = record {
    phase = merge_text_self a.status.phase m.status.phase i;
    start_time = merge_time_self a.status.start_time m.status.start_time i;
    completion_time = merge_time_self a.status.completion_time m.status.completion_time i;
    message = merge_text_self a.status.message m.status.message i;
    pvc_name = merge_text_self a.status.pvc_name m.status.pvc_name i;
    artifact_path = merge_text_self a.status.artifact_path m.status.artifact_path i;
    artifact_file_name = merge_text_self a.status.artifact_file_name m.status.artifact_file_name i;
    task_run_name = merge_text_self a.status.task_run_name m.status.task_run_name i;
    artifact_url = merge_text_self a.status.artifact_url m.status.artifact_url i;
  };
}

merged_life :
    (held b m : ImageBuild)
    → SameLife b m
    → b.status.pvc_name ≡ m.status.pvc_name
    → b.status.task_run_name ≡ m.status.task_run_name
    → merged held b m ≡ artifact_merged held b m
merged_life held b m s p t i =
    let x = held.status in
    let y = b.status in
    let z = m.status in
    record (artifact_merged held b m) {
      status = record (artifact_merged held b m).status {
        phase = merge_text_same x.phase y.phase z.phase s.phase i;
        start_time = merge_time_same x.start_time y.start_time z.start_time s.start_time i;
        completion_time =
            merge_time_same x.completion_time y.completion_time z.completion_time s.completion_time
              i;
        pvc_name = merge_text_same x.pvc_name y.pvc_name z.pvc_name (sym p) i;
        task_run_name = merge_text_same x.task_run_name y.task_run_name z.task_run_name (sym t) i;
      };
    }

abbrev pub build_key : ImageBuild → Key
build_key b = key_of b.meta

abbrev pub route : RouteStatus
route = record { hosts = "artifacts.example.com" ∷ []; has_tls = true }

abbrev pub live_run : TaskRun
live_run = record {
  name = "demo-build-1";
  deletion_timestamp = none;
  completion_time = some 7;
  conditions = "True" ∷ [];
  results = ("artifact-filename", "demo.raw") ∷ [];
}

abbrev pub leaving_run : TaskRun
leaving_run = record live_run { name = "demo-build-0"; deletion_timestamp = some 6 }

-- The clock stands at two hours.
abbrev pub one_build : BuildClient
one_build = record {
  World = ImageBuild;
  builds = one_object build_key merged;
  update_status = λ b m w. (ok tt, record w { status = m.status });
  get_operator_config = λ k. raise (api not_found "no configuration");
  list_task_runs = λ n l. pure (leaving_run ∷ live_run ∷ []);
  get_task_run = λ k. pure live_run;
  create_task_run = λ t. pure "demo-build-1";
  get_claim = λ k. pure none;
  create_claim = λ c. pure tt;
  get_pod_phase = λ k. pure "Running";
  list_pod_labels = λ n l. pure ([] ∷ []);
  create_pod = λ p. pure tt;
  create_nginx_config_map = λ m. pure tt;
  has_service = λ k. pure tt;
  create_service = λ s. pure tt;
  get_route = λ k. pure route;
  create_route = λ r. pure tt;
  delete_object = λ a k. pure tt;
  poll = λ interval timeout test. on_error test raise (λ b. pure tt);
  poll_route = λ interval timeout test.
      on_error test raise (λ o. elim o [ none ↦ raise (message "timed out") | some r ↦ pure r ]);
  now = λ w. 7_200_000_000_000;
}

abbrev pub build_stored : ImageBuild → Key → Option ImageBuild
build_stored = one_stored build_key

pick-Preserves :
    {P : ImageBuild → Type 0} (o : Option RouteStatus)
    → Preserves P (elim o as (λ o. Exec ImageBuild RouteStatus) [
      | none ↦ raise (message "timed out")
      | some r ↦ pure r
    ])
pick-Preserves none = Preserves-raise _
pick-Preserves (some r) = Preserves-pure r

pub one_build-IsServer : IsServer one_build build_stored
one_build-IsServer = record {
  builds = one_object-IsLawful build_key merged patched merged_self (λ a m. refl);
  update_any = λ w k b m h.
      let (e, n) = one_stored_eq build_key w k b h in
      inr (rw e (one_stored_at build_key w k b (patched b m) h (rw e refl)));
  patch_merge = λ w k held b m h n s p t.
      let (e, at_k) = one_stored_eq build_key w k held h in
      inr (
        rw (← merged_life held b m s p t, e)
          (one_stored_at build_key w k held (merged held b m) h (rw e refl)));
  get_operator_config = λ k. record { at = λ w j. refl };
  list_task_runs = λ n l. record { at = λ w j. refl };
  get_task_run = λ k. record { at = λ w j. refl };
  create_task_run = λ t. record { at = λ w j. refl };
  get_claim = λ k. record { at = λ w j. refl };
  create_claim = λ c. record { at = λ w j. refl };
  get_pod_phase = λ k. record { at = λ w j. refl };
  list_pod_labels = λ n l. record { at = λ w j. refl };
  create_pod = λ p. record { at = λ w j. refl };
  create_nginx_config_map = λ m. record { at = λ w j. refl };
  has_service = λ k. record { at = λ w j. refl };
  create_service = λ s. record { at = λ w j. refl };
  get_route = λ k. record { at = λ w j. refl };
  create_route = λ r. record { at = λ w j. refl };
  delete_object = λ a k. record { at = λ w j. refl };
  poll = λ P i t test h.
      Preserves-on_error test raise _ h (λ e. Preserves-raise e) (λ b. Preserves-pure tt);
  poll_route = λ P i t test h.
      Preserves-on_error test raise _ h (λ e. Preserves-raise e) (λ o. pick-Preserves o);
}
