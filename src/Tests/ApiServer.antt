-- ===== src/Tests/ApiServer.antt =====
-- A cluster for the build API: what it holds is a function of the key, every call succeeds, and one
-- token is accepted. The archives that were sent to pods are kept, with their commands.
use automotive_dev_operator.Base.{
  ℕ, ◌+◌, ◌==◌, ◌≡◌, String, List, refl, true, false, Bool-cases, ap, sym, ◌∙◌, ◌⊎◌, inl, inr,
  Option, none, some, [], ◌∷◌, if◌then◌else◌, arith, eq_refl, Result, ok, err, api, other,
  not_found, Exec,
}
use automotive_dev_operator.Kube.{Key, key_of}
use automotive_dev_operator.ImageBuild.Types.{ImageBuild}
use automotive_dev_operator.BuildApi.Client.{ConfigMap, Secret, ListedPod, ApiClient}
use automotive_dev_operator.BuildApi.Server.{key_of_map, key_of_secret, Views, IsApi}
use automotive_dev_operator.BuildApi.Waiting.{HasClock}
use automotive_dev_operator.Tests.Server.{same_key, same_key_eq}

pub record Cluster : Type 0 where
  pub clock : ℕ
  pub builds : Key → Option ImageBuild
  pub config_maps : Key → Option ConfigMap
  pub secrets : Key → Option Secret
  pub archives : List (List String × String)

abbrev pub empty_cluster : Cluster
empty_cluster = record {
  clock = 0;
  builds = λ k. none;
  config_maps = λ k. none;
  secrets = λ k. none;
  archives = [];
}

abbrev set_at : {A : Type 0} → (Key → Option A) → Key → A → Key → Option A
set_at f k a j = if same_key j k then some a else f j

abbrev found_or_not : {A : Type 0} → Option A → Result A
found_or_not none = err (api not_found "not found")
found_or_not (some a) = ok a

-- A config map is found under its own key.
abbrev found_under : Key → Option ConfigMap → Result ConfigMap
found_under k none = err (api not_found "not found")
found_under k (some m) = if same_key k (key_of_map m) then ok m else err (api not_found "not found")

abbrev succeeds : {A : Type 0} → A → Exec Cluster A
succeeds a w = (ok a, w)

-- The one pod that is listed.
abbrev upload_server : ListedPod
upload_server = record {
  name = "car-upload-pod";
  phase = "Running";
  containers = "fileserver" ∷ [];
  ready = "fileserver" ∷ [];
}

abbrev pub cluster_client : ApiClient
cluster_client = record {
  World = Cluster;
  Config = Unit {0};
  getenv = λ name w. "";
  read_namespace_file = succeeds "builds";
  in_cluster_config = succeeds tt;
  config_from_flags = λ s. succeeds tt;
  add_automotive_scheme = succeeds tt;
  add_core_scheme = succeeds tt;
  new_client = λ cfg. succeeds tt;
  new_clientset = λ cfg. succeeds tt;
  review_token = λ token. succeeds (record { authenticated = token == "good"; username = "jo" });
  get_operator_config = λ k w. (err (api not_found "no config"), w);
  get_build = λ k w. (found_or_not (w.builds k), w);
  list_builds = λ ns. succeeds [];
  create_build = λ b w. (ok b, record w { builds = set_at w.builds (key_of b.meta) b });
  patch_build = λ b m w. (ok tt, record w { builds = set_at w.builds (key_of b.meta) m });
  get_config_map = λ k w. (found_under k (w.config_maps k), w);
  create_config_map =
      λ m w. (ok tt, record w { config_maps = set_at w.config_maps (key_of_map m) m });
  update_config_map =
      λ m w. (ok tt, record w { config_maps = set_at w.config_maps (key_of_map m) m });
  create_secret = λ s w. (ok tt, record w { secrets = set_at w.secrets (key_of_secret s) s });
  list_pods = λ ns labels. succeeds (upload_server ∷ []);
  create_temp = succeeds "/tmp/upload-1";
  receive = λ name content. succeeds tt;
  open_file = λ name. succeeds tt;
  remove_file = λ name. succeeds tt;
  new_executor = λ cfg place command. succeeds tt;
  send_archive =
      λ place command name file w. (ok tt, record w { archives = (command, name) ∷ w.archives });
  run = λ place command. succeeds "";
  stream_to_client = λ place command. succeeds "";
  list_task_run_pods = λ ns run. succeeds [];
  get_pod = λ k w. (err (api not_found "no pod"), w);
  open_log = λ place w. (err (api other "no log"), w);
  write = λ text. succeeds tt;
  is_gone = λ w. false;
  now = λ w. w.clock;
  sleep = λ d w. record w { clock = w.clock + d };
  format_time = λ t. "";
  openapi = "openapi: 3.0.0";
  redirects_slash = λ method path. false;
}

abbrev pub cluster_views : Views Cluster
cluster_views = record {
  build = λ w. w.builds;
  config_map = λ w. w.config_maps;
  secret = λ w. w.secrets;
}

same_key_self : (k : Key) → same_key k k ≡ true
same_key_self k = rw (eq_refl k.namespace, eq_refl k.name) refl

set_at_same : {A : Type 0} (f : Key → Option A) (k : Key) (a : A) → set_at f k a k ≡ some a
set_at_same f k a = rw (same_key_self k) refl

ok_same : {A : Type 0} (a b : A) → ok a ≡ ok b → a ≡ b
ok_same a b h = cc

found_reads :
    (k : Key) (o : Option ConfigMap) (m : ConfigMap)
    → found_under k o ≡ ok m
    → (o ≡ some m) × (key_of_map m ≡ k)
found_reads k none m h = cc
found_reads k (some n) m h = elim (Bool-cases (same_key k (key_of_map n))) [
  | inl e ↦
      let same : n ≡ m = ok_same n m (rw e at h) in
      (ap (λ x. some x) same, sym (same_key_eq k (key_of_map n) e ∙ ap key_of_map same))
  | inr e ↦ cc (rw e at h)
]

updated_at :
    (f : Key → Option ConfigMap) (m : ConfigMap) (k : Key)
    → (set_at f (key_of_map m) m k ≡ f k)
      ⊎ ((k ≡ key_of_map m) × (set_at f (key_of_map m) m k ≡ some m))
updated_at f m k = elim (Bool-cases (same_key k (key_of_map m))) [
  | inl e ↦ inr (same_key_eq k (key_of_map m) e, rw e refl)
  | inr e ↦ inl (rw e refl)
]

pub cluster-IsApi : IsApi cluster_client cluster_views
cluster-IsApi = record {
  config-KeepsBuilds = λ k. record { at = λ w j. refl };
  config-KeepsMaps = λ k. record { at = λ w j. refl };
  config-KeepsSecrets = λ k. record { at = λ w j. refl };
  map-KeepsBuilds = λ k. record { at = λ w j. refl };
  map-KeepsMaps = λ k. record { at = λ w j. refl };
  map-KeepsSecrets = λ k. record { at = λ w j. refl };
  update-KeepsBuilds = λ m. record { at = λ w j. refl };
  update-KeepsSecrets = λ m. record { at = λ w j. refl };
  secret-KeepsMaps = λ s. record { at = λ w j. refl };
  build-KeepsMaps = λ b. record { at = λ w j. refl };
  build-KeepsSecrets = λ b. record { at = λ w j. refl };
  map_read = λ w k m h. found_reads k (w.config_maps k) m h;
  map_created = λ w m h. set_at_same w.config_maps (key_of_map m) m;
  map_updated = λ w m k. updated_at w.config_maps m k;
  secret_created = λ w s h. set_at_same w.secrets (key_of_secret s) s;
  build_created = λ w b c h.
      let same : b ≡ c = ok_same b c h in
      (
        rw (← same) (set_at_same w.builds (key_of b.meta) b),
        rw (← same) refl,
        rw (← same) refl,
        rw (← same) refl,
        rw (← same) refl,
        rw (← same) refl,
      );
}

pub cluster-HasClock : HasClock cluster_client
cluster-HasClock = record { sleeps = λ d w. omega arith; lists = λ ns name w. omega arith }
