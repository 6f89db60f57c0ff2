-- ===== src/Tests/Images.antt =====
-- The theorems on images at concrete images.
use automotive_dev_operator.Base.{
  String, ◌≡◌, refl, inl, some, none, [], ◌∷◌, Option, ok, pos, arith,
}
use automotive_dev_operator.Kube.{Key, key_of, IsLawful, Answers}
use automotive_dev_operator.Image.Types.{Image, Condition}
use automotive_dev_operator.Image.Controller.{ImageClient, reconcile}
use automotive_dev_operator.Image.Lifecycle.{patched, Evolves, reconcile-Evolves}
use automotive_dev_operator.Image.Conditions.{
  IsConsistent, find_condition, count_conditions, reconcile-IsConsistent,
}
use automotive_dev_operator.Image.Liveness.{next_phase, next_check, reconcile_answered}
use automotive_dev_operator.Image.Rounds.{rounds, rounds-available}
use automotive_dev_operator.Tests.Server.{
  one_stored, one_object, one_object-IsLawful, one_object-Answers,
}

abbrev image_key : Image → Key
image_key i = key_of i.meta

abbrev one_image : ImageClient
one_image = record {
  World = Image;
  images = one_object image_key (λ held b m. patched held m);
  now = λ w. 100;
}

abbrev image_stored : Image → Key → Option Image
image_stored = one_stored image_key

one_image-IsLawful : IsLawful one_image.images image_key patched image_stored
one_image-IsLawful =
    one_object-IsLawful image_key (λ held b m. patched held m) patched (λ a m. refl) (λ a m. refl)

abbrev demo_key : Key
demo_key = record { namespace = "images"; name = "demo" }

-- An image in some phase, with a condition of another type.
abbrev ready : Condition
ready = record {
  type = "Ready";
  status = "True";
  reason = "";
  message = "";
  last_transition_time = 3;
}

abbrev demo : String → Image
demo phase = record {
  meta = record {
    api_version = "automotive.sdv.cloud.redhat.com/v1alpha1";
    kind = "Image";
    name = "demo";
    namespace = "images";
    uid = "1";
    labels = [];
    annotations = [];
    finalizers = [];
    creation_timestamp = 1;
    deletion_timestamp = none;
  };
  spec = record {
    distro = "cs9";
    target = "qemu";
    architecture = "arm64";
    export_format = "image";
    mode = "image";
    size = none;
    location = record {
      type = "registry";
      registry = some (record { url = "quay.io/demo:1"; digest = ""; secret_ref = "" });
    };
    metadata = none;
    tags = [];
    description = "";
    version = "";
  };
  status = record {
    phase = phase;
    last_verified = none;
    message = "";
    conditions = ready ∷ [];
    access_count = pos 0;
    last_accessed = none;
  };
}

abbrev fresh : Image
fresh = demo ""

reconcile-Evolves_example :
    (new : Image) × (image_stored (reconcile one_image demo_key fresh).1 demo_key ≡ some new)
    × Evolves fresh new
reconcile-Evolves_example =
    reconcile-Evolves one_image image_stored one_image-IsLawful demo_key fresh fresh refl

fresh-IsConsistent : IsConsistent fresh
unfolding count_conditions
fresh-IsConsistent = record { unique = omega arith; agrees = inl refl }

reconcile-IsConsistent_example :
    (new : Image) × (image_stored (reconcile one_image demo_key fresh).1 demo_key ≡ some new)
    × IsConsistent new
    × (find_condition "Ready" new.status.conditions ≡ some ready)
unfolding find_condition
reconcile-IsConsistent_example =
    reconcile-IsConsistent one_image image_stored one_image-IsLawful demo_key fresh "Ready" fresh
      refl fresh-IsConsistent (λ e. cc)

one_image-Answers : Answers one_image.images image_stored
one_image-Answers = one_object-Answers image_key (λ held b m. patched held m)

abbrev verifying : Image
verifying = demo "Verifying"

reconcile_answered_example :
    ((reconcile one_image demo_key verifying).0 ≡ ok (next_check verifying))
    × (new : Image) × (image_stored (reconcile one_image demo_key verifying).1 demo_key ≡ some new)
    × (new.status.phase ≡ next_phase verifying)
    × (new.spec ≡ verifying.spec)
reconcile_answered_example =
    reconcile_answered one_image image_stored one_image-IsLawful one_image-Answers demo_key
      verifying verifying refl

rounds-available_example :
    (new : Image) × (image_stored (rounds one_image 3 demo_key fresh) demo_key ≡ some new)
    × (new.status.phase ≡ "Available")
    × (new.spec ≡ fresh.spec)
rounds-available_example =
    rounds-available one_image image_stored one_image-IsLawful one_image-Answers demo_key fresh
      fresh refl (inl refl) refl 1
