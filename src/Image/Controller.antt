-- ===== src/Image/Controller.antt =====
-- The reconciler of images, internal/controller/image/controller.go. The API client is the
-- parameter `C`; logging is left out.
use automotive_dev_operator.Base.{
  ℕ, ◌*◌, String, ◌<>◌, Bool, true, Option, none, some, List, [], ◌∷◌, ◌==◌, if◌then◌else◌, Error,
  message, error_text, is_not_found, Exec, pure, raise, on_error,
}
use automotive_dev_operator.Kube.{
  Key, key_of, CtrlResult, done, requeue_now, after, second, minute, hour, ObjectClient,
  modify_status,
}
use automotive_dev_operator.Image.Types.{Image, RegistryLocation, Condition}

-- `client.Client` and `metav1.Now()` as the reconciler uses them, over an unknown state of the
-- cluster.
pub record ImageClient : Type 1 where
  pub World : Type 0
  pub images : ObjectClient World Image
  pub now : World → ℕ

-- The condition that `updateStatus` writes.
unfoldable pub make_condition : String → String → ℕ → Condition
make_condition phase text now = record {
  type = "Available";
  status = if phase == "Available" then "True" else "False";
  reason =
      if phase == "Available"
      then "Available"
      else if phase == "Unavailable"
      then "Unavailable"
      else "Verifying";
  message = text;
  last_transition_time = now;
}

-- The loop of `updateStatus`: the first condition of this type is replaced, or one is added.
unfoldable pub set_condition : Condition → List Condition → List Condition
set_condition c [] = c ∷ []
set_condition c (x ∷ xs) = if x.type == "Available" then c ∷ xs else x ∷ set_condition c xs

-- The object that `updateStatus` sends.
unfoldable pub with_phase : String → String → ℕ → Image → Image
unfolding make_condition set_condition
with_phase phase text now fresh = record fresh {
  status = record fresh.status {
    phase = phase;
    message = text;
    conditions = set_condition (make_condition phase text now) fresh.status.conditions;
  };
}

-- The object that `updateLastVerified` sends.
abbrev pub verified_at : ℕ → Image → Image
verified_at now fresh = record fresh { status = record fresh.status { last_verified = some now } }

abbrev pub unsupported : String → Error
unsupported type =
    message ("unsupported location type: " <> (type <> " (only 'registry' is currently supported)"))

-- Whether the image is accessible; the source has a placeholder for the registry's answer.
unfoldable pub verify_registry_location : {W : Type 0} → Option RegistryLocation → Exec W Bool
verify_registry_location none = raise (message "registry location configuration is nil")
verify_registry_location (some r) =
    if r.url == "" then raise (message "registry URL is required") else pure true

unfoldable pub verify_image_location : {W : Type 0} → Image → Exec W Bool
unfolding verify_registry_location
verify_image_location image =
    if image.spec.location.type == "registry"
    then verify_registry_location image.spec.location.registry
    else raise (unsupported image.spec.location.type)

module _ (C : ImageClient) where
  open C use {World}

  unfoldable pub update_status : Image → String → String → Exec World (Unit {0})
  update_status image phase text =
      modify_status C.images C.now (key_of image.meta) (with_phase phase text)

  unfoldable pub update_last_verified : Image → Exec World (Unit {0})
  update_last_verified image = modify_status C.images C.now (key_of image.meta) verified_at

  -- `if err := r.updateStatus(...); err != nil { return retry }; return next`
  abbrev pub move_to : Image → String → String → CtrlResult → CtrlResult → Exec World CtrlResult
  move_to image phase text retry next =
      on_error (update_status image phase text) (λ e. pure retry) (λ _. pure next)

  -- `updateLastVerified`, whose error is logged, and the hourly check.
  abbrev pub refresh : Image → Exec World CtrlResult
  refresh image =
      on_error (update_last_verified image) (λ e. pure (after hour)) (λ _. pure (after hour))

  unfoldable pub handle_initial_state : Image → Exec World CtrlResult
  handle_initial_state image =
      move_to image "Verifying" "Starting image location verification" (after (5 * second))
        requeue_now

  unfoldable pub handle_verifying_state : Image → Exec World CtrlResult
  handle_verifying_state image =
      on_error (verify_image_location image)
        (λ e.
          move_to image "Unavailable" ("Verification failed: " <> error_text e)
            (after (10 * second)) (after (5 * minute)))
        λ accessible.
          if accessible
          then on_error (update_status image "Available" "Image location verified and accessible")
              (λ e. pure (after (5 * second))) (λ _. refresh image)
          else move_to image "Unavailable" "Image location is not accessible" (after (5 * second))
              (after (5 * minute))

  abbrev pub reverify : Image → Exec World CtrlResult
  reverify image =
      move_to image "Verifying" "Re-verifying image location" (after (5 * second)) requeue_now

  unfoldable pub handle_available_state : Image → Exec World CtrlResult
  handle_available_state image =
      on_error (verify_image_location image) (λ e. reverify image)
        (λ accessible. if accessible then refresh image else reverify image)

  unfoldable pub handle_unavailable_state : Image → Exec World CtrlResult
  handle_unavailable_state image =
      move_to image "Verifying" "Retrying image location verification" (after (5 * second))
        requeue_now

  -- The `switch` on the phase.
  unfoldable pub handle_phase : Image → Exec World CtrlResult
  handle_phase image =
      let phase = image.status.phase in
      if phase == ""
      then handle_initial_state image
      else if phase == "Verifying"
      then handle_verifying_state image
      else if phase == "Available"
      then handle_available_state image
      else if phase == "Unavailable"
      then handle_unavailable_state image
      else pure done

  unfoldable pub reconcile : Key → Exec World CtrlResult
  reconcile key =
      on_error (C.images.get key) (λ e. if is_not_found e then pure done else raise e) handle_phase
