-- ===== src/Image/Liveness.antt =====
-- Where the API server answers, an image moves on until its phase tells whether its location is
-- accepted.
use automotive_dev_operator.Base.{
  ℕ, ◌*◌, String, ◌≡◌, refl, sym, ◌∙◌, inl, inr, Bool, true, Option, none, some, ◌==◌, eq_iff,
  if◌then◌else◌, Bool-cases, arith, Error, message, Result, ok, err, Exec, pure, on_error,
  on_error-ok, subst,
}
use automotive_dev_operator.Kube.{
  Key, key_of, CtrlResult, requeue_now, after, done, second, minute, hour, IsLawful, Answers,
  modify_status, modify_status_answered,
}
use automotive_dev_operator.Image.Types.{Image}
use automotive_dev_operator.Image.Controller.{
  ImageClient, unsupported, with_phase, verified_at, update_status, update_last_verified, move_to,
  refresh, handle_initial_state, handle_verifying_state, handle_available_state,
  verify_image_location, handle_unavailable_state, handle_phase, reconcile,
}
use automotive_dev_operator.Image.Lifecycle.{patched, located}

-- Where a reconciliation in which no call fails takes the image, and when it asks to be called
-- again.
unfoldable pub advance : Bool → String → String
advance accepted p =
    if p == ""
    then "Verifying"
    else if p == "Verifying"
    then (if accepted then "Available" else "Unavailable")
    else if p == "Available"
    then (if accepted then "Available" else "Verifying")
    else if p == "Unavailable"
    then "Verifying"
    else p

unfoldable pub next_phase : Image → String
unfolding advance
next_phase i = advance (located i) i.status.phase

pub next_check : Image → CtrlResult
next_check i =
    let p = i.status.phase in
    if p == ""
    then requeue_now
    else if p == "Verifying"
    then (if located i then after hour else after (5 * minute))
    else if p == "Available"
    then (if located i then after hour else requeue_now)
    else if p == "Unavailable"
    then requeue_now
    else done

-- The error of a location that is not accepted.
verify_error : Image → Error
verify_error image =
    if image.spec.location.type == "registry"
    then elim image.spec.location.registry [
      | none ↦ message "registry location configuration is nil"
      | some r ↦ message "registry URL is required"
    ]
    else unsupported image.spec.location.type

verify_located :
    {W : Type 0} (image : Image) (w : W)
    → verify_image_location image w
      ≡ (if located image then (ok true, w) else (err (verify_error image), w))
unfolding verify_image_location verify_error
verify_located image w = ground arith

module _ (C : ImageClient) (stored : C.World → Key → Option Image)
    (L : IsLawful C.images (λ i. key_of i.meta) patched stored) (A : Answers C.images stored) where
  -- What is asked of an outcome: it is `check`, and the state holds at `image`'s name an image in
  -- phase `p` with the specification of `image`.
  abbrev Outcome : Image → CtrlResult → String → Result CtrlResult × C.World → Type 0
  Outcome image check p x =
      (x.0 ≡ ok check)
      × (new : Image) × (stored x.1 (key_of image.meta) ≡ some new)
      × (new.status.phase ≡ p)
      × (new.spec ≡ image.spec)

  module _ (image : Image) where
    -- An action that writes `f i` over `i` and goes on.
    written-Outcome :
        (f : ℕ → Image → Image) (i : Image) (h : Error → Exec C.World CtrlResult)
        (k : Unit {0} → Exec C.World CtrlResult) (check : CtrlResult) (p : String) (w : C.World)
        → ((t : ℕ) → patched i (f t i) ≡ f t i)
        → stored w (key_of image.meta) ≡ some i
        → ((t : ℕ) (v : C.World)
            → stored v (key_of image.meta) ≡ some (f t i)
            → Outcome image check p (k tt v))
        → Outcome image check p
            (on_error (modify_status C.images C.now (key_of image.meta) f) h k w)
    written-Outcome f i h k check p w only held next =
        let (returned, t, written) =
          modify_status_answered C.images (λ i. key_of i.meta) patched stored L C.now A _ i f only w
            held in
        subst (Outcome image check p)
          (sym (on_error-ok (modify_status C.images C.now (key_of image.meta) f) h k w tt returned))
          (next t _ written)

    refresh-Outcome :
        (i : Image) (p : String) (w : C.World)
        → stored w (key_of image.meta) ≡ some i
        → i.status.phase ≡ p
        → i.spec ≡ image.spec
        → Outcome image (after hour) p (refresh C image w)
    unfolding update_last_verified
    refresh-Outcome i p w held at_p same_spec =
        written-Outcome verified_at i _ _ _ _ w (λ t. refl) held
          (λ t v h. (refl, verified_at t i, h, at_p, same_spec))

    move_to-Outcome :
        (p text : String) (again next : CtrlResult) (w : C.World)
        → stored w (key_of image.meta) ≡ some image
        → Outcome image next p (move_to C image p text again next w)
    unfolding update_status with_phase
    move_to-Outcome p text again next w held =
        written-Outcome (with_phase p text) image _ _ _ _ w (λ t. refl) held
          (λ t v h. (refl, with_phase p text t image, h, refl, refl))

    accept-Outcome :
        (w : C.World)
        → stored w (key_of image.meta) ≡ some image
        → Outcome image (after hour) "Available" (
            on_error
              (update_status C image "Available" "Image location verified and accessible")
              (λ e. pure (after (5 * second)))
              (λ _. refresh C image)
              w)
    unfolding update_status with_phase
    accept-Outcome w held =
        written-Outcome (with_phase "Available" "Image location verified and accessible") image _ _
          _ _ w (λ t. refl) held
          (λ t v h. refresh-Outcome (with_phase "Available" _ t image) "Available" v h refl refl)

    verify-Outcome :
        (h : Error → Exec C.World CtrlResult) (k : Bool → Exec C.World CtrlResult)
        (c d : CtrlResult) (p q : String) (w : C.World)
        → Outcome image c p (k true w)
        → ((e : Error) → Outcome image d q (h e w))
        → Outcome image
            (if located image then c else d)
            (if located image then p else q)
            (on_error (verify_image_location image) h k w)
    verify-Outcome h k c d p q w hk hh = elim (Bool-cases (located image)) [
      | inl l ↦ rw (l, verify_located image w, l) hk
      | inr l ↦ rw (l, verify_located image w, l) (hh (verify_error image))
    ]

    verifying-Outcome :
        (w : C.World)
        → stored w (key_of image.meta) ≡ some image
        → Outcome image
            (if located image then after hour else after (5 * minute))
            (if located image then "Available" else "Unavailable")
            (handle_verifying_state C image w)
    unfolding handle_verifying_state
    verifying-Outcome w held =
        verify-Outcome _ _ _ _ _ _ w (accept-Outcome w held) (λ e. move_to-Outcome _ _ _ _ w held)

    available-Outcome :
        (w : C.World)
        → stored w (key_of image.meta) ≡ some image
        → image.status.phase ≡ "Available"
        → Outcome image
            (if located image then after hour else requeue_now)
            (if located image then "Available" else "Verifying")
            (handle_available_state C image w)
    unfolding handle_available_state
    available-Outcome w held e =
        verify-Outcome _ _ _ _ _ _ w (refresh-Outcome image "Available" w held e refl)
          (λ e. move_to-Outcome _ _ _ _ w held)

    handle_phase-Outcome :
        (w : C.World)
        → stored w (key_of image.meta) ≡ some image
        → Outcome image (next_check image) (next_phase image) (handle_phase C image w)
    unfolding handle_phase next_check next_phase handle_initial_state handle_unavailable_state
    handle_phase-Outcome w held = elim (Bool-cases (image.status.phase == "")) [
      | inl e ↦ rw e (move_to-Outcome _ _ _ _ w held)
      | inr n ↦ elim (Bool-cases (image.status.phase == "Verifying")) [
        | inl e ↦ rw (n, e) (verifying-Outcome w held)
        | inr m ↦ elim (Bool-cases (image.status.phase == "Available")) [
          | inl e ↦ rw (n, m, e) (available-Outcome w held ((eq_iff _ _).0 e))
          | inr o ↦ elim (Bool-cases (image.status.phase == "Unavailable")) [
            | inl e ↦ rw (n, m, o, e) (move_to-Outcome _ _ _ _ w held)
            | inr u ↦ rw (n, m, o, u) (refl, image, held, refl, refl)
          ]
        ]
      ]
    ]

  -- A reconciliation of a stored image in which no call fails asks to be called again as
  -- `next_check` says, and leaves the image in the phase `next_phase` with its specification.
  pub reconcile_answered :
      (key : Key) (old : Image) (w : C.World)
      → stored w key ≡ some old
      → ((reconcile C key w).0 ≡ ok (next_check old))
        × (new : Image) × (stored (reconcile C key w).1 key ≡ some new)
        × (new.status.phase ≡ next_phase old)
        × (new.spec ≡ old.spec)
  unfolding reconcile
  reconcile_answered key old w held =
      let read = A.reads w key old held in
      let named = (L.get-stored w key old read).1 in
      let step = on_error-ok (C.images.get key) _ (handle_phase C) w old read in
      subst
        (λ (x : Result CtrlResult × C.World).
          (x.0 ≡ ok (next_check old))
          × (new : Image) × (stored x.1 key ≡ some new)
          × (new.status.phase ≡ next_phase old)
          × (new.spec ≡ old.spec))
        (sym step)
        (subst
          (λ k.
            let x = handle_phase C old (C.images.get key w).1 in
            (x.0 ≡ ok (next_check old))
            × (new : Image) × (stored x.1 k ≡ some new)
            × (new.status.phase ≡ next_phase old)
            × (new.spec ≡ old.spec))
          named
          (handle_phase-Outcome old (C.images.get key w).1 (
            subst (λ k. stored (C.images.get key w).1 k ≡ some old) (sym named)
              (L.stored-get w key key ∙ held))))
