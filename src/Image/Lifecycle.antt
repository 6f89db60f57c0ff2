-- ===== src/Image/Lifecycle.antt =====
-- How a stored image evolves under the reconciler, whatever calls fail.
use mathlib.Core.Option.{some-injective}
use automotive_dev_operator.Base.{
  ℕ, String, ◌≡◌, refl, sym, ◌∙◌, inl, inr, Bool, true, false, Option, none, some, ◌&&◌, not, arith,
  eq_iff, ◌==◌, if◌then◌else◌, Error, Result, ok, err, Exec, pure, raise, branch, on_error, Triple,
  Triple-if, Triple-on_error, is_not_found,
}
use automotive_dev_operator.Kube.{
  Key, key_of, CtrlResult, IsLawful, Changed, modify_status-Changed, after, done,
}
use automotive_dev_operator.Image.Types.{Image, ImageSpec}
use automotive_dev_operator.Image.Controller.{
  ImageClient, with_phase, verified_at, update_status, update_last_verified, move_to, refresh,
  verify_image_location, handle_initial_state, handle_verifying_state, handle_available_state,
  handle_unavailable_state, handle_phase, reconcile,
}

-- A status patch against the held image writes the status and nothing else.
abbrev pub patched : Image → Image → Image
patched base modified = record base { status = modified.status }

-- The image has a location that the verification accepts: a registry with a URL.
abbrev pub is_registry : ImageSpec → Bool
is_registry spec =
    (spec.location.type == "registry")
    && elim spec.location.registry [ none ↦ false | some r ↦ not (r.url == "") ]

abbrev pub located : Image → Bool
located i = is_registry i.spec

-- The diagram of the phases. An image becomes available only where its location is accepted.
pub data Edge (i : Image) : String → Type 0 where
  start : i.status.phase ≡ "" → Edge i "Verifying"
  accept : i.status.phase ≡ "Verifying" → located i ≡ true → Edge i "Available"
  reject : i.status.phase ≡ "Verifying" → located i ≡ false → Edge i "Unavailable"
  recheck : i.status.phase ≡ "Available" → located i ≡ false → Edge i "Verifying"
  retry : i.status.phase ≡ "Unavailable" → Edge i "Verifying"

-- What one reconciliation may make of an image: nothing, one move along the diagram, and a new time
-- of verification.
pub data Evolves (old : Image) : Image → Type 0 where
  same : Evolves old old
  move : {p : String} (text : String) (t : ℕ) → Edge old p → Evolves old (with_phase p text t old)
  verify : {i : Image} (t : ℕ) → Evolves old i → Evolves old (verified_at t i)

module _ (C : ImageClient) (stored : C.World → Key → Option Image)
    (L : IsLawful C.images (λ i. key_of i.meta) patched stored) (image : Image) where
  abbrev Held : Image → C.World → Type 0
  Held i w = stored w (key_of image.meta) ≡ some i

  abbrev Reached : C.World → Type 0
  Reached w = (new : Image) × (stored w (key_of image.meta) ≡ some new) × Evolves image new

  update_status-Changed :
      (p text : String) (i : Image) (w : C.World)
      → Held i w
      → Changed stored
          (key_of image.meta)
          i
          (with_phase p text)
          (update_status C image p text w).0
          (update_status C image p text w).1
  unfolding update_status with_phase
  update_status-Changed p text i w h =
      modify_status-Changed C.images (λ i. key_of i.meta) patched stored L C.now _ i
        (with_phase p text) (λ t. refl) w h

  move-Reached :
      (p text : String) (r : Result (Unit {0})) (w : C.World)
      → Edge image p
      → Changed stored (key_of image.meta) image (with_phase p text) r w
      → Reached w
  move-Reached p text r w e c = elim c.either [
    | inl h ↦ (image, h, same)
    | inr th ↦ (with_phase p text th.0 image, th.1, move text th.0 e)
  ]

  move_to-Reached :
      (p text : String) (again next : CtrlResult)
      → Edge image p
      → Triple (Held image) (move_to C image p text again next) (λ r. Reached)
  move_to-Reached p text again next e =
      Triple-on_error (Held image) (update_status C image p text) _ _
        (Changed stored (key_of image.meta) image (with_phase p text)) (λ r. Reached)
        (record { at = λ w. update_status-Changed p text image w })
        (λ x. record { at = λ w. move-Reached p text (err x) w e })
        (λ x. record { at = λ w. move-Reached p text (ok x) w e })

  verified-Reached :
      (i : Image) (r : Result (Unit {0})) (w : C.World)
      → Evolves image i
      → Changed stored (key_of image.meta) i verified_at r w
      → Reached w
  verified-Reached i r w e c = elim c.either [
    | inl h ↦ (i, h, e)
    | inr th ↦ (verified_at th.0 i, th.1, verify th.0 e)
  ]

  refresh-Reached : Triple Reached (refresh C image) (λ r. Reached)
  unfolding update_last_verified
  refresh-Reached =
      Triple-on_error Reached (update_last_verified C image) _ _ (λ r. Reached) (λ r. Reached)
        (record {
          at = λ w h. verified-Reached h.0 _ _ h.2 (
              modify_status-Changed C.images (λ i. key_of i.meta) patched stored L C.now _ h.0
                verified_at (λ t. refl) w h.1);
        })
        (λ x. record { at = λ w h. h }) (λ x. record { at = λ w h. h })

  Held→Reached : (w : C.World) → Held image w → Reached w
  Held→Reached w h = (image, h, same)

  -- The verification calls nothing, and either accepts the location or fails.
  abbrev Verdict : Result Bool → Type 0
  Verdict (ok b) = (located image ≡ true) × (b ≡ true)
  Verdict (err e) = located image ≡ false

  verify-Verdict :
      (w : C.World)
      → Verdict (verify_image_location image w).0 × ((verify_image_location image w).1 ≡ w)
  unfolding verify_image_location
  verify-Verdict w = ground arith

  verify-rule :
      (h : Error → Exec C.World CtrlResult) (k : Bool → Exec C.World CtrlResult)
      → ((e : Error) → located image ≡ false → Triple (Held image) (h e) (λ r. Reached))
      → (located image ≡ true → Triple (Held image) (k true) (λ r. Reached))
      → Triple (Held image) (on_error (verify_image_location image) h k) (λ r. Reached)
  verify-rule h k th tk =
      Triple-on_error (Held image) (verify_image_location image) h k
        (λ r w. Held image w × Verdict r) (λ r. Reached)
        (record { at = λ w p. (rw (verify-Verdict w).1 p, (verify-Verdict w).0) })
        (λ e. record { at = λ w p. (th e p.1).at w p.0 })
        (λ b. record { at = λ w p. rw p.1.1 ((tk p.1.0).at w p.0) })

  accept-Reached :
      Edge image "Available"
      → Triple
          (Held image)
          (on_error
            (update_status C image "Available" "Image location verified and accessible")
            (λ e. pure (after 5_000_000_000))
            (λ _. refresh C image))
          (λ r. Reached)
  accept-Reached e =
      Triple-on_error (Held image)
        (update_status C image "Available" "Image location verified and accessible") _ _
        (λ r. Reached) (λ r. Reached)
        (record { at = λ w h. move-Reached _ _ _ _ e (update_status-Changed _ _ image w h) })
        (λ x. record { at = λ w h. h }) (λ x. refresh-Reached)

  handle_verifying_state-Reached :
      image.status.phase ≡ "Verifying"
      → Triple (Held image) (handle_verifying_state C image) (λ r. Reached)
  unfolding handle_verifying_state
  handle_verifying_state-Reached e =
      verify-rule _ _ (λ _ l. move_to-Reached _ _ _ _ (reject e l))
        (λ l. accept-Reached (accept e l))

  handle_available_state-Reached :
      image.status.phase ≡ "Available"
      → Triple (Held image) (handle_available_state C image) (λ r. Reached)
  unfolding handle_available_state
  handle_available_state-Reached e =
      verify-rule _ _ (λ _ l. move_to-Reached _ _ _ _ (recheck e l))
        (λ l. record { at = λ w h. refresh-Reached.at w (Held→Reached w h) })

  handle_phase-Reached : Triple (Held image) (handle_phase C image) (λ r. Reached)
  unfolding handle_phase handle_initial_state handle_unavailable_state
  handle_phase-Reached =
      Triple-if _ _ _ _ _ (λ e. move_to-Reached _ _ _ _ (start ((eq_iff _ _).0 e)))
        λ _.
          Triple-if _ _ _ _ _ (λ e. handle_verifying_state-Reached ((eq_iff _ _).0 e))
            λ _.
              Triple-if _ _ _ _ _ (λ e. handle_available_state-Reached ((eq_iff _ _).0 e))
                λ _.
                  Triple-if _ _ _ _ _ (λ e. move_to-Reached _ _ _ _ (retry ((eq_iff _ _).0 e)))
                    λ _. record { at = λ w h. Held→Reached w h }

module _ (C : ImageClient) (stored : C.World → Key → Option Image)
    (L : IsLawful C.images (λ i. key_of i.meta) patched stored) where
  unread_keeps :
      (e : Error) (w : C.World)
      → ((if is_not_found e then pure done else raise {A = CtrlResult} e) w).1 ≡ w
  unread_keeps e w = ground arith

  reconcile_branch :
      (key : Key) (old : Image) (x : Result Image × C.World)
      → stored x.1 key ≡ some old
      → ((i : Image) → x.0 ≡ ok i → (old ≡ i) × (key_of i.meta ≡ key))
      → (new : Image) × (stored
            (branch x (λ e. if is_not_found e then pure done else raise e) (handle_phase C)).1
            key
          ≡ some new)
        × Evolves old new
  reconcile_branch key old (ok i, w) h read =
      let (e, n) = read i refl in
      rw (e, ← n) ((handle_phase-Reached C stored L i).at w (rw (e, ← n) at h))
  reconcile_branch key old (err e, w) h read = (old, rw (unread_keeps e w) h, same)

  -- Whatever calls fail in a reconciliation of a stored image, the image is still stored after it,
  -- and is the old one, moved along at most one edge of the diagram of phases and perhaps marked
  -- as verified: the reconciler changes neither the specification nor the metadata.
  pub reconcile-Evolves :
      (key : Key) (old : Image) (w : C.World)
      → stored w key ≡ some old
      → (new : Image) × (stored (reconcile C key w).1 key ≡ some new) × Evolves old new
  unfolding reconcile
  reconcile-Evolves key old w h =
      reconcile_branch key old (C.images.get key w) (L.stored-get w key key ∙ h) (λ i e.
        (some-injective old i (sym h ∙ (L.get-stored w key i e).0), (L.get-stored w key i e).1))
