-- ===== src/ImageBuild/Deadline.antt =====
-- How long the artifact of a completed build is served.
use automotive_dev_operator.Base.{
  ℕ, ◌+◌, ◌-◌, ◌*◌, ◌^◌, ◌≤◌, ◌<◌, ltb, ◌≡◌, refl, ◌∙◌, ◌⊎◌, Option, inl, inr, Bool-cases, pure,
  none, true, false, some, ok, if◌then◌else◌, arith,
}
use automotive_dev_operator.Kube.{Key, key_of, Answers, after, done, second, hour}
use automotive_dev_operator.ImageBuild.Types.{ImageBuild}
use automotive_dev_operator.ImageBuild.Client.{BuildClient, ArtifactKind}
use automotive_dev_operator.ImageBuild.Server.{IsServer}
use automotive_dev_operator.ImageBuild.Removal.{Deletes, IsRemoved, expire-IsRemoved}
use automotive_dev_operator.ImageBuild.Expiry.{
  expiry_hours, expiry_bits, is_before, remaining, expire, serve_until, handle_completed_state,
}

-- The largest number of hours whose duration is not negative in 64 bits.
abbrev pub max_hours : ℕ
max_hours = 2_562_047

bits_small : (b : ImageBuild) → expiry_hours b ≤ max_hours → expiry_bits b ≡ expiry_hours b * hour
unfolding expiry_bits
bits_small b h = omega arith

before_small :
    (now completion d : ℕ) → d < 2 ^ 63 → is_before now completion d ≡ ltb now (completion + d)
unfolding is_before
before_small now completion d h = ground arith

-- A pattern with the highest bit set stands for a negative duration, so the time has passed.
not_before :
    (now completion d : ℕ) → 2 ^ 63 ≤ d → completion ≤ now → is_before now completion d ≡ false
unfolding is_before
not_before now completion d h c = ground arith

bits_large :
    (b : ImageBuild)
    → max_hours < expiry_hours b
    → expiry_hours b ≤ 5_124_095
    → 2 ^ 63 ≤ expiry_bits b
unfolding expiry_bits
bits_large b l h = omega arith

remaining_small :
    (now completion d : ℕ)
    → d < 2 ^ 63
    → completion ≤ now
    → remaining now completion d ≡ completion + d - now
unfolding remaining
remaining_small now completion d h c = ground arith

module _ (C : BuildClient) where
  serving :
      (b : ImageBuild) (t : ℕ) (w : C.World)
      → b.spec.serve_artifact ≡ true
      → b.status.completion_time ≡ some t
      → handle_completed_state C b w ≡ serve_until C b t w
  unfolding handle_completed_state
  serving b t w s c i =
      (if s i
          then elim (c i) [
            | none ↦ pure (after (5 * second))
            | some completion ↦ serve_until C b completion
          ]
          else pure done)
        w

  in_time :
      (b : ImageBuild) (t : ℕ) (w : C.World)
      → b.spec.serve_artifact ≡ true
      → b.status.completion_time ≡ some t
      → t ≤ C.now w
      → expiry_hours b ≤ max_hours
      → let deadline = t + expiry_hours b * hour in
        handle_completed_state C b w
        ≡ (if ltb (C.now w) deadline then (ok (after (deadline - C.now w)), w) else expire C b w)
  unfolding serve_until
  in_time b t w s c p h =
      let d = expiry_hours b * hour in
      rw (serving b t w s c, bits_small b h, before_small (C.now w) t d (omega arith))
        (elim (Bool-cases (ltb (C.now w) (t + d))) [
          | inl e ↦ rw (e, remaining_small (C.now w) t d (omega arith) p) refl
          | inr e ↦ rw e refl
        ])

  module _ (stored : C.World → Key → Option ImageBuild)
      (gone : C.World → ArtifactKind → Key → Type 0) (L : IsServer C stored)
      (A : Answers C.builds stored) (D : Deletes C gone) where
    -- A completed build whose artifact is to be served, for at most 2562047 hours, in a cluster in
    -- which no deletion and no call on image builds fails: as long as the hours since its completion
    -- have not passed, the reconciler touches nothing and comes back when they will have. From then
    -- on the service, the route, the pod and the configuration that serve the artifact are gone
    -- after the reconciliation, and the stored status has no URL, name or path of an artifact.
    pub handle_completed_state_deadline :
        (b : ImageBuild) (t : ℕ) (w : C.World)
        → stored w (key_of b.meta) ≡ some b
        → b.spec.serve_artifact ≡ true
        → b.status.completion_time ≡ some t
        → t ≤ C.now w
        → expiry_hours b ≤ max_hours
        → let deadline = t + expiry_hours b * hour in
          ((C.now w < deadline)
            × (handle_completed_state C b w ≡ (ok (after (deadline - C.now w)), w)))
          ⊎ ((deadline ≤ C.now w) × IsRemoved C stored gone b (handle_completed_state C b w))
    handle_completed_state_deadline b t w held s c p h =
        let d = expiry_hours b * hour in
        let same = in_time b t w s c p h in
        elim (Bool-cases (ltb (C.now w) (t + d))) [
          | inl e ↦ inl (ground (arith), same ∙ rw e refl)
          | inr e ↦
              let removes : handle_completed_state C b w ≡ expire C b w = same ∙ rw e refl in
              inr (ground (arith), rw removes (expire-IsRemoved C stored gone L A D b w held))
        ]

    -- For 2562048 to 5124095 hours the product is negative in 64 bits: in a cluster in which no
    -- deletion and no call on image builds fails, what serves the artifact is gone after the first
    -- reconciliation after the completion.
    pub handle_completed_state_wraps :
        (b : ImageBuild) (t : ℕ) (w : C.World)
        → stored w (key_of b.meta) ≡ some b
        → b.spec.serve_artifact ≡ true
        → b.status.completion_time ≡ some t
        → t ≤ C.now w
        → max_hours < expiry_hours b
        → expiry_hours b ≤ 5_124_095
        → IsRemoved C stored gone b (handle_completed_state C b w)
    unfolding serve_until
    handle_completed_state_wraps b t w held s c p l h =
        let removes : handle_completed_state C b w ≡ expire C b w =
          rw (serving b t w s c, not_before (C.now w) t (expiry_bits b) (bits_large b l h) p)
            refl in
        rw removes (expire-IsRemoved C stored gone L A D b w held)
