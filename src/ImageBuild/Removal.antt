-- ===== src/ImageBuild/Removal.antt =====
-- What the end of serving leaves in the cluster: the cleanup in `handleCompletedState` of
-- internal/controller/imagebuild/controller.go, where no call fails.
use automotive_dev_operator.Base.{
  String, ◌<>◌, ◌≡◌, refl, ◌∙◌, Option, some, Result, ok, err, branch, pure, on_error-ok,
}
use automotive_dev_operator.Kube.{Key, key_of, CtrlResult, done, Answers}
use automotive_dev_operator.ImageBuild.Types.{ImageBuild}
use automotive_dev_operator.ImageBuild.Client.{BuildClient, ArtifactKind}
use automotive_dev_operator.ImageBuild.Server.{IsServer}
use automotive_dev_operator.ImageBuild.Expiry.{delete_artifacts, mark_expired, expire}

-- An object is gone once its deletion was answered, whether it was there before or not. Neither the
-- deletion of another one nor a read or a patch of an image build brings it back.
pub record Deletes (C : BuildClient) (gone : C.World → ArtifactKind → Key → Type 0) : Type 0 where
  pub deleted : (w : C.World) (a : ArtifactKind) (k : Key) → gone (C.delete_object a k w).1 a k
  pub gone-delete :
      (w : C.World) (a c : ArtifactKind) (k j : Key)
      → gone w a k
      → gone (C.delete_object c j w).1 a k
  pub gone-get :
      (w : C.World) (a : ArtifactKind) (k j : Key) → gone w a k → gone (C.builds.get j w).1 a k
  pub gone-patch :
      (w : C.World) (a : ArtifactKind) (k : Key) (b m : ImageBuild)
      → gone w a k
      → gone (C.builds.patch_status b m w).1 a k

ignored : {W A : Type 0} (x : Result A × W) → branch x (λ e. pure tt) (λ a. pure tt) ≡ (ok tt, x.1)
ignored (ok a, w) = refl
ignored (err e, w) = refl

-- The key of an object in the namespace of a build, by what follows the build's name.
abbrev pub part_key : ImageBuild → String → Key
part_key b suffix = record { namespace = b.meta.namespace; name = b.meta.name <> suffix }

-- The text of the artifact is taken out of the status; all else is as it was.
abbrev pub without_artifact : ImageBuild → ImageBuild
without_artifact b = record b {
  status = record b.status {
    artifact_url = "";
    artifact_file_name = "";
    artifact_path = "";
    message = "Build expired";
  };
}

module _ (C : BuildClient) (stored : C.World → Key → Option ImageBuild)
    (gone : C.World → ArtifactKind → Key → Type 0) where
  -- Service, route, pod and configuration are gone.
  abbrev pub AreGone : ImageBuild → C.World → Type 0
  AreGone b w =
      gone w ArtifactKind.service (part_key b "-artifact-service")
      × gone w ArtifactKind.route (part_key b "-artifacts")
      × gone w ArtifactKind.pod (part_key b "-artifact-pod")
      × gone w ArtifactKind.config_map (part_key b "-nginx-config")

  -- The reconciler is done, and what served the artifact is gone.
  abbrev pub IsRemoved : ImageBuild → Result CtrlResult × C.World → Type 0
  IsRemoved b x =
      (x.0 ≡ ok done) × (stored x.1 (key_of b.meta) ≡ some (without_artifact b)) × AreGone b x.1

  module _ (L : IsServer C stored) (A : Answers C.builds stored) (D : Deletes C gone)
      (b : ImageBuild) where
    abbrev deleting : ArtifactKind → String → C.World → C.World
    deleting a suffix w = (C.delete_object a (part_key b suffix) w).1

    abbrev after_deletions : C.World → C.World
    after_deletions w = deleting ArtifactKind.config_map "-nginx-config" (
        deleting ArtifactKind.pod "-artifact-pod" (
          deleting ArtifactKind.route "-artifacts"
            (deleting ArtifactKind.service "-artifact-service" w)))

    delete_artifacts_lem : (w : C.World) → delete_artifacts C b w ≡ (ok tt, after_deletions w)
    unfolding delete_artifacts
    delete_artifacts_lem w =
        rw
          (
            ignored (C.delete_object ArtifactKind.service (part_key b "-artifact-service") w),
            ignored (
                C.delete_object ArtifactKind.route (part_key b "-artifacts")
                  (deleting ArtifactKind.service "-artifact-service" w)),
            ignored (
                C.delete_object ArtifactKind.pod (part_key b "-artifact-pod") (
                  deleting ArtifactKind.route "-artifacts"
                    (deleting ArtifactKind.service "-artifact-service" w))),
          )
          (ignored _)

    deletions-AreGone : (w : C.World) → AreGone b (after_deletions w)
    deletions-AreGone w =
        let w1 = deleting ArtifactKind.service "-artifact-service" w in
        let w2 = deleting ArtifactKind.route "-artifacts" w1 in
        let w3 = deleting ArtifactKind.pod "-artifact-pod" w2 in
        (
          D.gone-delete w3 _ _ _ _
              (D.gone-delete w2 _ _ _ _ (D.gone-delete w1 _ _ _ _ (D.deleted w _ _))),
          D.gone-delete w3 _ _ _ _ (D.gone-delete w2 _ _ _ _ (D.deleted w1 _ _)),
          D.gone-delete w3 _ _ _ _ (D.deleted w2 _ _),
          D.deleted w3 _ _,
        )

    deletions-stored : (w : C.World) (k : Key) → stored (after_deletions w) k ≡ stored w k
    deletions-stored w k =
        (L.delete_object _ _).at _ k
        ∙ ((L.delete_object _ _).at _ k
            ∙ ((L.delete_object _ _).at _ k ∙ (L.delete_object _ _).at w k))

    abbrev after_mark : C.World → C.World
    after_mark v =
        (C.builds.patch_status b (without_artifact b) (C.builds.get (key_of b.meta) v).1).1

    mark_expired_lem :
        (v : C.World)
        → stored v (key_of b.meta) ≡ some b
        → mark_expired C b v ≡ (ok tt, after_mark v)
    unfolding mark_expired
    mark_expired_lem v held =
        on_error-ok (C.builds.get (key_of b.meta)) _ _ v b (A.reads v (key_of b.meta) b held)
        ∙ ignored _

    mark-AreGone : (v : C.World) → AreGone b v → AreGone b (after_mark v)
    mark-AreGone v (s, r, p, c) =
        let key = key_of b.meta in
        let u = (C.builds.get key v).1 in
        (
          D.gone-patch u _ _ _ _ (D.gone-get v _ _ _ s),
          D.gone-patch u _ _ _ _ (D.gone-get v _ _ _ r),
          D.gone-patch u _ _ _ _ (D.gone-get v _ _ _ p),
          D.gone-patch u _ _ _ _ (D.gone-get v _ _ _ c),
        )

    mark-stored :
        (v : C.World)
        → stored v (key_of b.meta) ≡ some b
        → stored (after_mark v) (key_of b.meta) ≡ some (without_artifact b)
    mark-stored v held =
        let key = key_of b.meta in
        let u = (C.builds.get key v).1 in
        let held_u : stored u key ≡ some b = L.builds.stored-get v key key ∙ held in
        L.builds.patch_ok u key b (without_artifact b) held_u (A.patches u key b _ held_u)

    pub expire-IsRemoved :
        (w : C.World) → stored w (key_of b.meta) ≡ some b → IsRemoved b (expire C b w)
    unfolding expire
    expire-IsRemoved w held =
        let v = after_deletions w in
        let held_v : stored v (key_of b.meta) ≡ some b =
          deletions-stored w (key_of b.meta) ∙ held in
        rw (delete_artifacts_lem w, mark_expired_lem v held_v)
          (refl, mark-stored v held_v, mark-AreGone v (deletions-AreGone w))
