-- ===== src/ImageBuild/FileName.antt =====
-- The file name of the artifact in the status, under `updateArtifactInfo`.
use automotive_dev_operator.Base.{
  ◌*◌, String, ◌<>◌, ◌≡◌, refl, ◌∙◌, inl, inr, Bool, true, false, ◌==◌, eq_refl, Option, some, none,
  if◌then◌else◌, Exec, raise, preserves_branch, Preserves, Preserves-pure, Preserves-raise,
  Preserves-if, Preserves-on_error,
}
use automotive_dev_operator.Kube.{Key, key_of, CtrlResult, after, done, second}
use automotive_dev_operator.ImageBuild.Types.{ImageBuild}
use automotive_dev_operator.ImageBuild.Client.{BuildClient, RouteStatus}
use automotive_dev_operator.ImageBuild.Storage.{sibling}
use automotive_dev_operator.ImageBuild.Progress.{
  with_file_name, with_artifact_path, with_artifact_url, first_host, route_with_host, publish_url,
  expose_artifact, write_artifact_info, update_artifact_info,
}
use automotive_dev_operator.ImageBuild.Server.{IsServer, artifact_merged}
use automotive_dev_operator.ImageBuild.Frame.{Holds, after_read, patch-Holds}
use automotive_dev_operator.ImageBuild.Kept.{alone}
use automotive_dev_operator.ImageBuild.Evolution.{with_file_name-meta}

module _ (C : BuildClient) (stored : C.World → Key → Option ImageBuild) (L : IsServer C stored)
    (k : Key) (file : String) where
  abbrev Named : ImageBuild → Type 0
  Named b = b.status.artifact_file_name ≡ file

  abbrev Steady : {A : Type 0} → Exec C.World A → Type 0
  Steady m = Preserves (Holds C stored k Named) m

  publish_url-Steady :
      (b : ImageBuild) (r : RouteStatus) → key_of b.meta ≡ k → Steady (publish_url C b r)
  unfolding publish_url
  publish_url-Steady b r at_k =
      Preserves-if (first_host r == "") _ _ (λ _. Preserves-pure _)
        λ _.
          after_read C stored L k Named (key_of b.meta) _ _ at_k (λ e. Preserves-pure _)
            λ c w key held n.
              let url = (if r.has_tls then "https" else "http") <> ("://" <> first_host r) in
              preserves_branch {P = Holds C stored k Named}
                (C.builds.patch_status c (with_artifact_url url c) w) _ _
                (patch-Holds C stored L k Named c (with_artifact_url url c) w held n n)
                (λ _. Preserves-pure (after (5 * second))) (λ _. Preserves-pure done)

  route_with_host-Steady : (j : Key) → Steady (route_with_host C j)
  unfolding route_with_host
  route_with_host-Steady j =
      Preserves-on_error (C.get_route j) _ _ (alone C stored L k Named (L.get_route j))
        (λ e. Preserves-pure none) (λ r. Preserves-pure _)

  expose_artifact-Steady : (b : ImageBuild) → key_of b.meta ≡ k → Steady (expose_artifact C b)
  unfolding expose_artifact
  expose_artifact-Steady b at_k =
      let test = route_with_host C (sibling b "ado-build-api") in
      Preserves-on_error (C.poll_route second (30 * second) test) _ _
        (L.poll_route _ second (30 * second) test (route_with_host-Steady _))
        (λ e. Preserves-pure _) (λ r. publish_url-Steady b r at_k)

  -- The base of the patch has the default name already, so the patch does not contain it.
  same_name :
      (held base : ImageBuild)
      → (artifact_merged held base (with_artifact_path base)).status.artifact_file_name
        ≡ held.status.artifact_file_name
  same_name held base = rw (eq_refl base.status.artifact_file_name)

  write_artifact_info-Named :
      (b : ImageBuild) (w : C.World)
      → key_of b.meta ≡ k
      → stored w k ≡ some b
      → Named b
      → Holds C stored k Named (write_artifact_info C (with_file_name b) w).1
  unfolding write_artifact_info
  write_artifact_info-Named b w at_k held n =
      let base = with_file_name b in
      let at_base : key_of base.meta ≡ k = rw (with_file_name-meta C stored L b b) at_k in
      let patches : Holds C stored k Named
          (C.builds.patch_status base (with_artifact_path base) w).1 =
        elim (L.patch_merge w k b base (with_artifact_path base) held at_base
          (record {
            meta = refl;
            spec = refl;
            phase = refl;
            start_time = refl;
            completion_time = refl;
          })
          refl refl) [
            | inl h ↦ (b, h, n)
            | inr h ↦ (artifact_merged b base (with_artifact_path base), h, same_name b base ∙ n)
          ] in
      preserves_branch (C.builds.patch_status base (with_artifact_path base) w) _ _ patches
        (λ _. Preserves-pure _)
        λ _.
          Preserves-if base.spec.expose_route _ _
            (λ _. expose_artifact-Steady (with_artifact_path base) at_base)
            (λ _. Preserves-pure done)

  either :
      (c : Bool) (m n : Exec C.World CtrlResult) (w : C.World)
      → Holds C stored k Named (m w).1
      → Holds C stored k Named (n w).1
      → Holds C stored k Named ((if c then m else n) w).1
  either true m n w hm hn = hm
  either false m n w hm hn = hn

  update_artifact_info-Steady :
      (b : ImageBuild) → key_of b.meta ≡ k → Steady (update_artifact_info C b)
  unfolding update_artifact_info
  update_artifact_info-Steady b at_k =
      after_read C stored L k Named (key_of b.meta) raise _ at_k (λ e. Preserves-raise e)
        λ c w key held n.
          either (c.status.pvc_name == "") _ _ w (c, held, n)
            (write_artifact_info-Named c w key held n)

module _ (C : BuildClient) (stored : C.World → Key → Option ImageBuild)
    (L : IsServer C stored) where
  -- `updateArtifactInfo` never changes the file name in the stored status: where the status has
  -- none, the default that it computes is not stored, whatever the server answers.
  pub update_artifact_info_name :
      (b old : ImageBuild) (w : C.World)
      → stored w (key_of b.meta) ≡ some old
      → (new : ImageBuild) × (stored (update_artifact_info C b w).1 (key_of b.meta) ≡ some new)
        × (new.status.artifact_file_name ≡ old.status.artifact_file_name)
  update_artifact_info_name b old w held =
      (update_artifact_info-Steady C stored L (key_of b.meta) old.status.artifact_file_name b
          refl).at
        w (old, held, refl)
