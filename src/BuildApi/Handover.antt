-- ===== src/BuildApi/Handover.antt =====
-- How the build API of internal/buildapi/server.go and the reconciler of
-- internal/controller/imagebuild/controller.go work together on one build.
use mathlib.Core.Option.{some-injective}
use automotive_dev_operator.Base.{
  ℕ, zero, suc, ℤ, String, ◌==◌, ◌≡◌, ◌↔◌, ◌⊎◌, inl, inr, refl, sym, true, false, StringMap, lookup,
  lookup-cons, lookup-empty, lookup-put, get_or_empty-lookup, ◌∙◌, Option, none, some, [], ◌∷◌, ap,
}
use automotive_dev_operator.Kube.{Key}
use automotive_dev_operator.Text.Chars.{contains_text}
use automotive_dev_operator.ImageBuild.Types.{ImageBuild}
use automotive_dev_operator.ImageBuild.Client.{BuildClient}
use automotive_dev_operator.ImageBuild.Server.{IsServer}
use automotive_dev_operator.ImageBuild.Pods.{upload_pod, artifact_pod}
use automotive_dev_operator.ImageBuild.Lifecycle.{Edge, upload, start, uploaded, complete, fail}
use automotive_dev_operator.ImageBuild.Outcome.{Progresses, reconcile-Progresses, build_rounds}
use automotive_dev_operator.ImageBuild.Controller.{uploads_complete_key, uploads_complete}
use automotive_dev_operator.BuildApi.Types.{BuildRequest}
use automotive_dev_operator.BuildApi.Objects.{image_build}
use automotive_dev_operator.BuildApi.Uploads.{upload_labels, with_uploads_complete}
use automotive_dev_operator.BuildApi.Files.{artifact_labels}

-- The labels have every entry of the selector.
abbrev pub Selects : StringMap → StringMap → Type 0
Selects [] labels = Unit {0}
Selects ((k, v) ∷ selector) labels = (lookup labels k ≡ some v) × Selects selector labels

abbrev build_name_key : String
build_name_key = "automotive.sdv.cloud.redhat.com/imagebuild-name"

abbrev app_name_key : String
app_name_key = "app.kubernetes.io/name"

upload_pod_labels :
    (b : ImageBuild)
    → (lookup (upload_pod b).labels build_name_key ≡ some b.meta.name)
      × (lookup (upload_pod b).labels app_name_key ≡ some "upload-pod")
unfolding upload_pod
upload_pod_labels b = (simp (lookup-cons), simp (lookup-cons))

artifact_pod_labels :
    (b : ImageBuild) (nginx : String)
    → (lookup (artifact_pod b nginx).labels build_name_key ≡ some b.meta.name)
      × (lookup (artifact_pod b nginx).labels app_name_key ≡ some "artifact-pod")
unfolding artifact_pod
artifact_pod_labels b nginx = (simp (lookup-cons), simp (lookup-cons))

-- The labels by which the upload handler looks for the pod of a build, and those by which the
-- artifact handlers do, select exactly the upload pod and the artifact pod that the reconciler makes
-- for the build of that name: not those of a build of another name, and not the pod of the other kind.
pub pods_selected :
    (name : String) (b : ImageBuild) (nginx : String)
    → (Selects (upload_labels name) (upload_pod b).labels ↔ (name ≡ b.meta.name))
      × (Selects (artifact_labels name) (artifact_pod b nginx).labels ↔ (name ≡ b.meta.name))
      × ¬ Selects (upload_labels name) (artifact_pod b nginx).labels
      × ¬ Selects (artifact_labels name) (upload_pod b).labels
pods_selected name b nginx =
    let (up_name, up_app) = upload_pod_labels b in
    let (art_name, art_app) = artifact_pod_labels b nginx in
    (
      (
        λ (h, g). some-injective name b.meta.name (sym h ∙ up_name),
        λ e. (up_name ∙ ap (λ n. some n) (sym e), (up_app, tt)),
      ),
      (
        λ (h, g). some-injective name b.meta.name (sym g.0 ∙ art_name),
        λ e. (art_app, (art_name ∙ ap (λ n. some n) (sym e), tt)),
      ),
      λ (h, g). cc (g.0, art_app),
      λ (h, g). cc (h, up_app),
    )

-- The build is to get uploads, they are not complete, and it has not begun.
record IsWaiting (b : ImageBuild) : Type 0 where
  server : b.spec.input_files_server ≡ true
  pending : uploads_complete b ≡ false
  phase : (b.status.phase ≡ "") ⊎ (b.status.phase ≡ "Uploading")

phase_waiting :
    (b : ImageBuild) (p : String)
    → IsWaiting b
    → (p ≡ b.status.phase) ⊎ Edge b p
    → (p ≡ "") ⊎ (p ≡ "Uploading")
phase_waiting b p h (inl e) = rw e h.phase
phase_waiting b p h (inr (upload e x)) = inr refl
phase_waiting b p h (inr (start e x)) = cc (h.server, x)
phase_waiting b p h (inr (uploaded e x)) = cc (h.pending, x)
phase_waiting b p h (inr (complete e)) = elim h.phase [ inl f ↦ cc (e, f) | inr f ↦ cc (e, f) ]
phase_waiting b p h (inr (fail e)) = elim h.phase [ inl f ↦ cc (e, f) | inr f ↦ cc (e, f) ]

progress-IsWaiting : (old new : ImageBuild) → IsWaiting old → Progresses old new → IsWaiting new
unfolding uploads_complete
progress-IsWaiting old new h p = record {
  server = ap (λ s. s.input_files_server) p.spec ∙ h.server;
  pending = rw p.meta h.pending;
  phase = phase_waiting old new.status.phase h p.phase;
}

-- Nothing but the mark of the upload handler is missing.
mark_completes : (b : ImageBuild) → uploads_complete (with_uploads_complete b) ≡ true
unfolding uploads_complete with_uploads_complete
mark_completes b =
    ap (λ t. t == "true")
      (get_or_empty-lookup _ uploads_complete_key (some "true")
        (lookup-put b.meta.annotations uploads_complete_key "true" uploads_complete_key))

created_pending :
    (by : String) (b : ImageBuild)
    → b.meta.annotations ≡ ("automotive.sdv.cloud.redhat.com/requested-by", by) ∷ []
    → uploads_complete b ≡ false
unfolding uploads_complete
created_pending by b e = rw e (
    ap (λ t. t == "true")
      (get_or_empty-lookup _ uploads_complete_key none (
        lookup-cons "automotive.sdv.cloud.redhat.com/requested-by" by [] uploads_complete_key
        ∙ lookup-empty uploads_complete_key)))

module _ (C : BuildClient) (stored : C.World → Key → Option ImageBuild)
    (L : IsServer C stored) where
  rounds-IsWaiting :
      (key : Key) (b : ImageBuild) (w : C.World)
      → stored w key ≡ some b
      → IsWaiting b
      → (n : ℕ)
      → (new : ImageBuild) × (stored (build_rounds C n key w) key ≡ some new) × IsWaiting new
  unfolding build_rounds
  rounds-IsWaiting key b w held h zero = (b, held, h)
  rounds-IsWaiting key b w held h (suc n) =
      let (mid, held_mid, waits) = rounds-IsWaiting key b w held h n in
      let (new, held_new, p) =
        reconcile-Progresses C stored L key mid (build_rounds C n key w) held_mid in
      (new, held_new, progress-IsWaiting mid new waits p)

  -- A build that is stored with the specification and the annotations with which `createBuild` makes
  -- it, for a request whose manifest contains the text source_path, and that has no phase yet: after
  -- any number of reconciliations, whatever calls fail, it is still new or uploading, and the
  -- annotation that the upload handler adds is the one that is missing for the next phase.
  pub created_build_waits :
      (ns by secret : String) (hours : ℤ) (q : BuildRequest) (key : Key) (b : ImageBuild)
      (w : C.World)
      → contains_text q.manifest "source_path" ≡ true
      → b.spec ≡ (image_build ns by hours secret q).spec
      → b.meta.annotations ≡ (image_build ns by hours secret q).meta.annotations
      → b.status.phase ≡ ""
      → stored w key ≡ some b
      → (rounds : ℕ)
      → (new : ImageBuild) × (stored (build_rounds C rounds key w) key ≡ some new)
        × ((new.status.phase ≡ "") ⊎ (new.status.phase ≡ "Uploading"))
        × (uploads_complete new ≡ false)
        × (uploads_complete (with_uploads_complete new) ≡ true)
  unfolding image_build
  created_build_waits ns by secret hours q key b w names spec annotations phase held rounds =
      let first : IsWaiting b = record {
        server = ap (λ s. s.input_files_server) spec ∙ names;
        pending = created_pending by b annotations;
        phase = inl phase;
      } in
      let (new, held_new, waits) = rounds-IsWaiting key b w held first rounds in
      (new, held_new, waits.phase, waits.pending, mark_completes new)
