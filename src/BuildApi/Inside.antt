-- ===== src/BuildApi/Inside.antt =====
-- Where `uploadFiles` of internal/buildapi/server.go stores the parts of a form.
use text.Mathlib.TextLemmas.{nil-append}
use automotive_dev_operator.Base.{
  String, ◌<>◌, ◌==◌, ◌≡◌, refl, ◌∙◌, false, List, [], ◌∷◌, Result, ok, err, Exec, not, Preserves,
  Preserves-pure, Preserves-on_error, Preserves-if,
}
use automotive_dev_operator.Text.Trim.{trim_space}
use automotive_dev_operator.Text.Paths.{clean}
use automotive_dev_operator.Text.Split.{split}
use automotive_dev_operator.Text.Splitting.{continued, split-append, split-pieces}
use automotive_dev_operator.Text.Cleaning.{HasNoUp, clean-HasNoUp}
use automotive_dev_operator.BuildApi.Types.{Part, Response}
use automotive_dev_operator.BuildApi.Client.{Place, ApiClient}
use automotive_dev_operator.BuildApi.Uploads.{
  is_outside, shared_directory, deferring, copy_file_to_pod, store_file, store_part, store_parts,
}

-- The path stands below /workspace/shared, and no element of it leads up.
abbrev pub IsInside : String → Type 0
IsInside path =
    (more : List String) × (split 47 path ≡ "" ∷ "workspace" ∷ "shared" ∷ more) × HasNoUp more

split-shared :
    (rest : String)
    → split 47 (shared_directory <> rest) ≡ "" ∷ "workspace" ∷ "shared" ∷ split 47 rest
unfolding split continued
split-shared rest =
    let (y, ys, e) = split-pieces 47 rest in
    split-append 47 shared_directory rest ∙ rw (e, nil-append y) refl

shared-IsInside :
    (s : String) → is_outside (clean s) ≡ false → IsInside (shared_directory <> clean s)
unfolding is_outside
shared-IsInside s h = (split 47 (clean s), split-shared (clean s), clean-HasNoUp s h)

module _ (C : ApiClient) where
  open C use {World, Config}

  -- What holds of the cluster is kept by the handling of temporary files, and by every copy to a
  -- path inside the shared directory.
  pub record KeptInside (I : World → Type 0) (cfg : Config) (place : Place) : Type 0 where
    pub create_temp : Preserves I C.create_temp
    pub receive : (tmp : String) (content : Result String) → Preserves I (C.receive tmp content)
    pub remove_file : (tmp : String) → Preserves I (C.remove_file tmp)
    pub copy :
        (tmp path : String) → IsInside path → Preserves I (copy_file_to_pod C cfg place tmp path)

  module _ (I : World → Type 0) (cfg : Config) (place : Place) (K : KeptInside I cfg place) where
    Preserves-deferring :
        {A B : Type 0} (last : Exec World B) (m : Exec World A)
        → Preserves I last
        → Preserves I m
        → Preserves I (deferring last m)
    Preserves-deferring last m kl km = record { at = λ w i. kl.at _ (km.at w i) }

    store_file-Preserves :
        (content : Result String) (dest : String) (rest : Exec World Response)
        → IsInside (shared_directory <> dest)
        → Preserves I rest
        → Preserves I (store_file C cfg place content dest rest)
    unfolding store_file
    store_file-Preserves content dest rest inside k =
        Preserves-on_error C.create_temp _ _ K.create_temp (λ e. Preserves-pure _)
          λ tmp. Preserves-deferring (C.remove_file tmp) _ (K.remove_file tmp) (
            Preserves-on_error (C.receive tmp content) _ _ (K.receive tmp content)
              (λ e. Preserves-pure _)
              λ _.
                Preserves-on_error (copy_file_to_pod C cfg place tmp (shared_directory <> dest)) _ _
                  (K.copy tmp (shared_directory <> dest) inside) (λ e. Preserves-pure _) (λ _. k))

    store_part-Preserves :
        (p : Part) (rest : Exec World Response)
        → Preserves I rest
        → Preserves I (store_part C cfg place p rest)
    unfolding store_part
    store_part-Preserves p rest k =
        let dest = trim_space p.file_name in
        Preserves-if (dest == "") _ _ (λ _. Preserves-pure _)
          λ _.
            Preserves-if (is_outside (clean dest)) _ _ (λ _. Preserves-pure _)
              λ inside.
                store_file-Preserves p.content (clean dest) rest (shared-IsInside dest inside) k

    -- Whatever every copy to a path inside the shared directory keeps, the upload of the parts of a
    -- form keeps, whatever names the client sent: the files are copied to no other paths. A path is
    -- inside where it starts with /workspace/shared/ and no element after that leads up; how the
    -- shell in the pod reads the path is not part of this.
    pub store_parts-Preserves :
        (parts : List (Result Part)) (last : Exec World Response)
        → Preserves I last
        → Preserves I (store_parts C cfg place parts last)
    unfolding store_parts
    store_parts-Preserves [] last k = k
    store_parts-Preserves (err e ∷ parts) last k = Preserves-pure _
    store_parts-Preserves (ok p ∷ parts) last k =
        let rest = store_parts C cfg place parts last in
        Preserves-if (not (p.form_name == "file")) rest (store_part C cfg place p rest)
          (λ _. store_parts-Preserves parts last k)
          (λ _. store_part-Preserves p rest (store_parts-Preserves parts last k))
