-- ===== src/BuildApi/Complete.antt =====
-- When `uploadFiles` of internal/buildapi/server.go marks the uploads of a build as complete.
use automotive_dev_operator.Base.{
  String, ◌<>◌, ◌==◌, ◌≡◌, ◌⊎◌, inl, inr, Bool, true, false, not, List, [], ◌∷◌, Result, ok, err,
  Exec, Returns, Returns-constant, Returns-if, Returns-on_error, subst, arith, Option, none, some,
  is_not_found,
}
use automotive_dev_operator.Text.Chars.{◌is◌}
use automotive_dev_operator.Text.Trim.{trim_space}
use automotive_dev_operator.Text.Paths.{clean}
use automotive_dev_operator.ImageBuild.Types.{ImageBuild}
use automotive_dev_operator.BuildApi.Types.{Part, Request, Response}
use automotive_dev_operator.BuildApi.Client.{
  Place, ApiClient, ListedPod, fails_with, get_rest_config, get_client, resolve_namespace,
}
use automotive_dev_operator.BuildApi.Queries.{with_build}
use automotive_dev_operator.BuildApi.Promises.{When, When-map, When-all}
use automotive_dev_operator.BuildApi.Uploads.{
  is_outside, deferring, shared_directory, copy_file_to_pod, store_file, store_part, store_parts,
  mark_complete, upload_form, upload_to_first, upload_files, first_running, upload_labels,
}

-- A part that is no file, or whose destination is accepted.
abbrev pub IsTaken : Part → Type 0
IsTaken p =
    ((p.form_name == "file") ≡ false)
    ⊎ (((trim_space p.file_name == "") ≡ false)
        × (is_outside (clean (trim_space p.file_name)) ≡ false))

-- Every part of the form was read, and none was refused.
abbrev pub AreTaken : List (Result Part) → Type 0
AreTaken [] = Unit {0}
AreTaken (err e ∷ parts) = true ≡ false
AreTaken (ok p ∷ parts) = IsTaken p × AreTaken parts

-- A response with status 200 promises the condition.
abbrev Grants : Type 0 → Result Response → Type 0
Grants P (err e) = Unit {0}
Grants P (ok r) = When (r.status is 200) P

module _ {W : Type 0} where
  failing : (P : Type 0) (text : String) → Returns {W = W} (Grants P) (fails_with 500 text)
  failing P text = Returns-constant _ tt

  refusing : (P : Type 0) (text : String) → Returns {W = W} (Grants P) (fails_with 400 text)
  refusing P text = Returns-constant _ tt

  deferring_step :
      {B : Type 0} (P : Type 0) (last : Exec W B) (m : Exec W Response)
      → Returns (Grants P) m
      → Returns (Grants P) (deferring last m)
  deferring_step P last m h = record { at = λ w. h.at w }

Grants-map : (P R : Type 0) (r : Result Response) → (P → R) → Grants P r → Grants R r
Grants-map P R (err e) f g = tt
Grants-map P R (ok r) f g = When-map (r.status is 200) P R f g

other_form : (b : Bool) → not b ≡ true → b ≡ false
other_form b h = ground (arith)

-- A form whose parts were all read and accepted.
abbrev pub IsTakenForm : Result (List (Result Part)) → Type 0
IsTakenForm (err e) = true ≡ false
IsTakenForm (ok parts) = AreTaken parts

granted : (r : Result Response) → Grants (Unit {0}) r
granted (err e) = tt
granted (ok r) = When-all (r.status is 200) (Unit {0}) tt

module _ (C : ApiClient) where
  open C use {World, Config}

  Returns-Grants-map :
      (P R : Type 0) (m : Exec World Response)
      → (P → R)
      → Returns (Grants P) m
      → Returns (Grants R) m
  Returns-Grants-map P R m f h = record { at = λ w. Grants-map P R (m w).0 f (h.at w) }

  store_file-Grants :
      (P : Type 0) (cfg : Config) (place : Place) (content : Result String) (dest : String)
      (rest : Exec World Response)
      → Returns (Grants P) rest
      → Returns (Grants P) (store_file C cfg place content dest rest)
  unfolding store_file
  store_file-Grants P cfg place content dest rest h =
      Returns-on_error C.create_temp _ _ (λ e. failing P _)
        λ tmp. deferring_step P (C.remove_file tmp) _ (
          Returns-on_error (C.receive tmp content) _ _ (λ e. failing P _)
            λ _.
              Returns-on_error (copy_file_to_pod C cfg place tmp (shared_directory <> dest)) _ _
                (λ e. failing P _) (λ _. h))

  store_part-Grants :
      (P : Type 0) (cfg : Config) (place : Place) (p : Part) (rest : Exec World Response)
      → Returns (Grants P) rest
      → Returns (Grants (IsTaken p × P)) (store_part C cfg place p rest)
  unfolding store_part
  store_part-Grants P cfg place p rest h =
      let dest = trim_space p.file_name in
      Returns-if (dest == "") (fails_with 400 "missing destination filename") _ (λ _. refusing _ _)
        λ named.
          Returns-if (is_outside (clean dest))
            (fails_with 400 ("invalid destination path: " <> dest)) _ (λ _. refusing _ _)
            λ inside.
              store_file-Grants (IsTaken p × P) cfg place p.content (clean dest) rest
                (Returns-Grants-map P (IsTaken p × P) rest (λ x. (inr (named, inside), x)) h)

  store_parts-Grants :
      (cfg : Config) (place : Place) (parts : List (Result Part)) (last : Exec World Response)
      → Returns (Grants (AreTaken parts)) (store_parts C cfg place parts last)
  unfolding store_parts
  store_parts-Grants cfg place [] last = record { at = λ w. granted (last w).0 }
  store_parts-Grants cfg place (err e ∷ parts) last = refusing _ _
  store_parts-Grants cfg place (ok p ∷ parts) last =
      let rest = store_parts C cfg place parts last in
      Returns-if (not (p.form_name == "file")) rest (store_part C cfg place p rest)
        (λ e.
          Returns-Grants-map (AreTaken parts) (AreTaken (ok p ∷ parts)) rest
            (λ x. (inl (other_form (p.form_name == "file") e), x))
            (store_parts-Grants cfg place parts last))
        (λ e.
          store_part-Grants (AreTaken parts) cfg place p rest
            (store_parts-Grants cfg place parts last))

  form_step :
      (ns : String) (b : ImageBuild) (p : ListedPod) (form : Result (List (Result Part)))
      → Returns (Grants (IsTakenForm form)) (upload_form C ns b p form)
  unfolding upload_form
  form_step ns b p (err e) = refusing _ _
  form_step ns b p (ok parts) =
      Returns-on_error (get_rest_config C) _ _ (λ e. failing _ _)
        (λ cfg. store_parts-Grants cfg _ parts (mark_complete C b))

  pod_step :
      (ns : String) (q : Request) (b : ImageBuild) (o : Option ListedPod)
      → Returns (Grants (IsTakenForm q.form)) (upload_to_first C ns q b o)
  unfolding upload_to_first
  pod_step ns q b none = Returns-constant _ tt
  pod_step ns q b (some p) = form_step ns b p q.form

  upload_files-Grants :
      (name : String) (q : Request) → Returns (Grants (IsTakenForm q.form)) (upload_files C name q)
  unfolding upload_files with_build
  upload_files-Grants name q =
      Returns-on_error (resolve_namespace C) _ _ (λ e. Returns-constant _ tt)
        λ ns.
          Returns-on_error (get_client C) _ _ (λ e. failing _ _)
            λ _.
              Returns-on_error (C.get_build (record { namespace = ns; name = name })) _ _
                (λ e.
                  Returns-if (is_not_found e) _ _ (λ _. Returns-constant _ tt) (λ _. failing _ _))
                λ b.
                  Returns-on_error (C.list_pods ns (upload_labels name)) _ _ (λ e. failing _ _)
                    (λ pods. pod_step ns q b (first_running pods))

  grant :
      (P : Type 0) (r : Result Response) (response : Response)
      → r ≡ ok response
      → response.status ≡ 200
      → Grants P r
      → P
  grant P r response e s g = subst (λ n. When (n is 200) P) s (subst (λ x. Grants P x) e g)

  -- Where the upload of a form is answered with status 200, every part of the form was read, and each
  -- that is a file has a destination that is accepted.
  pub upload_files-IsTakenForm :
      (name : String) (q : Request) (w : World) (response : Response)
      → (upload_files C name q w).0 ≡ ok response
      → response.status ≡ 200
      → IsTakenForm q.form
  upload_files-IsTakenForm name q w response e s =
      grant (IsTakenForm q.form) (upload_files C name q w).0 response e s
        ((upload_files-Grants name q).at w)
