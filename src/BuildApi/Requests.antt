-- ===== src/BuildApi/Requests.antt =====
-- Which requests `createBuild` of internal/buildapi/server.go turns down before it does anything.
use automotive_dev_operator.Base.{
  String, ◌≡◌, refl, inl, inr, Bool, true, false, ◌&&◌, ◌||◌, not, Bool-cases, Option, none, some,
  ◌==◌, if◌then◌else◌, arith, ok, err, Result, sym, subst, is_not_found, Returns, Returns-constant,
  Returns-if, Returns-on_error, ignoring, pure, ◌≢◌, ℕ, raise, Error,
}
use automotive_dev_operator.Text.Trim.{trim_space}
use automotive_dev_operator.ImageBuild.Types.{ImageBuild}
use automotive_dev_operator.BuildApi.Types.{
  is_valid, BuildRequest, Request, Response, Body, failure,
}
use automotive_dev_operator.BuildApi.Client.{
  ApiClient, fails_with, answers, get_client, resolve_namespace, resolve_requester,
}
use automotive_dev_operator.BuildApi.Objects.{
  manifest_name, or_default, manifest_config_map, asks_for_secret, image_build, with_defaults,
  refusal, with_file_defaults,
}
use automotive_dev_operator.BuildApi.Create.{
  create_unless_exists, create_objects, create_image_build, finish_creation, set_owner_ref,
  serve_expiry_hours, create_registry_secret, create_checked, create_parsed, create_build,
}

-- A field that is left out or has more than space in it.
abbrev is_proper : String → Bool
is_proper s = s == "" || not (trim_space s == "")

-- The requests that the API accepts, by the fields that were sent.
unfoldable pub is_acceptable : BuildRequest → Bool
is_acceptable q =
    not (q.name == "")
    && not (q.manifest == "")
    && ((trim_space q.compression == "" || q.compression == "lz4" || q.compression == "gzip")
        && is_proper q.distro
        && is_proper q.target
        && is_proper q.architecture
        && is_proper q.export_format
        && is_proper q.mode)

valid_default : (s v : String) → is_valid v ≡ true → is_valid (or_default s v) ≡ is_proper s
unfolding is_valid
valid_default s v h = elim (Bool-cases (s == "")) [ inl e ↦ rw (e, h) refl | inr e ↦ rw e refl ]

compression_default :
    (s : String)
    → let c = if trim_space s == "" then "gzip" else s in
      ((c == "lz4") || (c == "gzip")) ≡ (trim_space s == "" || s == "lz4" || s == "gzip")
compression_default s = elim (Bool-cases (trim_space s == "")) [
  | inl e ↦ rw e refl
  | inr e ↦ rw e refl
]

abbrev is_none : Option String → Bool
is_none none = true
is_none (some s) = false

refusal-passes :
    (q : BuildRequest)
    → is_none (refusal q) ≡ (
        (q.compression == "lz4" || q.compression == "gzip")
        && is_valid q.distro
        && is_valid q.target
        && is_valid q.architecture
        && is_valid q.export_format
        && is_valid q.mode)
unfolding refusal
refusal-passes q = ground (arith)

defaults_valid :
    (is_valid "cs9" ≡ true)
    × (is_valid "qemu" ≡ true)
    × (is_valid "arm64" ≡ true)
    × (is_valid "image" ≡ true)
unfolding is_valid
defaults_valid = (refl, refl, refl, refl)

gate : (a b c : Bool) → (not a && not b && c) ≡ (if a || b then false else c)
gate true b c = refl
gate false true c = refl
gate false false c = refl

acceptable_checks :
    (q : BuildRequest)
    → is_acceptable q
      ≡ (if q.name == "" || q.manifest == "" then false else is_none (refusal (with_defaults q)))
unfolding is_acceptable with_defaults
acceptable_checks q =
    let (cs9, qemu, arm64, image) = defaults_valid in
    rw
      (
        refusal-passes (with_defaults q),
        compression_default q.compression,
        valid_default q.distro "cs9" cs9,
        valid_default q.target "qemu" qemu,
        valid_default q.architecture "arm64" arm64,
        valid_default q.export_format "image" image,
        valid_default q.mode "image" image,
      )
      (gate (q.name == "") (q.manifest == "") _)

-- A response that does not blame the request; a failure is no response.
abbrev pub IsOtherThan : ℕ → Result Response → Type 0
IsOtherThan n (ok r) = r.status ≢ n
IsOtherThan n (err e) = Unit {0}

module _ {W : Type 0} where
  answers_other :
      (n status : ℕ) (body : Body)
      → status ≢ n
      → Returns {W = W} (IsOtherThan n) (answers status body)
  answers_other n status body d = Returns-constant _ d

  pub fails_other :
      (n status : ℕ) (text : String)
      → status ≢ n
      → Returns {W = W} (IsOtherThan n) (fails_with status text)
  fails_other n status text d = answers_other n status (failure text) d

  pub fails_500 : (text : String) → Returns {W = W} (IsOtherThan 400) (fails_with 500 text)
  fails_500 text = fails_other 400 500 text (ground (arith))

  pub failed_other : (n : ℕ) (e : Error) → Returns {W = W} (IsOtherThan n) (raise e)
  failed_other n e = Returns-constant _ tt

module _ (C : ApiClient) where
  open C use {World}

  finish_creation-other :
      (ns by secret : String) (q : BuildRequest) (b : ImageBuild)
      → Returns (IsOtherThan 400) (finish_creation C ns by secret q b)
  unfolding finish_creation
  finish_creation-other ns by secret q b =
      Returns-on_error (ignoring (set_owner_ref C ns (manifest_name q) b)) _ _ (failed_other 400)
        λ _.
          Returns-on_error
            (if secret == "" then pure tt else ignoring (set_owner_ref C ns secret b)) _ _
            (failed_other 400) λ _. answers_other 400 202 _ (ground (arith))

  create_objects-other :
      (ns by : String) (q : BuildRequest) → Returns (IsOtherThan 400) (create_objects C ns by q)
  unfolding create_objects create_image_build
  create_objects-other ns by q =
      Returns-on_error (C.create_config_map (manifest_config_map ns q)) _ _ (λ e. fails_500 _)
        λ _. Returns-on_error (serve_expiry_hours C ns) _ _ (failed_other 400) λ hours.
          Returns-on_error
            (if asks_for_secret q
              then create_registry_secret C ns q.name q.registry_credentials
              else pure "")
            _ _ (λ e. fails_500 _)
            λ secret.
              Returns-on_error (C.create_build (image_build ns by hours secret q)) _ _
                (λ e. fails_500 _) (finish_creation-other ns by secret q)

  create_unless_exists-other :
      (ns by : String) (q : BuildRequest)
      → Returns (IsOtherThan 400) (create_unless_exists C ns by q)
  unfolding create_unless_exists
  create_unless_exists-other ns by q =
      Returns-on_error (C.get_build (record { namespace = ns; name = q.name })) _ _
        (λ e.
          Returns-if (is_not_found e) _ _ (λ _. create_objects-other ns by q) (λ _. fails_500 _))
        (λ b. fails_other 400 409 _ (ground (arith)))

  create_checked-other :
      (r : Request) (q : BuildRequest) → Returns (IsOtherThan 400) (create_checked C r q)
  unfolding create_checked
  create_checked-other r q =
      Returns-on_error (get_client C) _ _ (λ e. fails_500 _)
        λ _. Returns-on_error (resolve_namespace C) _ _ (failed_other 400) λ ns.
          Returns-on_error (resolve_requester C r) _ _ (failed_other 400)
            λ by. create_unless_exists-other ns by q

  -- What a request gets, by whether it is acceptable: the world stays as it is, and the response
  -- has status 400; or the response has another status.
  abbrev pub Judged : Bool → World → Result Response × World → Type 0
  Judged false w x = (text : String) × (x ≡ (ok (record { status = 400; body = failure text }), w))
  Judged true w x = IsOtherThan 400 x.0

  Judged-checks :
      (r : Request) (q : BuildRequest) (w : World) (empty : Bool) (refused : Option String)
      → (q.name == "" || q.manifest == "") ≡ empty
      → refusal (with_defaults q) ≡ refused
      → Judged (if empty then false else is_none refused) w (create_parsed C r (ok q) w)
  unfolding create_parsed
  Judged-checks r q w true refused e f = ("name and manifest are required", rw e refl)
  Judged-checks r q w false (some text) e f = (text, rw (e, f) refl)
  Judged-checks r q w false none e f =
      rw (e, f) ((create_checked-other r (with_file_defaults (with_defaults q))).at w)

  -- A request with a JSON body gets status 400, and changes nothing, where it is not acceptable, and
  -- only there.
  pub create_build-Judged :
      (r : Request) (q : BuildRequest) (w : World)
      → r.json ≡ ok q
      → Judged (is_acceptable q) w (create_build C r w)
  unfolding create_build
  create_build-Judged r q w h =
      subst (λ x. Judged (is_acceptable q) w (create_parsed C r x w)) (sym h)
        (rw (acceptable_checks q) (Judged-checks r q w _ _ refl refl))
