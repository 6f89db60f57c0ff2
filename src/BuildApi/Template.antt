-- ===== src/BuildApi/Template.antt =====
-- The template that `getBuildTemplate` of internal/buildapi/server.go gives for what `createBuild`
-- stored.
use automotive_dev_operator.Base.{
  String, ◌==◌, ◌≡◌, refl, sym, ◌∙◌, ap, ◌⊎◌, inl, inr, true, false, Bool-cases, none, some,
  StringMap, lookup, put, lookup-put, lookup-empty, lookup-cons, List, [], ◌∷◌, if◌then◌else◌,
  arith, eq_iff, eq_refl, ℤ,
}
use automotive_dev_operator.Text.Split.{join}
use automotive_dev_operator.Text.Words.{AreWords, fields-join, fields-trim_space}
use automotive_dev_operator.ImageBuild.Types.{ImageBuild}
use automotive_dev_operator.BuildApi.Types.{BuildRequest}
use automotive_dev_operator.BuildApi.Objects.{manifest_data, put_args, put_joined, image_build}
use automotive_dev_operator.BuildApi.Queries.{
  is_special, find_manifest, read_args, stored_args, template_of,
}

-- The two maps have the same entries; they may be gone through in different orders.
abbrev pub HaveSameEntries : StringMap → StringMap → Type 0
HaveSameEntries m n = (k : String) → lookup m k ≡ lookup n k

-- What the loop finds: an entry of the map that is not special, unless there is none.
abbrev IsFound : StringMap → String × String → Type 0
IsFound m p =
    ((is_special p.0 ≡ false) × (lookup m p.0 ≡ some p.1))
    ⊎ ((k : String) → is_special k ≡ false → lookup m k ≡ none)

-- A special key is not one that is not special.
other_key : (j k : String) → is_special j ≡ true → is_special k ≡ false → (j == k) ≡ false
other_key j k sj sk = elim (Bool-cases (j == k)) [
  | inr e ↦ e
  | inl e ↦ ground (arith, sym (ap is_special ((eq_iff j k).0 e)) ∙ sj, sk)
]

IsFound-behind :
    (j v : String) (m : StringMap) (p : String × String)
    → is_special j ≡ true
    → IsFound m p
    → IsFound ((j, v) ∷ m) p
IsFound-behind j v m p s (inl (plain, held)) =
    inl (plain, rw (lookup-cons j v m p.0, other_key j p.0 s plain) held)
IsFound-behind j v m p s (inr all) =
    inr (λ k h. rw (lookup-cons j v m k, other_key j k s h) (all k h))

find_manifest-IsFound : (m : StringMap) → IsFound m (find_manifest m)
unfolding find_manifest
find_manifest-IsFound [] = inr (λ k h. lookup-empty k)
find_manifest-IsFound ((k, v) ∷ m) = elim (Bool-cases (is_special k)) [
  | inr e ↦ rw e (inl (e, rw (lookup-cons k v m k, eq_refl k) refl))
  | inl e ↦ rw e (IsFound-behind k v m (find_manifest m) e (find_manifest-IsFound m))
]

lookup-put_other :
    (m : StringMap) (k v j : String)
    → is_special k ≡ true
    → is_special j ≡ false
    → lookup (put m k v) j ≡ lookup m j
lookup-put_other m k v j sk sj = rw (lookup-put m k v j, other_key k j sk sj) refl

special_keys :
    (is_special "custom-definitions.env" ≡ true)
    × (is_special "aib-extra-args.txt" ≡ true)
    × (is_special "aib-override-args.txt" ≡ true)
unfolding is_special
special_keys = (refl, refl, refl)

put_joined_other :
    (key sep : String) (xs : List String) (m : StringMap) (k : String)
    → (key == k) ≡ false
    → lookup (put_joined key sep xs m) k ≡ lookup m k
unfolding put_joined
put_joined_other key sep [] m k h = refl
put_joined_other key sep (x ∷ more) m k h = rw (lookup-put m key (join sep (x ∷ more)) k, h) refl

put_args_other :
    (over extra : List String) (m : StringMap) (k : String)
    → is_special k ≡ false
    → lookup (put_args over extra m) k ≡ lookup m k
unfolding put_args
put_args_other [] extra m k h =
    put_joined_other "aib-extra-args.txt" " " extra m k (other_key _ k special_keys.1 h)
put_args_other (x ∷ more) extra m k h =
    put_joined_other "aib-override-args.txt" " " (x ∷ more) m k (other_key _ k special_keys.2 h)

-- The only entry of the data that is not special is the manifest.
lookup-manifest_data :
    (q : BuildRequest) (k : String)
    → is_special k ≡ false
    → lookup (manifest_data q) k ≡ (if q.manifest_file_name == k then some q.manifest else none)
unfolding manifest_data
lookup-manifest_data q k h =
    put_args_other q.aib_override_args q.aib_extra_args _ k h
    ∙ (put_joined_other "custom-definitions.env" "\n" q.custom_defs _ k
          (other_key _ k special_keys.0 h)
        ∙ rw (lookup-cons q.manifest_file_name q.manifest [] k, lookup-empty k) refl)

-- The arguments that count: extra ones only without an override.
abbrev pub extra_of : List String → List String → List String
extra_of [] extra = extra
extra_of (x ∷ more) extra = []

read-join : (xs : List String) → AreWords xs → read_args (some (join " " xs)) ≡ xs
unfolding read_args
read-join xs h = fields-trim_space (join " " xs) ∙ fields-join xs h

read_missing : read_args none ≡ []
unfolding read_args
read_missing = refl

put_joined_read :
    (key : String) (xs : List String) (m : StringMap)
    → lookup m key ≡ none
    → AreWords xs
    → read_args (lookup (put_joined key " " xs m) key) ≡ xs
unfolding put_joined read_args
put_joined_read key [] m e h = rw e refl
put_joined_read key (x ∷ more) m e h =
    rw (lookup-put m key (join " " (x ∷ more)) key, eq_refl key) (read-join (x ∷ more) h)

put_args_read :
    (over extra : List String) (m : StringMap)
    → lookup m "aib-override-args.txt" ≡ none
    → lookup m "aib-extra-args.txt" ≡ none
    → AreWords over
    → AreWords extra
    → (read_args (lookup (put_args over extra m) "aib-override-args.txt") ≡ over)
      × (read_args (lookup (put_args over extra m) "aib-extra-args.txt") ≡ extra_of over extra)
unfolding put_args
put_args_read [] extra m eo ee ho he = (
  ap read_args (put_joined_other "aib-extra-args.txt" " " extra m "aib-override-args.txt" refl ∙ eo)
      ∙ read_missing,
  put_joined_read "aib-extra-args.txt" extra m ee he,
)
put_args_read (x ∷ more) extra m eo ee ho he = (
  put_joined_read "aib-override-args.txt" (x ∷ more) m eo ho,
  ap read_args
        (put_joined_other "aib-override-args.txt" " " (x ∷ more) m "aib-extra-args.txt" refl ∙ ee)
      ∙ read_missing,
)

other_key_sym : (j k : String) → is_special j ≡ false → is_special k ≡ true → (j == k) ≡ false
other_key_sym j k sj sk = elim (Bool-cases (j == k)) [
  | inr e ↦ e
  | inl e ↦ ground (arith, sym (ap is_special ((eq_iff j k).0 e)) ∙ sj, sk)
]

-- Before the arguments are put, the data has none.
no_args :
    (q : BuildRequest) (k : String)
    → is_special q.manifest_file_name ≡ false
    → is_special k ≡ true
    → ("custom-definitions.env" == k) ≡ false
    → lookup
        (put_joined "custom-definitions.env" "\n" q.custom_defs
          ((q.manifest_file_name, q.manifest) ∷ []))
        k
      ≡ none
no_args q k plain special other =
    put_joined_other "custom-definitions.env" "\n" q.custom_defs _ k other
    ∙ (lookup-cons q.manifest_file_name q.manifest [] k
        ∙ rw (other_key_sym q.manifest_file_name k plain special) (lookup-empty k))

manifest_data-args :
    (q : BuildRequest)
    → is_special q.manifest_file_name ≡ false
    → AreWords q.aib_override_args
    → AreWords q.aib_extra_args
    → (read_args (lookup (manifest_data q) "aib-override-args.txt") ≡ q.aib_override_args)
      × (read_args (lookup (manifest_data q) "aib-extra-args.txt")
          ≡ extra_of q.aib_override_args q.aib_extra_args)
unfolding manifest_data
manifest_data-args q plain ho he =
    put_args_read q.aib_override_args q.aib_extra_args _
      (no_args q "aib-override-args.txt" plain special_keys.2 refl)
      (no_args q "aib-extra-args.txt" plain special_keys.1 refl) ho he

found_manifest :
    (q : BuildRequest) (entries : StringMap) (p : String × String)
    → is_special q.manifest_file_name ≡ false
    → HaveSameEntries entries (manifest_data q)
    → IsFound entries p
    → (p.0 ≡ q.manifest_file_name) × (p.1 ≡ q.manifest)
found_manifest q entries p plain same (inl (other, held)) =
    let e = sym held ∙ (same p.0 ∙ lookup-manifest_data q p.0 other) in
    ground (arith, eq_iff q.manifest_file_name p.0)
found_manifest q entries p plain same (inr all) =
    let e =
      sym (all q.manifest_file_name plain)
      ∙ (same q.manifest_file_name ∙ lookup-manifest_data q q.manifest_file_name plain) in
    ground (arith, eq_refl q.manifest_file_name)

-- What the template can give back of a request: no storage class, no definitions of its own, no
-- credentials, and no extra arguments under an override.
abbrev pub recoverable : BuildRequest → BuildRequest
recoverable q = record q {
  storage_class = "";
  custom_defs = [];
  aib_extra_args = extra_of q.aib_override_args q.aib_extra_args;
  registry_credentials = none;
}

-- The template of a build and a config map as they were created for a request gives the request back
-- but for these fields, in whichever order the entries come, where the manifest's file is not named
-- like one of the special entries, and no argument is empty or has a space.
pub template_of-recoverable :
    (q : BuildRequest) (b : ImageBuild) (entries : StringMap) (ns by secret : String) (hours : ℤ)
    → is_special q.manifest_file_name ≡ false
    → AreWords q.aib_override_args
    → AreWords q.aib_extra_args
    → b.meta.name ≡ q.name
    → b.spec ≡ (image_build ns by hours secret q).spec
    → HaveSameEntries entries (manifest_data q)
    → (template_of b entries).request ≡ recoverable q
unfolding template_of image_build stored_args
template_of-recoverable q b entries ns by secret hours plain ho he name spec same =
    let (file, text) = found_manifest q entries _ plain same (find_manifest-IsFound entries) in
    let (over, extra) = manifest_data-args q plain ho he in
    λ i. record {
      name = name i;
      manifest = text i;
      manifest_file_name = file i;
      distro = (spec i).distro;
      target = (spec i).target;
      architecture = (spec i).architecture;
      export_format = (spec i).export_format;
      mode = (spec i).mode;
      automotive_image_builder = (spec i).automotive_image_builder;
      storage_class = "";
      custom_defs = [];
      aib_extra_args = (ap read_args (same "aib-extra-args.txt") ∙ extra) i;
      aib_override_args = (ap read_args (same "aib-override-args.txt") ∙ over) i;
      serve_artifact = (spec i).serve_artifact;
      compression = (spec i).compression;
      registry_credentials = none;
    }
