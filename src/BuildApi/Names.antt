-- ===== src/BuildApi/Names.antt =====
-- The names of artifacts in internal/buildapi/server.go: what the handlers call an artifact, and what
-- a client may ask for.
use Prim.Native.Char.{Char, code}
use text.Mathlib.TextLemmas.{nil-append, cons-append}
use automotive_dev_operator.Base.{
  ℕ, String, ◌<>◌, ◌==◌, ◌≡◌, ◌⊎◌, refl, ◌∙◌, ap, inl, inr, Bool, true, false, not, ◌&&◌, ◌||◌,
  Bool-cases, if◌then◌else◌, arith, eq_refl, subst,
}
use automotive_dev_operator.Text.Chars.{◌is◌, has_prefix, has_suffix, contains_text, is_space}
use automotive_dev_operator.Text.Trim.{trim_space, trim_suffix, trim_left, trim_right, keep_before}
use automotive_dev_operator.Text.Splitting.{has_code, has_code-some}
use automotive_dev_operator.Text.Paths.{ext}
use automotive_dev_operator.ImageBuild.Types.{ImageBuild}
use automotive_dev_operator.BuildApi.Files.{
  format_extension, artifact_file_name, compression_extension, with_compression, is_allowed,
  is_bad_name, default_headers,
}

cons_full : (c : Char) (t : String) → (String.◌∷◌ c t == "") ≡ false
unfolding has_code
cons_full c t = has_code-some (code c) (String.◌∷◌ c t) (ground (arith))

has_suffix_self : (t : String) → has_suffix t t ≡ true
unfolding has_suffix
has_suffix_self String.[] = refl
has_suffix_self (String.◌∷◌ c t) = rw (eq_refl (String.◌∷◌ c t)) refl

has_suffix-append : (s t : String) → has_suffix (s <> t) t ≡ true
unfolding has_suffix
has_suffix-append String.[] t = rw (nil-append t) (has_suffix_self t)
has_suffix-append (String.◌∷◌ c s) t =
    rw (cons-append c s t, has_suffix-append s t) (ground (arith))

is_refl : (n : ℕ) → (n is n) ≡ true
is_refl n = ground (arith)

prefix_empty : (s : String) → has_prefix s "" ≡ true
unfolding has_prefix
prefix_empty String.[] = refl
prefix_empty (String.◌∷◌ c s) = refl

has_prefix-trim_suffix : (s t e : String) → has_prefix (s <> e) (trim_suffix s t) ≡ true
unfolding has_prefix trim_suffix
has_prefix-trim_suffix String.[] t e = prefix_empty ("" <> e)
has_prefix-trim_suffix (String.◌∷◌ c s) t e =
    let whole = String.◌∷◌ c s <> e in
    let cut = String.◌∷◌ c (trim_suffix s t) in
    elim (Bool-cases (String.◌∷◌ c s == t)) [
      | inl h ↦ ap (λ b. has_prefix whole (if b then "" else cut)) h ∙ prefix_empty whole
      | inr h ↦
          ap (λ b. has_prefix whole (if b then "" else cut)) h
          ∙ (ap (λ x. has_prefix x cut) (cons-append c s e)
              ∙ rw (is_refl (code c), has_prefix-trim_suffix s t e) refl)
    ]

-- The extension that a compression has.
extension_cases :
    (c : String)
    → ((compression_extension c ≡ ".gz") ⊎ (compression_extension c ≡ ".lz4"))
      ⊎ (compression_extension c ≡ "")
unfolding compression_extension
extension_cases c = elim (Bool-cases (c == "gzip")) [
  | inl e ↦ inl (inl (rw e refl))
  | inr e ↦ elim (Bool-cases (c == "lz4")) [
    | inl f ↦ inl (inr (rw (e, f) refl))
    | inr f ↦ inr (rw (e, f) refl)
  ]
]

abbrev added : String → String → String
added e name = if not (e == "") && not (has_suffix name e) then name <> e else name

allowed_self : (n : String) → is_allowed n n ≡ true
unfolding is_allowed
allowed_self n = rw (eq_refl n) refl

all_tests : (a p q r s : Bool) → (p || q) ≡ true → s ≡ true → (a || ((p || q) && (r || s))) ≡ true
all_tests a p q r s h g = ground (arith)

either_test : (p q : Bool) → (p ≡ true) ⊎ (q ≡ true) → (p || q) ≡ true
either_test p q h = ground (arith)

allowed_longer : (n e : String) → (e ≡ ".gz") ⊎ (e ≡ ".lz4") → is_allowed n (n <> e) ≡ true
unfolding is_allowed
allowed_longer n e x =
    let gz = has_suffix (n <> e) ".gz" in
    let lz4 = has_suffix (n <> e) ".lz4" in
    let own = has_suffix-append n e in
    let either : (gz ≡ true) ⊎ (lz4 ≡ true) = elim x [
      | inl y ↦ inl (subst (λ z. has_suffix (n <> e) z ≡ true) y own)
      | inr y ↦ inr (subst (λ z. has_suffix (n <> e) z ≡ true) y own)
    ] in
    all_tests (n <> e == n) gz lz4 (contains_text (n <> e) ".tar.") _ (either_test gz lz4 either)
      (has_prefix-trim_suffix n (ext n) e)

allowed_added :
    (n e : String) → ((e ≡ ".gz") ⊎ (e ≡ ".lz4")) ⊎ (e ≡ "") → is_allowed n (added e n) ≡ true
allowed_added n e (inr x) = rw x (allowed_self n)
allowed_added n e (inl x) = elim (Bool-cases (not (e == "") && not (has_suffix n e))) [
  | inl t ↦ rw t (allowed_longer n e x)
  | inr t ↦ rw t (allowed_self n)
]

-- A text that ends in a character that is no space is not blank.
ends_solid :
    (s e : String)
    → (trim_right is_space e == "") ≡ false
    → (trim_right is_space (s <> e) == "") ≡ false
unfolding trim_right keep_before
ends_solid String.[] e h = rw (nil-append e) h
ends_solid (String.◌∷◌ c s) e h =
    rw (cons-append c s e) (kept c (trim_right is_space (s <> e)) (ends_solid s e h))
  where
    kept : (c : Char) (t : String) → (t == "") ≡ false → (keep_before is_space c t == "") ≡ false
    kept c String.[] g = ground (arith)
    kept c (String.◌∷◌ d t) g = cons_full c (String.◌∷◌ d t)

solid-append :
    (s e : String)
    → (trim_right is_space (trim_left is_space e) == "") ≡ false
    → (trim_right is_space e == "") ≡ false
    → (trim_space (s <> e) == "") ≡ false
unfolding trim_space trim_left
solid-append String.[] e h g = rw (nil-append e) h
solid-append (String.◌∷◌ c s) e h g = elim (Bool-cases (is_space c)) [
  | inl x ↦ rw (cons-append c s e, x) (solid-append s e h g)
  | inr x ↦ rw (cons-append c s e, x) (rw (cons-append c s e) at (ends_solid (String.◌∷◌ c s) e g))
]

-- A name that is not blank is not blank with an extension.
solid_added :
    (n e : String)
    → ((e ≡ ".gz") ⊎ (e ≡ ".lz4")) ⊎ (e ≡ "")
    → (trim_space n == "") ≡ false
    → (trim_space (added e n) == "") ≡ false
unfolding trim_left trim_right keep_before is_space
solid_added n e (inr x) h = rw x h
solid_added n e (inl x) h = elim (Bool-cases (not (e == "") && not (has_suffix n e))) [
  | inl t ↦ rw t (elim x [
    | inl y ↦ rw y (solid-append n ".gz" refl refl)
    | inr y ↦ rw y (solid-append n ".lz4" refl refl)
  ])
  | inr t ↦ rw t h
]

-- For a build whose status has a name, with no space around it: where the name under which the
-- default artifact is sent has no slash and no two dots in a row, a client may ask for it by name,
-- since it passes both checks of the handler.
pub default_name_allowed :
    (b : ImageBuild)
    → trim_space b.status.artifact_file_name ≡ b.status.artifact_file_name
    → (b.status.artifact_file_name == "") ≡ false
    → contains_text (default_headers b).file_name "/" ≡ false
    → contains_text (default_headers b).file_name ".." ≡ false
    → (is_bad_name (default_headers b).file_name ≡ false)
      × (is_allowed (trim_space b.status.artifact_file_name) (default_headers b).file_name ≡ true)
unfolding default_headers artifact_file_name with_compression is_bad_name
default_name_allowed b trimmed full slash dots =
    let n = trim_space b.status.artifact_file_name in
    let e = compression_extension b.spec.compression in
    let h : (n == "") ≡ false = ap (λ t. t == "") trimmed ∙ full in
    let named : artifact_file_name b ≡ n =
      ap
        (λ t.
          if t
          then b.spec.distro <> ("-" <> (b.spec.target <> format_extension b.spec.export_format))
          else n)
        h in
    let solid : (trim_space n == "") ≡ false = ap (λ t. trim_space t == "") trimmed ∙ h in
    (
      rw (slash, dots)
          (ap (λ m. trim_space (added e m) == "") named
            ∙ solid_added n e (extension_cases b.spec.compression) solid),
      ap (λ m. is_allowed n (added e m)) named
          ∙ allowed_added n e (extension_cases b.spec.compression),
    )
