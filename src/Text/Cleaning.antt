-- ===== src/Text/Cleaning.antt =====
-- What `path.Clean` leaves: a relative path that does not start with `..` has no such element at all.
use text.Mathlib.TextLemmas.{nil-append, cons-append}
use automotive_dev_operator.Base.{
  String, ◌<>◌, ◌==◌, ◌≡◌, ◌≢◌, refl, sym, ◌∙◌, ap, ◌⊎◌, inl, inr, Bool, true, false, ◌||◌,
  Bool-cases, List, [], ◌∷◌, if◌then◌else◌, arith, eq_iff, subst,
}
use automotive_dev_operator.Text.Chars.{has_prefix}
use automotive_dev_operator.Text.Split.{split, join}
use automotive_dev_operator.Text.Splitting.{has_code, has_code-cons_false, HaveNone, split-HaveNone}
use automotive_dev_operator.Text.Paths.{
  clean_element, clean_elements, onto, is_rooted, cleaned, clean,
}

abbrev pub AreUp : List String → Type 0
AreUp [] = Unit {0}
AreUp (e ∷ es) = (e ≡ "..") × AreUp es

-- No element leads up.
abbrev pub HasNoUp : List String → Type 0
HasNoUp [] = Unit {0}
HasNoUp (e ∷ es) = (e ≢ "..") × HasNoUp es

-- The kept elements, the last first: those that lead up came before all others.
Shape : List String → Type 0
Shape [] = Unit {0}
Shape (e ∷ es) = ((e ≡ "..") × AreUp es) ⊎ ((e ≢ "..") × Shape es)

AreUp-Shape : (es : List String) → AreUp es → Shape es
unfolding Shape
AreUp-Shape [] h = tt
AreUp-Shape (e ∷ es) h = inl h

not_equal : (s t : String) → (s == t) ≡ false → s ≢ t
not_equal s t h = ground (arith, eq_iff s t)

up_step : (rooted : Bool) (kept : List String) → Shape kept → Shape (clean_element rooted kept "..")
unfolding clean_element Shape
up_step true [] h = tt
up_step false [] h = inl (refl, tt)
up_step rooted (d ∷ more) (inl (up, ups)) = rw up (inl (refl, (refl, ups)))
up_step rooted (d ∷ more) (inr (other, h)) = elim (Bool-cases (d == "..")) [
  | inl e ↦ ground (arith, eq_iff d "..")
  | inr e ↦ rw e h
]

element_step :
    (rooted : Bool) (kept : List String) (e : String)
    → Shape kept
    → Shape (clean_element rooted kept e)
unfolding clean_element Shape
element_step rooted kept e h = elim (Bool-cases (e == "..")) [
  | inl up ↦
      subst (λ x. Shape (clean_element rooted kept x)) (sym ((eq_iff e "..").0 up))
        (up_step rooted kept h)
  | inr other ↦ elim (Bool-cases (e == "" || e == ".")) [
    | inl skip ↦ rw skip h
    | inr keep ↦ rw (keep, other) (inr (not_equal e ".." other, h))
  ]
]

elements_step :
    (rooted : Bool) (kept es : List String) → Shape kept → Shape (clean_elements rooted kept es)
unfolding clean_elements
elements_step rooted kept [] h = h
elements_step rooted kept (e ∷ es) h =
    elements_step rooted (clean_element rooted kept e) es (element_step rooted kept e h)

abbrev StartsUp : List String → Type 0
StartsUp xs = (more : List String) × (xs ≡ ".." ∷ more)

ups_first : (e : String) (es acc : List String) → AreUp (e ∷ es) → StartsUp (onto (e ∷ es) acc)
ups_first e [] acc (up, ups) = (acc, ap (λ x. x ∷ acc) up)
ups_first e (f ∷ es) acc (up, ups) = ups_first f es (e ∷ acc) ups

HasNoUp-onto : (kept acc : List String) → HasNoUp kept → HasNoUp acc → HasNoUp (onto kept acc)
HasNoUp-onto [] acc h g = g
HasNoUp-onto (e ∷ es) acc (other, h) g = HasNoUp-onto es (e ∷ acc) h (other, g)

-- Either nothing leads up, or the path starts with what does.
Shape-cases :
    (kept : List String)
    → Shape kept
    → HasNoUp kept ⊎ ((acc : List String) → StartsUp (onto kept acc))
unfolding Shape
Shape-cases [] h = inl tt
Shape-cases (e ∷ es) (inl ups) = inr (λ acc. ups_first e es acc ups)
Shape-cases (e ∷ es) (inr (other, h)) = elim (Shape-cases es h) [
  | inl n ↦ inl (other, n)
  | inr f ↦ inr (λ acc. f (e ∷ acc))
]

cleaned_cases : (s : String) → HasNoUp (cleaned s) ⊎ StartsUp (cleaned s)
unfolding cleaned Shape
cleaned_cases s =
    let kept = clean_elements (is_rooted s) [] (split 47 s) in
    elim (Shape-cases kept (elements_step (is_rooted s) [] (split 47 s) tt)) [
      | inl n ↦ inl (HasNoUp-onto kept [] n tt)
      | inr f ↦ inr (f [])
    ]

-- The elements have no slash in them.
element_none :
    (rooted : Bool) (kept : List String) (e : String)
    → HaveNone 47 kept
    → has_code 47 e ≡ false
    → HaveNone 47 (clean_element rooted kept e)
unfolding clean_element has_code
element_none rooted kept e h n = elim (Bool-cases (e == "" || e == ".")) [
  | inl skip ↦ rw skip h
  | inr keep ↦ elim (Bool-cases (e == "..")) [
    | inr other ↦ rw (keep, other) (n, h)
    | inl up ↦ rw (keep, up) (popped rooted kept h)
  ]
]
  where
    popped :
        (rooted : Bool) (kept : List String)
        → HaveNone 47 kept
        → HaveNone 47 (elim kept [
          | [] ↦ if rooted then [] else ".." ∷ []
          | d ∷ more ↦ if d == ".." then ".." ∷ d ∷ more else more
        ])
    popped true [] h = tt
    popped false [] h = (refl, tt)
    popped rooted (d ∷ more) (n, h) = elim (Bool-cases (d == "..")) [
      | inl e ↦ rw e (refl, (n, h))
      | inr e ↦ rw e h
    ]

elements_none :
    (rooted : Bool) (kept es : List String)
    → HaveNone 47 kept
    → HaveNone 47 es
    → HaveNone 47 (clean_elements rooted kept es)
unfolding clean_elements
elements_none rooted kept [] h g = h
elements_none rooted kept (e ∷ es) h (n, g) =
    elements_none rooted (clean_element rooted kept e) es (element_none rooted kept e h n) g

onto_none :
    (kept acc : List String) → HaveNone 47 kept → HaveNone 47 acc → HaveNone 47 (onto kept acc)
onto_none [] acc h g = g
onto_none (e ∷ es) acc (n, h) g = onto_none es (e ∷ acc) h (n, g)

cleaned-HaveNone : (s : String) → HaveNone 47 (cleaned s)
unfolding cleaned
cleaned-HaveNone s =
    onto_none _ [] (elements_none (is_rooted s) [] (split 47 s) tt (split-HaveNone 47 s)) tt

-- A path is taken apart into the elements that it was made of.
pub split-element :
    (e rest : String) → has_code 47 e ≡ false → split 47 (e <> ("/" <> rest)) ≡ e ∷ split 47 rest
unfolding split has_code
split-element String.[] rest h =
    rw (nil-append ("/" <> rest), cons-append "/" "" rest, nil-append rest) refl
split-element (String.◌∷◌ c e) rest h =
    let (other, clear) = has_code-cons_false 47 c e h in
    rw (cons-append c e ("/" <> rest), other, split-element e rest clear) refl

split-last_element : (e : String) → has_code 47 e ≡ false → split 47 e ≡ e ∷ []
unfolding split has_code
split-last_element String.[] h = refl
split-last_element (String.◌∷◌ c e) h =
    let (other, clear) = has_code-cons_false 47 c e h in rw (other, split-last_element e clear) refl

split-join :
    (e : String) (es : List String) → HaveNone 47 (e ∷ es) → split 47 (join "/" (e ∷ es)) ≡ e ∷ es
unfolding join
split-join e [] (n, h) = split-last_element e n
split-join e (f ∷ es) (n, h) =
    split-element e (join "/" (f ∷ es)) n ∙ ap (λ l. e ∷ l) (split-join f es h)

joined_up : (xs : List String) → StartsUp xs → has_prefix (join "/" xs) ".." ≡ true
unfolding join has_prefix
joined_up xs ([], e) = rw e refl
joined_up xs (y ∷ more, e) =
    let rest = "/" <> join "/" (y ∷ more) in
    rw e (
      ap (λ t. has_prefix t "..")
        (cons-append "." "." rest ∙ ap (λ t. String.◌∷◌ "." t) (cons-append "." "" rest)))

no_up_joined : (xs : List String) → HasNoUp xs → HaveNone 47 xs → HasNoUp (split 47 (join "/" xs))
unfolding join split
no_up_joined [] h n = (not_equal "" ".." refl, tt)
no_up_joined (e ∷ es) h n = rw (split-join e es n) h

root_first : (t : String) → has_prefix ("/" <> t) "/" ≡ true
unfolding has_prefix
root_first t = ap (λ x. has_prefix x "/") (cons-append "/" "" t)

abbrev leads_out : String → Bool
leads_out c = has_prefix c ".." || has_prefix c "/"

written_path : Bool → String → String
written_path rooted t = if rooted then "/" <> t else if t == "" then "." else t

written-HasNoUp :
    (rooted : Bool) (xs : List String)
    → HasNoUp xs ⊎ StartsUp xs
    → HaveNone 47 xs
    → leads_out (written_path rooted (join "/" xs)) ≡ false
    → HasNoUp (split 47 (written_path rooted (join "/" xs)))
unfolding written_path split
written-HasNoUp true xs up n h = ground (arith, root_first (join "/" xs))
written-HasNoUp false xs up n h = elim (Bool-cases (join "/" xs == "")) [
  | inl e ↦ rw e (not_equal "." ".." refl, tt)
  | inr e ↦ elim up [
    | inl clear ↦ rw e (no_up_joined xs clear n)
    | inr starts ↦ ground (arith, joined_up xs starts, rw e at h)
  ]
]

-- A clean path that starts neither with `..` nor at the root has no element that leads up.
pub clean-HasNoUp :
    (s : String)
    → (has_prefix (clean s) ".." || has_prefix (clean s) "/") ≡ false
    → HasNoUp (split 47 (clean s))
unfolding clean written_path
clean-HasNoUp s h =
    written-HasNoUp (is_rooted s) (cleaned s) (cleaned_cases s) (cleaned-HaveNone s) h
