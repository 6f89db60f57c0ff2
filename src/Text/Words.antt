-- ===== src/Text/Words.antt =====
-- `strings.Fields` gives back the words that `strings.Join` put together.
use Prim.Native.Char.{Char}
use text.Mathlib.TextLemmas.{nil-append, cons-append}
use automotive_dev_operator.Base.{
  String, ◌<>◌, ◌≡◌, refl, sym, ◌∙◌, inl, inr, Bool, true, false, not, Bool-cases, List, [], ◌∷◌,
  if◌then◌else◌, arith, ap,
}
use automotive_dev_operator.Text.Chars.{is_space}
use automotive_dev_operator.Text.Trim.{trim_left, keep_before, trim_right, trim_space}
use automotive_dev_operator.Text.Split.{add_to_first, join}
use automotive_dev_operator.Text.Fields.{starts_word, fields}

abbrev pub HasNoSpace : String → Type 0
HasNoSpace String.[] = Unit {0}
HasNoSpace (String.◌∷◌ c s) = (is_space c ≡ false) × HasNoSpace s

-- A text that is not empty and has no space.
abbrev pub IsWord : String → Type 0
IsWord x = (starts_word x ≡ true) × HasNoSpace x

abbrev pub AreWords : List String → Type 0
AreWords [] = Unit {0}
AreWords (x ∷ xs) = IsWord x × AreWords xs

fields-space : (c : Char) (s : String) → is_space c ≡ true → fields (String.◌∷◌ c s) ≡ fields s
unfolding fields
fields-space c s e = rw e refl

fields-char :
    (c : Char) (s : String)
    → is_space c ≡ false
    → fields (String.◌∷◌ c s)
      ≡ (if starts_word s then add_to_first c (fields s) else String.◌∷◌ c "" ∷ fields s)
unfolding fields
fields-char c s e = rw e refl

starts_word-char :
    (c : Char) (s : String) (b : Bool) → is_space c ≡ b → starts_word (String.◌∷◌ c s) ≡ not b
unfolding starts_word
starts_word-char c s b e = rw e refl

fields-empty : (fields "" ≡ []) × (starts_word "" ≡ false)
unfolding fields starts_word
fields-empty = (refl, refl)

fields-trim_left : (s : String) → fields (trim_left is_space s) ≡ fields s
unfolding trim_left
fields-trim_left String.[] = refl
fields-trim_left (String.◌∷◌ c s) = elim (Bool-cases (is_space c)) [
  | inl e ↦ rw (e, fields-space c s e) (fields-trim_left s)
  | inr e ↦ rw e refl
]

-- What `fields` sees of a text.
SameWords : String → String → Type 0
SameWords s t = (fields s ≡ fields t) × (starts_word s ≡ starts_word t)

same_behind :
    (c : Char) (t s : String) → SameWords t s → SameWords (String.◌∷◌ c t) (String.◌∷◌ c s)
unfolding SameWords
same_behind c t s (e, b) = elim (Bool-cases (is_space c)) [
  | inl h ↦ (
    fields-space c t h ∙ (e ∙ sym (fields-space c s h)),
    starts_word-char c t true h ∙ sym (starts_word-char c s true h),
  )
  | inr h ↦ (
    rw (fields-char c t h, fields-char c s h, e, b) refl,
    starts_word-char c t false h ∙ sym (starts_word-char c s false h),
  )
]

keep_before-words :
    (c : Char) (t s : String)
    → SameWords t s
    → SameWords (keep_before is_space c t) (String.◌∷◌ c s)
unfolding SameWords keep_before
keep_before-words c String.[] s h = elim (Bool-cases (is_space c)) [
  | inl e ↦ rw e (
    sym (fields-space c "" e) ∙ (same_behind c "" s h).0,
    fields-empty.1 ∙ sym (starts_word-char c s true e),
  )
  | inr e ↦ rw e (same_behind c "" s h)
]
keep_before-words c (String.◌∷◌ d t) s h = same_behind c (String.◌∷◌ d t) s h

fields-trim_right : (s : String) → SameWords (trim_right is_space s) s
unfolding SameWords trim_right
fields-trim_right String.[] = (refl, refl)
fields-trim_right (String.◌∷◌ c s) =
    keep_before-words c (trim_right is_space s) s (fields-trim_right s)

pub fields-trim_space : (s : String) → fields (trim_space s) ≡ fields s
unfolding SameWords trim_space
fields-trim_space s = (fields-trim_right (trim_left is_space s)).0 ∙ fields-trim_left s

-- The first words of a text that goes on with a word or with a space.
fields_word : (x : String) → IsWord x → fields x ≡ x ∷ []
unfolding add_to_first
fields_word String.[] (start, clear) = ground (arith, fields-empty)
fields_word (String.◌∷◌ c String.[]) (start, (e, clear)) =
    rw (fields-char c "" e, fields-empty.0, fields-empty.1) refl
fields_word (String.◌∷◌ c (String.◌∷◌ d s)) (start, (e, (f, clear))) =
    rw
      (
        fields-char c (String.◌∷◌ d s) e,
        starts_word-char d s false f,
        fields_word (String.◌∷◌ d s) (starts_word-char d s false f, (f, clear)),
      )
      refl

after_word :
    (rest : String) → (fields (" " <> rest) ≡ fields rest) × (starts_word (" " <> rest) ≡ false)
unfolding is_space
after_word rest =
    rw (cons-append " " "" rest, nil-append rest)
      (fields-space " " rest refl, starts_word-char " " rest true refl)

fields_first : (x rest : String) → IsWord x → fields (x <> (" " <> rest)) ≡ x ∷ fields rest
unfolding add_to_first
fields_first String.[] rest (start, clear) = ground (arith, fields-empty)
fields_first (String.◌∷◌ c String.[]) rest (start, (e, clear)) =
    rw
      (
        cons-append c "" (" " <> rest),
        nil-append (" " <> rest),
        fields-char c (" " <> rest) e,
        (after_word rest).0,
        (after_word rest).1,
      )
      refl
fields_first (String.◌∷◌ c (String.◌∷◌ d s)) rest (start, (e, (f, clear))) =
    let inner = fields_first (String.◌∷◌ d s) rest (starts_word-char d s false f, (f, clear)) in
    let opened = cons-append d s (" " <> rest) in
    rw
      (
        cons-append c (String.◌∷◌ d s) (" " <> rest),
        fields-char c (String.◌∷◌ d s <> (" " <> rest)) e,
        inner,
        ap starts_word opened ∙ starts_word-char d (s <> (" " <> rest)) false f,
      )
      refl

pub fields-join : (xs : List String) → AreWords xs → fields (join " " xs) ≡ xs
unfolding join
fields-join [] h = fields-empty.0
fields-join (x ∷ []) (h, t) = fields_word x h
fields-join (x ∷ y ∷ more) (h, t) =
    fields_first x (join " " (y ∷ more)) h ∙ ap (λ l. x ∷ l) (fields-join (y ∷ more) t)
