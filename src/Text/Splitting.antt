-- ===== src/Text/Splitting.antt =====
-- Taking a text apart that arrives in pieces: what `strings.Split` gives for the two together.
use Prim.Native.Char.{Char, code}
use automotive_dev_operator.Base.{
  ℕ, String, ◌<>◌, Bool, true, false, List, [], ◌∷◌, ◌++◌, ◌≡◌, refl, ap, sym, inl, inr, Bool-cases,
  ◌||◌, arith, ◌==◌, eq_iff,
}
use text.Mathlib.TextLemmas.{nil-append, cons-append, cons-ne-nil}
use automotive_dev_operator.Text.Chars.{◌is◌}
use automotive_dev_operator.Text.Split.{add_to_first, split, all_but_last, last_piece}

-- The pieces of a text, where the text of the last piece goes on with the first of others.
unfoldable pub continued : List String → List String → List String
continued [] ys = ys
continued (x ∷ []) [] = x ∷ []
continued (x ∷ []) (y ∷ ys) = (x <> y) ∷ ys
continued (x ∷ z ∷ more) ys = x ∷ continued (z ∷ more) ys

continued-add :
    (c : Char) (xs ys : List String)
    → continued (add_to_first c xs) ys ≡ add_to_first c (continued xs ys)
unfolding continued add_to_first
continued-add c [] [] = refl
continued-add c [] (y ∷ ys) = rw (cons-append c "" y, nil-append y) refl
continued-add c (x ∷ []) [] = refl
continued-add c (x ∷ []) (y ∷ ys) = rw (cons-append c x y) refl
continued-add c (x ∷ z ∷ more) ys = refl

-- There is always a piece.
pub split-pieces : (k : ℕ) (s : String) → (x : String) × (xs : List String) × (split k s ≡ x ∷ xs)
unfolding split add_to_first
split-pieces k String.[] = ("", [], refl)
split-pieces k (String.◌∷◌ c s) =
    let (x, xs, e) = split-pieces k s in
    elim (Bool-cases (code c is k)) [
      | inl h ↦ ("", split k s, rw h refl)
      | inr h ↦ (String.◌∷◌ c x, xs, rw (h, e) refl)
    ]

continued-cons :
    (k : ℕ) (s x : String) (ys : List String)
    → continued (x ∷ split k s) ys ≡ x ∷ continued (split k s) ys
unfolding continued
continued-cons k s x ys = let (z, zs, e) = split-pieces k s in rw e refl

continued-empty : (k : ℕ) (t : String) → continued ("" ∷ []) (split k t) ≡ split k t
unfolding continued
continued-empty k t = let (z, zs, e) = split-pieces k t in rw (e, nil-append z) refl

-- The pieces of a text in two parts.
pub split-append : (k : ℕ) (s t : String) → split k (s <> t) ≡ continued (split k s) (split k t)
unfolding split
split-append k String.[] t = rw (nil-append t) (sym (continued-empty k t))
split-append k (String.◌∷◌ c s) t = elim (Bool-cases (code c is k)) [
  | inl h ↦ rw (cons-append c s t, h, split-append k s t) (sym (continued-cons k s "" (split k t)))
  | inr h ↦
      rw (cons-append c s t, h, split-append k s t) (sym (continued-add c (split k s) (split k t)))
]

-- Whether the character of a code stands in a text.
unfoldable pub has_code : ℕ → String → Bool
has_code k String.[] = false
has_code k (String.◌∷◌ c s) = code c is k || has_code k s

pub has_code-cons_false :
    (k : ℕ) (c : Char) (s : String)
    → has_code k (String.◌∷◌ c s) ≡ false
    → ((code c is k) ≡ false) × (has_code k s ≡ false)
unfolding has_code
has_code-cons_false k c s h = ground (arith)

-- Then there are two pieces.
pub split-two :
    (k : ℕ) (s : String)
    → has_code k s ≡ true
    → (x y : String) × (more : List String) × (split k s ≡ x ∷ y ∷ more)
unfolding split add_to_first has_code
split-two k String.[] h = ground (arith)
split-two k (String.◌∷◌ c s) h = elim (Bool-cases (code c is k)) [
  | inl e ↦ let (z, zs, p) = split-pieces k s in ("", z, zs, rw (e, p) refl)
  | inr e ↦
      let (x, y, more, p) = split-two k s (rw e at h) in (String.◌∷◌ c x, y, more, rw (e, p) refl)
]

-- Then the text is not empty.
pub has_code-some : (k : ℕ) (s : String) → has_code k s ≡ true → (s == "") ≡ false
unfolding has_code
has_code-some k String.[] h = ground (arith)
has_code-some k (String.◌∷◌ c s) h = elim (Bool-cases (String.◌∷◌ c s == "")) [
  | inl e ↦ absurd (cons-ne-nil c s ((eq_iff (String.◌∷◌ c s) "").0 e))
  | inr e ↦ e
]

pub has_code-append : (k : ℕ) (s t : String) → has_code k t ≡ true → has_code k (s <> t) ≡ true
unfolding has_code
has_code-append k String.[] t h = rw (nil-append t) h
has_code-append k (String.◌∷◌ c s) t h =
    rw (cons-append c s t, has_code-append k s t h) (ground (arith))

all_but_last-continued :
    (x : String) (xs : List String) (y : String) (ys : List String)
    → all_but_last (continued (x ∷ xs) (y ∷ ys))
      ≡ all_but_last (x ∷ xs) ++ all_but_last (continued (last_piece (x ∷ xs) ∷ []) (y ∷ ys))
unfolding all_but_last last_piece continued
all_but_last-continued x [] y ys = refl
all_but_last-continued x (z ∷ []) y ys = refl
all_but_last-continued x (z ∷ u ∷ more) y ys =
    ap (λ l. x ∷ l) (all_but_last-continued z (u ∷ more) y ys)

abbrev IsPiece : ℕ → String → Type 0
IsPiece k x = split k x ≡ x ∷ []

IsPiece-add :
    (k : ℕ) (c : Char) (x : String) (xs : List String)
    → (code c is k) ≡ false
    → IsPiece k (last_piece (x ∷ xs))
    → IsPiece k (last_piece (add_to_first c (x ∷ xs)))
unfolding split last_piece add_to_first
IsPiece-add k c x [] e p = rw (e, p) refl
IsPiece-add k c x (y ∷ more) e p = p

-- No piece can be taken apart, in particular not the last.
pub split-last_piece : (k : ℕ) (s : String) → IsPiece k (last_piece (split k s))
unfolding split last_piece
split-last_piece k String.[] = refl
split-last_piece k (String.◌∷◌ c s) =
    let (x, xs, p) = split-pieces k s in
    elim (Bool-cases (code c is k)) [
      | inl e ↦ rw (e, p) (rw p at (split-last_piece k s))
      | inr e ↦ rw (e, p) (IsPiece-add k c x xs e (rw p at (split-last_piece k s)))
    ]

-- The pieces but the last of a text in two parts come from the first part, and then from its last
-- piece with the second part.
pub all_but_last-split :
    (k : ℕ) (s t : String)
    → all_but_last (split k (s <> t))
      ≡ all_but_last (split k s) ++ all_but_last (split k (last_piece (split k s) <> t))
all_but_last-split k s t =
    let (x, xs, p) = split-pieces k s in
    let (y, ys, q) = split-pieces k t in
    rw (split-append k s t, split-append k (last_piece (split k s)) t, split-last_piece k s, p, q)
      (all_but_last-continued x xs y ys)

-- The character at which a text is taken apart is in none of the pieces.
abbrev pub HaveNone : ℕ → List String → Type 0
HaveNone k [] = Unit {0}
HaveNone k (x ∷ xs) = (has_code k x ≡ false) × HaveNone k xs

HaveNone-add :
    (k : ℕ) (c : Char) (xs : List String)
    → (code c is k) ≡ false
    → HaveNone k xs
    → HaveNone k (add_to_first c xs)
unfolding add_to_first has_code
HaveNone-add k c [] e h = (rw e refl, tt)
HaveNone-add k c (x ∷ xs) e (clear, h) = (rw (e, clear) refl, h)

pub split-HaveNone : (k : ℕ) (s : String) → HaveNone k (split k s)
unfolding split has_code
split-HaveNone k String.[] = (refl, tt)
split-HaveNone k (String.◌∷◌ c s) = elim (Bool-cases (code c is k)) [
  | inl e ↦ rw e (refl, split-HaveNone k s)
  | inr e ↦ rw e (HaveNone-add k c (split k s) e (split-HaveNone k s))
]
