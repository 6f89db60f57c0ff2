-- ===== src/Text/Split.antt =====
-- `strings.Split`, `strings.SplitN` and `strings.Join`, and what is left of a text that arrives in
-- pieces.
use Prim.Native.Char.{Char, code}
use automotive_dev_operator.Base.{
  ℕ, String, ◌<>◌, List, [], ◌∷◌, if◌then◌else◌, ◌≡◌, refl, Option, none, some,
}
use automotive_dev_operator.Text.Chars.{◌is◌}

unfoldable pub add_to_first : Char → List String → List String
add_to_first c [] = String.◌∷◌ c "" ∷ []
add_to_first c (x ∷ xs) = String.◌∷◌ c x ∷ xs

-- `strings.Split(s, sep)` for a separator of one character, given by its code. There is always a
-- piece.
unfoldable pub split : ℕ → String → List String
unfolding add_to_first
split k String.[] = "" ∷ []
split k (String.◌∷◌ c s) =
    let rest = split k s in if code c is k then "" ∷ rest else add_to_first c rest

unfoldable pub join : String → List String → String
join sep [] = ""
join sep (x ∷ []) = x
join sep (x ∷ y ∷ more) = x <> (sep <> join sep (y ∷ more))

-- `strings.SplitN(s, sep, 2)`: the text before and after the first separator, if there is one.
unfoldable pub split_once : ℕ → String → Option (String × String)
split_once k String.[] = none
split_once k (String.◌∷◌ c s) =
    let rest = split_once k s in
    if code c is k
    then some ("", s)
    else elim rest [ none ↦ none | some p ↦ some (String.◌∷◌ c p.0, p.1) ]

-- The pieces but the last, and the last.
unfoldable pub all_but_last : List String → List String
all_but_last [] = []
all_but_last (x ∷ []) = []
all_but_last (x ∷ y ∷ more) = x ∷ all_but_last (y ∷ more)

unfoldable pub last_piece : List String → String
last_piece [] = ""
last_piece (x ∷ []) = x
last_piece (x ∷ y ∷ more) = last_piece (y ∷ more)

example : split 10 "a\nbc\n" ≡ ("a" ∷ "bc" ∷ "" ∷ [])
unfolding split
example = refl
