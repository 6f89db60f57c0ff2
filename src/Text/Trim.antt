-- ===== src/Text/Trim.antt =====
-- `strings.Trim` and `strings.TrimSpace`, `strings.TrimPrefix` and `strings.TrimSuffix`.
use Prim.Native.Char.{Char, code}
use automotive_dev_operator.Base.{String, Bool, ◌||◌, ◌==◌, if◌then◌else◌, Option, none, some}
use automotive_dev_operator.Text.Chars.{is_space, ◌is◌}

module _ (drops : Char → Bool) where
  unfoldable pub trim_left : String → String
  trim_left String.[] = ""
  trim_left (String.◌∷◌ c s) = if drops c then trim_left s else String.◌∷◌ c s

  -- A character stays unless it may go and nothing is left behind it.
  unfoldable pub keep_before : Char → String → String
  keep_before c String.[] = if drops c then "" else String.◌∷◌ c ""
  keep_before c (String.◌∷◌ d s) = String.◌∷◌ c (String.◌∷◌ d s)

  unfoldable pub trim_right : String → String
  unfolding keep_before
  trim_right String.[] = ""
  trim_right (String.◌∷◌ c s) = keep_before c (trim_right s)

  unfoldable pub trim : String → String
  unfolding trim_left trim_right
  trim s = trim_right (trim_left s)

unfoldable pub trim_space : String → String
unfolding trim is_space
trim_space = trim is_space

abbrev pub is_quote : Char → Bool
is_quote c = code c is 39 || code c is 34

-- What follows a prefix, as `strings.CutPrefix` gives it where there is one.
unfoldable pub cut_prefix : String → String → Option String
cut_prefix s String.[] = some s
cut_prefix String.[] (String.◌∷◌ d t) = none
cut_prefix (String.◌∷◌ c s) (String.◌∷◌ d t) =
    let rest = cut_prefix s t in if code c is code d then rest else none

unfoldable pub trim_prefix : String → String → String
unfolding cut_prefix
trim_prefix s p = elim (cut_prefix s p) [ none ↦ s | some t ↦ t ]

unfoldable pub trim_suffix : String → String → String
trim_suffix String.[] t = ""
trim_suffix (String.◌∷◌ c s) t = if String.◌∷◌ c s == t then "" else String.◌∷◌ c (trim_suffix s t)
