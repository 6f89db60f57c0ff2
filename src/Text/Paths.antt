-- ===== src/Text/Paths.antt =====
-- `path.Clean`, `path.Base`, `path.Dir` and `path.Ext`. A path is taken apart at its slashes, whose
-- code is 47; a dot has the code 46.
use Prim.Native.Char.{Char, code}
use automotive_dev_operator.Base.{
  String, ◌<>◌, Bool, false, ◌||◌, not, List, [], ◌∷◌, if◌then◌else◌, ◌==◌,
}
use automotive_dev_operator.Text.Chars.{contains_text, ◌is◌}
use automotive_dev_operator.Text.Trim.{trim_right}
use automotive_dev_operator.Text.Split.{split, join, all_but_last, last_piece}

-- One element of a path after those that were kept, the last of them first. A `..` takes the
-- element before it away; where there is none it stays, but not under the root.
unfoldable pub clean_element : Bool → List String → String → List String
clean_element rooted kept e =
    if e == "" || e == "." then kept else if not (e == "..") then e ∷ kept else elim kept [
      | [] ↦ if rooted then [] else ".." ∷ []
      | d ∷ more ↦ if d == ".." then ".." ∷ d ∷ more else more
    ]

unfoldable pub clean_elements : Bool → List String → List String → List String
unfolding clean_element
clean_elements rooted kept [] = kept
clean_elements rooted kept (e ∷ es) = clean_elements rooted (clean_element rooted kept e) es

abbrev pub onto : List String → List String → List String
onto [] ys = ys
onto (x ∷ xs) ys = onto xs (x ∷ ys)

unfoldable pub is_rooted : String → Bool
is_rooted String.[] = false
is_rooted (String.◌∷◌ c s) = code c is 47

-- The elements of the clean path, in their order.
unfoldable pub cleaned : String → List String
unfolding clean_elements is_rooted split
cleaned s = onto (clean_elements (is_rooted s) [] (split 47 s)) []

unfoldable pub clean : String → String
unfolding cleaned join
clean s =
    let t = join "/" (cleaned s) in if is_rooted s then "/" <> t else if t == "" then "." else t

abbrev is_slash : Char → Bool
is_slash c = code c is 47

unfoldable pub base : String → String
unfolding last_piece split
base s =
    if s == ""
    then "."
    else let t = trim_right is_slash s in if t == "" then "/" else last_piece (split 47 t)

-- All before the last slash, made clean.
unfoldable pub dir : String → String
unfolding all_but_last split join
dir s = let t = join "/" (all_but_last (split 47 s)) in clean (if is_rooted s then "/" <> t else t)

unfoldable pub ext : String → String
unfolding last_piece split contains_text
ext s =
    let e = last_piece (split 47 s) in
    if contains_text e "." then "." <> last_piece (split 46 e) else ""
