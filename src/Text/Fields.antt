-- ===== src/Text/Fields.antt =====
-- `strings.Fields`.
use automotive_dev_operator.Base.{String, Bool, false, not, List, [], ◌∷◌, if◌then◌else◌}
use automotive_dev_operator.Text.Chars.{is_space}
use automotive_dev_operator.Text.Split.{add_to_first}

unfoldable pub starts_word : String → Bool
unfolding is_space
starts_word String.[] = false
starts_word (String.◌∷◌ c s) = not (is_space c)

-- The words of a text. A character that no space follows belongs to the word that comes first in
-- the rest.
unfoldable pub fields : String → List String
unfolding starts_word add_to_first is_space
fields String.[] = []
fields (String.◌∷◌ c s) =
    let rest = fields s in
    if is_space c
    then rest
    else if starts_word s
    then add_to_first c rest
    else String.◌∷◌ c "" ∷ rest
