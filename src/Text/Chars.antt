-- ===== src/Text/Chars.antt =====
-- Tests on characters, and `strings.HasPrefix`, `strings.HasSuffix` and `strings.Contains`.
use Prim.Native.Nat.{compare, Ordering}
use Prim.Native.Char.{Char, code}
use automotive_dev_operator.Base.{
  ℕ, String, Bool, true, false, ◌||◌, ◌&&◌, ◌==◌, if◌then◌else◌, ◌+◌,
}

infix 50 ◌is◌
abbrev pub ◌is◌ : ℕ → ℕ → Bool
a is b = elim (compare a b) [ Ordering.eq ↦ true | _ ↦ false ]

abbrev between : ℕ → ℕ → ℕ → Bool
between low high n = not_below low n && not_below n high
  where
    not_below : ℕ → ℕ → Bool
    not_below a b = elim (compare a b) [ Ordering.gt ↦ false | _ ↦ true ]

-- `unicode.IsSpace`
unfoldable pub is_space : Char → Bool
is_space c =
    let n = code c in
    between 9 13 n
    || n is 32
    || n is 0x85
    || n is 0xA0
    || n is 0x1680
    || between 0x2000 0x200A n
    || n is 0x2028
    || n is 0x2029
    || n is 0x202F
    || n is 0x205F
    || n is 0x3000

unfoldable pub has_prefix : String → String → Bool
has_prefix s String.[] = true
has_prefix String.[] (String.◌∷◌ d t) = false
has_prefix (String.◌∷◌ c s) (String.◌∷◌ d t) = code c is code d && has_prefix s t

-- The first text ends in the second.
unfoldable pub has_suffix : String → String → Bool
has_suffix String.[] t = t == ""
has_suffix (String.◌∷◌ c s) t = (String.◌∷◌ c s == t) || has_suffix s t

unfoldable pub contains_text : String → String → Bool
unfolding has_prefix
contains_text String.[] t = t == ""
contains_text (String.◌∷◌ c s) t = has_prefix (String.◌∷◌ c s) t || contains_text s t

-- The same tests on `strings.ToLower` of the first text. No letter outside ASCII has a lower case
-- among the characters that the program asks for, so only the letters of ASCII count.
unfoldable pub lower : ℕ → ℕ
lower n = if between 65 90 n then n + 32 else n

unfoldable pub has_prefix_lower : String → String → Bool
unfolding lower
has_prefix_lower s String.[] = true
has_prefix_lower String.[] (String.◌∷◌ d t) = false
has_prefix_lower (String.◌∷◌ c s) (String.◌∷◌ d t) =
    lower (code c) is code d && has_prefix_lower s t

unfoldable pub equal_lower : String → String → Bool
unfolding lower
equal_lower String.[] String.[] = true
equal_lower (String.◌∷◌ c s) String.[] = false
equal_lower String.[] (String.◌∷◌ d t) = false
equal_lower (String.◌∷◌ c s) (String.◌∷◌ d t) = lower (code c) is code d && equal_lower s t

unfoldable pub has_suffix_lower : String → String → Bool
unfolding equal_lower
has_suffix_lower String.[] t = t == ""
has_suffix_lower (String.◌∷◌ c s) t = equal_lower (String.◌∷◌ c s) t || has_suffix_lower s t

unfoldable pub contains_lower : String → String → Bool
unfolding has_prefix_lower
contains_lower String.[] t = t == ""
contains_lower (String.◌∷◌ c s) t = has_prefix_lower (String.◌∷◌ c s) t || contains_lower s t
