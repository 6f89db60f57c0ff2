-- ===== src/Base/Data.antt =====
-- Tests on numbers and options, the conditional, and Go's maps from text to text.
use Prim.Native.Nat.{ℕ, compare, Ordering}
use Prim.Native.String.{String}
use mathlib.Core.Path.{◌≡◌, refl}
use mathlib.Core.Logic.{◌⊎◌, inl, inr}
use mathlib.Core.Bool.{Bool, true, false}
use mathlib.Core.Option.{Option, none, some}
use mathlib.Core.List.{List, [], ◌∷◌}
use native.Mathlib.Omega.{arith}
use text.Mathlib.Text.{◌==◌}
use text.Mathlib.TextEquality.{eq_iff}

abbrev pub ltb : ℕ → ℕ → Bool
ltb a b = elim (compare a b) [ Ordering.lt ↦ true | _ ↦ false ]

infix 1 if◌then◌else◌
abbrev pub if◌then◌else◌ {ℓ} : {A : Type ℓ} → Bool → A → A → A
if true then x else y = x
if false then x else y = y

-- A pointer test, `p != nil`.
abbrev pub is_some {ℓ} : {A : Type ℓ} → Option A → Bool
is_some none = false
is_some (some a) = true

pub Bool-cases : (b : Bool) → (b ≡ true) ⊎ (b ≡ false)
Bool-cases true = inl refl
Bool-cases false = inr refl

-- A `map[string]string`: the entry that stands first counts.
abbrev pub StringMap : Type 0
StringMap = List (String × String)

unfoldable pub lookup : StringMap → String → Option String
lookup [] k = none
lookup ((j, v) ∷ m) k = if j == k then some v else lookup m k

-- `m[k]` reads the empty text where the key is missing.
unfoldable pub get_or_empty : StringMap → String → String
unfolding lookup
get_or_empty m k = elim (lookup m k) [ none ↦ "" | some v ↦ v ]

-- `m[k] = v`
unfoldable pub put : StringMap → String → String → StringMap
put [] k v = (k, v) ∷ []
put ((j, u) ∷ m) k v = if j == k then (k, v) ∷ m else (j, u) ∷ put m k v

pub lookup-put :
    (m : StringMap) (k v j : String)
    → lookup (put m k v) j ≡ (if k == j then some v else lookup m j)
unfolding lookup put
lookup-put [] k v j = refl
lookup-put ((i, u) ∷ m) k v j =
    ground (arith, eq_iff k j, eq_iff i k, eq_iff i j, lookup-put m k v j)

-- Signed integers: `negsuc n` is -(n + 1).
pub data ℤ : Type 0 where
  pos : ℕ → ℤ
  negsuc : ℕ → ℤ

-- `slices.Contains`
abbrev pub contains : List String → String → Bool
contains [] k = false
contains (x ∷ xs) k = if x == k then true else contains xs k

pub lookup-empty : (k : String) → lookup [] k ≡ none
unfolding lookup
lookup-empty k = refl

pub lookup-cons :
    (j v : String) (m : StringMap) (k : String)
    → lookup ((j, v) ∷ m) k ≡ (if j == k then some v else lookup m k)
unfolding lookup
lookup-cons j v m k = refl

pub get_or_empty-lookup :
    (m : StringMap) (k : String) (o : Option String)
    → lookup m k ≡ o
    → get_or_empty m k ≡ (elim o [ none ↦ "" | some v ↦ v ])
unfolding get_or_empty
get_or_empty-lookup m k o e = λ i. elim (e i) [ none ↦ "" | some v ↦ v ]
