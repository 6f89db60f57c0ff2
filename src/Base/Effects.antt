-- ===== src/Base/Effects.antt =====
-- Go's `error` values, and calls that may fail over the state of the cluster. What a call wrote
-- before it failed stays written, so the state comes back beside the error too.
use Prim.Native.String.{String, ◌++◌ as ◌<>◌}
use mathlib.Core.Path.{◌≡◌}
use mathlib.Core.Bool.{Bool, true, false}

-- The reason that the API machinery gives an error, as far as the program asks for it.
pub data Reason : Type 0 where
  not_found already_exists other : Reason

-- An error of the API client with its text, one wrapped by `fmt.Errorf("...: %w", err)`, and one
-- that the program makes.
pub data Error : Type 0 where
  api : Reason → String → Error
  wrap : String → Error → Error
  message : String → Error

-- `err.Error()`
unfoldable pub error_text : Error → String
error_text (api r text) = text
error_text (wrap text e) = text <> (": " <> error_text e)
error_text (message text) = text

-- `errors.IsNotFound` and `errors.IsAlreadyExists` look through wrapped errors.
abbrev pub is_not_found : Error → Bool
is_not_found (api not_found text) = true
is_not_found (api _ text) = false
is_not_found (wrap text e) = is_not_found e
is_not_found (message text) = false

abbrev pub is_already_exists : Error → Bool
is_already_exists (api already_exists text) = true
is_already_exists (api _ text) = false
is_already_exists (wrap text e) = is_already_exists e
is_already_exists (message text) = false

pub data Result {ℓ} (A : Type ℓ) : Type ℓ where
  ok : A → Result A
  err : Error → Result A

abbrev pub Exec : Type 0 → Type 0 → Type 0
Exec W A = W → Result A × W

module _ {W A : Type 0} where
  abbrev pub pure : A → Exec W A
  pure a w = (ok a, w)

  abbrev pub raise : Error → Exec W A
  raise e w = (err e, w)

  -- A reading that cannot fail, such as the clock.
  abbrev pub gets : (W → A) → Exec W A
  gets f w = (ok (f w), w)

module _ {W A B : Type 0} where
  abbrev pub branch : Result A × W → (Error → Exec W B) → (A → Exec W B) → Result B × W
  branch (ok a, w) h k = k a w
  branch (err e, w) h k = h e w

  -- `if err := m; err != nil { h }; k`
  abbrev pub on_error : Exec W A → (Error → Exec W B) → (A → Exec W B) → Exec W B
  on_error m h k w = branch (m w) h k

  infixl 5 ◌>>=◌ ◌>>◌
  abbrev pub ◌>>=◌ : Exec W A → (A → Exec W B) → Exec W B
  ◌>>=◌ m k w = branch (m w) raise k

  abbrev pub ◌>>◌ : Exec W A → Exec W B → Exec W B
  ◌>>◌ m k w = branch (m w) raise (λ _. k)

module _ {W A : Type 0} where
  -- `if err := m; err != nil { return fmt.Errorf("text: %w", err) }`
  abbrev pub wrapping : String → Exec W A → Exec W A
  wrapping text m w = branch (m w) (λ e. raise (wrap text e)) pure

  -- A failure that is logged or ignored.
  abbrev pub ignoring : Exec W A → Exec W (Unit {0})
  ignoring m w = branch (m w) (λ e. pure tt) (λ a. pure tt)

module _ {W A B : Type 0} where
  -- Which way `on_error` goes, where the result of the first action is known.
  pub on_error-ok :
      (m : Exec W A) (h : Error → Exec W B) (k : A → Exec W B) (w : W) (a : A)
      → (m w).0 ≡ ok a
      → on_error m h k w ≡ k a (m w).1
  on_error-ok m h k w a e = λ i. branch (e i, (m w).1) h k
