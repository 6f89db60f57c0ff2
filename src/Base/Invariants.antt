-- ===== src/Base/Invariants.antt =====
-- Conditions that an action keeps, with a rule for each way to build an action.
use Prim.Native.String.{String}
use mathlib.Core.Path.{◌≡◌, refl}
use mathlib.Core.Bool.{Bool, true, false}
use automotive_dev_operator.Base.Data.{if◌then◌else◌}
use automotive_dev_operator.Base.Effects.{
  Error, wrap, Result, ok, err, Exec, pure, raise, gets, branch, on_error, ◌>>=◌, ◌>>◌, wrapping,
  ignoring,
}

-- `m` keeps `P`, whether it returns or fails.
pub record Preserves {W A : Type 0} (P : W → Type 0) (m : Exec W A) : Type 0 where
  pub at : (w : W) → P w → P (m w).1

module _ {W A : Type 0} {P : W → Type 0} where
  pub Preserves-pure : (a : A) → Preserves P (pure {W = W} a)
  Preserves-pure a = record { at = λ w p. p }

  pub Preserves-raise : (e : Error) → Preserves P (raise {W = W} {A = A} e)
  Preserves-raise e = record { at = λ w p. p }

  pub Preserves-gets : (f : W → A) → Preserves P (gets f)
  Preserves-gets f = record { at = λ w p. p }

  -- Only the branch that is taken counts.
  pub Preserves-if :
      (test : Bool) (left right : Exec W A)
      → (test ≡ true → Preserves P left)
      → (test ≡ false → Preserves P right)
      → Preserves P (if test then left else right)
  Preserves-if true left right holds other = holds refl
  Preserves-if false left right holds other = other refl

module _ {W A B : Type 0} {P : W → Type 0} where
  pub preserves_branch :
      (x : Result A × W) (h : Error → Exec W B) (k : A → Exec W B)
      → P x.1
      → ((e : Error) → Preserves P (h e))
      → ((a : A) → Preserves P (k a))
      → P (branch x h k).1
  preserves_branch (ok a, w) h k p kh kk = (kk a).at w p
  preserves_branch (err e, w) h k p kh kk = (kh e).at w p

  pub Preserves-on_error :
      (m : Exec W A) (h : Error → Exec W B) (k : A → Exec W B)
      → Preserves P m
      → ((e : Error) → Preserves P (h e))
      → ((a : A) → Preserves P (k a))
      → Preserves P (on_error m h k)
  Preserves-on_error m h k km kh kk = record {
    at = λ w p. preserves_branch (m w) h k (km.at w p) kh kk;
  }

  pub Preserves-bind :
      (m : Exec W A) (k : A → Exec W B)
      → Preserves P m
      → ((a : A) → Preserves P (k a))
      → Preserves P (m >>= k)
  Preserves-bind m k km kk = Preserves-on_error m raise k km (λ e. Preserves-raise e) kk

  pub Preserves-seq :
      (m : Exec W A) (k : Exec W B) → Preserves P m → Preserves P k → Preserves P (m >> k)
  Preserves-seq m k km kk =
      Preserves-on_error m raise (λ _. k) km (λ e. Preserves-raise e) (λ _. kk)

module _ {W A : Type 0} {P : W → Type 0} where
  pub Preserves-wrapping : (s : String) (m : Exec W A) → Preserves P m → Preserves P (wrapping s m)
  Preserves-wrapping s m km =
      Preserves-on_error m (λ e. raise (wrap s e)) pure km (λ e. Preserves-raise _)
        (λ a. Preserves-pure a)

  pub Preserves-ignoring : (m : Exec W A) → Preserves P m → Preserves P (ignoring m)
  Preserves-ignoring m km =
      Preserves-on_error m (λ e. pure tt) (λ a. pure tt) km (λ e. Preserves-pure tt)
        (λ a. Preserves-pure tt)
