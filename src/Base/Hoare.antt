-- ===== src/Base/Hoare.antt =====
-- Conditions before and after an action, whether it returns or fails, with a rule for each way to
-- build an action.
use mathlib.Core.Path.{◌≡◌, refl}
use mathlib.Core.Bool.{Bool, true, false}
use automotive_dev_operator.Base.Data.{if◌then◌else◌}
use automotive_dev_operator.Base.Effects.{
  Error, Result, ok, err, Exec, raise, branch, on_error, ◌>>◌,
}

-- From a state with `P` the action ends in a state with `Q`, which may speak of the result.
pub record Triple {W A : Type 0} (P : W → Type 0) (m : Exec W A) (Q : Result A → W → Type 0)
    : Type 0 where
  pub at : (w : W) → P w → Q (m w).0 (m w).1

module _ {W A : Type 0} where
  pub Triple-if :
      (P : W → Type 0) (b : Bool) (m n : Exec W A) (Q : Result A → W → Type 0)
      → (b ≡ true → Triple P m Q)
      → (b ≡ false → Triple P n Q)
      → Triple P (if b then m else n) Q
  Triple-if P true m n Q tm tn = tm refl
  Triple-if P false m n Q tm tn = tn refl

module _ {W A B : Type 0} where
  branch_rule :
      (x : Result A × W) (h : Error → Exec W B) (k : A → Exec W B) (M : Result A → W → Type 0)
      (Q : Result B → W → Type 0)
      → M x.0 x.1
      → ((e : Error) → Triple (M (err e)) (h e) Q)
      → ((a : A) → Triple (M (ok a)) (k a) Q)
      → Q (branch x h k).0 (branch x h k).1
  branch_rule (ok a, w) h k M Q m th tk = (tk a).at w m
  branch_rule (err e, w) h k M Q m th tk = (th e).at w m

  pub Triple-on_error :
      (P : W → Type 0) (m : Exec W A) (h : Error → Exec W B) (k : A → Exec W B)
      (M : Result A → W → Type 0) (Q : Result B → W → Type 0)
      → Triple P m M
      → ((e : Error) → Triple (M (err e)) (h e) Q)
      → ((a : A) → Triple (M (ok a)) (k a) Q)
      → Triple P (on_error m h k) Q
  Triple-on_error P m h k M Q tm th tk = record {
    at = λ w p. branch_rule (m w) h k M Q (tm.at w p) th tk;
  }

-- What holds at the end: `M` where the action returned, `E` where it failed.
abbrev pub Ends : {W A : Type 0} → (W → Type 0) → (W → Type 0) → Result A → W → Type 0
Ends E M (ok a) w = M w
Ends E M (err e) w = E w

module _ {W A B : Type 0} where
  -- One step after the other; a failure of the first ends the sequence.
  pub Triple-seq :
      (E P M N : W → Type 0) (m : Exec W A) (k : Exec W B)
      → Triple P m (Ends E M)
      → Triple M k (Ends E N)
      → Triple P (m >> k) (Ends E N)
  Triple-seq E P M N m k tm tk =
      Triple-on_error P m raise (λ _. k) (Ends E M) (Ends E N) tm (λ e. record { at = λ w p. p })
        (λ a. tk)

module _ {W A : Type 0} where
  Ends-weaken :
      (E F M : W → Type 0)
      → ((w : W) → E w → F w)
      → (r : Result A) (w : W) → Ends E M r w
      → Ends F M r w
  Ends-weaken E F M f (ok a) w h = h
  Ends-weaken E F M f (err e) w h = f w h

  -- A failure may leave less than is known.
  pub Triple-weaken :
      (E F P M : W → Type 0) (m : Exec W A)
      → ((w : W) → E w → F w)
      → Triple P m (Ends E M)
      → Triple P m (Ends F M)
  Triple-weaken E F P M m f t = record { at = λ w p. Ends-weaken E F M f _ _ (t.at w p) }

-- What holds of the result of an action, whatever the state.
pub record Returns {W A : Type 0} (Q : Result A → Type 0) (m : Exec W A) : Type 0 where
  pub at : (w : W) → Q (m w).0

module _ {W A : Type 0} {Q : Result A → Type 0} where
  pub Returns-constant : (r : Result A) → Q r → Returns {W = W} Q (λ w. (r, w))
  Returns-constant r q = record { at = λ w. q }

  pub Returns-if :
      (b : Bool) (m n : Exec W A)
      → (b ≡ true → Returns Q m)
      → (b ≡ false → Returns Q n)
      → Returns Q (if b then m else n)
  Returns-if true m n tm tn = tm refl
  Returns-if false m n tm tn = tn refl

module _ {W A B : Type 0} {Q : Result B → Type 0} where
  returns_branch :
      (x : Result A × W) (h : Error → Exec W B) (k : A → Exec W B)
      → ((e : Error) → Returns Q (h e))
      → ((a : A) → Returns Q (k a))
      → Q (branch x h k).0
  returns_branch (ok a, w) h k th tk = (tk a).at w
  returns_branch (err e, w) h k th tk = (th e).at w

  pub Returns-on_error :
      (m : Exec W A) (h : Error → Exec W B) (k : A → Exec W B)
      → ((e : Error) → Returns Q (h e))
      → ((a : A) → Returns Q (k a))
      → Returns Q (on_error m h k)
  Returns-on_error m h k th tk = record { at = λ w. returns_branch (m w) h k th tk }
