-- ===== src/Image/Conditions.antt =====
-- The conditions of a stored image agree with its phase.
use automotive_dev_operator.Base.{
  ℕ, suc, ◌≤◌, String, ◌≡◌, ◌≢◌, refl, ◌⊎◌, inr, Option, none, some, List, [], ◌∷◌, ◌==◌, eq_iff,
  if◌then◌else◌, arith,
}
use automotive_dev_operator.Kube.{Key, key_of, IsLawful}
use automotive_dev_operator.Image.Types.{Image, Condition}
use automotive_dev_operator.Image.Controller.{
  ImageClient, make_condition, set_condition, with_phase, reconcile,
}
use automotive_dev_operator.Image.Lifecycle.{
  patched, Evolves, same, move, verify, reconcile-Evolves,
}

-- The first condition of a type, and how many there are.
unfoldable pub find_condition : String → List Condition → Option Condition
find_condition t [] = none
find_condition t (x ∷ xs) = if x.type == t then some x else find_condition t xs

unfoldable pub count_conditions : String → List Condition → ℕ
count_conditions t [] = 0
count_conditions t (x ∷ xs) =
    if x.type == t then suc (count_conditions t xs) else count_conditions t xs

find-set_condition :
    (c : Condition) (xs : List Condition)
    → c.type ≡ "Available"
    → find_condition "Available" (set_condition c xs) ≡ some c
unfolding find_condition set_condition
find-set_condition c [] e = rw (e, find_condition) (ground arith)
find-set_condition c (x ∷ xs) e =
    ground (arith, find-set_condition c xs e, eq_iff c.type "Available")

find-set_condition_ne :
    (c : Condition) (xs : List Condition) (t : String)
    → c.type ≡ "Available"
    → t ≢ "Available"
    → find_condition t (set_condition c xs) ≡ find_condition t xs
unfolding find_condition set_condition
find-set_condition_ne c [] t e n = ground (arith, eq_iff c.type t)
find-set_condition_ne c (x ∷ xs) t e n = ground (
  arith,
  find-set_condition_ne c xs t e n,
  eq_iff c.type t,
  eq_iff x.type "Available",
  eq_iff x.type t,
)

count-set_condition :
    (c : Condition) (xs : List Condition)
    → c.type ≡ "Available"
    → count_conditions "Available" xs ≤ 1
    → count_conditions "Available" (set_condition c xs) ≤ 1
unfolding count_conditions set_condition
count-set_condition c [] e h = ground (arith, eq_iff c.type "Available")
count-set_condition c (x ∷ xs) e h =
    ground (arith, count-set_condition c xs e, eq_iff c.type "Available")

-- There is at most one condition of type Available. Once the image has a phase there is one, which
-- is True exactly in the phase Available and has the message of the status.
pub record IsConsistent (i : Image) : Type 0 where
  pub unique : count_conditions "Available" i.status.conditions ≤ 1
  pub agrees :
      (i.status.phase ≡ "")
      ⊎ ((c : Condition) × (find_condition "Available" i.status.conditions ≡ some c)
          × (c.status ≡ (if i.status.phase == "Available" then "True" else "False"))
          × (c.message ≡ i.status.message))

module _ {old : Image} where
  Evolves-IsConsistent : {new : Image} → Evolves old new → IsConsistent old → IsConsistent new
  unfolding with_phase
  Evolves-IsConsistent same h = h
  Evolves-IsConsistent (move {p} text t e) h = record {
    unique = count-set_condition (make_condition p text t) old.status.conditions refl h.unique;
    agrees = inr (
      make_condition p text t,
      find-set_condition (make_condition p text t) old.status.conditions refl,
      refl,
      refl,
    );
  }
  Evolves-IsConsistent (verify t e) h =
      let g = Evolves-IsConsistent e h in record { unique = g.unique; agrees = g.agrees }

  Evolves-find_condition :
      {new : Image} (t : String)
      → Evolves old new
      → t ≢ "Available"
      → find_condition t new.status.conditions ≡ find_condition t old.status.conditions
  unfolding with_phase
  Evolves-find_condition t same n = refl
  Evolves-find_condition t (move {p} text now e) n =
      find-set_condition_ne (make_condition p text now) old.status.conditions t refl n
  Evolves-find_condition t (verify now e) n = Evolves-find_condition t e n

module _ (C : ImageClient) (stored : C.World → Key → Option Image)
    (L : IsLawful C.images (λ i. key_of i.meta) patched stored) where
  -- A reconciliation of a stored image whose conditions are consistent with its phase leaves a
  -- stored image whose conditions are so too, whatever calls fail, and leaves the first condition
  -- of any other type than Available as it was.
  pub reconcile-IsConsistent :
      (key : Key) (old : Image) (t : String) (w : C.World)
      → stored w key ≡ some old
      → IsConsistent old
      → t ≢ "Available"
      → (new : Image) × (stored (reconcile C key w).1 key ≡ some new)
        × IsConsistent new
        × (find_condition t new.status.conditions ≡ find_condition t old.status.conditions)
  reconcile-IsConsistent key old t w held good other =
      let (new, h, e) = reconcile-Evolves C stored L key old w held in
      (new, h, Evolves-IsConsistent e good, Evolves-find_condition t e other)
