-- ===== src/Image/Rounds.antt =====
-- Many reconciliations of one image, where the API server answers.
use automotive_dev_operator.Base.{
  ℕ, zero, suc, String, ◌≡◌, refl, sym, ◌∙◌, ◌⊎◌, inl, inr, true, Option, some, subst,
}
use automotive_dev_operator.Kube.{Key, key_of, IsLawful, Answers}
use automotive_dev_operator.Image.Types.{Image}
use automotive_dev_operator.Image.Controller.{ImageClient, reconcile}
use automotive_dev_operator.Image.Lifecycle.{patched, is_registry, located}
use automotive_dev_operator.Image.Liveness.{advance, next_phase, reconcile_answered}

module _ (C : ImageClient) where
  -- The state after some reconciliations of one key in a row.
  pub rounds : ℕ → Key → C.World → C.World
  rounds zero key w = w
  rounds (suc n) key w = (reconcile C key (rounds n key w)).1

abbrev pub IsKnown : String → Type 0
IsKnown p = (p ≡ "") ⊎ (p ≡ "Verifying") ⊎ (p ≡ "Available") ⊎ (p ≡ "Unavailable")

advance_known :
    (p : String) → IsKnown p → (advance true p ≡ "Verifying") ⊎ (advance true p ≡ "Available")
unfolding advance
advance_known p (inl e) = rw e (inl refl)
advance_known p (inr (inl e)) = rw e (inr refl)
advance_known p (inr (inr (inl e))) = rw e (inr refl)
advance_known p (inr (inr (inr e))) = rw e (inl refl)

advance_near : (p : String) → (p ≡ "Verifying") ⊎ (p ≡ "Available") → advance true p ≡ "Available"
unfolding advance
advance_near p (inl e) = rw e
advance_near p (inr e) = rw e

module _ (C : ImageClient) (stored : C.World → Key → Option Image)
    (L : IsLawful C.images (λ i. key_of i.meta) patched stored) (A : Answers C.images stored)
    (key : Key) (old : Image) (w : C.World) where
  -- After `n` reconciliations the image has its old specification and a phase of which `P` holds.
  abbrev Stands : ℕ → (String → Type 0) → Type 0
  Stands n P =
      (new : Image) × (stored (rounds C n key w) key ≡ some new)
      × P new.status.phase
      × (new.spec ≡ old.spec)

  one_round :
      (n : ℕ) (P Q : String → Type 0)
      → is_registry old.spec ≡ true
      → ((p : String) → P p → Q (advance true p))
      → Stands n P
      → Stands (suc n) Q
  unfolding rounds next_phase
  one_round n P Q l step (i, held, at_p, spec) =
      let (_, new, held', phase, same) =
        reconcile_answered C stored L A key i (rounds C n key w) held in
      (new, held', subst Q (sym (phase ∙ rw (spec, l))) (step i.status.phase at_p), same ∙ spec)

  -- Where no call fails, an image in one of the four phases whose location is accepted is available
  -- after two reconciliations and after every later one, with its specification unchanged.
  pub rounds-available :
      stored w key ≡ some old
      → IsKnown old.status.phase
      → located old ≡ true
      → (n : ℕ)
      → (new : Image) × (stored (rounds C (suc (suc n)) key w) key ≡ some new)
        × (new.status.phase ≡ "Available")
        × (new.spec ≡ old.spec)
  unfolding rounds
  rounds-available held known l zero =
      one_round 1 (λ p. (p ≡ "Verifying") ⊎ (p ≡ "Available")) (λ p. p ≡ "Available") l advance_near
        (one_round 0 IsKnown _ l advance_known (old, held, known, refl))
  rounds-available held known l (suc n) =
      one_round (suc (suc n)) (λ p. p ≡ "Available") (λ p. p ≡ "Available") l
        (λ p e. advance_near p (inr e)) (rounds-available held known l n)
