-- ===== src/ImageBuild/Outcome.antt =====
-- What one and what many reconciliations make of a stored image build.
use automotive_dev_operator.Base.{
  ℕ, zero, suc, String, ◌≡◌, refl, ◌∙◌, ◌⊎◌, inl, inr, true, Option, some, none,
}
use automotive_dev_operator.Kube.{Key}
use automotive_dev_operator.ImageBuild.Types.{ImageBuild}
use automotive_dev_operator.ImageBuild.Client.{BuildClient}
use automotive_dev_operator.ImageBuild.Controller.{reconcile}
use automotive_dev_operator.ImageBuild.Server.{IsServer}
use automotive_dev_operator.ImageBuild.Lifecycle.{
  Edge, upload, start, uploaded, complete, fail, IsTimed, is_final, Evolves,
}
use automotive_dev_operator.ImageBuild.Reconcile.{reconciled-Evolves}

-- A time that is set stays the same.
pub data KeepsTime (old new : Option ℕ) : Type 0 where
  unset : old ≡ none → KeepsTime old new
  unchanged : new ≡ old → KeepsTime old new

pub record Progresses (old new : ImageBuild) : Type 0 where
  pub meta : new.meta ≡ old.meta
  pub spec : new.spec ≡ old.spec
  pub phase : (new.status.phase ≡ old.status.phase) ⊎ Edge old new.status.phase
  pub start_time : KeepsTime old.status.start_time new.status.start_time
  pub completion_time : KeepsTime old.status.completion_time new.status.completion_time

keeps_time : (old new : Option ℕ) → ((t : ℕ) → old ≡ some t → new ≡ some t) → KeepsTime old new
keeps_time none new h = unset refl
keeps_time (some t) new h = unchanged (h t refl)

Evolves-Progresses : {old new : ImageBuild} → Evolves old new → Progresses old new
Evolves-Progresses e = record {
  meta = e.meta;
  spec = e.spec;
  phase = e.phase;
  start_time = keeps_time _ _ e.start_time;
  completion_time = keeps_time _ _ e.completion_time;
}

-- No edge leaves the two last phases.
final_stays :
    (old : ImageBuild) (p : String)
    → is_final old.status.phase ≡ true
    → (p ≡ old.status.phase) ⊎ Edge old p
    → p ≡ old.status.phase
final_stays old p f (inl e) = e
final_stays old p f (inr (upload e x)) = cc (rw e at f)
final_stays old p f (inr (start e x)) = cc (rw e at f)
final_stays old p f (inr (uploaded e x)) = cc (rw e at f)
final_stays old p f (inr (complete e)) = cc (rw e at f)
final_stays old p f (inr (fail e)) = cc (rw e at f)

module _ (C : BuildClient) where
  -- `n` reconciliations of one image build, one after the other.
  unfoldable pub build_rounds : ℕ → Key → C.World → C.World
  build_rounds zero key w = w
  build_rounds (suc n) key w = (reconcile C key (build_rounds n key w)).1

module _ (C : BuildClient) (stored : C.World → Key → Option ImageBuild)
    (L : IsServer C stored) where
  -- Whatever calls fail in a reconciliation of a stored image build, it is still stored after it,
  -- with the same metadata and specification, in the same phase or one edge of the diagram further.
  -- A start or completion time that was set is the same as before.
  pub reconcile-Progresses :
      (key : Key) (old : ImageBuild) (w : C.World)
      → stored w key ≡ some old
      → (new : ImageBuild) × (stored (reconcile C key w).1 key ≡ some new) × Progresses old new
  reconcile-Progresses key old w h =
      let (new, s, e) = reconciled-Evolves C stored L key old w h in (new, s, Evolves-Progresses e)

  -- A stored image build that has the times of its phase, a start once it is building and a
  -- completion once it is completed or failed, has those of its phase after a reconciliation too,
  -- whatever calls fail.
  pub reconcile-IsTimed :
      (key : Key) (old : ImageBuild) (w : C.World)
      → stored w key ≡ some old
      → IsTimed old
      → (new : ImageBuild) × (stored (reconcile C key w).1 key ≡ some new) × IsTimed new
  reconcile-IsTimed key old w h timed =
      let (new, s, e) = reconciled-Evolves C stored L key old w h in (new, s, e.timed timed)

  -- A completed or failed build keeps its phase and its specification in any number of
  -- reconciliations, whatever calls fail.
  pub build_rounds_final :
      (key : Key) (old : ImageBuild) (w : C.World)
      → stored w key ≡ some old
      → is_final old.status.phase ≡ true
      → (n : ℕ)
      → (new : ImageBuild) × (stored (build_rounds C n key w) key ≡ some new)
        × (new.status.phase ≡ old.status.phase)
        × (new.spec ≡ old.spec)
  unfolding build_rounds
  build_rounds_final key old w h f zero = (old, h, refl, refl)
  build_rounds_final key old w h f (suc n) =
      let (mid, held, phase, spec) = build_rounds_final key old w h f n in
      let (new, s, e) = reconciled-Evolves C stored L key mid (build_rounds C n key w) held in
      (new, s, final_stays mid new.status.phase (rw phase f) e.phase ∙ phase, e.spec ∙ spec)
