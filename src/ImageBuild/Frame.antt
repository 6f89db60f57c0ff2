-- ===== src/ImageBuild/Frame.antt =====
-- Reads and writes of the stored image build, and a condition `Q` that it keeps.
use mathlib.Core.Option.{some-injective}
use automotive_dev_operator.Base.{
  String, ◌≡◌, refl, sym, subst, wrap, ◌∙◌, inl, inr, Option, some, Error, Result, ok, err, Exec,
  branch, on_error, wrapping, pure, raise, Preserves, Preserves-raise,
}
use automotive_dev_operator.Kube.{Key, key_of}
use automotive_dev_operator.ImageBuild.Types.{ImageBuild}
use automotive_dev_operator.ImageBuild.Client.{BuildClient}
use automotive_dev_operator.ImageBuild.Server.{IsServer, SameLife, Frames, patched}
use automotive_dev_operator.ImageBuild.Storage.{rewrite_status}

module _ (C : BuildClient) (stored : C.World → Key → Option ImageBuild) where
  -- Some image build with `Q` is stored under the key.
  abbrev pub Holds : Key → (ImageBuild → Type 0) → C.World → Type 0
  Holds k Q w = (b : ImageBuild) × (stored w k ≡ some b) × Q b

-- `Q` does not speak of names and texts.
abbrev pub IsBlind : (ImageBuild → Type 0) → Type 0
IsBlind Q = (b c : ImageBuild) → SameLife b c → Q b → Q c

module _ (C : BuildClient) (stored : C.World → Key → Option ImageBuild) (L : IsServer C stored)
    (k : Key) (Q : ImageBuild → Type 0) where
  pub frame :
      {A : Type 0} (m : Exec C.World A) → Frames C stored m → Preserves (Holds C stored k Q) m
  frame m f = record { at = λ w (b, s, q). (b, f.at w k ∙ s, q) }

  -- What a read returns is what is stored, so `Q` holds of it.
  read_branch :
      {A : Type 0} (h : Error → Exec C.World A) (m : ImageBuild → Exec C.World A)
      → ((e : Error) → Preserves (Holds C stored k Q) (h e))
      → ((b : ImageBuild) (w : C.World)
          → key_of b.meta ≡ k
          → stored w k ≡ some b
          → Q b
          → Holds C stored k Q (m b w).1)
      → (x : Result ImageBuild × C.World) → Holds C stored k Q x.1
      → ((b : ImageBuild) → x.0 ≡ ok b → (stored x.1 k ≡ some b) × (key_of b.meta ≡ k))
      → Holds C stored k Q (branch x h m).1
  read_branch h m kh km (err e, w) held read = (kh e).at w held
  read_branch h m kh km (ok b, w) (c, s, q) read =
      let (at_k, key) = read b refl in
      km b w key at_k (subst Q (some-injective c b (sym s ∙ at_k)) q)

  read_at :
      {A : Type 0} (h : Error → Exec C.World A) (m : ImageBuild → Exec C.World A)
      → ((e : Error) → Preserves (Holds C stored k Q) (h e))
      → ((b : ImageBuild) (w : C.World)
          → key_of b.meta ≡ k
          → stored w k ≡ some b
          → Q b
          → Holds C stored k Q (m b w).1)
      → Preserves (Holds C stored k Q) (on_error (C.builds.get k) h m)
  read_at h m kh km = record {
    at = λ w (c, s, q).
        read_branch h m kh km (C.builds.get k w) (c, L.builds.stored-get w k k ∙ s, q)
          (λ b r.
            let (held, key) = L.builds.get-stored w k b r in
            (L.builds.stored-get w k k ∙ held, key));
  }

  -- A read of the image build, where `km` may use that what it returned is stored.
  pub after_read :
      {A : Type 0} (j : Key) (h : Error → Exec C.World A) (m : ImageBuild → Exec C.World A)
      → j ≡ k
      → ((e : Error) → Preserves (Holds C stored k Q) (h e))
      → ((b : ImageBuild) (w : C.World)
          → key_of b.meta ≡ k
          → stored w k ≡ some b
          → Q b
          → Holds C stored k Q (m b w).1)
      → Preserves (Holds C stored k Q) (on_error (C.builds.get j) h m)
  after_read j h m e kh km =
      subst (λ i. Preserves (Holds C stored k Q) (on_error (C.builds.get i) h m)) (sym e)
        (read_at h m kh km)

  wrapping_world :
      {A : Type 0} (s : String) (x : Result A × C.World)
      → (branch x (λ e. raise (wrap s e)) (pure {A = A})).1 ≡ x.1
  wrapping_world s (ok a, w) = refl
  wrapping_world s (err e, w) = refl

  wrapped_branch :
      {A : Type 0} (s : String) (m : ImageBuild → Exec C.World A) (x : Result ImageBuild × C.World)
      → branch (branch x (λ e. raise (wrap s e)) pure) raise m ≡ branch x (λ e. raise (wrap s e)) m
  wrapped_branch s m (ok b, w) = refl
  wrapped_branch s m (err e, w) = refl

  pub patch-Holds :
      (b m : ImageBuild) (w : C.World)
      → stored w k ≡ some b
      → Q b
      → Q (patched b m)
      → Holds C stored k Q (C.builds.patch_status b m w).1
  patch-Holds b m w s q q' = elim (L.builds.patch_any w k b m s) [
    | inl h ↦ (b, h, q)
    | inr h ↦ (patched b m, h, q')
  ]

  update-Holds :
      (b m : ImageBuild) (w : C.World)
      → stored w k ≡ some b
      → Q b
      → Q (patched b m)
      → Holds C stored k Q (C.update_status b m w).1
  update-Holds b m w s q q' = elim (L.update_any w k b m s) [
    | inl h ↦ (b, h, q)
    | inr h ↦ (patched b m, h, q')
  ]

  pub rewrite_status-Preserves :
      (b : ImageBuild) (text : String) (f : ImageBuild → ImageBuild)
      → key_of b.meta ≡ k
      → ((c : ImageBuild) → Q c → Q (patched c (f c)))
      → Preserves (Holds C stored k Q) (rewrite_status C b text f)
  unfolding rewrite_status
  rewrite_status-Preserves b text f e q = record {
    at = λ w h.
        rw
          (wrapped_branch "failed to get fresh ImageBuild"
            (λ c. wrapping text (C.update_status c (f c))) (C.builds.get (key_of b.meta) w))
          ((after_read (key_of b.meta) _ _ e (λ _. Preserves-raise _)
              λ c v key held qc.
                rw (wrapping_world text (C.update_status c (f c) v))
                  (update-Holds c (f c) v held qc (q c qc))).at
            w h);
  }
