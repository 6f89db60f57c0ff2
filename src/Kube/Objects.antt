-- ===== src/Kube/Objects.antt =====
-- Reading one kind of object and patching its status, over an unknown state of the cluster, and
-- what the API server is assumed to do with these calls.
use mathlib.Core.Option.{some-injective}
use automotive_dev_operator.Base.{
  ℕ, ◌≡◌, refl, sym, ◌∙◌, ◌⊎◌, inl, inr, Option, some, Result, ok, err, Exec, branch, ◌>>=◌, gets,
}
use automotive_dev_operator.Kube.Names.{Key}

-- `r.Get(ctx, key, obj)` and `r.Status().Patch(ctx, modified, client.MergeFrom(base))`.
pub record ObjectClient (W A : Type 0) : Type 0 where
  pub get : Key → Exec W A
  pub patch_status : A → A → Exec W (Unit {0})

module _ {W A : Type 0} where
  -- The steps that every status writer of the program takes: read, change, patch against what was
  -- read.
  abbrev pub modify_status : ObjectClient W A → (W → ℕ) → Key → (ℕ → A → A) → Exec W (Unit {0})
  modify_status c clock k f = do
    fresh ← c.get k
    now ← gets clock
    c.patch_status fresh (f now fresh)

  -- `stored` is what the server holds, `key` an object's name in it. A read changes nothing, and
  -- returns what is held. A patch against the held object that succeeds leaves `patched` of the two
  -- objects; one that reports an error, such as a timeout, may or may not have done so.
  pub record IsLawful (c : ObjectClient W A) (key : A → Key) (patched : A → A → A)
      (stored : W → Key → Option A) : Type 0 where
    pub stored-get : (w : W) (k j : Key) → stored (c.get k w).1 j ≡ stored w j
    pub get-stored :
        (w : W) (k : Key) (a : A) → (c.get k w).0 ≡ ok a → (stored w k ≡ some a) × (key a ≡ k)
    pub patch_ok :
        (w : W) (k : Key) (a m : A)
        → stored w k ≡ some a
        → (c.patch_status a m w).0 ≡ ok tt
        → stored (c.patch_status a m w).1 k ≡ some (patched a m)
    pub patch_any :
        (w : W) (k : Key) (a m : A)
        → stored w k ≡ some a
        → (stored (c.patch_status a m w).1 k ≡ some a)
          ⊎ (stored (c.patch_status a m w).1 k ≡ some (patched a m))

  -- The server holds `a`, or `f` of it at some time; for sure the latter where the call returned.
  pub record Changed (stored : W → Key → Option A) (k : Key) (a : A) (f : ℕ → A → A)
      (r : Result (Unit {0})) (w : W) : Type 0 where
    pub either : (stored w k ≡ some a) ⊎ ((t : ℕ) × (stored w k ≡ some (f t a)))
    pub written : r ≡ ok tt → (t : ℕ) × (stored w k ≡ some (f t a))

  -- No call fails: what is held is read, and a patch against it returns.
  pub record Answers (c : ObjectClient W A) (stored : W → Key → Option A) : Type 0 where
    pub reads : (w : W) (k : Key) (a : A) → stored w k ≡ some a → (c.get k w).0 ≡ ok a
    pub patches :
        (w : W) (k : Key) (a m : A) → stored w k ≡ some a → (c.patch_status a m w).0 ≡ ok tt

module _ {W A : Type 0} (c : ObjectClient W A) (key : A → Key) (patched : A → A → A)
    (stored : W → Key → Option A) (L : IsLawful c key patched stored) (clock : W → ℕ) where
  modify_read :
      (k : Key) (a : A) (f : ℕ → A → A)
      → ((t : ℕ) → patched a (f t a) ≡ f t a)
      → (x : Result A × W) → stored x.1 k ≡ some a
      → ((b : A) → x.0 ≡ ok b → a ≡ b)
      → let y = branch x (λ e w. (err e, w)) (λ b w. c.patch_status b (f (clock w) b) w) in
        Changed stored k a f y.0 y.1
  modify_read k a f only (err e, w) held same = record { either = inl held; written = λ h. cc }
  modify_read k a f only (ok b, w) held same = rw (← same b refl) (record {
    either = elim (L.patch_any w k a (f (clock w) a) held) [
      | inl h ↦ inl h
      | inr h ↦ inr (clock w, rw (only (clock w)) at h)
    ];
    written = λ h. (clock w, rw (only (clock w)) at (L.patch_ok w k a (f (clock w) a) held h));
  })

  -- A status writer leaves the object as it was or changed by `f`, and changed if it returned.
  pub modify_status-Changed :
      (k : Key) (a : A) (f : ℕ → A → A)
      → ((t : ℕ) → patched a (f t a) ≡ f t a)
      → (w : W) → stored w k ≡ some a
      → Changed stored k a f (modify_status c clock k f w).0 (modify_status c clock k f w).1
  modify_status-Changed k a f only w held =
      modify_read k a f only (c.get k w) (L.stored-get w k k ∙ held)
        (λ b e. some-injective a b (sym held ∙ (L.get-stored w k b e).0))

  pub read-eq :
      Answers c stored
      → (w : W) (k : Key) (a : A) → stored w k ≡ some a
      → c.get k w ≡ (ok a, (c.get k w).1)
  read-eq answers w k a held = λ i. (answers.reads w k a held i, (c.get k w).1)

  -- A status writer returns and has changed the object by `f`.
  pub modify_status_answered :
      Answers c stored
      → (k : Key) (a : A) (f : ℕ → A → A) → ((t : ℕ) → patched a (f t a) ≡ f t a)
      → (w : W) → stored w k ≡ some a
      → ((modify_status c clock k f w).0 ≡ ok tt)
        × (t : ℕ) × (stored (modify_status c clock k f w).1 k ≡ some (f t a))
  modify_status_answered answers k a f only w held =
      let returned : (modify_status c clock k f w).0 ≡ ok tt =
        rw (read-eq answers w k a held) (answers.patches _ k a _ (L.stored-get w k k ∙ held)) in
      let changed = (modify_status-Changed k a f only w held).written returned in
      (returned, changed.0, changed.1)
