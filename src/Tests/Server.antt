-- ===== src/Tests/Server.antt =====
-- A server that holds one object, whose calls all return.
use automotive_dev_operator.Base.{
  ◌≡◌, refl, sym, inr, Bool, true, false, ◌&&◌, ◌==◌, eq_iff, eq_refl, Option, some, none,
  if◌then◌else◌, arith, api, not_found, Result, ok, err,
}
use automotive_dev_operator.Kube.{Key, ObjectClient, IsLawful, Answers}

abbrev pub same_key : Key → Key → Bool
same_key a b = (a.namespace == b.namespace) && (a.name == b.name)

pub same_key_eq : (a b : Key) → same_key a b ≡ true → a ≡ b
same_key_eq a b h =
    let e : a.namespace ≡ b.namespace =
      ground (arith, eq_iff a.namespace b.namespace, eq_iff a.name b.name) in
    let f : a.name ≡ b.name =
      ground (arith, eq_iff a.namespace b.namespace, eq_iff a.name b.name) in
    λ i. record { namespace = e i; name = f i }

module _ {A : Type 0} (key : A → Key) where
  abbrev pub one_stored : A → Key → Option A
  one_stored a k = if same_key k (key a) then some a else none

  abbrev pub one_get : Key → A → Result A × A
  one_get k w = (if same_key k (key w) then ok w else err (api not_found "not found"), w)

module _ {A : Type 0} (key : A → Key) (merge : A → A → A → A) where
  -- `merge` is the effect of a patch on the object held.
  abbrev pub one_object : ObjectClient A A
  one_object = record { get = one_get key; patch_status = λ b m w. (ok tt, merge w b m) }

module _ {A : Type 0} (x : Key) where
  pick_some :
      (c : Bool) (w a : A) (k : Key)
      → (c ≡ true → k ≡ x)
      → (if c then some w else none) ≡ some a
      → (w ≡ a) × (k ≡ x)
  pick_some true w a k e h = (cc, e refl)
  pick_some false w a k e h = cc

  pick_ok :
      (c : Bool) (w a : A) (k : Key)
      → (c ≡ true → k ≡ x)
      → (if c then ok w else err (api not_found "not found")) ≡ ok a
      → ((if c then some w else none) ≡ some a) × (w ≡ a) × (k ≡ x)
  pick_ok true w a k e h = (cc, cc, e refl)
  pick_ok false w a k e h = cc

module _ {A : Type 0} (key : A → Key) where
  pub one_stored_eq :
      (w : A) (k : Key) (a : A) → one_stored key w k ≡ some a → (w ≡ a) × (k ≡ key w)
  one_stored_eq w k a = pick_some (key w) (same_key k (key w)) w a k (same_key_eq k (key w))

  pub one_get_ok :
      (w : A) (k : Key) (a : A)
      → (one_get key k w).0 ≡ ok a
      → (one_stored key w k ≡ some a) × (key a ≡ k)
  one_get_ok w k a h =
      let (s, e, n) = pick_ok (key w) (same_key k (key w)) w a k (same_key_eq k (key w)) h in
      (s, rw (← e) (sym n))

  -- The object may be replaced by one with the same key.
  pub one_stored_at :
      (w : A) (k : Key) (a b : A)
      → one_stored key w k ≡ some a
      → key b ≡ key w
      → one_stored key b k ≡ some b
  one_stored_at w k a b h e =
      rw ((one_stored_eq w k a h).1, ← e, eq_refl (key b).namespace, eq_refl (key b).name)

  -- A merge that does to the object held what a patch of it does.
  pub one_object-IsLawful :
      (merge : A → A → A → A) (p : A → A → A)
      → ((a m : A) → merge a a m ≡ p a m)
      → ((a m : A) → key (p a m) ≡ key a)
      → IsLawful (one_object key merge) key p (one_stored key)
  one_object-IsLawful merge p same keeps = record {
    stored-get = λ w k j. refl;
    get-stored = one_get_ok;
    patch_ok = λ w k a m h e. at_patch w k a m h;
    patch_any = λ w k a m h. inr (at_patch w k a m h);
  }
    where
      at_patch :
          (w : A) (k : Key) (a m : A)
          → one_stored key w k ≡ some a
          → one_stored key (merge w a m) k ≡ some (p a m)
      at_patch w k a m h =
          let e = (one_stored_eq w k a h).0 in
          rw (e, same a m) (one_stored_at w k a (p a m) h (rw e (keeps a m)))

  pub one_object-Answers : (merge : A → A → A → A) → Answers (one_object key merge) (one_stored key)
  one_object-Answers merge = record {
    reads = λ w k a h.
        let (e, n) = one_stored_eq w k a h in
        rw (n, e, eq_refl (key a).namespace, eq_refl (key a).name) refl;
    patches = λ w k a m h. refl;
  }
