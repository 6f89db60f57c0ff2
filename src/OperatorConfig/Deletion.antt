-- ===== src/OperatorConfig/Deletion.antt =====
-- The finalizer: it goes only after the operator's objects.
use mathlib.Core.Option.{some-injective}
use automotive_dev_operator.Base.{
  String, ◌≡◌, refl, sym, ◌∙◌, ◌⊎◌, inl, inr, true, Option, some, List, [], ◌∷◌, is_some, contains,
  if◌then◌else◌, Bool-cases, arith, Error, wrap, is_not_found, Result, ok, err, Exec, pure, raise,
  branch, Triple, Ends, Triple-seq, Triple-weaken, ◌>>◌,
}
use automotive_dev_operator.Kube.{Key, CtrlResult, done}
use automotive_dev_operator.OperatorConfig.Types.{OperatorConfig}
use automotive_dev_operator.OperatorConfig.Objects.{
  Kind, Ref, managed, ConfigClient, State, returned,
}
use automotive_dev_operator.OperatorConfig.Deploy.{oauth_secret_names}
use automotive_dev_operator.OperatorConfig.Cleanup.{
  delete_or, delete_logged, delete_all, cleanup_web_ui, cleanup_os_builds, task_names,
}
use automotive_dev_operator.OperatorConfig.Controller.{
  finalizer_name, handle_deletion, handle_config, reconcile,
}
use automotive_dev_operator.OperatorConfig.Ownership.{
  IsLawful, web_ui_refs, owned_refs, AllGone, AllGone-delete, AllGone-update,
}

module _ (C : ConfigClient) (stored : C.World → Key → Option OperatorConfig)
    (Gone : C.World → Ref → Type 0) (L : IsLawful C stored Gone) where
  module _ (key : Key) (config : OperatorConfig) where
    -- The resource is still as it was, and so far these objects are gone.
    abbrev Held : State C.World → Type 0
    Held s = stored s.world key ≡ some config

    record Cleared (rs : List Ref) (s : State C.World) : Type 0 where
      held : Held s
      gone : AllGone Gone rs s.world

    delete_branch :
        (text : String) (r : Ref) (rs : List Ref) (s : State C.World)
        (x : Result (Unit {0}) × C.World)
        → stored x.1 key ≡ some config
        → AllGone Gone rs x.1
        → (x.0 ≡ ok tt → Gone x.1 r)
        → ((e : Error) → x.0 ≡ err e → is_not_found e ≡ true → Gone x.1 r)
        → let y =
            branch
              (returned s x)
              (λ e. if is_not_found e then pure tt else raise (wrap text e))
              (pure {A = Unit {0}}) in
          Ends Held (Cleared (r ∷ rs)) y.0 y.1
    delete_branch text r rs s (ok u, w) h g yes_gone missing = record {
      held = h;
      gone = (yes_gone refl, g);
    }
    delete_branch text r rs s (err e, w) h g yes_gone missing = elim (Bool-cases (is_not_found e)) [
      | inl n ↦ rw n (record { held = h; gone = (missing e refl n, g) })
      | inr n ↦ rw n h
    ]

    delete_or-Cleared :
        (text : String) (r : Ref) (rs : List Ref)
        → Triple (Cleared rs) (delete_or C text r) (Ends Held (Cleared (r ∷ rs)))
    delete_or-Cleared text r rs = record {
      at = λ s p.
          delete_branch text r rs s (C.delete_object r s.world)
            (L.stored-delete s.world r key ∙ p.held)
            (AllGone-delete C stored Gone L rs s.world r p.gone) (L.delete_ok s.world r)
            (L.delete_missing s.world r);
    }

    logged_branch :
        (rs : List Ref) (s : State C.World) (x : Result (Unit {0}) × C.World)
        → stored x.1 key ≡ some config
        → AllGone Gone rs x.1
        → let y = branch (returned s x) (λ e. pure tt) (λ a. pure tt) in
          Ends Held (Cleared rs) y.0 y.1
    logged_branch rs s (ok u, w) h g = record { held = h; gone = g }
    logged_branch rs s (err e, w) h g = record { held = h; gone = g }

    delete_logged-Cleared :
        (r : Ref) (rs : List Ref) → Triple (Cleared rs) (delete_logged C r) (Ends Held (Cleared rs))
    delete_logged-Cleared r rs = record {
      at = λ s p.
          logged_branch rs s (C.delete_object r s.world) (L.stored-delete s.world r key ∙ p.held)
            (AllGone-delete C stored Gone L rs s.world r p.gone);
    }

    -- The list after the loop over names.
    abbrev pile : Kind → List String → List Ref → List Ref
    pile kind [] rs = rs
    pile kind (name ∷ names) rs = pile kind names (managed kind name ∷ rs)

    delete_all-Cleared :
        (text : String) (kind : Kind) (names : List String) (rs : List Ref)
        → Triple
            (Cleared rs)
            (delete_all C text kind names)
            (Ends Held (Cleared (pile kind names rs)))
    unfolding delete_all
    delete_all-Cleared text kind [] rs = record { at = λ s p. p }
    delete_all-Cleared text kind (name ∷ names) rs =
        Triple-seq Held (Cleared rs) _ _ _ (delete_all C text kind names) (delete_or-Cleared _ _ rs)
          (delete_all-Cleared text kind names (managed kind name ∷ rs))

    -- One step of a cleanup in front of the rest of it.
    deleting :
        (text : String) (r : Ref) (rs qs : List Ref) (k : Exec (State C.World) (Unit {0}))
        → Triple (Cleared (r ∷ rs)) k (Ends Held (Cleared qs))
        → Triple (Cleared rs) (delete_or C text r >> k) (Ends Held (Cleared qs))
    deleting text r rs qs k rest =
        Triple-seq Held (Cleared rs) (Cleared (r ∷ rs)) (Cleared qs) (delete_or C text r) k
          (delete_or-Cleared text r rs) rest

    logging :
        (r : Ref) (rs qs : List Ref) (k : Exec (State C.World) (Unit {0}))
        → Triple (Cleared rs) k (Ends Held (Cleared qs))
        → Triple (Cleared rs) (delete_logged C r >> k) (Ends Held (Cleared qs))
    logging r rs qs k rest =
        Triple-seq Held (Cleared rs) (Cleared rs) (Cleared qs) (delete_logged C r) k
          (delete_logged-Cleared r rs) rest

    cleanup_web_ui-Cleared :
        Triple (Cleared []) (cleanup_web_ui C) (Ends Held (Cleared web_ui_refs))
    unfolding cleanup_web_ui
    cleanup_web_ui-Cleared = deleting _ _ _ _ _ (
        deleting _ _ _ _ _ (
          logging _ _ _ _ (
            deleting _ _ _ _ _ (
              deleting _ _ _ _ _ (
                deleting _ _ _ _ _ (
                  deleting _ _ _ _ _ (
                    logging _ _ _ _
                      (deleting _ _ _ _ _ (delete_all-Cleared _ _ oauth_secret_names _)))))))))

    cleanup_os_builds-Cleared :
        Triple (Cleared web_ui_refs) (cleanup_os_builds C) (Ends Held (Cleared owned_refs))
    unfolding cleanup_os_builds
    cleanup_os_builds-Cleared =
        Triple-seq Held (Cleared web_ui_refs) _ (Cleared owned_refs) _ _
          (delete_all-Cleared _ _ task_names web_ui_refs) (delete_or-Cleared _ _ _)

    -- What a deletion in progress leaves: the resource as it was, or all objects gone.
    abbrev Safe : State C.World → Type 0
    Safe s = Held s ⊎ AllGone Gone owned_refs s.world

    abbrev AllClear : State C.World → Type 0
    AllClear s = AllGone Gone owned_refs s.world

    update_branch :
        (s : State C.World) (x : Result (Unit {0}) × C.World)
        → AllGone Gone owned_refs x.1
        → let y = branch (returned s x) raise (λ _. pure done) in Ends Safe AllClear y.0 y.1
    update_branch s (ok u, w) g = g
    update_branch s (err e, w) g = inr g

    either : (r : Result CtrlResult) (s : State C.World) → Ends Safe AllClear r s → Safe s
    either (ok a) s h = inr h
    either (err e) s h = h

    handle_deletion-Safe : Triple (Cleared []) (handle_deletion C config) (Ends Safe AllClear)
    unfolding handle_deletion
    handle_deletion-Safe =
        Triple-seq Safe (Cleared []) (Cleared web_ui_refs) AllClear (cleanup_web_ui C) _
          (Triple-weaken Held Safe _ _ _ (λ s h. inl h) cleanup_web_ui-Cleared)
          (Triple-seq Safe (Cleared web_ui_refs) (Cleared owned_refs) AllClear (cleanup_os_builds C)
            _ (Triple-weaken Held Safe _ _ _ (λ s h. inl h) cleanup_os_builds-Cleared)
            (record {
              at = λ s p.
                  update_branch s _ (AllGone-update C stored Gone L owned_refs s.world _ p.gone);
            }))

    -- A resource that is being deleted and has the finalizer goes to the deletion.
    handle_config_deleting :
        (s : State C.World)
        → contains config.meta.finalizers finalizer_name ≡ true
        → is_some config.meta.deletion_timestamp ≡ true
        → handle_config C config s ≡ handle_deletion C config s
    unfolding handle_config
    handle_config_deleting s f d = rw (f, d)

    read_branch :
        (s : State C.World) (x : Result OperatorConfig × C.World)
        → contains config.meta.finalizers finalizer_name ≡ true
        → is_some config.meta.deletion_timestamp ≡ true
        → stored x.1 key ≡ some config
        → ((c : OperatorConfig) → x.0 ≡ ok c → config ≡ c)
        → Safe
            (branch
              (returned s x)
              (λ e. if is_not_found e then pure done else raise e)
              (handle_config C)).1
    read_branch s (ok c, w) f d h same =
        rw (← same c refl, handle_config_deleting _ f d)
          (either _ _
            (handle_deletion-Safe.at (record s { world = w }) (record { held = h; gone = tt })))
    read_branch s (err e, w) f d h same = inl (rw (unread e) h)
      where
        unread :
            (e : Error)
            → ((if is_not_found e then pure done else raise {A = CtrlResult} e)
                (record s { world = w })).1
              ≡ record s { world = w }
        unread e = ground arith

  -- Whatever calls fail while a resource with the operator's finalizer is being deleted: afterwards
  -- the resource is still stored as it was, with its finalizer, or every object that the operator
  -- deletes, the routes aside, is gone.
  pub reconcile_deletion_safe :
      (key : Key) (config : OperatorConfig) (s : State C.World)
      → stored s.world key ≡ some config
      → contains config.meta.finalizers finalizer_name ≡ true
      → is_some config.meta.deletion_timestamp ≡ true
      → let t = (reconcile C key s).1.world in
        (stored t key ≡ some config) ⊎ AllGone Gone owned_refs t
  unfolding reconcile
  reconcile_deletion_safe key config s h f d =
      read_branch key config s (C.get_config key s.world) f d (L.stored-get s.world key key ∙ h)
        (λ c e. some-injective config c (sym h ∙ L.get-stored s.world key c e))
