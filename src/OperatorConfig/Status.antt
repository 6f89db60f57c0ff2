-- ===== src/OperatorConfig/Status.antt =====
-- The status that a reconciliation writes: it tells what was deployed.
use automotive_dev_operator.Base.{
  ◌≡◌, sym, ◌∙◌, ap, subst, ◌⊎◌, true, false, ◌>>◌, inl, inr, refl, eq_iff, if◌then◌else◌,
  Bool-cases, arith, Error, Result, ok, err, pure, raise, branch,
}
use automotive_dev_operator.Kube.{done}
use automotive_dev_operator.OperatorConfig.Types.{OperatorConfig}
use automotive_dev_operator.OperatorConfig.Objects.{ConfigClient, State, call}
use automotive_dev_operator.OperatorConfig.Deploy.{deploy_web_ui, deploy_os_builds}
use automotive_dev_operator.OperatorConfig.Cleanup.{cleanup_web_ui, cleanup_os_builds}
use automotive_dev_operator.OperatorConfig.Controller.{
  Progress, finish, os_builds_enabled, web_ui_deployed, web_ui_disabled, os_builds_deployed,
  os_builds_removed, fail_with, reconcile_web_ui, reconcile_os_builds,
}

-- The status agrees with the specification.
pub record IsSettled (c : OperatorConfig) : Type 0 where
  pub ready : c.status.phase ≡ "Ready"
  pub web_ui : c.status.web_ui_deployed ≡ c.spec.web_ui
  pub os_builds : c.status.os_builds_deployed ≡ os_builds_enabled c

web_ui_done : Progress → Progress
web_ui_done p = if p.config.spec.web_ui then web_ui_deployed p else web_ui_disabled p

os_builds_done : Progress → Progress
os_builds_done p = if os_builds_enabled p.config then os_builds_deployed p else os_builds_removed p

web_ui_done_lem :
    (p : Progress)
    → let q = web_ui_done p in
      (q.config.status.phase ≡ "Ready")
      × (q.config.status.web_ui_deployed ≡ p.config.spec.web_ui)
      × (q.config.spec ≡ p.config.spec)
      × (q.config.meta ≡ p.config.meta)
unfolding web_ui_done web_ui_deployed web_ui_disabled
web_ui_done_lem p = ground (arith, eq_iff p.config.status.phase "Ready")

os_builds_done_lem :
    (q : Progress)
    → q.config.status.phase ≡ "Ready"
    → let r = os_builds_done q in
      (r.config.status.phase ≡ "Ready")
      × (r.config.status.os_builds_deployed ≡ os_builds_enabled q.config)
      × (r.config.status.web_ui_deployed ≡ q.config.status.web_ui_deployed)
      × (r.config.spec ≡ q.config.spec)
      × (r.config.meta ≡ q.config.meta)
unfolding os_builds_done os_builds_deployed os_builds_removed
os_builds_done_lem q h = ground arith

-- Where nothing has to be changed, nothing is.
done_steady : (p : Progress) → IsSettled p.config → (web_ui_done p ≡ p) × (os_builds_done p ≡ p)
unfolding web_ui_done web_ui_deployed web_ui_disabled os_builds_done os_builds_deployed
    os_builds_removed
done_steady p h = ground (arith, eq_iff p.config.status.phase "Ready")

done-IsSettled :
    (p : Progress)
    → let r = os_builds_done (web_ui_done p) in
      IsSettled r.config × (r.config.spec ≡ p.config.spec) × (r.config.meta ≡ p.config.meta)
done-IsSettled p = ground (arith, web_ui_done_lem p, os_builds_done_lem (web_ui_done p))

-- The handler's copy at the start.
abbrev pub fresh : OperatorConfig → Progress
fresh c = record { config = c; changed = false }

web_ui_changed : (p : Progress) → ((web_ui_done p).changed ≡ true) ⊎ (web_ui_done p ≡ p)
unfolding web_ui_done web_ui_deployed web_ui_disabled
web_ui_changed p = ground (arith)

os_builds_changed : (p : Progress) → ((os_builds_done p).changed ≡ true) ⊎ (os_builds_done p ≡ p)
unfolding os_builds_done os_builds_deployed os_builds_removed
os_builds_changed p = ground (arith)

-- A copy that differs from the resource as it was read is marked as changed.
done_changed :
    (c : OperatorConfig)
    → let r = os_builds_done (web_ui_done (fresh c)) in (r.changed ≡ true) ⊎ (r.config ≡ c)
done_changed c =
    let q = web_ui_done (fresh c) in
    elim (os_builds_changed q) [
      | inl on ↦ inl on
      | inr same ↦ elim (web_ui_changed (fresh c)) [
        | inl on ↦ inl (ap (λ p. p.changed) same ∙ on)
        | inr first ↦ inr (ap (λ p. p.config) (same ∙ first))
      ]
    ]

module _ (C : ConfigClient) where
  raising :
      {A B : Type 0} (x : Result A × State C.World) (e : Error)
      → (branch (branch x (λ e. pure tt) (λ a. pure tt)) (raise {A = B}) (λ _. raise {A = B} e)).0
        ≡ err e
  raising (ok a, t) e = refl
  raising (err y, t) e = refl

  -- `fail_with` returns its error, whether the status could be written or not.
  pub fail_with-err :
      {A : Type 0} (e : Error) (p : Progress) (s : State C.World)
      → (fail_with C {A = A} e p s).0 ≡ err e
  fail_with-err e p s = elim (Bool-cases p.changed) [ inl c ↦ rw c (raising _ e) | inr c ↦ rw c ]

  -- An action that returns did not fail, and returned what it makes of its first part.
  returns :
      {A B : Type 0} (x : Result A × State C.World) (h : Error → Progress) (q b : B)
      → (branch x (λ e. fail_with C e (h e)) (λ a. pure q)).0 ≡ ok b
      → q ≡ b
  returns {B} (ok a, t) h q b e = cc
  returns {B} (err y, t) h q b e = cc (fail_with-err {A = B} y (h y) t, e)

  web_ui_outcome :
      (p q : Progress) (s : State C.World) → (reconcile_web_ui C p s).0 ≡ ok q → web_ui_done p ≡ q
  unfolding reconcile_web_ui web_ui_done
  web_ui_outcome p q s e = elim (Bool-cases p.config.spec.web_ui) [
    | inl on ↦ rw on (returns (deploy_web_ui C s) _ _ q (rw on at e))
    | inr off ↦ rw off (returns (cleanup_web_ui C s) _ _ q (rw off at e))
  ]

  os_builds_outcome :
      (p q : Progress) (s : State C.World)
      → (reconcile_os_builds C p s).0 ≡ ok q
      → os_builds_done p ≡ q
  unfolding reconcile_os_builds os_builds_done
  os_builds_outcome p q s e = elim (Bool-cases (os_builds_enabled p.config)) [
    | inl on ↦ rw on (returns (deploy_os_builds C p.config s) _ _ q (rw on at e))
    | inr off ↦ rw off (returns (cleanup_os_builds C s) _ _ q (rw off at e))
  ]

  -- The end of a reconciliation writes the status, or the resource is as it was read and nothing
  -- happens.
  abbrev pub IsWritten : OperatorConfig → Progress → State C.World → Type 0
  IsWritten c r u =
      (finish C r u ≡ (call (C.update_config_status r.config) >> pure done) u)
      ⊎ ((r.config ≡ c) × (finish C r u ≡ (ok done, u)))

  finish-IsWritten :
      (c : OperatorConfig) (r : Progress) (u : State C.World)
      → (r.changed ≡ true) ⊎ (r.config ≡ c)
      → IsWritten c r u
  unfolding finish
  finish-IsWritten c r u h = elim (Bool-cases r.changed) [
    | inl on ↦ inl (rw on refl)
    | inr off ↦ elim h [ inl on ↦ ground (arith) | inr same ↦ inr (same, rw off refl) ]
  ]

  -- Where both parts of a reconciliation return, whatever the server answered in between, the copy
  -- of the resource says Ready, its two flags are those of the specification, and the specification
  -- and the metadata are as they were read; and the end of the reconciliation writes the status of
  -- this copy, or there is nothing to write, since the copy is the resource as it was read.
  pub parts-IsSettled :
      (c : OperatorConfig) (q r : Progress) (s t u : State C.World)
      → (reconcile_web_ui C (fresh c) s).0 ≡ ok q
      → (reconcile_os_builds C q t).0 ≡ ok r
      → IsSettled r.config × (r.config.spec ≡ c.spec) × (r.config.meta ≡ c.meta) × IsWritten c r u
  parts-IsSettled c q r s t u e f =
      let same : os_builds_done (web_ui_done (fresh c)) ≡ r =
        ap os_builds_done (web_ui_outcome (fresh c) q s e) ∙ os_builds_outcome q r t f in
      let (settled, spec, meta) = done-IsSettled (fresh c) in
      subst
        (λ x.
          IsSettled x.config
          × (x.config.spec ≡ c.spec)
          × (x.config.meta ≡ c.meta)
          × IsWritten c x u)
        same
        (
          settled,
          spec,
          meta,
          finish-IsWritten c (os_builds_done (web_ui_done (fresh c))) u (done_changed c),
        )

  -- Where both parts return on a resource whose status is settled already, the copy of the resource
  -- is not changed, and the end of the reconciliation returns without any call, so no status is
  -- written.
  pub parts_steady :
      (c : OperatorConfig) (q r : Progress) (s t u : State C.World)
      → IsSettled c
      → (reconcile_web_ui C (fresh c) s).0 ≡ ok q
      → (reconcile_os_builds C q t).0 ≡ ok r
      → (r.config ≡ c) × (finish C r u ≡ (ok done, u))
  unfolding finish
  parts_steady c q r s t u h e f =
      let same : q ≡ fresh c = sym (web_ui_outcome (fresh c) q s e) ∙ (done_steady (fresh c) h).0 in
      let end : r ≡ fresh c =
        sym (os_builds_outcome q r t f) ∙ rw same (done_steady (fresh c) h).1 in
      (ap (λ p. p.config) end, ap (λ p. finish C p u) end)
