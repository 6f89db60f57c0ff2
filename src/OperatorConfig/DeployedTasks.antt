-- ===== src/OperatorConfig/DeployedTasks.antt =====
-- What is there once `deployOSBuilds` has returned.
use automotive_dev_operator.Base.{
  String, ◌≡◌, List, [], ◌∷◌, is_not_found, Result, ok, err, wrapping, ◌>>◌, Triple, Ends,
  Triple-if, Triple-on_error, Triple-seq,
}
use automotive_dev_operator.OperatorConfig.Types.{OperatorConfig, build_config_of}
use automotive_dev_operator.OperatorConfig.Objects.{
  Ref, Manifest, build_automotive_image_task, push_artifact_registry_task, tekton_pipeline, ref_of,
  ConfigClient, State, call,
}
use automotive_dev_operator.OperatorConfig.Deploy.{
  Action, referenced, create_or_update_tekton, deploy_tasks, deploy_os_builds,
}
use automotive_dev_operator.OperatorConfig.Presence.{
  IsAdditive, AllPresent, os_builds_required, created, updated, found, wrapped, Found,
}
use automotive_dev_operator.OperatorConfig.Steps.{Nothing}
use automotive_dev_operator.OperatorConfig.Deployed.{when_ok}

module _ (C : ConfigClient) (Present : C.World → Ref → Type 0) (L : IsAdditive C Present) where
  abbrev Held : List Ref → State C.World → Type 0
  Held rs s = AllPresent Present rs s.world

  tekton-Held :
      (kind : String) (m : Manifest) (rs : List Ref)
      → Triple
          (Held rs)
          (create_or_update_tekton C kind m)
          (Ends (Nothing C Present L) (Held (ref_of m ∷ rs)))
  unfolding create_or_update_tekton
  tekton-Held kind m rs =
      Triple-on_error (Held rs) (call (C.get_object (ref_of m))) _ _
        (Found C Present L rs (ref_of m)) _ (found C Present L rs (ref_of m))
        (λ e.
          Triple-if _ (is_not_found e) _ _ _ (λ _. created C Present L rs m)
            (λ _. record { at = λ s p. tt }))
        (λ v. record { at = λ s p. (updated C Present L rs m v).at s p.1 })

  reference_of :
      (rs : List Ref) (r : Result (Unit {0})) (s : State C.World)
      → Held rs s
      → Ends (Nothing C Present L) (Held rs) r s
  reference_of rs (ok u) s p = p
  reference_of rs (err e) s p = tt

  -- The owner is set and the object created or updated, in front of the rest.
  owned :
      (config : OperatorConfig) (first second kind : String) (m : Manifest) (rs qs : List Ref)
      (k : Action C (Unit {0}))
      → Triple (Held (ref_of m ∷ rs)) k (Ends (Nothing C Present L) (Held qs))
      → Triple
          (Held rs)
          (wrapping first (referenced C config m)
            >> (wrapping second (create_or_update_tekton C kind m) >> k))
          (Ends (Nothing C Present L) (Held qs))
  owned config first second kind m rs qs k rest =
      Triple-seq (Nothing C Present L) (Held rs) (Held rs) (Held qs)
        (wrapping first (referenced C config m)) _
        (wrapped C Present L rs first (referenced C config m) (Held rs)
          (record { at = λ s p. reference_of rs (C.set_controller_reference config m) s p }))
        (Triple-seq (Nothing C Present L) (Held rs) (Held (ref_of m ∷ rs)) (Held qs)
          (wrapping second (create_or_update_tekton C kind m)) k
          (wrapped C Present L rs second (create_or_update_tekton C kind m) (Held (ref_of m ∷ rs))
            (tekton-Held kind m rs))
          rest)

  -- The list after the loop over the tasks.
  abbrev with_tasks : List Manifest → List Ref → List Ref
  with_tasks [] rs = rs
  with_tasks (m ∷ ms) rs = with_tasks ms (ref_of m ∷ rs)

  deploy_tasks-Held :
      (config : OperatorConfig) (ms : List Manifest) (rs : List Ref)
      → Triple
          (Held rs)
          (deploy_tasks C config ms)
          (Ends (Nothing C Present L) (Held (with_tasks ms rs)))
  unfolding deploy_tasks
  deploy_tasks-Held config [] rs = record { at = λ s p. p }
  deploy_tasks-Held config (m ∷ ms) rs =
      owned config _ _ "Task" m rs (with_tasks ms (ref_of m ∷ rs)) (deploy_tasks C config ms)
        (deploy_tasks-Held config ms (ref_of m ∷ rs))

  deploy_os_builds-Held :
      (config : OperatorConfig)
      → Triple
          (Held [])
          (deploy_os_builds C config)
          (Ends (Nothing C Present L) (Held os_builds_required))
  unfolding deploy_os_builds ref_of
  deploy_os_builds-Held config =
      let by = config.meta.name in
      let ms =
        build_automotive_image_task (build_config_of config.spec.os_builds) "" by
        ∷ push_artifact_registry_task by
        ∷ [] in
      let rs = with_tasks ms [] in
      let pipeline = tekton_pipeline by in
      Triple-seq (Nothing C Present L) (Held []) (Held rs) (Held os_builds_required)
        (deploy_tasks C config ms) _ (deploy_tasks-Held config ms [])
        (Triple-seq (Nothing C Present L) (Held rs) (Held rs) (Held os_builds_required)
          (wrapping "failed to set controller reference on pipeline" (referenced C config pipeline))
          _
          (wrapped C Present L rs _ (referenced C config pipeline) (Held rs) (record {
            at = λ s p. reference_of rs (C.set_controller_reference config pipeline) s p;
          }))
          (wrapped C Present L rs _ (create_or_update_tekton C "Pipeline" pipeline)
            (Held os_builds_required) (tekton-Held "Pipeline" pipeline rs)))

  -- Where `deployOSBuilds` returns without an error, the two Tekton tasks and the pipeline are
  -- there, whatever the configuration says.
  pub deploy_os_builds_present :
      (config : OperatorConfig) (s : State C.World)
      → (deploy_os_builds C config s).0 ≡ ok tt
      → AllPresent Present os_builds_required (deploy_os_builds C config s).1.world
  deploy_os_builds_present config s e =
      when_ok C Present L (Held os_builds_required) (deploy_os_builds C config s).0
        (deploy_os_builds C config s).1 ((deploy_os_builds-Held config).at s tt) e
