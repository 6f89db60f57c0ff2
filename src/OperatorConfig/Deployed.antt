-- ===== src/OperatorConfig/Deployed.antt =====
-- What is there once `deployWebUI` has returned.
use automotive_dev_operator.Base.{
  String, ◌<>◌, ◌≡◌, false, List, [], ◌∷◌, if◌then◌else◌, is_not_found, Result, ok, err, pure,
  raise, on_error, ◌>>◌, wrapping, Triple, Ends, Triple-if, Triple-on_error, Triple-seq, Preserves,
  Preserves-pure, Preserves-if, Preserves-on_error, Preserves-wrapping,
}
use automotive_dev_operator.OperatorConfig.Objects.{
  Kind, Ref, managed, oauth_secret, web_ui_nginx_config_map, web_ui_route, web_ui_ingress,
  build_api_route, build_api_ingress, web_ui_deployment, web_ui_service, build_api_deployment,
  build_api_service, ref_of, ConfigClient, State, call,
}
use automotive_dev_operator.OperatorConfig.Deploy.{
  Action, oauth_secret_names, oauth_annotations, merge_annotations, ensure_secrets,
  ensure_oauth_secrets, update_service_account_annotations, deploy_web_ui,
}
use automotive_dev_operator.OperatorConfig.Presence.{
  IsAdditive, AllPresent, web_ui_required, all_kept, created, found, wrapped, Found,
}
use automotive_dev_operator.OperatorConfig.Steps.{
  Here, Nothing, kept_step, must, may, last, detecting,
}

module _ (C : ConfigClient) (Present : C.World → Ref → Type 0) (L : IsAdditive C Present) where
  -- The list after the loop over the secrets.
  abbrev with_secrets : List String → List Ref → List Ref
  with_secrets [] rs = rs
  with_secrets (name ∷ names) rs = with_secrets names (managed Kind.secret name ∷ rs)

  ensure_secret :
      (rs : List Ref) (name : String)
      → Triple
          (Here C Present L rs)
          (on_error
            (call (C.get_object (managed Kind.secret name)))
            (λ e.
              if is_not_found e
              then wrapping
                  ("failed to create secret " <> name)
                  (call (C.create_object (oauth_secret name)))
              else wrapping ("failed to get secret " <> name) (raise e))
            (λ _. pure tt))
          (Ends (Nothing C Present L) (Here C Present L (managed Kind.secret name ∷ rs)))
  unfolding ref_of
  ensure_secret rs name =
      Triple-on_error (Here C Present L rs) (call (C.get_object (managed Kind.secret name))) _ _
        (Found C Present L rs (managed Kind.secret name)) _
        (found C Present L rs (managed Kind.secret name))
        (λ e.
          Triple-if _ (is_not_found e) _ _ _
            (λ _.
              wrapped C Present L rs _ (call (C.create_object (oauth_secret name))) _
                (created C Present L rs (oauth_secret name)))
            (λ _. record { at = λ s p. tt }))
        (λ v. record { at = λ s p. p })

  ensure_secrets-Here :
      (rs : List Ref) (names : List String)
      → Triple
          (Here C Present L rs)
          (ensure_secrets C names)
          (Ends (Nothing C Present L) (Here C Present L (with_secrets names rs)))
  unfolding ensure_secrets
  ensure_secrets-Here rs [] = record { at = λ s p. p }
  ensure_secrets-Here rs (name ∷ names) =
      Triple-seq (Nothing C Present L) (Here C Present L rs)
        (Here C Present L (managed Kind.secret name ∷ rs)) _ _ (ensure_secrets C names)
        (ensure_secret rs name) (ensure_secrets-Here (managed Kind.secret name ∷ rs) names)

  account_keeps :
      (rs : List Ref) → Preserves (Here C Present L rs) (update_service_account_annotations C)
  unfolding update_service_account_annotations
  account_keeps rs =
      Preserves-on_error (call (C.get_service_account "ado-controller-manager")) _ _
        (record {
          at = λ s p.
              all_kept C Present L rs s.world _ (λ q. L.present-get_service_account s.world _ q) p;
        })
        (λ e.
          Preserves-if (is_not_found e) _ _ (λ _. Preserves-pure tt)
            (λ _. record { at = λ s p. p }))
        λ have.
          Preserves-if (merge_annotations oauth_annotations (have, false)).1 _ _
            (λ _.
              Preserves-wrapping "failed to update ServiceAccount annotations"
                (call (
                  C.update_service_account "ado-controller-manager"
                    (merge_annotations oauth_annotations (have, false)).0))
                (record {
                  at = λ s p.
                      all_kept C Present L rs s.world _
                        (λ q. L.present-update_service_account s.world _ _ q) p;
                }))
            (λ _. Preserves-pure tt)

  accounting :
      (text : String) (rs qs : List Ref) (k : Action C (Unit {0}))
      → Triple (Here C Present L rs) k (Ends (Nothing C Present L) (Here C Present L qs))
      → Triple
          (Here C Present L rs)
          (wrapping text (update_service_account_annotations C) >> k)
          (Ends (Nothing C Present L) (Here C Present L qs))
  accounting text rs qs k rest =
      Triple-on_error (Here C Present L rs) (wrapping text (update_service_account_annotations C))
        raise (λ _. k) (λ r. Here C Present L rs) (Ends (Nothing C Present L) (Here C Present L qs))
        (kept_step C Present L rs _
          (Preserves-wrapping text (update_service_account_annotations C) (account_keeps rs)))
        (λ e. record { at = λ s p. tt }) (λ _. rest)

  deploy_web_ui-Here :
      Triple
        (Here C Present L [])
        (deploy_web_ui C)
        (Ends (Nothing C Present L) (Here C Present L web_ui_required))
  unfolding deploy_web_ui ensure_oauth_secrets ref_of
  deploy_web_ui-Here =
      let qs = web_ui_required in
      let r0 = with_secrets oauth_secret_names [] in
      let r1 = ref_of web_ui_nginx_config_map ∷ r0 in
      Triple-seq (Nothing C Present L) (Here C Present L []) (Here C Present L r0)
        (Here C Present L qs) (wrapping "failed to ensure OAuth secrets" (ensure_oauth_secrets C)) _
        (wrapped C Present L [] _ (ensure_oauth_secrets C) (Here C Present L r0)
          (ensure_secrets-Here [] oauth_secret_names))
        (accounting _ r0 qs _ (
          must C Present L _ web_ui_nginx_config_map r0 qs _ (
            detecting C Present L r1 qs _ λ os.
              let r2 = ref_of (web_ui_deployment os) ∷ r1 in
              let r3 = ref_of (web_ui_service os) ∷ r2 in
              let r4 = ref_of (build_api_deployment os) ∷ r3 in
              let r5 = ref_of (build_api_service os) ∷ r4 in
              must C Present L _ (web_ui_deployment os) r1 qs _ (
                must C Present L _ (web_ui_service os) r2 qs _ (
                  may C Present L web_ui_route r3 qs _ (
                    may C Present L web_ui_ingress r3 qs _ (
                      must C Present L _ (build_api_deployment os) r3 qs _ (
                        must C Present L _ (build_api_service os) r4 qs _ (
                          may C Present L build_api_route r5 qs _
                            (last C Present L build_api_ingress r5))))))))))

  pub when_ok :
      (M : State C.World → Type 0) (r : Result (Unit {0})) (s : State C.World)
      → Ends (Nothing C Present L) M r s
      → r ≡ ok tt
      → M s
  when_ok M (ok u) s h e = h
  when_ok M (err x) s h e = cc

  -- Where `deployWebUI` returns without an error, the two secrets, the configuration, the two
  -- deployments and the two services are there, whatever the calls for the routes, the ingresses
  -- and the service account answered in between, and whichever platform was detected.
  pub deploy_web_ui_present :
      (s : State C.World)
      → (deploy_web_ui C s).0 ≡ ok tt
      → AllPresent Present web_ui_required (deploy_web_ui C s).1.world
  deploy_web_ui_present s e =
      when_ok (Here C Present L web_ui_required) (deploy_web_ui C s).0 (deploy_web_ui C s).1
        (deploy_web_ui-Here.at s tt) e
