-- ===== src/OperatorConfig/Ownership.antt =====
-- The objects that a deletion removes, and what the API server is assumed to do with deletions.
use automotive_dev_operator.Base.{
  ◌≡◌, true, Option, some, List, [], ◌∷◌, Error, is_not_found, ok, err,
}
use automotive_dev_operator.Kube.{Key}
use automotive_dev_operator.OperatorConfig.Types.{OperatorConfig}
use automotive_dev_operator.OperatorConfig.Objects.{Kind, Ref, managed, ConfigClient}

-- What the API server is assumed to do. `stored` is the resource that it holds, `Gone` says of an
-- object that it is not there or is being deleted. A read changes nothing. A deletion that returns,
-- or finds nothing, leaves its object gone; no deletion and no update of the resource brings an
-- object back. An update may have been made or not, whatever it reports, and a resource whose last
-- finalizer goes while it is being deleted disappears.
pub record IsLawful (C : ConfigClient) (stored : C.World → Key → Option OperatorConfig)
    (Gone : C.World → Ref → Type 0) : Type 0 where
  pub stored-get : (w : C.World) (k j : Key) → stored (C.get_config k w).1 j ≡ stored w j
  pub get-stored :
      (w : C.World) (k : Key) (c : OperatorConfig)
      → (C.get_config k w).0 ≡ ok c
      → stored w k ≡ some c
  pub stored-delete :
      (w : C.World) (r : Ref) (j : Key) → stored (C.delete_object r w).1 j ≡ stored w j
  pub gone-delete : (w : C.World) (r q : Ref) → Gone w q → Gone (C.delete_object r w).1 q
  pub delete_ok :
      (w : C.World) (r : Ref) → (C.delete_object r w).0 ≡ ok tt → Gone (C.delete_object r w).1 r
  pub delete_missing :
      (w : C.World) (r : Ref) (e : Error)
      → (C.delete_object r w).0 ≡ err e
      → is_not_found e ≡ true
      → Gone (C.delete_object r w).1 r
  pub gone-update :
      (w : C.World) (c : OperatorConfig) (q : Ref) → Gone w q → Gone (C.update_config c w).1 q

abbrev pub web_ui_refs : List Ref
web_ui_refs =
    managed Kind.secret "ado-build-api-oauth-proxy"
    ∷ managed Kind.secret "ado-webui-oauth-proxy"
    ∷ managed Kind.ingress "ado-build-api"
    ∷ managed Kind.service "ado-build-api"
    ∷ managed Kind.deployment "ado-build-api"
    ∷ managed Kind.config_map "ado-webui-nginx-config"
    ∷ managed Kind.ingress "ado-webui"
    ∷ managed Kind.service "ado-webui"
    ∷ managed Kind.deployment "ado-webui"
    ∷ []

-- The objects that `cleanupWebUI` and `cleanupOSBuilds` delete without tolerating a failure, the
-- last one first. The two routes are not among them.
abbrev pub owned_refs : List Ref
owned_refs =
    managed Kind.pipeline "automotive-build-pipeline"
    ∷ managed Kind.task "push-artifact-registry"
    ∷ managed Kind.task "build-automotive-image"
    ∷ web_ui_refs

abbrev pub AllGone : {W : Type 0} → (W → Ref → Type 0) → List Ref → W → Type 0
AllGone Gone [] w = Unit {0}
AllGone Gone (r ∷ rs) w = Gone w r × AllGone Gone rs w

module _ (C : ConfigClient) (stored : C.World → Key → Option OperatorConfig)
    (Gone : C.World → Ref → Type 0) (L : IsLawful C stored Gone) where
  pub AllGone-delete :
      (rs : List Ref) (w : C.World) (r : Ref)
      → AllGone Gone rs w
      → AllGone Gone rs (C.delete_object r w).1
  AllGone-delete [] w r g = tt
  AllGone-delete (q ∷ rs) w r g = (L.gone-delete w r q g.0, AllGone-delete rs w r g.1)

  pub AllGone-update :
      (rs : List Ref) (w : C.World) (c : OperatorConfig)
      → AllGone Gone rs w
      → AllGone Gone rs (C.update_config c w).1
  AllGone-update [] w c g = tt
  AllGone-update (q ∷ rs) w c g = (L.gone-update w c q g.0, AllGone-update rs w c g.1)
