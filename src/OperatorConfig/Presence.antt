-- ===== src/OperatorConfig/Presence.antt =====
-- The objects that the calls of a deployment leave in the cluster.
use automotive_dev_operator.Base.{
  String, ◌≡◌, refl, List, [], ◌∷◌, StringMap, Error, is_not_found, wrap, Result, ok, err, pure,
  raise, wrapping, Triple, Ends, Triple-if, Triple-on_error,
}
use automotive_dev_operator.OperatorConfig.Objects.{
  Kind, Ref, managed, Manifest, ref_of, ConfigClient, State, returned, call,
}
use automotive_dev_operator.OperatorConfig.Deploy.{Action, create_or_update}

-- What the API server is assumed to do, where `Present` says of an object that it is there: an
-- object that a read, a creation or an update returns for is there, and none of these calls removes
-- another one.
pub record IsAdditive (C : ConfigClient) (Present : C.World → Ref → Type 0) : Type 0 where
  pub get_ok :
      (w : C.World) (r : Ref) (v : String)
      → (C.get_object r w).0 ≡ ok v
      → Present (C.get_object r w).1 r
  pub create_ok :
      (w : C.World) (m : Manifest)
      → (C.create_object m w).0 ≡ ok tt
      → Present (C.create_object m w).1 (ref_of m)
  pub update_ok :
      (w : C.World) (m : Manifest) (v : String)
      → (C.update_object m v w).0 ≡ ok tt
      → Present (C.update_object m v w).1 (ref_of m)
  pub present-get : (w : C.World) (r q : Ref) → Present w q → Present (C.get_object r w).1 q
  pub present-create :
      (w : C.World) (m : Manifest) (q : Ref) → Present w q → Present (C.create_object m w).1 q
  pub present-update :
      (w : C.World) (m : Manifest) (v : String) (q : Ref)
      → Present w q
      → Present (C.update_object m v w).1 q
  pub present-get_service_account :
      (w : C.World) (n : String) (q : Ref) → Present w q → Present (C.get_service_account n w).1 q
  pub present-update_service_account :
      (w : C.World) (n : String) (a : StringMap) (q : Ref)
      → Present w q
      → Present (C.update_service_account n a w).1 q

abbrev pub AllPresent : {W : Type 0} → (W → Ref → Type 0) → List Ref → W → Type 0
AllPresent Present [] w = Unit {0}
AllPresent Present (r ∷ rs) w = Present w r × AllPresent Present rs w

-- The objects whose failure ends the deployment of the web interface, the last one first. Routes
-- and ingresses are not among them.
abbrev pub web_ui_required : List Ref
web_ui_required =
    managed Kind.service "ado-build-api"
    ∷ managed Kind.deployment "ado-build-api"
    ∷ managed Kind.service "ado-webui"
    ∷ managed Kind.deployment "ado-webui"
    ∷ managed Kind.config_map "ado-webui-nginx-config"
    ∷ managed Kind.secret "ado-build-api-oauth-proxy"
    ∷ managed Kind.secret "ado-webui-oauth-proxy"
    ∷ []

abbrev pub os_builds_required : List Ref
os_builds_required =
    managed Kind.pipeline "automotive-build-pipeline"
    ∷ managed Kind.task "push-artifact-registry"
    ∷ managed Kind.task "build-automotive-image"
    ∷ []

module _ (C : ConfigClient) (Present : C.World → Ref → Type 0) (L : IsAdditive C Present) where
  -- A call that keeps the presence of single objects keeps that of a list of them.
  pub all_kept :
      (rs : List Ref) (w v : C.World)
      → ((q : Ref) → Present w q → Present v q)
      → AllPresent Present rs w
      → AllPresent Present rs v
  all_kept [] w v k p = tt
  all_kept (r ∷ rs) w v k p = (k r p.0, all_kept rs w v k p.1)

  module _ (rs : List Ref) where
    abbrev pub There : List Ref → State C.World → Type 0
    There qs s = AllPresent Present qs s.world

    -- Nothing is known where the action failed.
    abbrev pub Any : State C.World → Type 0
    Any s = Unit {0}

    outcome :
        (r : Ref) (s : State C.World) (x : Result (Unit {0}) × C.World)
        → AllPresent Present rs x.1
        → (x.0 ≡ ok tt → Present x.1 r)
        → Ends Any (There (r ∷ rs)) (returned s x).0 (returned s x).1
    outcome r s (ok u, w) p h = (h refl, p)
    outcome r s (err e, w) p h = tt

    pub created :
        (m : Manifest)
        → Triple (There rs) (call (C.create_object m)) (Ends Any (There (ref_of m ∷ rs)))
    created m = record {
      at = λ s p.
          outcome (ref_of m) s (C.create_object m s.world)
            (all_kept rs s.world _ (λ q. L.present-create s.world m q) p) (L.create_ok s.world m);
    }

    pub updated :
        (m : Manifest) (v : String)
        → Triple (There rs) (call (C.update_object m v)) (Ends Any (There (ref_of m ∷ rs)))
    updated m v = record {
      at = λ s p.
          outcome (ref_of m) s (C.update_object m v s.world)
            (all_kept rs s.world _ (λ q. L.present-update s.world m v q) p)
            (L.update_ok s.world m v);
    }

    pub failed :
        {A : Type 0} (e : Error) (M : State C.World → Type 0)
        → Triple (There rs) (raise {A = A} e) (Ends Any M)
    failed e M = record { at = λ s p. tt }

    -- The read in front of a creation or an update; `r` is there if it returned.
    abbrev pub Found : Ref → Result String → State C.World → Type 0
    Found r (ok v) s = There (r ∷ rs) s
    Found r (err e) s = There rs s

    read_outcome :
        (r : Ref) (s : State C.World) (x : Result String × C.World)
        → AllPresent Present rs x.1
        → ((v : String) → x.0 ≡ ok v → Present x.1 r)
        → Found r (returned s x).0 (returned s x).1
    read_outcome r s (ok v, w) p h = (h v refl, p)
    read_outcome r s (err e, w) p h = p

    pub found : (r : Ref) → Triple (There rs) (call (C.get_object r)) (Found r)
    found r = record {
      at = λ s p.
          read_outcome r s (C.get_object r s.world)
            (all_kept rs s.world _ (λ q. L.present-get s.world r q) p) (L.get_ok s.world r);
    }

    pub wrapped :
        {A : Type 0} (text : String) (m : Action C A) (M : State C.World → Type 0)
        → Triple (There rs) m (Ends Any M)
        → Triple (There rs) (wrapping text m) (Ends Any M)
    wrapped text m M t =
        Triple-on_error (There rs) m (λ e. raise (wrap text e)) pure (Ends Any M) (Ends Any M) t
          (λ e. record { at = λ s p. tt }) (λ a. record { at = λ s p. p })

    pub create_or_update-There :
        (m : Manifest) → Triple (There rs) (create_or_update C m) (Ends Any (There (ref_of m ∷ rs)))
    unfolding create_or_update
    create_or_update-There m =
        Triple-on_error (There rs) (call (C.get_object (ref_of m))) _ _ (Found (ref_of m)) _
          (found (ref_of m))
          (λ e. Triple-if _ (is_not_found e) _ _ _ (λ _. created m) (λ _. failed e _))
          (λ v. record { at = λ s p. (updated m v).at s p.1 })
