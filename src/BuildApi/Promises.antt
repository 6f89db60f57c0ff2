-- ===== src/BuildApi/Promises.antt =====
-- What `createBuild` of internal/buildapi/server.go has stored where it answers 202.
use automotive_dev_operator.Base.{
  Preserves, Preserves-seq, Preserves-if, Preserves-pure, Preserves-ignoring, ℤ, String, ◌==◌, ◌≡◌,
  refl, ◌∙◌, Bool, true, false, Option, some, if◌then◌else◌, Result, ok, err, Exec, pure, raise,
  ignoring, Triple, Triple-on_error,
}
use automotive_dev_operator.ImageBuild.Types.{ImageBuild}
use automotive_dev_operator.Text.Chars.{◌is◌}
use automotive_dev_operator.BuildApi.Types.{BuildRequest, Response}
use automotive_dev_operator.BuildApi.Client.{Secret, ApiClient}
use automotive_dev_operator.BuildApi.Server.{Views, IsApi}
use automotive_dev_operator.BuildApi.Objects.{
  manifest_name, manifest_data, manifest_config_map, asks_for_secret, image_build,
}
use automotive_dev_operator.BuildApi.Create.{
  serve_expiry_hours, set_owner_ref, finish_creation, create_image_build, create_objects,
}
use automotive_dev_operator.BuildApi.Stored.{
  build_key, manifest_key, secret_key, NamesSecret, HasManifest, HasInputs, IsStored, keeps_data,
  owner_ref_data, owner_ref_build, owner_ref_secret, IsExpiry,
}
use automotive_dev_operator.BuildApi.Described.{sent-IsBuildOf}
use automotive_dev_operator.BuildApi.Inputs.{
  AfterMap, AfterSecret, AfterHours, map_created, secret_step, hours_step,
}

-- A condition that counts where a test holds.
abbrev pub When : Bool → Type 0 → Type 0
When true P = P
When false P = Unit {0}

pub When-all : (b : Bool) (P : Type 0) → P → When b P
When-all true P p = p
When-all false P p = tt

pub When-map : (b : Bool) (P R : Type 0) → (P → R) → When b P → When b R
When-map true P R f p = f p
When-map false P R f p = tt

module _ (C : ApiClient) (V : Views C.World) (L : IsApi C V) where
  open C use {World}

  module _ (ns by : String) (q : BuildRequest) where
    -- The status 202 promises that all is stored.
    abbrev pub Promises : Result Response → World → Type 0
    Promises (err e) w = Unit {0}
    Promises (ok r) w = When (r.status is 202) (IsStored V ns q by (IsExpiry C V L ns) w)

    names_kept :
        {A : Type 0} (secret : String) (asks : Bool) (m : Exec World A)
        → ((held : Option Secret) → Preserves (λ w. V.secret w (secret_key ns q) ≡ held) m)
        → Preserves (NamesSecret V ns q secret asks) m
    names_kept secret true m keeps = record {
      at = λ w (e, (s, held, owner, fits)). (e, (s, (keeps (some s)).at w held, owner, fits));
    }
    names_kept secret false m keeps = record { at = λ w e. e }

    inputs_kept :
        {A : Type 0} (secret : String) (m : Exec World A)
        → Preserves ((HasManifest V ns q)) m
        → ((held : Option Secret) → Preserves (λ w. V.secret w (secret_key ns q) ≡ held) m)
        → Preserves (HasInputs V ns q secret) m
    inputs_kept secret m entries names = record {
      at = λ w (d, s). (entries.at w d, (names_kept secret (asks_for_secret q) m names).at w s);
    }

    owner_ref-IsStored :
        (name : String) (b : ImageBuild)
        → Preserves (IsStored V ns q by (IsExpiry C V L ns)) (set_owner_ref C ns name b)
    owner_ref-IsStored name b = record {
      at = λ w (hours, secret, (expiry, ((held, is_held, spec), inputs))). (
        hours,
        secret,
        (
          expiry,
          (
            (
              held,
              (owner_ref_build C V L (build_key ns q) (some held) ns name b).at w is_held,
              spec,
            ),
            (inputs_kept secret (set_owner_ref C ns name b)
                  (owner_ref_data C V L (manifest_key ns q) (manifest_data q) ns name b)
                  (λ s. owner_ref_secret C V L (secret_key ns q) s ns name b)).at
                w inputs,
          ),
        ),
      );
    }

    -- What still keeps the promise: a response that does not report success promises nothing.
    promise_kept :
        (r : Result Response) (w : World) → IsStored V ns q by (IsExpiry C V L ns) w → Promises r w
    promise_kept (err e) w s = tt
    promise_kept (ok r) w s =
        When-all (r.status is 202) (IsStored V ns q by (IsExpiry C V L ns) w) s

    finish_creation-IsStored :
        (secret : String) (b : ImageBuild)
        → Preserves (IsStored V ns q by (IsExpiry C V L ns)) (finish_creation C ns by secret q b)
    unfolding finish_creation
    finish_creation-IsStored secret b =
        Preserves-seq (ignoring (set_owner_ref C ns (manifest_name q) b)) _
          (Preserves-ignoring _ (owner_ref-IsStored (manifest_name q) b))
          (Preserves-seq (if secret == "" then pure tt else ignoring (set_owner_ref C ns secret b))
            _
            (Preserves-if (secret == "") _ _ (λ _. Preserves-pure tt)
              (λ _. Preserves-ignoring _ (owner_ref-IsStored secret b)))
            (Preserves-pure _))

    finish_creation-Promises :
        (secret : String) (b : ImageBuild)
        → Triple
            (IsStored V ns q by (IsExpiry C V L ns))
            (finish_creation C ns by secret q b)
            Promises
    finish_creation-Promises secret b = record {
      at = λ w s.
          promise_kept (finish_creation C ns by secret q b w).0 _
            ((finish_creation-IsStored secret b).at w s);
    }

    -- After the call that creates the build.
    abbrev AfterBuild : Result ImageBuild → World → Type 0
    AfterBuild (ok b) w = IsStored V ns q by (IsExpiry C V L ns) w
    AfterBuild (err e) w = Unit {0}

    build_created :
        (hours : ℤ) (secret : String) (w : World) (r : Result ImageBuild)
        → (C.create_build (image_build ns by hours secret q) w).0 ≡ r
        → IsExpiry C V L ns hours
        → HasInputs V ns q secret w
        → AfterBuild r (C.create_build (image_build ns by hours secret q) w).1
    unfolding image_build
    build_created hours secret w (err e) h expiry inputs = tt
    build_created hours secret w (ok b) h expiry inputs =
        let sent = image_build ns by hours secret q in
        let (held, spec, status, annotations, labels, key) = L.build_created w sent b h in
        (
          hours,
          secret,
          (
            expiry,
            (
              (b, held, sent-IsBuildOf ns by secret hours q b spec status annotations labels),
              (inputs_kept secret (C.create_build sent)
                    (keeps_data C V L (manifest_key ns q) (manifest_data q) (C.create_build sent)
                      (L.build-KeepsMaps sent))
                    (λ s. record {
                      at = λ w e. (L.build-KeepsSecrets sent).at w (secret_key ns q) ∙ e;
                    })).at
                  w inputs,
            ),
          ),
        )

    create_image_build-Promises :
        (hours : ℤ) (secret : String)
        → IsExpiry C V L ns hours
        → Triple (HasInputs V ns q secret) (create_image_build C ns by hours secret q) Promises
    unfolding create_image_build
    create_image_build-Promises hours secret expiry =
        Triple-on_error (HasInputs V ns q secret)
          (C.create_build (image_build ns by hours secret q)) _ (finish_creation C ns by secret q)
          AfterBuild Promises
          (record { at = λ w inputs. build_created hours secret w _ refl expiry inputs })
          (λ e. record { at = λ w _. tt }) (λ b. finish_creation-Promises secret b)

    pub create_objects-Promises : Triple (λ w. Unit {0}) (create_objects C ns by q) Promises
    unfolding create_objects
    create_objects-Promises =
        Triple-on_error (λ w. Unit {0}) (C.create_config_map (manifest_config_map ns q)) _ _
          (AfterMap C V L ns q) Promises (record { at = λ w u. map_created C V L ns q w _ refl })
          (λ e. record { at = λ w u. tt })
          λ u.
            Triple-on_error ((HasManifest V ns q)) (serve_expiry_hours C ns) raise _
              (AfterHours C V L ns q) Promises (hours_step C V L ns q)
              (λ e. record { at = λ w p. tt })
              λ hours. record {
                at = λ w (expiry, d).
                    (Triple-on_error ((HasManifest V ns q)) _ _
                        (λ secret. create_image_build C ns by hours secret q)
                        (AfterSecret C V L ns q) Promises (secret_step C V L ns q)
                        (λ e. record { at = λ w u. tt })
                        (λ secret. create_image_build-Promises hours secret expiry)).at
                      w d;
              }
