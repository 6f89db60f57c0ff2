-- ===== src/OperatorConfig/Steps.antt =====
-- The steps of a deployment, and the objects that are there after each.
use automotive_dev_operator.Base.{
  String, Bool, true, not, Option, some, none, List, ◌∷◌, is_not_found, Result, ok, err, raise,
  ◌>>=◌, ◌>>◌, wrapping, ignoring, Triple, Ends, Triple-on_error, Triple-seq, Preserves,
  Preserves-raise, Preserves-if, Preserves-on_error, Preserves-ignoring,
}
use automotive_dev_operator.OperatorConfig.Objects.{
  Ref, Manifest, ref_of, ConfigClient, State, call,
}
use automotive_dev_operator.OperatorConfig.Deploy.{
  Action, is_no_match_error, remember, detect_open_shift, create_or_update,
}
use automotive_dev_operator.OperatorConfig.Presence.{
  IsAdditive, AllPresent, all_kept, wrapped, create_or_update-There,
}

module _ (C : ConfigClient) (Present : C.World → Ref → Type 0) (L : IsAdditive C Present) where
  abbrev pub Here : List Ref → State C.World → Type 0
  Here rs s = AllPresent Present rs s.world

  abbrev pub Nothing : State C.World → Type 0
  Nothing s = Unit {0}

  -- The calls that are made for their effect on other things.
  pub get_keeps : (rs : List Ref) (r : Ref) → Preserves (Here rs) (call (C.get_object r))
  get_keeps rs r = record {
    at = λ s p. all_kept C Present L rs s.world _ (λ q. L.present-get s.world r q) p;
  }

  pub create_or_update_keeps :
      (rs : List Ref) (m : Manifest) → Preserves (Here rs) (create_or_update C m)
  unfolding create_or_update
  create_or_update_keeps rs m =
      Preserves-on_error (call (C.get_object (ref_of m))) _ _ (get_keeps rs (ref_of m))
        (λ e.
          Preserves-if (is_not_found e) _ _
            (λ _. record {
              at = λ s p. all_kept C Present L rs s.world _ (λ q. L.present-create s.world m q) p;
            })
            (λ _. Preserves-raise e))
        (λ v. record {
          at = λ s p. all_kept C Present L rs s.world _ (λ q. L.present-update s.world m v q) p;
        })

  remember_keeps : (rs : List Ref) (b : Bool) → Preserves (Here rs) (remember C b)
  remember_keeps rs b = record { at = λ s p. p }

  detected :
      (rs : List Ref) (w : C.World) (o : Option Bool)
      → AllPresent Present rs w
      → Here rs (detect_open_shift C (record { world = w; is_open_shift = o })).1
  unfolding detect_open_shift
  detected rs w (some b) p = p
  detected rs w none p =
      (Preserves-on_error {P = Here rs} (call (C.get_object _)) _ _ (get_keeps rs _)
          (λ e. remember_keeps rs (not (is_no_match_error e))) (λ v. remember_keeps rs true)).at
        (record { world = w; is_open_shift = none }) p

  detect_keeps : (rs : List Ref) → Preserves (Here rs) (detect_open_shift C)
  detect_keeps rs = record { at = λ s p. detected rs s.world s.is_open_shift p }

  -- An action that keeps what is there, as a step.
  pub kept_step :
      {A : Type 0} (rs : List Ref) (m : Action C A)
      → Preserves (Here rs) m
      → Triple (Here rs) m (λ r. Here rs)
  kept_step rs m k = record { at = k.at }

  -- One object that has to be there, in front of the rest.
  pub must :
      (text : String) (m : Manifest) (rs qs : List Ref) (k : Action C (Unit {0}))
      → Triple (Here (ref_of m ∷ rs)) k (Ends Nothing (Here qs))
      → Triple (Here rs) (wrapping text (create_or_update C m) >> k) (Ends Nothing (Here qs))
  must text m rs qs k rest =
      Triple-seq Nothing (Here rs) (Here (ref_of m ∷ rs)) (Here qs)
        (wrapping text (create_or_update C m)) k
        (wrapped C Present L rs text (create_or_update C m) (Here (ref_of m ∷ rs))
          (create_or_update-There C Present L rs m))
        rest

  -- One object that may fail, in front of the rest.
  pub may :
      (m : Manifest) (rs qs : List Ref) (k : Action C (Unit {0}))
      → Triple (Here rs) k (Ends Nothing (Here qs))
      → Triple (Here rs) (ignoring (create_or_update C m) >> k) (Ends Nothing (Here qs))
  may m rs qs k rest =
      Triple-on_error (Here rs) (ignoring (create_or_update C m)) raise (λ _. k) (λ r. Here rs)
        (Ends Nothing (Here qs))
        (kept_step rs _ (Preserves-ignoring (create_or_update C m) (create_or_update_keeps rs m)))
        (λ e. record { at = λ s p. tt }) (λ _. rest)

  pub detecting :
      (rs qs : List Ref) (k : Bool → Action C (Unit {0}))
      → ((os : Bool) → Triple (Here rs) (k os) (Ends Nothing (Here qs)))
      → Triple (Here rs) (detect_open_shift C >>= k) (Ends Nothing (Here qs))
  detecting rs qs k rest =
      Triple-on_error (Here rs) (detect_open_shift C) raise k (λ r. Here rs)
        (Ends Nothing (Here qs)) (kept_step rs (detect_open_shift C) (detect_keeps rs))
        (λ e. record { at = λ s p. tt }) rest

  may_fail :
      (rs : List Ref) (r : Result (Unit {0})) (s : State C.World)
      → Here rs s
      → Ends Nothing (Here rs) r s
  may_fail rs (ok u) s p = p
  may_fail rs (err e) s p = tt

  pub last :
      (m : Manifest) (rs : List Ref)
      → Triple (Here rs) (ignoring (create_or_update C m)) (Ends Nothing (Here rs))
  last m rs = record {
    at = λ s p.
        may_fail rs _ _
          ((Preserves-ignoring (create_or_update C m) (create_or_update_keeps rs m)).at s p);
  }
