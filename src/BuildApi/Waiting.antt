-- ===== src/BuildApi/Waiting.antt =====
-- The handlers of artifacts in internal/buildapi/server.go come to an end: the wait for the pod is
-- over before its rounds run out.
use automotive_dev_operator.Base.{
  ℕ, zero, suc, ◌+◌, ◌*◌, ◌≤◌, ◌<◌, String, ◌≡◌, refl, Bool-cases, inl, inr, Option, none, some,
  List, ltb, arith, Result, ok, err, Exec, branch, Returns, ◌⊎◌, ◌<>◌, error_text,
}
use automotive_dev_operator.Kube.{second, minute}
use automotive_dev_operator.BuildApi.Types.{Response}
use automotive_dev_operator.BuildApi.Client.{ListedPod, ApiClient, fails_with}
use automotive_dev_operator.BuildApi.Files.{first_ready, artifact_labels}
use automotive_dev_operator.BuildApi.Artifacts.{pod_or_wait, wait_for_pod, with_artifact_pod}

-- The handler answers: it does not run out of rounds.
abbrev pub IsAnswer : {A : Type 0} → Result A → Type 0
IsAnswer {A} r = (a : A) × (r ≡ ok a)

-- Sleeping takes its time, and the clock does not go back during a call.
pub record HasClock (C : ApiClient) : Type 0 where
  pub sleeps : (d : ℕ) (w : C.World) → C.now w + d ≤ C.now (C.sleep d w)
  pub lists :
      (ns : String) (name : String) (w : C.World)
      → C.now w ≤ C.now (C.list_pods ns (artifact_labels name) w).1

module _ (C : ApiClient) (K : HasClock C) where
  open C use {World, Config}

  module _ (ns name : String) (deadline : ℕ) (k : ListedPod → Exec World Response)
      (answers_k : (p : ListedPod) → Returns IsAnswer (k p)) where
    -- What the next round needs: the deadline is over, or the round answers two seconds later.
    abbrev IsLastOrNext : Exec World Response → World → Type 0
    IsLastOrNext next w =
        (deadline < C.now w) ⊎ ((v : World) → C.now w + 2 * second ≤ C.now v → IsAnswer (next v).0)

    pod_or_wait-IsAnswer :
        (next : Exec World Response) (o : Option ListedPod) (w : World)
        → IsLastOrNext next w
        → IsAnswer (pod_or_wait C deadline k next o w).0
    unfolding pod_or_wait
    pod_or_wait-IsAnswer next (some p) w h = (answers_k p).at w
    pod_or_wait-IsAnswer next none w h = elim (Bool-cases (ltb deadline (C.now w))) [
      | inl e ↦ rw e (_, refl)
      | inr e ↦ rw e (elim h [
        | inl over ↦ ground (arith)
        | inr rest ↦ rest (C.sleep (2 * second) w) (K.sleeps (2 * second) w)
      ])
    ]

    listed_step :
        (next : Exec World Response) (x : Result (List ListedPod) × World)
        → IsLastOrNext next x.1
        → IsAnswer
            (branch x
              (λ e. fails_with 500 ("error listing artifact pods: " <> error_text e))
              (λ pods. pod_or_wait C deadline k next (first_ready pods))).0
    listed_step next (ok pods, w) h = pod_or_wait-IsAnswer next (first_ready pods) w h
    listed_step next (err e, w) h = (_, refl)

    wait_for_pod-IsAnswer :
        (n : ℕ) (w : World)
        → deadline < C.now w + n * (2 * second)
        → IsAnswer (wait_for_pod C (suc n) ns name deadline k w).0
    unfolding wait_for_pod
    wait_for_pod-IsAnswer zero w h =
        let later = K.lists ns name w in
        listed_step (wait_for_pod C zero ns name deadline k)
          (C.list_pods ns (artifact_labels name) w) (inl (omega arith))
    wait_for_pod-IsAnswer (suc n) w h =
        let later = K.lists ns name w in
        listed_step (wait_for_pod C (suc n) ns name deadline k)
          (C.list_pods ns (artifact_labels name) w)
          (inr (λ v slept. wait_for_pod-IsAnswer n v (omega arith)))

  pub with_artifact_pod-IsAnswer :
      (ns name : String) (k : ListedPod → Exec World Response)
      → ((p : ListedPod) → Returns IsAnswer (k p))
      → Returns IsAnswer (with_artifact_pod C ns name k)
  unfolding with_artifact_pod
  with_artifact_pod-IsAnswer ns name k h = record {
    at = λ w. wait_for_pod-IsAnswer ns name (C.now w + 2 * minute) k h 61 w (omega arith);
  }
