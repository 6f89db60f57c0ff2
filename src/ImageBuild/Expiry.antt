-- ===== src/ImageBuild/Expiry.antt =====
-- The end of serving: the deadline in int64 arithmetic, and `handleCompletedState` of
-- internal/controller/imagebuild/controller.go.
use Prim.Native.Nat.{min}
use automotive_dev_operator.Base.{
  ℕ, ◌+◌, ◌-◌, ◌*◌, ◌%◌, ◌^◌, pos, negsuc, ltb, ◌<>◌, Bool, none, some, if◌then◌else◌, Exec, pure,
  gets, on_error, ◌>>=◌, ◌>>◌, ignoring,
}
use automotive_dev_operator.Kube.{key_of, CtrlResult, done, after, second, hour}
use automotive_dev_operator.ImageBuild.Types.{ImageBuild}
use automotive_dev_operator.ImageBuild.Client.{BuildClient, ArtifactKind}
use automotive_dev_operator.ImageBuild.Storage.{sibling}

-- The hours for which the artifact is served: those of the specification if they are positive.
unfoldable pub expiry_hours : ImageBuild → ℕ
expiry_hours b = elim b.spec.serve_expiry_hours [
  | pos n ↦ if ltb 0 n then n else 24
  | negsuc n ↦ 24
]

-- `time.Duration(expiryHours) * time.Hour` as a pattern of 64 bits: from 2 ^ 63 on it stands for a
-- negative duration.
unfoldable pub expiry_bits : ImageBuild → ℕ
expiry_bits b = expiry_hours b * hour % 2 ^ 64

-- `now.Before(completion.Add(d))`, where `bits` is the pattern of `d`.
unfoldable pub is_before : ℕ → ℕ → ℕ → Bool
is_before now completion bits =
    if ltb bits (2 ^ 63)
    then ltb now (completion + bits)
    else ltb (now + (2 ^ 64 - bits)) completion

-- `time.Until`, where the time has not come: a difference is at most the largest duration.
unfoldable pub remaining : ℕ → ℕ → ℕ → ℕ
remaining now completion bits =
    let d =
      if ltb bits (2 ^ 63) then completion + bits - now else completion - (2 ^ 64 - bits) - now in
    min d (2 ^ 63 - 1)

-- What the handler writes after the cleanup.
abbrev pub expired : ImageBuild → ImageBuild
expired b = record b {
  status = record b.status {
    artifact_url = "";
    artifact_file_name = "";
    artifact_path = "";
    message = "Build expired";
  };
}

module _ (C : BuildClient) where
  open C use {World}

  -- The four deletions, whose errors are logged at most.
  unfoldable pub delete_artifacts : ImageBuild → Exec World (Unit {0})
  delete_artifacts b = do
    ignoring (C.delete_object ArtifactKind.service (sibling b (b.meta.name <> "-artifact-service")))
    ignoring (C.delete_object ArtifactKind.route (sibling b (b.meta.name <> "-artifacts")))
    ignoring (C.delete_object ArtifactKind.pod (sibling b (b.meta.name <> "-artifact-pod")))
    ignoring (C.delete_object ArtifactKind.config_map (sibling b (b.meta.name <> "-nginx-config")))

  unfoldable pub mark_expired : ImageBuild → Exec World (Unit {0})
  mark_expired b =
      on_error (C.builds.get (key_of b.meta)) (λ e. pure tt)
        (λ fresh. ignoring (C.builds.patch_status fresh (expired fresh)))

  unfoldable pub expire : ImageBuild → Exec World CtrlResult
  expire b = do delete_artifacts b; mark_expired b; pure done

  -- The part of the handler after the completion time is known to be there. The clock is read once
  -- for the test and once more for the time that remains.
  unfoldable pub serve_until : ImageBuild → ℕ → Exec World CtrlResult
  serve_until b completion = gets C.now >>= λ now.
      if is_before now completion (expiry_bits b)
      then (do later ← gets C.now; pure (after (remaining later completion (expiry_bits b))))
      else expire b

  unfoldable pub handle_completed_state : ImageBuild → Exec World CtrlResult
  handle_completed_state b =
      if b.spec.serve_artifact
      then elim b.status.completion_time [
        | none ↦ pure (after (5 * second))
        | some completion ↦ serve_until b completion
      ]
      else pure done
