-- ===== src/BuildApi/Logs.antt =====
-- `streamLogs` of internal/buildapi/server.go, and the loop that it shares with `streamLogsSSE`.
use automotive_dev_operator.Base.{
  ℕ, zero, suc, ◌*◌, String, ◌<>◌, Bool, true, false, ◌||◌, List, [], ◌∷◌, ◌++◌, ◌==◌, contains,
  if◌then◌else◌, is_not_found, error_text, message, Exec, pure, raise, gets, ignoring, on_error,
  ◌>>=◌, ◌>>◌,
}
use automotive_dev_operator.Kube.{second}
use automotive_dev_operator.Text.Chars.{has_prefix, ◌is◌}
use automotive_dev_operator.Text.Trim.{trim_space, trim_prefix}
use automotive_dev_operator.Text.Split.{join}
use automotive_dev_operator.BuildApi.Types.{Response, plain}
use automotive_dev_operator.BuildApi.Client.{
  ListedPod, LogEnd, at_eof, cancelled, broken, LogStream, ApiClient, fails_with, answers,
  resolve_namespace, get_client, get_rest_config,
}

abbrev pub step_containers : List String → List String
step_containers [] = []
step_containers (c ∷ cs) =
    if has_prefix c "step-" then c ∷ step_containers cs else step_containers cs

-- The containers whose names start with `step-`; all, if there are none of these.
unfoldable pub step_names : ListedPod → List String
unfolding has_prefix
step_names p = elim (step_containers p.containers) [ [] ↦ p.containers | c ∷ cs ↦ c ∷ cs ]

-- What the loop remembers: the containers whose log was sent, and the errors of the last round that
-- had any.
pub record LogState : Type 0 where
  pub streamed : List String
  pub last_errs : List String

-- `hadStream` is set where the first container is added.
abbrev pub had_stream : LogState → Bool
had_stream s = elim s.streamed [ [] ↦ false | c ∷ cs ↦ true ]

abbrev count : List String → ℕ
count [] = 0
count (x ∷ xs) = suc (count xs)

unfoldable pub is_last_round : LogState → ListedPod → Bool
unfolding step_names
is_last_round s p =
    count s.streamed is count (step_names p) || p.phase == "Succeeded" || p.phase == "Failed"

-- What a handler writes at each point of the loop.
pub record Voice (W : Type 0) : Type 1 where
  pub pod_error : String → Exec W (Unit {0})
  pub sends_log : String → LogStream → Exec W (Unit {0})
  pub waiting : Exec W (Unit {0})
  pub gone : Exec W (Unit {0})

module _ (C : ApiClient) where
  open C use {World}

  -- The loop over the containers of one round; the errors come back with the state.
  unfoldable pub stream_steps :
      Voice World
      → String
      → String
      → List String
      → LogState
      → List String
      → Exec World (LogState × List String)
  stream_steps V ns pod [] s errs = pure (s, errs)
  stream_steps V ns pod (c ∷ cs) s errs =
      if contains s.streamed c
      then stream_steps V ns pod cs s errs
      else on_error (C.open_log (record { namespace = ns; pod = pod; container = c }))
          (λ e. stream_steps V ns pod cs s (errs ++ ((c <> (": " <> error_text e)) ∷ [])))
          λ log.
            ignoring (V.sends_log (trim_prefix c "step-") log)
            >> stream_steps V ns pod cs (record s { streamed = c ∷ s.streamed }) errs

  abbrev pub with_errs : LogState × List String → LogState
  with_errs x = elim x.1 [ [] ↦ x.0 | e ∷ es ↦ record x.0 { last_errs = e ∷ es } ]

  -- The outer loop, for a number of rounds: `true` where it ends by a `break`, `false` where the
  -- function returns. It fails where the rounds run out.
  unfoldable pub stream_rounds :
      Voice World → ℕ → String → String → LogState → Exec World (Bool × LogState)
  unfolding stream_steps is_last_round
  stream_rounds V zero ns pod s = raise (message "out of rounds")
  stream_rounds V (suc n) ns pod s = gets C.is_gone >>= λ left.
      if left
      then ignoring V.gone >> pure (false, s)
      else on_error (C.get_pod (record { namespace = ns; name = pod }))
          (λ e. ignoring (V.pod_error (error_text e)) >> pure (false, s))
          λ p. stream_steps V ns pod (step_names p) s [] >>= λ x.
            if is_last_round (with_errs x) p then pure (true, with_errs x) else λ w.
            ((if had_stream (with_errs x) then pure tt else ignoring V.waiting)
                >> stream_rounds V n ns pod (with_errs x))
              (C.sleep (2 * second) w)

  abbrev new_log_state : LogState
  new_log_state = record { streamed = []; last_errs = [] }

  -- The chunks of one log as they come, until the client cannot be written to.
  unfoldable pub write_chunks : List String → LogEnd → Exec World (Unit {0})
  write_chunks [] at_eof = pure tt
  write_chunks [] cancelled = pure tt
  write_chunks [] (broken e) = ignoring (C.write ("\n[Stream error: " <> (error_text e <> "]\n")))
  write_chunks (chunk ∷ chunks) last =
      let rest = write_chunks chunks last in
      if chunk == "" then rest else on_error (C.write chunk) (λ e. pure tt) (λ _. rest)

  unfoldable pub plain_voice : Voice World
  unfolding write_chunks
  plain_voice = record {
    pod_error = λ text. C.write ("\n[Error: " <> (text <> "]\n"));
    sends_log = λ step log.
        ignoring (C.write ("\n===== Logs from " <> (step <> " =====\n\n")))
        >> write_chunks log.chunks log.ending;
    waiting = C.write ".";
    gone = pure tt;
  }

  -- The end of `streamLogs`. The header of status 200 was sent before, so that the error of a log
  -- that never came does not change it.
  unfoldable pub end_logs : Bool × LogState → Exec World Response
  unfolding join
  end_logs (false, s) = answers 200 (plain "")
  end_logs (true, s) =
      if had_stream s
      then ignoring (C.write "\n[Log streaming completed]\n") >> answers 200 (plain "")
      else fails_with 200 ("logs unavailable: " <> join "; " s.last_errs)

  -- The clients are made twice, with the same calls.
  unfoldable pub with_task_pod :
      String → String → (ListedPod → Exec World Response) → Exec World Response
  unfolding get_rest_config
  with_task_pod ns task_run k =
      on_error (get_rest_config C) (λ e. fails_with 500 (error_text e))
        λ cfg.
          on_error (C.new_clientset cfg) (λ e. fails_with 500 (error_text e))
            λ _.
              on_error (C.list_task_run_pods ns task_run)
                (λ e. fails_with 503 "logs not available yet")
                λ pods. elim pods [
                  | [] ↦ fails_with 503 "logs not available yet"
                  | p ∷ more ↦
                      on_error (get_rest_config C) (λ e. fails_with 500 (error_text e))
                        λ cfg.
                          on_error (C.new_clientset cfg) (λ e. fails_with 500 (error_text e))
                            (λ _. k p)
                ]

  unfoldable pub stream_logs : ℕ → String → Exec World Response
  unfolding get_client resolve_namespace with_task_pod stream_rounds plain_voice end_logs trim_space
  stream_logs rounds name = resolve_namespace C >>= λ ns.
      on_error (get_client C) (λ e. fails_with 500 (error_text e))
        λ _.
          on_error (C.get_build (record { namespace = ns; name = name }))
            (λ e.
              if is_not_found e then fails_with 404 "not found" else fails_with 500 (error_text e))
            λ b.
              let task_run = trim_space b.status.task_run_name in
              if task_run == ""
              then fails_with 503 "logs not available yet"
              else with_task_pod ns task_run λ p.
                ignoring (C.write "Waiting for logs...\n")
                >> (stream_rounds plain_voice rounds ns p.name new_log_state >>= end_logs)
