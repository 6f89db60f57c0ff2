-- ===== src/BuildApi/SseLogs.antt =====
-- `streamLogsSSE` of internal/buildapi/server.go. The pings that it sends meanwhile are left out.
use automotive_dev_operator.Base.{
  ℕ, String, ◌<>◌, Bool, true, false, List, [], ◌∷◌, ◌==◌, if◌then◌else◌, is_not_found, error_text,
  Exec, pure, ignoring, on_error, ◌>>=◌, ◌>>◌,
}
use automotive_dev_operator.Text.Trim.{trim_space}
use automotive_dev_operator.Text.Split.{join}
use automotive_dev_operator.BuildApi.Types.{Response, plain}
use automotive_dev_operator.BuildApi.Client.{
  ListedPod, LogEnd, at_eof, cancelled, broken, ApiClient, answers, resolve_namespace, get_client,
  get_rest_config,
}
use automotive_dev_operator.BuildApi.Sse.{sse_event, sent_lines}
use automotive_dev_operator.BuildApi.Logs.{LogState, had_stream, Voice, stream_rounds}

module _ (C : ApiClient) where
  open C use {World}

  -- Errors of writing are ignored.
  unfoldable pub send_event : String → String → String → Exec World (Unit {0})
  unfolding sse_event
  send_event event step text = ignoring (C.write (sse_event event step text))

  -- An event, and the end of the handler.
  unfoldable pub ends_with : String → String → Exec World Response
  unfolding send_event
  ends_with event text = send_event event "" text >> answers 200 (plain "")

  unfoldable pub send_lines : String → List String → Exec World (Unit {0})
  unfolding send_event
  send_lines step [] = pure tt
  send_lines step (line ∷ lines) = send_event "log" step line >> send_lines step lines

  unfoldable pub end_events : String → LogEnd → Exec World (Unit {0})
  unfolding send_event
  end_events step at_eof = pure tt
  end_events step cancelled = pure tt
  end_events step (broken e) = send_event "error" step ("Stream error: " <> error_text e)

  unfoldable pub event_voice : Voice World
  unfolding send_event send_lines sent_lines end_events
  event_voice = record {
    pod_error = λ text. send_event "error" "" ("Error: " <> text);
    sends_log = λ step log.
        send_event "step" step ("===== Logs from " <> (step <> " ====="))
        >> send_lines step (sent_lines "" log.chunks)
        >> end_events step log.ending;
    waiting = send_event "waiting" "" "Waiting for logs...";
    gone = send_event "disconnected" "" "Connection closed";
  }

  unfoldable pub end_log_events : Bool × LogState → Exec World Response
  unfolding ends_with join
  end_log_events (false, s) = answers 200 (plain "")
  end_log_events (true, s) =
      if had_stream s
      then ends_with "completed" "Log streaming completed"
      else ends_with "error" ("logs unavailable: " <> join "; " s.last_errs)

  -- The clients are made twice; the errors of the second time have shorter texts.
  unfoldable pub with_event_pod :
      String → String → (ListedPod → Exec World Response) → Exec World Response
  unfolding get_rest_config ends_with
  with_event_pod ns task_run k =
      on_error (get_rest_config C)
        (λ e. ends_with "message" ("ERROR: Config error: " <> error_text e))
        λ cfg.
          on_error (C.new_clientset cfg)
            (λ e. ends_with "message" ("ERROR: Kubernetes client error: " <> error_text e))
            λ _.
              on_error (C.list_task_run_pods ns task_run)
                (λ e. ends_with "waiting" "Build pods not ready yet, waiting for logs...")
                λ pods. elim pods [
                  | [] ↦ ends_with "waiting" "Build pods not ready yet, waiting for logs..."
                  | p ∷ more ↦
                      on_error (get_rest_config C)
                        (λ e. ends_with "message" ("Config error: " <> error_text e))
                        λ cfg.
                          on_error (C.new_clientset cfg)
                            (λ e. ends_with "message" ("Kubernetes client error: " <> error_text e))
                            (λ _. k p)
                ]

  unfoldable pub stream_logs_sse : ℕ → String → Exec World Response
  unfolding get_client resolve_namespace with_event_pod stream_rounds event_voice end_log_events
      ends_with send_event trim_space
  stream_logs_sse rounds name = resolve_namespace C >>= λ ns.
      on_error (get_client C) (λ e. ends_with "message" ("ERROR: Client error: " <> error_text e))
        λ _.
          on_error (C.get_build (record { namespace = ns; name = name }))
            (λ e.
              if is_not_found e
              then ends_with "message" "ERROR: Build not found"
              else ends_with "message" ("ERROR: Build lookup error: " <> error_text e))
            λ b.
              let task_run = trim_space b.status.task_run_name in
              if task_run == ""
              then ends_with "waiting" "Build not started yet, waiting for logs..."
              else with_event_pod ns task_run λ p.
                send_event "connected" "" "Log stream connected"
                >> (stream_rounds C event_voice rounds ns p.name
                      (record { streamed = []; last_errs = [] })
                    >>= end_log_events)
