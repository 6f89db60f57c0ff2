-- ===== src/BuildApi/Framing.antt =====
-- Events as `sendSSEEvent` of internal/buildapi/server.go writes them, and as the event source of a
-- browser reads them (webui/src/hooks/useSSE.ts).
use Prim.Native.Char.{Char}
use automotive_dev_operator.Base.{String, ◌<>◌, List, [], ◌∷◌, ◌++◌}
use automotive_dev_operator.BuildApi.Sse.{sse_event}
use automotive_dev_operator.BuildApi.Events.{Fields, field_of}

abbrev pub fields_of : String → String → String → Fields
fields_of event step text = field_of "event" event ++ (field_of "id" step ++ field_of "data" text)

-- The events that are sent for the lines of a log.
abbrev pub log_events : String → List String → String
log_events step [] = ""
log_events step (line ∷ lines) = sse_event "log" step line <> log_events step lines
