-- ===== src/BuildApi/Sse.antt =====
-- `sendSSEEvent` of internal/buildapi/server.go, and the loop of `streamLogsSSE` that cuts a log
-- into lines.
use Prim.Native.Char.{code}
use automotive_dev_operator.Base.{String, ◌<>◌, not, List, [], ◌∷◌, ◌++◌, ◌==◌, if◌then◌else◌}
use automotive_dev_operator.Text.Chars.{◌is◌}
use automotive_dev_operator.Text.Trim.{trim_space}
use automotive_dev_operator.Text.Split.{split, all_but_last, last_piece}

-- `strings.ReplaceAll(data, "\n", "\\n")`
unfoldable pub escape : String → String
escape String.[] = ""
escape (String.◌∷◌ c s) =
    let rest = escape s in if code c is 10 then "\\n" <> rest else String.◌∷◌ c rest

-- A line of an event, unless its text is empty.
unfoldable pub event_field : String → String → String
event_field word text = if text == "" then "" else word <> (": " <> (text <> "\n"))

unfoldable pub sse_event : String → String → String → String
unfolding event_field escape
sse_event event step text =
    event_field "event" event
    <> (event_field "id" step
        <> ((if text == "" then "" else "data: " <> (escape text <> "\n")) <> "\n"))

-- The lines that a chunk completes, after what the buffer held. Text without a line end is not
-- kept: it counts as a line.
unfoldable pub finished_lines : List String → List String
unfolding all_but_last
finished_lines [] = []
finished_lines (x ∷ []) = x ∷ []
finished_lines (x ∷ y ∷ more) = all_but_last (x ∷ y ∷ more)

-- What stays in the buffer.
unfoldable pub kept_text : List String → String
unfolding last_piece
kept_text [] = ""
kept_text (x ∷ []) = ""
kept_text (x ∷ y ∷ more) = last_piece (y ∷ more)

unfoldable pub without_blank : List String → List String
unfolding trim_space
without_blank [] = []
without_blank (x ∷ xs) = if not (trim_space x == "") then x ∷ without_blank xs else without_blank xs

-- The lines that are sent for the chunks of a log, with the buffer at the start.
unfoldable pub sent_lines : String → List String → List String
unfolding finished_lines kept_text without_blank split
sent_lines buffer [] = []
sent_lines buffer (chunk ∷ chunks) =
    if chunk == ""
    then sent_lines buffer chunks
    else let pieces = split 10 (buffer <> chunk) in
      without_blank (finished_lines pieces) ++ sent_lines (kept_text pieces) chunks
