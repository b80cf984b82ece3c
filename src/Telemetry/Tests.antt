-- ===== src/Telemetry/Tests.antt =====
-- A writer that is filled, drained and closed, and payloads that are masked.
use api_template.Kernel.Errors.{returned, raised, type_error}
use api_template.Telemetry.Composer.{TelemetryEvent, Route, kind_system, kind_in, dispatch}
use api_template.Telemetry.Composer.Dispatch.{Offered, dispatch_system}
use api_template.Base.{
  false, none, some, List, ◌≡◌, refl, String, true, str_eq, [], ◌∷◌, ◌++◌, arith,
}
use api_template.Telemetry.Writer.{event, sentinel, Writer, new_writer, submit, round, run, is_full}
use api_template.Telemetry.Writer.Steps.{concat, started, submits, rounds, Sound, Reaches-Sound}
use api_template.Telemetry.Writer.Drain.{run_drains}
use api_template.Telemetry.Reader.{
  Decoder, FileCursor, Entry, Cursors, Scan, split, set_cursor, parse_lines, collect, tail,
}
use api_template.Telemetry.Reader.Tailing.{cursor_after, file_with, growing, tail-lines}
use api_template.Telemetry.Masking.{
  Value, dict, list, text, bytes, plain, no_entry, entry, no_item, item, named, Patterns,
  looks_binary, mask,
}
use api_template.Telemetry.Masking.Hides.{nesting, Clean, mask-Clean}

-- Room for one event: the second of two is dropped.
abbrev empty : Writer String
empty = new_writer 1 5

Reaches-Sound_example : Sound 1 5 (round (submit "b" (submit "a" empty))) ("a" ∷ []) 2
unfolding new_writer is_full submit
Reaches-Sound_example = Reaches-Sound 1 5 (round (submit "b" (submit "a" empty))) ("a" ∷ []) 2 (
    rounds _ _ 2 (submits (submit "a" empty) ("a" ∷ []) 1 "b" (submits empty [] 0 "a" started))
      refl)

-- Three events before the sentinel, in batches of two.
abbrev ending : Writer String
ending = record (new_writer 10 2) { queue = event "a" ∷ event "b" ∷ event "c" ∷ sentinel ∷ [] }

run_drains_example :
    ((run 4 ending).stopped ≡ true) × (concat (run 4 ending).handled ≡ [] ++ "a" ∷ "b" ∷ "c" ∷ [])
unfolding new_writer
run_drains_example = run_drains 4 ending ("a" ∷ "b" ∷ "c" ∷ []) refl refl (omega arith)

abbrev patterns : Patterns
patterns = record {
  sensitive = λ key. str_eq key "password";
  data_uri = λ s. str_eq s "data:image/png;base64,AAAA";
}

-- A body with a password, a picture and a number.
abbrev body : Value
body = dict (
    entry (named "password") (text "correct horse") (
      entry (named "files") (list (item bytes (item (text "data:image/png;base64,AAAA") no_item)))
        (entry (named "page") (plain 3) no_entry)))

mask-Clean_example : Clean patterns (mask patterns 0 body)
unfolding looks_binary nesting
mask-Clean_example = mask-Clean patterns body refl (omega arith)

abbrev notice : TelemetryEvent
notice = record {
  service = "api";
  level = "INFO";
  kind = "system";
  url = none;
  status_code = none;
  message = none;
}

abbrev blank : Writer TelemetryEvent
blank = new_writer 10 1

-- A route whose filter raises, and one that takes system events; a global filter that takes none.
abbrev routes : List Route
routes =
    record { writer = blank; destination = λ e. raised type_error }
    ∷ record { writer = blank; destination = kind_in (kind_system ∷ []) }
    ∷ []

dispatch_system_example :
    (after : List Route) × (dispatch ((λ e. returned false) ∷ []) routes notice ≡ returned after)
    × Offered notice routes after
dispatch_system_example = dispatch_system ((λ e. returned false) ∷ []) routes notice refl

-- No line is an event, and a text is not read.
abbrev plain_lines : Decoder
plain_lines = record { decode = λ line. none; decode_text = λ line. "a line" }

abbrev unread : Cursors
unread path = none

-- A file with a line and a half, to which the other half is added, and then nothing.
tail-lines_example :
    (tail plain_lines false
      (growing plain_lines "api.log" "api" 7 [] ((97 ∷ 10 ∷ 98 ∷ []) ∷ (99 ∷ 10 ∷ []) ∷ [] ∷ []))
      unread).events
    ≡ returned (
        parse_lines plain_lines "api"
          (split ((97 ∷ 10 ∷ 98 ∷ []) ++ concat ((99 ∷ 10 ∷ []) ∷ [] ∷ []))).lines)
tail-lines_example =
    tail-lines plain_lines "api.log" "api" 7 false (97 ∷ 10 ∷ 98 ∷ []) ((99 ∷ 10 ∷ []) ∷ [] ∷ [])
      unread refl

two_lines : (split (97 ∷ 10 ∷ 98 ∷ 99 ∷ 10 ∷ [])).lines ≡ (97 ∷ []) ∷ (98 ∷ 99 ∷ []) ∷ []
unfolding split
two_lines = refl

abbrev at_read : FileCursor
at_read = cursor_after plain_lines "api.log" "api" 7 [] (97 ∷ 10 ∷ [])

abbrev one_read : Cursors
one_read = set_cursor "api.log" (some at_read) unread

abbrev rotating : Entry
rotating = record {
  path = "web.log";
  stem = "web";
  stat = some (record { st_ino = 8; st_size = 3 });
  contents = none;
}

abbrev lost : Scan
lost =
    collect plain_lines false
      (file_with plain_lines "api.log" "api" 7 (97 ∷ 10 ∷ 98 ∷ 10 ∷ []) ∷ rotating ∷ []) one_read
