-- ===== src/Telemetry/Reader/Tailing.antt =====
-- A log file that only grows, scanned again and again while text is appended to it.
use api_template.Base.{
  ℕ, ◌+◌, String, str_eq_refl, Bool, true, false, List, [], ◌∷◌, ◌++◌, Option, none, some, ◌≡◌,
  refl, sym, ap, ◌∙◌, length, length-append, leb, ltb, ◌==◌, append-nil, append_assoc, arith,
  if◌then◌else◌,
}
use api_template.Kernel.Errors.{returned}
use api_template.Telemetry.Composer.{TelemetryEvent}
use api_template.Telemetry.Writer.Steps.{concat}
use api_template.Telemetry.Reader.{
  Bytes, Split, split, Decoder, FileCursor, Entry, Cursors, Step, set_cursor, located, read_on,
  poll_file, parse_lines, collect, tail,
}
use api_template.Telemetry.Reader.Lines.{
  split-append, drop-length, leb_all, leb_less, parse_lines-append,
}

module _ (decoder : Decoder) (path stem : String) (inode : ℕ) where
  -- The cursor of the file after some of it was skipped and some was read.
  abbrev pub cursor_after : (skipped read : Bytes) → FileCursor
  cursor_after skipped read = record {
    inode = inode;
    offset = length (skipped ++ read);
    buffer = (split read).last;
  }

  -- What a step does to such a cursor, and the lines that it adds to those before.
  abbrev pub Advanced : (skipped read chunk : Bytes) → Step → Type 0
  Advanced skipped read chunk step =
      (new : List Bytes) × (step ≡ record {
        cursor = some (cursor_after skipped (read ++ chunk));
        events = returned (parse_lines decoder stem new);
      })
      × ((split read).lines ++ new ≡ (split (read ++ chunk)).lines)

  read_on-grown :
      (skipped read chunk : Bytes)
      → Advanced skipped read chunk
          (read_on decoder stem (cursor_after skipped read) (some ((skipped ++ read) ++ chunk)))
  unfolding read_on
  read_on-grown skipped read chunk =
      let split_on = split-append read chunk in
      let far : length (skipped ++ (read ++ chunk)) ≡ length (skipped ++ read) + length chunk =
        ap length (sym (append_assoc skipped read chunk)) ∙ length-append (skipped ++ read) chunk in
      (
        (split ((split read).last ++ chunk)).lines,
        rw (drop-length (skipped ++ read) chunk, split_on, far) refl,
        sym (ap (λ (s : Split). s.lines) split_on),
      )

  -- The step at the cursor, where the size is what the file has.
  unfoldable pub stepped : (skipped read chunk : Bytes) → Step
  stepped skipped read chunk =
      if leb (length ((skipped ++ read) ++ chunk)) (length (skipped ++ read))
      then record { cursor = some (cursor_after skipped read); events = returned [] }
      else read_on decoder stem (cursor_after skipped read) (some ((skipped ++ read) ++ chunk))

  pub stepped-grown :
      (skipped read chunk : Bytes) → Advanced skipped read chunk (stepped skipped read chunk)
  unfolding stepped parse_lines
  stepped-grown skipped read [] =
      let whole = append-nil read in
      (
        [],
        rw
            (
              leb_all (length (skipped ++ read)) (length ((skipped ++ read) ++ []))
                  (rw (append-nil (skipped ++ read)) (omega arith)),
              whole,
            )
            refl,
        rw (whole, append-nil (split read).lines) refl,
      )
  stepped-grown skipped read (b ∷ bs) =
      let more = length-append (skipped ++ read) (b ∷ bs) in
      rw (leb_less (length (skipped ++ read)) (length ((skipped ++ read) ++ b ∷ bs)) (omega arith))
        (read_on-grown skipped read (b ∷ bs))

  -- The file with this text, as a scan comes to it.
  abbrev pub file_with : Bytes → Entry
  file_with text = record {
    path = path;
    stem = stem;
    stat = some (record { st_ino = inode; st_size = length text });
    contents = some text;
  }

  pub poll_file-stepped :
      (from_end : Bool) (skipped read chunk : Bytes)
      → let f : Entry = file_with ((skipped ++ read) ++ chunk) in
        poll_file decoder from_end (some (cursor_after skipped read)) f f.stat
        ≡ stepped skipped read chunk
  unfolding poll_file located stepped
  poll_file-stepped from_end skipped read chunk =
      let same : (inode == inode) ≡ true = ground arith in
      let more = length-append (skipped ++ read) chunk in
      let grown : ltb (length ((skipped ++ read) ++ chunk)) (length (skipped ++ read)) ≡ false =
        ground arith in
      rw (same, grown) refl

  -- What the scans of a directory with this file find, as these texts are appended to it.
  abbrev pub growing : (before : Bytes) → List Bytes → List (List Entry)
  growing before [] = []
  growing before (chunk ∷ chunks) =
      (file_with (before ++ chunk) ∷ []) ∷ growing (before ++ chunk) chunks

  collect-one :
      (from_end : Bool) (f : Entry) (cursors : Cursors) (c : FileCursor) (es : List TelemetryEvent)
      → poll_file decoder from_end (cursors f.path) f f.stat
        ≡ record { cursor = some c; events = returned es }
      → collect decoder from_end (f ∷ []) cursors
        ≡ record { cursors = set_cursor f.path (some c) cursors; events = returned (es ++ []) }
  unfolding collect
  collect-one from_end f cursors c es h = rw h refl

  tail-next :
      (from_end : Bool) (scan : List Entry) (scans : List (List Entry)) (cursors next : Cursors)
      (es more : List TelemetryEvent)
      → collect decoder from_end scan cursors ≡ record { cursors = next; events = returned es }
      → (tail decoder from_end scans next).events ≡ returned more
      → (tail decoder from_end (scan ∷ scans) cursors).events ≡ returned (es ++ more)
  unfolding tail
  tail-next from_end scan scans cursors next es more h rest = rw (h, rest) refl

  pub set_cursor-same :
      (cursor : Option FileCursor) (cursors : Cursors)
      → set_cursor path cursor cursors path ≡ cursor
  unfolding set_cursor
  set_cursor-same cursor cursors = rw (str_eq_refl path) refl

  -- The lines that the scans find in a file of which some was skipped and some was read.
  tail-grown :
      (from_end : Bool) (skipped read : Bytes) (chunks : List Bytes) (cursors : Cursors)
      → cursors path ≡ some (cursor_after skipped read)
      → (new : List Bytes) × ((tail decoder from_end
            (growing (skipped ++ read) chunks)
            cursors).events
          ≡ returned (parse_lines decoder stem new))
        × ((split read).lines ++ new ≡ (split (read ++ concat chunks)).lines)
  unfolding tail parse_lines
  tail-grown from_end skipped read [] cursors h =
      ([], refl, rw (append-nil read, append-nil (split read).lines) refl)
  tail-grown from_end skipped read (chunk ∷ chunks) cursors h =
      let (new, step, added) = stepped-grown skipped read chunk in
      let after : FileCursor = cursor_after skipped (read ++ chunk) in
      let next : Cursors = set_cursor path (some after) cursors in
      let (later, rest, all_added) =
        tail-grown from_end skipped (read ++ chunk) chunks next
          (set_cursor-same (some after) cursors) in
      let f : Entry = file_with ((skipped ++ read) ++ chunk) in
      let polled =
        ap (λ c. poll_file decoder from_end c f f.stat) h
        ∙ poll_file-stepped from_end skipped read chunk
        ∙ step in
      (
        new ++ later,
        tail-next from_end (f ∷ []) (growing ((skipped ++ read) ++ chunk) chunks) cursors next
              (parse_lines decoder stem new ++ []) (parse_lines decoder stem later)
              (collect-one from_end f cursors after (parse_lines decoder stem new) polled)
              (rw (append_assoc skipped read chunk) rest)
            ∙ rw
                (
                  append-nil (parse_lines decoder stem new),
                  parse_lines-append decoder stem new later,
                )
                refl,
        sym (append_assoc (split read).lines new later)
            ∙ ap (λ ls. ls ++ later) added
            ∙ all_added
            ∙ ap (λ t. (split t).lines) (append_assoc read chunk (concat chunks)),
      )

  -- A first scan that leaves the cursor after so much of the file, and the scans that follow.
  tail-first :
      (from_end : Bool) (history skipped read : Bytes) (chunks new : List Bytes) (cursors : Cursors)
      → poll_file decoder from_end (cursors path) (file_with history) (file_with history).stat
        ≡ record {
          cursor = some (cursor_after skipped read);
          events = returned (parse_lines decoder stem new);
        }
      → skipped ++ read ≡ history
      → new ≡ (split read).lines
      → (tail decoder from_end (growing [] (history ∷ chunks)) cursors).events
        ≡ returned (parse_lines decoder stem (split (read ++ concat chunks)).lines)
  tail-first from_end history skipped read chunks new cursors polled whole found =
      let after : FileCursor = cursor_after skipped read in
      let next : Cursors = set_cursor path (some after) cursors in
      let (later, rest, added) =
        tail-grown from_end skipped read chunks next (set_cursor-same (some after) cursors) in
      tail-next from_end (file_with history ∷ []) (growing history chunks) cursors next
        (parse_lines decoder stem new ++ []) (parse_lines decoder stem later)
        (collect-one from_end (file_with history) cursors after (parse_lines decoder stem new)
          polled)
        (ap (λ t. (tail decoder from_end (growing t chunks) next).events) (sym whole) ∙ rest)
      ∙ ap returned (
          ap (λ es. es ++ parse_lines decoder stem later)
            (append-nil (parse_lines decoder stem new))
          ∙ sym (parse_lines-append decoder stem new later)
          ∙ ap (parse_lines decoder stem) (ap (λ ls. ls ++ later) found ∙ added))

  -- From the start, a file that is new is read like one of which nothing was read.
  poll_file-fresh :
      (text : Bytes)
      → let f : Entry = file_with text in
        poll_file decoder false none f f.stat
        ≡ poll_file decoder false (some (cursor_after [] [])) f f.stat
  unfolding poll_file located split
  poll_file-fresh text =
      let same : (inode == inode) ≡ true = ground arith in
      let enough : ltb (length text) 0 ≡ false = ground arith in rw (same, enough) refl

  -- A reader that comes upon a file for the first time, with some text in it, and then scans it
  -- again after each of the texts appended to it: its events are those of the lines that are
  -- complete, each once and in their order, however the texts cut the lines; from the start of the
  -- file, or, with `from_end`, from where the file ended when it was found.
  pub tail-lines :
      (from_end : Bool) (history : Bytes) (chunks : List Bytes) (cursors : Cursors)
      → cursors path ≡ none
      → (tail decoder from_end (growing [] (history ∷ chunks)) cursors).events
        ≡ returned (
            parse_lines decoder stem
              (split (if from_end then concat chunks else history ++ concat chunks)).lines)
  unfolding poll_file located split parse_lines
  tail-lines true history chunks cursors new_file =
      tail-first true history history [] chunks [] cursors
        (ap (λ c. poll_file decoder true c (file_with history) (file_with history).stat) new_file
          ∙ rw (leb_all (length history) (length history) (omega arith), append-nil history) refl)
        (append-nil history) refl
  tail-lines false history chunks cursors new_file =
      let (new, step, added) = stepped-grown [] [] history in
      tail-first false history [] history chunks new cursors
        (ap (λ c. poll_file decoder false c (file_with history) (file_with history).stat) new_file
          ∙ poll_file-fresh history
          ∙ poll_file-stepped false [] [] history
          ∙ step)
        refl added
