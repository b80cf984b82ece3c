-- ===== src/Telemetry/Reader/Lost.antt =====
-- A log file that is gone when it is opened, between its `stat` and its `open`: a rotation.
use api_template.Base.{
  ℕ, String, str_eq, str_eq_iff, Bool, true, false, Bool-cases, List, [], ◌∷◌, ◌++◌, Option, none,
  some, ◌≡◌, ◌≢◌, refl, sym, ap, ◌∙◌, inl, inr, length, leb, ltb, ◌==◌, arith,
}
use api_template.Kernel.Errors.{os_error, returned, raised}
use api_template.Telemetry.Composer.{TelemetryEvent}
use api_template.Telemetry.Reader.{
  Bytes, Decoder, FileCursor, Entry, Stat, Cursors, Scan, set_cursor, located, read_on, poll_file,
  parse_lines, collect,
}
use api_template.Telemetry.Reader.Tailing.{
  cursor_after, file_with, stepped-grown, poll_file-stepped, set_cursor-same,
}

set_cursor-other :
    (path other : String) (cursor : Option FileCursor) (cursors : Cursors)
    → other ≢ path
    → set_cursor path cursor cursors other ≡ cursors other
unfolding set_cursor
set_cursor-other path other cursor cursors apart = elim (Bool-cases (str_eq other path)) [
  | inl e ↦ absurd (apart ((str_eq_iff other path).0 e))
  | inr e ↦ rw e refl
]

module _ (decoder : Decoder) (from_end : Bool) where
  -- A file with new text that cannot be opened.
  poll_file-raises :
      (g : Entry) (s : Stat) (cursor : Option FileCursor)
      → g.contents ≡ none
      → leb s.st_size (located from_end cursor s).offset ≡ false
      → poll_file decoder from_end cursor g (some s)
        ≡ record { cursor = some (located from_end cursor s); events = raised os_error }
  unfolding poll_file read_on
  poll_file-raises g s cursor gone grown = rw (grown, gone) refl

  collect-raises :
      (f g : Entry) (s : Stat) (cursors : Cursors) (c d : FileCursor) (es : List TelemetryEvent)
      → poll_file decoder from_end (cursors f.path) f f.stat
        ≡ record { cursor = some c; events = returned es }
      → poll_file decoder from_end (set_cursor f.path (some c) cursors g.path) g g.stat
        ≡ record { cursor = some d; events = raised os_error }
      → collect decoder from_end (f ∷ g ∷ []) cursors ≡ record {
        cursors = set_cursor g.path (some d) (set_cursor f.path (some c) cursors);
        events = raised os_error;
      }
  unfolding collect
  collect-raises f g s cursors c d es first second = rw (first, second) refl

  module _ (path stem : String) (inode : ℕ) where
    -- A file that has been read to its end has nothing more to give.
    collect-settled :
        (text : Bytes) (cursors : Cursors)
        → cursors path ≡ some (cursor_after decoder path stem inode [] text)
        → (collect decoder from_end (file_with decoder path stem inode text ∷ []) cursors).events
          ≡ returned []
    unfolding collect poll_file located
    collect-settled text cursors h =
        let same : (inode == inode) ≡ true = ground arith in
        let kept : ltb (length text) (length text) ≡ false = ground arith in
        let all_read : leb (length text) (length text) ≡ true = ground arith in
        rw (h, same, kept, all_read) refl

    -- A scan reads on in a file, and then comes to another that has grown since it was read, and
    -- is gone when it is opened: the scan ends in an OSError, its cursors are past what was read,
    -- and the next scan of the first file returns nothing: the events of its new lines are lost.
    pub collect_open-loses :
        (read chunk : Bytes) (g : Entry) (s : Stat) (cursors : Cursors)
        → cursors path ≡ some (cursor_after decoder path stem inode [] read)
        → path ≢ g.path
        → g.stat ≡ some s
        → g.contents ≡ none
        → leb s.st_size (located from_end (cursors g.path) s).offset ≡ false
        → let f : Entry = file_with decoder path stem inode (read ++ chunk) in
          let scan : Scan = collect decoder from_end (f ∷ g ∷ []) cursors in
          (scan.events ≡ raised os_error)
          × ((collect decoder from_end (f ∷ []) scan.cursors).events ≡ returned [])
    collect_open-loses read chunk g s cursors at_read apart stat gone grown =
        let f : Entry = file_with decoder path stem inode (read ++ chunk) in
        let (new, step, added) = stepped-grown decoder path stem inode [] read chunk in
        let after : FileCursor = cursor_after decoder path stem inode [] (read ++ chunk) in
        let next : Cursors = set_cursor path (some after) cursors in
        let d : FileCursor = located from_end (cursors g.path) s in
        let other = set_cursor-other path g.path (some after) cursors (λ e. apart (sym e)) in
        let first =
          ap (λ c. poll_file decoder from_end c f f.stat) at_read
          ∙ poll_file-stepped decoder path stem inode from_end [] read chunk
          ∙ step in
        let second =
          ap (λ c. poll_file decoder from_end c g g.stat) other
          ∙ ap (poll_file decoder from_end (cursors g.path) g) stat
          ∙ poll_file-raises g s (cursors g.path) gone grown in
        let whole =
          collect-raises f g s cursors after d (parse_lines decoder stem new) first second in
        let settled : set_cursor g.path (some d) next path ≡ some after =
          set_cursor-other g.path path (some d) next apart
          ∙ set_cursor-same decoder path stem inode (some after) cursors in
        (
          ap (λ (r : Scan). r.events) whole,
          ap (λ (r : Scan). (collect decoder from_end (f ∷ []) r.cursors).events) whole
              ∙ collect-settled (read ++ chunk) (set_cursor g.path (some d) next) settled,
        )
