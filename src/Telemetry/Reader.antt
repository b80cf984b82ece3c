-- ===== src/Telemetry/Reader.antt =====
-- modules/telemetry/reader/filesystem.py: a scan of the log files, each read on from its cursor. The
-- file system and msgspec's decoder are not code of this repository: what a scan finds is given, and
-- what the decoder makes of a line is a parameter.
pub mod Lines
pub mod Tailing
pub mod Lost
use api_template.Base.{
  ℕ, ◌+◌, String, str_eq, Bool, true, false, ◌&&◌, ◌||◌, Option, none, some, List, [], ◌∷◌, ◌++◌,
  length, drop, leb, ltb, ◌==◌, if◌then◌else◌,
}
use api_template.Kernel.Errors.{Exn, os_error, Outcome, returned, raised}
use api_template.Telemetry.Composer.{TelemetryEvent, kind_log}

abbrev pub Bytes : Type 0
Bytes = List ℕ

abbrev pub newline : ℕ
newline = 10

-- The lines that `split(b"\n")` finds, and what comes after the last of them.
pub record Split : Type 0 where
  pub lines : List Bytes
  pub last : Bytes

abbrev pub longer : ℕ → List Bytes → Bytes → Split
longer b [] last = record { lines = []; last = b ∷ last }
longer b (line ∷ lines) last = record { lines = (b ∷ line) ∷ lines; last = last }

unfoldable pub split : Bytes → Split
split [] = record { lines = []; last = [] }
split (b ∷ bs) =
    let rest = split bs in
    if b == newline
    then record { lines = [] ∷ rest.lines; last = rest.last }
    else longer b rest.lines rest.last

-- The white space of ASCII, which `bytes.strip` removes.
abbrev is_space : ℕ → Bool
is_space b = b == 32 || leb 9 b && leb b 13

unfoldable pub lstrip : Bytes → Bytes
lstrip [] = []
lstrip (b ∷ bs) = let rest = lstrip bs in if is_space b then rest else b ∷ bs

abbrev strip_after : ℕ → Bytes → Bytes
strip_after b [] = if is_space b then [] else b ∷ []
strip_after b (c ∷ cs) = b ∷ c ∷ cs

unfoldable pub rstrip : Bytes → Bytes
rstrip [] = []
rstrip (b ∷ bs) = strip_after b (rstrip bs)

-- `_DECODER.decode`, nothing where it raises a DecodeError, and `bytes.decode` with replacement.
pub record Decoder : Type 0 where
  pub decode : Bytes → Option TelemetryEvent
  pub decode_text : Bytes → String

pub record FileCursor : Type 0 where
  pub inode : ℕ
  pub offset : ℕ
  pub buffer : Bytes

pub record Stat : Type 0 where
  pub st_ino : ℕ
  pub st_size : ℕ

-- A path that a scan comes to: the name for its events, what `stat` answers unless it raises an
-- OSError, and what is in the file when it is opened, unless that raises one.
pub record Entry : Type 0 where
  pub path : String
  pub stem : String
  pub stat : Option Stat
  pub contents : Option Bytes

abbrev pub Cursors : Type 0
Cursors = String → Option FileCursor

unfoldable pub set_cursor : String → Option FileCursor → Cursors → Cursors
set_cursor path cursor cursors p = if str_eq p path then cursor else cursors p

-- Where reading goes on: a new file, a rotated one, one that was truncated, or the same.
unfoldable pub located : (from_end : Bool) → Option FileCursor → Stat → FileCursor
located from_end none s = record {
  inode = s.st_ino;
  offset = if from_end then s.st_size else 0;
  buffer = [];
}
located from_end (some c) s =
    if c.inode == s.st_ino
    then if ltb s.st_size c.offset then record c { offset = 0; buffer = [] } else c
    else record { inode = s.st_ino; offset = 0; buffer = [] }

-- What a step leaves: the cursor of the path, and the events or an exception.
pub record Step : Type 0 where
  pub cursor : Option FileCursor
  pub events : Outcome (List TelemetryEvent)

-- What a scan leaves.
pub record Scan : Type 0 where
  pub cursors : Cursors
  pub events : Outcome (List TelemetryEvent)

abbrev pub keep : Option TelemetryEvent → List TelemetryEvent → List TelemetryEvent
keep none es = es
keep (some e) es = e ∷ es

module _ (decoder : Decoder) where
  open decoder use {decode, decode_text}

  abbrev wrapped : String → Bytes → TelemetryEvent
  wrapped service line = record {
    service = service;
    level = "INFO";
    kind = kind_log;
    url = none;
    status_code = none;
    message = some (decode_text line);
  }

  abbrev parsed_or : String → Bytes → Option TelemetryEvent → TelemetryEvent
  parsed_or service line (some e) = e
  parsed_or service line none = wrapped service line

  abbrev parse_stripped : String → Bytes → Option TelemetryEvent
  parse_stripped service [] = none
  parse_stripped service (b ∷ bs) = some (parsed_or service (b ∷ bs) (decode (b ∷ bs)))

  unfoldable pub parse_line : String → Bytes → Option TelemetryEvent
  unfolding lstrip rstrip
  parse_line service line = parse_stripped service (lstrip (rstrip line))

  unfoldable pub parse_lines : String → List Bytes → List TelemetryEvent
  unfolding parse_line
  parse_lines service [] = []
  parse_lines service (line ∷ lines) = keep (parse_line service line) (parse_lines service lines)

  -- `open`, `seek`, `read` and `tell`, and the lines of the buffer with what was read.
  unfoldable pub read_on : String → FileCursor → Option Bytes → Step
  unfolding split parse_lines
  read_on service c none = record { cursor = some c; events = raised os_error }
  read_on service c (some contents) =
      let chunk = drop c.offset contents in
      let data_split = split (c.buffer ++ chunk) in
      record {
        cursor = some (record c { offset = c.offset + length chunk; buffer = data_split.last });
        events = returned (parse_lines service data_split.lines);
      }

  -- The body of the loop in `collect`.
  unfoldable pub poll_file : (from_end : Bool) → Option FileCursor → Entry → Option Stat → Step
  unfolding located read_on
  poll_file from_end cursor f none = record { cursor = cursor; events = returned [] }
  poll_file from_end cursor f (some s) =
      let c = located from_end cursor s in
      if leb s.st_size c.offset
      then record { cursor = some c; events = returned [] }
      else read_on f.stem c f.contents

  abbrev pub with_events : List TelemetryEvent → Scan → Scan
  with_events es scan = record {
    cursors = scan.cursors;
    events = elim scan.events [ returned more ↦ returned (es ++ more) | raised e ↦ raised e ];
  }

  -- An exception ends the scan; the cursors keep what it has done.
  abbrev pub scan_on : Outcome (List TelemetryEvent) → Cursors → Scan → Scan
  scan_on (raised e) cursors rest = record { cursors = cursors; events = raised e }
  scan_on (returned es) cursors rest = with_events es rest

  unfoldable pub collect : (from_end : Bool) → List Entry → Cursors → Scan
  unfolding poll_file set_cursor
  collect from_end [] cursors = record { cursors = cursors; events = returned [] }
  collect from_end (f ∷ fs) cursors =
      let step = poll_file from_end (cursors f.path) f f.stat in
      let next = set_cursor f.path step.cursor cursors in
      let rest = collect from_end fs next in scan_on step.events next rest

  -- The scans of a reader, whose queue is extended by the events of each.
  unfoldable pub tail : (from_end : Bool) → List (List Entry) → Cursors → Scan
  unfolding collect
  tail from_end [] cursors = record { cursors = cursors; events = returned [] }
  tail from_end (scan ∷ scans) cursors =
      let first = collect from_end scan cursors in
      let rest = tail from_end scans first.cursors in scan_on first.events first.cursors rest
