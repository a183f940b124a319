-- ===== src/Collector/Harvester/Tail.antt =====
-- `tailFile` of internal/collector/log_harvester.go, for one open file. Its bytes are the code
-- points of an ASCII text.
pub mod Rate
pub mod Reads
pub mod Complete
pub mod Appends
pub mod Torn
pub mod Lines
mod Tests
use sugi.Base.{
  ℕ, ◌+◌, ◌<◌, ◌≡◌, Bool, true, false, Option, none, some, List, [], ◌∷◌, ◌++◌, if◌then◌else◌, ltb,
  leb, ◌==◌, ◌||◌, ◌&&◌, length, take, drop,
}
use sugi.Base.Int.{ℤ}
use sugi.Base.Text.{Text, is_empty, cut_at, trim_space}
use sugi.Collector.Harvester.LastLines.{read_last_lines}

pub record Tailer : Type 0 where
  -- The bytes of the file, and how many the reader has taken from it.
  pub file : Text
  pub pos : ℕ
  -- What the reader has taken and not returned.
  pub buf : Text
  pub offset : ℕ
  pub lines_this_second : ℕ
  -- The lines that went through `ParseSyslogLine` to `onLog`.
  pub logged : List Text
  pub running : Bool

-- `strings.TrimRight(line, "\r\n")`.
unfoldable pub trim_eol : Text → Text
trim_eol [] = []
trim_eol (c ∷ s) = let t = trim_eol s in if (c == 13 || c == 10) && is_empty t then [] else c ∷ t

abbrev pub max_line : ℕ
max_line = 4096

unfoldable pub clip : Text → Text
clip trimmed = if ltb max_line (length trimmed) then take max_line trimmed else trimmed

-- What is done with a line that has been read.
unfoldable pub log_line : Text → List Text → List Text
unfolding trim_eol clip
log_line line logged =
    let clipped = clip (trim_eol line) in
    if is_empty clipped then logged else logged ++ clipped ∷ []

-- The result of `reader.ReadString('\n')`: a line, with what is buffered behind it and the number
-- of bytes taken from the file, or the end of the file.
pub data Read : Type 0 where
  line : Text → Text → ℕ → Read
  eof : ℕ → Read

abbrev read_file : ℕ → Text → Text → Option (Text × Text) → Read
read_file ahead buf rest none = eof (length rest)
read_file ahead buf rest (some (before, after)) =
    line (buf ++ (before ++ 10 ∷ [])) (take ahead after)
      (length before + 1 + length (take ahead after))

abbrev read_buf : ℕ → Text → Text → Option (Text × Text) → Read
read_buf ahead buf rest none = read_file ahead buf rest (cut_at 10 rest)
read_buf ahead buf rest (some (before, after)) = line (before ++ 10 ∷ []) after 0

-- The reader looks into its buffer, and then into the `rest` of the file. A read may take up to
-- `ahead` bytes more than the line. At the end of the file, what it has taken is returned beside
-- the error.
unfoldable pub read_string : ℕ → Text → Text → Read
unfolding cut_at
read_string ahead buf rest = read_buf ahead buf rest (cut_at 10 buf)

-- Behind a successful read.
unfoldable pub on_line : Text → Text → ℕ → Tailer → Tailer
unfolding log_line
on_line l buf taken t = record t {
  buf = buf;
  pos = t.pos + taken;
  offset = t.offset + length l;
  lines_this_second = t.lines_this_second + 1;
  logged = log_line l t.logged;
}

-- At the end of the file: the part of a line that was read is dropped, and a file that is shorter
-- than `offset` is read again from its start.
unfoldable pub on_eof : ℕ → Tailer → Tailer
on_eof taken t =
    if ltb (length t.file) t.offset
    then record t { buf = []; pos = 0; offset = 0 }
    else record t { buf = []; pos = t.pos + taken }

abbrev on_read : Read → Tailer → Tailer
on_read (line l buf taken) t = on_line l buf taken t
on_read (eof taken) t = on_eof taken t

-- One round of the loop behind its first `select`.
unfoldable pub poll : ℕ → ℕ → Tailer → Tailer
unfolding read_string on_line on_eof
poll max_rate ahead t =
    if leb max_rate t.lines_this_second
    then t
    else on_read (read_string ahead t.buf (drop t.pos t.file)) t

unfoldable pub tick : Tailer → Tailer
tick t = record t { lines_this_second = 0 }

-- Another process appends to the file.
unfoldable pub written : Text → Tailer → Tailer
written bytes t = record t { file = t.file ++ bytes }

-- The lines that are logged before the loop.
unfoldable pub log_initial : List Text → List Text
unfolding trim_space
log_initial [] = []
log_initial (l ∷ lines) =
    if is_empty (trim_space l) then log_initial lines else l ∷ log_initial lines

-- The state before the loop, for the content that `readLastLines` sees and what has been appended
-- to it when `Seek` looks for the end.
unfoldable pub open_tail : Text → Text → ℤ → Tailer
unfolding log_initial read_last_lines
open_tail content more tail_lines = record {
  file = content ++ more;
  pos = length (content ++ more);
  buf = [];
  offset = length (content ++ more);
  lines_this_second = 0;
  logged = log_initial (read_last_lines (some content) tail_lines);
  running = true;
}

-- One action on the file or the tailer. A read error drops what is buffered, and may have taken
-- some bytes before it.
pub data Step (max_rate : ℕ) (t : Tailer) : Tailer → Type 0 where
  writes : (bytes : Text) → Step max_rate t (written bytes t)
  truncates : (n : ℕ) → Step max_rate t (record t { file = take n t.file })
  ticks : t.running ≡ true → Step max_rate t (tick t)
  polls : (ahead : ℕ) → t.running ≡ true → Step max_rate t (poll max_rate ahead t)
  fails :
      (taken : ℕ) → t.running ≡ true → Step max_rate t (record t { buf = []; pos = t.pos + taken })
  stops : Step max_rate t (record t { running = false })

pub data Run (max_rate : ℕ) (t : Tailer) : Tailer → Type 0 where
  here : Run max_rate t t
  next : {u v : Tailer} → Run max_rate t u → Step max_rate u v → Run max_rate t v
