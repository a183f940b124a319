-- ===== src/Collector/Harvester/Syslog.antt =====
-- `ParseSyslogLine` of internal/collector/log_harvester.go.
use sugi.Base.{
  ℕ, ◌*◌, Bool, true, false, Option, none, some, List, [], ◌∷◌, ◌++◌, if◌then◌else◌, ltb, ◌==◌,
  ◌||◌, length, drop, get_or,
}
use sugi.Base.Int.{pos}
use sugi.Base.Text.{Text, codes, is_empty, contains, trim_space, fields, cut_at, to_lower}
use sugi.Base.Words.{join_words}
use sugi.Base.Dict.{insert}
use sugi.Model.Time.{Instant, hour, time_after, time_add}
use sugi.Model.Log.{LogEntry}

-- The parser of package time at the layouts in use, `t.AddDate(-1, 0, 0)`, the current year as
-- `Format("2006")` writes it, and the table of unicode.ToLower beyond ASCII.
pub record SyslogClock : Type 0 where
  pub parse_rfc3339_nano : Text → Option Instant
  pub parse_rfc3339 : Text → Option Instant
  -- "2006 Jan 2 15:04:05" and "2006 Jan _2 15:04:05".
  pub parse_stamp : Text → Option Instant
  pub parse_stamp_padded : Text → Option Instant
  pub year_before : Instant → Instant
  pub year : Text
  pub wide_lower : ℕ → ℕ

abbrev contains_any : Text → List Text → Bool
contains_any s [] = false
contains_any s (w ∷ ws) = contains s w || contains_any s ws

abbrev pub error_words : List Text
error_words =
    codes "fail"
    ∷ codes "fatal"
    ∷ codes "error"
    ∷ codes "panic"
    ∷ codes "segfault"
    ∷ codes "critical"
    ∷ codes "alert"
    ∷ codes "emerg"
    ∷ []

abbrev pub warn_words : List Text
warn_words =
    codes "warn"
    ∷ codes "warning"
    ∷ codes "denied"
    ∷ codes "reject"
    ∷ codes "timeout"
    ∷ codes "retry"
    ∷ []

-- The third part of `ParseSyslogLine`.
unfoldable pub infer_level : SyslogClock → Text → Text
unfolding to_lower contains
infer_level clock message =
    let lower_msg = to_lower clock.wide_lower message in
    if contains_any lower_msg error_words
    then codes "ERROR"
    else if contains_any lower_msg warn_words
    then codes "WARN"
    else if contains lower_msg (codes "debug") || contains lower_msg (codes "trace")
    then codes "DEBUG"
    else codes "INFO"

-- A date that would lie in the future is one of the year before.
unfoldable pub adjust_year : SyslogClock → Instant → Instant → Instant
unfolding time_after time_add
adjust_year clock now t =
    if time_after t (time_add now (pos (24 * hour))) then clock.year_before t else t

abbrev stamp : SyslogClock → Instant → Option Instant → Option Instant → Option (Instant × ℕ)
stamp clock now (some t) second = some (adjust_year clock now t, 3)
stamp clock now none (some t) = some (adjust_year clock now t, 3)
stamp clock now none none = none

abbrev iso_or : Option Instant → Option Instant → Option (Instant × ℕ) → Option (Instant × ℕ)
iso_or (some t) second rest = some (t, 1)
iso_or none (some t) rest = some (t, 1)
iso_or none none rest = rest

-- The timestamp of a line with at least three parts, and `msgIndex` behind it.
unfoldable pub parse_timestamp : SyslogClock → Instant → List Text → Option (Instant × ℕ)
unfolding adjust_year
parse_timestamp clock now parts =
    let first = get_or parts 0 [] in
    let time_str =
      clock.year ++ (32 ∷ (first ++ (32 ∷ (get_or parts 1 [] ++ (32 ∷ get_or parts 2 []))))) in
    iso_or (clock.parse_rfc3339_nano first) (clock.parse_rfc3339 first)
      (stamp clock now (clock.parse_stamp time_str) (clock.parse_stamp_padded time_str))

-- `strings.TrimSuffix(s, ":")`.
unfoldable pub trim_colon : Text → Text
trim_colon [] = []
trim_colon (c ∷ []) = if c == b':' then [] else c ∷ []
trim_colon (c ∷ d ∷ s) = c ∷ trim_colon (d ∷ s)

abbrev with_pid : Option (Text × Text) → List (Text × Text) → List (Text × Text)
with_pid none attributes = attributes
with_pid (some (pid, rest)) attributes = insert (codes "pid") pid attributes

abbrev is_none : Option (Text × Text) → Bool
is_none none = true
is_none (some p) = false

abbrev tag_cut : Text → Option (Text × Text) → List (Text × Text) → Text × List (Text × Text)
tag_cut token none attributes = (token, attributes)
tag_cut token (some (before, after)) attributes = (
  before,
  if is_none (cut_at b']' before) then with_pid (cut_at b']' after) attributes else attributes,
)

-- The service token, without its colon: the service, and the attributes with the PID where a
-- closing bracket comes first behind the opening one.
unfoldable pub tag : Text → List (Text × Text) → Text × List (Text × Text)
unfolding cut_at insert
tag token attributes = tag_cut token (cut_at b'[' token) attributes

-- The part of a line behind its timestamp: the hostname, the service and the message.
unfoldable pub line_body : List Text → LogEntry → LogEntry
unfolding tag trim_colon join_words insert
line_body [] entry = entry
line_body (hostname ∷ []) entry = record entry {
  attributes = insert (codes "hostname") hostname entry.attributes;
  message = [];
}
line_body (hostname ∷ token ∷ rest) entry =
    let (service, attributes) =
      tag (trim_colon token) (insert (codes "hostname") hostname entry.attributes) in
    record entry { service = service; attributes = attributes; message = join_words rest }

unfoldable pub with_timestamp : Option (Instant × ℕ) → List Text → LogEntry → LogEntry
unfolding line_body
with_timestamp none parts entry = entry
with_timestamp (some (t, msg_index)) parts entry =
    line_body (drop msg_index parts) (record entry { timestamp = t })

abbrev pub plain_entry : Instant → Text → Text → LogEntry
plain_entry now raw source_path = record {
  id = pos 0;
  timestamp = now;
  level = codes "INFO";
  service = codes "syslog";
  message = raw;
  attributes = (codes "source", source_path) ∷ [];
}

-- `ParseSyslogLine` behind the tests on the trimmed line.
unfoldable pub parse_parts : SyslogClock → Instant → List Text → LogEntry → LogEntry
unfolding parse_timestamp with_timestamp infer_level
parse_parts clock now parts entry =
    let parsed = with_timestamp (parse_timestamp clock now parts) parts entry in
    record parsed { level = infer_level clock parsed.message }

-- `ParseSyslogLine` at the time `now`.
unfoldable pub parse_syslog_line : SyslogClock → Instant → Text → Text → LogEntry
unfolding parse_parts trim_space fields
parse_syslog_line clock now line source_path =
    let raw = trim_space line in
    let parts = fields raw in
    let entry = plain_entry now raw source_path in
    if is_empty raw
    then entry
    else if ltb (length parts) 3
    then entry
    else parse_parts clock now parts entry
