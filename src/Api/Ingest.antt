-- ===== src/Api/Ingest.antt =====
-- `HandleIngestLogs` of internal/api/handler.go with its helpers. The body is what `io.ReadAll`
-- returns of the limited reader, `none` being its error. One time stands for both readings of the
-- clock.
pub mod Outcome
mod Tests
use sugi.Base.{
  ℕ, ◌+◌, Bool, true, false, Option, none, some, List, [], ◌∷◌, if◌then◌else◌, ltb, ◌==◌, ◌||◌,
  ◌&&◌,
}
use sugi.Base.Int.{ℤ, pos}
use sugi.Base.Text.{Text, codes, is_empty, has_prefix, contains, trim_space, to_upper}
use sugi.Model.Time.{Instant, is_zero_time}
use sugi.Model.Log.{LogEntry}
use sugi.Collector.Scan.{Reader, scan_lines}

-- The table of unicode.ToUpper beyond ASCII, and json.Unmarshal to an entry and to a list of
-- entries.
pub record Decoder : Type 0 where
  pub wide_upper : ℕ → ℕ
  pub unmarshal_entry : Text → Option LogEntry
  pub unmarshal_entries : Text → Option (List LogEntry)

-- `detectLogLevel`.
unfoldable pub detect_log_level : Decoder → Text → Text
unfolding to_upper contains
detect_log_level d line =
    let upper = to_upper d.wide_upper line in
    if contains upper (codes "ERROR")
      || contains upper (codes "FATAL")
      || contains upper (codes "CRIT")
    then codes "ERROR"
    else if contains upper (codes "WARN")
    then codes "WARN"
    else if contains upper (codes "DEBUG") || contains upper (codes "TRACE")
    then codes "DEBUG"
    else codes "INFO"

-- The loop of `parseRawTextLogs`.
unfoldable pub raw_entries : Decoder → Instant → Text → List Text → List LogEntry
unfolding detect_log_level trim_space
raw_entries d now service [] = []
raw_entries d now service (l ∷ lines) =
    let line = trim_space l in
    let rest = raw_entries d now service lines in
    if is_empty line
    then rest
    else record {
      id = pos 0;
      timestamp = now;
      level = detect_log_level d line;
      service = service;
      message = line;
      attributes = [];
    }
      ∷ rest

-- `parseRawTextLogs`, which does not look at the error of its scanner.
unfoldable pub parse_raw_text_logs : Decoder → Instant → Text → Text → List LogEntry
unfolding raw_entries scan_lines
parse_raw_text_logs d now text service =
    raw_entries d now service (scan_lines (record { text = text; failed = false })).0

abbrev one_entry : Option LogEntry → Option (List LogEntry)
one_entry none = none
one_entry (some entry) = some (entry ∷ [])

-- `parseJSONLogs`.
unfoldable pub parse_json_logs : Decoder → Text → Option (List LogEntry)
unfolding trim_space has_prefix
parse_json_logs d text =
    let trimmed = trim_space text in
    if has_prefix trimmed (codes "[")
    then d.unmarshal_entries trimmed
    else one_entry (d.unmarshal_entry trimmed)

-- The fields of an entry that the loop fills in.
unfoldable pub fill_entry : Instant → LogEntry → LogEntry
fill_entry now entry = record entry {
  timestamp = if is_zero_time entry.timestamp then now else entry.timestamp;
  level = if is_empty entry.level then codes "INFO" else entry.level;
  service = if is_empty entry.service then codes "default" else entry.service;
}

-- What the handler calls: `Enqueue` of the log writer and `BroadcastLog` of the hub, on a state
-- that other goroutines may change in between.
pub record Sink : Type 1 where
  pub State : Type 0
  pub enqueue : LogEntry → State → Bool × State
  pub broadcast_log : LogEntry → State → State

-- The response: a status with an error text, or with the two counts.
pub data Reply : Type 0 where
  refused : ℕ → Reply
  counted : ℕ → ℕ → ℕ → Reply

pub record Request : Type 0 where
  pub body : Option Text
  pub content_type : Text
  pub service_query : Text
  pub service_header : Text

module _ (k : Sink) where
  open k use {State}

  -- One round of the loop, with the counts `accepted` and `dropped`.
  unfoldable pub ingest_entry : Instant → LogEntry → ℕ × ℕ × State → ℕ × ℕ × State
  unfolding fill_entry
  ingest_entry now entry (accepted, dropped, s) =
      let filled = fill_entry now entry in
      let (taken, s') = k.enqueue filled s in
      if taken
      then (accepted + 1, dropped, k.broadcast_log filled s')
      else (accepted, dropped + 1, s')

  unfoldable pub ingest_entries : List LogEntry → Instant → ℕ × ℕ × State → ℕ × ℕ × State
  unfolding ingest_entry
  ingest_entries [] now counts = counts
  ingest_entries (entry ∷ entries) now counts =
      ingest_entries entries now (ingest_entry now entry counts)

  -- The end of the handler, behind the parse.
  unfoldable pub ingest : List LogEntry → Instant → State → Reply × State
  unfolding ingest_entries
  ingest entries now s =
      let (accepted, dropped, s') = ingest_entries entries now (0, 0, s) in
      if (accepted == 0) && ltb 0 dropped
      then (Reply.counted 429 0 dropped, s')
      else (Reply.counted 202 accepted dropped, s')

  unfoldable pub ingest_parsed : Option (List LogEntry) → Instant → State → Reply × State
  unfolding ingest
  ingest_parsed none now s = (Reply.refused 400, s)
  ingest_parsed (some entries) now s = ingest entries now s

  abbrev service_of : Request → Text
  service_of r =
      if is_empty r.service_query
      then (if is_empty r.service_header then codes "default" else r.service_header)
      else r.service_query

  unfoldable pub ingest_body : Decoder → Request → Text → Instant → State → Reply × State
  unfolding ingest_parsed parse_json_logs parse_raw_text_logs trim_space contains has_prefix
  ingest_body d r body now s =
      let trimmed = trim_space body in
      if is_empty trimmed
      then (Reply.refused 400, s)
      else if contains r.content_type (codes "application/json")
          || has_prefix trimmed (codes "{")
          || has_prefix trimmed (codes "[")
      then ingest_parsed (parse_json_logs d body) now s
      else ingest (parse_raw_text_logs d now body (service_of r)) now s

  -- `HandleIngestLogs`; the Boolean says whether there is a log writer.
  unfoldable pub handle_ingest_logs : Bool → Decoder → Request → Instant → State → Reply × State
  unfolding ingest_body
  handle_ingest_logs configured d r now s =
      if configured
      then elim r.body [ none ↦ (Reply.refused 400, s) | some body ↦ ingest_body d r body now s ]
      else (Reply.refused 503, s)
