-- ===== src/Collector/Harvester/Format.antt =====
-- Lines that `ParseSyslogLine` of internal/collector/log_harvester.go reads back, and lines that it
-- leaves as they are.
use sugi.Base.{
  ◌≡◌, refl, ap, ◌∙◌, true, none, some, List, [], ◌∷◌, ◌++◌, length, All, Bool-cases, inl, inr,
  arith, ◌<◌,
}
use sugi.Base.Int.{pos}
use sugi.Base.Text.{Text, codes, text_eq, is_empty, trim_space, fields}
use sugi.Base.Words.{IsWord, join_words, fields-trim_space, fields-join_words}
use sugi.Base.Cuts.{Lacks, cut_at-append, cut_at-none}
use sugi.Base.Dict.{insert}
use sugi.Model.Time.{Instant}
use sugi.Model.Log.{LogEntry}
use sugi.Collector.Harvester.Syslog.{
  SyslogClock, parse_syslog_line, parse_parts, parse_timestamp, with_timestamp, line_body, tag,
  trim_colon, infer_level, adjust_year, plain_entry,
}

fields-nil : (s : Text) → is_empty s ≡ true → fields s ≡ []
unfolding fields
fields-nil [] h = refl
fields-nil (c ∷ s) h = cc

module _ (clock : SyslogClock) (now : Instant) (path : Text) where
  parse_three :
      (line : Text) (a b c : Text) (rest : List Text)
      → fields line ≡ a ∷ b ∷ c ∷ rest
      → parse_syslog_line clock now line path
        ≡ parse_parts clock now (a ∷ b ∷ c ∷ rest) (plain_entry now (trim_space line) path)
  unfolding parse_syslog_line
  parse_three line a b c rest e =
      let parts : fields (trim_space line) ≡ a ∷ b ∷ c ∷ rest = fields-trim_space line ∙ e in
      elim (Bool-cases (is_empty (trim_space line))) [
        | inl blank ↦ let k = fields-nil (trim_space line) blank in cc
        | inr text ↦ rw (text, parts) (ground arith)
      ]

  -- A line of fewer than three words keeps the level INFO and becomes the message as it is,
  -- whatever it says.
  pub parse_syslog_line-short :
      (line : Text)
      → length (fields line) < 3
      → parse_syslog_line clock now line path ≡ plain_entry now (trim_space line) path
  unfolding parse_syslog_line
  parse_syslog_line-short line h = rw (fields-trim_space line) (ground arith)

trim_colon-append : (s : Text) → trim_colon (s ++ codes ":") ≡ s
unfolding trim_colon
trim_colon-append [] = refl
trim_colon-append (c ∷ []) = refl
trim_colon-append (c ∷ d ∷ s) = ap (λ t. c ∷ t) (trim_colon-append (d ∷ s))

-- `service[pid]`.
abbrev pub with_brackets : Text → Text → Text
with_brackets service pid = service ++ (b'[' ∷ (pid ++ codes "]"))

tag-with_brackets :
    (service pid : Text) (attributes : List (Text × Text))
    → Lacks b'[' service
    → Lacks b']' service
    → Lacks b']' pid
    → tag (with_brackets service pid) attributes ≡ (service, insert (codes "pid") pid attributes)
unfolding tag
tag-with_brackets service pid attributes h k p =
    rw
      (
        cut_at-append b'[' service (pid ++ codes "]") h,
        cut_at-none b']' service k,
        cut_at-append b']' pid [] p,
      )
      refl

-- A line in the format of RFC 3164.
abbrev pub rfc3164_line : Text → Text → Text → Text → Text → Text → List Text → Text
rfc3164_line month day time hostname service pid message =
    join_words (month ∷ day ∷ time ∷ hostname ∷ (with_brackets service pid ++ codes ":") ∷ message)

module _ (clock : SyslogClock) (now : Instant) where
  -- A line whose timestamp is parsed, with what its rest makes of the entry.
  parse_stamped :
      (month day time : Text) (rest : List Text) (entry : LogEntry) {t : Instant}
      {parsed : LogEntry}
      → parse_timestamp clock now (month ∷ day ∷ time ∷ rest) ≡ some (t, 3)
      → line_body rest (record entry { timestamp = t }) ≡ parsed
      → parse_parts clock now (month ∷ day ∷ time ∷ rest) entry
        ≡ record parsed { level = infer_level clock parsed.message }
  unfolding parse_parts with_timestamp
  parse_stamped month day time rest entry e b =
      ap (λ (x : LogEntry). record x { level = infer_level clock x.message })
        (ap (λ s. with_timestamp s (month ∷ day ∷ time ∷ rest) entry) e ∙ b)

  stamped :
      (month day time : Text) (rest : List Text) (t : Instant)
      → clock.parse_rfc3339_nano month ≡ none
      → clock.parse_rfc3339 month ≡ none
      → clock.parse_stamp (clock.year ++ (32 ∷ (month ++ (32 ∷ (day ++ (32 ∷ time)))))) ≡ some t
      → parse_timestamp clock now (month ∷ day ∷ time ∷ rest) ≡ some (adjust_year clock now t, 3)
  unfolding parse_timestamp
  stamped month day time rest t nano plain date = rw (nano, plain, date) refl

tagged_body :
    (hostname service pid : Text) (message : List Text) (entry : LogEntry)
    → Lacks b'[' service
    → Lacks b']' service
    → Lacks b']' pid
    → line_body (hostname ∷ (with_brackets service pid ++ codes ":") ∷ message) entry
      ≡ record entry {
        service = service;
        attributes = insert (codes "pid") pid (insert (codes "hostname") hostname entry.attributes);
        message = join_words message;
      }
unfolding line_body
tagged_body hostname service pid message entry h k p =
    rw
      (
        trim_colon-append (with_brackets service pid),
        tag-with_brackets service pid (insert (codes "hostname") hostname entry.attributes) h k p,
      )
      refl

module _ (clock : SyslogClock) (now : Instant) (path : Text) where
  -- A line `month day time hostname service[pid]: message`, of words that are separated by single
  -- spaces, gives back its parts, where package time parses the date as `t` with the current year
  -- in front of it and does not parse the month as a date of its own.
  pub parse_syslog_line-rfc3164_line :
      (month day time hostname service pid : Text) (message : List Text) (t : Instant)
      → All IsWord
          (month ∷ day ∷ time ∷ hostname ∷ (with_brackets service pid ++ codes ":") ∷ message)
      → Lacks b'[' service
      → Lacks b']' service
      → Lacks b']' pid
      → clock.parse_rfc3339_nano month ≡ none
      → clock.parse_rfc3339 month ≡ none
      → clock.parse_stamp (clock.year ++ (32 ∷ (month ++ (32 ∷ (day ++ (32 ∷ time)))))) ≡ some t
      → parse_syslog_line clock now (rfc3164_line month day time hostname service pid message) path
        ≡ record {
          id = pos 0;
          timestamp = adjust_year clock now t;
          level = infer_level clock (join_words message);
          service = service;
          message = join_words message;
          attributes =
              (codes "source", path) ∷ (codes "hostname", hostname) ∷ (codes "pid", pid) ∷ [];
        }
  unfolding insert text_eq
  parse_syslog_line-rfc3164_line month day time hostname service pid message t words h k p nano
        plain date =
      let line = rfc3164_line month day time hostname service pid message in
      let body = hostname ∷ (with_brackets service pid ++ codes ":") ∷ message in
      parse_three clock now path line month day time body (fields-join_words _ words)
      ∙ parse_stamped clock now month day time body (plain_entry now (trim_space line) path)
          (stamped clock now month day time body t nano plain date)
          (tagged_body hostname service pid message _ h k p)
