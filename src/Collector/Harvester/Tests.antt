-- ===== src/Collector/Harvester/Tests.antt =====
-- Log files and lines at concrete inputs.
use sugi.Base.{
  ◌<◌, ◌||◌, ◌≡◌, refl, Bool, true, false, not, ◌&&◌, none, some, List, [], ◌∷◌, ◌++◌,
  if◌then◌else◌, length, take_last, All, inl, arith,
}
use sugi.Base.Int.{pos}
use sugi.Base.Text.{Text, codes, text_eq, is_empty, is_space, fields, trim_space, to_upper}
use sugi.Base.Words.{IsWord, join_words}
use sugi.Base.Cuts.{lacks-Lacks}
use sugi.Model.Time.{Instant}
use sugi.Collector.Harvester.{
  LogHarvesterConfig, default_harvester_config, new_log_harvester, start, active_files,
}
use sugi.Collector.Harvester.Syslog.{
  SyslogClock, parse_syslog_line, adjust_year, infer_level, plain_entry,
}
use sugi.Collector.Harvester.Format.{
  with_brackets, rfc3164_line, parse_syslog_line-rfc3164_line, parse_syslog_line-short,
}
use sugi.Collector.Harvester.Levels.{infer_level-to_upper}
use sugi.Collector.Harvester.LastLines.{read_last_lines, all_lines, read_last_lines-take_last}

abbrev stamp : Instant
stamp = record { sec = pos 1764093600; nsec = 0 }

abbrev clock : SyslogClock
clock = record {
  parse_rfc3339_nano = λ s. none;
  parse_rfc3339 = λ s. none;
  parse_stamp = λ s. if text_eq s (codes "2025 Nov 25 18:00:00") then some stamp else none;
  parse_stamp_padded = λ s. none;
  year_before = λ t. t;
  year = codes "2025";
  wide_lower = λ c. c;
}

abbrev is_plain : Text → Bool
is_plain [] = true
is_plain (c ∷ s) = not (is_space c) && is_plain s

is_plain-All : (s : Text) → is_plain s ≡ true → All (λ c. is_space c ≡ false) s
is_plain-All [] h = tt
is_plain-All (c ∷ s) h = (ground arith, is_plain-All s (ground arith))

abbrev are_words : List Text → Bool
are_words [] = true
are_words (w ∷ ws) = (not (is_empty w) && is_plain w) && are_words ws

are_words-All : (ws : List Text) → are_words ws ≡ true → All IsWord ws
are_words-All [] h = tt
are_words-All (w ∷ ws) h =
    ((ground arith, is_plain-All w (ground arith)), are_words-All ws (ground arith))

abbrev message : List Text
message = codes "login" ∷ codes "failed" ∷ []

abbrev words : List Text
words =
    codes "Nov"
    ∷ codes "25"
    ∷ codes "18:00:00"
    ∷ codes "box"
    ∷ (with_brackets (codes "sshd") (codes "12") ++ codes ":")
    ∷ message

words_plain : are_words words ≡ true
unfolding is_space
words_plain = refl

stamped :
    clock.parse_stamp
      (clock.year ++ (32 ∷ (codes "Nov" ++ (32 ∷ (codes "25" ++ (32 ∷ codes "18:00:00"))))))
    ≡ some stamp
unfolding text_eq
stamped = refl

parse_syslog_line-rfc3164_line_example :
    parse_syslog_line clock stamp
      (rfc3164_line
        (codes "Nov")
        (codes "25")
        (codes "18:00:00")
        (codes "box")
        (codes "sshd")
        (codes "12")
        message)
      (codes "/var/log/syslog")
    ≡ record {
      id = pos 0;
      timestamp = adjust_year clock stamp stamp;
      level = infer_level clock (join_words message);
      service = codes "sshd";
      message = join_words message;
      attributes =
          (codes "source", codes "/var/log/syslog")
          ∷ (codes "hostname", codes "box")
          ∷ (codes "pid", codes "12")
          ∷ [];
    }
parse_syslog_line-rfc3164_line_example =
    parse_syslog_line-rfc3164_line clock stamp (codes "/var/log/syslog") (codes "Nov") (codes "25")
      (codes "18:00:00") (codes "box") (codes "sshd") (codes "12") message stamp
      (are_words-All words words_plain) (lacks-Lacks b'[' (codes "sshd") refl)
      (lacks-Lacks b']' (codes "sshd") refl) (lacks-Lacks b']' (codes "12") refl) refl refl stamped

two_words : length (fields (codes "kernel panic")) < 3
unfolding fields
two_words = omega arith

kernel_panic :
    parse_syslog_line clock stamp (codes "kernel panic") (codes "/var/log/messages")
    ≡ plain_entry stamp (trim_space (codes "kernel panic")) (codes "/var/log/messages")
kernel_panic =
    parse_syslog_line-short clock stamp (codes "/var/log/messages") (codes "kernel panic") two_words

-- The words are an error for `infer_level`, which is not asked.
panic_level : infer_level clock (codes "kernel panic") ≡ codes "ERROR"
unfolding infer_level
panic_level = refl

shouted : infer_level clock (to_upper (λ c. c) (codes "Disk")) ≡ infer_level clock (codes "Disk")
shouted =
    infer_level-to_upper clock (λ c. c) (codes "Disk")
      (omega arith, (omega arith, (omega arith, (omega arith, tt))))

abbrev cfg : LogHarvesterConfig
cfg = record default_harvester_config {
  watch_paths = codes " /srv/app.log" ∷ codes "/var/log/syslog" ∷ codes "" ∷ [];
}

abbrev readable : Text → Bool
readable p = text_eq p (codes "/var/log/syslog") || text_eq p (codes "/var/log/messages")

three_files :
    active_files (start readable (new_log_harvester cfg))
    ≡ codes "/srv/app.log" ∷ codes "/var/log/syslog" ∷ codes "/var/log/messages" ∷ []
unfolding start active_files new_log_harvester text_eq
three_files = refl

abbrev content : Text
content = codes "one\ntwo\nthree"

read_last_lines-take_last_example :
    read_last_lines (some content) (pos 2) ≡ take_last 2 (all_lines content)
read_last_lines-take_last_example =
    read_last_lines-take_last content 2 (omega arith) (inl (omega arith))
