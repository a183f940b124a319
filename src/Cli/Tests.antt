-- ===== src/Cli/Tests.antt =====
-- Retentions from the command line.
use sugi.Base.{◌*◌, ◌≡◌, refl, arith, Option, none, true, All}
use sugi.Base.Int.{pos}
use sugi.Base.Text.{Text, codes, is_space}
use sugi.Model.Time.{Duration}
use sugi.Server.{week, default_server_config, with_server_defaults}
use sugi.Cli.{is_digit, parse_retention, default_flags, command_of, serve}
use sugi.Cli.Retention.{day, parse_retention-week}

-- A package time that parses nothing.
abbrev no_durations : Text → Option Duration
no_durations s = none

month_digits : All (λ d. is_digit d ≡ true) (codes "30")
unfolding is_digit
month_digits = (refl, (refl, tt))

long_digits : All (λ d. is_digit d ≡ true) (codes "110000")
unfolding is_digit
long_digits = (refl, (refl, (refl, (refl, (refl, (refl, tt))))))

parse_retention-week_example :
    (with_server_defaults (record default_server_config {
      retention = parse_retention no_durations (codes "110000d");
    })).retention
    ≡ week
parse_retention-week_example =
    parse_retention-week no_durations default_server_config b'1' (codes "10000") long_digits
      (omega arith) (omega arith)

trailing_text : parse_retention no_durations (codes "2days and") ≡ pos (2 * day)
unfolding parse_retention is_space
trailing_text = refl

second_number : parse_retention no_durations (codes " +2d5d") ≡ pos (2 * day)
unfolding parse_retention is_space
second_number = refl

-- Without flags, the server gets its own defaults and a directory for backups.
no_flags :
    command_of no_durations default_flags
    ≡ serve (record default_server_config { backup_dir = codes "backups" })
unfolding command_of parse_retention is_space
no_flags = refl
