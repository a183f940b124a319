-- ===== src/Cli.antt =====
-- cmd/sugi/main.go: the flags, what they ask for, and the retention that they give.
pub mod Retention
mod Tests
use sugi.Base.{
  ℕ, ◌-◌, ◌*◌, ◌%◌, ◌^◌, Bool, true, false, not, Option, none, some, List, [], ◌∷◌, ◌++◌,
  if◌then◌else◌, ltb, leb, ◌==◌, ◌||◌, ◌&&◌, length,
}
use sugi.Base.Int.{ℤ, pos, negsuc}
use sugi.Base.Text.{Text, codes, is_empty, is_space}
use sugi.Model.Time.{Duration, hour, second}
use sugi.Collector.Scan.{Parsed, parsed, syntax, out_of_range, atoi}
use sugi.Server.{Config, week}

-- `s[len(s)-1] == 'd'`.
unfoldable pub ends_in_d : Text → Bool
ends_in_d [] = false
ends_in_d (c ∷ []) = c == b'd'
ends_in_d (c ∷ d ∷ s) = ends_in_d (d ∷ s)

-- What package fmt does for the verb of `fmt.Sscanf(s, "%dd", &days)`: it skips spaces, but no end
-- of a line, takes a sign and digits, and hands them to strconv.
unfoldable pub skip_spaces : Text → Option Text
skip_spaces [] = some []
skip_spaces (c ∷ s) =
    let rest = skip_spaces s in if c == 10 then none else if is_space c then rest else some (c ∷ s)

unfoldable pub is_digit : ℕ → Bool
is_digit c = leb b'0' c && leb c b'9'

abbrev cons_first : ℕ → Text × Text → Text × Text
cons_first c (ds, s) = (c ∷ ds, s)

unfoldable pub take_digits : Text → Text × Text
unfolding is_digit
take_digits [] = ([], [])
take_digits (c ∷ s) =
    let rest = take_digits s in if is_digit c then cons_first c rest else ([], c ∷ s)

abbrev pub take_sign : Text → Text × Text
take_sign [] = ([], [])
take_sign (c ∷ s) = if c == b'+' || c == b'-' then (c ∷ [], s) else ([], c ∷ s)

-- Behind the number, the format has a `d`. What follows in `s` is not looked at.
abbrev pub days_before : Parsed ℤ → Text → Option ℤ
days_before (parsed n) (c ∷ s) = if c == b'd' then some n else none
days_before (parsed n) [] = none
days_before syntax s = none
days_before (out_of_range n) s = none

abbrev pub scan_number : Option Text → Option ℤ
scan_number none = none
scan_number (some s) =
    let (sign, unsigned) = take_sign s in
    let (digits, rest) = take_digits unsigned in
    if is_empty digits then none else days_before (atoi (sign ++ digits)) rest

unfoldable pub scan_days : Text → Option ℤ
unfolding skip_spaces take_digits atoi
scan_days s = scan_number (skip_spaces s)

-- A product of 64-bit integers that are not negative wraps around.
unfoldable pub wrap_int64 : ℕ → ℤ
wrap_int64 n = let m = n % 2 ^ 64 in if ltb m (2 ^ 63) then pos m else negsuc (2 ^ 64 - 1 - m)

abbrev pub or_week : Option Duration → Duration
or_week none = week
or_week (some d) = d

-- `days > 0`, or else what `time.ParseDuration` makes of the text.
abbrev pub days_or : Option ℤ → Option Duration → Duration
days_or (some (pos n)) other = if n == 0 then or_week other else wrap_int64 (n * (24 * hour))
days_or (some (negsuc n)) other = or_week other
days_or none other = or_week other

-- `parseRetention`; `parse_duration` is time.ParseDuration.
unfoldable pub parse_retention : (Text → Option Duration) → Text → Duration
unfolding ends_in_d scan_days wrap_int64
parse_retention parse_duration [] = week
parse_retention parse_duration (c ∷ s) =
    if ltb 1 (length (c ∷ s)) && ends_in_d (c ∷ s)
    then days_or (scan_days (c ∷ s)) (parse_duration (c ∷ s))
    else or_week (parse_duration (c ∷ s))

abbrev pub version : Text
version = codes "0.2.0"

pub record Flags : Type 0 where
  pub port : ℤ
  pub db : Text
  pub retention : Text
  pub interval : Duration
  pub backup_dir : Text
  pub backup_interval : Duration
  pub backup_to : Text
  pub restore_from : Text
  pub auto_syslog : Bool
  pub watch_logs : Text
  pub show_version : Bool

abbrev pub default_flags : Flags
default_flags = record {
  port = pos 8080;
  db = codes "sugi.db";
  retention = codes "7d";
  interval = pos (1 * second);
  backup_dir = codes "backups";
  backup_interval = pos 0;
  backup_to = [];
  restore_from = [];
  auto_syslog = true;
  watch_logs = [];
  show_version = false;
}

-- What `main` does with the flags: it prints its version, restores one file to another, takes a
-- backup of one file in another, or serves.
pub data Command : Type 0 where
  print_version : Command
  restore : Text → Text → Command
  backup : Text → Text → Command
  serve : Config → Command

unfoldable pub server_config : (Text → Option Duration) → Flags → Config
unfolding parse_retention
server_config parse_duration f = record {
  port = f.port;
  db_path = f.db;
  retention = parse_retention parse_duration f.retention;
  sample_interval = f.interval;
  backup_interval = f.backup_interval;
  backup_dir = f.backup_dir;
  version = version;
  auto_syslog = f.auto_syslog;
  watch_logs = f.watch_logs;
}

unfoldable pub command_of : (Text → Option Duration) → Flags → Command
unfolding server_config
command_of parse_duration f =
    if f.show_version
    then print_version
    else if not (is_empty f.restore_from)
    then restore f.restore_from f.db
    else if not (is_empty f.backup_to)
    then backup f.db f.backup_to
    else serve (server_config parse_duration f)
