-- ===== src/Collector/Harvester.antt =====
-- internal/collector/log_harvester.go: the harvester's settings and the files that it tails.
pub mod Syslog
pub mod Levels
pub mod Format
pub mod Targets
pub mod LastLines
pub mod Tail
mod Tests
use sugi.Base.{ℕ, ◌*◌, Bool, true, false, List, [], ◌∷◌, ◌++◌, if◌then◌else◌}
use sugi.Base.Int.{ℤ, pos, le_zero}
use sugi.Base.Text.{Text, codes, is_empty, trim_space}
use sugi.Base.Dict.{insert}
use sugi.Model.Time.{Duration, second}
use sugi.Collector.Rates.{keys}

abbrev pub default_syslog_candidates : List Text
default_syslog_candidates =
    codes "/var/log/syslog" ∷ codes "/var/log/auth.log" ∷ codes "/var/log/messages" ∷ []

pub record LogHarvesterConfig : Type 0 where
  pub auto_syslog : Bool
  pub watch_paths : List Text
  pub tail_lines : ℤ
  pub poll_interval : Duration
  pub max_rate : ℤ

abbrev pub default_harvester_config : LogHarvesterConfig
default_harvester_config = record {
  auto_syslog = true;
  watch_paths = [];
  tail_lines = pos 50;
  poll_interval = pos (1 * second);
  max_rate = pos 500;
}

-- How `NewLogHarvester` replaces each setting that is not positive.
unfoldable pub new_harvester_config : LogHarvesterConfig → LogHarvesterConfig
new_harvester_config cfg = record cfg {
  tail_lines = if le_zero cfg.tail_lines then pos 50 else cfg.tail_lines;
  poll_interval = if le_zero cfg.poll_interval then pos (1 * second) else cfg.poll_interval;
  max_rate = if le_zero cfg.max_rate then pos 500 else cfg.max_rate;
}

-- `LogHarvester`, with the files whose tailers have been started.
pub record LogHarvester : Type 0 where
  pub cfg : LogHarvesterConfig
  pub active : List Text

unfoldable pub new_log_harvester : LogHarvesterConfig → LogHarvester
unfolding new_harvester_config
new_log_harvester cfg = record { cfg = new_harvester_config cfg; active = [] }

-- The set `targets` of `Start`.
abbrev pub Targets : Type 0
Targets = List (Text × Unit {0})

unfoldable pub add_watch_paths : List Text → Targets → Targets
unfolding trim_space insert
add_watch_paths [] targets = targets
add_watch_paths (p ∷ paths) targets =
    let path = trim_space p in
    add_watch_paths paths (if is_empty path then targets else insert path tt targets)

-- `readable` is what `fileIsReadable` finds.
unfoldable pub add_candidates : List Text → (Text → Bool) → Targets → Targets
unfolding insert
add_candidates [] readable targets = targets
add_candidates (path ∷ paths) readable targets =
    add_candidates paths readable (if readable path then insert path tt targets else targets)

unfoldable pub targets_of : LogHarvesterConfig → (Text → Bool) → Targets
unfolding add_watch_paths add_candidates
targets_of cfg readable =
    let watched = add_watch_paths cfg.watch_paths [] in
    if cfg.auto_syslog then add_candidates default_syslog_candidates readable watched else watched

-- `Start`: a tailer is started for every target.
unfoldable pub start : (Text → Bool) → LogHarvester → LogHarvester
unfolding targets_of keys
start readable h = record h { active = h.active ++ keys (targets_of h.cfg readable) }

-- `ActiveFiles` returns a copy.
unfoldable pub active_files : LogHarvester → List Text
active_files h = h.active
