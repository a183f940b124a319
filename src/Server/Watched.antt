-- ===== src/Server/Watched.antt =====
-- The log files that a server tails: `WatchLogs` of internal/server/server.go and `Start` of
-- internal/collector/log_harvester.go together.
use sugi.Base.{
  ◌≡◌, refl, sym, ap, ◌∙◌, Bool, false, ◌||◌, ◌&&◌, List, [], ◌∷◌, Bool-cases, inl, inr, arith,
}
use sugi.Base.Text.{Text, is_empty, trim_left, trim_right, trim_space, split}
use sugi.Server.{Config, trimmed_paths, watch_paths, harvester_config}
use sugi.Collector.Harvester.{new_log_harvester, start, active_files, default_syslog_candidates}
use sugi.Collector.Harvester.Targets.{elem, Distinct, is_watched, is_detected, active_files-start}

trim_left_twice : (s : Text) → trim_left (trim_left s) ≡ trim_left s
unfolding trim_left
trim_left_twice [] = refl
trim_left_twice (c ∷ s) = ground (arith, trim_left_twice s)

trim_right_twice : (s : Text) → trim_right (trim_right s) ≡ trim_right s
unfolding trim_right
trim_right_twice [] = refl
trim_right_twice (c ∷ s) = ground (arith, trim_right_twice s)

trim_right-trim_left : (s : Text) → trim_right (trim_left s) ≡ trim_left (trim_right s)
unfolding trim_left trim_right
trim_right-trim_left [] = refl
trim_right-trim_left (c ∷ s) = ground (arith, trim_right-trim_left s)

trim_space_twice : (s : Text) → trim_space (trim_space s) ≡ trim_space s
unfolding trim_space
trim_space_twice s =
    ap trim_left (trim_right-trim_left (trim_right s))
    ∙ trim_left_twice (trim_right (trim_right s))
    ∙ ap trim_left (trim_right_twice s)

is_watched-trimmed_paths :
    (p : Text) (paths : List Text) → is_watched p (trimmed_paths paths) ≡ is_watched p paths
unfolding trimmed_paths
is_watched-trimmed_paths p [] = refl
is_watched-trimmed_paths p (q ∷ qs) = elim (Bool-cases (is_empty (trim_space q))) [
  | inl blank ↦ rw blank (is_watched-trimmed_paths p qs)
  | inr path ↦ rw (path, trim_space_twice q, path, is_watched-trimmed_paths p qs) refl
]

blank_part : (p : Text) → is_watched p (split b',' []) ≡ false
unfolding split trim_space trim_left trim_right
blank_part p = refl

is_watched-watch_paths :
    (p watch_logs : Text)
    → is_watched p (watch_paths watch_logs) ≡ is_watched p (split b',' watch_logs)
unfolding watch_paths
is_watched-watch_paths p [] = sym (blank_part p)
is_watched-watch_paths p (c ∷ s) = is_watched-trimmed_paths p (split b',' (c ∷ s))

-- A new server tails no file twice, and tails a path if that is a part of `WatchLogs` between
-- commas, trimmed and not blank, or, with `AutoSyslog`, a standard file that can be read.
pub active_files-harvester_config :
    (cfg : Config) (readable : Text → Bool) (p : Text)
    → let active = active_files (start readable (new_log_harvester (harvester_config cfg))) in
      Distinct active
      × (elem p active ≡ (
          is_watched p (split b',' cfg.watch_logs)
          || cfg.auto_syslog && is_detected p default_syslog_candidates readable))
unfolding harvester_config
active_files-harvester_config cfg readable p =
    let (distinct, e) = active_files-start (harvester_config cfg) readable p in
    (
      distinct,
      e
          ∙ ap (λ b. b || cfg.auto_syslog && is_detected p default_syslog_candidates readable)
              (is_watched-watch_paths p cfg.watch_logs),
    )
