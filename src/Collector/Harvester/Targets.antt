-- ===== src/Collector/Harvester/Targets.antt =====
-- The files that `Start` of internal/collector/log_harvester.go tails.
use sugi.Base.{
  ◌≡◌, refl, ap, ◌∙◌, Bool, false, ◌||◌, ◌&&◌, not, List, [], ◌∷◌, Bool-cases, inl, inr, arith,
}
use sugi.Base.Text.{Text, is_empty, text_eq, text_eq_iff, trim_space}
use sugi.Base.Dict.{insert}
use sugi.Collector.Rates.{keys}
use sugi.Collector.Harvester.{
  LogHarvesterConfig, Targets, default_syslog_candidates, add_watch_paths, add_candidates,
  targets_of, new_harvester_config, new_log_harvester, start, active_files,
}

-- Whether a path is among those given.
abbrev pub elem : Text → List Text → Bool
elem p [] = false
elem p (q ∷ qs) = text_eq q p || elem p qs

-- No path comes twice.
abbrev pub Distinct : List Text → Type 0
Distinct [] = Unit
Distinct (p ∷ ps) = (elem p ps ≡ false) × Distinct ps

elem-keys-insert :
    (p k : Text) (m : Targets) → elem p (keys (insert k tt m)) ≡ (text_eq k p || elem p (keys m))
unfolding keys insert
elem-keys-insert p k [] = refl
elem-keys-insert p k ((j, v) ∷ m) =
    ground (arith, text_eq_iff j k, text_eq_iff j p, text_eq_iff k p, elem-keys-insert p k m)

insert-Distinct : (k : Text) (m : Targets) → Distinct (keys m) → Distinct (keys (insert k tt m))
unfolding keys insert
insert-Distinct k [] h = (refl, tt)
insert-Distinct k ((j, v) ∷ m) h =
    ground (arith, text_eq_iff j k, text_eq_iff k j, insert-Distinct k m, elem-keys-insert j k m)

-- The paths that are asked for: those of the settings, trimmed and not blank.
abbrev pub is_watched : Text → List Text → Bool
is_watched p [] = false
is_watched p (q ∷ qs) = not (is_empty (trim_space q)) && text_eq (trim_space q) p || is_watched p qs

-- The candidates that can be read.
abbrev pub is_detected : Text → (List Text) → (Text → Bool) → Bool
is_detected p [] readable = false
is_detected p (q ∷ qs) readable = readable q && text_eq q p || is_detected p qs readable

elem-add_watch_paths :
    (p : Text) (paths : List Text) (m : Targets)
    → elem p (keys (add_watch_paths paths m)) ≡ (is_watched p paths || elem p (keys m))
unfolding add_watch_paths
elem-add_watch_paths p [] m = refl
elem-add_watch_paths p (q ∷ qs) m = ground (
  arith,
  elem-add_watch_paths p qs m,
  elem-add_watch_paths p qs (insert (trim_space q) tt m),
  elem-keys-insert p (trim_space q) m,
)

elem-add_candidates :
    (p : Text) (paths : List Text) (readable : Text → Bool) (m : Targets)
    → elem p (keys (add_candidates paths readable m))
      ≡ (is_detected p paths readable || elem p (keys m))
unfolding add_candidates
elem-add_candidates p [] readable m = refl
elem-add_candidates p (q ∷ qs) readable m = ground (
  arith,
  elem-add_candidates p qs readable m,
  elem-add_candidates p qs readable (insert q tt m),
  elem-keys-insert p q m,
)

add_watch_paths-Distinct :
    (paths : List Text) (m : Targets)
    → Distinct (keys m)
    → Distinct (keys (add_watch_paths paths m))
unfolding add_watch_paths
add_watch_paths-Distinct [] m h = h
add_watch_paths-Distinct (q ∷ qs) m h = elim (Bool-cases (is_empty (trim_space q))) [
  | inl blank ↦ rw blank (add_watch_paths-Distinct qs m h)
  | inr path ↦ rw path (
      add_watch_paths-Distinct qs (insert (trim_space q) tt m) (insert-Distinct (trim_space q) m h))
]

add_candidates-Distinct :
    (paths : List Text) (readable : Text → Bool) (m : Targets)
    → Distinct (keys m)
    → Distinct (keys (add_candidates paths readable m))
unfolding add_candidates
add_candidates-Distinct [] readable m h = h
add_candidates-Distinct (q ∷ qs) readable m h = elim (Bool-cases (readable q)) [
  | inl found ↦
      rw found (add_candidates-Distinct qs readable (insert q tt m) (insert-Distinct q m h))
  | inr missing ↦ rw missing (add_candidates-Distinct qs readable m h)
]

or_swap : (a b : Bool) → (a || (b || false)) ≡ (b || a)
or_swap a b = ground arith

-- `Start` of a new harvester starts one tailer each, and none twice, for the watched paths, trimmed
-- and not blank, and, with the automatic detection, for the standard files that can be read.
pub active_files-start :
    (cfg : LogHarvesterConfig) (readable : Text → Bool) (p : Text)
    → let active = active_files (start readable (new_log_harvester cfg)) in
      Distinct active
      × (elem p active ≡ (
          is_watched p cfg.watch_paths
          || cfg.auto_syslog && is_detected p default_syslog_candidates readable))
unfolding active_files start new_log_harvester new_harvester_config targets_of
active_files-start cfg readable p =
    let watched = add_watch_paths cfg.watch_paths [] in
    let distinct = add_watch_paths-Distinct cfg.watch_paths [] tt in
    let asked = elem-add_watch_paths p cfg.watch_paths [] in
    elim (Bool-cases cfg.auto_syslog) [
      | inl auto ↦ rw auto (
        add_candidates-Distinct default_syslog_candidates readable watched distinct,
        elem-add_candidates p default_syslog_candidates readable watched
            ∙ ap (λ b. is_detected p default_syslog_candidates readable || b) asked
            ∙ or_swap (is_detected p default_syslog_candidates readable)
                (is_watched p cfg.watch_paths),
      )
      | inr manual ↦ rw manual (distinct, asked)
    ]
