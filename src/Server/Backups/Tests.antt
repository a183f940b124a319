-- ===== src/Server/Backups/Tests.antt =====
-- The loop of the backups on an engine that writes the file that it is told to.
use sugi.Base.{
  ◌≡◌, refl, sym, ap, ◌∙◌, Bool, Bool-cases, true, false, Option, none, some, List, [], ◌∷◌, ◌++◌,
  inl, inr, if◌then◌else◌,
}
use sugi.Base.Text.{Text, codes, text_eq, text_eq_iff}
use sugi.Base.Int.{pos}
use mathlib.Core.Option.{some-injective}
use mathlib.Core.List.{append_cancel_left, append_cancel_right}
use sugi.Storage.Backup.{Files, missing, removed, vacuum_query}
use sugi.Storage.Backup.Keeps.{Touches}
use sugi.Server.Backups.{Naming, Tick, backup_loop, backup_loop-keeps}

-- The database is its own content.
abbrev vacuums : Text → Text × Files → Option (Text × Files)
vacuums sql (db, files) = some (db, λ q. if text_eq (vacuum_query q) sql then some db else files q)

checkpoint_keeps :
    (s s' : Text × Files) (q : Text)
    → vacuums (codes "PRAGMA wal_checkpoint(PASSIVE);") s ≡ some s'
    → s'.1 q ≡ s.1 q
unfolding vacuum_query text_eq
checkpoint_keeps (db, files) s' q h = ap (λ t. t.1 q) (sym (some-injective _ _ h))

vacuum_query_inj : (p q : Text) → vacuum_query q ≡ vacuum_query p → q ≡ p
unfolding vacuum_query
vacuum_query_inj p q h =
    append_cancel_right q p (codes "';")
      (append_cancel_left (codes "VACUUM INTO '") (q ++ codes "';") (p ++ codes "';") h)

other_query : (p q : Text) → text_eq p q ≡ false → text_eq (vacuum_query q) (vacuum_query p) ≡ false
other_query p q h = elim (Bool-cases (text_eq (vacuum_query q) (vacuum_query p))) [
  | inl e ↦
      let same =
        (text_eq_iff p q).1
          (sym (vacuum_query_inj p q ((text_eq_iff (vacuum_query q) (vacuum_query p)).0 e))) in
      cc
  | inr e ↦ e
]

vacuum_keeps :
    (p : Text) (s s' : Text × Files) (q : Text)
    → text_eq p q ≡ false
    → vacuums (vacuum_query p) s ≡ some s'
    → s'.1 q ≡ s.1 q
vacuum_keeps p (db, files) s' q other h =
    ap (λ t. t.1 q) (sym (some-injective _ _ h)) ∙ rw (other_query p q other) refl

own : Text → Bool
own q = text_eq q (codes "sugi.db")

vacuums-Touches : Touches vacuums own
vacuums-Touches = record {
  checkpoint_keeps = λ s s' q foreign. checkpoint_keeps s s' q;
  vacuum_keeps = λ p s s' q foreign. vacuum_keeps p s s' q;
}

abbrev naming : Naming
naming = record { stamp = λ t. codes "2"; join = λ dir name. dir ++ (codes "/" ++ name) }

abbrev disk : Files
disk q = if text_eq q (codes "b/sugi-backup-1.db") then some (codes "old") else none

abbrev ticks : List Tick
ticks =
    record { now = record { sec = pos 1; nsec = 0 }; makes_dir = true; removal = missing }
    ∷ record { now = record { sec = pos 2; nsec = 0 }; makes_dir = true; removal = removed }
    ∷ []

backup_loop-keeps_example :
    (backup_loop vacuums naming (codes "b") ticks (codes "new", disk)).1
      (codes "b/sugi-backup-1.db")
    ≡ some (codes "old")
unfolding text_eq own sugi.Server.Backups.backup_file
backup_loop-keeps_example =
    backup_loop-keeps vacuums naming (codes "b") own vacuums-Touches ticks
      (codes "b/sugi-backup-1.db") (codes "new", disk) refl (refl, (refl, tt))

-- The second backup has replaced the first, as both ticks have the same stamp.
taken_twice :
    (backup_loop vacuums naming (codes "b") ticks (codes "new", disk)).1
      (codes "b/sugi-backup-2.db")
    ≡ some (codes "new")
unfolding backup_loop text_eq
taken_twice = refl
