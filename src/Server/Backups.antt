-- ===== src/Server/Backups.antt =====
-- `backupLoop` of internal/server/server.go. What it logs is not modelled.
mod Tests
use sugi.Base.{◌≡◌, refl, ◌∙◌, Bool, true, false, Option, none, some, List, [], ◌∷◌, ◌++◌, All}
use sugi.Base.Text.{Text, codes, text_eq}
use sugi.Model.Time.{Instant}
use sugi.Storage.Backup.{Files, Removal, BackupError, backup_database}
use sugi.Storage.Backup.Keeps.{Touches, backup_database-keeps}

-- What the code takes from elsewhere: the format of the time, and filepath.Join.
pub record Naming : Type 0 where
  pub stamp : Instant → Text
  pub join : Text → Text → Text

-- A tick: the clock, and how the calls of the system end.
pub record Tick : Type 0 where
  pub now : Instant
  pub makes_dir : Bool
  pub removal : Removal

unfoldable pub backup_file : Naming → Text → Instant → Text
backup_file n dir now = n.join dir (codes "sugi-backup-" ++ (n.stamp now ++ codes ".db"))

module _ {ℓ} {Db : Type ℓ} (executes : Text → Db × Files → Option (Db × Files)) (n : Naming)
    (dir : Text) where
  -- The error is only logged.
  unfoldable pub take_backup : Tick → Db × Files → Db × Files
  unfolding backup_file backup_database
  take_backup tick s =
      let (error, db, files) =
        backup_database executes tick.makes_dir tick.removal (backup_file n dir tick.now) s in
      (db, files)

  unfoldable pub backup_loop : List Tick → Db × Files → Db × Files
  unfolding take_backup
  backup_loop [] s = s
  backup_loop (tick ∷ ticks) s = backup_loop ticks (take_backup tick s)

  -- The tick takes its backup in another file.
  abbrev pub Elsewhere : Text → Tick → Type 0
  Elsewhere q tick = text_eq (backup_file n dir tick.now) q ≡ false

  -- Given Touches, a backup, and any other file that is not of the database itself, stays as it is
  -- through all later rounds of the loop that take their backups in other files, however these end.
  pub backup_loop-keeps :
      (own : Text → Bool)
      → Touches executes own
      → (ticks : List Tick) (q : Text) (s : Db × Files) → own q ≡ false
      → All (Elsewhere q) ticks
      → (backup_loop ticks s).1 q ≡ s.1 q
  unfolding backup_loop
  backup_loop-keeps own laws [] q s foreign h = refl
  backup_loop-keeps own laws (tick ∷ ticks) q s foreign (h, hs) =
      backup_loop-keeps own laws ticks q (take_backup tick s) foreign hs
      ∙ backup_database-keeps executes own laws (backup_file n dir tick.now) q h foreign
          tick.makes_dir tick.removal s
