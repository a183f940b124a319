-- ===== src/Storage/Backup.antt =====
-- internal/storage/backup.go over the files of the system: the content of a path, or `none`. A file
-- that is open keeps its content when its path is removed.
pub mod Restore
pub mod Keeps
mod Tests
use sugi.Base.{ℕ, Bool, true, false, Option, none, some, List, [], ◌∷◌, ◌++◌, if◌then◌else◌, take}
use sugi.Base.Text.{Text, codes, text_eq}

abbrev pub Files : Type 0
Files = Text → Option Text

-- A call that writes or removes leaves all other paths as they are.
unfoldable pub put_file : Text → Option Text → Files → Files
unfolding text_eq
put_file p content files = λ q. if text_eq p q then content else files q

-- How the calls of the system end. A copy may fail behind some bytes.
pub record Io : Type 0 where
  pub opens : Bool
  pub makes_dir : Bool
  pub removes_db : Bool
  pub removes_wal : Bool
  pub removes_shm : Bool
  pub creates : Bool
  pub copy_fails_at : Option ℕ

-- `os.Remove`.
unfoldable pub remove_file : Bool → Text → Files → Files
unfolding put_file
remove_file removed p files = if removed then put_file p none files else files

pub data RestoreError : Type 0 where
  open_failed mkdir_failed create_failed copy_failed : RestoreError

unfoldable pub copy_file : Option ℕ → Text → Text → Files → Option RestoreError × Files
unfolding put_file
copy_file none dest content files = (none, put_file dest (some content) files)
copy_file (some n) dest content files =
    (some copy_failed, put_file dest (some (take n content)) files)

-- The three calls of `os.Remove`, whose errors are ignored.
unfoldable pub remove_old : Io → Text → Files → Files
unfolding remove_file
remove_old io dest files =
    remove_file io.removes_shm (dest ++ codes "-shm")
      (remove_file io.removes_wal (dest ++ codes "-wal") (remove_file io.removes_db dest files))

unfoldable pub restore_content : Io → Option Text → Text → Files → Option RestoreError × Files
unfolding remove_old copy_file
restore_content io none dest files = (some open_failed, files)
restore_content io (some content) dest files =
    if io.makes_dir
    then (let old = remove_old io dest files in
        if io.creates
        then copy_file io.copy_fails_at dest content old
        else (some create_failed, old))
    else (some mkdir_failed, files)

-- `RestoreDatabase`.
unfoldable pub restore_database : Io → Text → Text → Files → Option RestoreError × Files
unfolding restore_content
restore_database io backup_path dest files =
    restore_content io (if io.opens then files backup_path else none) dest files

-- The statement that `Backup` executes.
unfoldable pub vacuum_query : Text → Text
vacuum_query path = codes "VACUUM INTO '" ++ (path ++ codes "';")

pub data BackupError : Type 0 where
  backup_mkdir_failed backup_remove_failed checkpoint_failed vacuum_failed : BackupError

-- How the calls of `Backup` end: the removal succeeds, finds no file, or fails; `executes` is
-- `db.Exec`.
pub data Removal : Type 0 where
  removed missing refused : Removal

module _ {ℓ} {Db : Type ℓ} (executes : Text → Db × Files → Option (Db × Files)) where
  abbrev vacuumed : Db × Files → Option (Db × Files) → Option BackupError × Db × Files
  vacuumed (db, files) none = (some vacuum_failed, db, files)
  vacuumed s (some (db, files)) = (none, db, files)

  abbrev after_checkpoint :
      Text → Db × Files → Option (Db × Files) → Option BackupError × Db × Files
  after_checkpoint path (db, files) none = (some checkpoint_failed, db, files)
  after_checkpoint path s (some t) = vacuumed t (executes (vacuum_query path) t)

  abbrev checkpointed : Text → Db × Files → Option BackupError × Db × Files
  checkpointed path s =
      after_checkpoint path s (executes (codes "PRAGMA wal_checkpoint(PASSIVE);") s)

  abbrev after_remove : Removal → Text → Db × Files → Option BackupError × Db × Files
  after_remove removed path (db, files) = checkpointed path (db, put_file path none files)
  after_remove missing path s = checkpointed path s
  after_remove refused path (db, files) = (some backup_remove_failed, db, files)

  -- `Backup`.
  unfoldable pub backup_database :
      Bool → Removal → Text → Db × Files → Option BackupError × Db × Files
  unfolding vacuum_query put_file
  backup_database makes_dir removal path (db, files) =
      if makes_dir
      then after_remove removal path (db, files)
      else (some backup_mkdir_failed, db, files)
