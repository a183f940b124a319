-- ===== src/Storage/Backup/Tests.antt =====
-- A restore and a backup at concrete files.
use sugi.Base.{◌≡◌, refl, true, false, none, some, if◌then◌else◌}
use sugi.Base.Text.{codes, text_eq}
use sugi.Storage.Backup.{Files, Io, restore_database, create_failed}

abbrev disk : Files
disk q =
    if text_eq q (codes "backup.db")
    then some (codes "copy")
    else if text_eq q (codes "sugi.db")
    then some (codes "old")
    else none

abbrev no_room : Io
no_room = record {
  opens = true;
  makes_dir = true;
  removes_db = true;
  removes_wal = false;
  removes_shm = false;
  creates = true;
  copy_fails_at = some 2;
}

half_a_database :
    (restore_database no_room (codes "backup.db") (codes "sugi.db") disk).1 (codes "sugi.db")
    ≡ some (codes "co")
unfolding restore_database text_eq
half_a_database = refl

no_database :
    let (error, after) =
      restore_database
        (record no_room { creates = false })
        (codes "backup.db")
        (codes "sugi.db")
        disk in
    (error ≡ some create_failed) × (after (codes "sugi.db") ≡ none)
unfolding restore_database text_eq
no_database = (refl, refl)
