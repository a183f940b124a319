-- ===== src/Storage/Backup/Restore.antt =====
-- How `RestoreDatabase` of internal/storage/backup.go can end, and what files it leaves.
use sugi.Base.{◌||◌, ℕ, ◌≡◌, false, Option, none, some, ◌++◌, if◌then◌else◌, take}
use sugi.Base.Text.{Text, codes, text_eq}
use sugi.Storage.Backup.{
  Files, Io, RestoreError, open_failed, mkdir_failed, create_failed, copy_failed,
}

-- The files without the database and its two companions.
abbrev pub others : Text → Files → Files
others dest files q =
    if text_eq dest q || text_eq (dest ++ codes "-wal") q || text_eq (dest ++ codes "-shm") q
    then none
    else files q

-- All other files are as before.
abbrev pub Untouched : Text → Files → Files → Type 0
Untouched dest before after = (q : Text) → others dest after q ≡ others dest before q

-- A companion is gone if it could be removed.
abbrev pub Companions : Io → Text → Files → Files → Type 0
Companions io dest before after =
    (after (dest ++ codes "-wal")
      ≡ (if io.removes_wal then none else before (dest ++ codes "-wal")))
    × (after (dest ++ codes "-shm")
        ≡ (if io.removes_shm then none else before (dest ++ codes "-shm")))

-- The files behind each result, with the cause of an error, for the content of the backup.
abbrev pub Outcome : Io → Option Text → Text → Files → Option RestoreError × Files → Type 0
Outcome io content dest before (none, after) =
    (s : Text) × (content ≡ some s)
    × (after dest ≡ some s)
    × Companions io dest before after
    × Untouched dest before after
Outcome io content dest before (some open_failed, after) = (content ≡ none) × (after ≡ before)
Outcome io content dest before (some mkdir_failed, after) =
    (io.makes_dir ≡ false) × (after ≡ before)
Outcome io content dest before (some create_failed, after) =
    (io.creates ≡ false)
    × (after dest ≡ (if io.removes_db then none else before dest))
    × Untouched dest before after
Outcome io content dest before (some copy_failed, after) =
    (n : ℕ) × (s : Text) × (io.copy_fails_at ≡ some n)
    × (content ≡ some s)
    × (after dest ≡ some (take n s))
    × Untouched dest before after
