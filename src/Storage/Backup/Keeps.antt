-- ===== src/Storage/Backup/Keeps.antt =====
-- Which files `Backup` of internal/storage/backup.go leaves alone.
use sugi.Base.{◌≡◌, refl, ◌∙◌, Bool, true, false, Option, none, some}
use sugi.Base.Text.{Text, codes, text_eq}
use sugi.Storage.Backup.{
  Files, Removal, put_file, vacuum_query, backup_database, checkpointed, vacuumed, after_checkpoint,
  after_remove, removed, missing, refused,
}

-- What an engine documents: apart from the files of the database itself, a checkpoint changes no
-- file, and VACUUM INTO only the one that it names.
pub record Touches {ℓ} {Db : Type ℓ} (executes : Text → Db × Files → Option (Db × Files))
    (own : Text → Bool) : Type ℓ where
  pub checkpoint_keeps :
      (s s' : Db × Files) (q : Text)
      → own q ≡ false
      → executes (codes "PRAGMA wal_checkpoint(PASSIVE);") s ≡ some s'
      → s'.1 q ≡ s.1 q
  pub vacuum_keeps :
      (p : Text) (s s' : Db × Files) (q : Text)
      → own q ≡ false
      → text_eq p q ≡ false
      → executes (vacuum_query p) s ≡ some s'
      → s'.1 q ≡ s.1 q

module _ {ℓ} {Db : Type ℓ} (executes : Text → Db × Files → Option (Db × Files)) (own : Text → Bool)
    (laws : Touches executes own) (p q : Text) (other : text_eq p q ≡ false)
    (foreign : own q ≡ false) where
  vacuumed-keeps :
      (s : Db × Files) (r : Option (Db × Files))
      → executes (vacuum_query p) s ≡ r
      → (vacuumed executes s r).2 q ≡ s.1 q
  vacuumed-keeps (db, files) none e = refl
  vacuumed-keeps s (some s') e = laws.vacuum_keeps p s s' q foreign other e

  after_checkpoint-keeps :
      (s : Db × Files) (r : Option (Db × Files))
      → executes (codes "PRAGMA wal_checkpoint(PASSIVE);") s ≡ r
      → (after_checkpoint executes p s r).2 q ≡ s.1 q
  after_checkpoint-keeps (db, files) none e = refl
  after_checkpoint-keeps s (some s') e =
      vacuumed-keeps s' (executes (vacuum_query p) s') refl ∙ laws.checkpoint_keeps s s' q foreign e

  checkpointed-keeps : (s : Db × Files) → (checkpointed executes p s).2 q ≡ s.1 q
  checkpointed-keeps s =
      after_checkpoint-keeps s (executes (codes "PRAGMA wal_checkpoint(PASSIVE);") s) refl

  after_remove-keeps :
      (removing : Removal) (s : Db × Files) → (after_remove executes removing p s).2 q ≡ s.1 q
  unfolding put_file
  after_remove-keeps removed (db, files) =
      checkpointed-keeps (db, put_file p none files) ∙ rw other refl
  after_remove-keeps missing s = checkpointed-keeps s
  after_remove-keeps refused (db, files) = refl

  -- Any other file is as before, however the backup ends.
  pub backup_database-keeps :
      (makes_dir : Bool) (removing : Removal) (s : Db × Files)
      → (backup_database executes makes_dir removing p s).2 q ≡ s.1 q
  unfolding backup_database
  backup_database-keeps true removing (db, files) = after_remove-keeps removing (db, files)
  backup_database-keeps false removing (db, files) = refl
