-- ===== src/Storage/Sqlite/Open/Outcome.antt =====
-- Every way in which `NewSQLiteStorage` of internal/storage/sqlite.go ends.
use sugi.Base.{
  ◌*◌, ◌≡◌, refl, ap, Bool, true, false, Option, none, some, List, [], ◌∷◌, ◌++◌, if◌then◌else◌,
}
use sugi.Base.Text.{Text, codes, is_empty}
use sugi.Base.Int.{pos}
use sugi.Model.Time.{hour}
use sugi.Storage.Sqlite.Open.{
  Driver, OpenError, open_failed, init_failed, pragmas, schema, then_run, exec_all, after_pragmas,
  init_schema, initialised, opened, new_sqlite_storage,
}

module _ (d : Driver) where
  open d use {Handle}

  -- The statements have succeeded one after the other, from one handle to another.
  abbrev pub Ran : List Text → Handle → Handle → Type 0
  Ran [] h h' = h' ≡ h
  Ran (sql ∷ sqls) h h' = (k : Handle) × (d.exec sql h ≡ (true, k)) × Ran sqls k h'

  -- One of the statements has failed behind others that succeeded.
  abbrev pub Failed : List Text → Text → Handle → Handle → Type 0
  Failed sqls sql h h' =
      (before : List Text) × (after : List Text) × (k : Handle) × (sqls ≡ before ++ sql ∷ after)
      × Ran before h k
      × (d.exec sql k ≡ (false, h'))

  abbrev Outcome : List Text → Handle → Option Text × Handle → Type 0
  Outcome sqls h (none, h') = Ran sqls h h'
  Outcome sqls h (some sql, h') = Failed sqls sql h h'

  later :
      (sql : Text) (sqls : List Text) (h k : Handle) (r : Option Text × Handle)
      → d.exec sql h ≡ (true, k)
      → Outcome sqls k r
      → Outcome (sql ∷ sqls) h r
  later sql sqls h k (none, h') e ran = (k, e, ran)
  later sql sqls h k (some sql', h') e (before, after, m, split, ran, failed) =
      (sql ∷ before, after, m, ap (◌∷◌ sql) split, (k, e, ran), failed)

  then_run-Outcome :
      (sql : Text) (sqls : List Text) (h : Handle) (r : Bool × Handle)
      → d.exec sql h ≡ r
      → ((k : Handle) → Outcome sqls k (exec_all d sqls k))
      → Outcome (sql ∷ sqls) h (then_run d (exec_all d sqls) sql r)
  then_run-Outcome sql sqls h (true, k) e rest = later sql sqls h k (exec_all d sqls k) e (rest k)
  then_run-Outcome sql sqls h (false, k) e rest = ([], sqls, h, refl, refl, e)

  exec_all-Outcome : (sqls : List Text) (h : Handle) → Outcome sqls h (exec_all d sqls h)
  unfolding exec_all
  exec_all-Outcome [] h = refl
  exec_all-Outcome (sql ∷ sqls) h =
      then_run-Outcome sql sqls h (d.exec sql h) refl (exec_all-Outcome sqls)

  then_run-after_pragmas :
      (sqls : List Text) (sql : Text) (r : Bool × Handle)
      → ((k : Handle) → exec_all d (sqls ++ schema ∷ []) k ≡ after_pragmas d (exec_all d sqls k))
      → then_run d (exec_all d (sqls ++ schema ∷ [])) sql r
        ≡ after_pragmas d (then_run d (exec_all d sqls) sql r)
  then_run-after_pragmas sqls sql (true, k) rest = rest k
  then_run-after_pragmas sqls sql (false, k) rest = refl

  exec_all-schema :
      (sqls : List Text) (h : Handle)
      → exec_all d (sqls ++ schema ∷ []) h ≡ after_pragmas d (exec_all d sqls h)
  unfolding exec_all
  exec_all-schema [] h = refl
  exec_all-schema (sql ∷ sqls) h =
      then_run-after_pragmas sqls sql (d.exec sql h) (exec_all-schema sqls)

  abbrev handle_text : Text → Text
  handle_text path = if is_empty path then codes "sugi.db" else path

  -- The handle with the limits of its pool.
  abbrev limited : Handle → Handle
  limited h = d.limits 10 5 (pos (1 * hour)) h

  -- What `NewSQLiteStorage` returns: a handle on which every pragma and the schema have run, in
  -- this order; the error of the open; or the error of a statement, and the handle is closed.
  abbrev pub Opened : Text → Option OpenError × Option Handle → Type 0
  Opened path (none, none) = ⊥
  Opened path (none, some h) =
      (new : Handle) × (d.opens (handle_text path) ≡ some new)
      × Ran (pragmas ++ schema ∷ []) (limited new) h
  Opened path (some open_failed, left) = (d.opens (handle_text path) ≡ none) × (left ≡ none)
  Opened path (some (init_failed sql), left) =
      (new : Handle) × (h : Handle) × (d.opens (handle_text path) ≡ some new)
      × Failed (pragmas ++ schema ∷ []) sql (limited new) h
      × (left ≡ some (d.close h))

  initialised-Opened :
      (path : Text) (new : Handle) (r : Option Text × Handle)
      → d.opens (handle_text path) ≡ some new
      → Outcome (pragmas ++ schema ∷ []) (limited new) r
      → Opened path (initialised d r)
  initialised-Opened path new (none, h) e ran = (new, e, ran)
  initialised-Opened path new (some sql, h) e failed = (new, h, e, failed, refl)

  opened-Opened :
      (path : Text) (r : Option Handle) → d.opens (handle_text path) ≡ r → Opened path (opened d r)
  unfolding init_schema
  opened-Opened path none e = (e, refl)
  opened-Opened path (some new) e = initialised-Opened path new (init_schema d (limited new)) e (
      rw (← exec_all-schema pragmas (limited new))
        (exec_all-Outcome (pragmas ++ schema ∷ []) (limited new)))

  -- Without an error, `NewSQLiteStorage` returns a handle on which every pragma and then the schema
  -- have succeeded, in their order; with an error, the open has failed, or one statement behind
  -- others that succeeded, and then the handle has been closed.
  pub new_sqlite_storage-Opened : (path : Text) → Opened path (new_sqlite_storage d path)
  unfolding new_sqlite_storage
  new_sqlite_storage-Opened path = opened-Opened path (d.opens (handle_text path)) refl
