-- ===== src/Server/Stop/Clean.antt =====
-- A `Shutdown` of internal/server/server.go that meets its deadline loses no entry.
use sugi.Base.{◌≡◌, refl, ap, Bool, true, false, List, [], ◌∷◌, ◌++◌, All}
use sugi.Base.Int.{ℤ}
use sugi.Model.Log.{LogEntry}
use sugi.Storage.Writer.{AsyncLogWriterConfig}
use sugi.Storage.Writer.Inv.{handed}
use sugi.Storage.Writer.Shutdown.{returned-handed}
use sugi.Storage.Sqlite.{Row, Engine, EngineLaws, Codec}
use sugi.Storage.Sqlite.Reads.{QueryEngine, Deletes}
use sugi.Storage.Stored.Kept.{succeeded, RowsOf}
use sugi.Storage.Stored.Thinned.{Thinned}
use sugi.Server.Stop.{Closing, Running, Progress, Acts, started}
use sugi.Server.Stop.Inv.{Acts-Inv, started-Inv}

-- `WriteBatch` returned no error.
abbrev pub Succeeded : List LogEntry × Bool → Type 0
Succeeded (batch, ok) = ok ≡ true

succeeded-eq-handed :
    (writes : List (List LogEntry × Bool)) → All Succeeded writes → succeeded writes ≡ handed writes
succeeded-eq-handed [] h = refl
succeeded-eq-handed ((batch, true) ∷ writes) (h, hs) =
    ap (◌++◌ batch) (succeeded-eq-handed writes hs)
succeeded-eq-handed ((batch, false) ∷ writes) (h, hs) = cc

-- The table `after` is the table `before` with a row for each entry, in order, less expired ones.
abbrev pub Persisted : Codec → List LogEntry → List ℤ → List Row → List Row → Type 0
Persisted c xs ts before after =
    (rows : List Row) × RowsOf c xs rows × Thinned ts (before ++ rows) after

-- Given EngineLaws, Deletes and Closing: where `Shutdown` has come to its end, neither the HTTP
-- server nor the log writer has run into the deadline and no `WriteBatch` has failed, the closed
-- database has what it had at the start and a row for each entry that was accepted since, in the
-- order of acceptance, less rows older than the time of some deletion.
pub shutdown-Persisted :
    (e : Engine) (laws : EngineLaws e) (q : QueryEngine e) (law : Deletes e q) (c : Codec)
    (closing : Closing e q) (cfg : AsyncLogWriterConfig) (db : e.Db) {t : Running e}
    {xs : List LogEntry} {ts : List ℤ}
    → Acts e q c closing (started e q c closing cfg db) xs ts t
    → t.progress ≡ Progress.complete
    → t.http_failed ≡ false
    → t.writer_failed ≡ false
    → All Succeeded t.store.writer.writes
    → Persisted c xs ts (e.rows db) (e.rows t.store.db)
shutdown-Persisted e laws q law c closing cfg db {t} {xs} r over http writer ok =
    let k =
      Acts-Inv e laws q law c closing cfg (e.rows db) r
        (started-Inv e laws q law c closing cfg db) in
    let idle = k.clean_http (rw over refl) http in
    let returned = k.clean_writer (rw over refl) writer in
    let all : handed t.store.writer.writes ≡ xs =
      returned-handed cfg k.ran returned (k.emptied returned idle) in
    (
      k.kept.rows,
      rw (← all, ← succeeded-eq-handed t.store.writer.writes ok) k.kept.clocks,
      k.kept.thinned,
    )
