-- ===== src/Server/Stop/Ends.antt =====
-- `Shutdown` of internal/server/server.go is never stuck for good: the steps by which it ends.
use sugi.Base.{◌≡◌, true, none, []}
use sugi.Storage.Sqlite.{Engine, Codec}
use sugi.Storage.Sqlite.Reads.{QueryEngine}
use sugi.Server.Stop.{Closing, Running, Progress, Acts}

module _ (e : Engine) (q : QueryEngine e) (c : Codec) (closing : Closing e q) where
  -- The end, with no batch written on the way there.
  abbrev CanEnd : Running e → Type 0
  CanEnd s =
      (t : Running e) × Acts e q c closing s [] [] t
      × (t.progress ≡ Progress.complete)
      × (t.store.writer.writes ≡ s.store.writer.writes)

  -- `Shutdown` comes to its end with no batch written on the way there, and there the hub is
  -- stopped, the log writer is closed and the database takes no transaction.
  abbrev pub EndsClosed : Running e → Type 0
  EndsClosed s =
      (t : Running e) × Acts e q c closing s [] [] t
      × (t.progress ≡ Progress.complete)
      × (t.store.writer.writes ≡ s.store.writer.writes)
      × (t.hub.stopped ≡ true)
      × (t.store.writer.closed ≡ true)
      × (e.begin_tx t.store.db ≡ none)
