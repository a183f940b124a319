-- ===== src/Storage/Writer/Calls.antt =====
-- What callers of internal/storage/log_writer.go can rely on.
use sugi.Base.{◌≤◌, ◌<◌, ◌≡◌, ◌⊎◌, Bool, true, false, arith, List, [], ◌∷◌, ◌++◌, length, All}
use sugi.Base.Int.{pos_part}
use sugi.Model.Log.{LogEntry}
use sugi.Storage.Writer.{AsyncLogWriterConfig, AsyncLogWriter, new_writer, with_defaults, enqueue}
use sugi.Storage.Writer.Steps.{Run}
use sugi.Storage.Writer.Inv.{Sized, handed, held-Run, Run-IsValid, new_writer-IsValid}

-- The two outcomes of `Enqueue` with no other goroutine between its halves.
abbrev pub Enqueued : AsyncLogWriter → LogEntry → Bool × AsyncLogWriter → Type 0
Enqueued w entry result =
    ((w.closed ≡ false)
      × (length w.ch < pos_part w.cfg.buffer_size)
      × (result ≡ (true, record w { ch = w.ch ++ entry ∷ [] })))
    ⊎ (((w.closed ≡ true) ⊎ (pos_part w.cfg.buffer_size ≤ length w.ch)) × (result ≡ (false, w)))

-- `Enqueue` returns true exactly when the writer is open and the channel has room, and then puts
-- the entry at the end of the channel; when it returns false it changes nothing.
pub enqueue-Enqueued : (w : AsyncLogWriter) (entry : LogEntry) → Enqueued w entry (enqueue w entry)
unfolding enqueue
enqueue-Enqueued w entry = ground arith

-- Whatever the goroutines do from the start of the writer, the accepted entries in their order are
-- those handed to `WriteBatch`, then the batch, then the channel: none is lost, doubled or moved.
pub held-accepted :
    (cfg : AsyncLogWriterConfig) {w : AsyncLogWriter} {xs : List LogEntry}
    → Run (new_writer cfg) xs w
    → handed w.writes ++ (w.batch ++ w.ch) ≡ xs
held-accepted cfg r = unfold new_writer in held-Run r

-- Whatever the goroutines do, each call of `WriteBatch` gets between one and `BatchSize` entries,
-- the batch stays below `BatchSize`, and the channel holds at most `BufferSize` entries.
pub writes-Sized :
    (cfg : AsyncLogWriterConfig) {w : AsyncLogWriter} {xs : List LogEntry}
    → Run (new_writer cfg) xs w
    → All (Sized (with_defaults cfg)) w.writes
      × (length w.batch < pos_part (with_defaults cfg).batch_size)
      × (length w.ch ≤ pos_part (with_defaults cfg).buffer_size)
writes-Sized cfg r =
    let v = Run-IsValid r (new_writer-IsValid cfg) in (v.writes_sized, v.batch_small, v.ch_small)

-- However many `Close` calls run at once, the one that is to close `done` finds it open, so no
-- channel is closed twice.
pub done_closed_once :
    (cfg : AsyncLogWriterConfig) {w : AsyncLogWriter} {xs : List LogEntry}
    → Run (new_writer cfg) xs w
    → w.closing ≡ true
    → w.done ≡ false
done_closed_once cfg r h = ((Run-IsValid r (new_writer-IsValid cfg)).once h).0
