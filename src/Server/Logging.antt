-- ===== src/Server/Logging.antt =====
-- What becomes of the entries that the harvester and the start of the server log: `Enqueue` of
-- internal/storage/log_writer.go and `BroadcastLog` of internal/api/sse.go, as
-- internal/server/server.go puts them together.
use sugi.Base.{
  ℕ, zero, suc, ◌-◌, ◌≡◌, refl, sym, ap, ◌∙◌, Bool, true, false, Option, List, [], ◌∷◌, ◌++◌,
  append-nil, append_assoc, if◌then◌else◌, ltb, length, length-append, take, arith,
}
use sugi.Base.Int.{pos_part}
use sugi.Base.Text.{Text}
use sugi.Model.Log.{LogEntry}
use sugi.Storage.Writer.{AsyncLogWriter, enqueue, send}
use sugi.Api.Hub.{SseHub, broadcast_log}
use sugi.Server.{log_entry, log_entries}

-- The events of entries, in their order.
unfoldable pub announce : (LogEntry → Option Text) → List LogEntry → SseHub → SseHub
announce marshal [] h = h
announce marshal (entry ∷ entries) h = announce marshal entries (broadcast_log (marshal entry) h)

-- How many entries the queue still takes.
abbrev pub room : AsyncLogWriter → ℕ
room w = pos_part w.cfg.buffer_size - length w.ch

module _ (marshal : LogEntry → Option Text) where
  -- The end of `log_entry`, for what `Enqueue` returns.
  abbrev logged : LogEntry → SseHub → Bool × AsyncLogWriter → AsyncLogWriter × SseHub
  logged entry h (queued, w) = if queued then (w, broadcast_log (marshal entry) h) else (w, h)

  enqueue-send :
      (entry : LogEntry) (w : AsyncLogWriter) → w.closed ≡ false → enqueue w entry ≡ send w entry
  unfolding enqueue
  enqueue-send entry w open_ = ap (λ b. if b then (false, w) else send w entry) open_

  send_if :
      (entry : LogEntry) (w : AsyncLogWriter) (b : Bool)
      → ltb (length w.ch) (pos_part w.cfg.buffer_size) ≡ b
      → send w entry ≡ (if b then (true, record w { ch = w.ch ++ entry ∷ [] }) else (false, w))
  unfolding send
  send_if entry w b e =
      ap (λ c. if c then (true, record w { ch = w.ch ++ entry ∷ [] }) else (false, w)) e

  log_entry_if :
      (entry : LogEntry) (w : AsyncLogWriter) (h : SseHub) (b : Bool)
      → w.closed ≡ false
      → ltb (length w.ch) (pos_part w.cfg.buffer_size) ≡ b
      → log_entry marshal entry (w, h)
        ≡ logged entry h (if b then (true, record w { ch = w.ch ++ entry ∷ [] }) else (false, w))
  unfolding log_entry
  log_entry_if entry w h b open_ e =
      ap (logged entry h) (enqueue-send entry w open_ ∙ send_if entry w b e)

  log_entries-room :
      (entries : List LogEntry) (w : AsyncLogWriter) (h : SseHub) (n : ℕ)
      → w.closed ≡ false
      → room w ≡ n
      → log_entries marshal entries (w, h)
        ≡ (record w { ch = w.ch ++ take n entries }, announce marshal (take n entries) h)
  unfolding log_entries announce
  log_entries-room [] w h zero open_ e =
      ap (λ ch. (record w { ch = ch }, h)) (sym (append-nil w.ch))
  log_entries-room [] w h (suc n) open_ e =
      ap (λ ch. (record w { ch = ch }, h)) (sym (append-nil w.ch))
  log_entries-room (entry ∷ entries) w h zero open_ e =
      ap (log_entries marshal entries) (log_entry_if entry w h false open_ (ground (arith, e)))
      ∙ log_entries-room entries w h zero open_ e
  log_entries-room (entry ∷ entries) w h (suc n) open_ e =
      let w' = record w { ch = w.ch ++ entry ∷ [] } in
      ap (log_entries marshal entries) (log_entry_if entry w h true open_ (ground (arith, e)))
      ∙ log_entries-room entries w' (broadcast_log (marshal entry) h) n open_
          (omega (arith, e, length-append w.ch (entry ∷ [])))
      ∙ ap
          (λ ch. (
            record w { ch = ch },
            announce marshal (take n entries) (broadcast_log (marshal entry) h),
          ))
          (append_assoc w.ch (entry ∷ []) (take n entries))

  -- Of entries that the harvester or the start of the server logs while nothing else runs, a writer
  -- that is not closed queues as many as its channel has room for, in their order, and the hub is
  -- given the events of just these.
  pub log_entries-take :
      (entries : List LogEntry) (w : AsyncLogWriter) (h : SseHub)
      → w.closed ≡ false
      → log_entries marshal entries (w, h) ≡ (
        record w { ch = w.ch ++ take (room w) entries },
        announce marshal (take (room w) entries) h,
      )
  log_entries-take entries w h open_ = log_entries-room entries w h (room w) open_ refl
