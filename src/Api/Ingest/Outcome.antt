-- ===== src/Api/Ingest/Outcome.antt =====
-- The outcome of an ingestion in internal/api/handler.go, for the log writer and the hub of the
-- server too.
use sugi.Base.{
  ℕ, ◌+◌, ◌<◌, ◌≡◌, ◌≢◌, ◌⊎◌, refl, sym, ap, subst, ◌∙◌, true, false, Option, List, [], ◌∷◌, ◌++◌,
  if◌then◌else◌, ltb, ◌==◌, ◌&&◌, length, arith, All, All-append, length-append, Bool-cases, inl,
  inr, append-nil, append_assoc,
}
use sugi.Base.Text.{Text, codes, is_empty}
use sugi.Model.Time.{Instant}
use sugi.Model.Log.{LogEntry}
use sugi.Storage.Writer.{AsyncLogWriter, enqueue, send}
use sugi.Api.Hub.{SseHub, broadcast_log}
use sugi.Api.Ingest.{
  Sink, Reply, refused, counted, fill_entry, ingest_entry, ingest_entries, ingest,
}

-- All of `n` entries are counted; the status is 429 when there are entries and none was accepted,
-- and 202 otherwise.
abbrev pub Accounted : ℕ → Reply → Type 0
Accounted n (refused status) = ⊥
Accounted n (counted status accepted dropped) =
    (accepted + dropped ≡ n)
    × (((status ≡ 429) × (accepted ≡ 0) × (0 < n)) ⊎ ((status ≡ 202) × ((0 < accepted) ⊎ (n ≡ 0))))

-- The field `accepted` of a reply.
abbrev pub accepted_of : Reply → ℕ
accepted_of (refused status) = 0
accepted_of (counted status accepted dropped) = accepted

module _ (k : Sink) where
  count-ingest_entry :
      (now : Instant) (entry : LogEntry) (a d : ℕ) (s : k.State)
      → let (a', d', s') = ingest_entry k now entry (a, d, s) in a' + d' ≡ a + d + 1
  unfolding ingest_entry
  count-ingest_entry now entry a d s = ground arith

  count-ingest_entries :
      (entries : List LogEntry) (now : Instant) (a d : ℕ) (s : k.State)
      → let (a', d', s') = ingest_entries k entries now (a, d, s) in
        a' + d' ≡ a + d + length entries
  unfolding ingest_entries
  count-ingest_entries [] now a d s = omega arith
  count-ingest_entries (entry ∷ entries) now a d s =
      let (a', d', s') = ingest_entry k now entry (a, d, s) in
      omega (arith, count-ingest_entries entries now a' d' s', count-ingest_entry now entry a d s)

  -- Whatever the log writer answers, every entry is counted as accepted or as dropped, and the
  -- status is 429 exactly when there are entries and all were dropped.
  pub ingest-Accounted :
      (entries : List LogEntry) (now : Instant) (s : k.State)
      → Accounted (length entries) (ingest k entries now s).0
  unfolding ingest
  ingest-Accounted entries now s = ground (arith, count-ingest_entries entries now 0 0 s)

-- The sink of the server, with what `json.Marshal` makes of an entry.
abbrev pub server_sink : (LogEntry → Option Text) → Sink
server_sink marshal = record {
  State = AsyncLogWriter × SseHub;
  enqueue = λ entry (w, h). let (taken, w') = enqueue w entry in (taken, (w', h));
  broadcast_log = λ entry (w, h). (w, broadcast_log (marshal entry) h);
}

-- An entry as it reaches the log writer.
abbrev pub IsFilled : LogEntry → Type 0
IsFilled entry = (entry.level ≢ []) × (entry.service ≢ [])

or_text-ne-nil : (d s : Text) → d ≢ [] → (if is_empty s then d else s) ≢ []
or_text-ne-nil d [] h = h
or_text-ne-nil d (x ∷ s) h = λ k. cc

fill_entry-IsFilled : (now : Instant) (entry : LogEntry) → IsFilled (fill_entry now entry)
unfolding fill_entry
fill_entry-IsFilled now entry = (
  or_text-ne-nil (codes "INFO") entry.level (λ k. cc),
  or_text-ne-nil (codes "default") entry.service (λ k. cc),
)

-- From `w` to `w'` the queue grew at its end by entries that are filled in, and the count from `a`
-- to `a'` by their number.
abbrev pub Queued : ℕ → AsyncLogWriter → ℕ → AsyncLogWriter → Type 0
Queued a w a' w' =
    (taken : List LogEntry) × ((w'.ch ≡ w.ch ++ taken)
      × ((a' ≡ a + length taken) × All IsFilled taken))

enqueue_cases :
    (w : AsyncLogWriter) (entry : LogEntry)
    → let (taken, w') = enqueue w entry in
      ((taken ≡ true) × (w'.ch ≡ w.ch ++ entry ∷ [])) ⊎ ((taken ≡ false) × (w'.ch ≡ w.ch))
unfolding enqueue send
enqueue_cases w entry = ground arith

module _ (marshal : LogEntry → Option Text) where
  ingest_entry-Queued :
      (now : Instant) (entry : LogEntry) (a d : ℕ) (w : AsyncLogWriter) (h : SseHub)
      → let (a', d', (w', h')) = ingest_entry (server_sink marshal) now entry (a, d, (w, h)) in
        Queued a w a' w'
  unfolding ingest_entry
  ingest_entry-Queued now entry a d w h = elim (enqueue_cases w (fill_entry now entry)) [
    | inl (taken, more) ↦
        rw taken (fill_entry now entry ∷ [], (more, (refl, (fill_entry-IsFilled now entry, tt))))
    | inr (full, same) ↦ rw full ([], (same ∙ sym (append-nil w.ch), (omega arith, tt)))
  ]

  Queued-trans :
      (a b c : ℕ) (u v w : AsyncLogWriter) → Queued a u b v → Queued b v c w → Queued a u c w
  Queued-trans a b c u v w (s, (grew, (more, filled))) (t, (grew', (more', filled'))) = (
    s ++ t,
    (
      grew' ∙ ap (λ ch. ch ++ t) grew ∙ append_assoc u.ch s t,
      (rw length-append (omega (arith, more, more')), All-append IsFilled s t filled filled'),
    ),
  )

  ingest_entries-Queued :
      (entries : List LogEntry) (now : Instant) (a d : ℕ) (w : AsyncLogWriter) (h : SseHub)
      → let (a', d', (w', h')) = ingest_entries (server_sink marshal) entries now (a, d, (w, h)) in
        Queued a w a' w'
  unfolding ingest_entries
  ingest_entries-Queued [] now a d w h = ([], (sym (append-nil w.ch), (omega arith, tt)))
  ingest_entries-Queued (entry ∷ entries) now a d w h =
      let (a', d', (w', h')) = ingest_entry (server_sink marshal) now entry (a, d, (w, h)) in
      let last = ingest_entries (server_sink marshal) entries now (a', d', (w', h')) in
      Queued-trans a a' last.0 w w' last.2.0 (ingest_entry-Queued now entry a d w h)
        (ingest_entries-Queued entries now a' d' w' h')

  -- With no other goroutine in between, the handler puts at the end of the log writer's queue as
  -- many entries as its reply counts as accepted, each with a level and a service.
  pub ingest-Queued :
      (entries : List LogEntry) (now : Instant) (w : AsyncLogWriter) (h : SseHub)
      → let (reply, (w', h')) = ingest (server_sink marshal) entries now (w, h) in
        Queued 0 w (accepted_of reply) w'
  unfolding ingest
  ingest-Queued entries now w h =
      let (a, d, (w', h')) = ingest_entries (server_sink marshal) entries now (0, 0, (w, h)) in
      let queued : Queued 0 w a w' = ingest_entries-Queued entries now 0 0 w h in
      elim (Bool-cases ((a == 0) && ltb 0 d)) [
        | inl none_taken ↦ rw none_taken (subst (λ n. Queued 0 w n w') (ground arith) queued)
        | inr some_taken ↦ rw some_taken queued
      ]
