-- ===== src/Collector/Harvester/Tail/Torn.antt =====
-- `tailFile` of internal/collector/log_harvester.go, where it meets the end of the file inside a
-- line.
use sugi.Base.{
  ℕ, ◌+◌, ◌<◌, ◌≡◌, refl, ap, ◌∙◌, false, [], ◌∷◌, ◌++◌, leb, ltb, length, length-append, drop,
  drop_append, arith,
}
use sugi.Base.Text.{Text}
use sugi.Base.Cuts.{Lacks}
use sugi.Collector.Harvester.Tail.{Tailer, on_line, on_eof, poll, written, log_line}
use sugi.Collector.Harvester.Tail.Reads.{read_string-ReadsLine, read_string-eof}
use sugi.Collector.Harvester.Tail.Complete.{logged_of, log_line-logged_of}
use sugi.Collector.Harvester.Tail.Appends.{IsAtEnd}

-- The tailer polls between the two writes of a line, and behind them.
unfoldable pub torn : ℕ → Tailer → Text → Text → ℕ → ℕ → Tailer
torn max_rate t p r ahead later =
    poll max_rate later (written (r ++ 10 ∷ []) (poll max_rate ahead (written p t)))

-- Behind the first poll, the part `p` of a line has been taken from the file, and is nowhere.
dropped : Tailer → Text → Tailer
dropped t p = record t { file = t.file ++ p; pos = length (t.file ++ p); buf = [] }

module _ (max_rate : ℕ) (t : Tailer) (p : Text) (ahead : ℕ) (end : IsAtEnd t)
    (room : t.lines_this_second < max_rate) (hp : Lacks 10 p) where
  poll-dropped : poll max_rate ahead (written p t) ≡ dropped t p
  unfolding poll written dropped on_eof
  poll-dropped =
      let kept : leb max_rate t.lines_this_second ≡ false = ground arith in
      let e : drop t.pos (t.file ++ p) ≡ p =
        ap (λ n. drop n (t.file ++ p)) end.1 ∙ drop_append t.file p in
      let whole : ltb (length (t.file ++ p)) t.offset ≡ false =
        ground (arith, end.2, length-append t.file p) in
      rw (kept, e, end.0, read_string-eof ahead [] p tt hp, whole)
        (ap (λ n. record t { file = t.file ++ p; pos = n; buf = [] })
          (omega (arith, end.1, length-append t.file p)))

  module _ (r : Text) (later : ℕ) (hr : Lacks 10 r) where
    second_poll :
        (poll max_rate later (written (r ++ 10 ∷ []) (dropped t p))).logged
          ≡ log_line (r ++ 10 ∷ []) t.logged
        × ((poll max_rate later (written (r ++ 10 ∷ []) (dropped t p))).offset
            ≡ t.offset + length (r ++ 10 ∷ []))
    unfolding poll written dropped on_line
    second_poll =
        let kept : leb max_rate t.lines_this_second ≡ false = ground arith in
        let e = drop_append (t.file ++ p) (r ++ 10 ∷ []) in
        let (buf, taken, k, left, fits) =
          read_string-ReadsLine later [] (r ++ 10 ∷ []) r [] hr refl in
        rw (kept, e, k) (refl, refl)

-- When the tailer stands at the end of the file, with nothing buffered, and has not reached the
-- limit of lines of this second: a line without an inner line end that is then written in two
-- parts, with a poll between them and one behind them, is logged without its first part (the second
-- part alone, without its line end and cut at 4096 bytes, or nothing if that is empty), and
-- `offset` falls behind the size of the file by the first part.
pub torn-logged :
    (max_rate : ℕ) (t : Tailer) (p r : Text) (ahead later : ℕ)
    → IsAtEnd t
    → t.lines_this_second < max_rate
    → Lacks 10 p
    → Lacks 10 r
    → ((torn max_rate t p r ahead later).logged ≡ t.logged ++ logged_of (r ∷ []))
      × ((torn max_rate t p r ahead later).offset + length p
          ≡ length (t.file ++ (p ++ (r ++ 10 ∷ []))))
unfolding torn
torn-logged max_rate t p r ahead later end room hp hr =
    let (logs, counts) = second_poll max_rate t p ahead end room hp r later hr in
    rw (poll-dropped max_rate t p ahead end room hp) (
      logs ∙ log_line-logged_of r t.logged,
      omega (
        arith,
        counts,
        end.2,
        length-append t.file (p ++ (r ++ 10 ∷ [])),
        length-append p (r ++ 10 ∷ []),
      ),
    )
