-- ===== src/Collector/Harvester/Tail/Rate.antt =====
-- The rate limit of `tailFile` of internal/collector/log_harvester.go.
use sugi.Base.{
  ℕ, ◌+◌, ◌≤◌, ◌<◌, List, [], ◌∷◌, leb, length, length-append, drop, take, Bool-cases, inl, inr,
  arith,
}
use sugi.Base.Text.{Text, is_empty}
use sugi.Collector.Harvester.Tail.{
  Tailer, Read, poll, log_line, clip, trim_eol, on_line, on_eof, on_read, read_string, line, eof,
  written, tick,
}

-- A line is logged at most once.
length-log_line : (l : Text) (logged : List Text) → length (log_line l logged) ≤ length logged + 1
unfolding log_line
length-log_line l logged = elim (Bool-cases (is_empty (clip (trim_eol l)))) [
  | inl e ↦ rw e (omega arith)
  | inr e ↦ rw (e, length-append logged (clip (trim_eol l) ∷ [])) (omega arith)
]

-- From `t` to `u` the count of lines of this second covers what has been logged, and stays within
-- the limit.
abbrev pub Limited : ℕ → Tailer → Tailer → Type 0
Limited max_rate t u =
    (u.lines_this_second ≤ max_rate)
    × (length u.logged + t.lines_this_second ≤ length t.logged + u.lines_this_second)

on_read-Limited :
    (max_rate : ℕ) (r : Read) (t : Tailer)
    → t.lines_this_second < max_rate
    → Limited max_rate t (on_read r t)
unfolding on_line on_eof
on_read-Limited max_rate (line l buf taken) t h =
    (omega arith, omega (arith, length-log_line l t.logged))
on_read-Limited max_rate (eof taken) t h = ground arith

poll-Limited :
    (max_rate ahead : ℕ) (t : Tailer)
    → t.lines_this_second ≤ max_rate
    → Limited max_rate t (poll max_rate ahead t)
unfolding poll
poll-Limited max_rate ahead t h = elim (Bool-cases (leb max_rate t.lines_this_second)) [
  | inl full ↦ rw full ((h, omega arith))
  | inr room ↦
      rw room
        (on_read-Limited max_rate (read_string ahead t.buf (drop t.pos t.file)) t (ground arith))
]

-- Steps of one second: none of them is a tick of the rate ticker.
pub data Within (max_rate : ℕ) (t : Tailer) : Tailer → Type 0 where
  started : Within max_rate t t
  write : {u : Tailer} (bytes : Text) → Within max_rate t u → Within max_rate t (written bytes u)
  cut :
      {u : Tailer} (n : ℕ)
      → Within max_rate t u
      → Within max_rate t (record u { file = take n u.file })
  read : {u : Tailer} (ahead : ℕ) → Within max_rate t u → Within max_rate t (poll max_rate ahead u)
  fail :
      {u : Tailer} (taken : ℕ)
      → Within max_rate t u
      → Within max_rate t (record u { buf = []; pos = u.pos + taken })

Within-Limited :
    {max_rate : ℕ} {t u : Tailer}
    → Within max_rate t u
    → t.lines_this_second ≤ max_rate
    → Limited max_rate t u
unfolding written
Within-Limited started h = (h, omega arith)
Within-Limited (write bytes w) h = Within-Limited w h
Within-Limited (cut n w) h = Within-Limited w h
Within-Limited {max_rate} {t} (read {u} ahead w) h =
    let before = Within-Limited w h in
    let after = poll-Limited max_rate ahead u before.0 in
    (after.0, omega (arith, before.1, after.1))
Within-Limited (fail taken w) h = Within-Limited w h

-- Behind a tick of the rate ticker, and before the next one, at most `max_rate` lines of the file
-- are logged, whatever is written to the file, is cut from it or fails to be read.
pub Within-max_rate :
    {max_rate : ℕ} (t : Tailer) {u : Tailer}
    → Within max_rate (tick t) u
    → length u.logged ≤ length t.logged + max_rate
unfolding tick
Within-max_rate t w = let r = Within-Limited w (omega arith) in omega (arith, r.0, r.1)
