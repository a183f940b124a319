-- ===== src/Collector/Harvester/Tail/Lines.antt =====
-- The lines that `tailFile` of internal/collector/log_harvester.go hands to `onLog`, in any run.
use sugi.Base.{
  ℕ, zero, suc, ◌≤◌, ◌≡◌, refl, sym, ap, ◌∙◌, false, List, [], ◌∷◌, ◌++◌, append_assoc, append-nil,
  ltb, leb, ◌==◌, ◌||◌, ◌&&◌, length, length-take, take, drop, All, All-append, Bool-cases,
  Option-cases, inl, inr, arith,
}
use sugi.Base.Text.{Text, is_empty, cut_at}
use sugi.Base.Cuts.{Lacks, cut_at-some, cut_at-Lacks}
use sugi.Collector.Harvester.Tail.{
  Tailer, Read, line, eof, trim_eol, clip, max_line, on_line, on_eof, on_read, poll, tick, written,
  read_string, Step, writes, truncates, ticks, polls, fails, stops, Run, here, next,
}
use sugi.Collector.Harvester.Tail.Complete.{logged_of, log_line-logged_of}

-- A line is not empty, has at most 4096 bytes, and no line end inside.
abbrev pub IsLine : Text → Type 0
IsLine l = (is_empty l ≡ false) × (length l ≤ max_line) × Lacks 10 l

-- Behind what had been logged, only lines have been added.
abbrev pub Extends : Tailer → Tailer → Type 0
Extends t u = (more : List Text) × (u.logged ≡ t.logged ++ more) × All IsLine more

trim_eol-Lacks : (s : Text) → Lacks 10 s → Lacks 10 (trim_eol s)
unfolding trim_eol
trim_eol-Lacks [] h = tt
trim_eol-Lacks (c ∷ s) h = elim (Bool-cases ((c == 13 || c == 10) && is_empty (trim_eol s))) [
  | inl end ↦ rw end tt
  | inr kept ↦ rw kept (h.0, trim_eol-Lacks s h.1)
]

take-Lacks : (n : ℕ) (s : Text) → Lacks 10 s → Lacks 10 (take n s)
take-Lacks zero s h = tt
take-Lacks (suc n) [] h = tt
take-Lacks (suc n) (c ∷ s) h = (h.0, take-Lacks n s h.1)

clip-fits : (s : Text) → Lacks 10 s → (length (clip s) ≤ max_line) × Lacks 10 (clip s)
unfolding clip
clip-fits s h = elim (Bool-cases (ltb max_line (length s))) [
  | inl long ↦ rw long (omega (arith, length-take max_line s), take-Lacks max_line s h)
  | inr short ↦ rw short (ground arith, h)
]

logged_of-IsLine : (l : Text) → Lacks 10 l → All IsLine (logged_of (l ∷ []))
unfolding logged_of
logged_of-IsLine l h = elim (Bool-cases (is_empty (clip (trim_eol l)))) [
  | inl e ↦ rw e tt
  | inr e ↦
      let (fits, lacks) = clip-fits (trim_eol l) (trim_eol-Lacks l h) in rw e ((e, fits, lacks), tt)
]

-- A line that is read ends in its only line end.
abbrev EndsOnce : Read → Type 0
EndsOnce (line l buf taken) = (x : Text) × (l ≡ x ++ 10 ∷ []) × Lacks 10 x
EndsOnce (eof taken) = Unit {0}

read_string-EndsOnce : (ahead : ℕ) (buf rest : Text) → EndsOnce (read_string ahead buf rest)
unfolding read_string
read_string-EndsOnce ahead buf rest = elim (Option-cases (cut_at 10 buf)) [
  | inr ((u, v), k) ↦ rw k (u, refl, (cut_at-some 10 buf k).0)
  | inl missing ↦ elim (Option-cases (cut_at 10 rest)) [
    | inl absent ↦ rw (missing, absent) tt
    | inr ((u, v), k) ↦
        rw (missing, k)
          (
            buf ++ u,
            sym (append_assoc buf u (10 ∷ [])),
            All-append _ buf u (cut_at-Lacks 10 buf missing) (cut_at-some 10 rest k).0,
          )
  ]
]

on_eof-logged : (taken : ℕ) (t : Tailer) → (on_eof taken t).logged ≡ t.logged
unfolding on_eof
on_eof-logged taken t = elim (Bool-cases (ltb (length t.file) t.offset)) [
  | inl cut ↦ rw cut refl
  | inr kept ↦ rw kept refl
]

on_read-Extends : (r : Read) (t : Tailer) → EndsOnce r → Extends t (on_read r t)
unfolding on_line
on_read-Extends (line l buf taken) t (x, e, h) =
    (logged_of (x ∷ []), rw e (log_line-logged_of x t.logged), logged_of-IsLine x h)
on_read-Extends (eof taken) t h = ([], on_eof-logged taken t ∙ sym (append-nil t.logged), tt)

nothing_logged :
    (logged : List Text) → (more : List Text) × (logged ≡ logged ++ more) × All IsLine more
nothing_logged logged = ([], sym (append-nil logged), tt)

Step-Extends : {max_rate : ℕ} {t u : Tailer} → Step max_rate t u → Extends t u
unfolding poll tick written
Step-Extends {t = t} (writes bytes) = nothing_logged t.logged
Step-Extends {t = t} (truncates n) = nothing_logged t.logged
Step-Extends {t = t} (ticks on) = nothing_logged t.logged
Step-Extends {max_rate} {t} (polls ahead on) =
    elim (Bool-cases (leb max_rate t.lines_this_second)) [
      | inl full ↦ rw full (nothing_logged t.logged)
      | inr room ↦ rw room (
          on_read-Extends (read_string ahead t.buf (drop t.pos t.file)) t
            (read_string-EndsOnce ahead t.buf (drop t.pos t.file)))
    ]
Step-Extends {t = t} (fails taken on) = nothing_logged t.logged
Step-Extends {t = t} stops = nothing_logged t.logged

-- In every run, with writes to the file, truncations, failing reads and a stop, what has been
-- logged stays as it is, and behind it come only lines that are not empty, have at most 4096 bytes
-- and hold no line end.
pub Run-Extends : {max_rate : ℕ} (t u : Tailer) → Run max_rate t u → Extends t u
Run-Extends t _ here = nothing_logged t.logged
Run-Extends t v (next {u} run step) =
    let (old, e, lines) = Run-Extends t u run in
    let (new, f, more) = Step-Extends step in
    (
      old ++ new,
      f ∙ ap (λ ls. ls ++ new) e ∙ append_assoc t.logged old new,
      All-append _ old new lines more,
    )
