-- ===== src/Collector/Harvester/Tail/Complete.antt =====
-- `tailFile` of internal/collector/log_harvester.go, on a file that other processes append whole
-- lines to.
use sugi.Base.{
  subst, ℕ, ◌+◌, ◌≤◌, ◌<◌, ◌≡◌, refl, sym, ap, ◌∙◌, false, List, [], ◌∷◌, ◌++◌, append_assoc,
  append-nil, if◌then◌else◌, ltb, leb, length, length-append, length-drop, drop, drop-drop,
  drop_all, All, Bool-cases, inl, inr, arith,
}
use sugi.Base.Text.{Text, is_empty}
use sugi.Base.Cuts.{Lacks}
use sugi.Collector.Harvester.Tail.{Tailer, trim_eol, clip, log_line, on_line, on_eof, poll}
use sugi.Collector.Harvester.Tail.Reads.{read_string-ReadsLine, read_string-eof}

-- Lines as they stand in a file.
unfoldable pub join_lines : List Text → Text
join_lines [] = []
join_lines (l ∷ ls) = l ++ 10 ∷ join_lines ls

-- What is logged of lines: each one without its end and within 4096 bytes, unless that is empty.
unfoldable pub logged_of : List Text → List Text
logged_of [] = []
logged_of (l ∷ ls) =
    let c = clip (trim_eol l) in let rest = logged_of ls in if is_empty c then rest else c ∷ rest

pub join_lines-append : (ls ms : List Text) → join_lines (ls ++ ms) ≡ join_lines ls ++ join_lines ms
unfolding join_lines
join_lines-append [] ms = refl
join_lines-append (l ∷ ls) ms =
    ap (λ s. l ++ 10 ∷ s) (join_lines-append ls ms)
    ∙ sym (append_assoc l (10 ∷ join_lines ls) (join_lines ms))

logged_of-append : (ls ms : List Text) → logged_of (ls ++ ms) ≡ logged_of ls ++ logged_of ms
unfolding logged_of
logged_of-append [] ms = refl
logged_of-append (l ∷ ls) ms = elim (Bool-cases (is_empty (clip (trim_eol l)))) [
  | inl e ↦ rw e (logged_of-append ls ms)
  | inr e ↦ rw (e, logged_of-append ls ms) refl
]

trim_eol-append : (l : Text) → trim_eol (l ++ 10 ∷ []) ≡ trim_eol l
unfolding trim_eol
trim_eol-append [] = refl
trim_eol-append (c ∷ l) = rw (trim_eol-append l) refl

pub log_line-logged_of :
    (l : Text) (before : List Text) → log_line (l ++ 10 ∷ []) before ≡ before ++ logged_of (l ∷ [])
unfolding log_line logged_of
log_line-logged_of l before = elim (Bool-cases (is_empty (clip (trim_eol l)))) [
  | inl e ↦ rw (trim_eol-append l, e) (sym (append-nil before))
  | inr e ↦ rw (trim_eol-append l, e) refl
]

logs_next :
    (l : Text) (first done logged : List Text)
    → logged ≡ first ++ logged_of done
    → log_line (l ++ 10 ∷ []) logged ≡ first ++ logged_of (done ++ l ∷ [])
logs_next l first done logged e =
    log_line-logged_of l logged
    ∙ ap (λ x. x ++ logged_of (l ∷ [])) e
    ∙ append_assoc first (logged_of done) (logged_of (l ∷ []))
    ∙ ap (λ x. first ++ x) (sym (logged_of-append done (l ∷ [])))

-- What has been logged since `first` are the lines `done`, and `pending` are all that is left to
-- read.
abbrev pub Follows : List Text → Tailer → List Text → List Text → Type 0
Follows first u done pending =
    (u.logged ≡ first ++ logged_of done)
    × (u.buf ++ drop u.pos u.file ≡ join_lines pending)
    × (u.offset + length (u.buf ++ drop u.pos u.file) ≡ length u.file)
    × (u.pos ≤ length u.file)
    × All (Lacks 10) pending

module _ (first done : List Text) (u : Tailer) where
  on_line-Follows :
      (l : Text) (ls : List Text) (buf : Text) (taken : ℕ)
      → Follows first u done (l ∷ ls)
      → buf ++ drop taken (drop u.pos u.file) ≡ join_lines ls
      → taken ≤ length (drop u.pos u.file)
      → Follows first (on_line (l ++ 10 ∷ []) buf taken u) (done ++ l ∷ []) ls
  unfolding on_line join_lines
  on_line-Follows l ls buf taken (logged, unread, sizes, pos, ends) left room =
      let e = ap (λ x. buf ++ x) (sym (drop-drop taken u.pos u.file)) ∙ left in
      (
        logs_next l first done u.logged logged,
        e,
        omega (
          arith,
          sizes,
          ap length unread,
          ap length e,
          length-append l (10 ∷ []),
          length-append l (10 ∷ join_lines ls),
        ),
        omega (arith, room, length-drop u.pos u.file),
        ends.1,
      )

  on_eof-Follows :
      Follows first u done [] → Follows first (on_eof (length (drop u.pos u.file)) u) done []
  unfolding on_eof join_lines
  on_eof-Follows (logged, unread, sizes, pos, ends) =
      let kept : ltb (length u.file) u.offset ≡ false = ground (arith, sizes) in
      let n = length (drop u.pos u.file) in
      let none_left : drop (u.pos + n) u.file ≡ [] =
        drop_all (u.pos + n) u.file (omega (arith, length-drop u.pos u.file)) in
      let size : u.offset ≡ length u.file = omega (arith, sizes, ap length unread) in
      rw (kept, none_left)
        (logged, refl, omega (arith, size), omega (arith, pos, length-drop u.pos u.file), tt)

open_cut : (u : Text) → u ≡ [] → Lacks 10 u
open_cut u e = subst (Lacks 10) (sym e) tt

nothing_left : (s t : Text) → s ++ t ≡ [] → (s ≡ []) × (t ≡ [])
nothing_left [] t e = (refl, e)
nothing_left (c ∷ s) t e = cc

module _ (max_rate ahead : ℕ) (first done : List Text) (u : Tailer)
    (room : u.lines_this_second < max_rate) where
  -- A poll takes the next line, if there is one.
  pub poll-Follows_line :
      (l : Text) (ls : List Text)
      → Follows first u done (l ∷ ls)
      → Follows first (poll max_rate ahead u) (done ++ l ∷ []) ls
  unfolding poll join_lines
  poll-Follows_line l ls f =
      let (buf, taken, e, left, fits) =
        read_string-ReadsLine ahead u.buf (drop u.pos u.file) l (join_lines ls) f.4.0 f.1 in
      let kept : leb max_rate u.lines_this_second ≡ false = ground arith in
      rw (kept, e) (on_line-Follows first done u l ls buf taken f left fits)

  pub poll-Follows_eof : Follows first u done [] → Follows first (poll max_rate ahead u) done []
  unfolding poll join_lines
  poll-Follows_eof f =
      let (b, r) = nothing_left u.buf (drop u.pos u.file) f.1 in
      let kept : leb max_rate u.lines_this_second ≡ false = ground arith in
      rw
        (
          kept,
          read_string-eof ahead u.buf (drop u.pos u.file) (open_cut u.buf b)
              (open_cut (drop u.pos u.file) r),
        )
        (on_eof-Follows first done u f)
