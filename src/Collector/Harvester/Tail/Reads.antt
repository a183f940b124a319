-- ===== src/Collector/Harvester/Tail/Reads.antt =====
-- `reader.ReadString('\n')` in `tailFile` of internal/collector/log_harvester.go: what it makes of
-- a buffer and the rest of the file, taken together.
use sugi.Base.{
  ℕ, zero, suc, ◌+◌, ◌-◌, ◌≤◌, ◌≡◌, refl, sym, ap, ◌∙◌, [], ◌∷◌, ◌++◌, append_assoc, length,
  length-append, length-take, take, drop, drop-append_right, All-append, Option-cases, inl, inr,
  arith,
}
use sugi.Base.Text.{Text, cut_at}
use sugi.Base.Cuts.{Lacks, cut_at-none, cut_at-Lacks, cut_at-some, cut_at-append, cut_unique}
use sugi.Collector.Harvester.Tail.{Read, line, eof, read_string, read_file, read_buf}

-- The read returns the line `l` with its end, and leaves `s` to be read.
abbrev pub ReadsLine : Text → Text → Text → Read → Type 0
ReadsLine l s rest r =
    (buf : Text) × (taken : ℕ) × (r ≡ line (l ++ 10 ∷ []) buf taken)
    × (buf ++ drop taken rest ≡ s)
    × (taken ≤ length rest)

taken_again : (n : ℕ) (s : Text) → take n s ++ drop (length (take n s)) s ≡ s
taken_again zero s = refl
taken_again (suc n) [] = refl
taken_again (suc n) (c ∷ s) = ap (λ x. c ∷ x) (taken_again n s)

-- What a read ahead takes comes back from the buffer.
read_ahead :
    (ahead : ℕ) (before after : Text)
    → take ahead after
        ++ drop (length before + 1 + length (take ahead after)) (before ++ 10 ∷ after)
      ≡ after
read_ahead ahead before after =
    let k = length (take ahead after) in
    ap (λ x. take ahead after ++ x)
      (drop-append_right (length before + 1 + k) before (10 ∷ after) (omega arith)
        ∙ ap (λ n. drop n (10 ∷ after))
            (let j : length before + 1 + k - length before ≡ suc k = omega arith in j))
    ∙ taken_again ahead after

read_file-ReadsLine :
    (ahead : ℕ) (buf rest l s : Text)
    → Lacks 10 buf
    → Lacks 10 l
    → buf ++ rest ≡ l ++ 10 ∷ s
    → ReadsLine l s rest (read_file ahead buf rest (cut_at 10 rest))
read_file-ReadsLine ahead buf rest l s hb hl e = elim (Option-cases (cut_at 10 rest)) [
  | inl missing ↦
      let k =
        sym (cut_at-none 10 (buf ++ rest) (All-append _ buf rest hb (cut_at-Lacks 10 rest missing)))
        ∙ ap (cut_at 10) e
        ∙ cut_at-append 10 l s hl in
      cc
  | inr ((u, v), k) ↦
      let (hu, b) = cut_at-some 10 rest k in
      let (eu, ev) =
        cut_unique 10 (buf ++ u) v (All-append _ buf u hb hu) hl
          (append_assoc buf u (10 ∷ v) ∙ ap (λ x. buf ++ x) (sym b) ∙ e) in
      rw k (
        take ahead v,
        length u + 1 + length (take ahead v),
        ap (λ x. line x (take ahead v) (length u + 1 + length (take ahead v)))
            (sym (append_assoc buf u (10 ∷ [])) ∙ ap (λ x. x ++ 10 ∷ []) eu),
        ap (λ x. take ahead v ++ drop (length u + 1 + length (take ahead v)) x) b
            ∙ read_ahead ahead u v
            ∙ ev,
        ground (arith, ap length b, length-append u (10 ∷ v), length-take ahead v),
      )
]

read_buf-ReadsLine :
    (ahead : ℕ) (buf rest l s : Text)
    → Lacks 10 l
    → buf ++ rest ≡ l ++ 10 ∷ s
    → ReadsLine l s rest (read_buf ahead buf rest (cut_at 10 buf))
read_buf-ReadsLine ahead buf rest l s hl e = elim (Option-cases (cut_at 10 buf)) [
  | inl missing ↦
      rw missing (read_file-ReadsLine ahead buf rest l s (cut_at-Lacks 10 buf missing) hl e)
  | inr ((u, v), k) ↦
      let (hu, b) = cut_at-some 10 buf k in
      let (eu, ev) =
        cut_unique 10 u (v ++ rest) hu hl
          (sym (append_assoc u (10 ∷ v) rest) ∙ ap (λ x. x ++ rest) (sym b) ∙ e) in
      rw k (v, 0, ap (λ x. line (x ++ 10 ∷ []) v 0) eu, ev, omega arith)
]

-- Where what is left to read starts with a line, the read returns that line, and leaves what is
-- behind it.
pub read_string-ReadsLine :
    (ahead : ℕ) (buf rest l s : Text)
    → Lacks 10 l
    → buf ++ rest ≡ l ++ 10 ∷ s
    → ReadsLine l s rest (read_string ahead buf rest)
unfolding read_string
read_string-ReadsLine = read_buf-ReadsLine

-- Where nothing that is left to read ends a line, the read meets the end of the file.
pub read_string-eof :
    (ahead : ℕ) (buf rest : Text)
    → Lacks 10 buf
    → Lacks 10 rest
    → read_string ahead buf rest ≡ eof (length rest)
unfolding read_string
read_string-eof ahead buf rest hb hr = rw (cut_at-none 10 buf hb, cut_at-none 10 rest hr) refl
