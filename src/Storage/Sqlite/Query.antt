-- ===== src/Storage/Sqlite/Query.antt =====
-- The query of `QueryLogs` of internal/storage/sqlite.go and its arguments.
use sugi.Base.{
  ℕ, suc, ◌+◌, ◌≡◌, ◌⊎◌, refl, ap, Option, none, some, List, [], ◌∷◌, ◌++◌, if◌then◌else◌, ◌==◌,
  Bool-cases, inl, inr, length, arith, All, All-append,
}
use sugi.Base.Int.{ℤ, pos, negsuc, ltb_ℤ, ◌≤ℤ◌}
use sugi.Base.Text.{Text, codes, to_upper}
use sugi.Model.Log.{LogFilter}
use sugi.Storage.Sqlite.{
  Codec, Clauses, Value, integer, add_clause, filter_clauses, join_and, effective_limit, query_logs,
  where_clause, text_value, time_value,
}

-- The placeholders of a query.
unfoldable pub marks : Text → ℕ
marks [] = 0
marks (c ∷ s) = (if c == b'?' then 1 else 0) + marks s

marks-append : (s t : Text) → marks (s ++ t) ≡ marks s + marks t
unfolding marks
marks-append [] t = ground arith
marks-append (c ∷ s) t = ground (arith, marks-append s t)

-- Each condition has one placeholder, and there is an argument for each.
abbrev Matched : Clauses → Type 0
Matched (conditions, args) = All (λ s. marks s ≡ 1) conditions × (length args ≡ length conditions)

length-snoc : {A : Type 0} (xs : List A) (x : A) → length (xs ++ x ∷ []) ≡ suc (length xs)
length-snoc [] x = refl
length-snoc (y ∷ xs) x = ap suc (length-snoc xs x)

add_clause-Matched :
    (condition : Text) (v : Option Value) (k : Clauses)
    → marks condition ≡ 1
    → Matched k
    → Matched (add_clause condition v k)
unfolding add_clause
add_clause-Matched condition none (conditions, args) one h = h
add_clause-Matched condition (some v) (conditions, args) one h = (
  All-append (λ s. marks s ≡ 1) conditions (condition ∷ []) h.0 (one, tt),
  rw (length-snoc args v, length-snoc conditions condition) (ap suc h.1),
)

filter_clauses-Matched : (c : Codec) (filter : LogFilter) → Matched (filter_clauses c filter)
unfolding filter_clauses marks
filter_clauses-Matched c filter =
    let since = add_clause (codes "timestamp >= ?") (time_value filter.start_time) ([], []) in
    let until = add_clause (codes "timestamp <= ?") (time_value filter.end_time) since in
    let level =
      add_clause (codes "level = ?") (text_value (to_upper c.wide_upper) filter.level) until in
    let service = add_clause (codes "service = ?") (text_value (λ s. s) filter.service) level in
    let since_ok : Matched since =
      add_clause-Matched (codes "timestamp >= ?") _ ([], []) refl (tt, refl) in
    let until_ok : Matched until =
      add_clause-Matched (codes "timestamp <= ?") _ since refl since_ok in
    let level_ok : Matched level = add_clause-Matched (codes "level = ?") _ until refl until_ok in
    let service_ok : Matched service =
      add_clause-Matched (codes "service = ?") _ level refl level_ok in
    add_clause-Matched (codes "message LIKE ?") _ service refl service_ok

marks-join_and :
    (conditions : List Text)
    → All (λ s. marks s ≡ 1) conditions
    → marks (join_and conditions) ≡ length conditions
unfolding join_and marks
marks-join_and [] h = refl
marks-join_and (s ∷ []) h = h.0
marks-join_and (s ∷ t ∷ ss) h =
    rw (marks-append s, h.0) (ground (arith, marks-join_and (t ∷ ss) h.1))

marks-where_clause :
    (conditions : List Text)
    → All (λ s. marks s ≡ 1) conditions
    → marks (where_clause conditions) ≡ length conditions
unfolding marks
marks-where_clause [] h = refl
marks-where_clause (s ∷ ss) h = ground (arith, marks-join_and (s ∷ ss) h)

-- Every query has exactly as many placeholders as arguments, whatever the filter contains.
pub marks-query_logs :
    (c : Codec) (filter : LogFilter)
    → let (query, args) = query_logs c filter in marks query ≡ length args
unfolding query_logs marks
marks-query_logs c filter =
    let (conditions, args) = filter_clauses c filter in
    let matched = filter_clauses-Matched c filter in
    let ordered = codes " ORDER BY timestamp DESC LIMIT ?" in
    let limit = integer (effective_limit filter.limit) in
    let query =
      codes "SELECT id, timestamp, level, service, message, attributes FROM system_logs"
      ++ (where_clause conditions ++ ordered) in
    let query_marks : marks query ≡ suc (length args) = omega (
      arith,
      marks-append (where_clause conditions) ordered,
      marks-where_clause conditions matched.0,
      matched.1,
    ) in
    elim (Bool-cases (ltb_ℤ (pos 0) filter.offset)) [
      | inl more ↦
          rw
            (
              more,
              marks-append query (codes " OFFSET ?"),
              query_marks,
              length-snoc,
              length-snoc args limit,
            )
            (omega arith)
      | inr no_more ↦ rw (no_more, length-snoc args limit) query_marks
    ]

abbrev pub OutOfRange : ℤ → Type 0
OutOfRange limit = (limit ≤ℤ pos 0) ⊎ (pos 1001 ≤ℤ limit)

-- The limit that is used is from 1 to 1000: the one of the filter, or 100 where that is out of
-- range.
pub effective_limit-bounds :
    (limit : ℤ)
    → (pos 1 ≤ℤ effective_limit limit)
      × (effective_limit limit ≤ℤ pos 1000)
      × ((effective_limit limit ≡ limit) ⊎ (OutOfRange limit × (effective_limit limit ≡ pos 100)))
unfolding effective_limit
effective_limit-bounds (pos n) = (ground arith, ground arith, ground arith)
effective_limit-bounds (negsuc n) = (ground arith, ground arith, ground arith)
