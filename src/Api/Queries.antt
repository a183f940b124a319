-- ===== src/Api/Queries.antt =====
-- internal/api/handler.go: the handlers that read. Of a response, the status and the data that are
-- written as JSON are kept; an absent component is `none`.
use sugi.Base.{ℕ, Bool, Option, none, some, List, if◌then◌else◌, length}
use sugi.Base.Int.{ℤ, pos, le_zero}
use sugi.Base.Text.{Text, is_empty}
use sugi.Base.Result.{Result, ok, err}
use sugi.Model.Time.{Instant}
use sugi.Model.Log.{LogEntry, LogFilter}
use sugi.Collector.Scan.{Parsed, parsed, syntax, out_of_range, atoi}
use sugi.Storage.Ring.{RingBuffer, get_latest, get_last_n, get_all, get_capacity}
use sugi.Storage.Sqlite.{Engine, Codec}
use sugi.Storage.Sqlite.Reads.{QueryEngine, Unmarshal, QueryError, run_query, count_logs}

-- What `q.Get` returns for each name.
pub record Query : Type 0 where
  pub level : Text
  pub service : Text
  pub search : Text
  pub limit : Text
  pub offset : Text
  pub start : Text
  pub end : Text

-- A number that is not given, or not one, leaves the zero value of its field.
abbrev number_or_zero : Parsed ℤ → ℤ
number_or_zero (parsed n) = n
number_or_zero syntax = pos 0
number_or_zero (out_of_range n) = pos 0

unfoldable pub number_param : Text → ℤ
unfolding atoi
number_param s = if is_empty s then pos 0 else number_or_zero (atoi s)

-- `parse_rfc3339` is time.Parse at the layout RFC3339.
abbrev pub time_param : (Text → Option Instant) → Text → Option Instant
time_param parse_rfc3339 s = if is_empty s then none else parse_rfc3339 s

-- The filter that `HandleQueryLogs` builds.
unfoldable pub filter_of : (Text → Option Instant) → Query → LogFilter
unfolding number_param
filter_of parse_rfc3339 q = record {
  start_time = time_param parse_rfc3339 q.start;
  end_time = time_param parse_rfc3339 q.end;
  level = q.level;
  service = q.service;
  search = q.search;
  limit = number_param q.limit;
  offset = number_param q.offset;
}

-- The status of an error, or what is returned with status 200.
pub data Response {ℓ} (A : Type ℓ) : Type ℓ where
  failed : ℕ → Response A
  found : A → Response A

abbrev pub logs_response : Result QueryError (List LogEntry) → Response (ℕ × List LogEntry)
logs_response (ok logs) = found (length logs, logs)
logs_response (err e) = failed 500

module _ (e : Engine) (q : QueryEngine e) (c : Codec) (unmarshal : Unmarshal)
    (parse_rfc3339 : Text → Option Instant) where
  -- `HandleQueryLogs`.
  unfoldable pub handle_query_logs : Option e.Db → Query → Response (ℕ × List LogEntry)
  unfolding run_query filter_of
  handle_query_logs none query = failed 503
  handle_query_logs (some db) query =
      logs_response (run_query e q c unmarshal (filter_of parse_rfc3339 query) db)

  abbrev count_or_zero : Option ℤ → ℤ
  count_or_zero none = pos 0
  count_or_zero (some n) = n

  -- `getLogCount`.
  unfoldable pub get_log_count : Option e.Db → ℤ
  unfolding count_logs
  get_log_count none = pos 0
  get_log_count (some db) = count_or_zero (count_logs e q db)

module _ {ℓ} {A : Type ℓ} (empty : A) where
  abbrev pub latest_response : A × Bool → Response (Option A)
  latest_response (x, known) = found (if known then some x else none)

  -- `HandleGetMetrics`; `none` is the message that there is no snapshot yet.
  unfoldable pub handle_get_metrics : Option (RingBuffer A) → Response (Option A)
  unfolding get_latest
  handle_get_metrics none = failed 503
  handle_get_metrics (some r) = latest_response (get_latest empty r)

  -- The variable `snapshots` before it is tested for nil.
  abbrev pub asked_for : RingBuffer A → Parsed ℤ → Option (List A)
  asked_for r (parsed n) = if le_zero n then none else some (get_last_n empty r n)
  asked_for r syntax = none
  asked_for r (out_of_range n) = none

  abbrev pub or_all : RingBuffer A → Option (List A) → List A
  or_all r none = get_all empty r
  or_all r (some xs) = xs

  unfoldable pub history_of : RingBuffer A → Text → List A
  unfolding atoi get_last_n get_all
  history_of r n = or_all r (if is_empty n then none else asked_for r (atoi n))

  -- `HandleGetMetricsHistory`: the count, the capacity and the snapshots.
  unfoldable pub handle_get_metrics_history :
      Option (RingBuffer A) → Text → Response (ℕ × ℕ × List A)
  unfolding history_of get_capacity
  handle_get_metrics_history none n = failed 503
  handle_get_metrics_history (some r) n =
      let snapshots = history_of r n in found (length snapshots, get_capacity r, snapshots)
