-- ===== src/Api/Ingest/Tests.antt =====
-- Ingestion at concrete requests.
use sugi.Base.{◌≡◌, refl, Bool, true, false, none, some, []}
use sugi.Base.Int.{pos}
use sugi.Base.Text.{codes, text_eq}
use sugi.Model.Time.{zero_time}
use sugi.Model.Log.{LogEntry}
use sugi.Api.Ingest.{Decoder, Sink, refused, counted, Request, detect_log_level, handle_ingest_logs}

abbrev decoder : Decoder
decoder = record {
  wide_upper = λ c. c;
  unmarshal_entry = λ text. none;
  unmarshal_entries = λ text. none;
}

abbrev entry : LogEntry
entry = record {
  id = pos 0;
  timestamp = zero_time;
  level = [];
  service = [];
  message = codes "Fatal: no route";
  attributes = [];
}

level_of_fatal : detect_log_level decoder entry.message ≡ codes "ERROR"
unfolding detect_log_level
level_of_fatal = refl

-- A sink that takes one entry and is full then.
abbrev takes_one : Bool → Bool × Bool
takes_one true = (true, false)
takes_one false = (false, false)

abbrev one_place : Sink
one_place = record {
  State = Bool;
  enqueue = λ e free. takes_one free;
  broadcast_log = λ e free. free;
}

abbrev plain : Request
plain = record {
  body = some (codes " up\n\ndown\n");
  content_type = codes "text/plain";
  service_query = [];
  service_header = codes "web";
}

second_line_dropped :
    (handle_ingest_logs one_place true decoder plain zero_time true).0 ≡ counted 202 1 1
unfolding handle_ingest_logs text_eq
second_line_dropped = refl

all_dropped : (handle_ingest_logs one_place true decoder plain zero_time false).0 ≡ counted 429 0 2
unfolding handle_ingest_logs text_eq
all_dropped = refl

bad_json :
    (handle_ingest_logs one_place true decoder
      (record plain { body = some (codes "{") })
      zero_time
      true).0
    ≡ refused 400
unfolding handle_ingest_logs text_eq
bad_json = refl
