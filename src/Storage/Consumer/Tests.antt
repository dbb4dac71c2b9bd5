-- ===== src/Storage/Consumer/Tests.antt =====
-- Polls of the storage consumer at concrete messages.
use realtime_analytics_pipel.Prelude.{
  ℕ, ◌≡◌, refl, Option, none, some, List, [], ◌∷◌, String, str_eq, if◌then◌else◌, Outcome, ok,
  raise, key_error, type_error, json_decode_error, kafka_exception,
}
use realtime_analytics_pipel.Storage.Consumer.{
  Cell, text, time, other, Decoded, object, loose, scalar, row, bare, partition_eof, kafka_error,
  Message, Buffers, parse_timestamps, append, take_value, handle_by, handle, handle_all, clear,
  hand_over, consume_batch,
}
use realtime_analytics_pipel.Storage.Consumer.Batch.{Consumed, consume_batch-Consumed}

abbrev Row : Type 0
Row = List (String × Cell ℕ ℕ)

abbrev parse_iso : String → Option ℕ
parse_iso s = if str_eq s "2024-01-01T00:00:00+00:00" then some 1704067200 else none

abbrev parse : Row → Row
parse r = parse_timestamps parse_iso r

abbrev window : Row
window = ("window_start", text "2024-01-01T00:00:00+00:00") ∷ ("event_count", other 3) ∷ []

abbrev parsed_window : Row
parsed_window = ("window_start", time 1704067200) ∷ ("event_count", other 3) ∷ []

parses_the_timestamp : parse window ≡ parsed_window
unfolding parse_timestamps
parses_the_timestamp = refl

abbrev from_topic : String → Outcome (Decoded Row ℕ) → Message Row ℕ
from_topic t v = record { topic = t; error = none; value = v }

abbrev end_of_partition : Message Row ℕ
end_of_partition = record {
  topic = "events";
  error = some partition_eof;
  value = raise json_decode_error;
}

abbrev broken : Message Row ℕ
broken = record { topic = "events"; error = some (kafka_error 7); value = raise json_decode_error }

abbrev buffers : Buffers Row ℕ
buffers = ("events", bare 1 ∷ []) ∷ ("sessions", []) ∷ []

abbrev poll : List (Message Row ℕ)
poll =
    end_of_partition
    ∷ from_topic "sessions" (ok (object window))
    ∷ from_topic "events" (raise json_decode_error)
    ∷ from_topic "events" (ok (loose 2))
    ∷ []

-- an end of partition and a text that is not JSON are skipped
returns_the_rows : consume_batch parse poll buffers ≡ (
  ok (("events", bare 1 ∷ bare 2 ∷ []) ∷ ("sessions", row parsed_window ∷ []) ∷ []),
  ("events", []) ∷ ("sessions", []) ∷ [],
)
unfolding consume_batch hand_over handle_all handle handle_by take_value append clear
    parse_timestamps
returns_the_rows = refl

-- a number has no fields: `field in value` raises, and the last row of the poll is lost
loses_the_rest :
    consume_batch parse
      (from_topic "events" (ok scalar) ∷ from_topic "events" (ok (loose 2)) ∷ [])
      buffers
    ≡ (raise type_error, buffers)
unfolding consume_batch hand_over handle_all handle handle_by take_value
loses_the_rest = refl

raises_the_error :
    consume_batch parse (broken ∷ poll) buffers ≡ (raise (kafka_exception 7), buffers)
unfolding consume_batch hand_over handle_all handle handle_by
raises_the_error = refl

unknown_topic :
    consume_batch parse (from_topic "other" (ok (loose 2)) ∷ []) buffers
    ≡ (raise key_error, buffers)
unfolding consume_batch hand_over handle_all handle handle_by take_value append
unknown_topic = refl

consume_batch-Consumed_example : Consumed parse poll buffers (consume_batch parse poll buffers)
consume_batch-Consumed_example =
    consume_batch-Consumed parse end_of_partition
      (from_topic "sessions" (ok (object window))
        ∷ from_topic "events" (raise json_decode_error)
        ∷ from_topic "events" (ok (loose 2))
        ∷ [])
      buffers
