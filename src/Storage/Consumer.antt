-- ===== src/Storage/Consumer.antt =====
-- `KafkaBatchConsumer` of services/storage/src/infrastructure/kafka/consumer.py. A message carries
-- what decoding its bytes gives or raises; `parse_iso s` is what `datetime.fromisoformat` makes of
-- `s.replace("Z", "+00:00")`. A dict is the list of its entries, in order.
pub mod Accepted
pub mod Batch
pub mod Keys
pub mod Tests
use realtime_analytics_pipel.Prelude.{
  ℕ, Bool, true, false, Option, none, some, List, [], ◌∷◌, ◌++◌, String, str_eq, map, Outcome, ok,
  raise, Exn, key_error, type_error, json_decode_error, kafka_exception, if◌then◌else◌, ◌||◌,
}

-- a JSON value in a row, after the timestamps have been parsed: a text, a time or any other value
pub data Cell (Time Other : Type 0) : Type 0 where
  text : String → Cell Time Other
  time : Time → Cell Time Other
  other : Other → Cell Time Other

-- What `json.loads` returns: an object, a text or list in which no timestamp field occurs, or another
-- value, for which `field in value` or `value[field]` raises `TypeError`.
pub data Decoded (Row Other : Type 0) : Type 0 where
  object : Row → Decoded Row Other
  loose : Other → Decoded Row Other
  scalar : Decoded Row Other

pub data Item (Row Other : Type 0) : Type 0 where
  row : Row → Item Row Other
  bare : Other → Item Row Other

pub data MessageError : Type 0 where
  partition_eof : MessageError
  kafka_error : (code : ℕ) → MessageError

pub record Message (Row Other : Type 0) : Type 0 where
  pub topic : String
  pub error : Option MessageError
  pub value : Outcome (Decoded Row Other)

-- topic → items, in the order of the subscription
abbrev pub Buffers : Type 0 → Type 0 → Type 0
Buffers Row Other = List (String × List (Item Row Other))

-- the timestamp fields, `_TS_FIELDS`
abbrev pub is_ts_field : String → Bool
is_ts_field k =
    str_eq k "window_start"
    || (str_eq k "window_end" || (str_eq k "start_time" || str_eq k "end_time"))

module _ {Time Other : Type 0} (parse_iso : String → Option Time) where
  -- `_maybe_parse_timestamp`, under the `isinstance` test
  abbrev pub maybe_parse_timestamp : Cell Time Other → Cell Time Other
  maybe_parse_timestamp (text s) = elim (parse_iso s) [ none ↦ text s | some t ↦ time t ]
  maybe_parse_timestamp c = c

  unfoldable pub parse_timestamps :
      List (String × Cell Time Other) → List (String × Cell Time Other)
  parse_timestamps [] = []
  parse_timestamps ((k, c) ∷ rest) =
      (k, (if is_ts_field k then maybe_parse_timestamp c else c)) ∷ parse_timestamps rest

module _ {Row Other : Type 0} where
  -- `self.buffers[topic].append(item)`
  unfoldable pub append : String → Item Row Other → Buffers Row Other → Outcome (Buffers Row Other)
  append topic item [] = raise key_error
  append topic item ((k, items) ∷ rest) =
      let later = append topic item rest in
      if str_eq k topic
      then ok ((k, items ++ item ∷ []) ∷ rest)
      else elim later [ ok b ↦ ok ((k, items) ∷ b) | raise e ↦ raise e ]

  unfoldable pub clear : Buffers Row Other → Buffers Row Other
  clear [] = []
  clear ((k, items) ∷ rest) = (k, []) ∷ clear rest

  -- the copy of the buffers, which are then cleared; with an exception they stay as they are
  unfoldable pub hand_over :
      Outcome (Unit {0}) × Buffers Row Other → Outcome (Buffers Row Other) × Buffers Row Other
  hand_over (ok _, b) = (ok b, clear b)
  hand_over (raise e, b) = (raise e, b)

-- `parse` is the treatment of the timestamps in a row
module _ {Row Other : Type 0} (parse : Row → Row) where
  -- the `try` of the loop's body: only a `JSONDecodeError` is caught
  unfoldable pub take_value :
      String → Outcome (Decoded Row Other) → Buffers Row Other → Outcome (Buffers Row Other)
  take_value topic (ok (object r)) b = append topic (row (parse r)) b
  take_value topic (ok (loose v)) b = append topic (bare v) b
  take_value topic (ok scalar) b = raise type_error
  take_value topic (raise json_decode_error) b = ok b
  take_value topic (raise e) b = raise e

  unfoldable pub handle_by :
      Option MessageError → Message Row Other → Buffers Row Other → Outcome (Buffers Row Other)
  handle_by none m b = take_value m.topic m.value b
  handle_by (some partition_eof) m b = ok b
  handle_by (some (kafka_error code)) m b = raise (kafka_exception code)

  -- the loop's body
  unfoldable pub handle : Message Row Other → Buffers Row Other → Outcome (Buffers Row Other)
  handle m b = handle_by m.error m b

  -- the loop over the messages polled: what it raises, if anything, and the buffers after it
  unfoldable pub handle_all :
      List (Message Row Other) → Buffers Row Other → Outcome (Unit {0}) × Buffers Row Other
  handle_all [] b = (ok tt, b)
  handle_all (m ∷ ms) b = elim (handle m b) [ ok b' ↦ handle_all ms b' | raise e ↦ (raise e, b) ]

  -- from the messages that `consumer.consume` has returned
  unfoldable pub consume_batch :
      List (Message Row Other) → Buffers Row Other → Outcome (Buffers Row Other) × Buffers Row Other
  consume_batch [] b = (ok [], b)
  consume_batch (m ∷ ms) b = hand_over (handle_all (m ∷ ms) b)

  -- the same with what `consumer.consume` returns or raises; then nothing has been handled
  unfoldable pub consume_batch_from :
      Outcome (List (Message Row Other))
      → Buffers Row Other
      → Outcome (Buffers Row Other) × Buffers Row Other
  consume_batch_from (ok ms) b = consume_batch ms b
  consume_batch_from (raise e) b = (raise e, b)
