-- ===== src/Cache/Parser.antt =====
-- services/cache/src/infrastructure/kafka/message_parser.py. A payload is the list of the entries of
-- a JSON object; Python's integers, floats and conversions are parameters.
pub mod Tests
use realtime_analytics_pipel.Prelude.{
  ℕ, Bool, true, false, Option, none, some, List, [], ◌∷◌, String, str_eq, Exn, Outcome, ok, raise,
  ◌>>=◌, if◌then◌else◌,
}
use realtime_analytics_pipel.Cache.Redis.{Kind, event, perf}

-- a JSON value; `other` stands for floats, lists and objects
pub data Value (Int Other : Type 0) : Type 0 where
  null : Value Int Other
  boolean : Bool → Value Int Other
  integer : Int → Value Int Other
  text : String → Value Int Other
  other : Other → Value Int Other

-- a field of the hash: its name is the category, a dot and the metric
pub record Field (Int Other Number : Type 0) : Type 0 where
  pub category : Value Int Other
  pub metric : String
  pub number : Number

pub record Parsed (Int Other Number : Type 0) : Type 0 where
  pub kind : Kind
  pub window_start : Int
  pub fields : List (Field Int Other Number)

-- What Python does with a value: `of_bool` is a `bool` seen as an `int`, `parse_iso` the milliseconds of
-- a text that `fromisoformat` reads, `to_int` and `to_float` the conversions, `truthy` the test of `not`.
pub record Python (Int Other Number : Type 0) : Type 0 where
  pub of_bool : Bool → Int
  pub parse_iso : String → Option Int
  pub to_int : Value Int Other → Outcome Number
  pub to_float : Value Int Other → Outcome Number
  pub truthy : Value Int Other → Bool
  -- the defaults `0` and `0.0`
  pub no_count : Value Int Other
  pub no_time : Value Int Other

module _ {Int Other Number : Type 0} (python : Python Int Other Number) where
  -- `payload.get(key, default)`
  unfoldable pub get_or :
      Value Int Other → String → List (String × Value Int Other) → Value Int Other
  get_or default key [] = default
  get_or default key ((k, v) ∷ rest) =
      let later = get_or default key rest in if str_eq k key then v else later

  -- `_coerce_ts`
  unfoldable pub coerce_ts : Value Int Other → Option Int
  coerce_ts (boolean b) = some (python.of_bool b)
  coerce_ts (integer n) = some n
  coerce_ts (text s) = python.parse_iso s
  coerce_ts v = none

  -- the two metrics of a category, converted in the order of the dict
  unfoldable pub two_fields :
      (convert : Value Int Other → Outcome Number)
      → (category : Value Int Other) → String × Value Int Other
      → String × Value Int Other
      → Outcome (List (Field Int Other Number))
  two_fields convert category (m, v) (n, w) = convert v >>= (λ a. convert w >>= (λ b. ok (
      record { category = category; metric = m; number = a }
      ∷ record { category = category; metric = n; number = b }
      ∷ [])))

  -- the operation of a window whose start and category have been read
  unfoldable pub operation :
      Kind
      → Option Int
      → (category : Value Int Other) → (fields : Outcome (List (Field Int Other Number)))
      → Outcome (Option (Parsed Int Other Number))
  operation kind none category fields = ok none
  operation kind (some start) category fields =
      if python.truthy category
      then fields >>= (λ fs. ok (some (record { kind = kind; window_start = start; fields = fs })))
      else ok none

  unfoldable pub parse_event :
      List (String × Value Int Other) → Outcome (Option (Parsed Int Other Number))
  parse_event payload =
      let category = get_or null "event_type" payload in
      operation event (coerce_ts (get_or null "window_start" payload)) category (
        two_fields python.to_int category ("count", get_or python.no_count "event_count" payload)
          ("users", get_or python.no_count "user_count" payload))

  unfoldable pub parse_performance :
      List (String × Value Int Other) → Outcome (Option (Parsed Int Other Number))
  parse_performance payload =
      let category = get_or null "device_category" payload in
      operation perf (coerce_ts (get_or null "window_start" payload)) category (
        two_fields python.to_float category
          ("avg_load_time", get_or python.no_time "avg_load_time" payload)
          ("p95_load_time", get_or python.no_time "p95_load_time" payload))

  -- session metrics and unknown topics give nothing; the latter are logged
  unfoldable pub parse_message :
      String → List (String × Value Int Other) → Outcome (Option (Parsed Int Other Number))
  parse_message topic payload =
      if str_eq topic "event_metrics"
      then parse_event payload
      else if str_eq topic "performance_metrics"
      then parse_performance payload
      else ok none
