-- ===== src/Chain/Records.antt =====
-- The records of the processing service's sinks and the parser of the cache service.
use realtime_analytics_pipel.Prelude.{◌≡◌, refl, true, some, List, [], ◌∷◌, String, Outcome, ok}
use realtime_analytics_pipel.Processing.Tables.{Schema}
use realtime_analytics_pipel.Processing.Tables.Scope.{column_names}
use realtime_analytics_pipel.Processing.Schemas.{
  get_event_metrics_sink_schema, get_performance_metrics_sink_schema,
}
use realtime_analytics_pipel.Cache.Redis.{Kind, event, perf}
use realtime_analytics_pipel.Cache.Parser.{
  Value, Python, get_or, coerce_ts, two_fields, operation, parse_event, parse_performance,
  parse_message,
}
use realtime_analytics_pipel.Shared.Topics.{event_metrics_topic, performance_metrics_topic}

-- the JSON object that has the values under the columns, in order
abbrev pub record_of : {V : Type 0} → (columns : List String) → List V → List (String × V)
record_of (c ∷ cs) (v ∷ vs) = (c, v) ∷ record_of cs vs
record_of _ _ = []

-- the sink of each kind of window
abbrev pub sink_of : Kind → Schema
sink_of event = get_event_metrics_sink_schema
sink_of perf = get_performance_metrics_sink_schema

-- the topic that each sink writes by default
abbrev pub default_topic : Kind → String
default_topic event = event_metrics_topic
default_topic perf = performance_metrics_topic

-- the metrics that the hash has for the last two columns
abbrev pub metrics_of : Kind → String × String
metrics_of event = ("count", "users")
metrics_of perf = ("avg_load_time", "p95_load_time")

module _ {Int Other Number : Type 0} (python : Python Int Other Number) where
  abbrev pub convert : Kind → Value Int Other → Outcome Number
  convert event = python.to_int
  convert perf = python.to_float

  -- A record with the columns of a sink, in order, is translated to one operation of the kind of that
  -- sink, which has each of the values in its place: the start of the window, the category, and the two
  -- metrics, provided that the start can be coerced, the category is truthy and the metrics can be
  -- converted. (The end of the window is not read.)
  pub parse_message-record_of :
      (kind : Kind) (begins ends category first second : Value Int Other) (w : Int) (m n : Number)
      → coerce_ts python begins ≡ some w
      → python.truthy category ≡ true
      → convert kind first ≡ ok m
      → convert kind second ≡ ok n
      → parse_message python (default_topic kind) (
          record_of
            (column_names (sink_of kind).columns)
            (begins ∷ ends ∷ category ∷ first ∷ second ∷ []))
        ≡ ok (
            some (record {
              kind = kind;
              window_start = w;
              fields =
                  record { category = category; metric = (metrics_of kind).0; number = m }
                  ∷ record { category = category; metric = (metrics_of kind).1; number = n }
                  ∷ [];
            }))
  unfolding parse_message parse_event parse_performance operation two_fields get_or
  parse_message-record_of event begins ends category first second w m n a b c d =
      rw (a, b, c, d) refl
  parse_message-record_of perf begins ends category first second w m n a b c d =
      rw (a, b, c, d) refl
