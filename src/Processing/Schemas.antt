-- ===== src/Processing/Schemas.antt =====
-- services/processing/src/core/schemas: the source of the events and the three sinks.
use realtime_analytics_pipel.Prelude.{ℕ, ◌∷◌, [], String, str_eq, text_append, if◌then◌else◌}
use realtime_analytics_pipel.Processing.Settings.{Settings}
use realtime_analytics_pipel.Processing.Tables.{
  string, int, bigint, double, timestamp_ltz, atomic, map_of, row, column, column_by_expression,
  Schema, new_builder, add_column, add_watermark,
}

-- the text of `INTERVAL`, from the text of the seconds
abbrev pub watermark_sql : String → String
watermark_sql seconds = text_append "event_time - INTERVAL '" (text_append seconds "' SECOND")

-- `show` is the text of a number
module _ (show : ℕ → String) where
  abbrev pub events : Schema
  events = add_column (column_by_expression "event_time" "TO_TIMESTAMP_LTZ(`timestamp`, 3)") (
      add_column (column "timestamp" (atomic bigint)) (
        add_column
          (column "metrics" (row (("load_time", bigint) ∷ ("interaction_time", bigint) ∷ [])))
          (add_column (column "properties" (map_of string string)) (
            add_column
              (column "context" (
                row (
                  ("url", string)
                  ∷ ("referrer", string)
                  ∷ ("ip_address", string)
                  ∷ ("session_id", string)
                  ∷ [])))
              (add_column (column "user" (row (("id", string) ∷ []))) (
                add_column
                  (column "device" (
                    row (
                      ("user_agent", string)
                      ∷ ("screen_width", int)
                      ∷ ("screen_height", int)
                      ∷ [])))
                  (add_column (column "event" (row (("id", string) ∷ ("type", string) ∷ [])))
                    new_builder)))))))

  abbrev pub get_event_source_schema : Settings → Schema
  get_event_source_schema settings =
      if str_eq settings.app_environment "production"
      then add_watermark "event_time" (watermark_sql (show settings.flink_watermark_delay_seconds))
          events
      else add_column (column_by_expression "proc_time" "PROCTIME()") events

abbrev pub get_event_metrics_sink_schema : Schema
get_event_metrics_sink_schema = add_column (column "user_count" (atomic bigint)) (
    add_column (column "event_count" (atomic bigint)) (
      add_column (column "event_type" (atomic string)) (
        add_column (column "window_end" (atomic (timestamp_ltz 3)))
          (add_column (column "window_start" (atomic (timestamp_ltz 3))) new_builder))))

abbrev pub get_session_metrics_sink_schema : Schema
get_session_metrics_sink_schema = add_column (column "device_category" (atomic string)) (
    add_column (column "page_count" (atomic bigint)) (
      add_column (column "duration" (atomic bigint)) (
        add_column (column "end_time" (atomic (timestamp_ltz 3))) (
          add_column (column "start_time" (atomic (timestamp_ltz 3))) (
            add_column (column "user_id" (atomic string))
              (add_column (column "session_id" (atomic string)) new_builder))))))

abbrev pub get_performance_metrics_sink_schema : Schema
get_performance_metrics_sink_schema = add_column (column "p95_load_time" (atomic double)) (
    add_column (column "avg_load_time" (atomic double)) (
      add_column (column "device_category" (atomic string)) (
        add_column (column "window_end" (atomic (timestamp_ltz 3)))
          (add_column (column "window_start" (atomic (timestamp_ltz 3))) new_builder))))
