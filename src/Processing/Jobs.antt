-- ===== src/Processing/Jobs.antt =====
-- The pipelines of services/processing/src/jobs, and `categorize_device` of
-- services/processing/src/transformations/device_categorizer.py.
use realtime_analytics_pipel.Prelude.{[], ◌∷◌, String, str_eq, if◌then◌else◌}
use realtime_analytics_pipel.Processing.Settings.{Settings}
use realtime_analytics_pipel.Processing.Tables.{
  timestamp_ltz, count, count_distinct, avg, max, percentile, Expr, col, get, literal, like,
  then_else, in_list, equals, is_not_null, aggregate, window_start, window_end, cast, call_sql,
  alias, tumble, session, Table, from_path, add_columns, select, filter, window, group_by,
}

abbrev user_agent : Expr
user_agent = get (col "device") "user_agent"

unfoldable pub categorize_device : Table → Table
categorize_device table =
    add_columns
      (alias
          (then_else (like user_agent "%Mobile%") (literal "Mobile") (
            then_else (like user_agent "%Tablet%") (literal "Tablet")
              (then_else (like user_agent "%Bot%") (literal "Bot") (literal "Desktop"))))
          "device_category"
        ∷ [])
      table

-- the time attribute that the jobs take
unfoldable pub time_col : Settings → String
time_col settings =
    if str_eq settings.app_environment "production" then "event_time" else "proc_time"

-- `EventAggregator.build_pipeline`
unfoldable pub event_aggregator : Settings → Table
event_aggregator settings =
    select
      (alias (window_start (col "w")) "window_start"
        ∷ alias (window_end (col "w")) "window_end"
        ∷ col "event_type"
        ∷ alias (aggregate count (col "event_type")) "event_count"
        ∷ alias (aggregate count_distinct (col "user_id")) "user_count"
        ∷ [])
      (group_by (col "w" ∷ col "event_type" ∷ []) (
        window (tumble settings.processing_metrics_window_size_seconds) (col (time_col settings))
          "w"
          (filter (in_list (col "event_type") settings.processing_allowed_event_types) (
            select
              (col (time_col settings)
                ∷ alias (get (col "event") "type") "event_type"
                ∷ alias (get (col "user") "id") "user_id"
                ∷ col "device_category"
                ∷ [])
              (categorize_device (from_path "events"))))))

-- `PerformanceTracker.build_pipeline`
unfoldable pub performance_tracker : Settings → Table
performance_tracker settings =
    select
      (alias (window_start (col "w")) "window_start"
        ∷ alias (window_end (col "w")) "window_end"
        ∷ col "device_category"
        ∷ alias (aggregate avg (col "load_time")) "avg_load_time"
        ∷ alias (aggregate (percentile 95) (col "load_time")) "p95_load_time"
        ∷ [])
      (group_by (col "device_category" ∷ col "w" ∷ []) (
        window (tumble settings.processing_performance_window_size_seconds)
          (col (time_col settings)) "w"
          (filter (is_not_null (col "load_time")) (
            filter (equals (col "event_type") "page_view") (
              select
                (alias (get (col "event") "type") "event_type"
                  ∷ col (time_col settings)
                  ∷ col "device_category"
                  ∷ alias (get (col "metrics") "load_time") "load_time"
                  ∷ [])
                (categorize_device (from_path "events")))))))

-- `session_base` of `SessionTracker.build_pipeline`
unfoldable pub session_base : Settings → Table
session_base settings =
    select
      (col "session_id"
        ∷ col "user_id"
        ∷ alias (cast (window_start (col "w")) (timestamp_ltz 3)) "start_time"
        ∷ alias (cast (window_end (col "w")) (timestamp_ltz 3)) "end_time"
        ∷ alias (aggregate count (col "session_id")) "page_count"
        ∷ alias (aggregate max (col "device_category")) "device_category"
        ∷ [])
      (group_by (col "session_id" ∷ col "user_id" ∷ col "w" ∷ []) (
        window (session settings.processing_session_gap_seconds) (col (time_col settings)) "w" (
          filter (equals (col "event_type") "page_view") (
            select
              (alias (get (col "event") "type") "event_type"
                ∷ col (time_col settings)
                ∷ alias (get (col "context") "session_id") "session_id"
                ∷ alias (get (col "user") "id") "user_id"
                ∷ col "device_category"
                ∷ [])
              (categorize_device (from_path "events"))))))

-- the SQL text of the duration
abbrev pub duration_sql : String
duration_sql = "TIMESTAMPDIFF(MILLISECOND, start_time, end_time)"

unfoldable pub session_tracker : Settings → Table
session_tracker settings =
    select
      (col "session_id"
        ∷ col "user_id"
        ∷ col "start_time"
        ∷ col "end_time"
        ∷ alias (call_sql duration_sql) "duration"
        ∷ col "page_count"
        ∷ col "device_category"
        ∷ [])
      (session_base settings)
