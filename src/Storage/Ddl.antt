-- ===== src/Storage/Ddl.antt =====
-- The statements of services/storage/src/infrastructure/clickhouse/ddl.py, as records.
use realtime_analytics_pipel.Prelude.{ℕ, List, [], ◌∷◌, String}
use realtime_analytics_pipel.Shared.Topics.{
  event_metrics_topic, session_metrics_topic, performance_metrics_topic,
}

pub data ColumnType : Type 0 where
  date_time64 : (precision : ℕ) → ColumnType
  text : ColumnType
  uint64 : ColumnType
  float64 : ColumnType

-- `CREATE TABLE IF NOT EXISTS`, with the engine `MergeTree()`
pub record CreateTable : Type 0 where
  pub table : String
  pub columns : List (String × ColumnType)
  pub order_by : List String

abbrev event_metrics_ddl : CreateTable
event_metrics_ddl = record {
  table = event_metrics_topic;
  columns =
      ("window_start", date_time64 3)
      ∷ ("window_end", date_time64 3)
      ∷ ("event_type", text)
      ∷ ("event_count", uint64)
      ∷ ("user_count", uint64)
      ∷ [];
  order_by = "window_start" ∷ "event_type" ∷ [];
}

abbrev session_metrics_ddl : CreateTable
session_metrics_ddl = record {
  table = session_metrics_topic;
  columns =
      ("session_id", text)
      ∷ ("user_id", text)
      ∷ ("start_time", date_time64 3)
      ∷ ("end_time", date_time64 3)
      ∷ ("duration", uint64)
      ∷ ("page_count", uint64)
      ∷ ("device_category", text)
      ∷ [];
  order_by = "start_time" ∷ "session_id" ∷ [];
}

abbrev performance_metrics_ddl : CreateTable
performance_metrics_ddl = record {
  table = performance_metrics_topic;
  columns =
      ("window_start", date_time64 3)
      ∷ ("window_end", date_time64 3)
      ∷ ("device_category", text)
      ∷ ("avg_load_time", float64)
      ∷ ("p95_load_time", float64)
      ∷ [];
  order_by = "window_start" ∷ "device_category" ∷ [];
}

unfoldable pub all_ddls : List CreateTable
all_ddls = event_metrics_ddl ∷ session_metrics_ddl ∷ performance_metrics_ddl ∷ []
