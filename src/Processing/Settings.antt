-- ===== src/Processing/Settings.antt =====
-- The settings of the processing service, services/processing/src/core/config.py.
use realtime_analytics_pipel.Prelude.{ℕ, Bool, true, List, [], ◌∷◌, String}
use realtime_analytics_pipel.Shared.Topics.{
  events_topic, event_metrics_topic, session_metrics_topic, performance_metrics_topic,
}

-- `Settings`, less those of the logging
pub record Settings : Type 0 where
  pub kafka_bootstrap_servers : String
  pub kafka_topic_events : String
  pub kafka_topic_event_metrics : String
  pub kafka_topic_session_metrics : String
  pub kafka_topic_performance_metrics : String
  pub processing_kafka_consumer_group : String
  pub processing_kafka_scan_startup_mode : String
  pub flink_parallelism : ℕ
  pub flink_checkpoint_interval_ms : ℕ
  pub flink_watermark_delay_seconds : ℕ
  pub flink_idle_timeout_seconds : ℕ
  pub processing_metrics_window_size_seconds : ℕ
  pub processing_performance_window_size_seconds : ℕ
  pub processing_session_gap_seconds : ℕ
  pub table_minibatch_enabled : Bool
  pub table_minibatch_latency_seconds : ℕ
  pub table_minibatch_size : ℕ
  pub processing_allowed_event_types : List String
  pub app_environment : String

-- the defaults
abbrev pub default_settings : Settings
default_settings = record {
  kafka_bootstrap_servers = "kafka1:19092";
  kafka_topic_events = events_topic;
  kafka_topic_event_metrics = event_metrics_topic;
  kafka_topic_session_metrics = session_metrics_topic;
  kafka_topic_performance_metrics = performance_metrics_topic;
  processing_kafka_consumer_group = "flink-analytics-group";
  processing_kafka_scan_startup_mode = "earliest-offset";
  flink_parallelism = 2;
  flink_checkpoint_interval_ms = 30000;
  flink_watermark_delay_seconds = 10;
  flink_idle_timeout_seconds = 5;
  processing_metrics_window_size_seconds = 60;
  processing_performance_window_size_seconds = 300;
  processing_session_gap_seconds = 1800;
  table_minibatch_enabled = true;
  table_minibatch_latency_seconds = 4;
  table_minibatch_size = 999;
  processing_allowed_event_types = "page_view" ∷ "click" ∷ "conversion" ∷ "add_to_cart" ∷ [];
  app_environment = "production";
}
