-- ===== src/Processing/Connectors.antt =====
-- The tables that services/processing/src/connectors registers.
pub mod Columns
pub mod Tests
use realtime_analytics_pipel.Prelude.{ℕ, List, [], ◌∷◌, ◌++◌, String}
use realtime_analytics_pipel.Processing.Settings.{Settings}
use realtime_analytics_pipel.Processing.Tables.{Schema}
use realtime_analytics_pipel.Processing.Schemas.{
  get_event_source_schema, get_event_metrics_sink_schema, get_session_metrics_sink_schema,
  get_performance_metrics_sink_schema,
}

pub record TableDescriptor : Type 0 where
  pub connector : String
  pub schema : Schema
  pub options : List (String × String)

-- the temporary tables of a table environment, by path
abbrev pub Catalogue : Type 0
Catalogue = List (String × TableDescriptor)

abbrev create_temporary_table : String → TableDescriptor → Catalogue → Catalogue
create_temporary_table path table catalogue = catalogue ++ (path, table) ∷ []

abbrev kafka : Schema → List (String × String) → TableDescriptor
kafka schema options = record { connector = "kafka"; schema = schema; options = options }

unfoldable pub register_events_source : (show : ℕ → String) → Settings → Catalogue → Catalogue
register_events_source show settings = create_temporary_table "events" (
    kafka (get_event_source_schema show settings) (
      ("topic", settings.kafka_topic_events)
      ∷ ("properties.bootstrap.servers", settings.kafka_bootstrap_servers)
      ∷ ("properties.group.id", settings.processing_kafka_consumer_group)
      ∷ ("scan.startup.mode", settings.processing_kafka_scan_startup_mode)
      ∷ ("format", "json")
      ∷ ("json.fail-on-missing-field", "false")
      ∷ ("json.ignore-parse-errors", "true")
      ∷ []))

unfoldable pub register_event_metrics_sink : Settings → Catalogue → Catalogue
register_event_metrics_sink settings = create_temporary_table "event_metrics" (
    kafka get_event_metrics_sink_schema (
      ("topic", settings.kafka_topic_event_metrics)
      ∷ ("properties.bootstrap.servers", settings.kafka_bootstrap_servers)
      ∷ ("format", "json")
      ∷ ("sink.transactional-id-prefix", "event-metrics-")
      ∷ []))

unfoldable pub register_session_metrics_sink : Settings → Catalogue → Catalogue
register_session_metrics_sink settings = create_temporary_table "session_metrics" (
    kafka get_session_metrics_sink_schema (
      ("topic", settings.kafka_topic_session_metrics)
      ∷ ("properties.bootstrap.servers", settings.kafka_bootstrap_servers)
      ∷ ("format", "json")
      ∷ ("sink.transactional-id-prefix", "session-metrics-")
      ∷ []))

unfoldable pub register_performance_metrics_sink : Settings → Catalogue → Catalogue
register_performance_metrics_sink settings = create_temporary_table "performance_metrics" (
    kafka get_performance_metrics_sink_schema (
      ("topic", settings.kafka_topic_performance_metrics)
      ∷ ("properties.bootstrap.servers", settings.kafka_bootstrap_servers)
      ∷ ("format", "json")
      ∷ ("sink.transactional-id-prefix", "performance-metrics-")
      ∷ []))

-- the calls of `_register_connectors`, in their order
unfoldable pub registered : (show : ℕ → String) → Settings → Catalogue → Catalogue
registered show settings catalogue = register_performance_metrics_sink settings (
    register_session_metrics_sink settings
      (register_event_metrics_sink settings (register_events_source show settings catalogue)))
