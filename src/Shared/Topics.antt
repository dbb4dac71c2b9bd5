-- ===== src/Shared/Topics.antt =====
-- `Topics` of shared/constants/topics.py.
use realtime_analytics_pipel.Prelude.{List, [], ◌∷◌, String}

abbrev pub events_topic : String
events_topic = "analytics_events"

abbrev pub event_metrics_topic : String
event_metrics_topic = "event_metrics"

abbrev pub session_metrics_topic : String
session_metrics_topic = "session_metrics"

abbrev pub performance_metrics_topic : String
performance_metrics_topic = "performance_metrics"

abbrev pub all_metrics_topics : List String
all_metrics_topics = event_metrics_topic ∷ session_metrics_topic ∷ performance_metrics_topic ∷ []

abbrev pub all_topics : List String
all_topics = events_topic ∷ all_metrics_topics
