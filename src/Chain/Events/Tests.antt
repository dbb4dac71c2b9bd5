-- ===== src/Chain/Events/Tests.antt =====
-- A page view, and one whose screen is too wide.
use realtime_analytics_pipel.Prelude.{ℕ, ◌≡◌, refl, false, none, some, [], ◌∷◌, String, pos, ◌^◌}
use realtime_analytics_pipel.Processing.Settings.{default_settings}
use realtime_analytics_pipel.Processing.Schemas.{get_event_source_schema}
use realtime_analytics_pipel.Ingestion.Events.{AnalyticsEvent, str, int, float, model_dump_json}
use realtime_analytics_pipel.Chain.Events.{IsTaken, reads_columns, model_dump_json-IsTaken}

abbrev show : ℕ → String
show n = "10"

abbrev page_view : AnalyticsEvent
page_view = record {
  event = record { id = "0190"; type = "page_view" };
  user = record { id = "u1" };
  device = record { user_agent = "Mozilla"; screen_width = pos 1920; screen_height = pos 1080 };
  context = record {
    url = "https://example.com/";
    referrer = none;
    ip_address = some "10.0.0.1";
    session_id = "s1";
  };
  properties = ("plan", str "free") ∷ ("items", int (pos 3)) ∷ ("price", float (some "1.5")) ∷ [];
  metrics = record { load_time = some (pos 120); interaction_time = none };
  timestamp = pos 1700000000000;
}

model_dump_json-IsTaken_example :
    IsTaken (get_event_source_schema show default_settings) (model_dump_json page_view)
model_dump_json-IsTaken_example =
    model_dump_json-IsTaken show default_settings page_view refl refl refl refl refl

-- the width is read as null
too_wide :
    reads_columns (get_event_source_schema show default_settings).columns (
      model_dump_json
        (record page_view { device = record page_view.device { screen_width = pos (2 ^ 31) } }))
    ≡ false
unfolding model_dump_json
too_wide = refl
