-- ===== src/Processing/Connectors/Tests.antt =====
-- A development environment, and tables that are not in order.
use realtime_analytics_pipel.Prelude.{
  All, ℕ, ◌≡◌, refl, none, some, List, [], ◌∷◌, String, str_eq, ok, if◌then◌else◌,
}
use realtime_analytics_pipel.Processing.Settings.{Settings, default_settings}
use realtime_analytics_pipel.Processing.Tables.{col, get, alias, tumble, from_path, select, window}
use realtime_analytics_pipel.Processing.Tables.Scope.{names, declared, output}
use realtime_analytics_pipel.Processing.Schemas.{get_event_source_schema}
use realtime_analytics_pipel.Processing.Jobs.{duration_sql}
use realtime_analytics_pipel.Processing.Connectors.{registered}
use realtime_analytics_pipel.Processing.Connectors.Columns.{
  IsReader, IsWritable, after_main, execute-IsWritable,
}

abbrev show : ℕ → String
show n = "10"

abbrev mentions : String → List String
mentions sql =
    if str_eq sql duration_sql
    then "start_time" ∷ "end_time" ∷ []
    else if str_eq sql "PROCTIME()"
    then []
    else if str_eq sql "event_time - INTERVAL '10' SECOND"
    then "event_time" ∷ []
    else "timestamp" ∷ []

reads : IsReader mentions (show 10)
reads = record {
  of_event_time = refl;
  of_proc_time = refl;
  of_watermark = refl;
  of_duration = refl;
}

abbrev development : Settings
development = record default_settings { app_environment = "development" }

-- without a watermark, `event_time` is no time attribute
event_time_without_watermark :
    output mentions
      (("events", declared mentions (get_event_source_schema show development)) ∷ [])
      (window (tumble 60) (col "event_time") "w" (from_path "events"))
    ≡ none
event_time_without_watermark = refl

-- `device` has no field `browser`
unknown_field :
    output mentions
      (("events", declared mentions (get_event_source_schema show development)) ∷ [])
      (select (alias (get (col "device") "browser") "browser" ∷ []) (from_path "events"))
    ≡ none
unknown_field = refl

known_field :
    output mentions
      (("events", declared mentions (get_event_source_schema show development)) ∷ [])
      (select (alias (get (col "device") "screen_width") "width" ∷ []) (from_path "events"))
    ≡ some ("width" ∷ [])
known_field = refl

execute-IsWritable_example :
    ((after_main show mentions development reads).0 ≡ ok tt)
    × ((after_main show mentions development reads).1.tables
        ≡ names (registered show development []))
    × (names (after_main show mentions development reads).1.inserts
        ≡ "event_metrics" ∷ "session_metrics" ∷ "performance_metrics" ∷ [])
    × All
        (IsWritable show mentions (registered show development []))
        (after_main show mentions development reads).1.inserts
execute-IsWritable_example = execute-IsWritable show mentions development reads
