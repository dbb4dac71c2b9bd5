-- ===== src/Processing/Connectors/Columns.antt =====
-- The pipelines of the jobs against the schemas of the tables that they read and write.
use realtime_analytics_pipel.Prelude.{
  All, ℕ, ◌≡◌, refl, ap, ◌∙◌, Bool, true, false, Option, some, List, [], ◌∷◌, String, str_eq,
  Outcome, ok,
}
use realtime_analytics_pipel.Processing.Coordinator.{
  Environment, register_job, register_connectors, add_insert, add_jobs, submit, execute, main_jobs,
}
use realtime_analytics_pipel.Processing.Settings.{Settings}
use realtime_analytics_pipel.Processing.Tables.{Table}
use realtime_analytics_pipel.Processing.Tables.Scope.{
  Scope, value, row_of, time_attribute, find, names, column_names, declared, output,
}
use realtime_analytics_pipel.Processing.Schemas.{
  watermark_sql, get_event_source_schema, get_event_metrics_sink_schema,
  get_session_metrics_sink_schema, get_performance_metrics_sink_schema,
}
use realtime_analytics_pipel.Processing.Jobs.{
  categorize_device, time_col, event_aggregator, performance_tracker, session_base, duration_sql,
  session_tracker,
}
use realtime_analytics_pipel.Processing.Connectors.{
  TableDescriptor, Catalogue, register_events_source, register_event_metrics_sink,
  register_session_metrics_sink, register_performance_metrics_sink, registered,
}

-- The columns that the SQL texts of the service name: `mentions` is a reader of Flink's SQL, and
-- `seconds` the delay of the watermark as a text.
pub record IsReader (mentions : String → List String) (seconds : String) : Type 0 where
  pub of_event_time : mentions "TO_TIMESTAMP_LTZ(`timestamp`, 3)" ≡ "timestamp" ∷ []
  pub of_proc_time : mentions "PROCTIME()" ≡ []
  pub of_watermark : mentions (watermark_sql seconds) ≡ "event_time" ∷ []
  pub of_duration : mentions duration_sql ≡ "start_time" ∷ "end_time" ∷ []

module _ (show : ℕ → String) (mentions : String → List String) where
  abbrev pub scopes : Catalogue → List (String × Option Scope)
  scopes [] = []
  scopes ((path, t) ∷ rest) = (path, declared mentions t.schema) ∷ scopes rest

  -- what an insert needs: its sink is a table of the catalogue, all names that its pipeline uses are in
  -- scope, and the pipeline has the columns of the sink, in their order
  pub record IsWritable (catalogue : Catalogue) (insert : String × Table) : Type 0 where
    pub sink : TableDescriptor
    pub found : find insert.0 catalogue ≡ some sink
    pub same_columns :
        output mentions (scopes catalogue) insert.1 ≡ some (column_names sink.schema.columns)

  -- what the source declares, by whether the service runs in production
  abbrev events_scope : Bool → Scope
  events_scope true =
      ("event", row_of ("id" ∷ "type" ∷ []))
      ∷ ("device", row_of ("user_agent" ∷ "screen_width" ∷ "screen_height" ∷ []))
      ∷ ("user", row_of ("id" ∷ []))
      ∷ ("context", row_of ("url" ∷ "referrer" ∷ "ip_address" ∷ "session_id" ∷ []))
      ∷ ("properties", value)
      ∷ ("metrics", row_of ("load_time" ∷ "interaction_time" ∷ []))
      ∷ ("timestamp", value)
      ∷ ("event_time", time_attribute)
      ∷ []
  events_scope false =
      ("event", row_of ("id" ∷ "type" ∷ []))
      ∷ ("device", row_of ("user_agent" ∷ "screen_width" ∷ "screen_height" ∷ []))
      ∷ ("user", row_of ("id" ∷ []))
      ∷ ("context", row_of ("url" ∷ "referrer" ∷ "ip_address" ∷ "session_id" ∷ []))
      ∷ ("properties", value)
      ∷ ("metrics", row_of ("load_time" ∷ "interaction_time" ∷ []))
      ∷ ("timestamp", value)
      ∷ ("event_time", value)
      ∷ ("proc_time", time_attribute)
      ∷ []

  module _ (settings : Settings)
      (reads : IsReader mentions (show settings.flink_watermark_delay_seconds)) where
    source-declared :
        (b : Bool)
        → str_eq settings.app_environment "production" ≡ b
        → declared mentions (get_event_source_schema show settings) ≡ some (events_scope b)
    source-declared true e = rw (e, reads.of_event_time, reads.of_watermark) refl
    source-declared false e = rw (e, reads.of_event_time, reads.of_proc_time) refl

    -- the catalogue's scopes, with the source's given
    abbrev with_source : Option Scope → List (String × Option Scope)
    with_source source =
        ("events", source)
        ∷ ("event_metrics", declared mentions get_event_metrics_sink_schema)
        ∷ ("session_metrics", declared mentions get_session_metrics_sink_schema)
        ∷ ("performance_metrics", declared mentions get_performance_metrics_sink_schema)
        ∷ []

    scopes-registered :
        (b : Bool)
        → str_eq settings.app_environment "production" ≡ b
        → scopes (registered show settings []) ≡ with_source (some (events_scope b))
    unfolding registered register_events_source register_event_metrics_sink
        register_session_metrics_sink register_performance_metrics_sink
    scopes-registered b e = ap with_source (source-declared b e)

    event_aggregator-output :
        (b : Bool)
        → str_eq settings.app_environment "production" ≡ b
        → output mentions (with_source (some (events_scope b))) (event_aggregator settings)
          ≡ some (column_names get_event_metrics_sink_schema.columns)
    unfolding event_aggregator categorize_device time_col
    event_aggregator-output true e = rw e refl
    event_aggregator-output false e = rw e refl

    performance_tracker-output :
        (b : Bool)
        → str_eq settings.app_environment "production" ≡ b
        → output mentions (with_source (some (events_scope b))) (performance_tracker settings)
          ≡ some (column_names get_performance_metrics_sink_schema.columns)
    unfolding performance_tracker categorize_device time_col
    performance_tracker-output true e = rw e refl
    performance_tracker-output false e = rw e refl

    session_tracker-output :
        (b : Bool)
        → str_eq settings.app_environment "production" ≡ b
        → output mentions (with_source (some (events_scope b))) (session_tracker settings)
          ≡ some (column_names get_session_metrics_sink_schema.columns)
    unfolding session_tracker session_base categorize_device time_col
    session_tracker-output true e = rw (e, reads.of_duration) refl
    session_tracker-output false e = rw (e, reads.of_duration) refl

    All-IsWritable :
        (b : Bool)
        → str_eq settings.app_environment "production" ≡ b
        → All (IsWritable (registered show settings [])) (
            ("event_metrics", event_aggregator settings)
            ∷ ("session_metrics", session_tracker settings)
            ∷ ("performance_metrics", performance_tracker settings)
            ∷ [])
    unfolding registered register_events_source register_event_metrics_sink
        register_session_metrics_sink register_performance_metrics_sink
    All-IsWritable b e = (
      record {
        sink = _;
        found = refl;
        same_columns =
            ap (λ c. output mentions c (event_aggregator settings)) (scopes-registered b e)
            ∙ event_aggregator-output b e;
      },
      (
        record {
          sink = _;
          found = refl;
          same_columns =
              ap (λ c. output mentions c (session_tracker settings)) (scopes-registered b e)
              ∙ session_tracker-output b e;
        },
        (
          record {
            sink = _;
            found = refl;
            same_columns =
                ap (λ c. output mentions c (performance_tracker settings)) (scopes-registered b e)
                ∙ performance_tracker-output b e;
          },
          tt,
        ),
      ),
    )

    -- what `main` makes of a table environment that has neither tables nor inserts
    abbrev pub after_main : Outcome (Unit {0}) × Environment Table
    after_main =
        execute
          (main_jobs (ok (event_aggregator settings)) (ok (session_tracker settings))
            (ok (performance_tracker settings)))
          (record { tables = []; inserts = []; executed = false })

    -- In whatever environment the service runs and with whatever settings, `main` executes one insert for
    -- each of the three sinks, whose pipelines take from the tables registered only columns, row fields
    -- and time attributes that these have there, window by a time attribute, and give the columns of their
    -- sinks, in order. The reader `mentions` of SQL texts is assumed to find the columns in the four
    -- texts that the service writes.
    pub execute-IsWritable :
        (after_main.0 ≡ ok tt)
        × (after_main.1.tables ≡ names (registered show settings []))
        × (names after_main.1.inserts
            ≡ "event_metrics" ∷ "session_metrics" ∷ "performance_metrics" ∷ [])
        × All (IsWritable (registered show settings [])) after_main.1.inserts
    unfolding execute main_jobs register_job register_connectors add_insert add_jobs submit
        registered register_events_source register_event_metrics_sink register_session_metrics_sink
        register_performance_metrics_sink
    execute-IsWritable =
        (refl, refl, refl, All-IsWritable (str_eq settings.app_environment "production") refl)
