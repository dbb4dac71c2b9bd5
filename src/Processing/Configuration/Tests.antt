-- ===== src/Processing/Configuration/Tests.antt =====
-- Entries of the default settings.
use realtime_analytics_pipel.Prelude.{◌≡◌, refl, some, [], ◌∷◌}
use realtime_analytics_pipel.Processing.Settings.{default_settings}
use realtime_analytics_pipel.Processing.Configuration.{
  integer, text, entry, configure_flink_settings, configure_table_settings,
}

-- the parallelism of the environment
parallelism :
    entry "parallelism.default" (configure_flink_settings default_settings) ≡ some (integer 2)
unfolding configure_flink_settings
parallelism = refl

-- a setting of the table replaces what the environment had before
mini_batch :
    entry "table.exec.mini-batch.allow-latency" (
      configure_table_settings
        (λ n. "4")
        default_settings
        (("table.exec.mini-batch.allow-latency", text "0s") ∷ []))
    ≡ some (text "4s")
unfolding configure_table_settings
mini_batch = refl
