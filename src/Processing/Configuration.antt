-- ===== src/Processing/Configuration.antt =====
-- The configuration of Flink in services/processing/src/core/job_coordinator.py: `_configure_flink_settings` and
-- `_configure_table_settings`, as the entries that are set, in order. `show` is the text of a number.
pub mod Tests
use realtime_analytics_pipel.Prelude.{
  ℕ, ◌≡◌, refl, sym, ap, ◌∙◌, Bool, true, false, Option, none, some, List, [], ◌∷◌, ◌++◌, String,
  str_eq, text_append, if◌then◌else◌, Bool-cases, inl, inr,
}
use realtime_analytics_pipel.Processing.Settings.{Settings, default_settings}

pub data Entry : Type 0 where
  integer : ℕ → Entry
  text : String → Entry

-- the entries set, in order; a later one for a key replaces an earlier one
abbrev pub Configuration : Type 0
Configuration = List (String × Entry)

abbrev pub set_integer : String → ℕ → Configuration → Configuration
set_integer key n conf = conf ++ (key, integer n) ∷ []

abbrev pub set_string : String → String → Configuration → Configuration
set_string key s conf = conf ++ (key, text s) ∷ []

-- what a key has, from the one found among the entries before
abbrev pub entry_from : String → Configuration → Option Entry → Option Entry
entry_from key [] found = found
entry_from key ((k, e) ∷ rest) found = entry_from key rest (if str_eq k key then some e else found)

abbrev pub entry : String → Configuration → Option Entry
entry key conf = entry_from key conf none

unfoldable pub configure_flink_settings : Settings → Configuration
configure_flink_settings settings =
    set_integer "execution.checkpointing.interval" settings.flink_checkpoint_interval_ms
      (set_integer "parallelism.default" settings.flink_parallelism [])

unfoldable pub configure_table_settings :
    (show : ℕ → String) → Settings → Configuration → Configuration
configure_table_settings show settings conf =
    let upsert =
      set_string "table.exec.sink.upsert-materialize" "none"
        (set_string "table.dml-sync" "false" conf) in
    let enabled =
      set_string "table.exec.mini-batch.enabled"
        (if settings.table_minibatch_enabled then "true" else "false") upsert in
    let latency =
      set_string "table.exec.mini-batch.allow-latency"
        (text_append (show settings.table_minibatch_latency_seconds) "s") enabled in
    let size =
      set_string "table.exec.mini-batch.size" (show settings.table_minibatch_size) latency in
    let idle =
      set_string "table.exec.source.idle-timeout"
        (text_append (show settings.flink_idle_timeout_seconds) "s") size in
    set_string "table.exec.resource.default-parallelism" (show settings.flink_parallelism) idle
