-- ===== src/Cache/Logger.antt =====
-- The logger of the cache service: services/cache/src/core/logger.py. Its `RedactingFilter` is in
-- Shared.Logging, with the handlers that run it.
pub mod History
pub mod Guarded
pub mod Redacting
pub mod Tests
use realtime_analytics_pipel.Prelude.{Bool, true, false, List, [], ◌∷◌, ◌++◌, map, if◌then◌else◌}
use realtime_analytics_pipel.Shared.Metrics.{Name}
use realtime_analytics_pipel.Shared.Logging.Names.{level_of}
use realtime_analytics_pipel.Shared.Logging as Shared
use realtime_analytics_pipel.Shared.Logging.{Handler, Logging, basic_config}

-- `otel_service_name` is not used: the name of the service is written out
pub record Settings : Type 0 where
  pub app_log_level : Name
  pub app_environment : Name
  pub app_log_redaction_patterns : List Name

-- "cache"
abbrev pub cache_name : Name
cache_name = 99 ∷ 97 ∷ 99 ∷ 104 ∷ 101 ∷ []

abbrev pub add_filter : List Name → Handler → Handler
add_filter patterns h = record h { filters = h.filters ++ (patterns ∷ []) }

abbrev pub add_filters : List Name → Logging → Logging
add_filters patterns s = record s { handlers = map (add_filter patterns) s.handlers }

-- `shared` tells that shared.logging.json could be imported
abbrev pub configure_root : (upper : Name → Name) → (shared : Bool) → Settings → Logging → Logging
configure_root upper true settings s =
    Shared.configure_logging upper cache_name settings.app_environment settings.app_log_level
      settings.app_log_redaction_patterns s
configure_root upper false settings s = basic_config (level_of upper settings.app_log_level) s

-- all but the guard of `configure_logging`
abbrev pub configure_once : (upper : Name → Name) → (shared : Bool) → Settings → Logging → Logging
configure_once upper shared settings s =
    record (add_filters settings.app_log_redaction_patterns
      (configure_root upper shared settings s)) { cache_configured = true }

unfoldable pub configure_logging :
    (upper : Name → Name) → (shared : Bool) → Settings → Logging → Logging
configure_logging upper shared settings s =
    if s.cache_configured then s else configure_once upper shared settings s

unfoldable pub get_logger : (upper : Name → Name) → (shared : Bool) → Settings → Logging → Logging
get_logger upper shared settings s = configure_logging upper shared settings s
