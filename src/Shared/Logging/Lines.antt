-- ===== src/Shared/Logging/Lines.antt =====
-- What a service logs after `configure_logging` of shared/logging/json.py.
use realtime_analytics_pipel.Prelude.{
  ◌≡◌, refl, ap, ◌∙◌, Bool, true, false, not, ◌&&◌, Option, some, List, [], ◌∷◌, ltb, leb,
  if◌then◌else◌, if_false,
}
use realtime_analytics_pipel.Shared.Metrics.{Name}
use realtime_analytics_pipel.Shared.Redaction.{Dict, format, IsClean, format-IsClean}
use realtime_analytics_pipel.Shared.Logging.Names.{
  same_name, exception_key, redacted_text, level_of,
}
use realtime_analytics_pipel.Shared.Logging.{
  Record, Logging, Runtime, Line, json_line, get_logger, configure_minimal_logging,
  configure_logging, format_exception, context, run_filters, emit, emit_all, lines,
}

-- the calls of `get_logger`, each with its `auto_configure`
abbrev pub get_loggers : List Bool → Logging → Logging
get_loggers [] s = s
get_loggers (auto_configure ∷ rest) s = get_loggers rest (get_logger auto_configure s)

and_not-true : (a b : Bool) → b ≡ true → (a && not b) ≡ false
and_not-true false b h = refl
and_not-true true b h = rw h refl

-- a process that is configured is left as it is
pub get_logger_configured :
    (auto_configure : Bool) (s : Logging) → s.configured ≡ true → get_logger auto_configure s ≡ s
unfolding get_logger
get_logger_configured auto_configure s h =
    if_false (auto_configure && not s.configured)
      (record (configure_minimal_logging s) { configured = true }) s
      (and_not-true auto_configure s.configured h)

pub get_loggers_configured :
    (calls : List Bool) (s : Logging) → s.configured ≡ true → get_loggers calls s ≡ s
get_loggers_configured [] s h = refl
get_loggers_configured (auto_configure ∷ rest) s h =
    ap (get_loggers rest) (get_logger_configured auto_configure s h)
    ∙ get_loggers_configured rest s h

configure_logging-configured :
    (upper : Name → Name) (service environment level : Name) (redaction_patterns : List Name)
    (s : Logging)
    → (configure_logging upper service environment level redaction_patterns s).configured ≡ true
unfolding configure_logging
configure_logging-configured upper service environment level redaction_patterns s = refl

module _ {Scalar : Type 0} (runtime : Runtime Scalar) where
  -- what the formatter of a service makes of a record
  abbrev pub formatted_data :
      (service environment : Name)
      → (redaction_patterns : List Name) → (now : Scalar) → (exc : Option (Dict Scalar))
      → (r : Record Scalar) → Dict Scalar
  formatted_data service environment redaction_patterns now exc r =
      format runtime.lower redaction_patterns (runtime.text redacted_text) same_name
        (context runtime service environment now) exception_key exc r.attributes

  abbrev pub line_from : Bool → Dict Scalar → List (Line Scalar)
  line_from enabled d = if enabled then json_line d ∷ [] else []

  configured_lines :
      (service environment level : Name) (redaction_patterns : List Name) (s : Logging)
      (now : Scalar) (r : Record Scalar) (exc : Option (Dict Scalar))
      → format_exception runtime r.exc_info ≡ some exc
      → lines runtime
          (configure_logging runtime.upper service environment level redaction_patterns s)
          now
          r
        ≡ line_from
            (ltb 0 r.level && leb (level_of runtime.upper level) r.level)
            (formatted_data service environment redaction_patterns now exc r)
  unfolding lines configure_logging emit_all emit run_filters
  configured_lines service environment level redaction_patterns s now r exc h = rw h refl

  -- After `configure_logging`, whatever was configured before and however often `get_logger` is called later,
  -- a record whose exception can be formatted is written once if its level is positive and at least the
  -- configured one, and not at all otherwise; its line is what the formatter makes of it, in which no
  -- sensitive key of a dict that is reached through dicts only holds anything but the text "[REDACTED]".
  -- Nothing is said of the dicts in a list, which is written as it is.
  pub configured_line :
      (service environment level : Name) (redaction_patterns : List Name) (s : Logging)
      (calls : List Bool) (now : Scalar) (r : Record Scalar) (exc : Option (Dict Scalar))
      → format_exception runtime r.exc_info ≡ some exc
      → (lines runtime
            (get_loggers calls
              (configure_logging runtime.upper service environment level redaction_patterns s))
            now
            r
          ≡ line_from
              (ltb 0 r.level && leb (level_of runtime.upper level) r.level)
              (formatted_data service environment redaction_patterns now exc r))
        × IsClean runtime.lower redaction_patterns
            (runtime.text redacted_text)
            (formatted_data service environment redaction_patterns now exc r)
  configured_line service environment level redaction_patterns s calls now r exc h = (
    ap (λ t. lines runtime t now r)
          (get_loggers_configured calls
            (configure_logging runtime.upper service environment level redaction_patterns s)
            (configure_logging-configured runtime.upper service environment level redaction_patterns
              s))
        ∙ configured_lines service environment level redaction_patterns s now r exc h,
    format-IsClean runtime.lower redaction_patterns (runtime.text redacted_text) same_name
        (context runtime service environment now) exception_key exc r.attributes,
  )
