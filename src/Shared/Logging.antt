-- ===== src/Shared/Logging.antt =====
-- The configuration of logging in a process: shared/logging/logger.py, `configure_logging` and
-- `format_exception` of shared/logging/json.py, and `RedactingFilter` of
-- services/cache/src/core/logger.py, over the root logger of Python's logging. A line is what a handler writes: the object that `json.dumps` is given, or the message
-- of a plain format.
pub mod Names
pub mod Lines
use realtime_analytics_pipel.Prelude.{
  ℕ, Bool, true, false, not, ◌&&◌, Option, none, some, List, [], ◌∷◌, ◌++◌, map, ltb, leb,
  if◌then◌else◌,
}
use realtime_analytics_pipel.Shared.Metrics.{Name}
use realtime_analytics_pipel.Shared.Redaction.{
  Dict, end, scalar, lower_all, any_occurs, set, format,
}
use realtime_analytics_pipel.Shared.Logging.Names.{
  same_name, timestamp_key, service_key, hostname_key, pid_key, environment_key, exception_key,
  type_key, message_key, stack_key, msg_key, args_key, redacted_text, redacted_message, level_of,
}

-- `exc_info` of a record: falsy, the name of a type, the text of an exception and its stack, or the three
-- `None` of a record that was logged while no exception was handled
pub data ExcInfo (Scalar : Type 0) : Type 0 where
  no_exception : ExcInfo Scalar
  exception : (type_name message : Name) → (stack : Scalar) → ExcInfo Scalar
  nothing_handled : ExcInfo Scalar

-- a record: its level, its `exc_info`, and all of its attributes, as `__dict__` has them
pub record Record (Scalar : Type 0) : Type 0 where
  pub level : ℕ
  pub exc_info : ExcInfo Scalar
  pub attributes : Dict Scalar

-- the formatter of `basicConfig`, or a `CustomJsonFormatter`
pub data Formatter : Type 0 where
  plain : Formatter
  json : (service environment : Name) → (redaction_patterns : List Name) → Formatter

-- a handler and, for each of its `RedactingFilter`s, the patterns
pub record Handler : Type 0 where
  pub formatter : Formatter
  pub filters : List (List Name)

-- the root logger, and the `_configured` of shared/logging/logger.py and of the cache's logger
pub record Logging : Type 0 where
  pub handlers : List Handler
  pub level : ℕ
  pub configured : Bool
  pub cache_configured : Bool

-- what the code takes from Python: `str.lower` and `str.upper`, a text and the empty tuple as values, the
-- process, and `getMessage` of a record's attributes, or `none` when it raises
pub record Runtime (Scalar : Type 0) : Type 0 where
  pub lower : Name → Name
  pub upper : Name → Name
  pub text : Name → Scalar
  pub no_args : Scalar
  pub hostname : Scalar
  pub pid : Scalar
  pub get_message : Dict Scalar → Option Name

-- what the process starts with
abbrev pub fresh : Logging
fresh = record { handlers = []; level = 30; configured = false; cache_configured = false }

-- `logging.basicConfig`, which does nothing when the root has a handler
abbrev pub basic_config_on : List Handler → ℕ → Logging → Logging
basic_config_on [] n s = record s {
  handlers = (record { formatter = plain; filters = [] }) ∷ [];
  level = n;
}
basic_config_on (h ∷ hs) n s = s

abbrev pub basic_config : ℕ → Logging → Logging
basic_config n s = basic_config_on s.handlers n s

-- `_configure_minimal_logging`
abbrev pub configure_minimal_logging : Logging → Logging
configure_minimal_logging = basic_config 20

abbrev pub mark_configured : Logging → Logging
mark_configured s = record s { configured = true }

abbrev pub is_configured : Logging → Bool
is_configured s = s.configured

-- what `get_logger` does to the root; the logger that it returns hands its records on to the root
unfoldable pub get_logger : (auto_configure : Bool) → Logging → Logging
get_logger auto_configure s =
    if auto_configure && not s.configured
    then record (configure_minimal_logging s) { configured = true }
    else s

-- `configure_logging` of shared/logging/json.py
unfoldable pub configure_logging :
    (upper : Name → Name)
    → (service environment level : Name) → (redaction_patterns : List Name) → Logging
    → Logging
configure_logging upper service environment level redaction_patterns s = mark_configured (record s {
  handlers =
      (record { formatter = json service environment redaction_patterns; filters = [] }) ∷ [];
  level = level_of upper level;
})

-- `format_exception`, or `none` when it raises, as `None` has no `__name__`
unfoldable pub format_exception :
    {Scalar : Type 0} → Runtime Scalar → ExcInfo Scalar → Option (Option (Dict Scalar))
format_exception runtime no_exception = some none
format_exception runtime (exception type_name message stack) = some (
    some (
      scalar type_key (runtime.text type_name)
        (scalar message_key (runtime.text message) (scalar stack_key stack end))))
format_exception runtime nothing_handled = none

-- `data[key] = value` for a value that is no dict
abbrev pub set_scalar : {Scalar : Type 0} → Name → Scalar → Dict Scalar → Dict Scalar
set_scalar key v d = set same_name key (λ k later. scalar k v later) d

-- what `format` sets in the data of a record at `now`
unfoldable pub context :
    {Scalar : Type 0}
    → Runtime Scalar
    → (service environment : Name) → (now : Scalar) → List (Name × Scalar)
context runtime service environment now =
    (timestamp_key, now)
    ∷ (service_key, runtime.text service)
    ∷ (hostname_key, runtime.hostname)
    ∷ (pid_key, runtime.pid)
    ∷ (environment_key, runtime.text environment)
    ∷ []

pub data Line (Scalar : Type 0) : Type 0 where
  plain_line : (message : Name) → Line Scalar
  json_line : (payload : Dict Scalar) → Line Scalar

module _ {Scalar : Type 0} (runtime : Runtime Scalar) where
  -- `any(p in msg for p in self.patterns)`
  abbrev pub mentions_pattern : List Name → Name → Bool
  mentions_pattern patterns message =
      any_occurs (lower_all runtime.lower patterns) (runtime.lower message)

  abbrev pub redacted_attributes : Dict Scalar → Dict Scalar
  redacted_attributes attributes =
      set_scalar args_key runtime.no_args
        (set_scalar msg_key (runtime.text redacted_message) attributes)

  -- `RedactingFilter.filter`, which lets every record through
  abbrev pub redacted_if : List Name → Option Name → Record Scalar → Record Scalar
  redacted_if patterns none r = r
  redacted_if patterns (some message) r =
      if mentions_pattern patterns message
      then record r { attributes = redacted_attributes r.attributes }
      else r

  unfoldable pub redacting_filter : List Name → Record Scalar → Record Scalar
  redacting_filter patterns r = redacted_if patterns (runtime.get_message r.attributes) r

  unfoldable pub run_filters : List (List Name) → Record Scalar → Record Scalar
  run_filters [] r = r
  run_filters (patterns ∷ rest) r = run_filters rest (redacting_filter patterns r)

  abbrev pub plain_lines : Option Name → List (Line Scalar)
  plain_lines none = []
  plain_lines (some message) = plain_line message ∷ []

  abbrev pub json_lines :
      (service environment : Name)
      → List Name
      → (now : Scalar) → Option (Option (Dict Scalar))
      → Dict Scalar
      → List (Line Scalar)
  json_lines service environment patterns now none attributes = []
  json_lines service environment patterns now (some e) attributes =
      json_line (
        format runtime.lower patterns (runtime.text redacted_text) same_name
          (context runtime service environment now) exception_key e attributes)
      ∷ []

  -- `emit` of a handler; when the formatter raises, no line is written
  unfoldable pub emit : Formatter → (now : Scalar) → Record Scalar → List (Line Scalar)
  emit plain now r = plain_lines (runtime.get_message r.attributes)
  emit (json service environment patterns) now r =
      json_lines service environment patterns now (format_exception runtime r.exc_info) r.attributes

  -- the handlers one after the other: what the filters of one change in the record stays changed
  unfoldable pub emit_all : List Handler → (now : Scalar) → Record Scalar → List (Line Scalar)
  emit_all [] now r = []
  emit_all (h ∷ hs) now r =
      let seen = run_filters h.filters r in emit h.formatter now seen ++ emit_all hs now seen

  -- the level of the root decides, and without a handler the last resort, which writes from WARNING on
  abbrev pub handled_by : List Handler → (now : Scalar) → Record Scalar → List (Line Scalar)
  handled_by [] now r =
      if leb 30 r.level then plain_lines (runtime.get_message r.attributes) else []
  handled_by (h ∷ hs) now r = emit_all (h ∷ hs) now r

  abbrev pub is_enabled : Logging → Record Scalar → Bool
  is_enabled s r = ltb 0 r.level && leb s.level r.level

  unfoldable pub lines : Logging → (now : Scalar) → Record Scalar → List (Line Scalar)
  lines s now r = if is_enabled s r then handled_by s.handlers now r else []
