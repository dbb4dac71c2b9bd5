-- ===== src/Shared/Logging/Names.antt =====
-- The texts that shared/logging/json.py and services/cache/src/core/logger.py give to records and lines, as
-- lists of their code points, and the names of the levels of Python's logging.
use realtime_analytics_pipel.Prelude.{
  ℕ, Bool, true, false, ◌&&◌, List, [], ◌∷◌, ◌==◌, if◌then◌else◌,
}
use realtime_analytics_pipel.Shared.Metrics.{Name}

abbrev pub same_name : Name → Name → Bool
same_name [] [] = true
same_name [] (d ∷ ds) = false
same_name (c ∷ cs) [] = false
same_name (c ∷ cs) (d ∷ ds) = let rest = same_name cs ds in c == d && rest

-- "timestamp"
abbrev pub timestamp_key : Name
timestamp_key = 116 ∷ 105 ∷ 109 ∷ 101 ∷ 115 ∷ 116 ∷ 97 ∷ 109 ∷ 112 ∷ []

-- "service"
abbrev pub service_key : Name
service_key = 115 ∷ 101 ∷ 114 ∷ 118 ∷ 105 ∷ 99 ∷ 101 ∷ []

-- "hostname"
abbrev pub hostname_key : Name
hostname_key = 104 ∷ 111 ∷ 115 ∷ 116 ∷ 110 ∷ 97 ∷ 109 ∷ 101 ∷ []

-- "pid"
abbrev pub pid_key : Name
pid_key = 112 ∷ 105 ∷ 100 ∷ []

-- "environment"
abbrev pub environment_key : Name
environment_key = 101 ∷ 110 ∷ 118 ∷ 105 ∷ 114 ∷ 111 ∷ 110 ∷ 109 ∷ 101 ∷ 110 ∷ 116 ∷ []

-- "exception"
abbrev pub exception_key : Name
exception_key = 101 ∷ 120 ∷ 99 ∷ 101 ∷ 112 ∷ 116 ∷ 105 ∷ 111 ∷ 110 ∷ []

-- "type"
abbrev pub type_key : Name
type_key = 116 ∷ 121 ∷ 112 ∷ 101 ∷ []

-- "message"
abbrev pub message_key : Name
message_key = 109 ∷ 101 ∷ 115 ∷ 115 ∷ 97 ∷ 103 ∷ 101 ∷ []

-- "stack"
abbrev pub stack_key : Name
stack_key = 115 ∷ 116 ∷ 97 ∷ 99 ∷ 107 ∷ []

-- "msg"
abbrev pub msg_key : Name
msg_key = 109 ∷ 115 ∷ 103 ∷ []

-- "args"
abbrev pub args_key : Name
args_key = 97 ∷ 114 ∷ 103 ∷ 115 ∷ []

-- "[REDACTED]"
abbrev pub redacted_text : Name
redacted_text = 91 ∷ 82 ∷ 69 ∷ 68 ∷ 65 ∷ 67 ∷ 84 ∷ 69 ∷ 68 ∷ 93 ∷ []

-- "[REDACTED SENSITIVE LOG CONTENT]"
abbrev pub redacted_message : Name
redacted_message =
    91 ∷ 82 ∷ 69 ∷ 68 ∷ 65 ∷ 67 ∷ 84 ∷ 69 ∷ 68 ∷ 32 ∷ 83 ∷ 69 ∷ 78 ∷ 83 ∷ 73 ∷ 84 ∷ 73 ∷ 86 ∷ 69
    ∷ 32 ∷ 76 ∷ 79 ∷ 71 ∷ 32 ∷ 67 ∷ 79 ∷ 78 ∷ 84 ∷ 69 ∷ 78 ∷ 84 ∷ 93 ∷ []

-- The levels that `logging` has under a name in capitals, NOTSET, DEBUG, INFO, WARN, WARNING, ERROR, FATAL
-- and CRITICAL.
abbrev pub levels : List (Name × ℕ)
levels =
    (78 ∷ 79 ∷ 84 ∷ 83 ∷ 69 ∷ 84 ∷ [], 0)
    ∷ (68 ∷ 69 ∷ 66 ∷ 85 ∷ 71 ∷ [], 10)
    ∷ (73 ∷ 78 ∷ 70 ∷ 79 ∷ [], 20)
    ∷ (87 ∷ 65 ∷ 82 ∷ 78 ∷ [], 30)
    ∷ (87 ∷ 65 ∷ 82 ∷ 78 ∷ 73 ∷ 78 ∷ 71 ∷ [], 30)
    ∷ (69 ∷ 82 ∷ 82 ∷ 79 ∷ 82 ∷ [], 40)
    ∷ (70 ∷ 65 ∷ 84 ∷ 65 ∷ 76 ∷ [], 50)
    ∷ (67 ∷ 82 ∷ 73 ∷ 84 ∷ 73 ∷ 67 ∷ 65 ∷ 76 ∷ [], 50)
    ∷ []

abbrev find_level : List (Name × ℕ) → Name → ℕ
find_level [] name = 20
find_level ((key, level) ∷ rest) name =
    let later = find_level rest name in if same_name key name then level else later

-- `getattr(logging, level.upper(), logging.INFO)`; the two constants of the module that are no levels,
-- BASIC_FORMAT and _STYLES, are left out
unfoldable pub level_of : (upper : Name → Name) → Name → ℕ
level_of upper level = find_level levels (upper level)
