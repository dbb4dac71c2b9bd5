-- ===== src/Cache/Parser/Tests.antt =====
-- Records and their translations, with natural numbers for Python's integers.
use realtime_analytics_pipel.Prelude.{
  ℕ, ◌≡◌, refl, Bool, true, false, Option, none, some, List, [], ◌∷◌, String, str_eq, Outcome, ok,
  raise, value_error, type_error, ◌==◌, not, if◌then◌else◌,
}
use realtime_analytics_pipel.Cache.Redis.{event}
use realtime_analytics_pipel.Cache.Parser.{
  Value, null, boolean, integer, text, other, Python, get_or, coerce_ts, two_fields, operation,
  parse_event, parse_message,
}

abbrev parse_iso : String → Option ℕ
parse_iso s = if str_eq s "1970-01-01T00:01:00+00:00" then some 60000 else none

-- only digits of one kind are read here
abbrev to_int : Value ℕ ℕ → Outcome ℕ
to_int (integer n) = ok n
to_int (boolean true) = ok 1
to_int (boolean false) = ok 0
to_int (text s) = raise value_error
to_int (other f) = ok f
to_int null = raise type_error

abbrev truthy : Value ℕ ℕ → Bool
truthy null = false
truthy (boolean b) = b
truthy (integer n) = not (n == 0)
truthy (text s) = not (str_eq s "")
truthy (other f) = true

abbrev python : Python ℕ ℕ ℕ
python = record {
  of_bool = λ b. if b then 1 else 0;
  parse_iso = parse_iso;
  to_int = to_int;
  to_float = to_int;
  truthy = truthy;
  no_count = integer 0;
  no_time = other 0;
}

abbrev clicks : List (String × Value ℕ ℕ)
clicks =
    ("window_start", text "1970-01-01T00:01:00+00:00")
    ∷ ("event_type", text "click")
    ∷ ("event_count", integer 3)
    ∷ []

translates :
    parse_message python "event_metrics" clicks
    ≡ ok (
        some (record {
          kind = event;
          window_start = 60000;
          fields =
              record { category = text "click"; metric = "count"; number = 3 }
              ∷ record { category = text "click"; metric = "users"; number = 0 }
              ∷ [];
        }))
unfolding parse_message parse_event operation two_fields coerce_ts get_or
translates = refl

ignores_sessions : parse_message python "session_metrics" clicks ≡ ok none
unfolding parse_message
ignores_sessions = refl

-- `true` is an `int` for `isinstance`
bool_is_a_start : coerce_ts python (boolean true) ≡ some 1
unfolding coerce_ts
bool_is_a_start = refl

-- a count that is `null` raises, and nothing in the consume loop catches it
null_count_raises :
    parse_message python "event_metrics"
      (("event_count", null) ∷ ("window_start", integer 5) ∷ ("event_type", text "click") ∷ [])
    ≡ raise type_error
unfolding parse_message parse_event operation two_fields coerce_ts get_or
null_count_raises = refl
