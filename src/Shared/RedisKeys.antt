-- ===== src/Shared/RedisKeys.antt =====
-- `RedisKeys` of shared/constants/redis_keys.py.
pub mod Apart
pub mod Tests
use Prim.Native.String.{slice}
use text.Mathlib.TextLemmas.{append_assoc, append_cancel_left}
use text.Mathlib.TextPositions.{slice-append_left}
use realtime_analytics_pipel.Prelude.{
  ◌≡◌, ◌≢◌, refl, sym, ap, ◌∙◌, Bool, true, false, Option, none, some, List, [], ◌∷◌, String,
  text_append, str_eq, eq_iff, Exn, value_error, Outcome, ok, raise, ok_injective, if◌then◌else◌,
  Bool-cases, inl, inr, ◌⊎◌,
}

-- the patterns, up to the number that they are formatted with
abbrev pub window_event_hash : String
window_event_hash = "metrics:event:"

abbrev pub window_perf_hash : String
window_perf_hash = "metrics:perf:"

abbrev pub window_session_hash : String
window_session_hash = "metrics:session:"

abbrev pub window_event_index : String
window_event_index = "metrics:event:windows"

abbrev pub window_perf_index : String
window_perf_index = "metrics:perf:windows"

abbrev pub window_session_index : String
window_session_index = "metrics:session:windows"

abbrev pub pubsub_channel_updates : String
pubsub_channel_updates = "cache:updates"

abbrev pub active_session_set : String
active_session_set = "sessions:active"

-- `patterns.get(metric_type)`
unfoldable pub pattern_of : String → Option String
pattern_of metric_type =
    if str_eq metric_type "event"
    then some window_event_hash
    else if str_eq metric_type "performance"
    then some window_perf_hash
    else if str_eq metric_type "session"
    then some window_session_hash
    else none

module _ {W : Type 0} (show : W → String) where
  unfoldable pub formatted : W → Option String → Outcome String
  formatted w none = raise value_error
  formatted w (some pattern) = ok (text_append pattern (show w))

  unfoldable pub window_key : String → W → Outcome String
  window_key metric_type w = formatted w (pattern_of metric_type)

-- `session_key`
unfoldable pub session_key : String → String
session_key session_id = text_append "session:" session_id
