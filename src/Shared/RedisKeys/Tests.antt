-- ===== src/Shared/RedisKeys/Tests.antt =====
-- Three keys, and a type that is not known.
use realtime_analytics_pipel.Prelude.{◌≡◌, refl, Bool, true, false, String, value_error, ok, raise}
use realtime_analytics_pipel.Shared.RedisKeys.{pattern_of, formatted, window_key, session_key}
use realtime_analytics_pipel.Shared.RedisKeys.Apart.{is_index, window_key_injective}

-- two starts of windows
abbrev show : Bool → String
show true = "60000"
show false = "120000"

show_injective : (w v : Bool) → show w ≡ show v → w ≡ v
show_injective true true h = refl
show_injective true false h = cc
show_injective false true h = cc
show_injective false false h = refl

never_windows : (w : Bool) → ¬ (show w ≡ "windows")
never_windows true h = cc
never_windows false h = cc

perf_key : window_key show "performance" true ≡ ok "metrics:perf:60000"
unfolding window_key formatted pattern_of
perf_key = refl

unknown_type : window_key show "perf" true ≡ raise value_error
unfolding window_key formatted pattern_of
unknown_type = refl

session : session_key "a1" ≡ "session:a1"
unfolding session_key
session = refl

abbrev performance : String
performance = "performance"

window_key_injective_example :
    (performance ≡ performance) × (true ≡ true) × (is_index "metrics:perf:60000" ≡ false)
window_key_injective_example =
    window_key_injective show show_injective never_windows "performance" "performance" true true
      "metrics:perf:60000" perf_key perf_key
