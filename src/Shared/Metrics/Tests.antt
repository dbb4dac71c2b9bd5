-- ===== src/Shared/Metrics/Tests.antt =====
-- Names of metrics: `hits` of the service `db`.
use realtime_analytics_pipel.Prelude.{◌≡◌, refl, none, some, [], ◌∷◌, ok, raise, value_error}
use realtime_analytics_pipel.Shared.Metrics.{
  Name, matches_rest, matches, validate, starts_with, prefix, full_name, histogram, get_histogram,
  metric_factory,
}

abbrev hits : Name
hits = 104 ∷ 105 ∷ 116 ∷ 115 ∷ []

abbrev db : Name
db = 100 ∷ 98 ∷ []

abbrev db_hits : Name
db_hits = 100 ∷ 98 ∷ 95 ∷ 104 ∷ 105 ∷ 116 ∷ 115 ∷ []

registers : full_name hits (some db) ≡ ok db_hits
unfolding full_name validate matches matches_rest prefix starts_with
registers = refl

refuses_a_space : full_name (104 ∷ 32 ∷ []) none ≡ raise value_error
unfolding full_name validate matches matches_rest prefix
refuses_a_space = refl

-- the `$` of the pattern lets a newline at the end pass
accepts_a_newline : full_name (104 ∷ 10 ∷ []) none ≡ ok (104 ∷ 10 ∷ [])
unfolding full_name validate matches matches_rest prefix
accepts_a_newline = refl

by_factory :
    (metric_factory db).make_histogram hits [] (some (1 ∷ 5 ∷ []))
    ≡ ok (histogram db_hits [] (some (1 ∷ 5 ∷ [])))
unfolding metric_factory get_histogram full_name validate matches matches_rest prefix starts_with
by_factory = refl
