-- ===== src/Shared/Environments/Tests.antt =====
-- The name of one environment.
use realtime_analytics_pipel.Prelude.{◌≡◌, refl, true, false}
use realtime_analytics_pipel.Shared.Environments.{is_production, is_testing, is_development}

in_testing : is_testing (λ s. s) "testing" ≡ true
unfolding is_testing
in_testing = refl

not_production : is_production (λ s. s) "testing" ≡ false
unfolding is_production
not_production = refl

not_development : is_development (λ s. s) "staging" ≡ false
unfolding is_development
not_development = refl
