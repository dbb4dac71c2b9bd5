-- ===== src/Shared/Environments.antt =====
-- shared/constants/environments.py; `lower` is `str.lower`.
pub mod Tests
use realtime_analytics_pipel.Prelude.{Bool, true, false, String, str_eq}

pub data Environment : Type 0 where
  production staging testing development : Environment

abbrev pub value : Environment → String
value production = "production"
value staging = "staging"
value testing = "testing"
value development = "development"

module _ (lower : String → String) where
  unfoldable pub is_production : String → Bool
  is_production env = str_eq (lower env) (value production)

  unfoldable pub is_testing : String → Bool
  is_testing env = str_eq (lower env) (value testing)

  unfoldable pub is_development : String → Bool
  is_development env = str_eq (lower env) (value development)
