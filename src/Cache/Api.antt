-- ===== src/Cache/Api.antt =====
-- The endpoints of the cache service: services/cache/src/api, over the service and what Redis answers. A
-- dict that is returned is `answered`; the parameter `text_of` is `str` of an exception.
pub mod Readiness
pub mod Tests
use realtime_analytics_pipel.Prelude.{
  ℕ, Bool, true, false, Option, none, some, List, String, Exn, Outcome, ok, raise, is_exception,
  if◌then◌else◌,
}
use realtime_analytics_pipel.Prelude.Order.{Order}
use realtime_analytics_pipel.Cache.Redis.{ℤ, pos, Redis}
use realtime_analytics_pipel.Cache.Service as Service
use realtime_analytics_pipel.Cache.Service.{Overview, get_event_latest, get_overview}

pub data Response (Body : Type 0) : Type 0 where
  answered : Body → Response Body
  refused : (status_code : ℕ) → (content : String) → Response Body

pub record Health (Pong : Type 0) : Type 0 where
  pub status : String
  pub redis : Pong

pub record Status : Type 0 where
  pub status : String

pub record Windows (Window : Type 0) : Type 0 where
  pub windows : List Window

unfoldable pub healthz :
    {Pong : Type 0} → (text_of : Exn → String) → Outcome Pong → Outcome (Response (Health Pong))
healthz text_of (ok pong) = ok (answered (record { status = "ok"; redis = pong }))
healthz text_of (raise e) = if is_exception e then ok (refused 503 (text_of e)) else raise e

unfoldable pub readyz : (ready : Bool) → Response Status
readyz true = answered (record { status = "ready" })
readyz false = refused 503 "not ready"

-- the default of `limit`
abbrev pub limit_or_default : Option ℤ → ℤ
limit_or_default none = pos 20
limit_or_default (some limit) = limit

module _ {W Fields Data : Type 0} {order : Order W} (redis : Redis W order Fields Data) where
  unfoldable pub event_latest : redis.State → Option (W × Data)
  event_latest s = get_event_latest redis s

  unfoldable pub event_windows : Option ℤ → redis.State → Windows (W × Data)
  event_windows limit s = record {
    windows = Service.get_event_windows redis (limit_or_default limit) s;
  }

  unfoldable pub performance_windows : Option ℤ → redis.State → Windows (W × Data)
  performance_windows limit s = record {
    windows = Service.get_performance_windows redis (limit_or_default limit) s;
  }

  unfoldable pub overview : redis.State → Overview (W × Data)
  overview s = get_overview redis s
