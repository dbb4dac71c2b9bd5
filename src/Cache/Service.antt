-- ===== src/Cache/Service.antt =====
-- `CacheService` of services/cache/src/services/cache_service.py over the repository. An empty dict is
-- `none`, as is `None`.
use realtime_analytics_pipel.Prelude.{◌≡◌, refl, Option, List, [], ◌∷◌, ℕ}
use realtime_analytics_pipel.Prelude.Order.{Order}
use realtime_analytics_pipel.Cache.Redis.{event, perf, ℤ, pos, Redis}
use realtime_analytics_pipel.Cache.Repository.{
  Operation, pipeline_apply, get_last_windows, get_latest_event_window,
}
use realtime_analytics_pipel.Cache.Repository.Reads.{head, latest_is_first}

pub record Overview (Window : Type 0) : Type 0 where
  pub event_latest : Option Window
  pub performance_latest : Option Window

module _ {W Fields Data : Type 0} {order : Order W} (redis : Redis W order Fields Data) where
  unfoldable pub apply_operations :
      (retention ttl : ℕ) → List (Operation W Fields) → redis.State → redis.State
  apply_operations retention ttl [] s = s
  apply_operations retention ttl (op ∷ ops) s = pipeline_apply redis retention ttl (op ∷ ops) s

  unfoldable pub get_event_latest : redis.State → Option (W × Data)
  get_event_latest s = get_latest_event_window redis s

  unfoldable pub get_event_windows : ℤ → redis.State → List (W × Data)
  get_event_windows limit s = get_last_windows redis event limit s

  unfoldable pub get_performance_windows : ℤ → redis.State → List (W × Data)
  get_performance_windows limit s = get_last_windows redis perf limit s

  unfoldable pub get_overview : redis.State → Overview (W × Data)
  get_overview s = record {
    event_latest = get_latest_event_window redis s;
    performance_latest = head (get_last_windows redis perf (pos 1) s);
  }

  -- The overview holds the first of the windows that each of the two lists of windows has for limit
  -- 1, and its event part is what the request for the latest event window returns.
  pub get_overview_agrees :
      (s : redis.State)
      → ((get_overview s).event_latest ≡ head (get_event_windows (pos 1) s))
        × ((get_overview s).performance_latest ≡ head (get_performance_windows (pos 1) s))
        × ((get_overview s).event_latest ≡ get_event_latest s)
  unfolding get_overview get_event_windows get_performance_windows get_event_latest
  get_overview_agrees s = (latest_is_first redis s, refl, refl)
