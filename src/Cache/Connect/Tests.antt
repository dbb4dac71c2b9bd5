-- ===== src/Cache/Connect/Tests.antt =====
-- Redis that answers the third ping, and Redis that never answers.
use realtime_analytics_pipel.Prelude.{
  ℕ, ◌+◌, ◌≤◌, ◌<◌, ◌≡◌, refl, ◌⊎◌, true, false, suc, Outcome, ok, raise, library, [], ◌∷◌, ltb,
  if◌then◌else◌, arith,
}
use realtime_analytics_pipel.Shared.Retry.{called, notified, slept, retry, retry_async}
use realtime_analytics_pipel.Shared.Retry.Schedule.{calls, sleeps, settles}
use realtime_analytics_pipel.Cache.Connect.{
  policy, connect, init_redis_with_retry, total, init_redis_with_retry_ends,
}

abbrev no_jitter : ℕ → ℕ → ℕ
no_jitter attempt bound = 0

abbrev client : ℕ → ℕ
client attempt = 10 + attempt

abbrev third_ping : ℕ → Outcome (Unit {0})
third_ping attempt = if ltb attempt 2 then raise (library 7) else ok tt

abbrev never : ℕ → Outcome (Unit {0})
never attempt = raise (library 7)

connected : init_redis_with_retry no_jitter client third_ping ≡ (
  ok 12,
  called 0
      ∷ notified 1 (library 7) 500
      ∷ slept 500
      ∷ called 1
      ∷ notified 2 (library 7) 1000
      ∷ slept 1000
      ∷ called 2
      ∷ [],
)
unfolding init_redis_with_retry retry_async retry connect
connected = refl

gives_up : (init_redis_with_retry no_jitter client never).0 ≡ raise (library 7)
unfolding init_redis_with_retry retry_async retry connect
gives_up = refl

init_redis_with_retry_ends_example :
    (d : ℕ) × (d < 6)
    × ((init_redis_with_retry no_jitter client third_ping).0 ≡ connect (client d) (third_ping d))
    × ((settles policy (connect (client d) (third_ping d)) ≡ true) ⊎ (d ≡ 5))
    × ((i : ℕ) → i < d → settles policy (connect (client i) (third_ping i)) ≡ false)
    × (calls (init_redis_with_retry no_jitter client third_ping).1 ≡ suc d)
    × (total (sleeps (init_redis_with_retry no_jitter client third_ping).1) ≤ 18600)
init_redis_with_retry_ends_example =
    init_redis_with_retry_ends no_jitter (λ attempt bound. omega arith) client third_ping
