-- ===== src/Cache/Connect.antt =====
-- The connection of the cache service to Redis: `_init_redis_with_retry` of services/cache/src/main.py, over
-- `retry_async` of shared/utils/retry.py. A client is given by the outcome of its `ping` in each attempt.
pub mod Tests
use native.Mathlib.Omega.{arith}
use realtime_analytics_pipel.Prelude.{
  ℕ, zero, suc, ◌+◌, ◌-◌, ◌≤◌, ◌<◌, ◌≡◌, refl, ap, ◌∙◌, ◌⊎◌, inl, inr, true, false, Option, some,
  List, [], ◌∷◌, Exn, Outcome, ok, raise, is_exception, ◌>>=◌,
}
use realtime_analytics_pipel.Shared.Retry.{
  Policy, Run, AsyncCallback, await_result, retry, retry_async, sleep_for,
}
use realtime_analytics_pipel.Shared.Retry.Schedule.{
  calls, sleeps, schedule, settles, delay_at, IsDecidedBy, retry_outcome,
}

-- the arguments of `retry_async`, in milliseconds and per cent, and its default for `retry_on`
abbrev pub policy : Policy
policy = record {
  retries = 6;
  base_delay = 500;
  max_delay = 8000;
  jitter = 20;
  retry_on = is_exception;
}

-- `_connect`: the client, when it has answered the ping
unfoldable pub connect : {Client Pong : Type 0} → Client → Outcome Pong → Outcome Client
connect client ping = ping >>= (λ pong. ok client)

-- `_on_retry`, which is awaited and writes a line
abbrev pub on_retry : AsyncCallback
on_retry attempt exc sleep_for = ok (some (ok tt))

unfoldable pub init_redis_with_retry :
    (uniform : ℕ → ℕ → ℕ)
    → {Client Pong : Type 0} → (client : ℕ → Client) → (ping : ℕ → Outcome Pong) → Run Client
init_redis_with_retry uniform client ping =
    retry_async policy uniform on_retry (λ attempt. connect (client attempt) (ping attempt))

abbrev pub total : List ℕ → ℕ
total [] = 0
total (x ∷ xs) = x + total xs

module _ (uniform : ℕ → ℕ → ℕ) (bounded : (attempt bound : ℕ) → uniform attempt bound ≤ bound) where
  total-schedule_mono :
      (n m k : ℕ)
      → n ≤ m
      → total (schedule policy uniform n k) ≤ total (schedule policy uniform m k)
  unfolding schedule
  total-schedule_mono zero m k h = omega arith
  total-schedule_mono (suc n) zero k h = absurd (omega arith)
  total-schedule_mono (suc n) (suc m) k h =
      omega (arith, total-schedule_mono n m (k + 1) (omega arith))

  -- the jitter of a round is at most a fifth of its delay
  total-schedule-le : (n : ℕ) → n ≤ 5 → total (schedule policy uniform n 0) ≤ 18600
  unfolding schedule
  total-schedule-le n h = omega (
    arith,
    total-schedule_mono n 5 0 h,
    bounded 0 100,
    bounded 1 200,
    bounded 2 400,
    bounded 3 800,
    bounded 4 1600,
  )

  last_or_settled : {b : Type 0} (d : ℕ) → b ⊎ (suc d ≡ 6) → b ⊎ (d ≡ 5)
  last_or_settled d (inl s) = inl s
  last_or_settled d (inr e) = inr (omega arith)

  -- When `uniform(0, b)` draws at most b, the connection to Redis ends in some attempt d of at most six: with
  -- the client of that attempt or what its ping raised, no attempt before it having returned or raised other
  -- than an `Exception`, and that attempt having done so or being the last. It has connected d + 1 times and
  -- has slept for at most 18.6 seconds in all.
  pub init_redis_with_retry_ends :
      {Client Pong : Type 0} (client : ℕ → Client) (ping : ℕ → Outcome Pong)
      → (d : ℕ) × (d < 6)
        × ((init_redis_with_retry uniform client ping).0 ≡ connect (client d) (ping d))
        × ((settles policy (connect (client d) (ping d)) ≡ true) ⊎ (d ≡ 5))
        × ((i : ℕ) → i < d → settles policy (connect (client i) (ping i)) ≡ false)
        × (calls (init_redis_with_retry uniform client ping).1 ≡ suc d)
        × (total (sleeps (init_redis_with_retry uniform client ping).1) ≤ 18600)
  unfolding init_redis_with_retry retry_async
  init_redis_with_retry_ends client ping =
      let (d, r) =
        retry_outcome policy uniform (λ attempt exc s. await_result (on_retry attempt exc s))
          (λ attempt. connect (client attempt) (ping attempt)) (λ attempt exc s. refl)
          (omega arith) in
      (
        d,
        r.below,
        r.outcome,
        last_or_settled d r.ends,
        λ i h. r.earlier i (omega arith) h,
        omega (arith, r.count),
        rw r.slept_for (total-schedule-le (d - 0) (omega (arith, r.below))),
      )
