-- ===== src/Shared/Retry/Tests.antt =====
-- Runs of `retry` on small inputs, and the instances of its theorems.
use realtime_analytics_pipel.Prelude.{
  ℕ, ◌≡◌, refl, true, [], ◌∷◌, Outcome, ok, raise, library, runtime_error, arith, ltb,
  if◌then◌else◌,
}
use realtime_analytics_pipel.Shared.Retry.{Policy, called, notified, slept, silent, Callback, retry}
use realtime_analytics_pipel.Shared.Retry.Schedule.{IsQuiet, IsDecidedBy, retry_outcome}

abbrev policy : Policy
policy = record {
  retries = 3;
  base_delay = 500;
  max_delay = 800;
  jitter = 10;
  retry_on = λ e. true;
}

abbrev no_jitter : ℕ → ℕ → ℕ
no_jitter attempt bound = 0

-- fails twice, then returns its attempt
abbrev third_time : ℕ → Outcome ℕ
third_time attempt = if ltb attempt 2 then raise (library 7) else ok attempt

abbrev failing_callback : Callback
failing_callback attempt exc s = raise (library 1)

succeeds_at_third : retry policy no_jitter failing_callback third_time ≡ (
  ok 2,
  called 0
      ∷ notified 1 (library 7) 500
      ∷ slept 500
      ∷ called 1
      ∷ notified 2 (library 7) 800
      ∷ slept 800
      ∷ called 2
      ∷ [],
)
unfolding retry
succeeds_at_third = refl

-- With no retries the line marked unreachable is reached, and `func` is never called.
no_retries :
    retry (record policy { retries = 0 }) no_jitter silent third_time ≡ (raise runtime_error, [])
unfolding retry
no_retries = refl

failing_callback-IsQuiet : IsQuiet failing_callback
failing_callback-IsQuiet attempt exc s = refl

retry_outcome_example :
    (d : ℕ) × IsDecidedBy policy no_jitter third_time 0 d
      (retry policy no_jitter failing_callback third_time)
retry_outcome_example =
    retry_outcome policy no_jitter failing_callback third_time failing_callback-IsQuiet
      (omega arith)
