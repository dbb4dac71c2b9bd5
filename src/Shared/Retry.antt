-- ===== src/Shared/Retry.antt =====
-- shared/utils/retry.py. `func` is given by the outcome of each call, `random.uniform` by the value
-- that it draws below a bound. Delays are whole milliseconds and `jitter` is a percentage; the
-- rounding of Python's floats is not modelled. A run returns its outcome and its effects in order.
pub mod Schedule
pub mod Tests
use realtime_analytics_pipel.Prelude.{
  ℕ, zero, suc, ◌+◌, ◌-◌, ◌*◌, ◌/◌, min, Bool, true, false, not, Option, none, some, List, [], ◌∷◌,
  Exn, Outcome, ok, raise, runtime_error, is_exception, ◌==◌, if◌then◌else◌,
}

pub record Policy : Type 0 where
  pub retries : ℕ
  pub base_delay : ℕ
  pub max_delay : ℕ
  pub jitter : ℕ
  pub retry_on : Exn → Bool

pub data Effect : Type 0 where
  called : ℕ → Effect
  notified : ℕ → Exn → ℕ → Effect
  slept : ℕ → Effect

abbrev pub Run : Type 0 → Type 0
Run T = Outcome T × List Effect

-- what calling `on_retry(attempt, exc, sleep_for)` does
abbrev pub Callback : Type 0
Callback = ℕ → Exn → ℕ → Outcome (Unit {0})

-- no callback given
abbrev pub silent : Callback
silent attempt exc sleep_for = ok tt

-- `try: on_retry(...) except Exception: pass`
abbrev pub swallow : Outcome (Unit {0}) → Outcome (Unit {0})
swallow (ok u) = ok u
swallow (raise e) = if is_exception e then ok tt else raise e

module _ (p : Policy) (uniform : ℕ → ℕ → ℕ) where
  abbrev pub sleep_for : ℕ → ℕ → ℕ
  sleep_for attempt delay = min delay p.max_delay + uniform attempt (delay * p.jitter / 100)

  module _ {T : Type 0} (on_retry : Callback) (func : ℕ → Outcome T) where
    -- the end of the handler: notify, sleep, and go on with the rest of the loop
    unfoldable pub back_off : ℕ → Exn → ℕ → Outcome (Unit {0}) → Run T → Run T
    back_off attempt exc s (ok _) rest =
        (rest.0, called attempt ∷ notified (attempt + 1) exc s ∷ slept s ∷ rest.1)
    back_off attempt exc s (raise e) rest =
        (raise e, called attempt ∷ notified (attempt + 1) exc s ∷ [])

    unfoldable pub on_outcome : ℕ → ℕ → Outcome T → Run T → Run T
    unfolding back_off
    on_outcome attempt delay (ok v) rest = (ok v, called attempt ∷ [])
    on_outcome attempt delay (raise exc) rest =
        if not (p.retry_on exc)
        then (raise exc, called attempt ∷ [])
        else if attempt == p.retries - 1
        then (raise exc, called attempt ∷ [])
        else back_off attempt exc (sleep_for attempt delay)
            (swallow (on_retry (attempt + 1) exc (sleep_for attempt delay))) rest

    -- `for attempt in range(retries)`, by the rounds that are left
    unfoldable pub loop : ℕ → ℕ → ℕ → Run T
    loop zero attempt delay = (raise runtime_error, [])
    loop (suc left) attempt delay =
        let rest = loop left (attempt + 1) (min (delay * 2) p.max_delay) in
        on_outcome attempt delay (func attempt) rest

    unfoldable pub retry : Run T
    unfolding loop on_outcome
    retry = loop p.retries 0 p.base_delay

-- An async callback returns `None` or an awaitable, which is awaited in the same `try`.
abbrev pub AsyncCallback : Type 0
AsyncCallback = ℕ → Exn → ℕ → Outcome (Option (Outcome (Unit {0})))

abbrev pub await_result : Outcome (Option (Outcome (Unit {0}))) → Outcome (Unit {0})
await_result (ok none) = ok tt
await_result (ok (some awaited)) = awaited
await_result (raise e) = raise e

unfoldable pub retry_async :
    (p : Policy) → (ℕ → ℕ → ℕ) → {T : Type 0} → AsyncCallback → (ℕ → Outcome T) → Run T
unfolding retry
retry_async p uniform on_retry func =
    retry p uniform (λ attempt exc s. await_result (on_retry attempt exc s)) func
