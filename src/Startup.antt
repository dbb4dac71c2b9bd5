-- ===== src/Startup.antt =====
-- The start of the services: `ensure_topics_available` of
-- services/storage/src/infrastructure/kafka/topic_waiter.py, and `_ensure_topics` and
-- `start_consumer_with_retries` of services/cache/src/infrastructure/kafka/consumer.py. All three are
-- loops over a range whose rounds end the call or sleep. Sleeps are milliseconds, delays seconds.
pub mod Rounds
pub mod Schedule
pub mod Tests
use realtime_analytics_pipel.Prelude.{
  ℕ, zero, suc, ◌+◌, ◌*◌, ◌^◌, min, Bool, true, false, ◌||◌, List, [], ◌∷◌, String, str_eq, Exn,
  Outcome, ok, raise, runtime_error, library, is_exception, ◌>>=◌, ◌==◌, if◌then◌else◌,
}

-- how one round ends: the call returns, or it sleeps and goes on, or it raises
pub data Verdict : Type 0 where
  done : Verdict
  again : (sleep : ℕ) → Verdict
  stop : Exn → Verdict

-- the outcome of a call, and its sleeps in order
abbrev pub Run : Type 0
Run = Outcome (Unit {0}) × List ℕ

unfoldable pub after_round : Verdict → Run → Run
after_round done rest = (ok tt, [])
after_round (again sleep) rest = (rest.0, sleep ∷ rest.1)
after_round (stop e) rest = (raise e, [])

-- the loop with `left` rounds to go from round `attempt`, and what is raised after the last one
unfoldable pub rounds : (ℕ → Verdict) → Exn → (left attempt : ℕ) → Run
rounds verdict exhausted zero attempt = (raise exhausted, [])
rounds verdict exhausted (suc left) attempt =
    after_round (verdict attempt) (rounds verdict exhausted left (attempt + 1))

unfoldable pub contains : String → List String → Bool
contains t [] = false
contains t (u ∷ us) = str_eq t u || contains t us

-- `set(topics) - available`
unfoldable pub missing : (topics available : List String) → List String
missing [] available = []
missing (t ∷ ts) available =
    let rest = missing ts available in if contains t available then rest else t ∷ rest

-- a round of the topic check: what `list_topics` gives or raises
module _ (topics : List String) (initial_delay : ℕ) (uniform : ℕ → ℕ → ℕ) where
  abbrev pub base : ℕ → ℕ
  base attempt = min (initial_delay * 2 ^ attempt) 60

  unfoldable pub after_check : (attempt : ℕ) → (absent : List String) → Verdict
  after_check attempt [] = done
  after_check attempt (t ∷ ts) = again (base attempt * 1000 + uniform attempt (base attempt * 100))

  unfoldable pub check : (attempt : ℕ) → Outcome (List String) → Verdict
  check attempt (ok available) = after_check attempt (missing topics available)
  check attempt (raise e) = if is_exception e then again (initial_delay * 1000) else stop e

-- `list_topics` is given by its outcome in each round; the storage service adds a random part to a sleep
unfoldable pub ensure_topics_available :
    (topics : List String)
    → (max_retries initial_delay : ℕ) → (uniform : ℕ → ℕ → ℕ)
    → (list_topics : ℕ → Outcome (List String)) → Run
ensure_topics_available topics max_retries initial_delay uniform list_topics =
    rounds (λ attempt. check topics initial_delay uniform attempt (list_topics attempt))
      runtime_error max_retries 0

-- the check of the cache service: the start of the admin client, which may raise, then 30 rounds, no
-- random part, and a plain `Exception` at the end
unfoldable pub ensure_topics :
    (started : Outcome (Unit {0}))
    → (topics : List String) → (list_topics : ℕ → Outcome (List String)) → Run
ensure_topics (raise e) topics list_topics = (raise e, [])
ensure_topics (ok _) topics list_topics =
    rounds (λ attempt. check topics 5 (λ i bound. 0) attempt (list_topics attempt)) (library 0) 30 0

-- `delay` in the round with that number, counted from 0
unfoldable pub delay : ℕ → ℕ
delay zero = 1000
delay (suc k) = min (delay k * 2) 30000

-- the handler of `start_consumer_with_retries`
unfoldable pub on_start : ℕ → Outcome (Unit {0}) → Verdict
on_start attempt (ok _) = done
on_start attempt (raise e) = if is_exception e then again (delay attempt) else stop e

-- The `try` of a round: only the first one checks the topics. `start` is given by its outcome in
-- each round; Python counts the rounds from 1.
unfoldable pub try_start :
    (ensured : Outcome (Unit {0})) → (start : ℕ → Outcome (Unit {0})) → ℕ → Outcome (Unit {0})
try_start ensured start zero = ensured >>= (λ u. start zero)
try_start ensured start (suc k) = start (suc k)

unfoldable pub start_consumer_with_retries :
    (ensured : Outcome (Unit {0})) → (start : ℕ → Outcome (Unit {0})) → Run
start_consumer_with_retries ensured start =
    rounds (λ attempt. on_start attempt (try_start ensured start attempt)) runtime_error 7 0
