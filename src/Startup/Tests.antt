-- ===== src/Startup/Tests.antt =====
-- Starts of the services at concrete answers of the broker.
use realtime_analytics_pipel.Prelude.{
  ℕ, zero, suc, ◌<◌, ◌≡◌, refl, ap, true, List, [], ◌∷◌, String, Outcome, ok, raise, runtime_error,
  library, kafka_exception, length, All,
}
use realtime_analytics_pipel.Startup.{
  after_round, rounds, contains, missing, after_check, check, ensure_topics_available,
  ensure_topics, delay, on_start, try_start, start_consumer_with_retries,
}
use realtime_analytics_pipel.Startup.Rounds.{ensure_topics_available-All}
use realtime_analytics_pipel.Startup.Schedule.{IsScheduled, start-IsScheduled}

abbrev topics : List String
topics = "event_metrics" ∷ "session_metrics" ∷ []

-- the second topic appears in the third round, after an error in the second
abbrev list_topics : ℕ → Outcome (List String)
list_topics zero = ok ("event_metrics" ∷ [])
list_topics (suc zero) = raise (kafka_exception 3)
list_topics (suc (suc n)) = ok ("other" ∷ "session_metrics" ∷ "event_metrics" ∷ [])

abbrev no_jitter : ℕ → ℕ → ℕ
no_jitter attempt bound = 0

waits_for_the_topics :
    ensure_topics_available topics 30 5 no_jitter list_topics ≡ (ok tt, 5000 ∷ 5000 ∷ [])
unfolding ensure_topics_available rounds after_round check after_check missing contains
waits_for_the_topics = refl

waits_in_the_cache : ensure_topics (ok tt) topics list_topics ≡ (ok tt, 5000 ∷ 5000 ∷ [])
unfolding ensure_topics rounds after_round check after_check missing contains
waits_in_the_cache = refl

no_admin :
    ensure_topics (raise (kafka_exception 3)) topics list_topics ≡ (raise (kafka_exception 3), [])
unfolding ensure_topics
no_admin = refl

gives_up :
    ensure_topics_available topics 5 5 no_jitter (λ attempt. ok [])
    ≡ (raise runtime_error, 5000 ∷ 10000 ∷ 20000 ∷ 40000 ∷ 60000 ∷ [])
unfolding ensure_topics_available rounds after_round check after_check missing contains
gives_up = refl

abbrev down : ℕ → Outcome (Unit {0})
down attempt = raise (kafka_exception 1)

never_starts :
    start_consumer_with_retries (ok tt) down
    ≡ (raise runtime_error, 1000 ∷ 2000 ∷ 4000 ∷ 8000 ∷ 16000 ∷ 30000 ∷ 30000 ∷ [])
unfolding start_consumer_with_retries rounds after_round on_start try_start delay
never_starts = refl

-- the topics are checked in the first round only: the second starts the consumer without them
starts_without_topics :
    start_consumer_with_retries (raise (library 0)) (λ attempt. ok tt) ≡ (ok tt, 1000 ∷ [])
unfolding start_consumer_with_retries rounds after_round on_start try_start delay
starts_without_topics = refl

ensure_topics_available-All_example :
    let r = ensure_topics_available topics 30 5 no_jitter list_topics in
    (length r.1 < 30)
    × ((available : List String) × (list_topics (length r.1) ≡ ok available)
        × All (λ t. contains t available ≡ true) topics)
ensure_topics_available-All_example =
    ensure_topics_available-All topics 30 5 no_jitter list_topics
      (ap (λ r. r.0) waits_for_the_topics)

-- the consumer starts in the third round
abbrev up_later : ℕ → Outcome (Unit {0})
up_later zero = raise (kafka_exception 3)
up_later (suc zero) = raise (kafka_exception 3)
up_later (suc (suc n)) = ok tt

starts_late : start_consumer_with_retries (ok tt) up_later ≡ (ok tt, 1000 ∷ 2000 ∷ [])
unfolding start_consumer_with_retries rounds after_round on_start try_start delay
starts_late = refl

start-IsScheduled_example :
    IsScheduled
      (ok tt)
      up_later
      (1000 ∷ 2000 ∷ 4000 ∷ 8000 ∷ 16000 ∷ 30000 ∷ 30000 ∷ [])
      0
      (start_consumer_with_retries (ok tt) up_later)
start-IsScheduled_example = start-IsScheduled (ok tt) up_later
