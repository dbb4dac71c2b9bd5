-- ===== src/Ingestion/Topics/Tests.antt =====
-- Answers of the admin client: a new topic, one that exists, and one that failed.
use realtime_analytics_pipel.Prelude.{
  ℕ, ◌≡◌, refl, none, List, [], ◌∷◌, String, Exn, Outcome, ok, raise, attribute_error,
  runtime_error, kafka_exception,
}
use realtime_analytics_pipel.Ingestion.Topics.{
  new_topics, or_empty, requested, on_code, on_result, check_results, created, existed, failed,
  failures, check_results-failures,
}

abbrev code_of : Exn → Outcome ℕ
code_of (kafka_exception code) = ok code
code_of e = raise attribute_error

abbrev answers : List (String × Outcome (Unit {0}))
answers =
    ("events", ok tt)
    ∷ ("event_metrics", raise (kafka_exception 36))
    ∷ ("session_metrics", raise (kafka_exception 7))
    ∷ []

requests_all :
    requested "events" none
    ≡ record { topic = "events"; num_partitions = 3; replication_factor = 1 } ∷ []
unfolding requested new_topics or_empty
requests_all = refl

logs_the_failure : check_results code_of answers ≡ (ok tt, "session_metrics" ∷ [])
unfolding check_results on_result on_code
logs_the_failure = refl

-- an exception without a code ends the start of the service
other_error_raises :
    check_results code_of (("events", raise runtime_error) ∷ []) ≡ (raise attribute_error, [])
unfolding check_results on_result on_code
other_error_raises = refl

check_results-failures_example : check_results code_of answers ≡ (
  ok tt,
  failures code_of answers (created, (existed refl refl, (failed 7 refl refl refl, tt))),
)
check_results-failures_example =
    check_results-failures code_of answers
      (created, (existed refl refl, (failed 7 refl refl refl, tt)))
