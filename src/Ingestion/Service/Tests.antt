-- ===== src/Ingestion/Service/Tests.antt =====
-- Three requests, of which the second is too large for the broker; and starts that fail.
use realtime_analytics_pipel.Prelude.{
  ℕ, ◌≡◌, refl, true, false, some, [], ◌∷◌, Exn, Outcome, ok, raise, attribute_error, library,
  kafka_exception, List, String,
}
use realtime_analytics_pipel.Shared.Logging.{fresh}
use realtime_analytics_pipel.Ingestion.Producer.{
  accepted, reraise, on_produce, attempts, send_event, respond, track_event,
}
use realtime_analytics_pipel.Ingestion.Producer.Tests.{client, details, full, metrics}
use realtime_analytics_pipel.Ingestion.Topics.{
  NewTopic, on_code, on_result, check_results, on_answer, create_topics,
}
use realtime_analytics_pipel.Ingestion.Service.{
  Settings, initialize_application, serve, lifespan, IsServed,
}
use realtime_analytics_pipel.Ingestion.Service.Served.{lifespan-IsServed}

answers :
    (lifespan client details (ok tt) (7 ∷ 0 ∷ 8 ∷ []) (full 1, metrics)).responses
    ≡ ok accepted ∷ raise attribute_error ∷ ok accepted ∷ []
unfolding lifespan serve track_event respond send_event attempts on_produce reraise
answers = refl

lifespan-IsServed_example :
    let life = lifespan client details (ok tt) (7 ∷ 0 ∷ 8 ∷ []) (full 1, metrics) in
    IsServed client details (7 ∷ 0 ∷ 8 ∷ []) (full 1, metrics) life.responses life.state
    × (life.flushed ≡ true)
    × (life.outcome ≡ ok tt)
lifespan-IsServed_example = lifespan-IsServed client details (7 ∷ 0 ∷ 8 ∷ []) (full 1, metrics)

not_started :
    (lifespan client details (raise (library 1)) (7 ∷ []) (full 0, metrics)).flushed ≡ false
unfolding lifespan
not_started = refl

abbrev settings : Settings
settings = record {
  kafka_topic_events = "events";
  kafka_consumer_topics = some ("event_metrics" ∷ []);
  otel_service_name = 105 ∷ [];
  app_environment = 116 ∷ [];
  app_log_level = 73 ∷ [];
  app_log_redaction_patterns = [];
}

-- 36 is the code of a topic that is there
abbrev code_of : Exn → Outcome ℕ
code_of (kafka_exception code) = ok code
code_of e = raise attribute_error

abbrev answer : List NewTopic → Outcome (List (String × Outcome (Unit {0})))
answer topics =
    ok (("events", raise (kafka_exception 36)) ∷ ("event_metrics", raise (kafka_exception 29)) ∷ [])

logs_a_failure :
    (initialize_application (λ k. k) false settings code_of answer fresh).0
    ≡ (ok tt, "event_metrics" ∷ [])
unfolding initialize_application create_topics on_answer check_results on_result on_code
logs_a_failure = refl

no_broker :
    (initialize_application (λ k. k) false settings code_of (λ t. raise (library 2)) fresh).0
    ≡ (raise (library 2), [])
unfolding initialize_application create_topics on_answer
no_broker = refl
