-- ===== src/Ingestion/Service.antt =====
-- The life of the ingestion service: `initialize_application` of services/ingestion/src/startup.py, and
-- `lifespan` of main.py around the requests, which are served one after the other, since a handler has no await
-- that waits. The producer of the client library is there from the start.
pub mod Served
pub mod Tests
use realtime_analytics_pipel.Prelude.{
  ℕ, ◌+◌, ◌≡◌, refl, ap, ◌∙◌, Bool, true, false, Option, none, some, List, [], ◌∷◌, ◌++◌, String,
  Exn, Outcome, ok, raise, length, arith,
}
use mathlib.Core.List.{append-nil, append_assoc}
use realtime_analytics_pipel.Shared.Metrics.{Name}
use realtime_analytics_pipel.Shared.Logging.{Logging, configure_logging}
use realtime_analytics_pipel.Ingestion.Topics.{NewTopic, create_topics}
use realtime_analytics_pipel.Ingestion.Producer.{Client, Metrics, Response, track_event}
use realtime_analytics_pipel.Ingestion.Producer.Delivery.{
  after_response, errors_of, track_event_accounts,
}

-- `Settings`, less those of the broker
pub record Settings : Type 0 where
  pub kafka_topic_events : String
  pub kafka_consumer_topics : Option (List String)
  pub otel_service_name : Name
  pub app_environment : Name
  pub app_log_level : Name
  pub app_log_redaction_patterns : List Name

-- `shared` tells that shared.logging.json could be imported
abbrev pub configure_if : (upper : Name → Name) → (shared : Bool) → Settings → Logging → Logging
configure_if upper true settings s =
    configure_logging upper settings.otel_service_name settings.app_environment
      settings.app_log_level settings.app_log_redaction_patterns s
configure_if upper false settings s = s

-- what it raises or returns, the topics for which a failure was logged, and the logging
unfoldable pub initialize_application :
    (upper : Name → Name)
    → (shared : Bool) → Settings
    → (code_of : Exn → Outcome ℕ)
    → (answer : List NewTopic → Outcome (List (String × Outcome (Unit {0})))) → Logging
    → (Outcome (Unit {0}) × List String) × Logging
initialize_application upper shared settings code_of answer s = (
  create_topics code_of settings.kafka_topic_events settings.kafka_consumer_topics answer,
  configure_if upper shared settings s,
)

-- what the service has answered, the library and the metrics, whether `flush` was called, and the end
pub record Life (State : Type 0) : Type 0 where
  pub outcome : Outcome (Unit {0})
  pub responses : List (Outcome Response)
  pub state : State × Metrics
  pub flushed : Bool

module _ {Event : Type 0} (client : Client Event) (details : ℕ → Outcome (Unit {0})) where
  -- the requests, one after the other
  unfoldable pub serve :
      List Event → client.State × Metrics → List (Outcome Response) × (client.State × Metrics)
  serve [] t = ([], t)
  serve (e ∷ es) t =
      let r = track_event client details e t in let rest = serve es r.1 in (r.0 ∷ rest.0, rest.1)

  -- `EventProducer.flush`, which only logs how many messages remain
  unfoldable pub flush : client.State → client.State
  flush s = (client.flush s).1

  unfoldable pub lifespan :
      (initialized : Outcome (Unit {0})) → List Event → client.State × Metrics → Life client.State
  lifespan (raise x) es t = record { outcome = raise x; responses = []; state = t; flushed = false }
  lifespan (ok u) es t =
      let r = serve es t in
      record { outcome = ok tt; responses = r.0; state = (flush r.1.0, r.1.1); flushed = true }

  -- the events whose requests were answered "accepted"
  abbrev pub accepted_events : List Event → List (Outcome Response) → List Event
  accepted_events [] rs = []
  accepted_events (e ∷ es) [] = []
  accepted_events (e ∷ es) (ok r ∷ rs) = e ∷ accepted_events es rs
  accepted_events (e ∷ es) (raise x ∷ rs) = accepted_events es rs

  abbrev pub errors : List (Outcome Response) → ℕ
  errors [] = 0
  errors (r ∷ rs) = errors_of client details r + errors rs

  -- what the requests have done to the library and the metrics
  pub record IsServed (es : List Event) (t : client.State × Metrics) (rs : List (Outcome Response))
      (u : client.State × Metrics) : Type 0 where
    pub each : length rs ≡ length es
    pub taken : client.taken u.0 ≡ client.taken t.0 ++ accepted_events es rs
    pub requests : u.1.ingestion_requests ≡ t.1.ingestion_requests + length es
    pub failures : u.1.kafka_producer_errors ≡ t.1.kafka_producer_errors + errors rs
    pub observed : u.1.ingestion_latency ≡ t.1.ingestion_latency + length es
