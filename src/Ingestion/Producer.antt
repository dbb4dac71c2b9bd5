-- ===== src/Ingestion/Producer.antt =====
-- `EventProducer` and `track_event` of services/ingestion/src: the event is handed to the
-- producer of the client library, which is a parameter, with what the library documents of it.
pub mod Delivery
pub mod Tests
use realtime_analytics_pipel.Prelude.{
  ℕ, zero, suc, ◌+◌, ◌≡◌, Bool, true, false, List, [], ◌∷◌, ◌++◌, Exn, Outcome, ok, raise,
  buffer_error, kafka_exception, is_exception, if◌then◌else◌, String,
}

-- `taken` is the list of the events that the library has put in its queue, in order
pub record Client (Event : Type 0) : Type 1 where
  pub State : Type 0
  pub produce : Event → State → Outcome (Unit {0}) × State
  pub poll : State → State
  -- the number of messages still in the queue, and the state
  pub flush : State → ℕ × State
  pub taken : State → List Event
  pub produce_taken :
      (e : Event) (s : State) → (produce e s).0 ≡ ok tt → taken (produce e s).1 ≡ taken s ++ e ∷ []
  pub produce_refused :
      (e : Event) (s : State) (x : Exn)
      → (produce e s).0 ≡ raise x
      → taken (produce e s).1 ≡ taken s
  pub poll_taken : (s : State) → taken (poll s) ≡ taken s
  pub flush_taken : (s : State) → taken (flush s).1 ≡ taken s

-- how `send_event` ended, the state of the library, and the number of calls of `produce`
pub record Sent (State : Type 0) : Type 0 where
  pub outcome : Outcome (Unit {0})
  pub state : State
  pub calls : ℕ

-- the metrics of the endpoint
pub record Metrics : Type 0 where
  pub ingestion_requests : ℕ
  pub kafka_producer_errors : ℕ
  -- the number of observations
  pub ingestion_latency : ℕ

-- `{"status": "accepted"}`
pub data Response : Type 0 where
  accepted : Response

pub data Setting : Type 0 where
  text : String → Setting
  number : ℕ → Setting

-- the configuration that `__init__` gives to the library
unfoldable pub producer_settings : (kafka_bootstrap_servers : String) → List (String × Setting)
producer_settings kafka_bootstrap_servers =
    ("bootstrap.servers", text kafka_bootstrap_servers)
    ∷ ("message.max.bytes", number 10485760)
    ∷ ("acks", text "all")
    ∷ ("batch.size", number 1048576)
    ∷ ("linger.ms", number 20)
    ∷ []

-- the line that `_delivery_report` logs, by whether there is an error
pub data Report : Type 0 where
  kafka_delivery_failed kafka_delivery_success : Report

unfoldable pub delivery_report : (err : Bool) → Report
delivery_report true = kafka_delivery_failed
delivery_report false = kafka_delivery_success

-- `range(200)`
abbrev pub retry_window : ℕ
retry_window = 200

-- `details` is what evaluating `e.args[0].code()` and `e.retriable()` gives, for the arguments of the
-- log line of a `KafkaException` with that code
module _ {Event : Type 0} (client : Client Event) (details : ℕ → Outcome (Unit {0})) where
  -- the end of `except KafkaException as e`: the line is logged and `e` raised again
  unfoldable pub reraise : ℕ → Outcome (Unit {0}) → Exn
  reraise code (ok _) = kafka_exception code
  reraise code (raise x) = x

  -- one round: what `produce` did, with `rest` for the rounds after it
  unfoldable pub on_produce :
      (calls : ℕ) → Outcome (Unit {0}) → client.State → Sent client.State → Sent client.State
  on_produce calls (ok _) s rest = record { outcome = ok tt; state = client.poll s; calls = calls }
  on_produce calls (raise buffer_error) s rest = rest
  on_produce calls (raise (kafka_exception code)) s rest = record {
    outcome = raise (reraise code (details code));
    state = s;
    calls = calls;
  }
  on_produce calls (raise x) s rest = record { outcome = raise x; state = s; calls = calls }

  -- the loop with `left` rounds to go, after `calls` calls of `produce`
  unfoldable pub attempts : (left calls : ℕ) → Event → client.State → Sent client.State
  attempts zero calls e s = record {
    outcome = raise buffer_error;
    state = (client.flush s).1;
    calls = calls;
  }
  attempts (suc left) calls e s =
      let r = client.produce e s in
      on_produce (calls + 1) r.0 r.1 (attempts left (calls + 1) e (client.poll r.1))

  unfoldable pub send_event : Event → client.State → Sent client.State
  send_event e s = attempts retry_window 0 e s

  -- the handler after `send_event`: `except Exception`, `else` and `finally`
  unfoldable pub respond : Outcome (Unit {0}) → Metrics → Outcome Response × Metrics
  respond (ok _) m = (ok accepted, record m { ingestion_latency = m.ingestion_latency + 1 })
  respond (raise x) m = (
    raise x,
    record m {
      kafka_producer_errors = m.kafka_producer_errors + (if is_exception x then 1 else 0);
      ingestion_latency = m.ingestion_latency + 1;
    },
  )

  unfoldable pub track_event :
      Event → client.State × Metrics → Outcome Response × (client.State × Metrics)
  track_event e (s, m) =
      let sent = send_event e s in
      let r = respond sent.outcome (record m { ingestion_requests = m.ingestion_requests + 1 }) in
      (r.0, (sent.state, r.1))
