-- ===== src/Ingestion/Producer/Tests.antt =====
-- A producer with a bounded queue, and requests to it.
use realtime_analytics_pipel.Prelude.{
  ℕ, ◌+◌, ◌-◌, ◌≡◌, refl, List, [], ◌∷◌, ◌++◌, Exn, Outcome, ok, raise, buffer_error,
  attribute_error, true, kafka_exception, length, ltb, ◌==◌, if◌then◌else◌, Bool-cases, inl, inr,
  arith,
}
use realtime_analytics_pipel.Ingestion.Producer.{
  Client, Metrics, kafka_delivery_failed, delivery_report, reraise, on_produce, attempts,
  send_event, track_event,
}
use realtime_analytics_pipel.Ingestion.Producer.Delivery.{
  IsSent, send_event-IsSent, after_response, errors_of, track_event_accounts, send_event_gives_up,
}

-- the events taken, and the number of calls of `poll` before the queue has a free place
pub record Queue : Type 0 where
  pub events : List ℕ
  pub busy : ℕ

-- event 0 is too large for the broker
abbrev pub produce : ℕ → Queue → Outcome (Unit {0}) × Queue
produce e q =
    if e == 0
    then (raise (kafka_exception 10), q)
    else if ltb 0 q.busy
    then (raise buffer_error, q)
    else (ok tt, record q { events = q.events ++ e ∷ [] })

pub produce_taken :
    (e : ℕ) (q : Queue) → (produce e q).0 ≡ ok tt → (produce e q).1.events ≡ q.events ++ e ∷ []
produce_taken e q h = elim (Bool-cases (e == 0)) [
  | inl z ↦ absurd (ground (arith, h, z))
  | inr n ↦ elim (Bool-cases (ltb 0 q.busy)) [
    | inl b ↦ absurd (ground (arith, h, n, b))
    | inr f ↦ rw (n, f) refl
  ]
]

pub produce_refused :
    (e : ℕ) (q : Queue) (x : Exn) → (produce e q).0 ≡ raise x → (produce e q).1.events ≡ q.events
produce_refused e q x h = elim (Bool-cases (e == 0)) [
  | inl z ↦ rw z refl
  | inr n ↦ elim (Bool-cases (ltb 0 q.busy)) [
    | inl b ↦ rw (n, b) refl
    | inr f ↦ absurd (ground (arith, h, n, f))
  ]
]

abbrev pub client : Client ℕ
client = record {
  State = Queue;
  produce = produce;
  poll = λ q. record q { busy = q.busy - 1 };
  flush = λ q. (length q.events, q);
  taken = λ q. q.events;
  produce_taken = produce_taken;
  produce_refused = produce_refused;
  poll_taken = λ q. refl;
  flush_taken = λ q. refl;
}

-- a `KafkaException` has no method `retriable`
abbrev pub details : ℕ → Outcome (Unit {0})
details code = raise attribute_error

abbrev pub full : ℕ → Queue
full n = record { events = 5 ∷ []; busy = n }

abbrev pub metrics : Metrics
metrics = record { ingestion_requests = 0; kafka_producer_errors = 0; ingestion_latency = 0 }

takes_after_three_calls :
    send_event client details 7 (full 2)
    ≡ record { outcome = ok tt; state = record { events = 5 ∷ 7 ∷ []; busy = 0 }; calls = 3 }
unfolding send_event attempts on_produce
takes_after_three_calls = refl

reports : delivery_report true ≡ kafka_delivery_failed
unfolding delivery_report
reports = refl

-- the log line of the handler raises first
hides_the_error : (send_event client details 0 (full 0)).outcome ≡ raise attribute_error
unfolding send_event attempts on_produce reraise
hides_the_error = refl

gives_up : (send_event client details 7 (full 300)).outcome ≡ raise buffer_error
unfolding send_event attempts on_produce
gives_up = refl

send_event-IsSent_example :
    IsSent client details 200 0 7 (full 2) (send_event client details 7 (full 2))
send_event-IsSent_example = send_event-IsSent client details 7 (full 2)

track_event_accounts_example :
    let r = track_event client details 7 (full 2, metrics) in
    (r.1.0.events ≡ after_response client details r.0 (5 ∷ []) 7)
    × (r.1.1 ≡ record {
      ingestion_requests = 1;
      kafka_producer_errors = 0 + errors_of client details r.0;
      ingestion_latency = 1;
    })
track_event_accounts_example = track_event_accounts client details 7 (full 2) metrics

never_ok :
    (e : ℕ) (q : List ℕ)
    → ◌≡◌ {A = Outcome (Unit {0})} (raise buffer_error) (ok tt)
    → q ≡ q ++ e ∷ []
never_ok e q h = absurd (cc)

-- a queue that never has a free place
abbrev jammed : Client ℕ
jammed = record {
  State = List ℕ;
  produce = λ e q. (raise buffer_error, q);
  poll = λ q. q;
  flush = λ q. (length q, q);
  taken = λ q. q;
  produce_taken = never_ok;
  produce_refused = λ e q x h. refl;
  poll_taken = λ q. refl;
  flush_taken = λ q. refl;
}

send_event_gives_up_example :
    let r = send_event jammed details 7 (5 ∷ []) in
    (r.outcome ≡ raise buffer_error) × (r.calls ≡ 200) × (r.state ≡ 5 ∷ [])
send_event_gives_up_example = send_event_gives_up jammed details 7 (5 ∷ []) (λ t. refl)
