-- ===== src/Ingestion/Producer/Delivery.antt =====
-- What `send_event` and `track_event` promise: an event is accepted exactly when it was handed to the
-- library once.
use realtime_analytics_pipel.Prelude.{
  ℕ, zero, suc, ◌+◌, ◌≤◌, ◌≡◌, refl, ap, ◌∙◌, List, [], ◌∷◌, ◌++◌, Outcome, ok, raise, buffer_error,
  kafka_exception, is_exception, arith, if◌then◌else◌,
}
use realtime_analytics_pipel.Ingestion.Producer.{
  Client, Sent, Metrics, Response, retry_window, on_produce, attempts, send_event, respond,
  track_event,
}

plus_zero : (n : ℕ) → n ≡ n + 0
plus_zero n = omega arith

module _ {Event : Type 0} (client : Client Event) (details : ℕ → Outcome (Unit {0})) where
  -- what an outcome says of the events taken
  abbrev pub after : Outcome (Unit {0}) → List Event → Event → List Event
  after (ok _) events e = events ++ e ∷ []
  after (raise x) events e = events

  -- `r` may end a run that has called `produce` `calls` times and has `left` rounds to go
  pub record IsSent (left calls : ℕ) (e : Event) (s : client.State) (r : Sent client.State)
      : Type 0 where
    pub handed : client.taken r.state ≡ after r.outcome (client.taken s) e
    pub bounded : r.calls ≤ calls + left

  on_produce-IsSent :
      (left calls : ℕ) (e : Event) (s : client.State) (o : Outcome (Unit {0}))
      (rest : Sent client.State)
      → (client.produce e s).0 ≡ o
      → IsSent left (calls + 1) e (client.poll (client.produce e s).1) rest
      → IsSent
          (suc left)
          calls
          e
          s
          (on_produce client details (calls + 1) o (client.produce e s).1 rest)
  unfolding on_produce
  on_produce-IsSent left calls e s (ok tt) rest h i = record {
    handed = client.poll_taken _ ∙ client.produce_taken e s h;
    bounded = omega arith;
  }
  on_produce-IsSent left calls e s (raise buffer_error) rest h i = record {
    handed =
        i.handed
        ∙ ap (λ events. after rest.outcome events e)
            (client.poll_taken _ ∙ client.produce_refused e s buffer_error h);
    bounded = omega (arith, i.bounded);
  }
  on_produce-IsSent left calls e s (raise (kafka_exception code)) rest h i = record {
    handed = client.produce_refused e s (kafka_exception code) h;
    bounded = omega arith;
  }
  on_produce-IsSent left calls e s (raise x) rest h i = record {
    handed = client.produce_refused e s x h;
    bounded = omega arith;
  }

  attempts-IsSent :
      (left calls : ℕ) (e : Event) (s : client.State)
      → IsSent left calls e s (attempts client details left calls e s)
  unfolding attempts
  attempts-IsSent zero calls e s = record { handed = client.flush_taken s; bounded = omega arith }
  attempts-IsSent (suc left) calls e s =
      on_produce-IsSent left calls e s (client.produce e s).0 _ refl
        (attempts-IsSent left (calls + 1) e (client.poll (client.produce e s).1))

  -- the response and the metrics of one request
  abbrev pub errors_of : Outcome Response → ℕ
  errors_of (ok _) = 0
  errors_of (raise x) = if is_exception x then 1 else 0

  abbrev pub after_response : Outcome Response → List Event → Event → List Event
  after_response (ok _) events e = events ++ e ∷ []
  after_response (raise x) events e = events

  -- `send_event` calls `produce` at most 200 times. If it returns, the library has taken the event
  -- exactly once, after those it had before, and if it raises, not at all.
  pub send_event-IsSent :
      (e : Event) (s : client.State) → IsSent retry_window 0 e s (send_event client details e s)
  unfolding send_event
  send_event-IsSent e s = attempts-IsSent retry_window 0 e s

  respond_after :
      (o : Outcome (Unit {0})) (m : Metrics) (events : List Event) (e : Event)
      → after o events e ≡ after_response (respond client details o m).0 events e
  unfolding respond
  respond_after (ok tt) m events e = refl
  respond_after (raise x) m events e = refl

  respond_counts :
      (o : Outcome (Unit {0})) (m : Metrics)
      → let r = respond client details o m in
        r.1 ≡ record {
          ingestion_requests = m.ingestion_requests;
          kafka_producer_errors = m.kafka_producer_errors + errors_of r.0;
          ingestion_latency = m.ingestion_latency + 1;
        }
  unfolding respond
  respond_counts (ok tt) m =
      ap
        (λ (n : ℕ). record m {
          kafka_producer_errors = n;
          ingestion_latency = m.ingestion_latency + 1;
        })
        (plus_zero m.kafka_producer_errors)
  respond_counts (raise x) m = refl

  -- `track_event` answers "accepted" exactly when the library has taken the event, once; otherwise it
  -- raises and the library has taken nothing. Each request is counted once, its latency is observed
  -- once, and the error counter goes up by one exactly when an `Exception` is raised.
  pub track_event_accounts :
      (e : Event) (s : client.State) (m : Metrics)
      → let r = track_event client details e (s, m) in
        (client.taken r.1.0 ≡ after_response r.0 (client.taken s) e)
        × (r.1.1 ≡ record {
          ingestion_requests = m.ingestion_requests + 1;
          kafka_producer_errors = m.kafka_producer_errors + errors_of r.0;
          ingestion_latency = m.ingestion_latency + 1;
        })
  unfolding track_event
  track_event_accounts e s m = (
    let i = send_event-IsSent e s in
        i.handed ∙ respond_after (send_event client details e s).outcome _ (client.taken s) e,
    respond_counts (send_event client details e s).outcome _,
  )

  attempts_exhausted :
      (left calls : ℕ) (e : Event) (s : client.State)
      → ((t : client.State) → (client.produce e t).0 ≡ raise buffer_error)
      → let r = attempts client details left calls e s in
        (r.outcome ≡ raise buffer_error) × (r.calls ≡ calls + left)
  unfolding attempts on_produce
  attempts_exhausted zero calls e s h = (refl, omega arith)
  attempts_exhausted (suc left) calls e s h =
      let ih = attempts_exhausted left (calls + 1) e (client.poll (client.produce e s).1) h in
      rw (h s) (ih.0, omega (arith, ih.1))

  -- An event that the library refuses with `BufferError` every time is tried exactly 200 times, and
  -- then `BufferError` is raised and the library has not taken it.
  pub send_event_gives_up :
      (e : Event) (s : client.State)
      → ((t : client.State) → (client.produce e t).0 ≡ raise buffer_error)
      → let r = send_event client details e s in
        (r.outcome ≡ raise buffer_error) × (r.calls ≡ 200) × (client.taken r.state ≡ client.taken s)
  unfolding send_event
  send_event_gives_up e s h =
      let r = attempts_exhausted retry_window 0 e s h in
      let i = attempts-IsSent retry_window 0 e s in
      (r.0, omega (arith, r.1), i.handed ∙ ap (λ o. after o (client.taken s) e) r.0)
