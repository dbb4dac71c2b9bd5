-- ===== src/Ingestion/Service/Served.antt =====
-- What the ingestion service has done with the requests when it has been shut down.
use realtime_analytics_pipel.Prelude.{
  ℕ, ◌≡◌, refl, sym, ap, ◌∙◌, suc, true, List, [], ◌∷◌, ◌++◌, Outcome, ok, raise, arith,
}
use mathlib.Core.List.{append-nil, append_assoc}
use realtime_analytics_pipel.Ingestion.Producer.{Client, Metrics, Response, track_event}
use realtime_analytics_pipel.Ingestion.Producer.Delivery.{after_response, track_event_accounts}
use realtime_analytics_pipel.Ingestion.Service.{serve, flush, lifespan, accepted_events, IsServed}

module _ {Event : Type 0} (client : Client Event) (details : ℕ → Outcome (Unit {0})) where
  accepted_after :
      (o : Outcome Response) (events : List Event) (e : Event) (es : List Event)
      (rs : List (Outcome Response))
      → after_response client details o events e ++ accepted_events client details es rs
        ≡ events ++ accepted_events client details (e ∷ es) (o ∷ rs)
  accepted_after (ok r) events e es rs =
      append_assoc events (e ∷ []) (accepted_events client details es rs)
  accepted_after (raise x) events e es rs = refl

  serve-IsServed :
      (es : List Event) (t : client.State × Metrics)
      → let r = serve client details es t in IsServed client details es t r.0 r.1
  unfolding serve
  serve-IsServed [] t = record {
    each = refl;
    taken = sym (append-nil (client.taken t.0));
    requests = omega arith;
    failures = omega arith;
    observed = omega arith;
  }
  serve-IsServed (e ∷ es) (s, m) =
      let r = track_event client details e (s, m) in
      let ih = serve-IsServed es r.1 in
      let counts = track_event_accounts client details e s m in
      let rs = (serve client details es r.1).0 in
      record {
        each = ap suc ih.each;
        taken =
            ih.taken
            ∙ ap (λ l. l ++ accepted_events client details es rs) counts.0
            ∙ accepted_after r.0 (client.taken s) e es rs;
        requests = omega (arith, ih.requests, ap (λ n. n.ingestion_requests) counts.1);
        failures = omega (arith, ih.failures, ap (λ n. n.kafka_producer_errors) counts.1);
        observed = omega (arith, ih.observed, ap (λ n. n.ingestion_latency) counts.1);
      }

  -- When the start has not raised, the service answers every request and flushes the library at the end. By
  -- then the library has taken, after those it had before and in order, exactly the events whose requests were
  -- answered "accepted"; every request has been counted and its latency observed, and the error counter has
  -- gone up by the number of requests that raised an `Exception`.
  pub lifespan-IsServed :
      (es : List Event) (t : client.State × Metrics)
      → let life = lifespan client details (ok tt) es t in
        IsServed client details es t life.responses life.state
        × (life.flushed ≡ true)
        × (life.outcome ≡ ok tt)
  unfolding lifespan flush
  lifespan-IsServed es t =
      let r = serve client details es t in
      let i = serve-IsServed es t in
      (
        record {
          each = i.each;
          taken = client.flush_taken r.1.0 ∙ i.taken;
          requests = i.requests;
          failures = i.failures;
          observed = i.observed;
        },
        refl,
        refl,
      )
