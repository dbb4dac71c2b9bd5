-- ===== src/Cache/Api/Tests.antt =====
-- The service after one message that is ignored, when the consume loop has then raised; and the endpoints.
use realtime_analytics_pipel.Prelude.{
  ℕ, ◌≡◌, refl, true, none, [], ◌∷◌, ok, raise, library, cancelled_error,
}
use realtime_analytics_pipel.Cache.Worker.{Settings, Worker, receive, has_room}
use realtime_analytics_pipel.Cache.Worker.Steps.{start, received}
use realtime_analytics_pipel.Cache.Main.{
  draining, Service, up, started, worked, loop_ended, Run, here, next,
}
use realtime_analytics_pipel.Cache.Api.{refused, healthz, readyz}
use realtime_analytics_pipel.Cache.Api.Readiness.{ready_after, readyz-Run}

abbrev settings : Settings
settings = record {
  kafka_commit_interval_ms = 1000;
  redis_write_batch_size = 50;
  redis_queue_max_size = 5000;
}

abbrev at_position : ℕ → ℕ → ℕ
at_position position committed = position

abbrev ignored : Worker ℕ
ignored = record (start 0) {
  records_total = 1;
  handed_out = none ∷ [];
  log = none ∷ [];
  ready = true;
}

abbrev broken : Service ℕ
broken = record (up 0) {
  task = draining (raise (library 3));
  worker = record ignored { stopped = true };
  working = true;
  failed = true;
}

program : Unit {0}
unfolding receive has_room
program = tt

breaks : Run settings at_position (up 0) broken
unfolding program
breaks =
    next
      (next (next here (started refl refl))
        (worked ignored (received none refl refl refl refl) refl refl refl refl))
      (loop_ended (raise (library 3)) refl refl)

readyz-Run_example : readyz broken.worker.ready ≡ ready_after broken.worker.log
readyz-Run_example = readyz-Run settings at_position 0 breaks

no_redis : healthz {Pong = ℕ} (λ e. "down") (raise (library 3)) ≡ ok (refused 503 "down")
unfolding healthz
no_redis = refl

cancelled_ping : healthz {Pong = ℕ} (λ e. "down") (raise cancelled_error) ≡ raise cancelled_error
unfolding healthz
cancelled_ping = refl

not_ready : readyz (up {Op = ℕ} 0).worker.ready ≡ refused 503 "not ready"
unfolding readyz
not_ready = refl
