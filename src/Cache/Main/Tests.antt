-- ===== src/Cache/Main/Tests.antt =====
-- A shutdown after one message, whose operation the worker takes, writes and commits.
use realtime_analytics_pipel.Prelude.{
  ℕ, ◌≡◌, refl, true, none, some, [], ◌∷◌, ◌++◌, cancelled_error, ok, raise, library,
}
use realtime_analytics_pipel.Cache.Worker.{
  Settings, finished, Worker, operations, receive, has_room, loop_goes_on, leave,
}
use realtime_analytics_pipel.Cache.Worker.Steps.{start, received, left}
use realtime_analytics_pipel.Cache.Main.{
  Task, done, Service, up, started, worked, loop_cancelled, drained, consumer_stopped, shutdown,
  closes, Run, here, next,
}
use realtime_analytics_pipel.Cache.Main.Shutdown.{IsDone, closed_after_worker}

abbrev settings : Settings
settings = record {
  kafka_commit_interval_ms = 1000;
  redis_write_batch_size = 50;
  redis_queue_max_size = 5000;
}

abbrev at_position : ℕ → ℕ → ℕ
at_position position committed = position

-- a message that is ignored
abbrev ignored : Worker ℕ
ignored = record (start 0) {
  records_total = 1;
  handed_out = none ∷ [];
  log = none ∷ [];
  ready = true;
}

abbrev end_worker : Worker ℕ
end_worker = record ignored { stopped = true; phase = finished }

abbrev at : Task → Worker ℕ → Service ℕ
at t w = record (up 0) { task = t; worker = w; working = true }

abbrev after_shutdown : Task → Worker ℕ → Service ℕ
after_shutdown t w = record (at t w) { shutting_down = true }

program : Unit {0}
unfolding receive has_room loop_goes_on leave
program = tt

whole :
    Run settings at_position
      (up 0)
      (record (after_shutdown (done (raise cancelled_error)) end_worker) {
        closed = some (raise (library 1));
      })
unfolding program
whole =
    next
      (next
        (next
          (next
            (next
              (next
                (next (next here (started refl refl))
                  (worked ignored (received none refl refl refl refl) refl refl refl refl))
                (shutdown refl refl))
              (loop_cancelled refl refl refl))
            (worked end_worker (left refl refl refl) refl refl tt refl))
          (drained (raise cancelled_error) refl refl refl))
        (consumer_stopped (raise cancelled_error) (ok tt) refl refl))
      (closes (raise cancelled_error) (raise (library 1)) refl refl refl refl)

closed_after_worker_example :
    IsDone (done (raise cancelled_error))
    × (end_worker.phase ≡ finished)
    × (end_worker.queue ≡ [])
    × (end_worker.persisted ++ end_worker.dropped ≡ operations end_worker.log)
closed_after_worker_example =
    closed_after_worker settings at_position 0 (raise (library 1)) whole refl refl refl
