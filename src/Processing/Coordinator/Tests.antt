-- ===== src/Processing/Coordinator/Tests.antt =====
-- The jobs of `main`, with numbers for their pipelines.
use realtime_analytics_pipel.Prelude.{ℕ, ◌≡◌, refl, true, false, [], ◌∷◌, ok, raise, value_error}
use realtime_analytics_pipel.Processing.Coordinator.{
  Environment, register_job, register_connectors, add_insert, add_jobs, submit, execute, main_jobs,
}

abbrev fresh : Environment ℕ
fresh = record { tables = []; inserts = []; executed = false }

runs_the_jobs : execute (main_jobs (ok 1) (ok 2) (ok 3)) fresh ≡ (
  ok tt,
  record {
    tables = "events" ∷ "event_metrics" ∷ "session_metrics" ∷ "performance_metrics" ∷ [];
    inserts = ("event_metrics", 1) ∷ ("session_metrics", 2) ∷ ("performance_metrics", 3) ∷ [];
    executed = true;
  },
)
unfolding main_jobs register_job execute submit add_jobs add_insert register_connectors
runs_the_jobs = refl

-- the second pipeline cannot be built: nothing is executed, and the first insert has been added
stops_at_the_second : execute (main_jobs (ok 1) (raise value_error) (ok 3)) fresh ≡ (
  raise value_error,
  record {
    tables = "events" ∷ "event_metrics" ∷ "session_metrics" ∷ "performance_metrics" ∷ [];
    inserts = ("event_metrics", 1) ∷ [];
    executed = false;
  },
)
unfolding main_jobs register_job execute submit add_jobs add_insert register_connectors
stops_at_the_second = refl
