-- ===== src/Processing/Coordinator.antt =====
-- `JobCoordinator` of services/processing/src/core/job_coordinator.py with the jobs that main.py
-- registers. The table environment of Flink is what has been asked of it; a pipeline is a parameter,
-- and may raise when it is built. That the calls of Flink themselves raise is left out.
pub mod Tests
use realtime_analytics_pipel.Prelude.{
  ◌≡◌, refl, sym, ap, ◌∙◌, Bool, true, false, List, [], ◌∷◌, ◌++◌, String, Exn, Outcome, ok, raise,
  ◌>>=◌,
}
use mathlib.Core.List.{append-nil, append_assoc}

-- `pipeline` is what `build_pipeline` returns or raises
pub record Job (Pipeline : Type 0) : Type 0 where
  pub name : String
  pub sink_name : String
  pub pipeline : Outcome Pipeline

-- the tables registered, the inserts of the statement set, and whether it has been executed
pub record Environment (Pipeline : Type 0) : Type 0 where
  pub tables : List String
  pub inserts : List (String × Pipeline)
  pub executed : Bool

module _ {Pipeline : Type 0} where
  -- `self.jobs.append(job)`
  unfoldable pub register_job : Job Pipeline → List (Job Pipeline) → List (Job Pipeline)
  register_job job jobs = jobs ++ job ∷ []

  -- `_register_connectors`: one source and three sinks
  unfoldable pub register_connectors : Environment Pipeline → Environment Pipeline
  register_connectors t = record t {
    tables =
        t.tables ++ "events" ∷ "event_metrics" ∷ "session_metrics" ∷ "performance_metrics" ∷ [];
  }

  unfoldable pub add_insert : String → Pipeline → Environment Pipeline → Environment Pipeline
  add_insert sink pipeline t = record t { inserts = t.inserts ++ (sink, pipeline) ∷ [] }

  -- the loop over the jobs
  unfoldable pub add_jobs :
      List (Job Pipeline) → Environment Pipeline → Outcome (Unit {0}) × Environment Pipeline
  add_jobs [] t = (ok tt, t)
  add_jobs (job ∷ jobs) t = elim job.pipeline [
    | ok p ↦ add_jobs jobs (add_insert job.sink_name p t)
    | raise e ↦ (raise e, t)
  ]

  -- `statement_set.execute()`, when the loop has not raised
  unfoldable pub submit :
      Outcome (Unit {0}) × Environment Pipeline → Outcome (Unit {0}) × Environment Pipeline
  submit (ok _, t) = (ok tt, record t { executed = true })
  submit (raise e, t) = (raise e, t)

  unfoldable pub execute :
      List (Job Pipeline) → Environment Pipeline → Outcome (Unit {0}) × Environment Pipeline
  execute jobs t = submit (add_jobs jobs (register_connectors t))

-- the jobs that `main` registers, with their pipelines
unfoldable pub main_jobs :
    {Pipeline : Type 0}
    → Outcome Pipeline
    → Outcome Pipeline
    → Outcome Pipeline
    → List (Job Pipeline)
main_jobs event session performance =
    register_job
      (record {
        name = "PerformanceTracker";
        sink_name = "performance_metrics";
        pipeline = performance;
      })
      (register_job
        (record { name = "SessionTracker"; sink_name = "session_metrics"; pipeline = session })
        (register_job
          (record { name = "EventAggregator"; sink_name = "event_metrics"; pipeline = event }) []))
