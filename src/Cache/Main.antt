-- ===== src/Cache/Main.antt =====
-- The life of the cache service: `lifespan` of services/cache/src/main.py, and `consume_loop` of
-- services/cache/src/infrastructure/kafka/consumer.py around the worker that it starts. The connection to
-- Redis and the start of the Kafka consumer are given by their outcomes.
pub mod Shutdown
pub mod Tests
use realtime_analytics_pipel.Prelude.{
  ℕ, ◌≡◌, Bool, true, false, Option, none, some, Exn, cancelled_error, Outcome, ok, raise,
  is_exception, ◌>>=◌,
}
use realtime_analytics_pipel.Cache.Worker.{Settings, finished, Worker}
use realtime_analytics_pipel.Cache.Worker.Steps as Steps
use realtime_analytics_pipel.Cache.Worker.Steps.{
  received, waits_in_put, put_ended, told_to_stop, collected, applied, commit_ended, left,
  final_applied, final_commit_ended,
}

-- where the task of `consume_loop` is: in `start_consumer_with_retries`, in the loop over the messages, in
-- `await worker_task` or `await consumer.stop()` with what the `try` has ended with, or done
pub data Task : Type 0 where
  starting : Task
  consuming : Task
  draining : Outcome (Unit {0}) → Task
  stopping : Outcome (Unit {0}) → Task
  done : Outcome (Unit {0}) → Task

-- `requested` is a cancellation of the task that has not been raised in it, `working` tells that the
-- worker's task exists, `failed` that the loop has ended other than by a cancellation, `shutting_down`
-- that `lifespan` is in its `finally`, and `closed` what closing Redis has returned or raised
pub record Service (Op : Type 0) : Type 0 where
  pub task : Task
  pub requested : Bool
  pub worker : Worker Op
  pub working : Bool
  pub worker_cancelled : Bool
  pub failed : Bool
  pub shutting_down : Bool
  pub closed : Option (Outcome (Unit {0}))

-- what a task ends with when `consumer.stop()` has returned or raised
abbrev pub after_stop : Outcome (Unit {0}) → Outcome (Unit {0}) → Outcome (Unit {0})
after_stop (ok u) o = o
after_stop (raise e) o = raise e

-- a cancellation of a task that is done does nothing
abbrev pub cancel_task : Task → Bool
cancel_task (done o) = false
cancel_task _ = true

module _ {Op : Type 0} where
  -- `lifespan` after `create_task`
  abbrev pub up : ℕ → Service Op
  up began = record {
    task = starting;
    requested = false;
    worker = Steps.start began;
    working = false;
    worker_cancelled = false;
    failed = false;
    shutting_down = false;
    closed = none;
  }

  -- the `finally` of `consume_loop` begins, with what the `try` has ended with
  abbrev pub leave_loop : Outcome (Unit {0}) → Service Op → Service Op
  leave_loop o s = record s { task = draining o; worker = record s.worker { stopped = true } }

  -- the task ends with a cancellation
  abbrev pub cancelled : Service Op → Service Op
  cancelled s = record s { task = done (raise cancelled_error); requested = false }

  module _ (settings : Settings) (commit_offset : ℕ → ℕ → ℕ) where
    -- the steps of the worker, and the messages, which only come in the loop over them
    abbrev pub Allowed :
        {w v : Worker Op} → Task → Steps.Step settings true commit_offset w v → Type 0
    Allowed t (received op h r n e) = t ≡ consuming
    Allowed t (waits_in_put op h r n e) = t ≡ consuming
    Allowed t (put_ended op h r n e) = t ≡ consuming
    Allowed t (told_to_stop e) = true ≡ false
    Allowed t _ = Unit

    pub data Step (s t : Service Op) : Type 0 where
      started : s.task ≡ starting → t ≡ record s { task = consuming; working = true } → Step s t
      start_failed :
          (e : Exn)
          → s.task ≡ starting
          → is_exception e ≡ true
          → t ≡ record s { task = done (raise e) }
          → Step s t
      start_cancelled : s.task ≡ starting → s.requested ≡ true → t ≡ cancelled s → Step s t
      worked :
          (w : Worker Op) (st : Steps.Step settings true commit_offset s.worker w)
          → s.working ≡ true
          → s.worker_cancelled ≡ false
          → Allowed s.task st
          → t ≡ record s { worker = w }
          → Step s t
      loop_ended :
          (o : Outcome (Unit {0}))
          → s.task ≡ consuming
          → t ≡ leave_loop o (record s { failed = true })
          → Step s t
      loop_cancelled :
          s.task ≡ consuming
          → s.requested ≡ true
          → t ≡ leave_loop (raise cancelled_error) (record s { requested = false })
          → Step s t
      drained :
          (o : Outcome (Unit {0}))
          → s.task ≡ draining o
          → s.worker.phase ≡ finished
          → t ≡ record s { task = stopping o }
          → Step s t
      -- a task that awaits another one hands its cancellation on to that one
      drain_cancelled :
          (o : Outcome (Unit {0}))
          → s.task ≡ draining o
          → s.requested ≡ true
          → t ≡ cancelled (record s { worker_cancelled = true })
          → Step s t
      consumer_stopped :
          (o r : Outcome (Unit {0}))
          → s.task ≡ stopping o
          → t ≡ record s { task = done (after_stop r o) }
          → Step s t
      stop_cancelled :
          (o : Outcome (Unit {0}))
          → s.task ≡ stopping o
          → s.requested ≡ true
          → t ≡ cancelled s
          → Step s t
      -- `app.state.consumer_task.cancel()`
      shutdown :
          s.shutting_down ≡ false
          → t ≡ record s { shutting_down = true; requested = cancel_task s.task }
          → Step s t
      -- `await app.state.consumer_task`, whose exceptions are swallowed, and `await app.state.redis.close()`
      closes :
          (o r : Outcome (Unit {0}))
          → s.shutting_down ≡ true
          → s.task ≡ done o
          → s.closed ≡ none
          → t ≡ record s { closed = some r }
          → Step s t

    pub data Run (s : Service Op) : Service Op → Type 0 where
      here : Run s s
      next : {t u : Service Op} → Run s t → Step t u → Run s u
