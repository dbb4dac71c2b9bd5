-- ===== src/Cache/Main/Shutdown.antt =====
-- The order of the shutdown: the worker has finished before Redis is closed.
use mathlib.Core.Path.{subst}
use realtime_analytics_pipel.Prelude.{
  ℕ, ◌≡◌, refl, sym, ◌∙◌, Bool, true, false, none, some, [], ◌++◌, Outcome, ◌⊎◌, inl, inr,
}
use realtime_analytics_pipel.Cache.Worker.{Settings, finished, Worker, operations}
use realtime_analytics_pipel.Cache.Worker.Steps as Steps
use realtime_analytics_pipel.Cache.Worker.Steps.{
  received, waits_in_put, put_ended, told_to_stop, collected, applied, commit_ended, left,
  final_applied, final_commit_ended,
}
use realtime_analytics_pipel.Cache.Worker.Delivery.{Reach-IsHandled}
use realtime_analytics_pipel.Cache.Worker.Delivery.{delivered_at_end}
use realtime_analytics_pipel.Cache.Main.{
  Task, starting, consuming, draining, stopping, done, Service, up, cancel_task, Allowed, Step,
  started, start_failed, start_cancelled, worked, loop_ended, loop_cancelled, drained,
  drain_cancelled, consumer_stopped, stop_cancelled, shutdown, closes, Run, here, next,
}

none-some : {A : Type 0} {a : A} → ¬ (none ≡ some a)
none-some h = cc

-- what the stage of the task says of the worker, of a shutdown and of a cancellation
abbrev Stage :
    Task → (worker_finished : Type 0) → (failed shutting_down requested working : Bool) → Type 0
Stage starting f failed shutting requested working = working ≡ false
Stage consuming f failed shutting requested working = Unit
Stage (draining o) f failed shutting requested working =
    (failed ≡ true) ⊎ ((shutting ≡ true) × (requested ≡ false))
Stage (stopping o) f failed shutting requested working = f
Stage (done o) f failed shutting requested working = (failed ≡ true) ⊎ ((working ≡ false) ⊎ f)

abbrev pub IsDone : Task → Type 0
IsDone t = (o : Outcome (Unit {0})) × (t ≡ done o)

shutdown_stage :
    (t : Task) (F : Type 0) (failed shutting requested working now : Bool)
    → shutting ≡ false
    → Stage t F failed shutting requested working
    → Stage t F failed true now working
shutdown_stage starting F failed shutting requested working now h i = i
shutdown_stage consuming F failed shutting requested working now h i = tt
shutdown_stage (draining o) F failed shutting requested working now h (inl f) = inl f
shutdown_stage (draining o) F failed shutting requested working now h (inr (s, r)) = absurd (cc)
shutdown_stage (stopping o) F failed shutting requested working now h i = i
shutdown_stage (done o) F failed shutting requested working now h i = i

drained_by :
    (F : Type 0) (failed shutting requested working : Bool) (o : Outcome (Unit {0}))
    → requested ≡ true
    → Stage (draining o) F failed shutting requested working
    → failed ≡ true
drained_by F failed shutting requested working o h (inl f) = f
drained_by F failed shutting requested working o h (inr (s, r)) = absurd (cc)

module _ {Op : Type 0} (settings : Settings) (commit_offset : ℕ → ℕ → ℕ) (began : ℕ) where
  record IsSound (s : Service Op) : Type 0 where
    reached : Steps.Reach settings true commit_offset (Steps.start began) s.worker
    requested_by : s.requested ≡ true → s.shutting_down ≡ true
    stage : Stage s.task (s.worker.phase ≡ finished) s.failed s.shutting_down s.requested s.working
    closed_after : (s.closed ≡ none) ⊎ IsDone s.task

  up-IsSound : IsSound (up began)
  up-IsSound = record {
    reached = Steps.here;
    requested_by = λ h. absurd (cc);
    stage = refl;
    closed_after = inl refl;
  }

  -- the stage at a task that is known
  at :
      {t : Task} (s : Service Op)
      → s.task ≡ t
      → IsSound s
      → Stage t (s.worker.phase ≡ finished) s.failed s.shutting_down s.requested s.working
  at s h i =
      subst
        (λ t. Stage t (s.worker.phase ≡ finished) s.failed s.shutting_down s.requested s.working) h
        i.stage

  open_at : {t : Task} (s : Service Op) → s.task ≡ t → ¬ IsDone t → IsSound s → s.closed ≡ none
  open_at s h n i = elim i.closed_after [ inl c ↦ c | inr d ↦ absurd (n (d.0, sym h ∙ d.1)) ]

  -- a worker that has finished takes no step, and gets no message unless the loop is running
  no_step :
      (t : Task) {w v : Worker Op} (st : Steps.Step settings true commit_offset w v)
      → Allowed settings commit_offset t st
      → ¬ (t ≡ consuming)
      → ¬ (w.phase ≡ finished)
  no_step t (received op h r m e) a n f = absurd (n a)
  no_step t (waits_in_put op h r m e) a n f = absurd (n a)
  no_step t (put_ended op h r m e) a n f = absurd (n a)
  no_step t (told_to_stop e) a n f = absurd (cc)
  no_step t (collected now h r e) a n f = absurd (cc)
  no_step t (applied now b h e) a n f = absurd (cc)
  no_step t (commit_ended now b h e) a n f = absurd (cc)
  no_step t (left h r e) a n f = absurd (cc)
  no_step t (final_applied b h e) a n f = absurd (cc)
  no_step t (final_commit_ended b h e) a n f = absurd (cc)

  worked_stage :
      (t : Task) {w v : Worker Op} (st : Steps.Step settings true commit_offset w v)
      (failed shutting requested working : Bool)
      → Allowed settings commit_offset t st
      → working ≡ true
      → Stage t (w.phase ≡ finished) failed shutting requested working
      → Stage t (v.phase ≡ finished) failed shutting requested working
  worked_stage starting st failed shutting requested working a h i = absurd (cc)
  worked_stage consuming st failed shutting requested working a h i = tt
  worked_stage (draining o) st failed shutting requested working a h i = i
  worked_stage (stopping o) st failed shutting requested working a h i =
      absurd (no_step (stopping o) st a (λ e. cc) i)
  worked_stage (done o) st failed shutting requested working a h (inl f) = inl f
  worked_stage (done o) st failed shutting requested working a h (inr (inl n)) = absurd (cc)
  worked_stage (done o) st failed shutting requested working a h (inr (inr f)) =
      absurd (no_step (done o) st a (λ e. cc) f)

  stopped_worker :
      (s : Service Op)
      → IsSound s
      → Steps.Reach settings true commit_offset
          (Steps.start began)
          (record s.worker { stopped = true })
  stopped_worker s i = Steps.next i.reached (told_to_stop refl)

  Step-IsSound : {s t : Service Op} → Step settings commit_offset s t → IsSound s → IsSound t
  Step-IsSound {s} (started h w) i = subst IsSound (sym w) (record {
    reached = i.reached;
    requested_by = i.requested_by;
    stage = tt;
    closed_after = inl (open_at s h (λ d. cc) i);
  })
  Step-IsSound {s} (start_failed e h x w) i = subst IsSound (sym w) (record {
    reached = i.reached;
    requested_by = i.requested_by;
    stage = inr (inl (at s h i));
    closed_after = inr (_, refl);
  })
  Step-IsSound {s} (start_cancelled h r w) i = subst IsSound (sym w) (record {
    reached = i.reached;
    requested_by = λ x. absurd (cc);
    stage = inr (inl (at s h i));
    closed_after = inr (_, refl);
  })
  Step-IsSound {s} (worked v st h c a w) i = subst IsSound (sym w) (record {
    reached = Steps.next i.reached st;
    requested_by = i.requested_by;
    stage = worked_stage s.task st s.failed s.shutting_down s.requested s.working a h i.stage;
    closed_after = i.closed_after;
  })
  Step-IsSound {s} (loop_ended o h w) i = subst IsSound (sym w) (record {
    reached = stopped_worker s i;
    requested_by = i.requested_by;
    stage = inl refl;
    closed_after = inl (open_at s h (λ d. cc) i);
  })
  Step-IsSound {s} (loop_cancelled h r w) i = subst IsSound (sym w) (record {
    reached = stopped_worker s i;
    requested_by = λ x. absurd (cc);
    stage = inr (i.requested_by r, refl);
    closed_after = inl (open_at s h (λ d. cc) i);
  })
  Step-IsSound {s} (drained o h f w) i = subst IsSound (sym w) (record {
    reached = i.reached;
    requested_by = i.requested_by;
    stage = f;
    closed_after = inl (open_at s h (λ d. cc) i);
  })
  Step-IsSound {s} (drain_cancelled o h r w) i = subst IsSound (sym w) (record {
    reached = i.reached;
    requested_by = λ x. absurd (cc);
    stage = inl (
        drained_by (s.worker.phase ≡ finished) s.failed s.shutting_down s.requested s.working o r
          (at s h i));
    closed_after = inr (_, refl);
  })
  Step-IsSound {s} (consumer_stopped o r h w) i = subst IsSound (sym w) (record {
    reached = i.reached;
    requested_by = i.requested_by;
    stage = inr (inr (at s h i));
    closed_after = inr (_, refl);
  })
  Step-IsSound {s} (stop_cancelled o h r w) i = subst IsSound (sym w) (record {
    reached = i.reached;
    requested_by = λ x. absurd (cc);
    stage = inr (inr (at s h i));
    closed_after = inr (_, refl);
  })
  Step-IsSound {s} (shutdown h w) i = subst IsSound (sym w) (record {
    reached = i.reached;
    requested_by = λ x. refl;
    stage =
        shutdown_stage s.task (s.worker.phase ≡ finished) s.failed s.shutting_down s.requested
          s.working (cancel_task s.task) h i.stage;
    closed_after = i.closed_after;
  })
  Step-IsSound {s} (closes o r h d c w) i = subst IsSound (sym w) (record {
    reached = i.reached;
    requested_by = i.requested_by;
    stage = i.stage;
    closed_after = inr (o, d);
  })

  Run-IsSound : {s : Service Op} → Run settings commit_offset (up began) s → IsSound s
  Run-IsSound here = up-IsSound
  Run-IsSound (next r st) = Step-IsSound st (Run-IsSound r)

  finished_at_end :
      (s : Service Op)
      → IsSound s
      → IsDone s.task
      → s.failed ≡ false
      → s.working ≡ true
      → s.worker.phase ≡ finished
  finished_at_end s i (o, d) f w = elim (at s d i) [
    | inl e ↦ absurd (cc)
    | inr (inl n) ↦ absurd (cc)
    | inr (inr e) ↦ e
  ]

  -- When `lifespan` has closed Redis, and the loop had begun and had not ended by itself before the
  -- shutdown: the task of the consume loop is done, the worker has finished, its queue is empty, and every
  -- operation that it was given is in Redis or was dropped in its final flush, once and in order, whatever
  -- failed and whatever `redis.close()` did.
  pub closed_after_worker :
      {s : Service Op} (r : Outcome (Unit {0}))
      → Run settings commit_offset (up began) s
      → s.closed ≡ some r
      → s.failed ≡ false
      → s.working ≡ true
      → IsDone s.task
        × (s.worker.phase ≡ finished)
        × (s.worker.queue ≡ [])
        × (s.worker.persisted ++ s.worker.dropped ≡ operations s.worker.log)
  closed_after_worker {s} r run c f w =
      let i = Run-IsSound run in
      let d : IsDone s.task = elim i.closed_after [
        | inl n ↦ absurd (none-some (sym n ∙ c))
        | inr d ↦ d
      ] in
      let e = finished_at_end s i d f w in
      let h =
        delivered_at_end s.worker (Reach-IsHandled settings true commit_offset began i.reached) e in
      (d, e, h.0, h.1)
