-- ===== src/Cache/Worker/Drain.antt =====
-- The end of the worker: once it is told to stop, it drains the queue and finishes.
use realtime_analytics_pipel.Prelude.{ℕ, ◌≡◌, Bool, true, List}
use realtime_analytics_pipel.Cache.Worker.{Settings, finished, Worker}
use realtime_analytics_pipel.Cache.Worker.Steps.{Reach}

module _ {Op : Type 0} (settings : Settings) (has_consumer : Bool) (commit_offset : ℕ → ℕ → ℕ) where
  -- the worker has finished, and dropped its last batch only if Redis failed
  pub record IsFinished (s t : Worker Op) (applies : Bool) : Type 0 where
    pub phase : t.phase ≡ finished
    pub reached : Reach settings has_consumer commit_offset s t
    pub dropped : applies ≡ true → t.dropped ≡ s.dropped
