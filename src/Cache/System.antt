-- ===== src/Cache/System.antt =====
-- The worker and the repository together: services/cache/src/infrastructure/kafka/worker.py calls
-- `pipeline_apply` of ../redis/repository.py with its batch, and that call changes Redis.
pub mod Cached
pub mod Interrupt
pub mod Latest
pub mod Tests
use realtime_analytics_pipel.Prelude.{ℕ, ◌≡◌, Bool, true, false, List, ◌++◌, if◌then◌else◌}
use realtime_analytics_pipel.Prelude.Order.{Order}
use realtime_analytics_pipel.Cache.Index.{IsPartOf}
use realtime_analytics_pipel.Cache.Redis.{event, Redis}
use realtime_analytics_pipel.Cache.Repository.{
  Operation, Command, commands, saw_event, execute, trim_index, pipeline_apply,
}
use realtime_analytics_pipel.Cache.Worker.{Settings, Worker}
use realtime_analytics_pipel.Cache.Worker.Steps as Steps
use realtime_analytics_pipel.Cache.Worker.Steps.{
  received, waits_in_put, put_ended, told_to_stop, collected, applied, commit_ended, left,
  final_applied, final_commit_ended,
}

module _ {W Fields Data : Type 0} {order : Order W} (redis : Redis W order Fields Data)
    (retention ttl : ℕ) where
  -- what a call of `pipeline_apply` that raises has done: some of the commands of its pipeline, as one that
  -- fails stops no later one, or all of them and the trimming of the event index, or everything, when
  -- only the last reply was lost
  pub data Interrupted (batch : List (Operation W Fields)) (s s' : redis.State) : Type 0 where
    broke_off :
        (cs : List (Command W Fields))
        → IsPartOf cs (commands ttl batch)
        → s' ≡ execute redis cs s
        → Interrupted batch s s'
    event_trimmed :
        s' ≡ (
          let written = execute redis (commands ttl batch) s in
          if saw_event batch then trim_index redis retention event written else written)
        → Interrupted batch s s'
    reply_lost : s' ≡ pipeline_apply redis retention ttl batch s → Interrupted batch s s'

  module _ (settings : Settings) (has_consumer : Bool) (commit_offset : ℕ → ℕ → ℕ) where
    -- what a step of the worker does to Redis
    abbrev pub Effect :
        {w v : Worker (Operation W Fields)}
        → Steps.Step settings has_consumer commit_offset w v
        → redis.State
        → redis.State
        → Type 0
    Effect {w} (applied now true h e) s s' = s' ≡ pipeline_apply redis retention ttl w.batch s
    Effect {w} (applied now false h e) s s' = Interrupted w.batch s s'
    Effect {w} (final_applied true h e) s s' = s' ≡ pipeline_apply redis retention ttl w.batch s
    Effect {w} (final_applied false h e) s s' = Interrupted w.batch s s'
    Effect _ s s' = s' ≡ s

    -- runs of the worker with Redis beside it
    pub data Reach (w : Worker (Operation W Fields)) (s : redis.State)
        : Worker (Operation W Fields) → redis.State → Type 0 where
      here : Reach w s w s
      next :
          {v u : Worker (Operation W Fields)} {s' s'' : redis.State}
          → Reach w s v s'
          → (st : Steps.Step settings has_consumer commit_offset v u) → Effect st s' s''
          → Reach w s u s''

    -- the worker's part of a run
    pub Reach-Worker :
        {w : Worker (Operation W Fields)} {s : redis.State} {v : Worker (Operation W Fields)}
        {s' : redis.State}
        → Reach w s v s'
        → Steps.Reach settings has_consumer commit_offset w v
    Reach-Worker here = Steps.here
    Reach-Worker (next r st e) = Steps.next (Reach-Worker r) st
